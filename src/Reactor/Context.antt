-- ===== src/Reactor/Context.antt =====
-- centext.go: the key-value context of a connection. `none` is the nil map.
use Prim.Native.String.{String}
use text.Mathlib.Text.{◌==◌ as str_eq}
use text.Mathlib.TextEquality.{eq_iff}
use goreactor.Common.{List, [], ◌∷◌, Option, none, some, ◌≡◌, refl, arith, if◌then◌else◌}

module _ {V : Type 0} where
  -- A Go map, as a list in which the first entry of a key counts.
  unfoldable pub lookup : String → List (String × V) → Option V
  lookup k [] = none
  lookup k ((j, v) ∷ m) = if str_eq j k then some v else lookup k m

  unfoldable pub remove : String → List (String × V) → List (String × V)
  remove k [] = []
  remove k ((j, v) ∷ m) = if str_eq j k then remove k m else (j, v) ∷ remove k m

  -- `Set`
  unfoldable pub set_key : String → V → Option (List (String × V)) → Option (List (String × V))
  set_key k v none = some ((k, v) ∷ [])
  set_key k v (some m) = some ((k, v) ∷ m)

  -- `Delete`; on the nil map it does nothing.
  unfoldable pub delete_key : String → Option (List (String × V)) → Option (List (String × V))
  delete_key k none = none
  delete_key k (some m) = some (remove k m)

  -- `Get`
  unfoldable pub get_key : String → Option (List (String × V)) → Option V
  get_key k none = none
  get_key k (some m) = lookup k m

  -- `reset`
  unfoldable pub reset_keys : Option (List (String × V)) → Option (List (String × V))
  reset_keys kv = none

  lookup-remove :
      (k j : String) (m : List (String × V))
      → lookup j (remove k m) ≡ (if str_eq k j then none else lookup j m)
  unfolding lookup remove
  lookup-remove k j [] = ground arith
  lookup-remove k j ((i, v) ∷ m) =
      ground (arith, lookup-remove k j m, eq_iff i k, eq_iff i j, eq_iff k j)

  -- `Get` after `Set`, `Delete` and `reset`: the value that was set, nothing for what was deleted,
  -- for every other key what it was before, and nothing at all after `reset`; on the nil map too.
  pub get_key_lem :
      (k j : String) (v : V) (kv : Option (List (String × V)))
      → (get_key j (set_key k v kv) ≡ (if str_eq k j then some v else get_key j kv))
        × (get_key j (delete_key k kv) ≡ (if str_eq k j then none else get_key j kv))
        × (get_key j (reset_keys kv) ≡ none)
  unfolding get_key set_key delete_key reset_keys lookup
  get_key_lem k j v none = (refl, ground arith, refl)
  get_key_lem k j v (some m) = (refl, lookup-remove k j m, refl)
