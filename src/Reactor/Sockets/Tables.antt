-- ===== src/Reactor/Sockets/Tables.antt =====
-- A Go map from file descriptors, as a list in which the first entry of a key counts.
use goreactor.Common.{
  ℕ, suc, Bool, true, false, ◌&&◌, List, [], ◌∷◌, Option, none, some, ◌≡◌, refl, arith,
}
use goreactor.Common.{◌==◌, if◌then◌else◌, length}

module _ {V : Type 0} where
  unfoldable pub find : ℕ → List (ℕ × V) → Option V
  find k [] = none
  find k ((j, v) ∷ m) = if j == k then some v else find k m

  -- An assignment to a key, in place where the key is there.
  unfoldable pub put : ℕ → V → List (ℕ × V) → List (ℕ × V)
  put k v [] = (k, v) ∷ []
  put k v ((j, w) ∷ m) = if j == k then (k, v) ∷ m else (j, w) ∷ put k v m

  -- Go's `delete`
  unfoldable pub delete : ℕ → List (ℕ × V) → List (ℕ × V)
  delete k [] = []
  delete k ((j, v) ∷ m) = if j == k then delete k m else (j, v) ∷ delete k m

  unfoldable pub is_absent : Option V → Bool
  is_absent none = true
  is_absent (some v) = false

  -- No key has two entries.
  unfoldable pub are_distinct : List (ℕ × V) → Bool
  are_distinct [] = true
  are_distinct ((j, v) ∷ m) = is_absent (find j m) && are_distinct m

  pub find-put :
      (k j : ℕ) (v : V) (m : List (ℕ × V))
      → find j (put k v m) ≡ (if k == j then some v else find j m)
  unfolding find put
  find-put k j v [] = refl
  find-put k j v ((i, w) ∷ m) = ground (arith, find-put k j v m)

  pub find-delete :
      (k j : ℕ) (m : List (ℕ × V)) → find j (delete k m) ≡ (if k == j then none else find j m)
  unfolding find delete
  find-delete k j [] = ground arith
  find-delete k j ((i, w) ∷ m) = ground (arith, find-delete k j m)

  pub length-put :
      (k : ℕ) (v : V) (m : List (ℕ × V)) → find k m ≡ none → length (put k v m) ≡ suc (length m)
  unfolding find put
  length-put k v [] h = refl
  length-put k v ((i, w) ∷ m) h = ground (arith, length-put k v m)

  pub delete_absent : (k : ℕ) (m : List (ℕ × V)) → find k m ≡ none → delete k m ≡ m
  unfolding find delete
  delete_absent k [] h = refl
  delete_absent k ((i, w) ∷ m) h = ground (arith, delete_absent k m)

  pub delete-put : (k : ℕ) (v : V) (m : List (ℕ × V)) → find k m ≡ none → delete k (put k v m) ≡ m
  unfolding find put delete
  delete-put k v [] h = ground arith
  delete-put k v ((i, w) ∷ m) h = ground (arith, delete-put k v m)

  pub length-delete :
      (k : ℕ) (m : List (ℕ × V))
      → are_distinct m ≡ true
      → is_absent (find k m) ≡ false
      → suc (length (delete k m)) ≡ length m
  unfolding find delete are_distinct is_absent
  length-delete k [] d h = absurd (ground arith)
  length-delete k ((i, w) ∷ m) d h = ground (arith, length-delete k m, delete_absent k m)

  pub put-are_distinct :
      (k : ℕ) (v : V) (m : List (ℕ × V)) → are_distinct m ≡ true → are_distinct (put k v m) ≡ true
  unfolding find put are_distinct is_absent
  put-are_distinct k v [] d = refl
  put-are_distinct k v ((i, w) ∷ m) d = ground (arith, put-are_distinct k v m, find-put k i v m)

  pub delete-are_distinct :
      (k : ℕ) (m : List (ℕ × V)) → are_distinct m ≡ true → are_distinct (delete k m) ≡ true
  unfolding delete are_distinct is_absent
  delete-are_distinct k [] d = refl
  delete-are_distinct k ((i, w) ∷ m) d = ground (arith, delete-are_distinct k m, find-delete k i m)
