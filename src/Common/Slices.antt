-- ===== src/Common/Slices.antt =====
-- The slice expressions and `copy` of Go on byte slices. `none` is the panic of an index out of
-- range. A slice's capacity is taken for its length: the program never slices beyond it.
use Prim.Native.Nat.{ℕ, zero, suc, ◌+◌, ◌-◌, ◌*◌, ◌<◌, ◌≤◌}
use mathlib.Core.Path.{◌≡◌, refl, ap}
use mathlib.Core.Bool.{◌&&◌}
use mathlib.Core.List.{List, [], ◌∷◌, ◌++◌}
use mathlib.Core.Option.{Option, none, some}
use native.Mathlib.Omega.{arith}
use goreactor.Common.Tests.{le→leb, ltb, leb, if◌then◌else◌}
use goreactor.Common.Lists.{set, length, get_or, take, drop}

-- `l[a:b]`
abbrev pub slice {ℓ} : {A : Type ℓ} → List A → ℕ → ℕ → Option (List A)
slice l a b = if leb a b && leb b (length l) then some (take (b - a) (drop a l)) else none

module _ {ℓ} {A : Type ℓ} where
  -- `copy(dst, src)`, on the slice that it changes.
  abbrev pub overwrite : List A → List A → List A
  overwrite [] src = []
  overwrite (x ∷ xs) [] = x ∷ xs
  overwrite (x ∷ xs) (y ∷ ys) = y ∷ overwrite xs ys

  -- What `copy(dst[off:], src)` makes of `dst`, for `off` in range.
  abbrev pub splice : List A → ℕ → List A → List A
  splice xs zero src = overwrite xs src
  splice [] (suc off) src = []
  splice (x ∷ xs) (suc off) src = x ∷ splice xs off src

  -- `copy(dst[off:], src)`
  abbrev pub copy_at : List A → ℕ → List A → Option (List A)
  copy_at dst off src = if leb off (length dst) then some (splice dst off src) else none

  pub length-overwrite : (xs src : List A) → length (overwrite xs src) ≡ length xs
  length-overwrite [] src = refl
  length-overwrite (x ∷ xs) [] = refl
  length-overwrite (x ∷ xs) (y ∷ ys) = ap suc (length-overwrite xs ys)

  pub length-splice :
      (xs : List A) (off : ℕ) (src : List A) → length (splice xs off src) ≡ length xs
  length-splice xs zero src = length-overwrite xs src
  length-splice [] (suc off) src = refl
  length-splice (x ∷ xs) (suc off) src = ap suc (length-splice xs off src)

  pub get_or-overwrite :
      (xs src : List A) (i : ℕ) (d : A)
      → i < length xs
      → get_or (overwrite xs src) i d
        ≡ (if ltb i (length src) then get_or src i d else get_or xs i d)
  get_or-overwrite [] src i d h = absurd (omega arith)
  get_or-overwrite (x ∷ xs) [] i d h = ground arith
  get_or-overwrite (x ∷ xs) (y ∷ ys) zero d h = ground arith
  get_or-overwrite (x ∷ xs) (y ∷ ys) (suc i) d h =
      ground (arith, get_or-overwrite xs ys i d (omega arith))

  pub get_or-splice :
      (xs : List A) (off : ℕ) (src : List A) (i : ℕ) (d : A)
      → i < length xs
      → get_or (splice xs off src) i d ≡ (
          if ltb i off
          then get_or xs i d
          else if ltb i (off + length src)
          then get_or src (i - off) d
          else get_or xs i d)
  get_or-splice xs zero src i d h = ground (arith, get_or-overwrite xs src i d h)
  get_or-splice [] (suc off) src i d h = absurd (omega arith)
  get_or-splice (x ∷ xs) (suc off) src zero d h = ground arith
  get_or-splice (x ∷ xs) (suc off) src (suc i) d h =
      ground (arith, get_or-splice xs off src i d (omega arith))

-- The number that big-endian bytes stand for, after the number `acc` of those before them.
abbrev pub be_number : ℕ → List ℕ → ℕ
be_number acc [] = acc
be_number acc (b ∷ bs) = be_number (acc * 256 + b) bs

-- `binary.BigEndian.Uint16`, `Uint32` and `Uint64`: the number in the first `width` bytes; the
-- panic is that of a slice that is too short.
abbrev pub be_uint : ℕ → List ℕ → Option ℕ
be_uint width bs = if leb width (length bs) then some (be_number 0 (take width bs)) else none

module _ {ℓ} {A : Type ℓ} where
  pub slice_lem :
      (l : List A) (a b : ℕ) → a ≤ b → b ≤ length l → slice l a b ≡ some (take (b - a) (drop a l))
  slice_lem l a b h k = rw (le→leb a b h, le→leb b (length l) k)

  pub copy_at_lem :
      (dst : List A) (off : ℕ) (src : List A)
      → off ≤ length dst
      → copy_at dst off src ≡ some (splice dst off src)
  copy_at_lem dst off src h = rw (le→leb off (length dst) h)

  pub overwrite-nil : (xs : List A) → overwrite xs [] ≡ xs
  overwrite-nil [] = refl
  overwrite-nil (x ∷ xs) = refl

  -- Two copies, one behind the other, are one copy.
  pub splice-overwrite :
      (xs a b : List A) → splice (overwrite xs a) (length a) b ≡ overwrite xs (a ++ b)
  splice-overwrite [] [] b = refl
  splice-overwrite [] (y ∷ a) b = refl
  splice-overwrite (x ∷ xs) [] b = refl
  splice-overwrite (x ∷ xs) (y ∷ a) b = ap (λ l. y ∷ l) (splice-overwrite xs a b)

  -- A copy that fills the whole slice.
  pub overwrite_full : (xs src : List A) → length xs ≡ length src → overwrite xs src ≡ src
  overwrite_full [] [] h = refl
  overwrite_full [] (y ∷ ys) h = absurd (omega arith)
  overwrite_full (x ∷ xs) [] h = absurd (omega arith)
  overwrite_full (x ∷ xs) (y ∷ ys) h = ap (λ l. y ∷ l) (overwrite_full xs ys (omega arith))

pub splice_one {ℓ} :
    {A : Type ℓ} (xs : List A) (off : ℕ) (x : A) → splice xs off (x ∷ []) ≡ set xs off x
splice_one [] zero x = refl
splice_one (y ∷ ys) zero x = ap (λ l. x ∷ l) (overwrite-nil ys)
splice_one [] (suc off) x = refl
splice_one (y ∷ ys) (suc off) x = ap (λ l. y ∷ l) (splice_one ys off x)
