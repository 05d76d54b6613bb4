-- ===== src/Pool/Index.antt =====
-- The class of a buffer's size.
use goreactor.Common.{
  ℕ, zero, suc, ◌+◌, ◌-◌, ◌*◌, ◌/◌, ◌^◌, ◌≤◌, ◌<◌, ◌≡◌, ◌⊎◌, refl, arith, ap, le→leb, lt→leb_false,
  inl, inr,
}
use native.Mathlib.Nat.{pow-suc, one-le-pow, pow-le-pow_right}
use native.Mathlib.Decide.{dec_le}
use goreactor.Pool.Defs.{halvings, index, steps, min_size}

drop_one : (k : ℕ) → suc k - 1 ≡ k
drop_one k = omega arith

one_more : (k n : ℕ) → (k ≡ 0) ⊎ (2 ^ (k - 1) ≤ n / 2) → 0 < n → 2 ^ (suc k - 1) ≤ n
one_more zero n h pos = omega arith
one_more (suc k) n (inl h) pos = absurd (omega arith)
one_more (suc k) n (inr h) pos = omega (
  arith,
  h,
  pow-suc 2 k,
  ap (λ (t : ℕ). 2 ^ t) (drop_one k),
  ap (λ (t : ℕ). 2 ^ t) (drop_one (suc k)),
)

-- With fuel for every digit, the loop counts the binary digits of `n` on top of `idx`.
halvings_lem :
    (fuel n idx : ℕ)
    → n ≤ fuel
    → (k : ℕ) × (halvings fuel n idx ≡ idx + k) × (n < 2 ^ k) × ((k ≡ 0) ⊎ (2 ^ (k - 1) ≤ n))
unfolding halvings
halvings_lem zero n idx h = (0, omega arith, omega arith, inl refl)
halvings_lem (suc fuel) zero idx h = (0, omega arith, omega arith, inl refl)
halvings_lem (suc fuel) (suc n) idx h =
    let (k, counted, below, above) = halvings_lem fuel (suc n / 2) (idx + 1) (omega arith) in
    (
      suc k,
      ground (arith, counted),
      omega (arith, below, pow-suc 2 k),
      inr (one_more k (suc n) above (omega arith)),
    )

-- What the class `idx` is to `k`, the number of binary digits of `n - 1` above the lowest six.
IsClass : ℕ → ℕ → Type 0
IsClass n idx =
    (idx < steps)
    × ((idx ≡ steps - 1) ⊎ (n ≤ min_size * 2 ^ idx))
    × ((idx ≡ 0) ⊎ (min_size * 2 ^ (idx - 1) < n))

small-IsClass :
    (n k : ℕ)
    → k < steps
    → (n - 1) / 64 < 2 ^ k
    → (k ≡ 0) ⊎ (2 ^ (k - 1) ≤ (n - 1) / 64)
    → IsClass n k
unfolding IsClass
small-IsClass n k h below (inl e) = (h, inr (omega arith), inl e)
small-IsClass n zero h below (inr above) = (h, inr (omega arith), inl refl)
small-IsClass n (suc k) h below (inr above) =
    (h, inr (omega arith), inr (omega (arith, one-le-pow k 2, ap (λ (t : ℕ). 2 ^ t) (drop_one k))))

last-IsClass :
    (n k : ℕ) → steps ≤ k → (k ≡ 0) ⊎ (2 ^ (k - 1) ≤ (n - 1) / 64) → IsClass n (steps - 1)
unfolding IsClass
last-IsClass n k h (inl e) = absurd (omega arith)
last-IsClass n k h (inr above) = (
  omega arith,
  inl refl,
  inr (
      omega
        (arith, above, pow-le-pow_right {n = 2} (omega arith) {i = 18} {j = k - 1} (omega arith))),
)

IsClass-of_digits :
    (n k : ℕ)
    → halvings ((n - 1) / 64) ((n - 1) / 64) 0 ≡ k
    → (n - 1) / 64 < 2 ^ k
    → (k ≡ 0) ⊎ (2 ^ (k - 1) ≤ (n - 1) / 64)
    → IsClass n (index n)
unfolding index
IsClass-of_digits n k counted below above = elim (dec_le steps k) [
  | yes h ↦ rw (counted, le→leb steps k h) (last-IsClass n k h above)
  | no h ↦
      rw (counted, lt→leb_false steps k (omega arith)) (small-IsClass n k (omega arith) below above)
]

-- `index` finds the smallest class that holds a buffer of `n` bytes, and the last class for those
-- that none holds: the class is in range, its size is at least `n` unless it is the last, and
-- the class before it, if there is one, is too small.
pub index_lem :
    (n : ℕ)
    → (index n < steps)
      × ((index n ≡ steps - 1) ⊎ (n ≤ min_size * 2 ^ index n))
      × ((index n ≡ 0) ⊎ (min_size * 2 ^ (index n - 1) < n))
unfolding IsClass
index_lem n = class_of
  where
    class_of : IsClass n (index n)
    class_of =
        let m = (n - 1) / 64 in
        let (k, counted, below, above) = halvings_lem m m 0 (omega arith) in
        IsClass-of_digits n k (omega (arith, counted)) below above
