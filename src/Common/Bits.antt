-- ===== src/Common/Bits.antt =====
-- The bitwise operations at variables: the lowest digit, and cutting a number into a low and a
-- high part, for `|` and `^`. Facts on single bytes are checked value by value.
use Prim.Native.Nat.{ℕ, zero, suc, ◌+◌, ◌*◌, ◌/◌, ◌%◌, ◌^◌, ◌≤◌, ◌<◌, max}
use Prim.Native.Nat.{bit_or, bit_xor, digits, bitwise, differ, bit_or-bitwise, bit_xor-bitwise}
use mathlib.Core.Path.{◌≡◌, refl, ap}
use mathlib.Core.Bool.{Bool, true, ◌&&◌}
use native.Mathlib.Nat.{pow-suc}
use native.Mathlib.Omega.{arith}

unfoldable pub all_below : ℕ → (ℕ → Bool) → Bool
all_below zero p = true
all_below (suc n) p = p n && all_below n p

pub all_below_sound : (n : ℕ) (p : ℕ → Bool) (x : ℕ) → all_below n p ≡ true → x < n → p x ≡ true
unfolding all_below
all_below_sound zero p x table h = absurd (omega arith)
all_below_sound (suc n) p x table h = ground (arith, all_below_sound n p x)

module _ (z : ℕ → ℕ) (f : ℕ → ℕ → ℕ) where
  -- Any two counts that reach all digits of `a` give one result.
  enough_digits : (m n a b : ℕ) → a ≤ m → a ≤ n → digits z f n a b ≡ digits z f m a b
  enough_digits zero zero zero b h k = refl
  enough_digits (suc m) zero zero b h k = refl
  enough_digits zero (suc n) zero b h k = refl
  enough_digits (suc m) (suc n) zero b h k = refl
  enough_digits zero n (suc a) b h k = absurd (omega arith)
  enough_digits (suc m) zero (suc a) b h k = absurd (omega arith)
  enough_digits (suc m) (suc n) (suc a) b h k =
      ap (λ t. t * 2 + f (suc a % 2) (b % 2))
        (enough_digits m n (suc a / 2) (b / 2) (omega arith) (omega arith))

  lowest_digit :
      (a b : ℕ)
      → digits z f (suc a) (suc a) b ≡ bitwise z f (suc a / 2) (b / 2) * 2 + f (suc a % 2) (b % 2)
  lowest_digit a b =
      ap (λ t. t * 2 + f (suc a % 2) (b % 2))
        (enough_digits (suc a / 2) a (suc a / 2) (b / 2) (omega arith) (omega arith))

bit_xor_lowest : (a b : ℕ) → bit_xor a b ≡ bit_xor (a / 2) (b / 2) * 2 + differ (a % 2) (b % 2)
bit_xor_lowest zero b = omega (arith, bit_xor-bitwise 0 b, bit_xor-bitwise 0 (b / 2))
bit_xor_lowest (suc a) b = omega (
  arith,
  bit_xor-bitwise (suc a) b,
  bit_xor-bitwise (suc a / 2) (b / 2),
  lowest_digit (λ y. y) differ a b,
)

bit_or_lowest : (a b : ℕ) → bit_or a b ≡ bit_or (a / 2) (b / 2) * 2 + max (a % 2) (b % 2)
bit_or_lowest zero b = omega (arith, bit_or-bitwise 0 b, bit_or-bitwise 0 (b / 2))
bit_or_lowest (suc a) b = omega (
  arith,
  bit_or-bitwise (suc a) b,
  bit_or-bitwise (suc a / 2) (b / 2),
  lowest_digit (λ y. y) max a b,
)

twice_power : (x k : ℕ) → x * 2 ^ suc k ≡ x * 2 ^ k * 2
twice_power x k = omega (arith, ap (λ (t : ℕ). x * t) (pow-suc 2 k))

-- An operation on digits works on the low `k` digits and on the others apart.
module _ (op f : ℕ → ℕ → ℕ)
    (lowest : (a b : ℕ) → op a b ≡ op (a / 2) (b / 2) * 2 + f (a % 2) (b % 2))
    (none_left : op 0 0 ≡ 0) where
  op_split :
      (k a b x y : ℕ)
      → a < 2 ^ k
      → b < 2 ^ k
      → op (a + x * 2 ^ k) (b + y * 2 ^ k) ≡ op a b + op x y * 2 ^ k
  op_split zero zero zero x y h l = ground (arith, none_left)
  op_split zero (suc a) b x y h l = absurd (omega arith)
  op_split zero zero (suc b) x y h l = absurd (omega arith)
  op_split (suc k) a b x y h l = ground (
    arith,
    lowest a b,
    lowest (a + x * 2 ^ suc k) (b + y * 2 ^ suc k),
    twice_power x k,
    twice_power y k,
    twice_power (op x y) k,
    op_split k (a / 2) (b / 2) x y (omega (arith, pow-suc 2 k)) (omega (arith, pow-suc 2 k)),
  )

pub bit_xor-split :
    (k a b x y : ℕ)
    → a < 2 ^ k
    → b < 2 ^ k
    → bit_xor (a + x * 2 ^ k) (b + y * 2 ^ k) ≡ bit_xor a b + bit_xor x y * 2 ^ k
bit_xor-split = op_split bit_xor differ bit_xor_lowest refl

bit_or-split :
    (k a b x y : ℕ)
    → a < 2 ^ k
    → b < 2 ^ k
    → bit_or (a + x * 2 ^ k) (b + y * 2 ^ k) ≡ bit_or a b + bit_or x y * 2 ^ k
bit_or-split = op_split bit_or max bit_or_lowest refl

bit_or-zero_fuel : (n a : ℕ) → a ≤ n → bit_or a 0 ≡ a
bit_or-zero_fuel n zero h = refl
bit_or-zero_fuel zero (suc a) h = absurd (omega arith)
bit_or-zero_fuel (suc n) (suc a) h =
    omega (arith, bit_or_lowest (suc a) 0, bit_or-zero_fuel n (suc a / 2) (omega arith))

-- `x << k | y` is a sum where `y` has `k` digits at most.
pub bit_or-shifted : (k x y : ℕ) → y < 2 ^ k → bit_or (x * 2 ^ k) y ≡ x * 2 ^ k + y
bit_or-shifted k x y h = ground (
  arith,
  bit_or-split k 0 y x 0 (omega (arith, h)) h,
  bit_or-bitwise 0 y,
  bit_or-zero_fuel x x (omega arith),
)

pub zero-bit_xor : (b : ℕ) → bit_xor 0 b ≡ b
zero-bit_xor b = bit_xor-bitwise 0 b

differ-le : (a b : ℕ) → a < 2 → b < 2 → differ a b < 2
differ-le zero b h k = k
differ-le (suc a) zero h k = h
differ-le (suc zero) (suc b) h k = omega arith
differ-le (suc (suc a)) (suc b) h k = absurd (omega arith)

-- The exclusive or has no more digits than its operands.
pub bit_xor-lt : (k a b : ℕ) → a < 2 ^ k → b < 2 ^ k → bit_xor a b < 2 ^ k
bit_xor-lt zero zero b h l = omega (arith, zero-bit_xor b)
bit_xor-lt zero (suc a) b h l = absurd (omega arith)
bit_xor-lt (suc k) a b h l = omega (
  arith,
  pow-suc 2 k,
  bit_xor_lowest a b,
  differ-le (a % 2) (b % 2) (omega arith) (omega arith),
  bit_xor-lt k (a / 2) (b / 2) (omega (arith, pow-suc 2 k)) (omega (arith, pow-suc 2 k)),
)

differ-twice : (a b : ℕ) → a < 2 → b < 2 → differ (differ a b) b ≡ a
differ-twice zero zero h k = refl
differ-twice zero (suc zero) h k = refl
differ-twice (suc zero) zero h k = refl
differ-twice (suc zero) (suc zero) h k = refl
differ-twice zero (suc (suc b)) h k = absurd (omega arith)
differ-twice (suc zero) (suc (suc b)) h k = absurd (omega arith)
differ-twice (suc (suc a)) b h k = absurd (omega arith)

bit_xor-twice_fuel : (n a b : ℕ) → a ≤ n → b ≤ n → bit_xor (bit_xor a b) b ≡ a
bit_xor-twice_fuel zero zero zero h k = refl
bit_xor-twice_fuel zero (suc a) b h k = absurd (omega arith)
bit_xor-twice_fuel zero zero (suc b) h k = absurd (omega arith)
bit_xor-twice_fuel (suc n) a b h k =
    let low = differ-le (a % 2) (b % 2) (omega arith) (omega arith) in
    ground (
      arith,
      bit_xor_lowest a b,
      bit_xor_lowest (bit_xor a b) b,
      low,
      differ-twice (a % 2) (b % 2),
      bit_xor-twice_fuel n (a / 2) (b / 2) (omega arith) (omega arith),
    )

pub bit_xor-twice : (a b : ℕ) → bit_xor (bit_xor a b) b ≡ a
bit_xor-twice a b = bit_xor-twice_fuel (max a b) a b (omega arith) (omega arith)
