-- ===== src/Websocket/Http/Numbers.antt =====
-- The numbers of the HTTP version and of `Content-Length`: `pow`, `asciiToInt` and `strconv.Itoa`.
use goreactor.Common.{
  ℕ, zero, suc, ◌+◌, ◌*◌, ◌/◌, ◌%◌, ◌^◌, ◌≤◌, ◌<◌, Bool, true, ◌&&◌, List, [], ◌∷◌, some, none, ◌≡◌,
  ◌≢◌, refl, ap, sym, ◌∙◌, arith,
}
use goreactor.Common.{◌==◌, if◌then◌else◌, length}
use goreactor.Websocket.Handshake.Responses.{itoa_loop, itoa}
use goreactor.Websocket.Http.Defs.{pow_loop, pow, ascii_loop, ascii_to_int}
use native.Mathlib.Nat.{
  mul-add-mod_self_left, pow-zero, pow-succ', mod-add-div, add-mul, mul_assoc, mul_comm, add_comm,
  one-mul, le_refl, mul-one, add-mod-mod, mod-add-mod, mod-eq_of_lt, mod-lt, add-zero, zero-add,
  add_assoc,
}

split_product : (x y m : ℕ) → m * (x / m * y) + x % m * y ≡ x * y
split_product x y m =
    ap (λ k. k + x % m * y) (sym (mul_assoc m (x / m) y))
    ∙ sym (add-mul (m * (x / m)) (x % m) y)
    ∙ ap (λ k. k * y) (add_comm (m * (x / m)) (x % m) ∙ mod-add-div x m)

mod-mul : (x y m : ℕ) → (x % m * y) % m ≡ (x * y) % m
mod-mul x y m =
    sym (mul-add-mod_self_left m (x / m * y) (x % m * y)) ∙ ap (λ k. k % m) (split_product x y m)

mul-mod : (x y m : ℕ) → (x * (y % m)) % m ≡ (x * y) % m
mul-mod x y m =
    ap (λ k. k % m) (mul_comm x (y % m)) ∙ mod-mul y x m ∙ ap (λ k. k % m) (mul_comm y x)

-- Squares: an even exponent.
pow-double : (a k : ℕ) → (a * a) ^ k ≡ a ^ (2 * k)
pow-double a zero = pow-zero (a * a) ∙ sym (pow-zero a)
pow-double a (suc k) =
    pow-succ' (a * a) k
    ∙ ap (λ n. a * a * n) (pow-double a k)
    ∙ mul_assoc a a (a ^ (2 * k))
    ∙ ap (λ n. a * n) (sym (pow-succ' a (2 * k)))
    ∙ sym (pow-succ' a (suc (2 * k)))
    ∙ ap (λ n. a ^ n) (omega arith)

mod-pow : (a k m : ℕ) → (a % m) ^ k % m ≡ a ^ k % m
mod-pow a zero m = ap (λ n. n % m) (pow-zero (a % m) ∙ sym (pow-zero a))
mod-pow a (suc k) m =
    ap (λ n. n % m) (pow-succ' (a % m) k)
    ∙ mod-mul a ((a % m) ^ k) m
    ∙ sym (mul-mod a ((a % m) ^ k) m)
    ∙ ap (λ n. a * n % m) (mod-pow a k m)
    ∙ mul-mod a (a ^ k) m
    ∙ ap (λ n. n % m) (sym (pow-succ' a k))

-- A round of the loop keeps `p * a ^ b`, modulo `m`.
even_round : (p a b m : ℕ) → b % 2 ≡ 0 → p * (a * a % m) ^ (b / 2) % m ≡ p * a ^ b % m
even_round p a b m h =
    sym (mul-mod p ((a * a % m) ^ (b / 2)) m)
    ∙ ap (λ n. p * n % m) (mod-pow (a * a) (b / 2) m)
    ∙ mul-mod p ((a * a) ^ (b / 2)) m
    ∙ ap (λ n. p * n % m) (pow-double a (b / 2) ∙ ap (λ n. a ^ n) (omega arith))

odd_round : (p a b m : ℕ) → b % 2 ≢ 0 → (p * a % m) * (a * a % m) ^ (b / 2) % m ≡ p * a ^ b % m
odd_round p a b m h =
    mod-mul (p * a) ((a * a % m) ^ (b / 2)) m
    ∙ sym (mul-mod (p * a) ((a * a % m) ^ (b / 2)) m)
    ∙ ap (λ n. p * a * n % m) (mod-pow (a * a) (b / 2) m)
    ∙ mul-mod (p * a) ((a * a) ^ (b / 2)) m
    ∙ ap (λ n. p * a * n % m) (pow-double a (b / 2))
    ∙ ap (λ n. n % m) (mul_assoc p a (a ^ (2 * (b / 2))))
    ∙ ap (λ n. p * n % m) (sym (pow-succ' a (2 * (b / 2))) ∙ ap (λ n. a ^ n) (omega arith))

no_rounds : (p a b : ℕ) → b ≡ 0 → p < 2 ^ 64 → p ≡ p * a ^ b % 2 ^ 64
no_rounds p a b e lt = sym (
    ap (λ n. p * a ^ n % 2 ^ 64) e
    ∙ ap (λ n. p * n % 2 ^ 64) (pow-zero a)
    ∙ ap (λ n. n % 2 ^ 64) (mul-one p)
    ∙ mod-eq_of_lt lt)

pow_loop_lem : (fuel p a b : ℕ) → b ≤ fuel → p < 2 ^ 64 → pow_loop fuel p a b ≡ p * a ^ b % 2 ^ 64
unfolding pow_loop
pow_loop_lem zero p a b le lt = no_rounds p a b (omega arith) lt
pow_loop_lem (suc fuel) p a b le lt =
    let none_left = no_rounds p a b in
    let even = even_round p a b (2 ^ 64) in
    let odd = odd_round p a b (2 ^ 64) in
    let even_rest = pow_loop_lem fuel p (a * a % 2 ^ 64) (b / 2) in
    let odd_rest = pow_loop_lem fuel (p * a % 2 ^ 64) (a * a % 2 ^ 64) (b / 2) in ground arith

-- pow computes the power, modulo 2 ^ 64, for any number of rounds that suffices.
pub pow_lem : (a b : ℕ) → pow a b ≡ a ^ b % 2 ^ 64
unfolding pow
pow_lem a b =
    pow_loop_lem b 1 a b (le_refl b) (omega arith) ∙ ap (λ n. n % 2 ^ 64) (one-mul (a ^ b))

-- The number a sequence of decimal digits stands for, read from the left.
pub decimal : ℕ → List ℕ → ℕ
decimal n [] = n
decimal n (b ∷ bts) = decimal (10 * n + b % 16) bts

-- The bytes that asciiToInt takes for digits: the upper half is 3.
pub has_digits : List ℕ → Bool
has_digits [] = true
has_digits (b ∷ bts) = b / 16 == 3 && has_digits bts

decimal-shift : (n d : ℕ) (bts : List ℕ) → decimal (n + d) bts ≡ n * 10 ^ length bts + decimal d bts
unfolding decimal
decimal-shift n d [] = ap (λ k. k + d) (sym (mul-one n) ∙ ap (λ k. n * k) (sym (pow-zero 10)))
decimal-shift n d (b ∷ bts) =
    let first = decimal-shift (10 * n) (10 * d + b % 16) bts in
    let power : 10 * n * 10 ^ length bts ≡ n * 10 ^ suc (length bts) =
      ap (λ k. k * 10 ^ length bts) (mul_comm 10 n)
      ∙ mul_assoc n 10 (10 ^ length bts)
      ∙ ap (λ k. n * k) (sym (pow-succ' 10 (length bts))) in
    ap (λ k. decimal k bts) (omega arith)
    ∙ first
    ∙ ap (λ k. k + decimal (10 * d + b % 16) bts) power

ascii_loop_lem :
    (ret : ℕ) (bts : List ℕ)
    → ret < 2 ^ 64
    → ascii_loop ret bts ≡ (if has_digits bts then some ((ret + decimal 0 bts) % 2 ^ 64) else none)
unfolding ascii_loop has_digits decimal
ascii_loop_lem ret [] lt =
    ap some (sym (mod-eq_of_lt (omega arith)) ∙ ap (λ k. k % 2 ^ 64) (omega arith))
ascii_loop_lem ret (b ∷ bts) lt =
    let rest =
      ascii_loop_lem ((ret + b % 16 * pow 10 (length bts)) % 2 ^ 64) bts
        (mod-lt (ret + b % 16 * pow 10 (length bts)) (omega arith)) in
    let left =
      ap (λ k. (ret + b % 16 * k) % 2 ^ 64) (pow_lem 10 (length bts))
      ∙ sym (add-mod-mod ret (b % 16 * (10 ^ length bts % 2 ^ 64)) (2 ^ 64))
      ∙ ap (λ k. (ret + k) % 2 ^ 64) (mul-mod (b % 16) (10 ^ length bts) (2 ^ 64))
      ∙ add-mod-mod ret (b % 16 * 10 ^ length bts) (2 ^ 64) in
    let digit : decimal (b % 16) bts ≡ b % 16 * 10 ^ length bts + decimal 0 bts =
      ap (λ k. decimal k bts) (sym (add-zero (b % 16))) ∙ decimal-shift (b % 16) 0 bts in
    let first : decimal (10 * 0 + b % 16) bts ≡ decimal (b % 16) bts =
      ap (λ k. decimal k bts) (omega arith) in
    let whole : ((ret + b % 16 * pow 10 (length bts)) % 2 ^ 64 + decimal 0 bts) % 2 ^ 64
        ≡ (ret + decimal (b % 16) bts) % 2 ^ 64 =
      ap (λ k. (k + decimal 0 bts) % 2 ^ 64) left
      ∙ mod-add-mod (ret + b % 16 * 10 ^ length bts) (2 ^ 64) (decimal 0 bts)
      ∙ ap (λ k. k % 2 ^ 64)
          (add_assoc ret (b % 16 * 10 ^ length bts) (decimal 0 bts)
            ∙ ap (λ k. ret + k) (sym digit)) in
    ground arith

-- asciiToInt reads a decimal number, modulo 2 ^ 64, from bytes with the high half 3, of which the low
-- half counts as the digit, and refuses all others.
pub ascii_to_int_lem :
    (b : ℕ) (bts : List ℕ)
    → ascii_to_int (b ∷ bts)
      ≡ (if has_digits (b ∷ bts) then some (decimal 0 (b ∷ bts) % 2 ^ 64) else none)
unfolding ascii_to_int
ascii_to_int_lem b bts =
    ascii_loop_lem 0 (b ∷ bts) (omega arith)
    ∙ ap (λ k. if has_digits (b ∷ bts) then some (k % 2 ^ 64) else none)
        (zero-add (decimal 0 (b ∷ bts)))

itoa_loop-decimal :
    (fuel n : ℕ) (digits : List ℕ)
    → n < fuel
    → decimal 0 (itoa_loop fuel n digits) ≡ decimal n digits
unfolding itoa_loop decimal
itoa_loop-decimal zero n digits lt = absurd (omega arith)
itoa_loop-decimal (suc fuel) n digits lt =
    let rest = itoa_loop-decimal fuel (n / 10) ((48 + n % 10) ∷ digits) in
    let last : decimal (10 * (n / 10) + (48 + n % 10) % 16) digits ≡ decimal n digits =
      ap (λ k. decimal k digits) (omega arith) in
    let only : n / 10 ≡ 0 → decimal (10 * 0 + (48 + n % 10) % 16) digits ≡ decimal n digits =
      λ e. ap (λ k. decimal k digits) (omega arith) in
    ground arith

itoa_loop-has_digits :
    (fuel n : ℕ) (digits : List ℕ) → has_digits (itoa_loop fuel n digits) ≡ has_digits digits
unfolding itoa_loop has_digits
itoa_loop-has_digits zero n digits = refl
itoa_loop-has_digits (suc fuel) n digits =
    let rest = itoa_loop-has_digits fuel (n / 10) ((48 + n % 10) ∷ digits) in ground arith

ascii_to_int-has_digits :
    (bts : List ℕ)
    → bts ≢ []
    → has_digits bts ≡ true
    → ascii_to_int bts ≡ some (decimal 0 bts % 2 ^ 64)
ascii_to_int-has_digits [] ne h = absurd (ne refl)
ascii_to_int-has_digits (b ∷ bts) ne h =
    ascii_to_int_lem b bts ∙ ap (λ c. if c then some (decimal 0 (b ∷ bts) % 2 ^ 64) else none) h

itoa_loop_nonempty : (fuel n d : ℕ) (digits : List ℕ) → itoa_loop fuel n (d ∷ digits) ≢ []
unfolding itoa_loop
itoa_loop_nonempty zero n d digits = ground arith
itoa_loop_nonempty (suc fuel) n d digits =
    let rest = itoa_loop_nonempty fuel (n / 10) (48 + n % 10) (d ∷ digits) in ground arith

itoa_nonempty : (n : ℕ) → itoa n ≢ []
unfolding itoa itoa_loop
itoa_nonempty n = let rest = itoa_loop_nonempty n (n / 10) (48 + n % 10) [] in ground arith

-- A number below 2 ^ 64 that `strconv.Itoa` writes is read back by asciiToInt.
pub ascii_to_int-itoa : (n : ℕ) → n < 2 ^ 64 → ascii_to_int (itoa n) ≡ some n
unfolding itoa decimal has_digits
ascii_to_int-itoa n lt =
    ascii_to_int-has_digits (itoa n) (itoa_nonempty n) (itoa_loop-has_digits (suc n) n [])
    ∙ ap (λ k. some (k % 2 ^ 64)) (itoa_loop-decimal (suc n) n [] (omega arith))
    ∙ ap some (mod-eq_of_lt lt)
