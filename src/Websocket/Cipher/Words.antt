-- ===== src/Websocket/Cipher/Words.antt =====
-- The word loop's arithmetic: `^` on words is `^` on their bytes.
use Prim.Native.Nat.{bit_xor, bit_or}
use goreactor.Common.{
  ℕ, zero, suc, ◌+◌, ◌*◌, ◌%◌, ◌^◌, ◌<◌, List, [], ◌∷◌, ◌≡◌, refl, ap, ap₂, arith, length, ◌∙◌,
}
use goreactor.Common.Bits.{bit_xor-split, bit_or-shifted, bit_xor-lt}
use goreactor.Websocket.Cipher.Defs.{le_number, le_bytes, mask_word}

abbrev pub AreBytes : List ℕ → Type 0
AreBytes [] = Unit {0}
AreBytes (b ∷ bs) = (b < 256) × AreBytes bs

abbrev pub zip_xor : List ℕ → List ℕ → List ℕ
zip_xor [] ks = []
zip_xor (b ∷ bs) [] = []
zip_xor (b ∷ bs) (k ∷ ks) = bit_xor b k ∷ zip_xor bs ks

bit_xor-le_number :
    (bs ks : List ℕ)
    → AreBytes bs
    → AreBytes ks
    → length bs ≡ length ks
    → bit_xor (le_number bs) (le_number ks) ≡ le_number (zip_xor bs ks)
bit_xor-le_number [] [] h k e = refl
bit_xor-le_number [] (k ∷ ks) h l e = absurd (omega arith)
bit_xor-le_number (b ∷ bs) [] h l e = absurd (omega arith)
bit_xor-le_number (b ∷ bs) (k ∷ ks) h l e =
    bit_xor-split 8 b k (le_number bs) (le_number ks) h.0 l.0
    ∙ ap (λ t. bit_xor b k + t * 256) (bit_xor-le_number bs ks h.1 l.1 (omega arith))

AreBytes-zip_xor : (bs ks : List ℕ) → AreBytes bs → AreBytes ks → AreBytes (zip_xor bs ks)
AreBytes-zip_xor [] ks h l = tt
AreBytes-zip_xor (b ∷ bs) [] h l = tt
AreBytes-zip_xor (b ∷ bs) (k ∷ ks) h l = (bit_xor-lt 8 b k h.0 l.0, AreBytes-zip_xor bs ks h.1 l.1)

pub length-zip_xor : (bs ks : List ℕ) → length bs ≡ length ks → length (zip_xor bs ks) ≡ length bs
length-zip_xor [] ks e = refl
length-zip_xor (b ∷ bs) [] e = absurd (omega arith)
length-zip_xor (b ∷ bs) (k ∷ ks) e = ap suc (length-zip_xor bs ks (omega arith))

le_bytes-le_number :
    (n : ℕ) (bs : List ℕ) → AreBytes bs → length bs ≡ n → le_bytes n (le_number bs) ≡ bs
le_bytes-le_number zero [] h e = refl
le_bytes-le_number zero (b ∷ bs) h e = absurd (omega arith)
le_bytes-le_number (suc n) [] h e = absurd (omega arith)
le_bytes-le_number (suc n) (b ∷ bs) h e =
    ap₂ ◌∷◌ (omega arith)
      (ap (λ v. le_bytes n v) (omega arith) ∙ le_bytes-le_number n bs h.1 (omega arith))

word_twice : (m : ℕ) → m < 2 ^ 32 → bit_or (m * 2 ^ 32 % 2 ^ 64) m ≡ m * 2 ^ 32 + m
word_twice m h =
    let fits : m * 2 ^ 32 % 2 ^ 64 ≡ m * 2 ^ 32 = omega arith in rw fits (bit_or-shifted 32 m m h)

-- `m2` holds the mask's bytes, twice.
mask_word_lem :
    (a b c d : ℕ)
    → AreBytes (a ∷ b ∷ c ∷ d ∷ [])
    → mask_word (a ∷ b ∷ c ∷ d ∷ []) ≡ le_number (a ∷ b ∷ c ∷ d ∷ a ∷ b ∷ c ∷ d ∷ [])
unfolding mask_word
mask_word_lem a b c d h = word_twice (le_number (a ∷ b ∷ c ∷ d ∷ [])) (omega arith) ∙ omega arith

pub word_xor :
    (word : List ℕ) (a b c d : ℕ)
    → AreBytes word
    → length word ≡ 8
    → AreBytes (a ∷ b ∷ c ∷ d ∷ [])
    → le_bytes 8 (bit_xor (le_number word) (mask_word (a ∷ b ∷ c ∷ d ∷ [])))
      ≡ zip_xor word (a ∷ b ∷ c ∷ d ∷ a ∷ b ∷ c ∷ d ∷ [])
word_xor word a b c d h e k =
    let twice = a ∷ b ∷ c ∷ d ∷ a ∷ b ∷ c ∷ d ∷ [] in
    let bytes : AreBytes twice = omega arith in
    rw (mask_word_lem a b c d k, bit_xor-le_number word twice h bytes (omega arith))
      (le_bytes-le_number 8 (zip_xor word twice) (AreBytes-zip_xor word twice h bytes)
        (omega (arith, length-zip_xor word twice)))
