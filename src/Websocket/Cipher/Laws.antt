-- ===== src/Websocket/Cipher/Laws.antt =====
-- `Cipher` is the plain byte-by-byte cipher, and undoes itself.
use Prim.Native.Nat.{bit_xor}
use goreactor.Common.{
  ℕ, zero, suc, ◌+◌, ◌-◌, ◌/◌, ◌%◌, ◌≤◌, ◌<◌, List, [], ◌∷◌, some, ◌≡◌, refl, ap, ap₂, ◌∙◌, arith,
}
use goreactor.Common.{◌>>=◌, length, get_or, get_elem?, get_or_ext}
use goreactor.Common.Bits.{bit_xor-lt, bit_xor-twice}
use native.Mathlib.Decide.{dec_lt}
use goreactor.Websocket.Cipher.Defs.{cipher, cipher_long, remain}
use goreactor.Websocket.Cipher.Words.{AreBytes}
use goreactor.Websocket.Cipher.Loops.{
  key, IsMasked, mask_bytes-IsMasked, mask_words-IsMasked, IsMasked-ByteAt, ByteAt, AreBytes-ByteAt,
  key-lt,
}

-- The algorithm of RFC 6455, section 5.3: byte `i` is masked with byte `(offset + i) mod 4`.
abbrev pub mask_from : List ℕ → ℕ → List ℕ → List ℕ
mask_from mask k [] = []
mask_from mask k (b ∷ bs) = bit_xor b (key mask k) ∷ mask_from mask (k + 1) bs

pub length-mask_from :
    (mask : List ℕ) (k : ℕ) (bs : List ℕ) → length (mask_from mask k bs) ≡ length bs
length-mask_from mask k [] = refl
length-mask_from mask k (b ∷ bs) = ap suc (length-mask_from mask (k + 1) bs)

get_or-mask_from :
    (mask : List ℕ) (k : ℕ) (bs : List ℕ) (j : ℕ)
    → j < length bs
    → get_or (mask_from mask k bs) j 0 ≡ bit_xor (get_or bs j 0) (key mask (k + j))
get_or-mask_from mask k [] j h = absurd (omega arith)
get_or-mask_from mask k (b ∷ bs) zero h = ap (λ i. bit_xor b (key mask i)) (omega arith)
get_or-mask_from mask k (b ∷ bs) (suc j) h =
    get_or-mask_from mask (k + 1) bs j (omega arith)
    ∙ ap (λ i. bit_xor (get_or bs j 0) (key mask i)) (omega arith)

IsMasked-mask_from :
    (mask : List ℕ) (phase offset : ℕ) (payload out : List ℕ)
    → phase % 4 ≡ offset % 4
    → IsMasked mask phase 0 (length payload) payload out
    → out ≡ mask_from mask offset payload
IsMasked-mask_from mask phase offset payload out e masked =
    get_or_ext 0 out (mask_from mask offset payload)
      (omega (arith, masked.same_length, length-mask_from mask offset payload))
      λ j h. ground (
        arith,
        masked.same_length,
        masked.at_index j,
        get_or-mask_from mask offset payload j,
        same_key phase offset j e,
      )
  where
    same_key : (p o j : ℕ) → p % 4 ≡ o % 4 → (p + j) % 4 ≡ (o + j) % 4
    same_key p o j e = omega arith

-- `remain` completes a position in the mask to a multiple of four.
remain_lem :
    (m : ℕ) → m < 4 → (ln : ℕ) × (get_elem? remain m ≡ some ln) × (ln < 4) × ((m + ln) % 4 ≡ 0)
remain_lem zero h = (0, refl, omega arith, refl)
remain_lem (suc zero) h = (3, refl, omega arith, refl)
remain_lem (suc (suc zero)) h = (2, refl, omega arith, refl)
remain_lem (suc (suc (suc zero))) h = (1, refl, omega arith, refl)
remain_lem (suc (suc (suc (suc m)))) h = absurd (omega arith)

module _ (a b c d : ℕ) (bytes : AreBytes (a ∷ b ∷ c ∷ d ∷ [])) where
  abbrev mask : List ℕ
  mask = a ∷ b ∷ c ∷ d ∷ []

  -- The first bytes, the last bytes and the words between them make up the slice.
  three_parts :
      (phase ln rest : ℕ) (p0 p1 p2 p3 : List ℕ)
      → ln ≤ rest
      → rest ≤ length p0
      → IsMasked mask phase 0 ln p0 p1
      → IsMasked mask phase rest (length p0) p1 p2
      → IsMasked mask phase ln rest p2 p3
      → IsMasked mask phase 0 (length p0) p0 p3
  three_parts phase ln rest p0 p1 p2 p3 h k first last words = record {
    same_length = omega (arith, first.same_length, last.same_length, words.same_length);
    at_index = λ j l. ground (
      arith,
      first.same_length,
      last.same_length,
      first.at_index j,
      last.at_index j,
      words.at_index j,
    );
  }

  cipher_long-IsMasked :
      (offset : ℕ) (payload : List ℕ)
      → 8 ≤ length payload
      → ByteAt payload
      → (out : List ℕ) × (cipher_long mask offset payload ≡ some out)
        × IsMasked mask (offset % 4) 0 (length payload) payload out
  cipher_long-IsMasked offset payload h small =
      let n = length payload in
      let phase = offset % 4 in
      let (ln, remains, few, aligned) = remain_lem phase (omega arith) in
      let rn = (n - ln) % 8 in
      let (p1, returns1, first) =
        mask_bytes-IsMasked mask refl ln 0 ln phase payload (omega arith) (omega arith) in
      let (p2, returns2, last) =
        mask_bytes-IsMasked mask refl rn (n - rn) n phase p1 (omega arith)
          (omega (arith, first.same_length)) in
      let small1 = IsMasked-ByteAt a b c d bytes phase 0 ln payload p1 first small in
      let small2 = IsMasked-ByteAt a b c d bytes phase (n - rn) n p1 p2 last small1 in
      let (p3, returns3, words) =
        mask_words-IsMasked a b c d bytes ((n - ln - rn) / 8) ln (n - rn) phase p2 (omega arith)
          (omega (arith, first.same_length, last.same_length)) small2 aligned in
      (
        p3,
        unfold cipher_long in rw (remains, returns1, returns2, returns3),
        three_parts phase ln (n - rn) payload p1 p2 p3 (omega arith) (omega arith) first last words,
      )

  -- `Cipher` with its word loop computes the byte-by-byte cipher of RFC 6455 on any slice of bytes,
  -- for any mask of four bytes and any offset, and does not index out of range.
  pub cipher_lem :
      (offset : ℕ) (payload : List ℕ)
      → AreBytes payload
      → cipher mask offset payload ≡ some (mask_from mask offset payload)
  cipher_lem offset payload small = elim (dec_lt (length payload) 8) [
    | yes short ↦
        let (out, returns, masked) =
          mask_bytes-IsMasked mask refl (length payload) 0 (length payload) offset payload
            (omega arith) (omega arith) in
        unfold cipher in
        ground (arith, returns, IsMasked-mask_from mask offset offset payload out refl masked)
    | no long ↦
        let (out, returns, masked) =
          cipher_long-IsMasked offset payload (omega arith) (AreBytes-ByteAt payload small) in
        unfold cipher in
        ground (
          arith,
          returns,
          IsMasked-mask_from mask (offset % 4) offset payload out (omega arith) masked,
        )
  ]

  mask_from-twice : (k : ℕ) (bs : List ℕ) → mask_from mask k (mask_from mask k bs) ≡ bs
  mask_from-twice k [] = refl
  mask_from-twice k (x ∷ bs) = ap₂ ◌∷◌ (bit_xor-twice x (key mask k)) (mask_from-twice (k + 1) bs)

  AreBytes-mask_from : (k : ℕ) (bs : List ℕ) → AreBytes bs → AreBytes (mask_from mask k bs)
  AreBytes-mask_from k [] h = tt
  AreBytes-mask_from k (x ∷ bs) h =
      (bit_xor-lt 8 x (key mask k) h.0 (key-lt a b c d bytes k), AreBytes-mask_from (k + 1) bs h.1)

  -- Unmasking: `Cipher` with the same mask and offset gives a masked slice of bytes back.
  pub cipher-cipher :
      (offset : ℕ) (payload : List ℕ)
      → AreBytes payload
      → (cipher mask offset payload >>= cipher mask offset) ≡ some payload
  cipher-cipher offset payload small =
      rw
        (
          cipher_lem offset payload small,
          cipher_lem offset (mask_from mask offset payload)
              (AreBytes-mask_from offset payload small),
        )
        (ap some (mask_from-twice offset payload))

-- Unmasking what the byte-by-byte cipher masked, for a mask given as a list.
pub cipher-masked :
    (four payload : List ℕ)
    → length four ≡ 4
    → AreBytes four
    → AreBytes payload
    → cipher four 0 (mask_from four 0 payload) ≡ some payload
cipher-masked [] payload e h small = absurd (omega arith)
cipher-masked (a ∷ []) payload e h small = absurd (omega arith)
cipher-masked (a ∷ b ∷ []) payload e h small = absurd (omega arith)
cipher-masked (a ∷ b ∷ c ∷ []) payload e h small = absurd (omega arith)
cipher-masked (a ∷ b ∷ c ∷ d ∷ []) payload e h small =
    cipher_lem a b c d h 0 (mask_from (a ∷ b ∷ c ∷ d ∷ []) 0 payload)
      (AreBytes-mask_from a b c d h 0 payload small)
    ∙ ap some (mask_from-twice a b c d h 0 payload)
cipher-masked (a ∷ b ∷ c ∷ d ∷ x ∷ four) payload e h small = absurd (omega arith)
