-- ===== src/Websocket/Cipher/Loops.antt =====
-- What each loop of `Cipher` does to the slice, index by index.
use Prim.Native.Nat.{bit_xor}
use goreactor.Common.{
  ℕ, zero, suc, ◌+◌, ◌-◌, ◌*◌, ◌%◌, ◌≤◌, ◌<◌, List, [], ◌∷◌, some, ◌≡◌, refl, ap₂, ◌∙◌, arith, ◌&&◌,
}
use goreactor.Common.{ltb, leb, if◌then◌else◌, length, get_or, set, take, drop, splice}
use goreactor.Common.{
  get_elem?-eq-get_or, length-set, get_or-set, slice_lem, copy_at_lem, length-splice, get_or-splice,
}
use goreactor.Common.{length-take, length-drop, get_or-take, get_or-drop}
use goreactor.Common.Bits.{bit_xor-lt}
use goreactor.Websocket.Cipher.Defs.{mask_bytes, mask_words, le_number, le_bytes, mask_word}
use goreactor.Websocket.Cipher.Words.{length-zip_xor, AreBytes, zip_xor, word_xor}

-- The byte of the mask that meets the byte at position `k`.
abbrev pub key : List ℕ → ℕ → ℕ
key mask k = get_or mask (k % 4) 0

-- `out` is `payload` with the bytes from `lo` to `hi` masked, and no others.
pub record IsMasked (mask : List ℕ) (phase lo hi : ℕ) (payload out : List ℕ) : Type 0 where
  pub same_length : length out ≡ length payload
  pub at_index :
      (j : ℕ)
      → j < length payload
      → get_or out j 0 ≡ (
          if leb lo j && ltb j hi
          then bit_xor (get_or payload j 0) (key mask (phase + j))
          else get_or payload j 0)

-- Two neighbouring parts, masked one after the other.
pub IsMasked-join :
    {mask : List ℕ} (phase lo mid hi : ℕ) (payload between out : List ℕ)
    → lo ≤ mid
    → mid ≤ hi
    → IsMasked mask phase lo mid payload between
    → IsMasked mask phase mid hi between out
    → IsMasked mask phase lo hi payload out
IsMasked-join {mask} phase lo mid hi payload between out h k first second = record {
  same_length = omega (arith, first.same_length, second.same_length);
  at_index = λ j l. ground (arith, first.at_index j, second.at_index j, first.same_length);
}

module _ (mask : List ℕ) (four : length mask ≡ 4) where
  mask_bytes-suc :
      (left i phase : ℕ) (payload : List ℕ)
      → i < length payload
      → mask_bytes mask (suc left) i phase payload
        ≡ mask_bytes mask left
            (i + 1)
            phase
            (set payload i (bit_xor (get_or payload i 0) (key mask (phase + i))))
  unfolding mask_bytes
  mask_bytes-suc left i phase payload h =
      ground (arith, get_elem?-eq-get_or payload i 0, get_elem?-eq-get_or mask ((phase + i) % 4) 0)

  -- `left` rounds from `i` on mask as many bytes.
  pub mask_bytes-IsMasked :
      (left i hi phase : ℕ) (payload : List ℕ)
      → i + left ≡ hi
      → hi ≤ length payload
      → (out : List ℕ) × (mask_bytes mask left i phase payload ≡ some out)
        × IsMasked mask phase i hi payload out
  mask_bytes-IsMasked zero i hi phase payload e h = (
    payload,
    (unfold mask_bytes in refl),
    record { same_length = refl; at_index = λ j l. ground arith },
  )
  mask_bytes-IsMasked (suc left) i hi phase payload e h =
      let x = bit_xor (get_or payload i 0) (key mask (phase + i)) in
      let (out, returns, masked) =
        mask_bytes-IsMasked left (i + 1) hi phase (set payload i x) (omega arith)
          (omega (arith, length-set payload i x)) in
      (
        out,
        rw (mask_bytes-suc left i phase payload (omega arith)) returns,
        record {
          same_length = omega (arith, masked.same_length, length-set payload i x);
          at_index = λ j l.
              ground (arith, masked.at_index j, length-set payload i x, get_or-set payload i x j 0);
        },
      )

-- Every element is a byte, read by index.
abbrev pub ByteAt : List ℕ → Type 0
ByteAt l = (j : ℕ) → j < length l → get_or l j 0 < 256

pub AreBytes-ByteAt : (l : List ℕ) → AreBytes l → ByteAt l
AreBytes-ByteAt [] h j k = absurd (omega arith)
AreBytes-ByteAt (x ∷ l) h zero k = h.0
AreBytes-ByteAt (x ∷ l) h (suc j) k = AreBytes-ByteAt l h.1 j (omega arith)

pub ByteAt-AreBytes : (l : List ℕ) → ByteAt l → AreBytes l
ByteAt-AreBytes [] h = tt
ByteAt-AreBytes (x ∷ l) h = (h 0 (omega arith), ByteAt-AreBytes l (λ j k. h (suc j) (omega arith)))

get_or-zip_xor :
    (bs ks : List ℕ) (j : ℕ)
    → length bs ≡ length ks
    → j < length bs
    → get_or (zip_xor bs ks) j 0 ≡ bit_xor (get_or bs j 0) (get_or ks j 0)
get_or-zip_xor [] ks j e h = absurd (omega arith)
get_or-zip_xor (b ∷ bs) [] j e h = absurd (omega arith)
get_or-zip_xor (b ∷ bs) (k ∷ ks) zero e h = refl
get_or-zip_xor (b ∷ bs) (k ∷ ks) (suc j) e h = get_or-zip_xor bs ks j (omega arith) (omega arith)

module _ (a b c d : ℕ) (bytes : AreBytes (a ∷ b ∷ c ∷ d ∷ [])) where
  abbrev twice : List ℕ
  twice = a ∷ b ∷ c ∷ d ∷ a ∷ b ∷ c ∷ d ∷ []

  get_or-twice : (j : ℕ) → j < 8 → get_or twice j 0 ≡ key (a ∷ b ∷ c ∷ d ∷ []) j
  get_or-twice zero h = refl
  get_or-twice (suc zero) h = refl
  get_or-twice (suc (suc zero)) h = refl
  get_or-twice (suc (suc (suc zero))) h = refl
  get_or-twice (suc (suc (suc (suc zero)))) h = refl
  get_or-twice (suc (suc (suc (suc (suc zero))))) h = refl
  get_or-twice (suc (suc (suc (suc (suc (suc zero)))))) h = refl
  get_or-twice (suc (suc (suc (suc (suc (suc (suc zero))))))) h = refl
  get_or-twice (suc (suc (suc (suc (suc (suc (suc (suc j)))))))) h = absurd (omega arith)

  abbrev word_at : ℕ → List ℕ → List ℕ
  word_at at payload = take (at + 8 - at) (drop at payload)

  abbrev stored_word : ℕ → List ℕ → List ℕ
  stored_word at payload =
      splice payload at
        (le_bytes 8 (bit_xor (le_number (word_at at payload)) (mask_word (a ∷ b ∷ c ∷ d ∷ []))))

  mask_words-suc :
      (left at : ℕ) (payload : List ℕ)
      → at + 8 ≤ length payload
      → mask_words (a ∷ b ∷ c ∷ d ∷ []) (suc left) at payload
        ≡ mask_words (a ∷ b ∷ c ∷ d ∷ []) left (at + 8) (stored_word at payload)
  unfolding mask_words
  mask_words-suc left at payload h = rw (
    slice_lem payload at (at + 8) (omega arith) h,
    copy_at_lem payload at
        (le_bytes 8 (bit_xor (le_number (word_at at payload)) (mask_word (a ∷ b ∷ c ∷ d ∷ []))))
        (omega arith),
  )

  word_at-lem :
      (at j : ℕ) (payload : List ℕ)
      → at + 8 ≤ length payload
      → j < 8
      → get_or (word_at at payload) j 0 ≡ get_or payload (at + j) 0
  word_at-lem at j payload h k =
      ground (arith, get_or-take (at + 8 - at) (drop at payload) j 0, get_or-drop at payload j 0)

  length-word_at :
      (at : ℕ) (payload : List ℕ) → at + 8 ≤ length payload → length (word_at at payload) ≡ 8
  length-word_at at payload h =
      omega (arith, length-take (at + 8 - at) (drop at payload), length-drop at payload)

  -- Eight bytes replaced by their masked values.
  IsMasked-word :
      (phase at : ℕ) (payload z : List ℕ)
      → at + 8 ≤ length payload
      → (phase + at) % 4 ≡ 0
      → length z ≡ 8
      → ((j : ℕ)
          → j < 8
          → get_or z j 0 ≡ bit_xor (get_or payload (at + j) 0) (key (a ∷ b ∷ c ∷ d ∷ []) j))
      → IsMasked (a ∷ b ∷ c ∷ d ∷ []) phase at (at + 8) payload (splice payload at z)
  IsMasked-word phase at payload z h aligned eight each = record {
    same_length = length-splice payload at z;
    at_index = λ j k.
        ground
          (arith, get_or-splice payload at z j 0 k, each (j - at), same_key phase at j aligned);
  }
    where
      same_key : (phase at j : ℕ) → (phase + at) % 4 ≡ 0 → at ≤ j → (j - at) % 4 ≡ (phase + j) % 4
      same_key p q j e l = omega arith

  stored_word-IsMasked :
      (phase at : ℕ) (payload : List ℕ)
      → at + 8 ≤ length payload
      → ByteAt payload
      → (phase + at) % 4 ≡ 0
      → IsMasked (a ∷ b ∷ c ∷ d ∷ []) phase at (at + 8) payload (stored_word at payload)
  stored_word-IsMasked phase at payload h small aligned =
      let word = word_at at payload in
      let eight = length-word_at at payload h in
      let word_bytes = ByteAt-AreBytes word (λ j k.
        rw (word_at-lem at j payload h (omega (arith, k, eight)))
          (small (at + j) (omega (arith, k, eight)))) in
      rw (word_xor word a b c d word_bytes eight bytes) (
        IsMasked-word phase at payload (zip_xor word twice) h aligned
          (omega (arith, length-zip_xor word twice eight, eight))
          (λ j k.
            get_or-zip_xor word twice j eight (omega (arith, k, eight))
            ∙ ap₂ bit_xor (word_at-lem at j payload h k) (get_or-twice j k)))

  pub key-lt : (k : ℕ) → key (a ∷ b ∷ c ∷ d ∷ []) k < 256
  key-lt k = AreBytes-ByteAt (a ∷ b ∷ c ∷ d ∷ []) bytes (k % 4) (omega arith)

  pub IsMasked-ByteAt :
      (phase lo hi : ℕ) (payload out : List ℕ)
      → IsMasked (a ∷ b ∷ c ∷ d ∷ []) phase lo hi payload out
      → ByteAt payload
      → ByteAt out
  IsMasked-ByteAt phase lo hi payload out masked small j k = ground (
    arith,
    masked.at_index j,
    masked.same_length,
    small j,
    key-lt (phase + j),
    bit_xor-lt 8 (get_or payload j 0) (key (a ∷ b ∷ c ∷ d ∷ []) (phase + j)),
  )

  -- `left` rounds from an index at which the mask begins anew mask eight times as many bytes.
  pub mask_words-IsMasked :
      (left at hi phase : ℕ) (payload : List ℕ)
      → at + left * 8 ≡ hi
      → hi ≤ length payload
      → ByteAt payload
      → (phase + at) % 4 ≡ 0
      → (out : List ℕ) × (mask_words (a ∷ b ∷ c ∷ d ∷ []) left at payload ≡ some out)
        × IsMasked (a ∷ b ∷ c ∷ d ∷ []) phase at hi payload out
  mask_words-IsMasked zero at hi phase payload e h small aligned = (
    payload,
    (unfold mask_words in refl),
    record { same_length = refl; at_index = λ j l. ground arith },
  )
  mask_words-IsMasked (suc left) at hi phase payload e h small aligned =
      let one = stored_word-IsMasked phase at payload (omega arith) small aligned in
      let p = stored_word at payload in
      let (out, returns, masked) =
        mask_words-IsMasked left (at + 8) hi phase p (omega arith) (omega (arith, one.same_length))
          (IsMasked-ByteAt phase at (at + 8) payload p one small) (omega arith) in
      (
        out,
        rw (mask_words-suc left at payload (omega arith)) returns,
        IsMasked-join phase at (at + 8) hi payload p out (omega arith) (omega arith) one masked,
      )
