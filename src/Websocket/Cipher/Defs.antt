-- ===== src/Websocket/Cipher/Defs.antt =====
-- plugins/websocket/ws/cipher.go. The slice is changed in place; an offset is not negative, and a
-- sum of an offset and an index stays below 2^63. The eight bytes at a `*uint64` are read and
-- written lowest first, as on a little-endian machine. `none` is an index out of range.
use Prim.Native.Nat.{bit_xor, bit_or}
use goreactor.Common.{ℕ, zero, suc, ◌+◌, ◌-◌, ◌*◌, ◌/◌, ◌%◌, ◌^◌, List, [], ◌∷◌, Option, some}
use goreactor.Common.{ltb, if◌then◌else◌, ◌>>=◌, length, get_elem?, set, slice, copy_at}

-- `remain`
abbrev pub remain : List ℕ
remain = 0 ∷ 3 ∷ 2 ∷ 1 ∷ []

-- The number in bytes, lowest first, and its `n` lowest bytes.
abbrev pub le_number : List ℕ → ℕ
le_number [] = 0
le_number (b ∷ bs) = b + le_number bs * 256

abbrev pub le_bytes : ℕ → ℕ → List ℕ
le_bytes zero v = []
le_bytes (suc n) v = v % 256 ∷ le_bytes n (v / 256)

-- `m2`: the mask twice, as a word.
unfoldable pub mask_word : List ℕ → ℕ
mask_word mask = let m = le_number mask in bit_or (m * 2 ^ 32 % 2 ^ 64) m

module _ (mask : List ℕ) where
  -- The loop `payload[i] ^= mask[(phase+i)%4]`, with `left` rounds to go.
  unfoldable pub mask_bytes : ℕ → ℕ → ℕ → List ℕ → Option (List ℕ)
  mask_bytes zero i phase payload = some payload
  mask_bytes (suc left) i phase payload = do
    b ← get_elem? payload i
    m ← get_elem? mask ((phase + i) % 4)
    mask_bytes left (i + 1) phase (set payload i (bit_xor b m))

  -- The loop `*v = *v ^ m2` over the words from index `at` on.
  unfoldable pub mask_words : ℕ → ℕ → List ℕ → Option (List ℕ)
  mask_words zero at payload = some payload
  mask_words (suc left) at payload = do
    word ← slice payload at (at + 8)
    payload' ← copy_at payload at (le_bytes 8 (bit_xor (le_number word) (mask_word mask)))
    mask_words left (at + 8) payload'

  -- The case of eight bytes and more.
  unfoldable pub cipher_long : ℕ → List ℕ → Option (List ℕ)
  cipher_long offset payload = do
    let n = length payload
    let mpos = offset % 4
    ln ← get_elem? remain mpos
    let rn = (n - ln) % 8
    p ← mask_bytes ln 0 mpos payload
    p' ← mask_bytes rn (n - rn) mpos p
    mask_words ((n - ln - rn) / 8) ln p'

  unfoldable pub cipher : ℕ → List ℕ → Option (List ℕ)
  cipher offset payload =
      if ltb (length payload) 8
      then mask_bytes (length payload) 0 offset payload
      else cipher_long offset payload
