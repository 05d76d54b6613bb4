-- ===== src/Websocket/Frame/RoundTrip.antt =====
-- What `WriteHeader` writes, `VirtualReadHeader` reads back.
use Prim.Native.Nat.{bit_and}
use goreactor.Common.{
  ℕ, ◌+◌, ◌*◌, ◌/◌, ◌%◌, ◌^◌, ◌≤◌, ◌<◌, Bool, true, false, List, [], ◌∷◌, ◌++◌, some, ◌≡◌, inl, inr,
  refl, ap, ◌∙◌, arith, Bool-cases,
}
use goreactor.Common.{ltb, ◌==◌, if◌then◌else◌, length, overwrite_full}
use native.Mathlib.Decide.{dec_le}
use goreactor.RingBuffer.Defs.{RingBuffer, ring_length}
use goreactor.RingBuffer.Contents.{virtual_contents, IsValid}
use goreactor.Websocket.Frame.Defs.{
  Header, HeaderResult, nil, virtual_read_header, write_header, first_byte, length_bytes,
  start_header, extra_bytes, finish_header, len64, be_bytes, no_mask, with_mask,
}
use goreactor.Websocket.Frame.Written.{
  byte_bits, mask_bit, start_header_lem, extra_bytes_lem, first_byte_lem,
}
use goreactor.Websocket.Frame.Reading.{ReadsHeader, read_short_header, read_long_header}

-- A header that fits the wire: three reserved bits, a four-bit code, a length below 2^63, and a
-- mask of four bytes, zero where there is none.
pub record IsWire (h : Header) : Type 0 where
  pub rsv_in : h.rsv < 8
  pub op_code_in : h.op_code < 16
  pub len_in : h.len ≤ len64
  pub mask_size : length h.mask ≡ 4
  pub unmasked : h.masked ≡ false → h.mask ≡ no_mask

-- The second byte, and the bytes behind it.
abbrev second_byte : Bool → ℕ → ℕ
second_byte masked second = second + (if masked then 128 else 0)

abbrev mask_bytes : Header → List ℕ
mask_bytes h = if h.masked then h.mask else []

write_header-some :
    (h : Header) (second : ℕ) (rest : List ℕ)
    → length_bytes h.len ≡ some (second, rest)
    → second < 128
    → (write_header h).0 ≡ first_byte h ∷ second_byte h.masked second ∷ (rest ++ mask_bytes h)
unfolding write_header
write_header-some h second rest e k = ground (arith, mask_bit second k)

-- The start of the header, from the two bytes written.
start-written :
    (h : Header) (second : ℕ)
    → IsWire h
    → second < 128
    → start_header (first_byte h) (second_byte h.masked second)
      ≡ record h { mask = no_mask; len = if ltb second 126 then second else 0 }
start-written h second w k = ground (
  arith,
  first_byte_lem h w.rsv_in w.op_code_in,
  w.rsv_in,
  w.op_code_in,
  start_header_lem (first_byte h) (second_byte h.masked second),
)

extra-written :
    (masked : Bool) (second : ℕ)
    → second < 128
    → extra_bytes (second_byte masked second)
      ≡ (if masked then 4 else 0) + (if ltb second 126 then 0 else if second == 126 then 2 else 8)
extra-written true second k = ground (arith, extra_bytes_lem (second + 128))
extra-written false second k = ground (arith, extra_bytes_lem (second + 0))

with_mask-written :
    (h : Header) (n : ℕ)
    → IsWire h
    → n ≡ h.len
    → with_mask (record h { mask = no_mask; len = n }) (mask_bytes h) ≡ h
with_mask-written h n w e = elim (Bool-cases h.masked) [
  | inl m ↦ ground (arith, m, overwrite_full no_mask h.mask)
  | inr m ↦ ground (arith, m, w.unmasked m)
]

-- `finish_header`, for each form of the length.
low_bits :
    (masked : Bool) (second : ℕ) → second < 128 → bit_and (second_byte masked second) 0x7f ≡ second
low_bits true second k = omega (arith, (byte_bits (second + 128) (omega arith)).3)
low_bits false second k = omega (arith, (byte_bits (second + 0) (omega arith)).3)

finish7 :
    (b1 : ℕ) (h : Header) (bts : List ℕ)
    → bit_and b1 0x7f < 126
    → finish_header b1 h bts ≡ some (with_mask h bts, nil)
unfolding finish_header
finish7 b1 h bts k = ground arith

finish16 :
    (b1 : ℕ) (h : Header) (x y : ℕ) (bts : List ℕ)
    → bit_and b1 0x7f ≡ 126
    → finish_header b1 h (x ∷ y ∷ bts) ≡ some (with_mask (record h { len = x * 256 + y }) bts, nil)
unfolding finish_header
finish16 b1 h x y bts k = ground arith

finish64 :
    (b1 : ℕ) (h : Header) (a b c d e f g i : ℕ) (bts : List ℕ)
    → bit_and b1 0x7f ≡ 127
    → a < 128
    → finish_header b1 h (a ∷ b ∷ c ∷ d ∷ e ∷ f ∷ g ∷ i ∷ bts)
      ≡ some (
        with_mask
            (record h {
              len =
                  ((((((a * 256 + b) * 256 + c) * 256 + d) * 256 + e) * 256 + f) * 256 + g) * 256
                  + i;
            })
            bts,
        nil,
      )
unfolding finish_header
finish64 b1 h a b c d e f g i bts k l = ground (arith, (byte_bits a (omega arith)).0)

from_bytes :
    (v : ℕ)
    → v < 2 ^ 64
    → ((((((v / 256 ^ 7 % 256 * 256 + v / 256 ^ 6 % 256) * 256 + v / 256 ^ 5 % 256) * 256
                        + v / 256 ^ 4 % 256)
                      * 256
                    + v / 256 ^ 3 % 256)
                  * 256
                + v / 256 ^ 2 % 256)
              * 256
            + v / 256 ^ 1 % 256)
          * 256
        + v / 256 ^ 0 % 256
      ≡ v
from_bytes v h = omega arith

-- The three encodings of a length.
finish-written7 :
    (h : Header)
    → IsWire h
    → h.len ≤ 125
    → finish_header
        (second_byte h.masked h.len)
        (record h { mask = no_mask; len = h.len })
        (mask_bytes h)
      ≡ some (h, nil)
finish-written7 h w k =
    finish7 (second_byte h.masked h.len) (record h { mask = no_mask; len = h.len }) (mask_bytes h)
      (omega (arith, low_bits h.masked h.len (omega arith)))
    ∙ ap (λ x. some (x, nil)) (with_mask-written h h.len w refl)

finish-written16 :
    (h : Header)
    → IsWire h
    → h.len < 2 ^ 16
    → finish_header
        (second_byte h.masked 126)
        (record h { mask = no_mask; len = 0 })
        (be_bytes 2 (h.len % 2 ^ 16) ++ mask_bytes h)
      ≡ some (h, nil)
finish-written16 h w k =
    finish16 (second_byte h.masked 126) (record h { mask = no_mask; len = 0 })
      (h.len % 2 ^ 16 / 256 ^ 1 % 256) (h.len % 2 ^ 16 / 256 ^ 0 % 256) (mask_bytes h)
      (low_bits h.masked 126 (omega arith))
    ∙ ap (λ x. some (x, nil))
        (with_mask-written h (h.len % 2 ^ 16 / 256 ^ 1 % 256 * 256 + h.len % 2 ^ 16 / 256 ^ 0 % 256)
          w (omega arith))

finish-written64 :
    (h : Header)
    → IsWire h
    → finish_header
        (second_byte h.masked 127)
        (record h { mask = no_mask; len = 0 })
        (be_bytes 8 (h.len % 2 ^ 64) ++ mask_bytes h)
      ≡ some (h, nil)
finish-written64 h w =
    let v = h.len % 2 ^ 64 in
    finish64 (second_byte h.masked 127) (record h { mask = no_mask; len = 0 }) (v / 256 ^ 7 % 256)
      (v / 256 ^ 6 % 256) (v / 256 ^ 5 % 256) (v / 256 ^ 4 % 256) (v / 256 ^ 3 % 256)
      (v / 256 ^ 2 % 256) (v / 256 ^ 1 % 256) (v / 256 ^ 0 % 256) (mask_bytes h)
      (low_bits h.masked 127 (omega arith)) (omega (arith, w.len_in))
    ∙ ap (λ x. some (x, nil))
        (with_mask-written h _ w (from_bytes v (omega arith) ∙ omega (arith, w.len_in)))

module _ (h : Header) (w : IsWire h) (s : RingBuffer) (scratch left : List ℕ) (v : IsValid s)
    (room : 12 ≤ length scratch) (six : 6 ≤ ring_length s) (more : 0 < length left) where
  abbrev Back : Type 0
  Back =
      (out : HeaderResult) × (virtual_read_header scratch s ≡ some out) × ReadsHeader s h left out

  -- A header with bytes behind the first two.
  long_back :
      (second : ℕ) (rest : List ℕ)
      → length_bytes h.len ≡ some (second, rest)
      → second < 128
      → virtual_contents s ≡ (write_header h).0 ++ left
      → extra_bytes (second_byte h.masked second) ≡ length (rest ++ mask_bytes h)
      → 0 < length (rest ++ mask_bytes h)
      → length (rest ++ mask_bytes h) ≤ 12
      → finish_header
          (second_byte h.masked second)
          (record h { mask = no_mask; len = if ltb second 126 then second else 0 })
          (rest ++ mask_bytes h)
        ≡ some (h, nil)
      → Back
  long_back second rest coded small holds extra some_left few finishes =
      let b0 = first_byte h in
      let b1 = second_byte h.masked second in
      read_long_header s scratch v room six b0 b1 left more (rest ++ mask_bytes h) h
        (holds ∙ ap (λ l. l ++ left) (write_header-some h second rest coded small)) extra some_left
        few
        (ap (λ x. finish_header b1 x (rest ++ mask_bytes h)) (start-written h second w small)
          ∙ finishes)

  -- A header of two bytes.
  short_back :
      length_bytes h.len ≡ some (h.len, [])
      → h.len ≤ 125
      → h.masked ≡ false
      → virtual_contents s ≡ (write_header h).0 ++ left
      → Back
  short_back coded small plain holds =
      let b0 = first_byte h in
      let b1 = second_byte h.masked h.len in
      let (out, returns, reads) =
        read_short_header s scratch v room six b0 b1 left more
          (holds
            ∙ ap (λ l. l ++ left) (write_header-some h h.len [] coded (omega arith))
            ∙ nothing_behind plain)
          (ground (arith, extra-written h.masked h.len (omega arith), plain)) in
      (
        out,
        returns,
        record {
          decodes =
              reads.decodes
              ∙ start-written h h.len w (omega arith)
              ∙ ground (arith, plain, w.unmasked plain);
          error = reads.error;
          remains = reads.remains;
          same = reads.same;
          keeps = reads.keeps;
          room = reads.room;
        },
      )
    where
      nothing_behind :
          h.masked ≡ false
          → (first_byte h ∷ second_byte h.masked h.len ∷ ([] ++ mask_bytes h)) ++ left
            ≡ first_byte h ∷ second_byte h.masked h.len ∷ left
      nothing_behind plain' = rw plain'

  back : virtual_contents s ≡ (write_header h).0 ++ left → Back
  back holds = elim (dec_le h.len 125) [
    | yes l ↦ elim (Bool-cases h.masked) [
      | inl m ↦
          long_back h.len [] (coded7 l) (omega arith) holds
            (ground (arith, extra-written h.masked h.len, m, w.mask_size))
            (ground (arith, m, w.mask_size)) (ground (arith, m, w.mask_size))
            (ap
                (λ n.
                  finish_header (second_byte h.masked h.len) (record h { mask = no_mask; len = n })
                    (mask_bytes h))
                (small_len l)
              ∙ finish-written7 h w l)
      | inr m ↦ short_back (coded7 l) l m holds
    ]
    | no l ↦ elim (dec_le h.len 65535) [
      | yes k ↦
          long_back 126 (be_bytes 2 (h.len % 2 ^ 16)) (coded16 (omega arith) k) (omega arith) holds
            (ground (arith, extra-written h.masked 126, w.mask_size)) (omega arith)
            (ground (arith, w.mask_size)) (finish-written16 h w (omega arith))
      | no k ↦
          long_back 127 (be_bytes 8 (h.len % 2 ^ 64)) (coded64 (omega arith) w.len_in) (omega arith)
            holds (ground (arith, extra-written h.masked 127, w.mask_size)) (omega arith)
            (ground (arith, w.mask_size)) (finish-written64 h w)
    ]
  ]
    where
      coded7 : h.len ≤ 125 → length_bytes h.len ≡ some (h.len, [])
      coded7 l = unfold length_bytes in ground arith

      small_len : h.len ≤ 125 → (if ltb h.len 126 then h.len else 0) ≡ h.len
      small_len l = ground arith

      coded16 :
          125 < h.len → h.len ≤ 65535 → length_bytes h.len ≡ some (126, be_bytes 2 (h.len % 2 ^ 16))
      coded16 l k = unfold length_bytes in ground arith

      coded64 :
          65535 < h.len
          → h.len ≤ len64
          → length_bytes h.len ≡ some (127, be_bytes 8 (h.len % 2 ^ 64))
      coded64 l k = unfold length_bytes in ground arith

-- `VirtualReadHeader` reads back what `WriteHeader` wrote: from a buffer, wherever its bytes stand
-- in the array, that holds the header and at least one byte behind it, six in all or more, it
-- returns the header and no error; the bytes behind it are left to the virtual reader, the reader
-- still sees everything, and nothing panics. The scratch slice has room for twelve bytes.
pub virtual_read_header-write_header :
    (h : Header) (s : RingBuffer) (scratch left : List ℕ)
    → IsWire h
    → IsValid s
    → 12 ≤ length scratch
    → virtual_contents s ≡ (write_header h).0 ++ left
    → 6 ≤ ring_length s
    → 0 < length left
    → (out : HeaderResult) × (virtual_read_header scratch s ≡ some out) × ReadsHeader s h left out
virtual_read_header-write_header h s scratch left w v room holds six more =
    back h w s scratch left v room six more holds

pub length-write_header : (h : Header) → IsWire h → 2 ≤ length (write_header h).0
length-write_header h w = elim (dec_le h.len 125) [
  | yes l ↦ unfold write_header length_bytes in ground arith
  | no l ↦ elim (dec_le h.len 65535) [
    | yes k ↦ unfold write_header length_bytes in ground arith
    | no k ↦ unfold write_header length_bytes in ground (arith, w.len_in)
  ]
]
