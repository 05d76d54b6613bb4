-- ===== src/Websocket/Frame/Written.antt =====
-- The bits of a header's first two bytes, as arithmetic.
use Prim.Native.Nat.{bit_and, bit_or}
use goreactor.Common.{
  ℕ, ◌+◌, ◌*◌, ◌/◌, ◌%◌, ◌^◌, ◌<◌, Bool, true, false, not, ◌&&◌, ◌≡◌, refl, arith,
}
use goreactor.Common.{ltb, ◌==◌, if◌then◌else◌, ==_iff}
use goreactor.Common.Bits.{all_below, all_below_sound, bit_or-shifted}
use goreactor.Websocket.Frame.Defs.{Header, first_byte, start_header, extra_bytes, no_mask}

-- The four tests on a byte at once, checked value by value.
abbrev reads_as_arithmetic : ℕ → Bool
reads_as_arithmetic b =
    (bit_and b 0x80 == (if ltb b 128 then 0 else 128))
    && (bit_and b 0x70 == b / 16 % 8 * 16)
    && (bit_and b 0x0f == b % 16)
    && (bit_and b 0x7f == b % 128)

byte_table : all_below 256 reads_as_arithmetic ≡ true
unfolding all_below
byte_table = refl

pub byte_bits :
    (b : ℕ)
    → b < 256
    → (bit_and b 0x80 ≡ (if ltb b 128 then 0 else 128))
      × (bit_and b 0x70 ≡ b / 16 % 8 * 16)
      × (bit_and b 0x0f ≡ b % 16)
      × (bit_and b 0x7f ≡ b % 128)
byte_bits b h = ground (arith, all_below_sound 256 reads_as_arithmetic b byte_table h)

mask_bit_table : all_below 128 (λ b. bit_or b 0x80 == b + 128) ≡ true
unfolding all_below
mask_bit_table = refl

pub mask_bit : (b : ℕ) → b < 128 → bit_or b 0x80 ≡ b + 128
mask_bit b h =
    (==_iff (bit_or b 0x80) (b + 128)).0
      (all_below_sound 128 (λ x. bit_or x 0x80 == x + 128) b mask_bit_table h)

pub start_header_lem :
    (b0 b1 : ℕ)
    → b0 < 256
    → b1 < 256
    → start_header b0 b1 ≡ record {
      fin = not (ltb b0 128);
      rsv = b0 / 16 % 8;
      op_code = b0 % 16;
      masked = not (ltb b1 128);
      mask = no_mask;
      len = if ltb (b1 % 128) 126 then b1 % 128 else 0;
    }
unfolding start_header
start_header_lem b0 b1 h k = ground (arith, byte_bits b0 h, byte_bits b1 k)

pub extra_bytes_lem :
    (b1 : ℕ)
    → b1 < 256
    → extra_bytes b1
      ≡ (if ltb b1 128 then 0 else 4)
        + (if ltb (b1 % 128) 126 then 0 else if (b1 % 128) == 126 then 2 else 8)
unfolding extra_bytes
extra_bytes_lem b1 k = ground (arith, byte_bits b1 k)

pub first_byte_lem :
    (h : Header)
    → h.rsv < 8
    → h.op_code < 16
    → first_byte h ≡ (if h.fin then 128 else 0) + h.rsv * 16 + h.op_code
unfolding first_byte
first_byte_lem h k l = first_byte_parts h.fin h.rsv h.op_code k l
  where
    first_byte_parts :
        (fin : Bool) (rsv op : ℕ)
        → rsv < 8
        → op < 16
        → bit_or (bit_or (if fin then 0x80 else 0) (rsv * 2 ^ 4 % 256)) (op % 256)
          ≡ (if fin then 128 else 0) + rsv * 16 + op
    first_byte_parts true rsv op p q = ground (
      arith,
      bit_or-shifted 7 1 (rsv * 16) (omega arith),
      bit_or-shifted 4 (8 + rsv) op (omega arith),
    )
    first_byte_parts false rsv op p q =
        ground (
          arith,
          bit_or-shifted 7 0 (rsv * 16) (omega arith),
          bit_or-shifted 4 rsv op (omega arith),
        )
