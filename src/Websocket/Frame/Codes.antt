-- ===== src/Websocket/Frame/Codes.antt =====
-- plugins/websocket/ws/frame.go: operation codes and status codes, as the numbers that they are.
use Prim.Native.Nat.{bit_and}
use goreactor.Common.{
  ℕ, ◌<◌, Bool, true, false, not, ◌&&◌, ◌||◌, ◌≡◌, refl, arith, ltb, leb, ◌==◌, if◌then◌else◌,
}
use goreactor.Common.{==_iff}
use goreactor.Common.Bits.{all_below, all_below_sound}

abbrev pub op_continuation : ℕ
op_continuation = 0x0

abbrev pub op_text : ℕ
op_text = 0x1

abbrev pub op_binary : ℕ
op_binary = 0x2

abbrev pub op_close : ℕ
op_close = 0x8

abbrev pub op_ping : ℕ
op_ping = 0x9

abbrev pub op_pong : ℕ
op_pong = 0xa

unfoldable pub is_control : ℕ → Bool
is_control c = not (bit_and c 0x8 == 0)

unfoldable pub is_data : ℕ → Bool
is_data c = bit_and c 0x8 == 0

unfoldable pub is_reserved : ℕ → Bool
is_reserved c = (leb 0x3 c && leb c 0x7) || (leb 0xb c && leb c 0xf)

-- `StatusCodeRange`
pub record StatusCodeRange : Type 0 where
  pub min : ℕ
  pub max : ℕ

abbrev pub status_range_not_in_use : StatusCodeRange
status_range_not_in_use = record { min = 0; max = 999 }

abbrev pub status_range_protocol : StatusCodeRange
status_range_protocol = record { min = 1000; max = 2999 }

abbrev pub status_range_application : StatusCodeRange
status_range_application = record { min = 3000; max = 3999 }

abbrev pub status_range_private : StatusCodeRange
status_range_private = record { min = 4000; max = 4999 }

-- `In`
unfoldable pub in_range : ℕ → StatusCodeRange → Bool
in_range s r = leb r.min s && leb s r.max

unfoldable pub is_not_used : ℕ → Bool
unfolding in_range
is_not_used s = in_range s status_range_not_in_use

unfoldable pub is_application_spec : ℕ → Bool
unfolding in_range
is_application_spec s = in_range s status_range_application

unfoldable pub is_private_spec : ℕ → Bool
unfolding in_range
is_private_spec s = in_range s status_range_private

unfoldable pub is_protocol_spec : ℕ → Bool
unfolding in_range
is_protocol_spec s = in_range s status_range_protocol

unfoldable pub is_protocol_defined : ℕ → Bool
is_protocol_defined s =
    s == 1000
    || s == 1001
    || s == 1002
    || s == 1003
    || s == 1007
    || s == 1008
    || s == 1009
    || s == 1010
    || s == 1011
    || s == 1005
    || s == 1006
    || s == 1015

unfoldable pub is_protocol_reserved : ℕ → Bool
is_protocol_reserved s = s == 1005 || s == 1006 || s == 1015

high_bit_table : all_below 16 (λ x. bit_and x 8 == (if ltb x 8 then 0 else 8)) ≡ true
unfolding all_below
high_bit_table = refl

-- A four-bit operation code is of exactly one kind: it is a control code exactly if it is 8 or
-- more, a data code exactly if it is not a control code, and reserved exactly if it is none of the
-- six that the protocol defines.
pub op_code_kinds :
    (c : ℕ)
    → c < 16
    → (is_control c ≡ leb 8 c)
      × (is_data c ≡ not (is_control c))
      × (is_reserved c
          ≡ not (
              c == op_continuation
              || c == op_text
              || c == op_binary
              || c == op_close
              || c == op_ping
              || c == op_pong))
op_code_kinds c h =
    let bit =
      (==_iff (bit_and c 8) (if ltb c 8 then 0 else 8)).0
        (all_below_sound 16 (λ x. bit_and x 8 == (if ltb x 8 then 0 else 8)) c high_bit_table h) in
    (
      unfold is_control in ground (arith, bit),
      unfold is_data is_control in ground arith,
      unfold is_reserved in ground arith,
    )

-- The four ranges do not overlap and cover the codes below 5000; each reserved code is defined by
-- the protocol, and each defined one is in the protocol's range.
pub status_code_ranges :
    (s : ℕ)
    → ((not (is_protocol_reserved s) || is_protocol_defined s) ≡ true)
      × ((not (is_protocol_defined s) || is_protocol_spec s) ≡ true)
      × ((is_not_used s || is_protocol_spec s || is_application_spec s || is_private_spec s)
          ≡ ltb s 5000)
      × ((is_protocol_spec s && (is_not_used s || is_application_spec s || is_private_spec s))
          ≡ false)
      × ((is_application_spec s && (is_not_used s || is_private_spec s)) ≡ false)
      × ((is_not_used s && is_private_spec s) ≡ false)
unfolding is_protocol_reserved is_protocol_defined is_protocol_spec is_not_used is_application_spec
    is_private_spec
status_code_ranges s = ground arith
