-- ===== src/Websocket/Frame/Defs.antt =====
-- plugins/websocket/ws/frame.go, write.go and read.go: headers, frames, and the two directions of
-- the header's encoding. A byte is a number below 256 and a length one below 2^63.
use Prim.Native.Nat.{bit_and, bit_or}
use goreactor.Common.{
  ℕ, zero, suc, ◌+◌, ◌-◌, ◌*◌, ◌/◌, ◌%◌, ◌^◌, Bool, true, false, not, List, [], ◌∷◌, ◌++◌, Option,
  none, some,
}
use goreactor.Common.{
  ltb, leb, ◌==◌, if◌then◌else◌, ◌>>=◌, length, get_elem?, drop, replicate, slice, splice, copy_at,
  be_uint,
}
use goreactor.RingBuffer.Defs.{RingBuffer, ring_length, virtual_read}
use goreactor.Websocket.Frame.Codes.{op_text, op_binary, op_close, op_ping, op_pong}

-- `type Header`; `mask` has four bytes.
pub record Header : Type 0 where
  pub fin : Bool
  pub rsv : ℕ
  pub op_code : ℕ
  pub masked : Bool
  pub mask : List ℕ
  pub len : ℕ

-- `type Frame`
pub record Frame : Type 0 where
  pub header : Header
  pub payload : List ℕ

-- The error values of read.go, and `nil`.
pub data WsErr : Type 0 where
  nil err_header_length_msb err_header_length_unexpected err_header_not_ready : WsErr

abbrev pub no_mask : List ℕ
no_mask = replicate 4 0

-- `NewFrame`
unfoldable pub new_frame : ℕ → Bool → List ℕ → Frame
new_frame op fin p = record {
  header = record {
    fin = fin;
    rsv = 0;
    op_code = op;
    masked = false;
    mask = no_mask;
    len = length p;
  };
  payload = p;
}

unfoldable pub new_text_frame : List ℕ → Frame
unfolding new_frame
new_text_frame p = new_frame op_text true p

unfoldable pub new_binary_frame : List ℕ → Frame
unfolding new_frame
new_binary_frame p = new_frame op_binary true p

unfoldable pub new_ping_frame : List ℕ → Frame
unfolding new_frame
new_ping_frame p = new_frame op_ping true p

unfoldable pub new_pong_frame : List ℕ → Frame
unfolding new_frame
new_pong_frame p = new_frame op_pong true p

unfoldable pub new_close_frame : List ℕ → Frame
unfolding new_frame
new_close_frame p = new_frame op_close true p

-- `binary.BigEndian.PutUint16` and `PutUint64`: the `n` bytes of a number, highest first.
abbrev pub be_bytes : ℕ → ℕ → List ℕ
be_bytes zero v = []
be_bytes (suc n) v = v / 256 ^ n % 256 ∷ be_bytes n v

abbrev pub len7 : ℕ
len7 = 125

abbrev pub len16 : ℕ
len16 = 65535

abbrev pub len64 : ℕ
len64 = 2 ^ 63 - 1

-- The first byte of a header.
unfoldable pub first_byte : Header → ℕ
first_byte h = bit_or (bit_or (if h.fin then 0x80 else 0) (h.rsv * 2 ^ 4 % 256)) (h.op_code % 256)

-- The second byte without its mask bit, and the bytes of the length behind it.
unfoldable pub length_bytes : ℕ → Option (ℕ × List ℕ)
length_bytes n =
    if leb n len7
    then some (n % 256, [])
    else if leb n len16
    then some (126, be_bytes 2 (n % 2 ^ 16))
    else if leb n len64
    then some (127, be_bytes 8 (n % 2 ^ 64))
    else none

-- `WriteHeader`: the bytes in the order in which they are put at their places in `bts`.
unfoldable pub write_header : Header → List ℕ × WsErr
write_header h = elim (length_bytes h.len) [
  | none ↦ ([], err_header_length_unexpected)
  | some (second, rest) ↦ (
    first_byte h
        ∷ (if h.masked then bit_or second 0x80 else second)
        ∷ (rest ++ (if h.masked then h.mask else [])),
    nil,
  )
]

-- `FrameToBytes`
unfoldable pub frame_to_bytes : Frame → List ℕ × WsErr
frame_to_bytes f = let (ret, err) = write_header f.header in (ret ++ f.payload, err)

-- What `VirtualReadHeader` leaves: its results, the buffer, and the scratch slice `bts`.
pub record HeaderResult : Type 0 where
  pub header : Header
  pub err : WsErr
  pub ring : RingBuffer
  pub scratch : List ℕ

abbrev pub zero_header : Header
zero_header = record { fin = false; rsv = 0; op_code = 0; masked = false; mask = no_mask; len = 0 }

-- `VirtualRead` into the first `n` bytes of the scratch slice.
unfoldable pub read_into : ℕ → List ℕ → RingBuffer → Option (List ℕ × RingBuffer)
read_into n scratch s = do
  bts ← slice scratch 0 n
  out ← virtual_read s bts
  some (out.p ++ drop n scratch, out.ring)

-- The header as far as its first two bytes tell it.
unfoldable pub start_header : ℕ → ℕ → Header
start_header b0 b1 = record {
  fin = not (bit_and b0 0x80 == 0);
  rsv = bit_and b0 0x70 / 2 ^ 4;
  op_code = bit_and b0 0x0f;
  masked = not (bit_and b1 0x80 == 0);
  mask = no_mask;
  len = let length = bit_and b1 0x7f in if ltb length 126 then length else 0;
}

-- How many more bytes there are to read.
unfoldable pub extra_bytes : ℕ → ℕ
extra_bytes b1 =
    let length = bit_and b1 0x7f in
    (if bit_and b1 0x80 == 0 then 0 else 4)
    + (if ltb length 126 then 0 else if length == 126 then 2 else 8)

-- `copy(h.Mask[:], bts)` for a masked header.
abbrev pub with_mask : Header → List ℕ → Header
with_mask h bts = record h { mask = if h.masked then splice no_mask 0 bts else h.mask }

-- What is made of the further bytes.
unfoldable pub finish_header : ℕ → Header → List ℕ → Option (Header × WsErr)
finish_header b1 h bts =
    let length = bit_and b1 0x7f in
    if length == 126
    then (do v ← be_uint 2 bts; some (with_mask (record h { len = v }) (drop 2 bts), nil))
    else if length == 127
    then (do
      b ← get_elem? bts 0
      v ← be_uint 8 bts
      some (
          if bit_and b 0x80 == 0
          then (with_mask (record h { len = v }) (drop 8 bts), nil)
          else (h, err_header_length_msb)))
    else some (with_mask h bts, nil)

-- `VirtualReadHeader`
unfoldable pub virtual_read_header : List ℕ → RingBuffer → Option HeaderResult
virtual_read_header scratch s =
    if ltb (ring_length s) 6
    then some
        (record { header = zero_header; err = err_header_not_ready; ring = s; scratch = scratch })
    else do
      (scratch', s') ← read_into 2 scratch s
      b0 ← get_elem? scratch' 0
      b1 ← get_elem? scratch' 1
      let h = start_header b0 b1
      let extra = extra_bytes b1
      (if extra == 0
          then some (record { header = h; err = nil; ring = s'; scratch = scratch' })
          else do
            (scratch'', s'') ← read_into extra scratch' s'
            bts ← slice scratch'' 0 extra
            (h', err) ← finish_header b1 h bts
            some (record { header = h'; err = err; ring = s''; scratch = scratch'' }))

-- `min` of utils.go
abbrev pub min_int : ℕ → ℕ → ℕ
min_int a b = if ltb a b then a else b

abbrev pub max_control_frame_payload_size : ℕ
max_control_frame_payload_size = 125

-- `PutCloseFrameBody`
unfoldable pub put_close_frame_body : List ℕ → ℕ → List ℕ → Option (List ℕ)
put_close_frame_body p code reason = do
  _ ← get_elem? p (1 + length reason)
  p' ← copy_at p 0 (be_bytes 2 code)
  copy_at p' 2 reason

-- `NewCloseFrameBody`
unfoldable pub new_close_frame_body : ℕ → List ℕ → Option (List ℕ)
new_close_frame_body code reason = do
  let n = min_int (2 + length reason) max_control_frame_payload_size
  let crop = min_int (max_control_frame_payload_size - 2) (length reason)
  reason' ← slice reason 0 crop
  put_close_frame_body (replicate n 0) code reason'

-- `ParseCloseFrameData`
unfoldable pub parse_close_frame_data : List ℕ → Option (ℕ × List ℕ)
parse_close_frame_data payload =
    if ltb (length payload) 2
    then some (0, [])
    else do code ← be_uint 2 payload; some (code, drop 2 payload)
