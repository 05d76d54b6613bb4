-- ===== src/Websocket/Protocol/Defs.antt =====
-- plugins/websocket/protocol.go: `UnPacket` on a connection that is upgraded. `scratch` is the
-- slice under the key `gev_header_buf`; the slice is reused, so it is part of the result.
use goreactor.Common.{ℕ, List, Option, some, leb, if◌then◌else◌, ◌>>=◌, replicate}
use goreactor.RingBuffer.Defs.{RingBuffer, virtual_length, virtual_flush, virtual_revert, read}
use goreactor.Websocket.Frame.Defs.{
  Header, HeaderResult, WsErr, nil, err_header_not_ready, virtual_read_header,
}
use goreactor.Websocket.Cipher.Defs.{cipher}

-- `fatal` is `log.Fatal`, which ends the process; `waits` returns neither header nor payload;
-- `handshake` returns the answer to the handshake, with no header.
pub data Outcome : Type 0 where
  fatal waits : Outcome
  frame : Header → List ℕ → Outcome
  handshake : List ℕ → Outcome

pub record Unpacked : Type 0 where
  pub outcome : Outcome
  pub ring : RingBuffer
  pub scratch : List ℕ

-- The frame is all there: consume the header, read the payload, and unmask it.
unfoldable pub take_payload : Header → List ℕ → RingBuffer → Option Unpacked
take_payload header scratch s = do
  out ← read (virtual_flush s) (replicate header.len 0)
  payload ← if header.masked then cipher header.mask 0 out.p else some out.p
  some (record { outcome = frame header payload; ring = out.ring; scratch = scratch })

-- What is done with the header that was read.
unfoldable pub after_header : WsErr → HeaderResult → Option Unpacked
after_header nil got =
    if leb got.header.len (virtual_length got.ring)
    then take_payload got.header got.scratch got.ring
    else some (record { outcome = waits; ring = virtual_revert got.ring; scratch = got.scratch })
after_header err_header_not_ready got =
    some (record { outcome = waits; ring = got.ring; scratch = got.scratch })
after_header _ got = some (record { outcome = fatal; ring = got.ring; scratch = got.scratch })

-- `UnPacket`, from the reading of the header on.
unfoldable pub unpack_frame : List ℕ → RingBuffer → Option Unpacked
unpack_frame scratch s = virtual_read_header scratch s >>= λ got. after_header got.err got

-- `Packet`
abbrev pub packet : List ℕ → List ℕ
packet bytes = bytes
