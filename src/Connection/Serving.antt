-- ===== src/Connection/Serving.antt =====
-- connection.go: `handleRead`, `handlerProtocol` and `HandleEvent`, for any protocol and callback.
-- A protocol, the callback and what they change of the connection are a state `P`; `Ctx` is what
-- `UnPacket` returns first and `M` what `OnMessage` returns, nil being `none`.
use goreactor.Common.{not, ◌&&◌, ℕ, zero, suc, Bool, false, List, [], ◌∷◌, ◌++◌, Option, some, none}
use goreactor.Common.{◌==◌, if◌then◌else◌, ◌>>=◌, length}
use goreactor.RingBuffer.Defs.{RingBuffer, with_data, write, reset, ring_length}
use goreactor.RingBuffer.Access.{peek_all}
use goreactor.Connection.Defs.{Conn, System, close_conn, send_in_loop, handle_write}
use goreactor.Reactor.Events.{Dispatch, closes, writes, reads, ignores}

-- What `unix.Read` did: bytes, which may be none at the end of the input, EAGAIN, another error.
pub data Received : Type 0 where
  got : List ℕ → Received
  again failed : Received

-- A connection with its input: `inBuf`, the buffer `buf` over what was read last, and the lengths
-- that are kept for other goroutines.
pub record Side (P : Type 0) : Type 0 where
  pub conn : Conn
  pub in_buf : RingBuffer
  pub buf : RingBuffer
  pub state : P
  pub in_buf_len : ℕ
  pub out_buf_len : ℕ

-- What `UnPacket` gives, and the end of `handlerProtocol`.
pub record Unpacked (P Ctx : Type 0) : Type 0 where
  pub state : P
  pub ring : RingBuffer
  pub ctx : Option Ctx
  pub bytes : List ℕ

pub record Handled (P : Type 0) : Type 0 where
  pub state : P
  pub ring : RingBuffer
  pub out : List ℕ

-- `ctx == nil && len(receivedData) == 0`
abbrev pub is_nothing : {Ctx : Type 0} → Option Ctx → List ℕ → Bool
is_nothing none bytes = length bytes == 0
is_nothing (some ctx) bytes = false

-- `append(*tmpBuffer, Packet(sendData)...)` where there is something to send.
unfoldable pub append_packet : {M : Type 0} → (M → List ℕ) → Option M → List ℕ → List ℕ
append_packet packet none out = out
append_packet packet (some msg) out = out ++ packet msg

-- What is left of the bytes that were read goes to the input buffer.
unfoldable pub keep_input : RingBuffer → RingBuffer → Option RingBuffer
keep_input in_buf s =
    if s.is_empty
    then some in_buf
    else do (first, end) ← peek_all s; written ← write in_buf first; some written.1

unfoldable pub reset_if_empty : RingBuffer → RingBuffer
reset_if_empty s = if s.is_empty then reset s else s

module _ {P : Type 0} where
  -- The connection after its output did something; where that closed it, `PutInPool` has reset `inBuf`, too.
  unfoldable pub put_conn : Side P → Conn → Side P
  put_conn side c = record side {
    conn = c;
    in_buf = if side.conn.connected && not c.connected then reset side.in_buf else side.in_buf;
  }

  -- The end of `handleRead`: the answers are sent.
  unfoldable pub send_answers : System → Side P → List ℕ → Option (Side P × Bool)
  send_answers sys side [] = some (side, false)
  send_answers sys side (b ∷ out) =
      send_in_loop sys side.conn (b ∷ out) >>= λ sent. some (put_conn side sent.0, sent.1)

  -- `handleClose`, with `closed` set.
  unfoldable pub close_side : System → Side P → Option (Side P × Bool)
  close_side sys side = close_conn sys side.conn >>= λ done. some (put_conn side done.0, done.1)

  -- The end of `HandleEvent`.
  unfoldable pub store_lengths : Side P → Side P
  store_lengths side = record side {
    in_buf_len = ring_length side.in_buf;
    out_buf_len = ring_length side.conn.out_buf;
  }

  unfoldable pub after_write : Side P → Conn × Bool → Side P
  after_write side (c, closed) =
      if closed
      then put_conn side c
      else store_lengths (record side { conn = record c { out_buf = reset_if_empty c.out_buf } })

  unfoldable pub after_read : Side P × Bool → Side P
  after_read (side, closed) =
      if closed then side else store_lengths (record side { in_buf = reset_if_empty side.in_buf })

module _ {P Ctx M : Type 0} (un_packet : P → RingBuffer → Option (Unpacked P Ctx))
    (on_message : P → Option Ctx → List ℕ → P × Option M) (packet : M → List ℕ) where
  -- `handlerProtocol`, for at most so many calls of `UnPacket`; `none` is a panic, or that they did
  -- not suffice.
  unfoldable pub handler_protocol : ℕ → P → RingBuffer → List ℕ → Option (Handled P)
  handler_protocol zero p s out = none
  handler_protocol (suc fuel) p s out = un_packet p s >>= λ u.
      let (p', msg) = on_message u.state u.ctx u.bytes in
      let rest = handler_protocol fuel p' u.ring (append_packet packet msg out) in
      if is_nothing u.ctx u.bytes
      then some (record { state = u.state; ring = u.ring; out = out })
      else rest

  -- A byte of the buffer, at least, goes into each message, so a call more than bytes is enough.
  unfoldable pub run_protocol : P → RingBuffer → Option (Handled P)
  run_protocol p s = handler_protocol (suc (ring_length s)) p s []

  -- The two branches of `handleRead` on bytes.
  unfoldable pub receive_fresh : System → Side P → List ℕ → Option (Side P × Bool)
  receive_fresh sys side bytes = do
    done ← run_protocol side.state (with_data side.buf bytes)
    in_buf ← keep_input side.in_buf done.ring
    send_answers sys (record side { state = done.state; buf = done.ring; in_buf = in_buf }) done.out

  unfoldable pub receive_more : System → Side P → List ℕ → Option (Side P × Bool)
  receive_more sys side bytes = do
    written ← write side.in_buf bytes
    done ← run_protocol side.state written.1
    send_answers sys (record side { state = done.state; in_buf = done.ring }) done.out

  -- `handleRead`: the connection, and whether it was closed.
  unfoldable pub handle_read : System → Received → Side P → Option (Side P × Bool)
  handle_read sys again side = some (side, false)
  handle_read sys failed side = close_side sys side
  handle_read sys (got []) side = close_side sys side
  handle_read sys (got (b ∷ bytes)) side =
      if side.in_buf.is_empty
      then receive_fresh sys side (b ∷ bytes)
      else receive_more sys side (b ∷ bytes)

  -- `HandleEvent`, by what the flags call for.
  unfoldable pub handle_event : System → Received → Dispatch → Side P → Option (Side P)
  handle_event sys received closes side = close_side sys side >>= λ done. some done.0
  handle_event sys received writes side =
      handle_write sys side.conn >>= λ done. some (after_write side done)
  handle_event sys received reads side =
      handle_read sys received side >>= λ done. some (after_read done)
  handle_event sys received ignores side = some (store_lengths side)
