-- ===== src/Websocket/Handler.antt =====
-- plugins/websocket/wrap.go: `HandlerWrap.OnMessage`. `none` is a panic, `fatal` is `log.Fatal`. The
-- user's handler is a function from the payload to a message type and the bytes to send.
use goreactor.Common.{ℕ, Bool, true, false, List, [], Option, some, none}
use goreactor.Common.{ltb, ◌==◌, if◌then◌else◌, ◌>>=◌, length}
use goreactor.Websocket.Frame.Codes.{op_close, op_ping, op_pong, is_control}
use goreactor.Websocket.Frame.Defs.{Header, WsErr, nil}
use goreactor.Websocket.Replies.Defs.{
  MessageType, pack_data, handle_ping, handle_pong, handle_close,
}

-- What is sent: nothing, some bytes, or the process ends. `shut` says that `ShutdownWrite` is called.
pub data Reply : Type 0 where
  nothing fatal : Reply
  sends : List ℕ → Bool → Reply

-- The result of `FrameToBytes`, with `log.Fatal` on an error.
unfoldable pub or_fatal : Bool → List ℕ × WsErr → Reply
or_fatal shut (out, nil) = sends out shut
or_fatal shut (out, _) = fatal

module _ (valid_utf8 : List ℕ → Bool) (handler : List ℕ → MessageType × List ℕ) where
  -- The `switch` on a control code; a reserved one sends the nil slice.
  unfoldable pub on_control : Header → List ℕ → Option Reply
  on_control header payload =
      if header.op_code == op_close
      then (handle_close valid_utf8 header payload >>= λ out. some (or_fatal true out))
      else if header.op_code == op_ping
      then some (or_fatal false (handle_ping payload))
      else if header.op_code == op_pong
      then some (or_fatal false (handle_pong payload))
      else some (sends [] false)

  -- The message that the user's handler answers with.
  unfoldable pub on_data : MessageType → List ℕ → Option Reply
  on_data message_type out =
      if ltb 0 (length out)
      then (pack_data message_type out >>= λ packed. some (or_fatal false packed))
      else some nothing

  -- `OnMessage`; without a header it is a part of the handshake.
  unfoldable pub on_message : Option Header → List ℕ → Option Reply
  on_message none payload = if length payload == 0 then some nothing else some (sends payload false)
  on_message (some header) payload =
      if is_control header.op_code
      then on_control header payload
      else on_data (handler payload).0 (handler payload).1
