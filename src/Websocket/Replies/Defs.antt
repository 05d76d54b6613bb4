-- ===== src/Websocket/Replies/Defs.antt =====
-- plugins/websocket/ws/utils/utils.go: the frames with which a server answers, and the check of a
-- close frame. A text is the list of its bytes; `valid_utf8` is `utf8.ValidString`. `none` is a
-- panic: the nil frame of a message type that is neither, or a write out of range.
use Prim.Native.Char.{code}
use Prim.Native.String.{String}
use goreactor.Common.{ℕ, Bool, true, false, not, ◌&&◌, List, [], ◌∷◌, Option, none, some}
use goreactor.Common.{◌==◌, if◌then◌else◌, ◌>>=◌}
use goreactor.Websocket.Frame.Codes.{
  op_close, is_not_used, is_protocol_reserved, is_protocol_spec, is_protocol_defined,
}
use goreactor.Websocket.Frame.Defs.{
  Header, WsErr, no_mask, write_header, frame_to_bytes, new_text_frame, new_binary_frame,
  new_ping_frame, new_pong_frame, new_close_frame, new_close_frame_body, parse_close_frame_data,
}

-- The bytes of an ASCII text.
abbrev pub codes : String → List ℕ
codes String.[] = []
codes (String.◌∷◌ c s) = code c ∷ codes s

-- `type MessageType`: 1 and 2 in the source, `other` for any other number.
pub data MessageType : Type 0 where
  message_text message_binary other : MessageType

-- The errors of errors.go that the check can return, and `nil`.
pub data ProtocolErr : Type 0 where
  nil not_in_use application_level no_meaning unknown invalid_utf8 : ProtocolErr

-- `Error`
unfoldable pub error_text : ProtocolErr → List ℕ
error_text nil = []
error_text not_in_use = codes "status code is not in use"
error_text application_level = codes "status code is only application level"
error_text no_meaning = codes "status code has no meaning yet"
error_text unknown = codes "status code is not defined in spec"
error_text invalid_utf8 = codes "invalid utf8 sequence in close reason"

-- `PackData`
unfoldable pub pack_data : MessageType → List ℕ → Option (List ℕ × WsErr)
pack_data message_binary bytes = some (frame_to_bytes (new_binary_frame bytes))
pack_data message_text bytes = some (frame_to_bytes (new_text_frame bytes))
pack_data other bytes = none

-- A close frame with a code and a reason.
abbrev pub close_frame : ℕ → List ℕ → Option (List ℕ × WsErr)
close_frame status reason =
    new_close_frame_body status reason >>= λ body. some (frame_to_bytes (new_close_frame body))

-- `PackCloseData`
unfoldable pub pack_close_data : List ℕ → Option (List ℕ × WsErr)
pack_close_data reason = close_frame 1000 reason

-- `HandlePing`
unfoldable pub handle_ping : List ℕ → List ℕ × WsErr
handle_ping payload = frame_to_bytes (new_pong_frame payload)

-- `HandlePong`
unfoldable pub handle_pong : List ℕ → List ℕ × WsErr
handle_pong payload = frame_to_bytes (new_ping_frame payload)

module _ (valid_utf8 : List ℕ → Bool) where
  -- `CheckCloseFrameData`
  unfoldable pub check_close_frame_data : ℕ → List ℕ → ProtocolErr
  check_close_frame_data status reason =
      if is_not_used status
      then not_in_use
      else if is_protocol_reserved status
      then application_level
      else if status == 1004
      then no_meaning
      else if is_protocol_spec status && not (is_protocol_defined status)
      then unknown
      else if not (valid_utf8 reason)
      then invalid_utf8
      else nil

  -- The answer to a close frame with a payload.
  unfoldable pub answer_close : ℕ → List ℕ → ProtocolErr → Option (List ℕ × WsErr)
  answer_close status reason nil = close_frame status reason
  answer_close status reason err = close_frame 1002 (error_text err)

  -- `HandleClose`
  unfoldable pub handle_close : Header → List ℕ → Option (List ℕ × WsErr)
  handle_close h payload =
      if h.len == 0
      then some (
          write_header (record {
            fin = true;
            rsv = 0;
            op_code = op_close;
            masked = false;
            mask = no_mask;
            len = 0;
          }))
      else do
        (status, reason) ← parse_close_frame_data payload
        answer_close status reason (check_close_frame_data status reason)
