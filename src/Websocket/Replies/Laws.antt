-- ===== src/Websocket/Replies/Laws.antt =====
-- What the answers are.
use goreactor.Common.{
  ℕ, ◌<◌, ◌^◌, Bool, true, false, ◌&&◌, ◌||◌, List, ◌++◌, some, ◌≡◌, ◌≢◌, ◌↔◌, arith,
}
use goreactor.Common.{leb, if◌then◌else◌, take}
use goreactor.Websocket.Frame.Codes.{
  is_not_used, is_protocol_reserved, is_protocol_spec, is_protocol_defined,
}
use goreactor.Websocket.Frame.Defs.{
  Header, be_bytes, frame_to_bytes, new_close_frame, parse_close_frame_data,
}
use goreactor.Websocket.Frame.Close.{new_close_frame_body_lem}
use goreactor.Websocket.Replies.Defs.{
  ProtocolErr, check_close_frame_data, answer_close, handle_close, close_frame, error_text,
}

abbrev pub accepts : ProtocolErr → Bool
accepts ProtocolErr.nil = true
accepts _ = false

close_frame_lem :
    (status : ℕ) (reason : List ℕ)
    → close_frame status reason
      ≡ some (frame_to_bytes (new_close_frame (be_bytes 2 status ++ take 123 reason)))
close_frame_lem status reason = rw ((new_close_frame_body_lem status reason).0)

module _ (valid_utf8 : List ℕ → Bool) where
  answer_close_lem :
      (status : ℕ) (reason : List ℕ) (e : ProtocolErr)
      → answer_close valid_utf8 status reason e
        ≡ some (
            frame_to_bytes (
              new_close_frame (
                if accepts e
                then be_bytes 2 status ++ take 123 reason
                else be_bytes 2 1002 ++ take 123 (error_text e))))
  unfolding answer_close
  answer_close_lem status reason ProtocolErr.nil = close_frame_lem status reason
  answer_close_lem status reason e = close_frame_lem 1002 (error_text e)

  -- `CheckCloseFrameData` accepts exactly the codes that an endpoint may send, with a reason in
  -- UTF-8: 1000 to 1003, 1007 to 1011, and every code from 3000 on.
  pub check_accepts :
      (status : ℕ) (reason : List ℕ)
      → (check_close_frame_data valid_utf8 status reason ≡ ProtocolErr.nil) ↔ (
          (valid_utf8 reason
            && ((leb 1000 status && leb status 1003)
                || (leb 1007 status && leb status 1011)
                || leb 3000 status))
          ≡ true)
  unfolding check_close_frame_data is_not_used is_protocol_reserved is_protocol_spec
      is_protocol_defined
  check_accepts status reason = ground arith

  -- The answer to a close frame that has a payload of two bytes or more: if the code and the reason
  -- are accepted they come back, the reason cut to 123 bytes; if not, the answer is a close frame
  -- with the code 1002 and the error's text. In neither case does anything panic.
  pub handle_close_lem :
      (h : Header) (status : ℕ) (reason : List ℕ)
      → h.len ≢ 0
      → status < 2 ^ 16
      → handle_close valid_utf8 h (be_bytes 2 status ++ reason)
        ≡ some (
            frame_to_bytes (
              new_close_frame (
                if accepts (check_close_frame_data valid_utf8 status reason)
                then be_bytes 2 status ++ take 123 reason
                else be_bytes 2 1002
                  ++ take 123 (error_text (check_close_frame_data valid_utf8 status reason)))))
  handle_close_lem h status reason some_len small =
      unfold handle_close in
      ground (
        arith,
        parsed status reason small,
        answer_close_lem status reason (check_close_frame_data valid_utf8 status reason),
      )
    where
      parsed :
          (c : ℕ) (r : List ℕ)
          → c < 2 ^ 16
          → parse_close_frame_data (be_bytes 2 c ++ r) ≡ some (c, r)
      parsed c r k = unfold parse_close_frame_data in ground arith
