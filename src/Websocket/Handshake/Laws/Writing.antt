-- ===== src/Websocket/Handshake/Laws/Writing.antt =====
-- The responses that reject a handshake.
use goreactor.Common.{ℕ, List, ◌++◌, some, ◌≡◌, refl, arith}
use goreactor.Websocket.Handshake.Errors.{
  HandshakeErr, bad_protocol, bad_method, bad_host, bad_upgrade, bad_connection, bad_sec_accept,
  bad_sec_key, bad_sec_version, malformed_request, upgrade_required, rejected, plain, error_message,
}
use goreactor.Websocket.Handshake.Responses.{
  write_status_text, write_error_text, response_head, response_tail, http_write_response_error,
}

response_head_lem :
    (status_text : ℕ → List ℕ) (code : ℕ)
    → response_head status_text code ≡ write_status_text status_text code
unfolding response_head
response_head_lem status_text code = ground arith

response_tail_lem : (e : HandshakeErr) → response_tail (some e) ≡ write_error_text (error_message e)
unfolding response_tail
response_tail_lem bad_protocol = refl
response_tail_lem bad_method = refl
response_tail_lem bad_host = refl
response_tail_lem bad_upgrade = refl
response_tail_lem bad_connection = refl
response_tail_lem bad_sec_accept = refl
response_tail_lem bad_sec_key = refl
response_tail_lem bad_sec_version = refl
response_tail_lem malformed_request = refl
response_tail_lem upgrade_required = refl
response_tail_lem (rejected r) = refl
response_tail_lem (plain t) = refl

-- The texts made beforehand for some statuses and errors make no difference: the response to an error is the
-- status line and content type of the code, the custom headers, and the length of the error's text with the text.
pub http_write_response_error_lem :
    (status_text : ℕ → List ℕ) (e : HandshakeErr) (code : ℕ) (header : List ℕ)
    → http_write_response_error status_text (some e) code header
      ≡ write_status_text status_text code ++ (header ++ write_error_text (error_message e))
unfolding http_write_response_error
http_write_response_error_lem status_text e code header =
    rw (response_head_lem status_text code, response_tail_lem e) refl
