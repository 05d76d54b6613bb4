-- ===== src/Websocket/Handshake/Responses.antt =====
-- plugins/websocket/ws/http.go and ws/nonce.go: the responses of the handshake. A `bufio.Writer` on a
-- buffer in memory is the text that is written; `http.StatusText`, SHA-1 with base64, and
-- `httphead.WriteOptions` are parameters.
use goreactor.Common.{
  ℕ, zero, suc, ◌+◌, ◌/◌, ◌%◌, Bool, true, false, List, [], ◌∷◌, ◌++◌, Option, none, some,
}
use goreactor.Common.{◌==◌, if◌then◌else◌, ◌>>=◌, length}
use goreactor.Websocket.Replies.Defs.{codes}
use goreactor.Websocket.Handshake.Errors.{
  HandshakeHeader, HandshakeErr, bad_protocol, bad_method, bad_host, bad_upgrade, bad_connection,
  bad_sec_accept, bad_sec_key, bad_sec_version, upgrade_required, error_message, header_sec_accept,
  header_sec_protocol, header_sec_extensions,
}

abbrev pub crlf : List ℕ
crlf = 13 ∷ 10 ∷ []

abbrev pub colon_and_space : List ℕ
colon_and_space = codes ": "

-- `strconv.Itoa` of a number that is not negative, with a round for each unit.
unfoldable pub itoa_loop : ℕ → ℕ → List ℕ → List ℕ
itoa_loop zero n digits = digits
itoa_loop (suc fuel) n digits =
    let rest = itoa_loop fuel (n / 10) ((48 + n % 10) ∷ digits) in
    if n / 10 == 0 then (48 + n % 10) ∷ digits else rest

unfoldable pub itoa : ℕ → List ℕ
itoa n = itoa_loop (suc n) n []

-- `textHeadUpgrade`
abbrev pub text_head_upgrade : List ℕ
text_head_upgrade =
    codes "HTTP/1.1 101 Switching Protocols"
    ++ (crlf ++ (codes "Upgrade: websocket" ++ (crlf ++ (codes "Connection: Upgrade" ++ crlf))))

-- `httpWriteHeaderKey`
unfoldable pub http_write_header_key : List ℕ → List ℕ
http_write_header_key key = key ++ colon_and_space

-- `httpWriteHeader`
unfoldable pub http_write_header : List ℕ → List ℕ → List ℕ
http_write_header key value = http_write_header_key key ++ (value ++ crlf)

-- `writeErrorText`; `errorText` gives the same as a string.
unfoldable pub write_error_text : List ℕ → List ℕ
write_error_text body = codes "Content-Length: " ++ (itoa (length body) ++ (crlf ++ (crlf ++ body)))

-- `handshakeHeader.WriteTo` on its two headers: an error ends the loop.
unfoldable pub write_second : Bool → Option HandshakeHeader → List ℕ
write_second true h = []
write_second false none = []
write_second false (some h) = h.text

unfoldable pub write_headers : Option HandshakeHeader → Option HandshakeHeader → List ℕ
write_headers none second = write_second false second
write_headers (some h) second = h.text ++ write_second h.fails second

abbrev pub nonce_size : ℕ
nonce_size = 24

abbrev pub accept_size : ℕ
accept_size = 28

abbrev pub magic : List ℕ
magic = codes "258EAFA5-E914-47DA-95CA-C5AB0DC85B11"

-- `writeAccept` with `initAcceptFromNonce`; `none` is its panic on a nonce of another length.
-- `digest` is SHA-1 with the standard base64 encoding.
unfoldable pub write_accept : (List ℕ → List ℕ) → List ℕ → Option (List ℕ)
write_accept digest nonce =
    if length nonce == nonce_size then some (digest (nonce ++ magic)) else none

-- `Handshake`, for extensions of a type `E`.
pub record Handshake (E : Type 0) : Type 0 where
  pub protocol : List ℕ
  pub extensions : List E

module _ (status_text : ℕ → List ℕ) where
  -- `writeStatusText`; `statusText` gives the same as a string.
  unfoldable pub write_status_text : ℕ → List ℕ
  write_status_text code =
      codes "HTTP/1.1 "
      ++ (itoa code
          ++ (32
              ∷ (status_text code
                  ++ (crlf ++ (codes "Content-Type: text/plain; charset=utf-8" ++ crlf)))))

  -- The `textHead` constants.
  abbrev pub text_head_bad_request : List ℕ
  text_head_bad_request = write_status_text 400

  abbrev pub text_head_internal_server_error : List ℕ
  text_head_internal_server_error = write_status_text 500

  abbrev pub text_head_upgrade_required : List ℕ
  text_head_upgrade_required = write_status_text 426

  -- The first `switch` of `httpWriteResponseError`.
  unfoldable pub response_head : ℕ → List ℕ
  response_head code =
      if code == 400
      then text_head_bad_request
      else if code == 500
      then text_head_internal_server_error
      else if code == 426
      then text_head_upgrade_required
      else write_status_text code

-- The `textTail` constants, and the second `switch` of `httpWriteResponseError`.
unfoldable pub response_tail : Option HandshakeErr → List ℕ
response_tail none = crlf
response_tail (some bad_protocol) = write_error_text (error_message bad_protocol)
response_tail (some bad_method) = write_error_text (error_message bad_method)
response_tail (some bad_host) = write_error_text (error_message bad_host)
response_tail (some bad_upgrade) = write_error_text (error_message bad_upgrade)
response_tail (some bad_connection) = write_error_text (error_message bad_connection)
response_tail (some bad_sec_accept) = write_error_text (error_message bad_sec_accept)
response_tail (some bad_sec_key) = write_error_text (error_message bad_sec_key)
response_tail (some bad_sec_version) = write_error_text (error_message bad_sec_version)
response_tail (some upgrade_required) = write_error_text (error_message upgrade_required)
response_tail (some e) = write_error_text (error_message e)

-- `httpWriteResponseError`
unfoldable pub http_write_response_error : (ℕ → List ℕ) → Option HandshakeErr → ℕ → List ℕ → List ℕ
http_write_response_error status_text err code header =
    response_head status_text code ++ (header ++ response_tail err)

-- `httpWriteResponseUpgrade`; `write_options` is `httphead.WriteOptions`.
unfoldable pub write_protocol : List ℕ → List ℕ
write_protocol [] = []
write_protocol (c ∷ cs) = http_write_header header_sec_protocol (c ∷ cs)

unfoldable pub write_extensions : {E : Type 0} → (List E → List ℕ) → List E → List ℕ
write_extensions write_options [] = []
write_extensions write_options (e ∷ es) =
    http_write_header_key header_sec_extensions ++ (write_options (e ∷ es) ++ crlf)

unfoldable pub http_write_response_upgrade :
    {E : Type 0}
    → (List ℕ → List ℕ)
    → (List E → List ℕ)
    → List ℕ
    → Handshake E
    → List ℕ
    → Option (List ℕ)
http_write_response_upgrade digest write_options nonce hs header = do
  accept ← write_accept digest nonce
  some (
      text_head_upgrade
      ++ (http_write_header_key header_sec_accept
          ++ (accept
              ++ (crlf
                  ++ (write_protocol hs.protocol
                      ++ (write_extensions write_options hs.extensions ++ (header ++ crlf)))))))
