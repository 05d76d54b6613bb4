-- ===== src/Examples/Handshake.antt =====
-- The theorems about the handshake, and about its numbers, at small inputs.
use goreactor.Common.{
  ℕ, ◌%◌, ◌^◌, Bool, true, false, List, [], ◌∷◌, ◌++◌, Option, some, none, ◌≡◌, refl, arith,
  if◌then◌else◌, take,
}
use goreactor.RingBuffer.Defs.{RingBuffer}
use goreactor.RingBuffer.Contents.{contents, IsValid}
use goreactor.Websocket.Handshake.Laws.Cutting.{request}
use goreactor.Websocket.Handshake.Laws.Accepting.{
  handshake_fits, switching_protocols, upgrade_accepts, upgrade_rejects,
}
use goreactor.Websocket.Handshake.Laws.Lines.{no_hooks}
use goreactor.Websocket.Handshake.Laws.Writing.{http_write_response_error_lem}
use goreactor.Websocket.Handshake.Errors.{bad_host, error_message}
use goreactor.Websocket.Handshake.Responses.{
  http_write_response_error, write_status_text, write_error_text, itoa,
}
use goreactor.Websocket.Http.Numbers.{decimal, has_digits, ascii_to_int_lem, ascii_to_int-itoa}
use goreactor.Websocket.Protocol.Defs.{fatal, handshake}
use goreactor.Websocket.Protocol.Upgrading.{
  Plugin, unpack, unpack-accepted, unpack-refused, unpack-unfinished,
}
use goreactor.Websocket.Replies.Defs.{codes}
use goreactor.RingBuffer.Defs.{ring_length}
use goreactor.RingBuffer.Contents.{window}
use goreactor.Websocket.Http.Defs.{
  bsplit3, after_index, split_at, index_byte, http_parse_version, equal, http_parse_numbers,
  ascii_to_int, ascii_loop, pow, pow_loop, http_parse_header_line, btrim, trim_left, trim_right,
  is_blank, canonicalize_header_key, canonical_loop, canonical_byte,
}
use goreactor.Websocket.Handshake.Headers.{key_of, has_err}
use goreactor.Websocket.Handshake.Upgrade.{
  Upgraded, upgrade, index_of, has_prefix, crlf_crlf, http_parse_request_line,
}

abbrev get_line : List ℕ
get_line = codes "GET / HTTP/1.1"

abbrev header_lines : List (List ℕ)
header_lines =
    codes "host: x"
    ∷ codes "Upgrade: websocket"
    ∷ codes "connection:upgrade"
    ∷ codes "Sec-WebSocket-Version: 13"
    ∷ codes "sec-websocket-key: 0123456789abcdef01234567"
    ∷ []

abbrev arrived : RingBuffer
arrived = record {
  buf = request (get_line ∷ header_lines) (1 ∷ 2 ∷ 0 ∷ []);
  size = 142;
  vr = 0;
  r = 0;
  w = 141;
  is_empty = false;
}

arrived-IsValid : IsValid arrived
arrived-IsValid = ground arith

arrived_fits : handshake_fits get_line header_lines ≡ true
unfolding handshake_fits http_parse_request_line bsplit3 after_index split_at index_byte
    http_parse_version equal http_parse_numbers ascii_to_int ascii_loop pow pow_loop
    http_parse_header_line btrim trim_left trim_right is_blank canonicalize_header_key
    canonical_loop canonical_byte key_of
arrived_fits = refl

arrived_holds : contents arrived ≡ request (get_line ∷ header_lines) (1 ∷ 2 ∷ [])
unfolding contents window ring_length
arrived_holds = refl

-- The same without its last header line.
abbrev keyless : RingBuffer
keyless = record {
  buf = request (get_line ∷ codes "Host: x" ∷ []) (1 ∷ 0 ∷ []);
  size = 29;
  vr = 0;
  r = 0;
  w = 28;
  is_empty = false;
}

keyless-IsValid : IsValid keyless
keyless-IsValid = ground arith

keyless_unfit : handshake_fits get_line (codes "Host: x" ∷ []) ≡ false
unfolding handshake_fits http_parse_request_line bsplit3 after_index split_at index_byte
    http_parse_version equal http_parse_numbers ascii_to_int ascii_loop pow pow_loop
    http_parse_header_line btrim trim_left trim_right is_blank canonicalize_header_key
    canonical_loop canonical_byte key_of
keyless_unfit = refl

keyless_holds : contents keyless ≡ request (get_line ∷ codes "Host: x" ∷ []) (1 ∷ [])
unfolding contents window ring_length
keyless_holds = refl

-- What the hooks would see.
abbrev visitor : ℕ
visitor = 5

-- Small functions in place of `http.StatusText`, the digest of a key, and the calls of httphead.
abbrev status : ℕ → List ℕ
status code = codes "Bad"

abbrev digested : List ℕ → List ℕ
digested key = take 28 key

abbrev options : List ℕ → List ℕ
options es = es

abbrev one_token :
    List ℕ
    → (List ℕ → Option (List ℕ) → Bool × Option (List ℕ))
    → Option (List ℕ)
    → Bool × Option (List ℕ)
one_token h f selected = f h selected

abbrev no_options : (ℕ → Bool) → List ℕ → List ℕ → List ℕ × Bool
no_options check h es = (es, true)

upgrade_accepts_example :
    (s' : RingBuffer) × (upgrade status digested options one_token no_options no_hooks visitor
        arrived
      ≡ some (record {
        out = switching_protocols digested header_lines;
        hs = record { protocol = []; extensions = [] };
        err = none;
        ring = s';
        conn = visitor;
      }))
    × (contents s' ≡ 1 ∷ 2 ∷ [])
    × IsValid s'
upgrade_accepts_example =
    upgrade_accepts status digested options one_token no_options visitor arrived get_line
      header_lines (1 ∷ 2 ∷ []) arrived-IsValid (omega arith) refl refl arrived_holds arrived_fits

upgrade_rejects_example :
    (got : Upgraded ℕ ℕ) × (upgrade status digested options one_token no_options no_hooks visitor
        keyless
      ≡ some got)
    × (has_err got.err ≡ true)
    × (contents got.ring ≡ 1 ∷ [])
    × IsValid got.ring
upgrade_rejects_example =
    upgrade_rejects status digested options one_token no_options visitor keyless get_line
      (codes "Host: x" ∷ []) (1 ∷ []) keyless-IsValid (omega arith) refl refl keyless_holds
      keyless_unfit

http_write_response_error_lem_example :
    http_write_response_error status (some bad_host) 400 (1 ∷ [])
    ≡ write_status_text status 400 ++ ((1 ∷ []) ++ write_error_text (error_message bad_host))
http_write_response_error_lem_example = http_write_response_error_lem status bad_host 400 (1 ∷ [])

unpack-accepted_example :
    (s' : RingBuffer) × (unpack status digested options one_token no_options no_hooks
        (0 ∷ [])
        false
        []
        visitor
        arrived
      ≡ some (record {
        outcome = handshake (switching_protocols digested header_lines);
        ring = s';
        upgraded = true;
        scratch = 0 ∷ [];
        conn = visitor;
      }))
    × (contents s' ≡ 1 ∷ 2 ∷ [])
    × IsValid s'
unpack-accepted_example =
    unpack-accepted status digested options one_token no_options (0 ∷ []) [] visitor arrived
      get_line header_lines (1 ∷ 2 ∷ []) arrived-IsValid (omega arith) refl refl arrived_holds
      arrived_fits

unpack-refused_example :
    (got : Plugin ℕ) × (unpack status digested options one_token no_options no_hooks
        (0 ∷ [])
        false
        []
        visitor
        keyless
      ≡ some got)
    × (got.outcome ≡ fatal)
unpack-refused_example =
    unpack-refused status digested options one_token no_options (0 ∷ []) [] visitor keyless get_line
      (codes "Host: x" ∷ []) (1 ∷ []) keyless-IsValid (omega arith) refl refl keyless_holds
      keyless_unfit

-- The blank line has not arrived.
abbrev early : RingBuffer
early = record {
  buf = 71 ∷ 69 ∷ 13 ∷ 10 ∷ 0 ∷ [];
  size = 5;
  vr = 0;
  r = 0;
  w = 4;
  is_empty = false;
}

early-IsValid : IsValid early
early-IsValid = ground arith

early_lacks : index_of (contents early) crlf_crlf ≡ none
unfolding contents window ring_length index_of has_prefix
early_lacks = refl

unpack-unfinished_example :
    unpack status digested options one_token no_options no_hooks (0 ∷ []) false [] visitor early
    ≡ some
        (record { outcome = fatal; ring = early; upgraded = false; scratch = []; conn = visitor })
unpack-unfinished_example =
    unpack-unfinished status digested options one_token no_options no_hooks (0 ∷ []) [] visitor
      early early-IsValid early_lacks

ascii_to_int_lem_example :
    ascii_to_int (49 ∷ 51 ∷ [])
    ≡ (if has_digits (49 ∷ 51 ∷ []) then some (decimal 0 (49 ∷ 51 ∷ []) % 2 ^ 64) else none)
ascii_to_int_lem_example = ascii_to_int_lem 49 (51 ∷ [])

ascii_to_int-itoa_example : ascii_to_int (itoa 426) ≡ some 426
ascii_to_int-itoa_example = ascii_to_int-itoa 426 (omega arith)
