-- ===== src/Websocket/Handshake/Upgrade.antt =====
-- plugins/websocket/ws/ws.go: `Upgrade`.
use goreactor.Common.{
  ℕ, suc, ◌+◌, Bool, true, false, not, ◌&&◌, ◌||◌, List, [], ◌∷◌, Option, none, some,
}
use goreactor.Common.{◌==◌, ◌^◌, leb, ltb, if◌then◌else◌, ◌>>=◌, length, replicate}
use goreactor.RingBuffer.Defs.{RingBuffer, Err, nil, err_is_empty, read}
use goreactor.RingBuffer.Access.{peek_all}
use goreactor.Websocket.Replies.Defs.{codes}
use goreactor.Websocket.Http.Defs.{equal, bsplit3, http_parse_version}
use goreactor.Websocket.Handshake.Errors.{
  HandshakeHeader, Rejection, HandshakeErr, bad_protocol, bad_method, bad_host, bad_upgrade,
  bad_connection, bad_sec_key, bad_sec_version, malformed_request, plain, as_rejection,
}
use goreactor.Websocket.Handshake.Responses.{
  Handshake, nonce_size, write_headers, http_write_response_error, http_write_response_upgrade,
}
use goreactor.Websocket.Handshake.Headers.{Upgrader, Seen, Progress, on_hook, take_lines}

-- A slice begins with another.
unfoldable pub has_prefix : List ℕ → List ℕ → Bool
has_prefix xs [] = true
has_prefix [] (s ∷ sep) = false
has_prefix (x ∷ xs) (s ∷ sep) = x == s && has_prefix xs sep

-- `bytes.Index` of a slice that is not empty; -1 is `none`.
unfoldable pub index_of : List ℕ → List ℕ → Option ℕ
index_of [] sep = none
index_of (x ∷ xs) sep =
    if has_prefix (x ∷ xs) sep then some 0 else index_of xs sep >>= λ i. some (suc i)

-- `bytes.Split` at "\r\n"; a byte that starts no separator belongs to the line that follows.
unfoldable pub cons_line : ℕ → List (List ℕ) → List (List ℕ)
cons_line c [] = (c ∷ []) ∷ []
cons_line c (line ∷ lines) = (c ∷ line) ∷ lines

unfoldable pub split_crlf : List ℕ → List (List ℕ)
split_crlf [] = [] ∷ []
split_crlf (c ∷ []) = (c ∷ []) ∷ []
split_crlf (c ∷ d ∷ rest) =
    if c == 13 && d == 10 then [] ∷ split_crlf rest else cons_line c (split_crlf (d ∷ rest))

-- The blank line with the line end before it.
abbrev pub crlf_crlf : List ℕ
crlf_crlf = 13 ∷ 10 ∷ 13 ∷ 10 ∷ []

-- `httpRequestLine`
pub record HttpRequestLine : Type 0 where
  pub method : List ℕ
  pub uri : List ℕ
  pub major : ℕ
  pub minor : ℕ

-- `httpParseRequestLine`; `none` is `ErrMalformedRequest`.
unfoldable pub http_parse_request_line : List ℕ → Option HttpRequestLine
http_parse_request_line line = do
  let (method, uri, proto) = bsplit3 line 32
  (major, minor) ← http_parse_version proto
  some (record { method = method; uri = uri; major = major; minor = minor })

-- "GET"
abbrev pub method_get : List ℕ
method_get = codes "GET"

-- What `Upgrade` returns, with the buffer and the connection as they are then.
pub record Upgraded (C E : Type 0) : Type 0 where
  pub out : List ℕ
  pub hs : Handshake E
  pub err : Option HandshakeErr
  pub ring : RingBuffer
  pub conn : C

-- The end of the headers in the first of the two slices, or else in the second.
unfoldable pub header_end : List ℕ → List ℕ → Option ℕ
header_end first end = elim (index_of first crlf_crlf) [
  | some i ↦ some i
  | none ↦ if ltb 0 (length end) then index_of end crlf_crlf else none
]

-- `data`, which is nil where there is no end, and the error of `Read`.
unfoldable pub read_data : Option ℕ → RingBuffer → Option (List ℕ × Err × RingBuffer)
read_data none s = some ([], nil, s)
read_data (some i) s = read s (replicate (i + 4) 0) >>= λ out. some (out.p, out.err, out.ring)

-- The error where a header was not seen.
unfoldable pub missing : Seen → Option HandshakeErr
missing seen =
    if not seen.host
    then some bad_host
    else if not seen.upgrade
    then some bad_upgrade
    else if not seen.connection
    then some bad_connection
    else if not seen.sec_version
    then some bad_sec_version
    else if not seen.sec_key
    then some bad_sec_key
    else none

-- The status and the second header of a rejection; another error has the second header as it is.
unfoldable pub rejection_of : Option Rejection → Option HandshakeHeader → ℕ × Option HandshakeHeader
rejection_of none h = (500, h)
rejection_of (some r) h = (if r.code == 0 then 500 else r.code, r.header)

-- `n < 1` for an `int`, which is kept modulo 2 ^ 64 and is negative from 2 ^ 63 on.
abbrev pub less_than_one : ℕ → Bool
less_than_one n = n == 0 || leb (2 ^ 63) n

module _ {C E : Type 0} where
  -- A return with no response.
  unfoldable pub gives_up : HandshakeErr → RingBuffer → Progress C E → Upgraded C E
  gives_up e s p = record {
    out = [];
    hs = record { protocol = p.hs_protocol; extensions = p.hs_extensions };
    err = some e;
    ring = s;
    conn = p.conn;
  }

  -- The checks of the request line, and `OnRequest`.
  unfoldable pub check_request : Upgrader C E → HttpRequestLine → Progress C E → Progress C E
  check_request u req p =
      if not (req.major == 1) || less_than_one req.minor
      then record p { err = some bad_protocol }
      else if not (equal req.method method_get)
      then record p { err = some bad_method }
      else on_hook u.on_request req.uri p

  -- Between the loop and the response: the headers that are missing, or else `OnBeforeUpgrade`, which
  -- gives the second header.
  unfoldable pub before_upgrade :
      Option (C → C × Option HandshakeHeader × Option HandshakeErr)
      → Progress C E
      → Option HandshakeHeader × Progress C E
  before_upgrade none p = (none, p)
  before_upgrade (some f) p = let (c, h, e) = f p.conn in (h, record p { conn = c; err = e })

  unfoldable pub check_seen :
      Upgrader C E → Option HandshakeErr → Progress C E → Option HandshakeHeader × Progress C E
  check_seen u (some e) p = (none, record p { err = some e })
  check_seen u none p = before_upgrade u.on_before_upgrade p

  unfoldable pub after_lines :
      Upgrader C E → Option HandshakeErr → Progress C E → Option HandshakeHeader × Progress C E
  after_lines u (some e) p = (none, p)
  after_lines u none p = check_seen u (missing p.seen) p

module _ {C E : Type 0} (status_text : ℕ → List ℕ) (digest : List ℕ → List ℕ)
    (write_options : List E → List ℕ) where
  -- The response.
  unfoldable pub respond :
      Upgrader C E
      → RingBuffer
      → Option HandshakeHeader
      → Progress C E
      → Option HandshakeErr
      → Option (Upgraded C E)
  respond u s second p (some e) =
      let (code, h) = rejection_of (as_rejection e) second in
      some (record {
        out = http_write_response_error status_text (some e) code (write_headers u.header h);
        hs = record { protocol = p.hs_protocol; extensions = p.hs_extensions };
        err = some e;
        ring = s;
        conn = p.conn;
      })
  respond u s second p none = do
    let hs : Handshake E = record { protocol = p.hs_protocol; extensions = p.hs_extensions }
    out ←
        http_write_response_upgrade digest write_options p.nonce hs (write_headers u.header second)
    some (record { out = out; hs = hs; err = none; ring = s; conn = p.conn })

  -- `Upgrade` from the loop on.
  unfoldable pub finish_upgrade :
      Upgrader C E → RingBuffer → Option HandshakeHeader × Progress C E → Option (Upgraded C E)
  finish_upgrade u s (second, p) = respond u s second p p.err

  module _
      (scan_tokens : List ℕ
        → (List ℕ → Option (List ℕ) → Bool × Option (List ℕ))
        → Option (List ℕ)
        → Bool × Option (List ℕ))
      (select : (E → Bool) → List ℕ → List E → List E × Bool) where
    unfoldable pub upgrade_headers :
        Upgrader C E
        → RingBuffer
        → List (List ℕ)
        → Progress C E
        → Option HandshakeErr
        → Option (Upgraded C E)
    upgrade_headers u s lines p (some e) = some (gives_up e s p)
    upgrade_headers u s lines p none =
        let q = take_lines scan_tokens select u lines p in
        finish_upgrade u s (after_lines u q.err q)

    -- `Upgrade` from the first line on.
    unfoldable pub upgrade_request :
        Upgrader C E
        → RingBuffer
        → Progress C E
        → List (List ℕ)
        → Option HttpRequestLine
        → Option (Upgraded C E)
    upgrade_request u s p lines none = some (gives_up malformed_request s p)
    upgrade_request u s p lines (some req) =
        let q = check_request u req p in upgrade_headers u s lines q q.err

    unfoldable pub upgrade_lines :
        Upgrader C E → RingBuffer → Progress C E → List (List ℕ) → Option (Upgraded C E)
    upgrade_lines u s p [] = some (gives_up (plain (codes "len(lines) = 0")) s p)
    upgrade_lines u s p (line ∷ lines) = upgrade_request u s p lines (http_parse_request_line line)

    unfoldable pub upgrade_data :
        Upgrader C E → Progress C E → List ℕ × Err × RingBuffer → Option (Upgraded C E)
    upgrade_data u p (bytes, err_is_empty, s) =
        some (gives_up (plain (codes "ring buffer is empty")) s p)
    upgrade_data u p (bytes, nil, s) = upgrade_lines u s p (split_crlf bytes)

    abbrev pub first_progress : C → Progress C E
    first_progress c = record {
      conn = c;
      seen = record {
        host = false;
        upgrade = false;
        connection = false;
        sec_version = false;
        sec_key = false;
      };
      nonce = replicate nonce_size 0;
      hs_protocol = [];
      hs_extensions = [];
      err = none;
    }

    -- `Upgrade`
    unfoldable pub upgrade : Upgrader C E → C → RingBuffer → Option (Upgraded C E)
    upgrade u c s = do
      (first, end) ← peek_all s
      got ← read_data (header_end first end) s
      upgrade_data u (first_progress c) got
