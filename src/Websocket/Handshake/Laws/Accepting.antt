-- ===== src/Websocket/Handshake/Laws/Accepting.antt =====
-- `Upgrade` on a whole request, for an `Upgrader` without hooks: which requests it accepts, and what
-- it answers.
use goreactor.Common.{
  ℕ, ◌<◌, Bool, true, false, ◌&&◌, List, [], ◌∷◌, ◌++◌, Option, none, some, ◌≡◌, refl, ap, sym, ◌∙◌,
  arith,
}
use goreactor.Common.{inl, inr, Bool-cases, Option-cases, not, ◌==◌, replicate}
use goreactor.RingBuffer.Defs.{RingBuffer}
use goreactor.RingBuffer.Contents.{contents, IsValid}
use mathlib.Core.Path.{subst}
use goreactor.Websocket.Http.Defs.{equal}
use goreactor.Websocket.Handshake.Errors.{
  HandshakeHeader, HandshakeErr, bad_host, bad_upgrade, bad_connection, bad_sec_version,
  bad_sec_key, header_sec_accept,
}
use goreactor.Websocket.Handshake.Responses.{
  nonce_size, magic, crlf, text_head_upgrade, http_write_header_key, write_accept, write_protocol,
  write_extensions, write_headers, write_second, http_write_response_upgrade,
}
use goreactor.Websocket.Handshake.Headers.{Seen, Progress, has_err, on_hook, take_lines}
use goreactor.Websocket.Handshake.Upgrade.{
  HttpRequestLine, http_parse_request_line, method_get, less_than_one, Upgraded, missing,
  check_request, before_upgrade, check_seen, after_lines, gives_up, rejection_of, respond,
  finish_upgrade, upgrade_headers, upgrade_request, upgrade_lines, upgrade_data, first_progress,
  upgrade,
}
use goreactor.Websocket.Handshake.Laws.Cutting.{
  request, is_line, are_lines, read_request, split_crlf-request,
}
use goreactor.Websocket.Handshake.Laws.Lines.{
  no_hooks, lines_fit, lines_mark, last_nonce, length-last_nonce, take_lines_fit, take_lines_bad,
}

-- GET and a version 1.x, where x, as an int, is 1 or more.
abbrev pub request_fits : Option HttpRequestLine → Bool
request_fits none = false
request_fits (some req) =
    req.major == 1 && not (less_than_one req.minor) && equal req.method method_get

abbrev pub none_seen : Seen
none_seen = record {
  host = false;
  upgrade = false;
  connection = false;
  sec_version = false;
  sec_key = false;
}

abbrev pub all_seen : Seen → Bool
all_seen s = s.host && s.upgrade && s.connection && s.sec_version && s.sec_key

-- What is accepted: the request line, every header line, and that the five headers are there.
unfoldable pub handshake_fits : List ℕ → List (List ℕ) → Bool
handshake_fits line lines =
    request_fits (http_parse_request_line line)
    && lines_fit lines
    && all_seen (lines_mark lines none_seen)

-- The answer: a digest of the last key that the client sent.
unfoldable pub switching_protocols : (List ℕ → List ℕ) → List (List ℕ) → List ℕ
switching_protocols digest lines =
    text_head_upgrade
    ++ (http_write_header_key header_sec_accept
        ++ (digest (last_nonce lines (replicate nonce_size 0) ++ magic) ++ (crlf ++ crlf)))

missing-some : (seen : Seen) → all_seen seen ≡ false → (e : HandshakeErr) × (missing seen ≡ some e)
unfolding missing
missing-some seen h = elim (Bool-cases seen.host) [
  | inr a ↦ (bad_host, ground arith)
  | inl a ↦ elim (Bool-cases seen.upgrade) [
    | inr b ↦ (bad_upgrade, ground arith)
    | inl b ↦ elim (Bool-cases seen.connection) [
      | inr d ↦ (bad_connection, ground arith)
      | inl d ↦ elim (Bool-cases seen.sec_version) [
        | inr f ↦ (bad_sec_version, ground arith)
        | inl f ↦ (bad_sec_key, ground arith)
      ]
    ]
  ]
]

module _ {C E : Type 0} (status_text : ℕ → List ℕ) (digest : List ℕ → List ℕ)
    (write_options : List E → List ℕ)
    (scan_tokens : List ℕ
      → (List ℕ → Option (List ℕ) → Bool × Option (List ℕ))
      → Option (List ℕ)
      → Bool × Option (List ℕ))
    (select : (E → Bool) → List ℕ → List E → List E × Bool) where
  abbrev start : C → Progress C E
  start c = first_progress status_text digest write_options scan_tokens select c

  abbrev requests : C → RingBuffer → List (List ℕ) → Option HttpRequestLine → Option (Upgraded C E)
  requests c s lines req =
      upgrade_request status_text digest write_options scan_tokens select no_hooks s (start c)
        (lines ++ [] ∷ [] ∷ []) req

  abbrev headers : RingBuffer → List (List ℕ) → Progress C E → Option (Upgraded C E)
  headers s lines q =
      upgrade_headers status_text digest write_options scan_tokens select no_hooks s
        (lines ++ [] ∷ [] ∷ []) q q.err

  abbrev finished : RingBuffer → Progress C E → Option (Upgraded C E)
  finished s q =
      finish_upgrade status_text digest write_options no_hooks s (after_lines no_hooks q.err q)

  -- The way to the first line.
  upgrade-request :
      (c : C) (s : RingBuffer) (line : List ℕ) (lines : List (List ℕ)) (rest : List ℕ)
      → IsValid s
      → s.r < s.w
      → is_line line ≡ true
      → are_lines lines ≡ true
      → contents s ≡ request (line ∷ lines) rest
      → (s' : RingBuffer) × (upgrade status_text digest write_options scan_tokens select no_hooks c
            s
          ≡ requests c s' lines (http_parse_request_line line))
        × (contents s' ≡ rest)
        × IsValid s'
  unfolding upgrade upgrade_data upgrade_lines
  upgrade-request c s line lines rest v straight h hs holds =
      let (s', peeks, reads, left, keeps) = read_request s line lines rest v straight h hs holds in
      (
        s',
        rw (peeks, reads, split_crlf-request (line ∷ lines) (ground (arith, h, hs))) refl,
        left,
        keeps,
      )

  check_request_lem :
      (req : HttpRequestLine) (p : Progress C E)
      → request_fits (some req) ≡ true
      → check_request no_hooks req p ≡ p
  unfolding check_request on_hook
  check_request_lem req p h = ground arith

  check_request_bad :
      (req : HttpRequestLine) (p : Progress C E)
      → request_fits (some req) ≡ false
      → has_err (check_request no_hooks req p).err ≡ true
  unfolding check_request on_hook
  check_request_bad req p h = ground arith

  -- The error-free end of the loop.
  abbrev after : C → List (List ℕ) → Progress C E
  after c lines = record (start c) {
    seen = lines_mark lines none_seen;
    nonce = last_nonce lines (replicate nonce_size 0);
  }

  requests_fit :
      (c : C) (s : RingBuffer) (lines : List (List ℕ)) (req : HttpRequestLine)
      → are_lines lines ≡ true
      → request_fits (some req) ≡ true
      → lines_fit lines ≡ true
      → requests c s lines (some req)
        ≡ finish_upgrade status_text digest write_options no_hooks s
            (after_lines no_hooks none (after c lines))
  unfolding upgrade_request upgrade_headers
  requests_fit c s lines req hs fit fits =
      ap (λ q. headers s lines q) (check_request_lem req (start c) fit)
      ∙ ap (finished s) (take_lines_fit scan_tokens select lines (start c) refl refl hs fits)

  -- With the five headers there, the handshake is answered.
  finish_fit :
      (c : C) (s : RingBuffer) (lines : List (List ℕ))
      → lines_fit lines ≡ true
      → all_seen (lines_mark lines none_seen) ≡ true
      → finish_upgrade status_text digest write_options no_hooks s
          (after_lines no_hooks none (after c lines))
        ≡ some (record {
          out = switching_protocols digest lines;
          hs = record { protocol = []; extensions = [] };
          err = none;
          ring = s;
          conn = c;
        })
  unfolding finish_upgrade after_lines check_seen before_upgrade missing respond
      http_write_response_upgrade write_accept write_protocol write_extensions write_headers
      write_second switching_protocols
  finish_fit c s lines fits seen =
      ground (arith, length-last_nonce lines (replicate nonce_size 0) refl fits)

  -- Upgrade without hooks, on a valid buffer, not wrapped, that begins with a whole request: where the request
  -- line is a GET with a version 1.x, x, as an int, being 1 or more, every header line has a colon and a fitting
  -- value, and the five headers are there, in any order, case and number, it returns no error and the response to
  -- switch protocols, with the digest of the last key, and leaves the bytes behind the request in a valid buffer.
  pub upgrade_accepts :
      (c : C) (s : RingBuffer) (line : List ℕ) (lines : List (List ℕ)) (rest : List ℕ)
      → IsValid s
      → s.r < s.w
      → is_line line ≡ true
      → are_lines lines ≡ true
      → contents s ≡ request (line ∷ lines) rest
      → handshake_fits line lines ≡ true
      → (s' : RingBuffer) × (upgrade status_text digest write_options scan_tokens select no_hooks c
            s
          ≡ some (record {
            out = switching_protocols digest lines;
            hs = record { protocol = []; extensions = [] };
            err = none;
            ring = s';
            conn = c;
          }))
        × (contents s' ≡ rest)
        × IsValid s'
  unfolding handshake_fits
  upgrade_accepts c s line lines rest v straight h hs holds fit =
      let (s', gets, left, keeps) = upgrade-request c s line lines rest v straight h hs holds in
      elim (Option-cases (http_parse_request_line line)) [
        | inl e ↦ absurd (ground (arith, e))
        | inr (req, e) ↦
            let fits : lines_fit lines ≡ true = ground (arith, e) in
            (
              s',
              gets
                  ∙ ap (requests c s' lines) e
                  ∙ requests_fit c s' lines req hs (ground (arith, e)) fits
                  ∙ finish_fit c s' lines fits (ground (arith, e)),
              left,
              keeps,
            )
      ]

  -- Every response to an error has that error.
  respond_bad :
      (s : RingBuffer) (second : Option HandshakeHeader) (p : Progress C E) (e : HandshakeErr)
      → (got : Upgraded C E) × (respond status_text digest write_options no_hooks s second p
            (some e)
          ≡ some got)
        × (got.ring ≡ s)
        × (has_err got.err ≡ true)
  unfolding respond rejection_of
  respond_bad s second p e = (_, refl, refl, refl)

  finished_bad :
      (s : RingBuffer) (q : Progress C E)
      → has_err q.err ≡ true
      → (got : Upgraded C E) × (finished s q ≡ some got) × (got.ring ≡ s) × (has_err got.err ≡ true)
  unfolding finish_upgrade after_lines
  finished_bad s q h = elim (Option-cases q.err) [
    | inl e ↦ absurd (ground (arith, e))
    | inr (x, e) ↦
        let (got, returns, ring, bad) = respond_bad s none q x in
        (
          got,
          ap
                (λ o.
                  finish_upgrade status_text digest write_options no_hooks s
                    (after_lines no_hooks o q))
                e
              ∙ ap (respond status_text digest write_options no_hooks s none q) e
              ∙ returns,
          ring,
          bad,
        )
  ]

  headers_bad :
      (s : RingBuffer) (lines : List (List ℕ)) (q : Progress C E)
      → has_err q.err ≡ true
      → (got : Upgraded C E) × (headers s lines q ≡ some got)
        × (got.ring ≡ s)
        × (has_err got.err ≡ true)
  unfolding upgrade_headers gives_up
  headers_bad s lines q h = elim (Option-cases q.err) [
    | inl e ↦ absurd (ground (arith, e))
    | inr (x, e) ↦ (
      _,
      ap
          (upgrade_headers status_text digest write_options scan_tokens select no_hooks s
            (lines ++ [] ∷ [] ∷ []) q)
          e,
      refl,
      refl,
    )
  ]

  missing_bad :
      (c : C) (lines : List (List ℕ))
      → all_seen (lines_mark lines none_seen) ≡ false
      → (e : HandshakeErr) × (after_lines no_hooks none (after c lines)
          ≡ (none, record (after c lines) { err = some e }))
  unfolding after_lines check_seen missing
  missing_bad c lines h =
      let (e, missed) = missing-some (lines_mark lines none_seen) h in
      (e, ap (λ o. check_seen no_hooks o (after c lines)) missed)

  requests_bad :
      (c : C) (s : RingBuffer) (lines : List (List ℕ)) (req : Option HttpRequestLine)
      → are_lines lines ≡ true
      → (request_fits req && lines_fit lines && all_seen (lines_mark lines none_seen)) ≡ false
      → (got : Upgraded C E) × (requests c s lines req ≡ some got)
        × (got.ring ≡ s)
        × (has_err got.err ≡ true)
  unfolding upgrade_request gives_up finish_upgrade upgrade_headers respond
  requests_bad c s lines none hs bad = (_, refl, refl, refl)
  requests_bad c s lines (some req) hs bad = elim (Bool-cases (request_fits (some req))) [
    | inr unfit ↦
        headers_bad s lines (check_request no_hooks req (start c))
          (check_request_bad req (start c) unfit)
    | inl fit ↦ elim (Bool-cases (lines_fit lines)) [
      | inr unfit ↦
          let (got, returns, ring, err) =
            finished_bad s
              (take_lines scan_tokens select no_hooks (lines ++ [] ∷ [] ∷ []) (start c))
              (take_lines_bad scan_tokens select lines (start c) refl refl hs unfit) in
          (
            got,
            ap (λ q. headers s lines q) (check_request_lem req (start c) fit) ∙ returns,
            ring,
            err,
          )
      | inl fits ↦
          let (second, missed) = missing_bad c lines (ground (arith, fit, fits)) in
          let (got, returns, ring, err) =
            respond_bad s none (record (after c lines) { err = some second }) second in
          (
            got,
            requests_fit c s lines req hs fit fits
                ∙ ap (finish_upgrade status_text digest write_options no_hooks s) missed
                ∙ returns,
            ring,
            err,
          )
    ]
  ]

  -- Upgrade without hooks, on a valid buffer, not wrapped, that begins with a whole request: where the request line
  -- or a header line does not fit, or one of the five headers is missing, it takes the request from the buffer and
  -- returns an error; the bytes behind the request stay in a valid buffer.
  pub upgrade_rejects :
      (c : C) (s : RingBuffer) (line : List ℕ) (lines : List (List ℕ)) (rest : List ℕ)
      → IsValid s
      → s.r < s.w
      → is_line line ≡ true
      → are_lines lines ≡ true
      → contents s ≡ request (line ∷ lines) rest
      → handshake_fits line lines ≡ false
      → (got : Upgraded C E) × (upgrade status_text digest write_options scan_tokens select no_hooks
            c s
          ≡ some got)
        × (has_err got.err ≡ true)
        × (contents got.ring ≡ rest)
        × IsValid got.ring
  unfolding handshake_fits
  upgrade_rejects c s line lines rest v straight h hs holds unfit =
      let (s', gets, left, keeps) = upgrade-request c s line lines rest v straight h hs holds in
      let (got, returns, ring, err) =
        requests_bad c s' lines (http_parse_request_line line) hs unfit in
      (got, gets ∙ returns, err, ap contents ring ∙ left, subst IsValid (sym ring) keeps)
