-- ===== src/Websocket/Handshake/Laws/Lines.antt =====
-- Which header lines an `Upgrader` without hooks accepts, and what it takes from them.
use goreactor.Common.{
  ℕ, Bool, true, false, ◌&&◌, ◌||◌, List, [], ◌∷◌, ◌++◌, Option, none, some, ◌≡◌, refl, ap, ◌∙◌,
  arith,
}
use goreactor.Common.{inl, inr, Bool-cases, ◌==◌, length, overwrite_full}
use goreactor.Websocket.Http.Defs.{equal, http_parse_header_line}
use goreactor.Websocket.Handshake.Laws.Cutting.{is_line, are_lines}
use goreactor.Websocket.Handshake.Errors.{}
use goreactor.Websocket.Handshake.Responses.{nonce_size}
use goreactor.Websocket.Handshake.Headers.{
  Upgrader, Seen, Progress, Key, is_host, is_upgrade, is_connection, is_sec_version, is_sec_key,
  is_sec_protocol, is_sec_extensions, is_other, key_of, value_upgrade, value_connection,
  value_connection_lower, value_sec_version, on_hook, on_other, take_key, take_protocol,
  take_extensions, take_header, take_line, take_lines, has_err,
}

-- The value that the specification wants for a header.
abbrev pub fits : Key → List ℕ → Bool
fits is_upgrade v = equal v value_upgrade
fits is_connection v = equal v value_connection || equal v value_connection_lower
fits is_sec_version v = equal v value_sec_version
fits is_sec_key v = length v == nonce_size
fits _ v = true

-- A line that is a header with a fitting value.
abbrev pub line_fits : Option (List ℕ × List ℕ) → Bool
line_fits none = false
line_fits (some (k, v)) = fits (key_of k) v

abbrev pub lines_fit : List (List ℕ) → Bool
lines_fit [] = true
lines_fit (l ∷ ls) = line_fits (http_parse_header_line l) && lines_fit ls

-- The flag of a header among those that were seen.
abbrev pub marks : Key → Seen → Seen
marks is_host s = record s { host = true }
marks is_upgrade s = record s { upgrade = true }
marks is_connection s = record s { connection = true }
marks is_sec_version s = record s { sec_version = true }
marks is_sec_key s = record s { sec_key = true }
marks _ s = s

abbrev pub line_marks : Option (List ℕ × List ℕ) → Seen → Seen
line_marks none s = s
line_marks (some (k, v)) s = marks (key_of k) s

abbrev pub lines_mark : List (List ℕ) → Seen → Seen
lines_mark [] s = s
lines_mark (l ∷ ls) s = lines_mark ls (line_marks (http_parse_header_line l) s)

-- The value of the last `Sec-WebSocket-Key`.
abbrev pub key_nonce : Key → List ℕ → List ℕ → List ℕ
key_nonce is_sec_key v nonce = v
key_nonce _ v nonce = nonce

abbrev pub line_nonce : Option (List ℕ × List ℕ) → List ℕ → List ℕ
line_nonce none nonce = nonce
line_nonce (some (k, v)) nonce = key_nonce (key_of k) v nonce

abbrev pub last_nonce : List (List ℕ) → List ℕ → List ℕ
last_nonce [] nonce = nonce
last_nonce (l ∷ ls) nonce = last_nonce ls (line_nonce (http_parse_header_line l) nonce)

abbrev pub no_hooks : {C E : Type 0} → Upgrader C E
no_hooks = record {
  protocol = none;
  protocol_custom = none;
  extension = none;
  extension_custom = none;
  header = none;
  on_request = none;
  on_host = none;
  on_header = none;
  on_before_upgrade = none;
}

length-key_nonce :
    (key : Key) (v nonce : List ℕ)
    → length nonce ≡ nonce_size
    → fits key v ≡ true
    → length (key_nonce key v nonce) ≡ nonce_size
length-key_nonce is_sec_key v nonce n h = ground arith
length-key_nonce is_host v nonce n h = n
length-key_nonce is_upgrade v nonce n h = n
length-key_nonce is_connection v nonce n h = n
length-key_nonce is_sec_version v nonce n h = n
length-key_nonce is_sec_protocol v nonce n h = n
length-key_nonce is_sec_extensions v nonce n h = n
length-key_nonce is_other v nonce n h = n

length-line_nonce :
    (got : Option (List ℕ × List ℕ)) (nonce : List ℕ)
    → length nonce ≡ nonce_size
    → line_fits got ≡ true
    → length (line_nonce got nonce) ≡ nonce_size
length-line_nonce none nonce n h = n
length-line_nonce (some (k, v)) nonce n h = length-key_nonce (key_of k) v nonce n h

pub length-last_nonce :
    (ls : List (List ℕ)) (nonce : List ℕ)
    → length nonce ≡ nonce_size
    → lines_fit ls ≡ true
    → length (last_nonce ls nonce) ≡ nonce_size
length-last_nonce [] nonce n h = n
length-last_nonce (l ∷ ls) nonce n h =
    length-last_nonce ls (line_nonce (http_parse_header_line l) nonce)
      (length-line_nonce (http_parse_header_line l) nonce n (ground arith)) (ground arith)

module _ {C E : Type 0}
    (scan_tokens : List ℕ
      → (List ℕ → Option (List ℕ) → Bool × Option (List ℕ))
      → Option (List ℕ)
      → Bool × Option (List ℕ))
    (select : (E → Bool) → List ℕ → List E → List E × Bool) where
  abbrev taken_lines : List (List ℕ) → Progress C E → Progress C E
  taken_lines ls p = take_lines scan_tokens select no_hooks ls p

  -- The variables after a line that is accepted.
  abbrev accepted : Key → List ℕ → Progress C E → Progress C E
  accepted key v p = record p { seen = marks key p.seen; nonce = key_nonce key v p.nonce }

  take_header_lem :
      (key : Key) (k v : List ℕ) (p : Progress C E)
      → length p.nonce ≡ nonce_size
      → fits key v ≡ true
      → take_header scan_tokens select no_hooks key k v p ≡ accepted key v p
  unfolding take_header on_hook on_other take_protocol take_extensions take_key
  take_header_lem is_host k v p n h = refl
  take_header_lem is_upgrade k v p n h = ground arith
  take_header_lem is_connection k v p n h = ground arith
  take_header_lem is_sec_version k v p n h = ground arith
  take_header_lem is_sec_key k v p n h = ground (arith, overwrite_full p.nonce v)
  take_header_lem is_sec_protocol k v p n h = ground arith
  take_header_lem is_sec_extensions k v p n h = refl
  take_header_lem is_other k v p n h = refl

  take_header_bad :
      (key : Key) (k v : List ℕ) (p : Progress C E)
      → fits key v ≡ false
      → has_err (take_header scan_tokens select no_hooks key k v p).err ≡ true
  unfolding take_header take_key
  take_header_bad is_host k v p h = cc
  take_header_bad is_upgrade k v p h = ground arith
  take_header_bad is_connection k v p h = ground arith
  take_header_bad is_sec_version k v p h = ground arith
  take_header_bad is_sec_key k v p h = ground arith
  take_header_bad is_sec_protocol k v p h = cc
  take_header_bad is_sec_extensions k v p h = cc
  take_header_bad is_other k v p h = cc

  take_line_lem :
      (got : Option (List ℕ × List ℕ)) (p : Progress C E)
      → length p.nonce ≡ nonce_size
      → line_fits got ≡ true
      → take_line scan_tokens select no_hooks got p
        ≡ record p { seen = line_marks got p.seen; nonce = line_nonce got p.nonce }
  unfolding take_line
  take_line_lem none p n h = cc
  take_line_lem (some (k, v)) p n h = take_header_lem (key_of k) k v p n h

  take_line_bad :
      (got : Option (List ℕ × List ℕ)) (p : Progress C E)
      → line_fits got ≡ false
      → has_err (take_line scan_tokens select no_hooks got p).err ≡ true
  unfolding take_line
  take_line_bad none p h = refl
  take_line_bad (some (k, v)) p h = take_header_bad (key_of k) k v p h

  take_lines-step :
      (l : List ℕ) (ls : List (List ℕ)) (p : Progress C E)
      → p.err ≡ none
      → is_line l ≡ true
      → taken_lines (l ∷ ls) p
        ≡ taken_lines ls (take_line scan_tokens select no_hooks (http_parse_header_line l) p)
  unfolding take_lines
  take_lines-step l ls p e h = ground arith

  take_lines-stop :
      (ls : List (List ℕ)) (p : Progress C E) → has_err p.err ≡ true → taken_lines ls p ≡ p
  unfolding take_lines
  take_lines-stop [] p e = refl
  take_lines-stop (l ∷ ls) p e = ground arith

  -- The loop over lines that fit, up to the blank line.
  pub take_lines_fit :
      (ls : List (List ℕ)) (p : Progress C E)
      → p.err ≡ none
      → length p.nonce ≡ nonce_size
      → are_lines ls ≡ true
      → lines_fit ls ≡ true
      → taken_lines (ls ++ [] ∷ [] ∷ []) p
        ≡ record p { seen = lines_mark ls p.seen; nonce = last_nonce ls p.nonce }
  unfolding take_lines
  take_lines_fit [] p e n h g = ground arith
  take_lines_fit (l ∷ ls) p e n h g =
      let q : Progress C E = record p {
        seen = line_marks (http_parse_header_line l) p.seen;
        nonce = line_nonce (http_parse_header_line l) p.nonce;
      } in
      let step = take_line_lem (http_parse_header_line l) p n (ground arith) in
      take_lines-step l (ls ++ [] ∷ [] ∷ []) p e (ground arith)
      ∙ ap (taken_lines (ls ++ [] ∷ [] ∷ [])) step
      ∙ take_lines_fit ls q e
          (length-line_nonce (http_parse_header_line l) p.nonce n (ground arith)) (ground arith)
          (ground arith)

  -- A line that does not fit ends it with an error.
  pub take_lines_bad :
      (ls : List (List ℕ)) (p : Progress C E)
      → p.err ≡ none
      → length p.nonce ≡ nonce_size
      → are_lines ls ≡ true
      → lines_fit ls ≡ false
      → has_err (taken_lines (ls ++ [] ∷ [] ∷ []) p).err ≡ true
  unfolding take_lines
  take_lines_bad [] p e n h g = cc
  take_lines_bad (l ∷ ls) p e n h g =
      let rest = ls ++ [] ∷ [] ∷ [] in
      let got = http_parse_header_line l in
      let step = take_lines-step l rest p e (ground arith) in
      elim (Bool-cases (line_fits got)) [
        | inl fit ↦
            let q : Progress C E = record p {
              seen = line_marks got p.seen;
              nonce = line_nonce got p.nonce;
            } in
            ap (λ r. has_err r.err) (step ∙ ap (taken_lines rest) (take_line_lem got p n fit))
            ∙ take_lines_bad ls q e (length-line_nonce got p.nonce n fit) (ground arith)
                (ground arith)
        | inr bad ↦
            let stopped = take_line_bad got p bad in
            ap (λ r. has_err r.err) (step ∙ take_lines-stop rest _ stopped) ∙ stopped
      ]
