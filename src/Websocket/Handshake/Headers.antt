-- ===== src/Websocket/Handshake/Headers.antt =====
-- plugins/websocket/ws/ws.go: the hooks of an `Upgrader`, and the loop of `Upgrade` over the lines of
-- the headers. `C` is what the hooks see and change of the connection, `E` an extension;
-- `scan_tokens` and `select` are `httphead.ScanTokens` and `OptionSelector.Select`.
use goreactor.Common.{ℕ, Bool, true, false, ◌||◌, List, [], ◌∷◌, Option, none, some}
use goreactor.Common.{◌==◌, if◌then◌else◌, length, overwrite}
use goreactor.Websocket.Replies.Defs.{codes}
use goreactor.Websocket.Http.Defs.{equal, http_parse_header_line}
use goreactor.Websocket.Handshake.Errors.{
  HandshakeHeader, HandshakeErr, bad_upgrade, bad_connection, bad_sec_key, upgrade_required,
  malformed_request,
}
use goreactor.Websocket.Handshake.Responses.{nonce_size}

-- A hook with an argument: it changes the connection and may return an error.
pub record Upgrader (C E : Type 0) : Type 0 where
  pub protocol : Option (List ℕ → Bool)
  pub protocol_custom : Option (C → List ℕ → C × List ℕ × Bool)
  pub extension : Option (E → Bool)
  pub extension_custom : Option (C → List ℕ → List E → C × List E × Bool)
  pub header : Option HandshakeHeader
  pub on_request : Option (C → List ℕ → C × Option HandshakeErr)
  pub on_host : Option (C → List ℕ → C × Option HandshakeErr)
  pub on_header : Option (C → List ℕ → List ℕ → C × Option HandshakeErr)
  pub on_before_upgrade : Option (C → C × Option HandshakeHeader × Option HandshakeErr)

-- `headerSeen`, a flag for each bit.
pub record Seen : Type 0 where
  pub host : Bool
  pub upgrade : Bool
  pub connection : Bool
  pub sec_version : Bool
  pub sec_key : Bool

-- The variables of the loop.
pub record Progress (C E : Type 0) : Type 0 where
  pub conn : C
  pub seen : Seen
  pub nonce : List ℕ
  pub hs_protocol : List ℕ
  pub hs_extensions : List E
  pub err : Option HandshakeErr

-- The canonical names of the headers.
abbrev pub host_canonical : List ℕ
host_canonical = codes "Host"

abbrev pub upgrade_canonical : List ℕ
upgrade_canonical = codes "Upgrade"

abbrev pub connection_canonical : List ℕ
connection_canonical = codes "Connection"

abbrev pub sec_version_canonical : List ℕ
sec_version_canonical = codes "Sec-Websocket-Version"

abbrev pub sec_protocol_canonical : List ℕ
sec_protocol_canonical = codes "Sec-Websocket-Protocol"

abbrev pub sec_extensions_canonical : List ℕ
sec_extensions_canonical = codes "Sec-Websocket-Extensions"

abbrev pub sec_key_canonical : List ℕ
sec_key_canonical = codes "Sec-Websocket-Key"

-- The values that the specification wants.
abbrev pub value_upgrade : List ℕ
value_upgrade = codes "websocket"

abbrev pub value_connection : List ℕ
value_connection = codes "Upgrade"

abbrev pub value_connection_lower : List ℕ
value_connection_lower = codes "upgrade"

abbrev pub value_sec_version : List ℕ
value_sec_version = codes "13"

-- The cases of the `switch` on the key.
pub data Key : Type 0 where
  is_host is_upgrade is_connection is_sec_version is_sec_key is_sec_protocol : Key
  is_sec_extensions is_other : Key

unfoldable pub key_of : List ℕ → Key
key_of k =
    if equal k host_canonical
    then is_host
    else if equal k upgrade_canonical
    then is_upgrade
    else if equal k connection_canonical
    then is_connection
    else if equal k sec_version_canonical
    then is_sec_version
    else if equal k sec_key_canonical
    then is_sec_key
    else if equal k sec_protocol_canonical
    then is_sec_protocol
    else if equal k sec_extensions_canonical
    then is_sec_extensions
    else is_other

module _ {C E : Type 0} where
  abbrev pub with_err : Progress C E → C × Option HandshakeErr → Progress C E
  with_err p (c, e) = record p { conn = c; err = e }

  -- `err = e` where a test fails; the loop is entered with no error.
  abbrev pub err_unless : Bool → HandshakeErr → Progress C E → Progress C E
  err_unless test e p = if test then p else record p { err = some e }

  -- A hook that may be nil.
  unfoldable pub on_hook :
      Option (C → List ℕ → C × Option HandshakeErr) → List ℕ → Progress C E → Progress C E
  on_hook none v p = p
  on_hook (some f) v p = with_err p (f p.conn v)

  unfoldable pub on_other :
      Option (C → List ℕ → List ℕ → C × Option HandshakeErr)
      → List ℕ
      → List ℕ
      → Progress C E
      → Progress C E
  on_other none k v p = p
  on_other (some f) k v p = with_err p (f p.conn k v)

  -- The case of `Sec-WebSocket-Key`.
  unfoldable pub take_key : List ℕ → Progress C E → Progress C E
  take_key v p =
      if length v == nonce_size
      then record p { nonce = overwrite p.nonce v }
      else record p { err = some bad_sec_key }

abbrev pub has_err : Option HandshakeErr → Bool
has_err none = false
has_err (some e) = true

module _ {C E : Type 0}
    (scan_tokens : List ℕ
      → (List ℕ → Option (List ℕ) → Bool × Option (List ℕ))
      → Option (List ℕ)
      → Bool × Option (List ℕ))
    (select : (E → Bool) → List ℕ → List E → List E × Bool) (u : Upgrader C E) where
  -- `btsSelectProtocol`; the variable `selected` goes through the scan.
  unfoldable pub selected_protocol : Bool × Option (List ℕ) → List ℕ × Bool
  selected_protocol (true, some v) = (v, true)
  selected_protocol (ok, v) = ([], ok)

  unfoldable pub bts_select_protocol : List ℕ → (List ℕ → Bool) → List ℕ × Bool
  bts_select_protocol h check =
      selected_protocol
        (scan_tokens h (λ v selected. if check v then (false, some v) else (true, selected)) none)

  -- The case of `Sec-WebSocket-Protocol`, by the two hooks.
  unfoldable pub take_protocol :
      Option (C → List ℕ → C × List ℕ × Bool)
      → Option (List ℕ → Bool)
      → List ℕ
      → Progress C E
      → Progress C E
  take_protocol (some custom) check v p =
      let (c, name, ok) = custom p.conn v in
      err_unless ok malformed_request (record p { conn = c; hs_protocol = name })
  take_protocol none (some check) v p =
      let (name, ok) = bts_select_protocol v check in
      err_unless ok malformed_request (record p { hs_protocol = name })
  take_protocol none none v p = p

  -- The case of `Sec-WebSocket-Extensions`; `btsSelectExtensions` is the call of `Select`.
  unfoldable pub take_extensions :
      Option (C → List ℕ → List E → C × List E × Bool)
      → Option (E → Bool)
      → List ℕ
      → Progress C E
      → Progress C E
  take_extensions (some custom) check v p =
      let (c, es, ok) = custom p.conn v p.hs_extensions in
      err_unless ok malformed_request (record p { conn = c; hs_extensions = es })
  take_extensions none (some check) v p =
      let (es, ok) = select check v p.hs_extensions in
      err_unless ok malformed_request (record p { hs_extensions = es })
  take_extensions none none v p = p

  -- The `switch` on the key.
  unfoldable pub take_header : Key → List ℕ → List ℕ → Progress C E → Progress C E
  take_header is_host k v p =
      on_hook u.on_host v (record p { seen = record p.seen { host = true } })
  take_header is_upgrade k v p =
      err_unless (equal v value_upgrade) bad_upgrade
        (record p { seen = record p.seen { upgrade = true } })
  take_header is_connection k v p =
      err_unless (equal v value_connection || equal v value_connection_lower) bad_connection
        (record p { seen = record p.seen { connection = true } })
  take_header is_sec_version k v p =
      err_unless (equal v value_sec_version) upgrade_required
        (record p { seen = record p.seen { sec_version = true } })
  take_header is_sec_key k v p = take_key v (record p { seen = record p.seen { sec_key = true } })
  take_header is_sec_protocol k v p =
      if length p.hs_protocol == 0 then take_protocol u.protocol_custom u.protocol v p else p
  take_header is_sec_extensions k v p = take_extensions u.extension_custom u.extension v p
  take_header is_other k v p = on_other u.on_header k v p

  -- A round of the loop on a line that is not blank.
  unfoldable pub take_line : Option (List ℕ × List ℕ) → Progress C E → Progress C E
  take_line none p = record p { err = some malformed_request }
  take_line (some (k, v)) p = take_header (key_of k) k v p

  -- The loop, from a line on.
  unfoldable pub take_lines : List (List ℕ) → Progress C E → Progress C E
  take_lines [] p = p
  take_lines (line ∷ lines) p =
      if has_err p.err || length line == 0
      then p
      else take_lines lines (take_line (http_parse_header_line line) p)
