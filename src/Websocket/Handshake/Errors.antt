-- ===== src/Websocket/Handshake/Errors.antt =====
-- plugins/websocket/ws/errors.go: the errors of the handshake. A text is the list of its bytes.
use goreactor.Common.{ℕ, Bool, false, List, [], ◌∷◌, ◌++◌, Option, none, some}
use goreactor.Websocket.Replies.Defs.{codes}

-- `HandshakeHeader`: what `WriteTo` writes into a writer in memory, and whether it fails then.
pub record HandshakeHeader : Type 0 where
  pub text : List ℕ
  pub fails : Bool

-- `HandshakeHeaderString` and `HandshakeHeaderBytes`, which write themselves.
unfoldable pub header_text : List ℕ → HandshakeHeader
header_text s = record { text = s; fails = false }

-- `rejectConnectionError`
pub record Rejection : Type 0 where
  pub reason : List ℕ
  pub code : ℕ
  pub header : Option HandshakeHeader

-- `RejectOption`: `RejectionReason`, `RejectionStatus` and `RejectionHeader` with their arguments.
pub data RejectOption : Type 0 where
  rejection_reason : List ℕ → RejectOption
  rejection_status : ℕ → RejectOption
  rejection_header : Option HandshakeHeader → RejectOption

unfoldable pub apply_option : RejectOption → Rejection → Rejection
apply_option (rejection_reason r) err = record err { reason = r }
apply_option (rejection_status c) err = record err { code = c }
apply_option (rejection_header h) err = record err { header = h }

unfoldable pub apply_options : List RejectOption → Rejection → Rejection
apply_options [] err = err
apply_options (o ∷ options) err = apply_options options (apply_option o err)

-- `RejectConnectionError`
unfoldable pub reject_connection_error : List RejectOption → Rejection
reject_connection_error options =
    apply_options options (record { reason = []; code = 0; header = none })

-- The errors that `Upgrade` returns: those of errors.go, which are compared by identity, those that
-- a hook makes by `RejectConnectionError`, and errors of any other type, by their texts.
pub data HandshakeErr : Type 0 where
  bad_protocol bad_method bad_host bad_upgrade bad_connection : HandshakeErr
  bad_sec_accept bad_sec_key bad_sec_version : HandshakeErr
  malformed_request upgrade_required : HandshakeErr
  rejected : Rejection → HandshakeErr
  plain : List ℕ → HandshakeErr

-- The header names of http.go.
abbrev pub header_host : List ℕ
header_host = codes "Host"

abbrev pub header_upgrade : List ℕ
header_upgrade = codes "Upgrade"

abbrev pub header_connection : List ℕ
header_connection = codes "Connection"

abbrev pub header_sec_version : List ℕ
header_sec_version = codes "Sec-WebSocket-Version"

abbrev pub header_sec_protocol : List ℕ
header_sec_protocol = codes "Sec-WebSocket-Protocol"

abbrev pub header_sec_extensions : List ℕ
header_sec_extensions = codes "Sec-WebSocket-Extensions"

abbrev pub header_sec_key : List ℕ
header_sec_key = codes "Sec-WebSocket-Key"

abbrev pub header_sec_accept : List ℕ
header_sec_accept = codes "Sec-WebSocket-Accept"

-- `fmt.Sprintf("handshake error: bad %q header", name)`
unfoldable pub bad_header : List ℕ → List ℕ
bad_header name = codes "handshake error: bad " ++ (b'"' ∷ (name ++ (b'"' ∷ codes " header")))

-- The argument of `RejectConnectionError` for a status and a reason.
abbrev pub status_reason : ℕ → List ℕ → Rejection
status_reason status reason =
    reject_connection_error (rejection_status status ∷ rejection_reason reason ∷ [])

-- `err.(*rejectConnectionError)`
unfoldable pub as_rejection : HandshakeErr → Option Rejection
unfolding reject_connection_error apply_options apply_option bad_header
as_rejection bad_protocol =
    some (status_reason 505 (codes "handshake error: bad HTTP protocol version"))
as_rejection bad_method =
    some (status_reason 405 (codes "handshake error: bad HTTP request method"))
as_rejection bad_host = some (status_reason 400 (bad_header header_host))
as_rejection bad_upgrade = some (status_reason 400 (bad_header header_upgrade))
as_rejection bad_connection = some (status_reason 400 (bad_header header_connection))
as_rejection bad_sec_accept = some (status_reason 400 (bad_header header_sec_accept))
as_rejection bad_sec_key = some (status_reason 400 (bad_header header_sec_key))
as_rejection bad_sec_version = some (status_reason 400 (bad_header header_sec_version))
as_rejection malformed_request = some (status_reason 400 (codes "malformed HTTP request"))
as_rejection upgrade_required = some (
    reject_connection_error (
      rejection_status 426
      ∷ rejection_header
          (some (header_text (header_sec_version ++ (codes ": 13" ++ (13 ∷ 10 ∷ [])))))
      ∷ rejection_reason (bad_header header_sec_version)
      ∷ []))
as_rejection (rejected r) = some r
as_rejection (plain text) = none

-- `err.Error()`
unfoldable pub reason_of : Option Rejection → HandshakeErr → List ℕ
reason_of (some r) e = r.reason
reason_of none (plain text) = text
reason_of none _ = []

unfoldable pub error_message : HandshakeErr → List ℕ
error_message e = reason_of (as_rejection e) e
