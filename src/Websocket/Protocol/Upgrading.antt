-- ===== src/Websocket/Protocol/Upgrading.antt =====
-- plugins/websocket/protocol.go: `UnPacket` with its branch for a connection that is not upgraded yet.
use goreactor.Common.{
  ℕ, ◌<◌, Bool, true, false, List, [], ◌∷◌, ◌++◌, Option, none, some, ◌≡◌, refl, ap, ◌∙◌, arith,
}
use goreactor.Common.{if◌then◌else◌, ◌>>=◌}
use goreactor.RingBuffer.Defs.{RingBuffer}
use goreactor.RingBuffer.Contents.{contents, IsValid}
use goreactor.RingBuffer.Peeking.{peek_all_lem}
use goreactor.Websocket.Http.Defs.{
  bsplit3, http_parse_version, equal, index_byte, split_at, after_index,
}
use goreactor.Websocket.Handshake.Errors.{malformed_request}
use goreactor.Websocket.Handshake.Headers.{Upgrader, has_err}
use goreactor.Websocket.Handshake.Upgrade.{
  Upgraded, has_prefix, index_of, crlf_crlf, split_crlf, http_parse_request_line, header_end,
  read_data, gives_up, upgrade_request, upgrade_lines, upgrade_data, first_progress, upgrade,
}
use goreactor.Websocket.Handshake.Laws.Cutting.{request, is_line, are_lines}
use goreactor.Websocket.Handshake.Laws.Lines.{no_hooks}
use goreactor.Websocket.Handshake.Laws.Accepting.{
  handshake_fits, switching_protocols, upgrade_accepts, upgrade_rejects,
}
use goreactor.Websocket.Protocol.Defs.{Outcome, fatal, handshake, unpack_frame}

-- What `UnPacket` leaves: its result, the buffer, and of the connection whether it is upgraded, the
-- slice for headers, and what the hooks see.
pub record Plugin (C : Type 0) : Type 0 where
  pub outcome : Outcome
  pub ring : RingBuffer
  pub upgraded : Bool
  pub scratch : List ℕ
  pub conn : C

has_prefix-append :
    (xs ys sep : List ℕ) → has_prefix xs sep ≡ true → has_prefix (xs ++ ys) sep ≡ true
unfolding has_prefix
has_prefix-append [] [] [] h = refl
has_prefix-append [] (y ∷ ys) [] h = refl
has_prefix-append (x ∷ xs) ys [] h = refl
has_prefix-append [] ys (c ∷ sep) h = cc
has_prefix-append (x ∷ xs) ys (c ∷ sep) h = ground (arith, has_prefix-append xs ys sep)

-- A separator that is not in the whole is in neither part.
index_of-left : (xs ys sep : List ℕ) → index_of (xs ++ ys) sep ≡ none → index_of xs sep ≡ none
unfolding index_of
index_of-left [] ys sep h = refl
index_of-left (x ∷ xs) ys sep h =
    ground (arith, has_prefix-append (x ∷ xs) ys sep, index_of-left xs ys sep)

index_of-right : (xs ys sep : List ℕ) → index_of (xs ++ ys) sep ≡ none → index_of ys sep ≡ none
unfolding index_of
index_of-right [] ys sep h = h
index_of-right (x ∷ xs) ys sep h = index_of-right xs ys sep (ground (arith))

header_end-none :
    (first end : List ℕ) → index_of (first ++ end) crlf_crlf ≡ none → header_end first end ≡ none
unfolding header_end
header_end-none first end h =
    ground (arith, index_of-left first end crlf_crlf h, index_of-right first end crlf_crlf h)

module _ {C E : Type 0} (status_text : ℕ → List ℕ) (digest : List ℕ → List ℕ)
    (write_options : List E → List ℕ)
    (scan_tokens : List ℕ
      → (List ℕ → Option (List ℕ) → Bool × Option (List ℕ))
      → Option (List ℕ)
      → Bool × Option (List ℕ))
    (select : (E → Bool) → List ℕ → List E → List E × Bool) where
  -- After `Upgrade`; `fresh` is the slice from the pool.
  unfoldable pub after_upgrade : List ℕ → List ℕ → Upgraded C E → Plugin C
  after_upgrade fresh scratch got =
      if has_err got.err
      then record {
        outcome = fatal;
        ring = got.ring;
        upgraded = false;
        scratch = scratch;
        conn = got.conn;
      }
      else record {
        outcome = handshake got.out;
        ring = got.ring;
        upgraded = true;
        scratch = fresh;
        conn = got.conn;
      }

  -- `UnPacket`
  unfoldable pub unpack : Upgrader C E → List ℕ → Bool → List ℕ → C → RingBuffer → Option (Plugin C)
  unpack u fresh true scratch c s = unpack_frame scratch s >>= λ got. some (record {
    outcome = got.outcome;
    ring = got.ring;
    upgraded = true;
    scratch = got.scratch;
    conn = c;
  })
  unpack u fresh false scratch c s =
      upgrade status_text digest write_options scan_tokens select u c s >>= λ got.
      some (after_upgrade fresh scratch got)

  -- UnPacket on a connection that is not upgraded, with no hooks and a valid buffer, not wrapped, that begins with a
  -- whole request that fits (the version 1.x, where x, as an int, is 1 or more): it returns the response to switch
  -- protocols, marks the connection as upgraded, gives it a new slice for headers, and leaves the bytes behind the
  -- request in a valid buffer.
  pub unpack-accepted :
      (fresh scratch : List ℕ) (c : C) (s : RingBuffer) (line : List ℕ) (lines : List (List ℕ))
      (rest : List ℕ)
      → IsValid s
      → s.r < s.w
      → is_line line ≡ true
      → are_lines lines ≡ true
      → contents s ≡ request (line ∷ lines) rest
      → handshake_fits line lines ≡ true
      → (s' : RingBuffer) × (unpack no_hooks fresh false scratch c s
          ≡ some (record {
            outcome = handshake (switching_protocols digest lines);
            ring = s';
            upgraded = true;
            scratch = fresh;
            conn = c;
          }))
        × (contents s' ≡ rest)
        × IsValid s'
  unfolding unpack after_upgrade
  unpack-accepted fresh scratch c s line lines rest v straight h hs holds fit =
      let (s', returns, left, keeps) =
        upgrade_accepts status_text digest write_options scan_tokens select c s line lines rest v
          straight h hs holds fit in
      (s', rw returns refl, left, keeps)

  -- UnPacket on a connection that is not upgraded, with no hooks and a valid buffer, not wrapped, that begins with a
  -- whole request that does not fit: it ends the process.
  pub unpack-refused :
      (fresh scratch : List ℕ) (c : C) (s : RingBuffer) (line : List ℕ) (lines : List (List ℕ))
      (rest : List ℕ)
      → IsValid s
      → s.r < s.w
      → is_line line ≡ true
      → are_lines lines ≡ true
      → contents s ≡ request (line ∷ lines) rest
      → handshake_fits line lines ≡ false
      → (got : Plugin C) × (unpack no_hooks fresh false scratch c s ≡ some got)
        × (got.outcome ≡ fatal)
  unfolding unpack after_upgrade
  unpack-refused fresh scratch c s line lines rest v straight h hs holds unfit =
      let (got, returns, err, left, keeps) =
        upgrade_rejects status_text digest write_options scan_tokens select c s line lines rest v
          straight h hs holds unfit in
      (after_upgrade fresh scratch got, rw returns refl, ground (arith, err))

  -- While the end of the headers is not there, the empty first line is taken for the request.
  upgrade-unfinished :
      (u : Upgrader C E) (c : C) (s : RingBuffer)
      → IsValid s
      → index_of (contents s) crlf_crlf ≡ none
      → upgrade status_text digest write_options scan_tokens select u c s
        ≡ some (
            gives_up malformed_request s
              (first_progress status_text digest write_options scan_tokens select c))
  unfolding upgrade upgrade_data upgrade_lines upgrade_request split_crlf read_data
      http_parse_request_line bsplit3 http_parse_version equal index_byte split_at after_index
  upgrade-unfinished u c s v lacks =
      let (first, end, peeks, same, parts) = peek_all_lem s v in
      rw (peeks, header_end-none first end (ap (λ l. index_of l crlf_crlf) parts ∙ lacks)) refl

  -- UnPacket on a connection that is not upgraded ends the process, whatever the hooks, if the buffer is valid and
  -- the blank line that ends the headers has not arrived; the buffer is left as it is.
  pub unpack-unfinished :
      (u : Upgrader C E) (fresh scratch : List ℕ) (c : C) (s : RingBuffer)
      → IsValid s
      → index_of (contents s) crlf_crlf ≡ none
      → unpack u fresh false scratch c s
        ≡ some (record { outcome = fatal; ring = s; upgraded = false; scratch = scratch; conn = c })
  unfolding unpack after_upgrade gives_up
  unpack-unfinished u fresh scratch c s v lacks = rw (upgrade-unfinished u c s v lacks) refl
