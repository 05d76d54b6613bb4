-- ===== src/Connection/Sending.antt =====
-- `sendInLoop`: what a connection is given goes to the peer in order, through the output buffer or not.
use goreactor.Common.{
  ℕ, ◌≤◌, ◌<◌, Bool, true, false, not, List, [], ◌∷◌, ◌++◌, zero, suc, some, ◌≡◌, refl, sym, ap,
  ◌∙◌, arith, inl, inr, ◌⊎◌,
}
use goreactor.Common.{
  if◌then◌else◌, Bool-cases, length, take, drop, length-append, eq_of_length_zero, take_all,
}
use goreactor.RingBuffer.Defs.{RingBuffer, reset, ring_length}
use goreactor.RingBuffer.Contents.{
  window, contents, IsValid, length-contents, ring_length_pos, ring_length_zero,
}
use goreactor.RingBuffer.Growing.{write_lem}
use goreactor.Connection.Defs.{
  Conn, System, WriteResult, wrote, again, failed, closed_down, handle_close, close_conn,
  enable_read_write, keep_rest, send_direct, send_in_loop, stream, Closes,
}
use native.Mathlib.Decide.{dec_lt, dec_le}
use mathlib.Core.List.{append_assoc, append-nil}

-- The poller reports that the socket can be written exactly when there are bytes to write.
abbrev pub IsArmed : Conn → Type 0
IsArmed c = c.writing ≡ not c.out_buf.is_empty

-- A step that took the connection `c` to `c'`, and may have closed it.
pub record Goes (sys : System) (c : Conn) (more : List ℕ) (c' : Conn) (closed : Bool) : Type 0 where
  pub keeps : IsValid c'.out_buf
  pub armed :
      c'.writing
      ≡ (if closed then false else if sys.modifies then not c'.out_buf.is_empty else c.writing)
  pub emptied : (closed ≡ false) ⊎ (c'.out_buf.is_empty ≡ true)
  pub flows : stream c' ≡ (if closed then stream c else stream c ++ more)
  pub still : c'.connected ≡ not closed

pub contents-reset : (s : RingBuffer) → contents (reset s) ≡ []
unfolding contents window ring_length reset
contents-reset s = ground arith

-- A connection after `handleClose`: only what the kernel took is left of its stream.
pub record IsClosed (c c' : Conn) : Type 0 where
  pub keeps : IsValid c'.out_buf
  pub empty : c'.out_buf.is_empty ≡ true
  pub unwatched : c'.writing ≡ false
  pub flows : stream c' ≡ c.written
  pub down : c'.connected ≡ false

pub handle_close_lem :
    (sys : System) (c : Conn)
    → Closes sys
    → IsValid c.out_buf
    → c.connected ≡ true
    → (c' : Conn) × (handle_close sys c ≡ some c') × IsClosed c c'
unfolding handle_close
handle_close_lem sys c can v live = (
  closed_down c,
  ground (arith, can),
  record {
    keeps = (unfold reset in ground (arith, v));
    empty = (unfold reset in refl);
    unwatched = refl;
    flows = ap (λ l. c.written ++ l) (contents-reset c.out_buf) ∙ append-nil c.written;
    down = refl;
  },
)

pub close_conn_lem :
    (sys : System) (c : Conn)
    → Closes sys
    → IsValid c.out_buf
    → c.connected ≡ true
    → (c' : Conn) × (close_conn sys c ≡ some (c', true)) × IsClosed c c'
unfolding close_conn
close_conn_lem sys c can v live =
    let (c', returns, ends) = handle_close_lem sys c can v live in
    (c', ground (arith, returns), ends)

-- A buffer with bytes in it is not the empty one.
pub filled_lem : {s : RingBuffer} → IsValid s → 0 < length (contents s) → s.is_empty ≡ false
filled_lem {s} v h = elim (Bool-cases s.is_empty) [
  | inl e ↦ absurd (omega (arith, length-contents v, ring_length_zero v e))
  | inr e ↦ e
]

pub empty_lem : {s : RingBuffer} → IsValid s → s.is_empty ≡ true → contents s ≡ []
empty_lem v e = eq_of_length_zero _ _ (omega (arith, length-contents v, ring_length_zero v e)) refl

-- Where nothing waits, the kernel took all there is.
pub written_lem : (c : Conn) → IsValid c.out_buf → c.out_buf.is_empty ≡ true → stream c ≡ c.written
written_lem c v e = ap (λ l. c.written ++ l) (empty_lem v e) ∙ append-nil c.written

pub take-append-drop : (n : ℕ) (xs : List ℕ) → take n xs ++ drop n xs ≡ xs
take-append-drop zero xs = refl
take-append-drop (suc n) [] = refl
take-append-drop (suc n) (x ∷ xs) = ap (λ l. x ∷ l) (take-append-drop n xs)

-- What the kernel took, and the rest behind it, where nothing was waiting.
split_flow :
    (written held bytes : List ℕ) (n : ℕ)
    → held ≡ []
    → ((written ++ take n bytes) ++ held) ++ drop n bytes ≡ (written ++ held) ++ bytes
split_flow written held bytes n e =
    rw
      (
        e,
        append-nil (written ++ take n bytes),
        append-nil written,
        append_assoc written (take n bytes) (drop n bytes),
        take-append-drop n bytes,
      )
      refl

whole_flow :
    (written held bytes : List ℕ) (n : ℕ)
    → held ≡ []
    → length bytes ≤ n
    → (written ++ take n bytes) ++ held ≡ (written ++ held) ++ bytes
whole_flow written held bytes n e h =
    rw (e, append-nil (written ++ take n bytes), append-nil written, take_all n bytes h) refl

stream-enable_read_write : (sys : System) (c : Conn) → stream (enable_read_write sys c) ≡ stream c
unfolding enable_read_write
stream-enable_read_write sys c = ground arith

keep_rest_lem :
    (sys : System) (c : Conn) (rest : List ℕ)
    → IsValid c.out_buf
    → c.out_buf.is_empty ≡ true
    → c.writing ≡ false
    → c.connected ≡ true
    → (c' : Conn) × (keep_rest sys c rest ≡ some (c', false)) × Goes sys c rest c' false
unfolding keep_rest enable_read_write
keep_rest_lem sys c rest v empty armed live =
    let (s, returns, appends) = write_lem c.out_buf rest v in
    (
      enable_read_write sys (record c { out_buf = s }),
      ground (arith, returns),
      record {
        keeps = ground (arith, appends.keeps);
        armed = ground arith;
        emptied = inl refl;
        flows =
            stream-enable_read_write sys _
            ∙ ap (λ l. c.written ++ l) appends.bytes
            ∙ sym (append_assoc c.written (contents c.out_buf) rest);
        still = ground arith;
      },
    )

send_direct_lem :
    (sys : System) (c : Conn) (bytes : List ℕ) (result : WriteResult)
    → Closes sys
    → IsValid c.out_buf
    → c.out_buf.is_empty ≡ true
    → IsArmed c
    → c.connected ≡ true
    → (c' : Conn) × (closed : Bool) × (send_direct sys c bytes result ≡ some (c', closed))
      × Goes sys c bytes c' closed
unfolding send_direct
send_direct_lem sys c bytes failed can v empty armed live =
    let (c', returns, ends) = close_conn_lem sys c can v live in
    (
      c',
      true,
      returns,
      record {
        keeps = ends.keeps;
        armed = ends.unwatched;
        emptied = inr ends.empty;
        flows = ends.flows ∙ sym (written_lem c v empty);
        still = ends.down;
      },
    )
send_direct_lem sys c bytes again can v empty armed live =
    let (c', returns, goes) = keep_rest_lem sys c bytes v empty (ground arith) live in
    (c', false, returns, goes)
send_direct_lem sys c bytes (wrote n) can v empty armed live = elim (dec_le n 0) [
  | yes none_taken ↦
      let (c', returns, goes) = keep_rest_lem sys c bytes v empty (ground arith) live in
      (c', false, ground (arith, returns), goes)
  | no some_taken ↦ elim (dec_lt n (length bytes)) [
    | yes part ↦
        let (c', returns, goes) =
          keep_rest_lem sys (record c { written = c.written ++ take n bytes }) (drop n bytes) v
            empty (ground arith) live in
        (
          c',
          false,
          ground (arith, returns),
          record {
            keeps = goes.keeps;
            armed = goes.armed;
            emptied = inl refl;
            flows =
                goes.flows ∙ split_flow c.written (contents c.out_buf) bytes n (empty_lem v empty);
            still = goes.still;
          },
        )
    | no whole ↦ (
      enable_read_write sys (record c { written = c.written ++ take n bytes }),
      false,
      ground arith,
      (unfold enable_read_write in
          record {
            keeps = ground (arith, v);
            armed = ground arith;
            emptied = inl refl;
            flows =
                stream-enable_read_write sys _
                ∙ whole_flow c.written (contents c.out_buf) bytes n (empty_lem v empty)
                    (omega arith);
            still = ground arith;
          }),
    )
  ]
]

-- sendInLoop on a live connection with a valid output buffer, reported as writable exactly when bytes wait, does
-- not end the process, whatever unix.Write does, if the calls that close a connection do not fail. Unless it closes
-- the connection, the bytes for the peer are those from before with the new ones behind them, and the poller reports
-- the socket as writable exactly when bytes wait, or as before if epoll_ctl fails to change that; where it does
-- close it, nothing waits and nothing is reported. The output buffer stays valid.
pub send_in_loop_lem :
    (sys : System) (c : Conn) (bytes : List ℕ)
    → Closes sys
    → IsValid c.out_buf
    → IsArmed c
    → c.connected ≡ true
    → (c' : Conn) × (closed : Bool) × (send_in_loop sys c bytes ≡ some (c', closed))
      × Goes sys c bytes c' closed
unfolding send_in_loop
send_in_loop_lem sys c bytes can v armed live = elim (Bool-cases c.out_buf.is_empty) [
  | inl e ↦
      let (c', closed, returns, goes) =
        send_direct_lem sys c bytes (sys.write_fd bytes) can v e armed live in
      (c', closed, ground (arith, returns), goes)
  | inr e ↦
      let (s, returns, appends) = write_lem c.out_buf bytes v in
      let full : s.is_empty ≡ false = filled_lem appends.keeps (
        omega (
          arith,
          ap length appends.bytes,
          length-append (contents c.out_buf) bytes,
          length-contents v,
          ring_length_pos v e,
        )) in
      (
        record c { out_buf = s },
        false,
        ground (arith, returns),
        record {
          keeps = appends.keeps;
          armed = ground arith;
          emptied = inl refl;
          flows =
              ap (λ l. c.written ++ l) appends.bytes
              ∙ sym (append_assoc c.written (contents c.out_buf) bytes);
          still = live;
        },
      )
]
