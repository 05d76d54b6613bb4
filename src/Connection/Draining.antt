-- ===== src/Connection/Draining.antt =====
-- `handleWrite`: the output buffer is written out in order, in up to two parts.
use goreactor.Common.{
  ℕ, zero, suc, ◌≤◌, ◌<◌, Bool, true, false, not, List, [], ◌∷◌, ◌++◌, some, ◌≡◌, refl, sym, ap,
  ◌∙◌, arith,
}
use goreactor.Common.{Bool-cases, inl, inr, ◌⊎◌, length, take, drop, length-drop, eq_of_length_zero}
use goreactor.RingBuffer.Contents.{contents, IsValid}
use goreactor.RingBuffer.Bytewise.{retrieve_lem}
use goreactor.RingBuffer.Peeking.{peek_all_lem}
use goreactor.Connection.Defs.{
  Conn, System, WriteResult, wrote, again, failed, taken, close_conn, enable_read, Works, took,
  write_end, write_first, handle_write, Takes, stream,
}
use goreactor.Connection.Sending.{IsArmed, close_conn_lem, filled_lem, take-append-drop}
use native.Mathlib.Decide.{dec_lt, dec_le}
use mathlib.Core.List.{append_assoc, append-nil}

-- A step that only moves bytes from the buffer to the kernel, and may close the connection.
pub record Drains (c c' : Conn) (closed : Bool) : Type 0 where
  pub keeps : IsValid c'.out_buf
  pub armed : IsArmed c'
  pub lost : List ℕ
  pub flows : stream c' ++ lost ≡ stream c
  pub none_lost : (closed ≡ true) ⊎ (lost ≡ [])
  pub still : c'.connected ≡ not closed

-- What there is between the two calls.
record Took (c : Conn) (ft ed : List ℕ) (n : ℕ) (c' : Conn) : Type 0 where
  keeps : IsValid c'.out_buf
  rest : contents c'.out_buf ≡ drop n ft ++ ed
  flows : stream c' ≡ stream c
  same : (c'.writing ≡ c.writing) × (c'.connected ≡ c.connected)

drop-append : (n : ℕ) (xs ys : List ℕ) → n ≤ length xs → drop n (xs ++ ys) ≡ drop n xs ++ ys
drop-append zero xs ys h = refl
drop-append (suc n) [] ys h = absurd (omega arith)
drop-append (suc n) (x ∷ xs) ys h = drop-append n xs ys (omega arith)

took_lem :
    (c : Conn) (ft ed : List ℕ) (n : ℕ)
    → IsValid c.out_buf
    → contents c.out_buf ≡ ft ++ ed
    → n ≤ length ft
    → (c' : Conn) × (took c ft n ≡ some c') × Took c ft ed n c'
unfolding took
took_lem c ft ed n v e h =
    let (s, returns, drops, keeps) = retrieve_lem c.out_buf n v in
    let rest : contents s ≡ drop n ft ++ ed = drops ∙ ap (drop n) e ∙ drop-append n ft ed h in
    (
      record c { out_buf = s; written = c.written ++ take n ft },
      ground (arith, returns),
      record {
        keeps = keeps;
        rest = rest;
        flows =
            ap (λ l. (c.written ++ take n ft) ++ l) rest
            ∙ append_assoc c.written (take n ft) (drop n ft ++ ed)
            ∙ ap (λ l. c.written ++ l)
                (sym (append_assoc (take n ft) (drop n ft) ed)
                  ∙ ap (λ l. l ++ ed) (take-append-drop n ft)
                  ∙ sym e);
        same = (refl, refl);
      },
    )

enable_read_lem :
    (sys : System) (c : Conn)
    → Works sys
    → IsValid c.out_buf
    → c.writing ≡ true
    → c.connected ≡ true
    → (c' : Conn) × (enable_read sys c ≡ some (c', false)) × Drains c c' false
unfolding enable_read
enable_read_lem sys c works v armed live = elim (Bool-cases c.out_buf.is_empty) [
  | inl e ↦ (
    record c { writing = false },
    ground (arith, works),
    record {
      keeps = v;
      armed = ground arith;
      lost = [];
      flows = append-nil (stream c);
      none_lost = inr refl;
      still = live;
    },
  )
  | inr e ↦ (
    c,
    ground arith,
    record {
      keeps = v;
      armed = ground arith;
      lost = [];
      flows = append-nil (stream c);
      none_lost = inr refl;
      still = live;
    },
  )
]

-- Closing loses what was not written yet.
closed_lem :
    (sys : System) (c : Conn)
    → Works sys
    → IsValid c.out_buf
    → c.connected ≡ true
    → (c' : Conn) × (close_conn sys c ≡ some (c', true)) × Drains c c' true
closed_lem sys c works v live =
    let (c', returns, ends) = close_conn_lem sys c works.1 v live in
    (
      c',
      returns,
      record {
        keeps = ends.keeps;
        armed = ground (arith, ends.unwatched, ends.empty);
        lost = contents c.out_buf;
        flows = ap (λ l. l ++ contents c.out_buf) ends.flows;
        none_lost = inl refl;
        still = ends.down;
      },
    )

waits_lem : (c : Conn) → IsValid c.out_buf → IsArmed c → c.connected ≡ true → Drains c c false
waits_lem c v armed live = record {
  keeps = v;
  armed = armed;
  lost = [];
  flows = append-nil (stream c);
  none_lost = inr refl;
  still = live;
}

armed_lem :
    (c : Conn) → IsValid c.out_buf → 0 < length (contents c.out_buf) → c.writing ≡ true → IsArmed c
armed_lem c v h on = ground (arith, filled_lem v h)

after_lem :
    (c d e : Conn) (closed : Bool) → stream d ≡ stream c → Drains d e closed → Drains c e closed
after_lem c d e closed flows ends = record {
  keeps = ends.keeps;
  armed = ends.armed;
  lost = ends.lost;
  flows = ends.flows ∙ flows;
  none_lost = ends.none_lost;
  still = ends.still;
}

write_end_lem :
    (sys : System) (c : Conn) (ed : List ℕ) (result : WriteResult)
    → Works sys
    → taken result ≤ length ed
    → IsValid c.out_buf
    → contents c.out_buf ≡ ed
    → 0 < length ed
    → c.writing ≡ true
    → c.connected ≡ true
    → (c' : Conn) × (closed : Bool) × (write_end sys c ed result ≡ some (c', closed))
      × Drains c c' closed
unfolding write_end
write_end_lem sys c ed failed works fits v e some_there on live =
    let (c', returns, drains) = closed_lem sys c works v live in (c', true, returns, drains)
write_end_lem sys c ed again works fits v e some_there on live =
    (c, false, refl, waits_lem c v (armed_lem c v (omega (arith, ap length e)) on) live)
write_end_lem sys c ed (wrote n) works fits v e some_there on live =
    let (c', returns, got) = took_lem c ed [] n v (e ∙ sym (append-nil ed)) fits in
    let (c'', enables, ends) =
      enable_read_lem sys c' works got.keeps (got.same.0 ∙ on) (got.same.1 ∙ live) in
    (c'', false, ground (arith, returns, enables), after_lem c c' c'' false got.flows ends)

write_first_lem :
    (sys : System) (c : Conn) (ft ed : List ℕ) (result : WriteResult)
    → Works sys
    → Takes sys.write_again
    → taken result ≤ length ft
    → IsValid c.out_buf
    → contents c.out_buf ≡ ft ++ ed
    → c.out_buf.is_empty ≡ false
    → IsArmed c
    → c.connected ≡ true
    → (c' : Conn) × (closed : Bool) × (write_first sys c ft ed result ≡ some (c', closed))
      × Drains c c' closed
unfolding write_first
write_first_lem sys c ft ed failed works takes fits v e some_there armed live =
    let (c', returns, drains) = closed_lem sys c works v live in (c', true, returns, drains)
write_first_lem sys c ft ed again works takes fits v e some_there armed live =
    (c, false, refl, waits_lem c v armed live)
write_first_lem sys c ft ed (wrote n) works takes fits v e some_there armed live =
    let (c', returns, got) = took_lem c ft ed n v e fits in
    let on : c'.writing ≡ true = got.same.0 ∙ (ground arith) in
    let (d, enables, ends) = enable_read_lem sys c' works got.keeps on (got.same.1 ∙ live) in
    elim (dec_le (length ft) n) [
      | yes all ↦ elim (dec_lt 0 (length ed)) [
        | yes more ↦
            let rest : contents c'.out_buf ≡ ed =
              got.rest
              ∙ ap (λ l. l ++ ed)
                  (eq_of_length_zero (drop n ft) [] (omega (arith, length-drop n ft)) refl) in
            let (c'', closed, returns', drains) =
              write_end_lem sys c' ed (sys.write_again ed) works (takes ed) got.keeps rest more on
                (got.same.1 ∙ live) in
            (
              c'',
              closed,
              ground (arith, returns, returns'),
              after_lem c c' c'' closed got.flows drains,
            )
        | no none_more ↦
            (d, false, ground (arith, returns, enables), after_lem c c' d false got.flows ends)
      ]
      | no part ↦
          (d, false, ground (arith, returns, enables), after_lem c c' d false got.flows ends)
    ]

-- handleWrite on a live connection with bytes to write, reported as writable, does not end the process, whatever
-- its two calls of unix.Write do, if neither reports more bytes than it was given and no other system call
-- fails. What the kernel took, with the output buffer behind it, stays the same bytes in the same order if the
-- connection is not closed, and the beginning of them if it is; the buffer stays valid, and the poller reports the
-- socket as writable exactly when bytes wait.
pub handle_write_lem :
    (sys : System) (c : Conn)
    → Works sys
    → Takes sys.write_fd
    → Takes sys.write_again
    → IsValid c.out_buf
    → c.out_buf.is_empty ≡ false
    → IsArmed c
    → c.connected ≡ true
    → (c' : Conn) × (closed : Bool) × (handle_write sys c ≡ some (c', closed)) × Drains c c' closed
unfolding handle_write
handle_write_lem sys c works takes takes' v some_there armed live =
    let (ft, ed, peeks, same, parts) = peek_all_lem c.out_buf v in
    let (c', closed, returns, drains) =
      write_first_lem sys c ft ed (sys.write_fd ft) works takes' (takes ft) v (sym parts) some_there
        armed live in
    (c', closed, ground (arith, peeks, returns), drains)
