-- ===== src/Connection/Consuming.antt =====
-- `handlerProtocol` ends, and `HandleEvent` keeps a connection in order, for every protocol whose
-- `UnPacket` never panics, keeps every valid buffer valid, adds no bytes to it and takes a byte or more
-- for each message.
use goreactor.Common.{
  ℕ, zero, suc, ◌+◌, ◌≤◌, ◌<◌, Bool, true, false, not, ◌&&◌, List, [], ◌∷◌, Option, some, ◌≡◌, ◌⊎◌,
  inl, inr, refl, arith,
}
use goreactor.Common.{if◌then◌else◌, Bool-cases, length}
use goreactor.RingBuffer.Defs.{RingBuffer, with_data, reset, ring_length}
use goreactor.RingBuffer.Contents.{contents, IsValid, length-contents}
use goreactor.RingBuffer.Growing.{write_lem}
use goreactor.RingBuffer.Making.{with_data_lem, reset_of_stored}
use goreactor.RingBuffer.Peeking.{peek_all_lem}
use goreactor.Connection.Defs.{Conn, System, Works, Takes}
use goreactor.Connection.Sending.{IsArmed, close_conn_lem, send_in_loop_lem}
use goreactor.Connection.Draining.{Drains, handle_write_lem}
use goreactor.Connection.Serving.{
  Received, got, again, failed, Side, Unpacked, Handled, is_nothing, append_packet,
  handler_protocol, run_protocol, send_answers, put_conn, keep_input, receive_fresh, receive_more,
  close_side, handle_read, store_lengths, reset_if_empty, after_write, after_read, handle_event,
}
use goreactor.Reactor.Events.{Dispatch, closes, writes, reads, ignores, handle_event as dispatch}

-- Whatever the state and the buffer, `UnPacket` does not panic, keeps a valid buffer valid, adds no
-- bytes to it, and takes one or more for each message.
pub record Consumes {P Ctx : Type 0} (un_packet : P → RingBuffer → Option (Unpacked P Ctx))
    : Type 0 where
  pub unpacked : (p : P) (s : RingBuffer) → IsValid s → Unpacked P Ctx
  pub returns : (p : P) (s : RingBuffer) (v : IsValid s) → un_packet p s ≡ some (unpacked p s v)
  pub keeps : (p : P) (s : RingBuffer) (v : IsValid s) → IsValid (unpacked p s v).ring
  pub shrinks :
      (p : P) (s : RingBuffer) (v : IsValid s)
      → length (contents (unpacked p s v).ring)
          + (if is_nothing (unpacked p s v).ctx (unpacked p s v).bytes then 0 else 1)
        ≤ length (contents s)

-- A live connection in order: its buffers are valid, and the poller reports that the socket can be
-- written exactly when bytes wait.
pub record IsGood {P : Type 0} (side : Side P) : Type 0 where
  pub in_valid : IsValid side.in_buf
  pub out_valid : IsValid side.conn.out_buf
  pub armed : IsArmed side.conn
  pub live : side.conn.connected ≡ true

keep_input_lem :
    (in_buf s : RingBuffer)
    → IsValid in_buf
    → IsValid s
    → (t : RingBuffer) × (keep_input in_buf s ≡ some t) × IsValid t
unfolding keep_input
keep_input_lem in_buf s v w = elim (Bool-cases s.is_empty) [
  | inl e ↦ (in_buf, ground (arith), v)
  | inr e ↦
      let (first, end, peeks, same, parts) = peek_all_lem s w in
      let (t, returns, appends) = write_lem in_buf first v in
      (t, ground (arith, peeks, returns), appends.keeps)
]

-- A step that leaves the connection in order, or closed.
abbrev Keeps : {P : Type 0} → Option (Side P × Bool) → Type 0
Keeps {P} o =
    (side : Side P) × (closed : Bool) × (o ≡ some (side, closed))
    × (if closed then side.conn.connected ≡ false else IsGood side)

put_conn-IsValid :
    {P : Type 0} (side : Side P) (c : Conn) → IsValid side.in_buf → IsValid (put_conn side c).in_buf
unfolding put_conn
put_conn-IsValid side c v = ground (arith, v, (reset_of_stored side.in_buf v.stored).0)

close_lem :
    {P : Type 0} (sys : System) (side : Side P)
    → Works sys
    → IsGood side
    → Keeps (close_side sys side)
unfolding close_side
close_lem sys side works good =
    let (c, closes_it, ends) = close_conn_lem sys side.conn works.1 good.out_valid good.live in
    (put_conn side c, true, ground (arith, closes_it), (unfold put_conn in ends.down))

reset_if_empty_lem : (s : RingBuffer) → IsValid s → IsValid (reset_if_empty s)
unfolding reset_if_empty
reset_if_empty_lem s v = ground (arith, v, (reset_of_stored s v.stored).0)

IsGood-lengths :
    {P : Type 0} (side : Side P)
    → IsGood side
    → IsGood (record side {
      in_buf_len = ring_length side.in_buf;
      out_buf_len = ring_length side.conn.out_buf;
    })
IsGood-lengths side good = record {
  in_valid = good.in_valid;
  out_valid = good.out_valid;
  armed = good.armed;
  live = good.live;
}

-- The connection after a step of its output.
settles :
    {P : Type 0} (side : Side P) (c : Conn) (closed : Bool)
    → IsValid side.in_buf
    → IsValid c.out_buf
    → (closed ≡ true) ⊎ IsArmed c
    → c.connected ≡ not closed
    → if closed then (put_conn side c).conn.connected ≡ false else IsGood (put_conn side c)
unfolding put_conn
settles side c true v w armed still = still
settles side c false v w armed still = record {
  in_valid = (unfold put_conn in put_conn-IsValid side c v);
  out_valid = w;
  armed = ground (arith, armed);
  live = still;
}

send_answers_lem :
    {P : Type 0} (sys : System) (side : Side P) (out : List ℕ)
    → Works sys
    → IsGood side
    → Keeps (send_answers sys side out)
unfolding send_answers
send_answers_lem sys side [] works good = (side, false, refl, good)
send_answers_lem sys side (b ∷ out) works good =
    let (c, closed, returns, goes) =
      send_in_loop_lem sys side.conn (b ∷ out) works.1 good.out_valid good.armed good.live in
    (
      put_conn side c,
      closed,
      ground (arith, returns),
      settles side c closed good.in_valid goes.keeps (ground (arith, goes.armed, works)) goes.still,
    )

-- `HandleEvent` writes only where bytes wait.
abbrev writes_of : Dispatch → Bool
writes_of writes = true
writes_of _ = false

dispatch_writes :
    (out_empty : Bool) (events : ℕ) → (writes_of (dispatch out_empty events) && out_empty) ≡ false
unfolding dispatch
dispatch_writes true events = ground arith
dispatch_writes false events = ground arith

module _ {P Ctx M : Type 0} (un_packet : P → RingBuffer → Option (Unpacked P Ctx))
    (on_message : P → Option Ctx → List ℕ → P × Option M) (packet : M → List ℕ)
    (consumes : Consumes un_packet) where
  -- With one call more at hand than there are bytes, `handlerProtocol` ends.
  pub handler_protocol_ends :
      (fuel : ℕ) (p : P) (s : RingBuffer) (out : List ℕ)
      → IsValid s
      → length (contents s) < fuel
      → (done : Handled P) × (handler_protocol un_packet on_message packet fuel p s out ≡ some done)
        × IsValid done.ring
        × (length (contents done.ring) ≤ length (contents s))
  unfolding handler_protocol
  handler_protocol_ends zero p s out v h = absurd (omega arith)
  handler_protocol_ends (suc fuel) p s out v h =
      let u = consumes.unpacked p s v in
      let shrinks = consumes.shrinks p s v in
      elim (Bool-cases (is_nothing u.ctx u.bytes)) [
        | inl e ↦ (
          record { state = u.state; ring = u.ring; out = out },
          ground (arith, consumes.returns p s v),
          consumes.keeps p s v,
          ground (arith, shrinks),
        )
        | inr e ↦
            let (p', msg) = on_message u.state u.ctx u.bytes in
            let (done, returns, keeps, less) =
              handler_protocol_ends fuel p' u.ring (append_packet packet msg out)
                (consumes.keeps p s v) (ground (arith, shrinks)) in
            (done, ground (arith, consumes.returns p s v, returns), keeps, ground (arith, shrinks))
      ]

  run_protocol_ends :
      (p : P) (s : RingBuffer)
      → IsValid s
      → (done : Handled P) × (run_protocol un_packet on_message packet p s ≡ some done)
        × IsValid done.ring
  unfolding run_protocol
  run_protocol_ends p s v =
      let (done, returns, keeps, less) =
        handler_protocol_ends (suc (ring_length s)) p s [] v (omega (arith, length-contents v)) in
      (done, returns, keeps)

  receive_lem :
      (sys : System) (side : Side P) (b : ℕ) (bytes : List ℕ)
      → Works sys
      → IsGood side
      → Keeps (handle_read un_packet on_message packet sys (got (b ∷ bytes)) side)
  unfolding handle_read receive_fresh receive_more
  receive_lem sys side b bytes works good = elim (Bool-cases side.in_buf.is_empty) [
    | inl e ↦
        let (fresh, _, _, _, _) = with_data_lem side.buf (b ∷ bytes) (omega arith) in
        let (done, runs, keeps) =
          run_protocol_ends side.state (with_data side.buf (b ∷ bytes)) fresh in
        let (t, kept, keeps') = keep_input_lem side.in_buf done.ring good.in_valid keeps in
        let side' : Side P = record side { state = done.state; buf = done.ring; in_buf = t } in
        let (last, closed, sends, ends) = send_answers_lem sys side' done.out works (record {
          in_valid = keeps';
          out_valid = good.out_valid;
          armed = good.armed;
          live = good.live;
        }) in
        (last, closed, ground (arith, runs, kept, sends), ends)
    | inr e ↦
        let (t, written, appends) = write_lem side.in_buf (b ∷ bytes) good.in_valid in
        let (done, runs, keeps) = run_protocol_ends side.state t appends.keeps in
        let side' : Side P = record side { state = done.state; in_buf = done.ring } in
        let (last, closed, sends, ends) = send_answers_lem sys side' done.out works (record {
          in_valid = keeps;
          out_valid = good.out_valid;
          armed = good.armed;
          live = good.live;
        }) in
        (last, closed, ground (arith, written, runs, sends), ends)
  ]

  -- `handleRead` does not end the process, whatever `unix.Read` and `unix.Write` do, if the other
  -- system calls work, and leaves the connection in order or closed.
  pub handle_read_lem :
      (sys : System) (received : Received) (side : Side P)
      → Works sys
      → IsGood side
      → Keeps (handle_read un_packet on_message packet sys received side)
  unfolding handle_read
  handle_read_lem sys again side works good = (side, false, refl, good)
  handle_read_lem sys failed side works good = close_lem sys side works good
  handle_read_lem sys (got []) side works good = close_lem sys side works good
  handle_read_lem sys (got (b ∷ bytes)) side works good = receive_lem sys side b bytes works good

  either :
      (side : Side P) (closed : Bool)
      → (if closed then side.conn.connected ≡ false else IsGood side)
      → IsGood side ⊎ (side.conn.connected ≡ false)
  either side true ends = inr ends
  either side false ends = inl ends

  after_read_lem :
      (side : Side P) (closed : Bool)
      → (if closed then side.conn.connected ≡ false else IsGood side)
      → IsGood (after_read (side, closed)) ⊎ ((after_read (side, closed)).conn.connected ≡ false)
  unfolding after_read store_lengths
  after_read_lem side true ends = inr ends
  after_read_lem side false ends = inl (record {
    in_valid = reset_if_empty_lem side.in_buf ends.in_valid;
    out_valid = ends.out_valid;
    armed = ends.armed;
    live = ends.live;
  })

  after_write_lem :
      (side : Side P) (c : Conn) (closed : Bool)
      → IsValid side.in_buf
      → Drains side.conn c closed
      → IsGood (after_write side (c, closed))
        ⊎ ((after_write side (c, closed)).conn.connected ≡ false)
  unfolding after_write store_lengths put_conn
  after_write_lem side c true v drains = inr drains.still
  after_write_lem side c false v drains = inl (record {
    in_valid = v;
    out_valid = reset_if_empty_lem c.out_buf drains.keeps;
    armed = (unfold reset_if_empty reset in ground (arith, drains.armed));
    live = drains.still;
  })

  by_dispatch :
      (sys : System) (received : Received) (d : Dispatch) (side : Side P)
      → Works sys
      → Takes sys.write_fd
      → Takes sys.write_again
      → IsGood side
      → (writes_of d && side.conn.out_buf.is_empty) ≡ false
      → (side' : Side P) × (handle_event un_packet on_message packet sys received d side
          ≡ some side')
        × (IsGood side' ⊎ (side'.conn.connected ≡ false))
  unfolding handle_event
  by_dispatch sys received closes side works takes takes' good some_there =
      let (side', closed, returns, ends) = close_lem sys side works good in
      (side', ground (arith, returns), either side' closed ends)
  by_dispatch sys received writes side works takes takes' good some_there =
      let (c, closed, returns, drains) =
        handle_write_lem sys side.conn works takes takes' good.out_valid some_there good.armed
          good.live in
      (
        after_write side (c, closed),
        ground (arith, returns),
        after_write_lem side c closed good.in_valid drains,
      )
  by_dispatch sys received reads side works takes takes' good some_there =
      let (side', closed, returns, ends) = handle_read_lem sys received side works good in
      (after_read (side', closed), ground (arith, returns), after_read_lem side' closed ends)
  by_dispatch sys received ignores side works takes takes' good some_there =
      (store_lengths side, refl, inl (unfold store_lengths in IsGood-lengths side good))

  -- `HandleEvent` keeps a connection in order, or closes it, under the same conditions.
  pub handle_event_lem :
      (sys : System) (received : Received) (events : ℕ) (side : Side P)
      → Works sys
      → Takes sys.write_fd
      → Takes sys.write_again
      → IsGood side
      → (side' : Side P) × (handle_event un_packet on_message packet sys received
            (dispatch side.conn.out_buf.is_empty events)
            side
          ≡ some side')
        × (IsGood side' ⊎ (side'.conn.connected ≡ false))
  handle_event_lem sys received events side works takes takes' good =
      by_dispatch sys received (dispatch side.conn.out_buf.is_empty events) side works takes takes'
        good (dispatch_writes side.conn.out_buf.is_empty events)
