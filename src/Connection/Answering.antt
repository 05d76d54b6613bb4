-- ===== src/Connection/Answering.antt =====
-- The default protocol in `handleRead`: every byte that is read goes to `OnMessage` once, at once and
-- in order, and what that returns goes to the peer.
use goreactor.Common.{
  ℕ, suc, ◌-◌, Bool, true, false, List, [], ◌∷◌, ◌++◌, Option, some, none, ◌≡◌, inl, inr, refl, ap,
  sym, ◌∙◌, arith,
}
use goreactor.Common.{if◌then◌else◌, ◌>>=◌, Bool-cases, length}
use mathlib.Core.List.{append-nil}
use goreactor.RingBuffer.Defs.{RingBuffer, with_data, ring_length}
use goreactor.RingBuffer.Contents.{
  contents, IsValid, length-contents, ring_length_pos, ring_length_zero,
}
use goreactor.RingBuffer.Growing.{write_lem}
use goreactor.RingBuffer.Making.{with_data_lem, length-zero}
use goreactor.Connection.Defs.{Conn, System, Closes, stream}
use goreactor.Connection.Sending.{contents-reset, send_in_loop_lem}
use goreactor.Connection.Unpacking.{Received, unpack_all, unpack_all_lem}
use goreactor.Reactor.Events.{handle_event as dispatch}
use goreactor.Connection.Serving.{
  Received as FromPeer, handle_event, put_conn, got, Side, Unpacked, Handled, append_packet,
  handler_protocol, run_protocol, send_answers, keep_input, receive_fresh, receive_more,
  handle_read,
}
use goreactor.Connection.Consuming.{Consumes, IsGood}

cons_of_append :
    (l : List ℕ) (b : ℕ) (bytes : List ℕ) → (x : ℕ) × (xs : List ℕ) × (l ++ b ∷ bytes ≡ x ∷ xs)
cons_of_append [] b bytes = (b, bytes, refl)
cons_of_append (x ∷ xs) b bytes = (x, xs ++ b ∷ bytes, refl)

-- The loop's `UserBuf`, and what `OnMessage` sees and changes.
pub record DefaultState (U : Type 0) : Type 0 where
  pub user_buf : List ℕ
  pub user : U

put_conn-empty :
    {P : Type 0} (side : Side P) (c : Conn)
    → contents side.in_buf ≡ []
    → contents (put_conn side c).in_buf ≡ []
unfolding put_conn
put_conn-empty side c e = ground (arith, e, contents-reset side.in_buf)

-- The answers go behind what the peer was sent before, unless the connection is closed.
pub send_answers_flows :
    {P : Type 0} (sys : System) (side : Side P) (out : List ℕ)
    → Closes sys
    → IsGood side
    → contents side.in_buf ≡ []
    → (side' : Side P) × (closed : Bool) × (send_answers sys side out ≡ some (side', closed))
      × (contents side'.in_buf ≡ [])
      × (side'.state ≡ side.state)
      × (stream side'.conn ≡ (if closed then stream side.conn else stream side.conn ++ out))
unfolding send_answers
send_answers_flows sys side [] can good e =
    (side, false, refl, e, refl, sym (append-nil (stream side.conn)))
send_answers_flows sys side (b ∷ out) can good e =
    let (c, closed, returns, goes) =
      send_in_loop_lem sys side.conn (b ∷ out) can good.out_valid good.armed good.live in
    (
      put_conn side c,
      closed,
      ground (arith, returns),
      put_conn-empty side c e,
      (unfold put_conn in refl),
      (unfold put_conn in goes.flows),
    )

pub emptied_lem :
    (s : RingBuffer) → IsValid s → ring_length s ≡ 0 → (s.is_empty ≡ true) × (contents s ≡ [])
emptied_lem s v h = elim (Bool-cases s.is_empty) [
  | inl e ↦ (e, length-zero (contents s) (length-contents v ∙ h))
  | inr e ↦ absurd (omega (arith, ring_length_pos v e))
]

module _ {U M : Type 0} (callback : U → List ℕ → U × Option M) (packet : M → List ℕ) where
  -- `DefaultProtocol.UnPacket`, which returns no context.
  unfoldable pub default_un_packet :
      DefaultState U → RingBuffer → Option (Unpacked (DefaultState U) ℕ)
  default_un_packet p s = unpack_all p.user_buf s >>= λ r. some (record {
    state = record p { user_buf = r.user_buf };
    ring = r.ring;
    ctx = none;
    bytes = r.bytes;
  })

  unfoldable pub default_on_message : DefaultState U → Option ℕ → List ℕ → DefaultState U × Option M
  default_on_message p ctx bytes =
      let (user, msg) = callback p.user bytes in (record p { user = user }, msg)

  abbrev run_default : ℕ → DefaultState U → RingBuffer → List ℕ → Option (Handled (DefaultState U))
  run_default = handler_protocol default_un_packet default_on_message packet

  -- One call takes everything.
  default_lem :
      (p : DefaultState U) (s : RingBuffer)
      → IsValid s
      → (r : Received) × (default_un_packet p s
          ≡ some (record {
            state = record p { user_buf = r.user_buf };
            ring = r.ring;
            ctx = none;
            bytes = contents s;
          }))
        × (contents r.ring ≡ [])
        × IsValid r.ring
        × (ring_length r.ring ≡ 0)
  unfolding default_un_packet
  default_lem p s v =
      let (r, returns, bytes, emptied, keeps) = unpack_all_lem p.user_buf s v in
      (
        r,
        rw (returns, bytes) refl,
        length-zero (contents r.ring) (length-contents keeps ∙ emptied),
        keeps,
        emptied,
      )

  -- The answer to some bytes.
  pub answer : U → List ℕ → List ℕ
  answer user bytes = append_packet packet (callback user bytes).1 []

  -- Where nothing is left, the loop stops.
  stop_lem :
      (fuel : ℕ) (p : DefaultState U) (s : RingBuffer) (out : List ℕ)
      → IsValid s
      → contents s ≡ []
      → (done : Handled (DefaultState U)) × (run_default (suc fuel) p s out ≡ some done)
        × (done.out ≡ out)
        × (done.state.user ≡ p.user)
        × IsValid done.ring
        × (ring_length done.ring ≡ 0)
  unfolding handler_protocol
  stop_lem fuel p s out v none_there =
      let (r, returns, empty, keeps, emptied) = default_lem p s v in
      (
        record { state = record p { user_buf = r.user_buf }; ring = r.ring; out = out },
        rw (returns, none_there) refl,
        refl,
        refl,
        keeps,
        emptied,
      )

  step_lem :
      (fuel : ℕ) (p : DefaultState U) (s : RingBuffer) (b : ℕ) (bytes out : List ℕ)
      → IsValid s
      → contents s ≡ b ∷ bytes
      → (r : Received) × (run_default (suc fuel) p s out
          ≡ run_default fuel
              (record { user_buf = r.user_buf; user = (callback p.user (b ∷ bytes)).0 })
              r.ring
              (append_packet packet (callback p.user (b ∷ bytes)).1 out))
        × (contents r.ring ≡ [])
        × IsValid r.ring
  unfolding handler_protocol default_on_message
  step_lem fuel p s b bytes out v there =
      let (r, returns, empty, keeps, emptied) = default_lem p s v in
      (r, rw (returns, there) (ground arith), empty, keeps)

  -- `handlerProtocol` on a buffer with bytes calls `OnMessage` once, with all of them.
  run_protocol_default :
      (p : DefaultState U) (s : RingBuffer) (b : ℕ) (bytes : List ℕ)
      → IsValid s
      → contents s ≡ b ∷ bytes
      → (done : Handled (DefaultState U)) × (run_protocol default_un_packet default_on_message
            packet p s
          ≡ some done)
        × (done.out ≡ answer p.user (b ∷ bytes))
        × (done.state.user ≡ (callback p.user (b ∷ bytes)).0)
        × IsValid done.ring
        × (ring_length done.ring ≡ 0)
  unfolding run_protocol answer
  run_protocol_default p s b bytes v there =
      let (r, steps, empty, keeps) = step_lem (ring_length s) p s b bytes [] v there in
      let n = ring_length s - 1 in
      let (done, stops, out, user, keeps', emptied) =
        stop_lem n (record { user_buf = r.user_buf; user = (callback p.user (b ∷ bytes)).0 }) r.ring
          (append_packet packet (callback p.user (b ∷ bytes)).1 []) keeps empty in
      let some_fuel : ring_length s ≡ suc n = omega (arith, length-contents v, ap length there) in
      (
        done,
        steps
            ∙ ap
                (λ k.
                  run_default k
                    (record { user_buf = r.user_buf; user = (callback p.user (b ∷ bytes)).0 })
                    r.ring (append_packet packet (callback p.user (b ∷ bytes)).1 []))
                some_fuel
            ∙ stops,
        out,
        user,
        keeps',
        emptied,
      )

  -- The connection after an answer: everything that waited in the input buffer and what was read
  -- were handed over together, nothing is left, and the peer gets the answer after what it was
  -- sent before, if the connection is not closed.
  pub record Answers (side : Side (DefaultState U)) (bytes : List ℕ) (side' : Side (DefaultState U))
      (closed : Bool) : Type 0 where
    pub emptied : contents side'.in_buf ≡ []
    pub seen : side'.state.user ≡ (callback side.state.user (contents side.in_buf ++ bytes)).0
    pub flows : stream side'.conn ≡ (
        if closed
        then stream side.conn
        else stream side.conn ++ answer side.state.user (contents side.in_buf ++ bytes))

  -- handleRead on bytes, with the default protocol, on a live connection with valid buffers, reported as writable
  -- exactly when bytes wait, does not end the process, whatever unix.Write does, if the calls that close a connection
  -- do not fail: what waited in the input buffer and what was read go to OnMessage together, in one call, nothing is
  -- left in the input buffer, and the peer gets the answer behind what it was sent before, unless the connection is
  -- closed.
  pub handle_read_default :
      (sys : System) (side : Side (DefaultState U)) (b : ℕ) (bytes : List ℕ)
      → Closes sys
      → IsGood side
      → (side' : Side (DefaultState U)) × (closed : Bool) × (handle_read default_un_packet
            default_on_message packet sys
            (got (b ∷ bytes))
            side
          ≡ some (side', closed))
        × Answers side (b ∷ bytes) side' closed
  unfolding handle_read receive_fresh receive_more keep_input
  handle_read_default sys side b bytes can good = elim (Bool-cases side.in_buf.is_empty) [
    | inl e ↦
        let none_held : contents side.in_buf ≡ [] =
          length-zero (contents side.in_buf)
            (length-contents good.in_valid ∙ ring_length_zero good.in_valid e) in
        let (fresh, _, holds, _, _) = with_data_lem side.buf (b ∷ bytes) (omega arith) in
        let (done, runs, out, user, keeps, emptied) =
          run_protocol_default side.state (with_data side.buf (b ∷ bytes)) b bytes fresh holds in
        let (last, closed, sends, empty, same, flows) =
          send_answers_flows sys (record side { state = done.state; buf = done.ring }) done.out can
            (record {
              in_valid = good.in_valid;
              out_valid = good.out_valid;
              armed = good.armed;
              live = good.live;
            })
            none_held in
        (
          last,
          closed,
          ground (arith, runs, (emptied_lem done.ring keeps emptied).0, sends),
          record {
            emptied = empty;
            seen =
                ap (λ x. x.user) same
                ∙ user
                ∙ ap (λ l. (callback side.state.user (l ++ b ∷ bytes)).0) (sym none_held);
            flows =
                flows
                ∙ ap (λ l. if closed then stream side.conn else stream side.conn ++ l)
                    (out ∙ ap (λ l. answer side.state.user (l ++ b ∷ bytes)) (sym none_held));
          },
        )
    | inr e ↦
        let (t, written, appends) = write_lem side.in_buf (b ∷ bytes) good.in_valid in
        let (x, xs, cons) = cons_of_append (contents side.in_buf) b bytes in
        let (done, runs, out, user, keeps, emptied) =
          run_protocol_default side.state t x xs appends.keeps (appends.bytes ∙ cons) in
        let (last, closed, sends, empty, same, flows) =
          send_answers_flows sys (record side { state = done.state; in_buf = done.ring }) done.out
            can
            (record {
              in_valid = keeps;
              out_valid = good.out_valid;
              armed = good.armed;
              live = good.live;
            })
            (emptied_lem done.ring keeps emptied).1 in
        (
          last,
          closed,
          ground (arith, written, runs, sends),
          record {
            emptied = empty;
            seen =
                ap (λ y. y.user) same ∙ user ∙ ap (λ l. (callback side.state.user l).0) (sym cons);
            flows =
                flows
                ∙ ap (λ l. if closed then stream side.conn else stream side.conn ++ l)
                    (out ∙ ap (answer side.state.user) (sym cons));
          },
        )
  ]

  -- The default protocol takes a byte or more for each message.
  pub default-Consumes : Consumes default_un_packet
  default-Consumes = record {
    unpacked = λ p s v. record {
      state = record p { user_buf = (default_lem p s v).0.user_buf };
      ring = (default_lem p s v).0.ring;
      ctx = none;
      bytes = contents s;
    };
    returns = λ p s v. (default_lem p s v).1;
    keeps = λ p s v. (default_lem p s v).3;
    shrinks = λ p s v. ground (arith, ap length (default_lem p s v).2);
  }
