-- ===== src/Websocket/Protocol/Answering.antt =====
-- `handleRead` of connection.go on an upgraded WebSocket connection: the frames that came in are answered.
use goreactor.Common.{
  ℕ, ◌≤◌, Bool, List, [], ◌∷◌, ◌++◌, Option, some, ◌≡◌, inl, inr, ap, sym, ◌∙◌, arith,
}
use goreactor.Common.{if◌then◌else◌, Bool-cases, length}
use goreactor.RingBuffer.Defs.{with_data}
use goreactor.RingBuffer.Contents.{contents, IsSettled, length-contents, ring_length_zero}
use goreactor.RingBuffer.Growing.{write_lem, write-IsSettled}
use goreactor.RingBuffer.Making.{with_data_lem, length-zero}
use goreactor.Connection.Defs.{System, Closes, stream}
use goreactor.Connection.Serving.{got, Side, handle_read, receive_fresh, receive_more, keep_input}
use goreactor.Connection.Consuming.{IsGood}
use goreactor.Connection.Answering.{emptied_lem, send_answers_flows}
use goreactor.Websocket.Frame.Defs.{Header}
use goreactor.Websocket.Protocol.Defs.{packet}
use goreactor.Websocket.Protocol.Serving.{
  Upgraded, AreClientFrames, encoded, un_packet_frames, on_frame, answered, run_protocol_frames,
}

module _ {U : Type 0} (callback : U → Option Header → List ℕ → U × Option (List ℕ)) where
  -- The connection after some frames: all were handed to the callback, nothing is left of them, and
  -- the peer gets the answers behind what it was sent before, unless the connection is closed.
  pub record AnswersFrames (fs : List (Header × List ℕ)) (side side' : Side (Upgraded U))
      (closed : Bool) : Type 0 where
    pub emptied : contents side'.in_buf ≡ []
    pub seen : side'.state.user ≡ (answered callback fs side.state.user []).0
    pub flows : stream side'.conn ≡ (
        if closed
        then stream side.conn
        else stream side.conn ++ (answered callback fs side.state.user []).1)

  -- handleRead on bytes, on a live and upgraded WebSocket connection in order, with a slice for headers of twelve bytes
  -- or more and no session open in the input buffer, where what waited there and what was read are together whole
  -- frames of a client, each masked, with a payload and with a header whose fields are in their ranges: it does not end
  -- the process, whatever unix.Write does, if the calls that close a connection do not fail; the header and the plain
  -- payload of each frame go to OnMessage, once and in order, nothing is left in the input buffer, and the peer gets
  -- the answers, in order, behind what it was sent before, unless the connection is closed.
  pub handle_read_frames :
      (sys : System) (side : Side (Upgraded U)) (fs : List (Header × List ℕ)) (b : ℕ)
      (bytes : List ℕ)
      → Closes sys
      → IsGood side
      → IsSettled side.in_buf
      → 12 ≤ length side.state.scratch
      → AreClientFrames fs
      → contents side.in_buf ++ b ∷ bytes ≡ encoded fs []
      → (side' : Side (Upgraded U)) × (closed : Bool) × (handle_read
            (un_packet_frames callback)
            (on_frame callback)
            packet
            sys
            (got (b ∷ bytes))
            side
          ≡ some (side', closed))
        × AnswersFrames fs side side' closed
  unfolding handle_read receive_fresh receive_more keep_input
  handle_read_frames sys side fs b bytes can good settled room are holds =
      elim (Bool-cases side.in_buf.is_empty) [
        | inl e ↦
            let none_held : contents side.in_buf ≡ [] =
              length-zero (contents side.in_buf)
                (length-contents good.in_valid ∙ ring_length_zero good.in_valid e) in
            let (fresh, rested, there, _, _) = with_data_lem side.buf (b ∷ bytes) (omega arith) in
            let (done, runs, serves) =
              run_protocol_frames callback fs [] side.state (with_data side.buf (b ∷ bytes)) are
                (omega arith) fresh rested room
                (there ∙ ap (λ l. l ++ b ∷ bytes) (sym none_held) ∙ holds) in
            let nothing = ap (λ (l : List ℕ). length l) serves.left in
            let end =
              emptied_lem done.ring serves.keeps
                (omega (arith, nothing, length-contents serves.keeps)) in
            let (last, closed, sends, empty, same, flows) =
              send_answers_flows sys (record side { state = done.state; buf = done.ring }) done.out
                can
                (record {
                  in_valid = good.in_valid;
                  out_valid = good.out_valid;
                  armed = good.armed;
                  live = good.live;
                })
                none_held in
            (
              last,
              closed,
              ground (arith, runs, end.0, sends),
              record {
                emptied = empty;
                seen = ap (λ y. y.user) same ∙ ap (λ y. y.0) serves.results;
                flows =
                    flows
                    ∙ ap
                        (λ (y : U × List ℕ).
                          if closed then stream side.conn else stream side.conn ++ y.1)
                        serves.results;
              },
            )
        | inr e ↦
            let (t, written, appends) = write_lem side.in_buf (b ∷ bytes) good.in_valid in
            let (done, runs, serves) =
              run_protocol_frames callback fs [] side.state t are (omega arith) appends.keeps
                (write-IsSettled side.in_buf (b ∷ bytes) (length (b ∷ bytes)) t good.in_valid
                  settled written)
                room (appends.bytes ∙ holds) in
            let (last, closed, sends, empty, same, flows) =
              send_answers_flows sys (record side { state = done.state; in_buf = done.ring })
                done.out can
                (record {
                  in_valid = serves.keeps;
                  out_valid = good.out_valid;
                  armed = good.armed;
                  live = good.live;
                })
                serves.left in
            (
              last,
              closed,
              ground (arith, written, runs, sends),
              record {
                emptied = empty;
                seen = ap (λ y. y.user) same ∙ ap (λ y. y.0) serves.results;
                flows =
                    flows
                    ∙ ap
                        (λ (y : U × List ℕ).
                          if closed then stream side.conn else stream side.conn ++ y.1)
                        serves.results;
              },
            )
      ]
