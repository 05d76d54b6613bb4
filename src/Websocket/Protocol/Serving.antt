-- ===== src/Websocket/Protocol/Serving.antt =====
-- `handlerProtocol` of connection.go with `UnPacket` of plugins/websocket/protocol.go on a connection that is
-- upgraded: the frames that one read brought.
use goreactor.Common.{
  ℕ, zero, suc, ◌+◌, ◌≤◌, ◌<◌, true, List, [], ◌∷◌, ◌++◌, Option, none, some, ◌≡◌, refl, ap, arith,
}
use goreactor.Common.{◌>>=◌, length, length-append}
use native.Mathlib.Decide.{dec_le}
use goreactor.RingBuffer.Defs.{RingBuffer, ring_length}
use goreactor.RingBuffer.Contents.{contents, IsValid, IsSettled, length-contents}
use goreactor.Websocket.Frame.Defs.{Header, write_header, length_bytes}
use goreactor.Websocket.Frame.RoundTrip.{IsWire}
use goreactor.Websocket.Cipher.Words.{AreBytes}
use goreactor.Websocket.Cipher.Laws.{length-mask_from}
use goreactor.Websocket.Protocol.Defs.{
  Outcome, fatal, waits, frame, handshake, packet, unpack_frame,
}
use goreactor.Websocket.Protocol.Frames.{on_wire}
use goreactor.Websocket.Protocol.Whole.{unpack_frame-whole, unpack_frame-few}
use goreactor.Connection.Serving.{Unpacked, Handled, append_packet, handler_protocol, run_protocol}

-- The slice for headers, and what the callback sees and changes of the connection.
pub record Upgraded (U : Type 0) : Type 0 where
  pub scratch : List ℕ
  pub user : U

-- The two results of `UnPacket`; `none` is log.Fatal.
unfoldable pub results : Outcome → Option (Option Header × List ℕ)
results fatal = none
results waits = some (none, [])
results (frame h payload) = some (some h, payload)
results (handshake out) = some (none, out)

-- A frame of a client: masked, and with a payload.
pub record IsClientFrame (h : Header) (payload : List ℕ) : Type 0 where
  pub wire : IsWire h
  pub masked : h.masked ≡ true
  pub size : length payload ≡ h.len
  pub some_payload : 0 < h.len
  pub bytes : AreBytes payload
  pub mask_bytes : AreBytes h.mask

abbrev pub AreClientFrames : List (Header × List ℕ) → Type 0
AreClientFrames [] = Unit {0}
AreClientFrames ((h, payload) ∷ fs) = IsClientFrame h payload × AreClientFrames fs

-- The bytes of some frames, with others behind them.
unfoldable pub encoded : List (Header × List ℕ) → List ℕ → List ℕ
encoded [] rest = rest
encoded ((h, payload) ∷ fs) rest = (write_header h).0 ++ (on_wire h payload ++ encoded fs rest)

length-masked_header : (h : Header) → IsWire h → h.masked ≡ true → 6 ≤ length (write_header h).0
length-masked_header h w masked = elim (dec_le h.len 125) [
  | yes l ↦ unfold write_header length_bytes in ground (arith, w.mask_size)
  | no l ↦ elim (dec_le h.len 65535) [
    | yes k ↦ unfold write_header length_bytes in ground (arith, w.mask_size)
    | no k ↦ unfold write_header length_bytes in ground (arith, w.len_in, w.mask_size)
  ]
]

-- A frame of a client has seven bytes or more, of which the header is not the last.
length-client_frame :
    (h : Header) (payload rest : List ℕ)
    → IsClientFrame h payload
    → (7 + length rest ≤ length ((write_header h).0 ++ (on_wire h payload ++ rest)))
      × (0 < length (on_wire h payload ++ rest))
length-client_frame h payload rest one =
    let whole = length-append (write_header h).0 (on_wire h payload ++ rest) in
    let behind = length-append (on_wire h payload) rest in
    let long = length-masked_header h one.wire one.masked in
    let same : length (on_wire h payload) ≡ h.len =
      ground (arith, one.masked, one.size, length-mask_from h.mask 0 payload) in
    (omega (arith, one.some_payload), omega (arith, one.some_payload))

length-encoded :
    (fs : List (Header × List ℕ)) (rest : List ℕ)
    → AreClientFrames fs
    → length fs ≤ length (encoded fs rest)
unfolding encoded
length-encoded [] rest are = omega arith
length-encoded ((h, payload) ∷ fs) rest (one, are) =
    omega
      (arith, length-encoded fs rest are, (length-client_frame h payload (encoded fs rest) one).0)

module _ {U : Type 0} (callback : U → Option Header → List ℕ → U × Option (List ℕ)) where
  -- `UnPacket` on a connection that is upgraded.
  unfoldable pub un_packet_frames : Upgraded U → RingBuffer → Option (Unpacked (Upgraded U) Header)
  un_packet_frames p s = do
    got ← unpack_frame p.scratch s
    (ctx, bytes) ← results got.outcome
    some (record {
      state = record p { scratch = got.scratch };
      ring = got.ring;
      ctx = ctx;
      bytes = bytes;
    })

  -- `OnMessage`
  unfoldable pub on_frame : Upgraded U → Option Header → List ℕ → Upgraded U × Option (List ℕ)
  on_frame p ctx bytes =
      let (user, msg) = callback p.user ctx bytes in (record p { user = user }, msg)

  -- The callback on each frame in turn: what it leaves, and the answers behind those before.
  unfoldable pub answered : List (Header × List ℕ) → U → List ℕ → U × List ℕ
  answered [] user out = (user, out)
  answered ((h, payload) ∷ fs) user out =
      let (user', msg) = callback user (some h) payload in
      answered fs user' (append_packet packet msg out)

  -- What `handlerProtocol` leaves.
  pub record Serves (fs : List (Header × List ℕ)) (rest : List ℕ) (user : U) (out : List ℕ)
      (done : Handled (Upgraded U)) : Type 0 where
    pub results : (done.state.user, done.out) ≡ answered fs user out
    pub left : contents done.ring ≡ rest
    pub keeps : IsValid done.ring
    pub settled : IsSettled done.ring
    pub room : 12 ≤ length done.state.scratch

  handler_protocol_frames :
      (fs : List (Header × List ℕ)) (rest : List ℕ) (fuel : ℕ) (p : Upgraded U) (s : RingBuffer)
      (out : List ℕ)
      → AreClientFrames fs
      → length rest < 6
      → length fs < fuel
      → IsValid s
      → IsSettled s
      → 12 ≤ length p.scratch
      → contents s ≡ encoded fs rest
      → (done : Handled (Upgraded U)) × (handler_protocol un_packet_frames on_frame packet fuel p s
            out
          ≡ some done)
        × Serves fs rest p.user out done
  unfolding handler_protocol encoded answered un_packet_frames results on_frame
  handler_protocol_frames fs rest zero p s out are few fuel v settled room holds =
      absurd (omega arith)
  handler_protocol_frames [] rest (suc fuel) p s out are few enough v settled room holds = (
    record { state = p; ring = s; out = out },
    rw
        (unpack_frame-few p.scratch s
          (omega (arith, length-contents v, ap (λ (l : List ℕ). length l) holds)))
        refl,
    record { results = refl; left = holds; keeps = v; settled = settled; room = room },
  )
  handler_protocol_frames ((h, payload) ∷ fs) rest (suc fuel) p s out (one, are) few enough v
        settled room holds =
      let (long, more) = length-client_frame h payload (encoded fs rest) one in
      let (got, returns, takes) =
        unpack_frame-whole h payload (encoded fs rest) p.scratch s one.wire one.size one.bytes
          one.mask_bytes v settled room holds
          (omega (arith, length-contents v, ap (λ (l : List ℕ). length l) holds)) more in
      let (user, msg) = callback p.user (some h) payload in
      let (done, ends, serves) =
        handler_protocol_frames fs rest fuel (record { scratch = got.scratch; user = user })
          got.ring (append_packet packet msg out) are few (omega arith) takes.keeps takes.settled
          takes.room takes.holds in
      (
        done,
        rw (returns, takes.same) ends,
        record {
          results = serves.results;
          left = serves.left;
          keeps = serves.keeps;
          settled = serves.settled;
          room = serves.room;
        },
      )

  -- handlerProtocol on an upgraded WebSocket connection, with a slice for headers of twelve bytes or more, and a valid
  -- buffer with no session open that holds whole frames of a client, each masked, with a payload and with a header
  -- whose fields are in their ranges, and fewer than six bytes behind them: it ends without a panic, hands the header
  -- and the plain payload of each frame to OnMessage, once and in order, collects the answers in order, and leaves the
  -- bytes behind the frames in a valid buffer with no session open.
  pub run_protocol_frames :
      (fs : List (Header × List ℕ)) (rest : List ℕ) (p : Upgraded U) (s : RingBuffer)
      → AreClientFrames fs
      → length rest < 6
      → IsValid s
      → IsSettled s
      → 12 ≤ length p.scratch
      → contents s ≡ encoded fs rest
      → (done : Handled (Upgraded U)) × (run_protocol un_packet_frames on_frame packet p s
          ≡ some done)
        × Serves fs rest p.user [] done
  unfolding run_protocol
  run_protocol_frames fs rest p s are few v settled room holds =
      handler_protocol_frames fs rest (suc (ring_length s)) p s [] are few
        (omega (
          arith,
          length-contents v,
          ap (λ (l : List ℕ). length l) holds,
          length-encoded fs rest are,
        ))
        v settled room holds
