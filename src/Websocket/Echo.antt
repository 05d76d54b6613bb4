-- ===== src/Websocket/Echo.antt =====
-- What `OnMessage` of plugins/websocket/wrap.go answers to a ping, read back by `UnPacket`.
use goreactor.Common.{
  ℕ, ◌≤◌, ◌<◌, Bool, true, false, List, [], ◌∷◌, ◌++◌, Option, some, ◌≡◌, refl, ap, sym, ◌∙◌, arith,
}
use goreactor.Common.{length, length-append}
use mathlib.Core.List.{append_assoc}
use goreactor.RingBuffer.Defs.{RingBuffer}
use goreactor.RingBuffer.Contents.{contents, IsValid, IsSettled, length-contents}
use goreactor.Websocket.Cipher.Words.{AreBytes}
use goreactor.Websocket.Frame.Codes.{op_ping, op_pong, is_control}
use goreactor.Websocket.Frame.Defs.{
  Header, nil, len64, new_frame, new_pong_frame, write_header, length_bytes, frame_to_bytes,
}
use goreactor.Websocket.Frame.RoundTrip.{IsWire, length-write_header}
use goreactor.Websocket.Replies.Defs.{MessageType, handle_ping}
use goreactor.Websocket.Protocol.Defs.{Unpacked, frame, unpack_frame}
use goreactor.Websocket.Protocol.Frames.{Unpacks}
use goreactor.Websocket.Protocol.Whole.{unpack_frame-whole}
use goreactor.Websocket.Handler.{Reply, sends, or_fatal, on_control, on_message}

-- The bytes that a reply sends.
abbrev pub sent : Option Reply → List ℕ
sent (some (sends out shut)) = out
sent _ = []

new_frame-IsWire :
    (op : ℕ) (payload : List ℕ)
    → op < 16
    → length payload ≤ len64
    → IsWire (new_frame op true payload).header
unfolding new_frame
new_frame-IsWire op payload code size = ground arith

write_header-nil : (h : Header) → h.len ≤ len64 → (write_header h).1 ≡ nil
unfolding write_header length_bytes
write_header-nil h size = ground arith

no_mask-AreBytes : AreBytes (0 ∷ 0 ∷ 0 ∷ 0 ∷ [])
no_mask-AreBytes = ground arith

unpack_frame-frame_to_bytes :
    (op : ℕ) (payload rest scratch : List ℕ) (s : RingBuffer)
    → op < 16
    → 4 ≤ length payload
    → length payload ≤ len64
    → AreBytes payload
    → IsValid s
    → IsSettled s
    → 12 ≤ length scratch
    → contents s ≡ (frame_to_bytes (new_frame op true payload)).0 ++ rest
    → (got : Unpacked) × (unpack_frame scratch s ≡ some got)
      × Unpacks (frame (new_frame op true payload).header payload) rest got
unfolding frame_to_bytes new_frame
unpack_frame-frame_to_bytes op payload rest scratch s code some_there size bytes v settled room
      holds =
    let h = (new_frame op true payload).header in
    let w = new_frame-IsWire op payload code size in
    let there : contents s ≡ (write_header h).0 ++ (payload ++ rest) =
      holds ∙ append_assoc (write_header h).0 payload rest in
    let more = length-append payload rest in
    unpack_frame-whole h payload rest scratch s w refl bytes no_mask-AreBytes v settled room there
      (omega (
        arith,
        length-contents v,
        ap (λ (l : List ℕ). length l) there,
        length-append (write_header h).0 (payload ++ rest),
        more,
        length-write_header h w,
      ))
      (omega (arith, more))

module _ (valid_utf8 : List ℕ → Bool) (handler : List ℕ → MessageType × List ℕ) where
  -- OnMessage on a ping with a payload of four bytes or more sends a frame that UnPacket reads back from any valid
  -- buffer with no session open that begins with it, given a slice for headers of twelve bytes or more: a pong, whole
  -- and not masked, with the same payload; what is behind it stays in a valid buffer with no session open.
  pub unpack_frame-on_message :
      (header : Header) (payload rest scratch : List ℕ) (s : RingBuffer)
      → header.op_code ≡ op_ping
      → 4 ≤ length payload
      → length payload ≤ len64
      → AreBytes payload
      → IsValid s
      → IsSettled s
      → 12 ≤ length scratch
      → contents s ≡ sent (on_message valid_utf8 handler (some header) payload) ++ rest
      → (on_message valid_utf8 handler (some header) payload
          ≡ some (sends (sent (on_message valid_utf8 handler (some header) payload)) false))
        × ((got : Unpacked) × (unpack_frame scratch s ≡ some got)
            × Unpacks (frame (new_pong_frame payload).header payload) rest got)
  unfolding on_message
  unpack_frame-on_message header payload rest scratch s ping some_there size bytes v settled room
        holds =
      let no_error : (write_header (new_pong_frame payload).header).1 ≡ nil =
        write_header-nil (new_pong_frame payload).header
          (unfold new_pong_frame new_frame in size) in
      let replies : on_message valid_utf8 handler (some header) payload
          ≡ some (sends (frame_to_bytes (new_pong_frame payload)).0 false) =
        (unfold is_control on_control handle_ping or_fatal frame_to_bytes in
          rw (ping, no_error) refl) in
      (
        replies ∙ ap (λ o. some (sends (sent o) false)) (sym replies),
        (unfold new_pong_frame in
            unpack_frame-frame_to_bytes op_pong payload rest scratch s (omega arith) some_there size
              bytes v settled room (holds ∙ ap (λ o. sent o ++ rest) replies)),
      )
