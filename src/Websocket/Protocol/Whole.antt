-- ===== src/Websocket/Protocol/Whole.antt =====
-- `UnPacket` on a whole frame, on the beginning of one, and on too few bytes.
use goreactor.Common.{ℕ, ◌≤◌, ◌<◌, List, ◌++◌, some, ◌≡◌, refl, ap, ◌∙◌, arith}
use goreactor.Common.{length, lt→leb_false}
use goreactor.RingBuffer.Defs.{RingBuffer, ring_length, virtual_length, virtual_revert}
use goreactor.RingBuffer.Contents.{contents, IsValid, IsSettled}
use goreactor.RingBuffer.Writing.{length-virtual_contents}
use goreactor.RingBuffer.Virtual.{virtual_revert_lem}
use goreactor.Websocket.Frame.Defs.{Header, write_header, virtual_read_header}
use goreactor.Websocket.Frame.RoundTrip.{
  IsWire, virtual_read_header-write_header, length-write_header,
}
use goreactor.Websocket.Cipher.Words.{AreBytes}
use goreactor.Websocket.Protocol.Defs.{waits, frame, Unpacked, after_header, unpack_frame}
use goreactor.Websocket.Protocol.Frames.{on_wire, Unpacks, virtual_contents_settled, after_whole}

-- UnPacket inverts the encoding of a frame: where a valid buffer, with no session open, begins
-- with the bytes of a header, whose fields are in their ranges, of its payload (masked where the
-- header says so) and of whatever follows, six bytes or more in all and at least one behind the
-- header, it returns, given a slice for headers of twelve bytes or more, that header and the plain
-- payload and leaves exactly what follows in a valid buffer with no session open, without a panic.
pub unpack_frame-whole :
    (h : Header) (payload rest scratch : List ℕ) (s : RingBuffer)
    → IsWire h
    → length payload ≡ h.len
    → AreBytes payload
    → AreBytes h.mask
    → IsValid s
    → IsSettled s
    → 12 ≤ length scratch
    → contents s ≡ (write_header h).0 ++ (on_wire h payload ++ rest)
    → 6 ≤ ring_length s
    → 0 < length (on_wire h payload ++ rest)
    → (got : Unpacked) × (unpack_frame scratch s ≡ some got) × Unpacks (frame h payload) rest got
unpack_frame-whole h payload rest scratch s w size bytes mask_bytes v settled room holds six more =
    let (read, returns, reads) =
      virtual_read_header-write_header h s scratch (on_wire h payload ++ rest) w v room
        (virtual_contents_settled s settled ∙ holds) six more in
    let (out, unpacked, unpacks) =
      after_whole h w payload size bytes mask_bytes s scratch v settled room rest read holds
        (omega (arith, length-write_header h w)) reads in
    (out, (unfold unpack_frame in rw returns unpacked), unpacks)

-- While the payload is not all there, though some of it is, `UnPacket` returns nothing and leaves
-- every byte in the buffer and no session open.
pub unpack_frame-part :
    (h : Header) (part scratch : List ℕ) (s : RingBuffer)
    → IsWire h
    → 0 < length part
    → length part < h.len
    → IsValid s
    → IsSettled s
    → 12 ≤ length scratch
    → contents s ≡ (write_header h).0 ++ part
    → 6 ≤ ring_length s
    → (got : Unpacked) × (unpack_frame scratch s ≡ some got)
      × Unpacks waits ((write_header h).0 ++ part) got
      × IsSettled got.ring
unpack_frame-part h part scratch s w some_there short v settled room holds six =
    let (read, returns, reads) =
      virtual_read_header-write_header h s scratch part w v room
        (virtual_contents_settled s settled ∙ holds) six some_there in
    let (same, again, closed, keeps) = virtual_revert_lem read.ring reads.keeps in
    let missing : virtual_length read.ring < h.len =
      omega
        (arith, length-virtual_contents reads.keeps, ap (λ (l : List ℕ). length l) reads.remains) in
    (
      record { outcome = waits; ring = virtual_revert read.ring; scratch = read.scratch },
      (unfold unpack_frame after_header in
          rw
            (
              returns,
              reads.error,
              after_header,
              reads.decodes,
              lt→leb_false h.len (virtual_length read.ring) missing,
            )
            refl),
      record {
        same = refl;
        holds = same ∙ reads.same ∙ holds;
        keeps = keeps;
        settled = closed;
        room = reads.room;
      },
      closed,
    )

-- On fewer than six bytes `UnPacket` returns nothing and changes nothing, even where they are a
-- whole frame, as a two-byte one without mask and payload is.
pub unpack_frame-few :
    (scratch : List ℕ) (s : RingBuffer)
    → ring_length s < 6
    → unpack_frame scratch s ≡ some (record { outcome = waits; ring = s; scratch = scratch })
unfolding unpack_frame virtual_read_header after_header
unpack_frame-few scratch s few = ground arith
