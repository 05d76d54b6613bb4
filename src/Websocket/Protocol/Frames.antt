-- ===== src/Websocket/Protocol/Frames.antt =====
-- What `UnPacket` takes out of a buffer that holds a frame, or the beginning of one.
use goreactor.Common.{ℕ, ◌+◌, ◌≤◌, ◌<◌, List, ◌++◌, some, ◌≡◌, ◌≢◌, inr, refl, ap, ◌∙◌, sym, arith}
use goreactor.Common.{if◌then◌else◌, length, take, drop, replicate, splice, le→leb}
use goreactor.Common.{
  length-append, length-replicate, take-append_left, drop-append_left, overwrite_full,
}
use goreactor.RingBuffer.Defs.{
  RingBuffer, ReadResult, ring_length, virtual_length, virtual_flush, read,
}
use goreactor.RingBuffer.Contents.{contents, virtual_contents, IsValid, IsSettled, length-contents}
use goreactor.RingBuffer.Reading.{read_lem, read-IsSettled}
use goreactor.RingBuffer.Writing.{length-virtual_contents}
use goreactor.RingBuffer.Virtual.{virtual_flush_lem}
use goreactor.Websocket.Frame.Defs.{Header, HeaderResult, write_header}
use goreactor.Websocket.Frame.Reading.{ReadsHeader}
use goreactor.Websocket.Frame.RoundTrip.{IsWire}
use goreactor.Websocket.Cipher.Defs.{cipher}
use goreactor.Websocket.Cipher.Words.{AreBytes}
use goreactor.Websocket.Cipher.Laws.{mask_from, cipher-masked, length-mask_from}
use goreactor.Websocket.Protocol.Defs.{Outcome, frame, Unpacked, take_payload, after_header}

-- The payload as it goes over the wire.
abbrev pub on_wire : Header → List ℕ → List ℕ
on_wire h payload = if h.masked then mask_from h.mask 0 payload else payload

-- On a settled buffer the virtual reader sees what the reader sees.
pub virtual_contents_settled : (s : RingBuffer) → IsSettled s → virtual_contents s ≡ contents s
unfolding contents virtual_contents virtual_length ring_length
virtual_contents_settled s h = rw h

behind : {s : RingBuffer} → IsValid s → virtual_length s < ring_length s → s.vr ≢ s.r
unfolding virtual_length ring_length
behind v h = ground arith

-- `Read` of a known prefix into a slice of its length.
read_prefix :
    (s : RingBuffer) (n : ℕ) (front rest : List ℕ)
    → IsValid s
    → contents s ≡ front ++ rest
    → n ≡ length front
    → (out : ReadResult) × (read s (replicate n 0) ≡ some out)
      × (out.p ≡ front)
      × (contents out.ring ≡ rest)
      × IsValid out.ring
      × (IsSettled s → IsSettled out.ring)
read_prefix s n front rest v holds e =
    let (out, returns, reads) = read_lem s (replicate n 0) v in
    let total : length (contents s) ≡ length front + length rest =
      ap (λ (l : List ℕ). length l) holds ∙ length-append front rest in
    let all : out.n ≡ n = omega (arith, reads.count, length-replicate {A = ℕ} n 0) in
    let prefix : take out.n (contents s) ≡ front =
      ap (λ l. take out.n l) holds ∙ take-append_left out.n front rest (omega arith) in
    (
      out,
      returns,
      reads.bytes
          ∙ ap (λ l. splice (replicate n 0) 0 l) prefix
          ∙ overwrite_full (replicate n 0) front (omega (arith, length-replicate {A = ℕ} n 0)),
      reads.rest ∙ ap (λ l. drop out.n l) holds ∙ drop-append_left out.n front rest (omega arith),
      reads.keeps,
      (λ settled. read-IsSettled s (replicate n 0) out v settled returns),
    )

-- What `UnPacket` leaves: its outcome, and a valid buffer with these contents and no session open.
pub record Unpacks (outcome : Outcome) (left : List ℕ) (got : Unpacked) : Type 0 where
  pub same : got.outcome ≡ outcome
  pub holds : contents got.ring ≡ left
  pub keeps : IsValid got.ring
  pub settled : IsSettled got.ring
  pub room : 12 ≤ length got.scratch

module _ (h : Header) (w : IsWire h) (payload : List ℕ) (size : length payload ≡ h.len)
    (bytes : AreBytes payload) (mask_bytes : AreBytes h.mask) where
  length-on_wire : length (on_wire h payload) ≡ h.len
  length-on_wire = ground (arith, size, length-mask_from h.mask 0 payload)

  unmasks :
      (if h.masked then cipher h.mask 0 (on_wire h payload) else some (on_wire h payload))
      ≡ some payload
  unmasks = ground (arith, cipher-masked h.mask payload w.mask_size mask_bytes bytes)

  -- From the header on: flush, read and unmask.
  take_payload_lem :
      (scratch rest : List ℕ) (t : RingBuffer)
      → IsValid t
      → t.vr ≢ t.r
      → virtual_contents t ≡ on_wire h payload ++ rest
      → 12 ≤ length scratch
      → (got : Unpacked) × (take_payload h scratch t ≡ some got)
        × Unpacks (frame h payload) rest got
  take_payload_lem scratch rest t v moved holds room =
      let (flushed, settled, valid) = virtual_flush_lem t v (inr moved) in
      let (out, returns, front, left, keeps, again) =
        read_prefix (virtual_flush t) h.len (on_wire h payload) rest valid (flushed ∙ holds)
          (sym length-on_wire) in
      (
        record { outcome = frame h payload; ring = out.ring; scratch = scratch },
        (unfold take_payload in ground (arith, returns, front, unmasks)),
        record { same = refl; holds = left; keeps = keeps; settled = again settled; room = room },
      )

  module _ (s : RingBuffer) (scratch : List ℕ) (v : IsValid s) (settled : IsSettled s)
      (room : 12 ≤ length scratch) where
    header_moves :
        (t : RingBuffer) (left : List ℕ)
        → contents s ≡ (write_header h).0 ++ left
        → 0 < length (write_header h).0
        → IsValid t
        → contents t ≡ contents s
        → virtual_contents t ≡ left
        → t.vr ≢ t.r
    header_moves t left holds some_header keeps same remains = behind keeps (
        omega (
          arith,
          length-contents keeps,
          length-virtual_contents keeps,
          ap (λ (l : List ℕ). length l) same,
          ap (λ (l : List ℕ). length l) remains,
          ap (λ (l : List ℕ). length l) holds,
          length-append (write_header h).0 left,
        ))

    pub after_whole :
        (rest : List ℕ) (got : HeaderResult)
        → contents s ≡ (write_header h).0 ++ (on_wire h payload ++ rest)
        → 0 < length (write_header h).0
        → ReadsHeader s h (on_wire h payload ++ rest) got
        → (out : Unpacked) × (after_header got.err got ≡ some out)
          × Unpacks (frame h payload) rest out
    after_whole rest got holds some_header reads =
        let moved =
          header_moves got.ring (on_wire h payload ++ rest) holds some_header reads.keeps reads.same
            reads.remains in
        let (out, returns, unpacks) =
          take_payload_lem got.scratch rest got.ring reads.keeps moved reads.remains reads.room in
        let there : h.len ≤ virtual_length got.ring = omega (
          arith,
          length-virtual_contents reads.keeps,
          ap (λ (l : List ℕ). length l) reads.remains,
          length-append (on_wire h payload) rest,
          length-on_wire,
        ) in
        (
          out,
          (unfold after_header in
              rw
                (
                  reads.error,
                  after_header,
                  reads.decodes,
                  le→leb h.len (virtual_length got.ring) there,
                )
                returns),
          unpacks,
        )
