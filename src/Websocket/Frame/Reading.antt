-- ===== src/Websocket/Frame/Reading.antt =====
-- `VirtualReadHeader` on a buffer in which bytes remain behind the header.
use goreactor.Common.{ℕ, ◌+◌, ◌-◌, ◌≤◌, ◌<◌, List, [], ◌∷◌, ◌++◌, some, ◌≡◌, refl, ap, ◌∙◌, arith}
use goreactor.Common.{length, take, drop, slice}
use goreactor.Common.{
  length-append, length-take, length-drop, slice_lem, take-append_left, drop-append_left,
}
use goreactor.RingBuffer.Defs.{RingBuffer, ring_length}
use goreactor.RingBuffer.Contents.{contents, virtual_contents, IsValid}
use goreactor.RingBuffer.Virtual.{virtual_read_lem}
use goreactor.RingBuffer.Writing.{length-virtual_contents}
use goreactor.Websocket.Frame.Defs.{
  Header, HeaderResult, nil, read_into, virtual_read_header, start_header, extra_bytes,
  finish_header,
}

-- What the two reads of a header do: the scratch slice begins with the bytes, the virtual reader
-- has the others left, and the reader sees what it saw.
pub record Takes (s : RingBuffer) (bytes left : List ℕ) (n : ℕ) (scratch : List ℕ) : Type 0 where
  pub slack : List ℕ
  pub next : RingBuffer
  pub returns : read_into n scratch s ≡ some (bytes ++ slack, next)
  pub room : length (bytes ++ slack) ≡ length scratch
  pub remains : virtual_contents next ≡ left
  pub same : contents next ≡ contents s
  pub keeps : IsValid next

pub read_into-Takes :
    (n : ℕ) (scratch : List ℕ) (s : RingBuffer) (bytes left : List ℕ)
    → IsValid s
    → n ≤ length scratch
    → virtual_contents s ≡ bytes ++ left
    → n ≡ length bytes
    → 0 < length left
    → Takes s bytes left n scratch
read_into-Takes n scratch s bytes left v h holds e more =
    let p = take (n - 0) scratch in
    let size : length p ≡ n = omega (arith, length-take (n - 0) scratch) in
    let sum : length (virtual_contents s) ≡ length bytes + length left =
      ap (λ (l : List ℕ). length l) holds ∙ length-append bytes left in
    let (out, returned, reads) =
      virtual_read_lem s p v (omega (arith, size, sum, length-virtual_contents v)) in
    let head : out.p ≡ bytes =
      reads.bytes
      ∙ ap (λ l. take (length p) l) holds
      ∙ take-append_left (length p) bytes left (omega arith) in
    let tail : virtual_contents out.ring ≡ left =
      reads.rest
      ∙ ap (λ l. drop (length p) l) holds
      ∙ drop-append_left (length p) bytes left (omega arith) in
    record {
      slack = drop n scratch;
      next = out.ring;
      returns = unfold read_into in rw (slice_lem scratch 0 n (omega arith) h, returned, head);
      room = omega (arith, length-append bytes (drop n scratch), length-drop n scratch);
      remains = tail;
      same = reads.same;
      keeps = reads.keeps;
    }

-- The outcome of reading a header that is all there.
pub record ReadsHeader (s : RingBuffer) (header : Header) (left : List ℕ) (out : HeaderResult)
    : Type 0 where
  pub decodes : out.header ≡ header
  pub error : out.err ≡ nil
  pub remains : virtual_contents out.ring ≡ left
  pub same : contents out.ring ≡ contents s
  pub keeps : IsValid out.ring
  pub room : 12 ≤ length out.scratch

module _ (s : RingBuffer) (scratch : List ℕ) (v : IsValid s) (room : 12 ≤ length scratch)
    (six : 6 ≤ ring_length s) (b0 b1 : ℕ) (left : List ℕ) (more : 0 < length left) where
  -- A header of two bytes.
  pub read_short_header :
      virtual_contents s ≡ b0 ∷ b1 ∷ left
      → extra_bytes b1 ≡ 0
      → (out : HeaderResult) × (virtual_read_header scratch s ≡ some out)
        × ReadsHeader s (start_header b0 b1) left out
  read_short_header holds none_left =
      let two = read_into-Takes 2 scratch s (b0 ∷ b1 ∷ []) left v (omega arith) holds refl more in
      (
        record {
          header = start_header b0 b1;
          err = nil;
          ring = two.next;
          scratch = b0 ∷ b1 ∷ two.slack;
        },
        (unfold virtual_read_header in ground (arith, two.returns)),
        record {
          decodes = refl;
          error = refl;
          remains = two.remains;
          same = two.same;
          keeps = two.keeps;
          room = omega (arith, two.room);
        },
      )

  -- A header with further bytes.
  pub read_long_header :
      (rest : List ℕ) (header : Header)
      → virtual_contents s ≡ b0 ∷ b1 ∷ (rest ++ left)
      → extra_bytes b1 ≡ length rest
      → 0 < length rest
      → length rest ≤ 12
      → finish_header b1 (start_header b0 b1) rest ≡ some (header, nil)
      → (out : HeaderResult) × (virtual_read_header scratch s ≡ some out)
        × ReadsHeader s header left out
  read_long_header rest header holds extra some_left few finishes =
      let two =
        read_into-Takes 2 scratch s (b0 ∷ b1 ∷ []) (rest ++ left) v (omega arith) holds refl
          (omega (arith, length-append rest left)) in
      let others =
        read_into-Takes (length rest) (b0 ∷ b1 ∷ two.slack) two.next rest left two.keeps
          (omega (arith, two.room)) two.remains refl more in
      let whole : slice (rest ++ others.slack) 0 (length rest) ≡ some rest =
        slice_lem (rest ++ others.slack) 0 (length rest) (omega arith)
          (omega (arith, length-append rest others.slack))
        ∙ ap some (take-append_left (length rest - 0) rest others.slack (omega arith)) in
      (
        record { header = header; err = nil; ring = others.next; scratch = rest ++ others.slack },
        long_header rest header two.slack others.slack two.next others.next extra some_left
            two.returns others.returns whole finishes,
        record {
          decodes = refl;
          error = refl;
          remains = others.remains;
          same = others.same ∙ two.same;
          keeps = others.keeps;
          room = omega (arith, others.room, two.room);
        },
      )
    where
      long_header :
          (rest : List ℕ) (header : Header) (slack slack' : List ℕ) (s' s'' : RingBuffer)
          → extra_bytes b1 ≡ length rest
          → 0 < length rest
          → read_into 2 scratch s ≡ some (b0 ∷ b1 ∷ slack, s')
          → read_into (length rest) (b0 ∷ b1 ∷ slack) s' ≡ some (rest ++ slack', s'')
          → slice (rest ++ slack') 0 (length rest) ≡ some rest
          → finish_header b1 (start_header b0 b1) rest ≡ some (header, nil)
          → virtual_read_header scratch s
            ≡ some (record { header = header; err = nil; ring = s''; scratch = rest ++ slack' })
      long_header rest' header' slack slack' s' s'' e p q r t u =
          unfold virtual_read_header in ground arith
