-- ===== src/RingBuffer/Exhausted.antt =====
-- A virtual read that reaches the last byte. Where the bytes do not go round the end it sets
-- `isEmpty`, which `VirtualRevert` does not take back; where they do, `VirtualLength` then takes
-- the exhausted buffer for a full one; and `VirtualFlush` takes a full one for an exhausted one.
use goreactor.Common.{ℕ, ◌+◌, ◌-◌, ◌≤◌, ◌<◌, true, false, List, some, ◌≡◌, arith}
use goreactor.Common.{length, take, drop, splice, slice_lem, copy_at_lem}
use goreactor.RingBuffer.Defs.{
  RingBuffer, ring_length, virtual_length, virtual_read, virtual_take, virtual_flush,
  virtual_revert, is_full, read, ReadResult, nil, err_is_empty,
}
use goreactor.RingBuffer.Contents.{window, IsValid, IsSettled}
use goreactor.RingBuffer.Reading.{copy_wrapped_lem, advance-wrap}

-- Where the readable bytes do not go round the end, a virtual read of all of them marks the buffer
-- as empty, and after `VirtualRevert` it stays so marked: `Length` still counts every byte, but
-- every `Read` into a slice that is not empty fails with `ErrIsEmpty`.
pub revert_loses :
    (s : RingBuffer) (p q : List ℕ)
    → IsValid s
    → s.r < s.w
    → virtual_length s ≤ length p
    → 0 < length q
    → (out : ReadResult) × (virtual_read s p ≡ some out)
      × (ring_length (virtual_revert out.ring) ≡ ring_length s)
      × (read (virtual_revert out.ring) q
          ≡ some (record { n = 0; err = err_is_empty; p = q; ring = virtual_revert out.ring }))
revert_loses s p q v below all asked = (
  record {
    n = s.w - s.vr;
    err = nil;
    p = splice p 0 (take (s.w - s.vr) (drop s.vr s.buf));
    ring = record s { vr = s.w; is_empty = true };
  },
  taken v below all,
  (unfold ring_length virtual_revert in ground arith),
  (unfold read virtual_revert in ground arith),
)
  where
    taken :
        IsValid s
        → s.r < s.w
        → virtual_length s ≤ length p
        → virtual_read s p
          ≡ some (record {
            n = s.w - s.vr;
            err = nil;
            p = splice p 0 (take (s.w - s.vr) (drop s.vr s.buf));
            ring = record s { vr = s.w; is_empty = true };
          })
    taken w h k =
        unfold virtual_read virtual_take virtual_length in
        ground (
          arith,
          slice_lem s.buf s.vr (s.vr + (s.w - s.vr)),
          copy_at_lem p 0 (take (s.w - s.vr) (drop s.vr s.buf)),
          advance-wrap s s.vr (s.w - s.vr),
        )

-- Where they do, a virtual read of all of them leaves `VirtualLength` at the size of the array
-- and not at 0.
pub virtual_length_stale :
    (s : RingBuffer) (p : List ℕ)
    → IsValid s
    → s.is_empty ≡ false
    → s.w ≤ s.vr
    → virtual_length s ≤ length p
    → (out : ReadResult) × (virtual_read s p ≡ some out) × (virtual_length out.ring ≡ s.size)
virtual_length_stale s p v e around all =
    let n = virtual_length s in
    (
      record {
        n = n;
        err = nil;
        p = splice p 0 (window s.buf s.size s.vr n);
        ring = record s { vr = s.w };
      },
      taken v e around all,
      (unfold virtual_length in ground arith),
    )
  where
    taken :
        IsValid s
        → s.is_empty ≡ false
        → s.w ≤ s.vr
        → virtual_length s ≤ length p
        → virtual_read s p
          ≡ some (record {
            n = virtual_length s;
            err = nil;
            p = splice p 0 (window s.buf s.size s.vr (virtual_length s));
            ring = record s { vr = s.w };
          })
    taken w f h k =
        unfold virtual_read virtual_take virtual_length in
        ground (
          arith,
          copy_wrapped_lem s s.vr (s.size - s.vr + s.w) p,
          advance-wrap s s.vr (s.size - s.vr + s.w),
        )

-- `VirtualFlush` of a full buffer of which nothing was read virtually loses all of it.
pub flush_full_loses :
    (s : RingBuffer)
    → IsValid s
    → IsSettled s
    → is_full s ≡ true
    → (ring_length s ≡ s.size) × (0 < s.size) × (ring_length (virtual_flush s) ≡ 0)
unfolding ring_length virtual_flush is_full
flush_full_loses s v settled full = ground arith
