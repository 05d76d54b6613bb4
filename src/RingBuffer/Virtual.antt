-- ===== src/RingBuffer/Virtual.antt =====
-- A virtual session: `VirtualRead` any number of times, then `VirtualFlush` to consume what was
-- read or `VirtualRevert` to give it back; and what goes wrong when the last byte is read.
use goreactor.Common.{
  ℕ, ◌+◌, ◌-◌, ◌≤◌, ◌<◌, false, List, [], ◌∷◌, some, ◌≡◌, ◌≢◌, ◌⊎◌, arith, refl, sym, ◌∙◌,
}
use goreactor.Common.{length, take, drop, splice}
use goreactor.Common.{slice_lem, copy_at_lem, overwrite_full}
use native.Mathlib.Decide.{dec_lt}
use goreactor.RingBuffer.Defs.{
  RingBuffer, ring_length, virtual_length, virtual_read, virtual_take, virtual_flush,
  virtual_revert, is_full, read, ReadResult, nil,
}
use goreactor.RingBuffer.Contents.{
  wrap, window, contents, virtual_contents, IsValid, IsSettled, ring_length-le, length-window,
  window-take, window-drop,
}
use goreactor.RingBuffer.Reading.{
  copy_wrapped_lem, advance-wrap, after_read, read_take-read_done, read_done_lem,
}
use goreactor.RingBuffer.Writing.{virtual_length-le}

-- The buffer once `m` more bytes, and not the last, are read virtually.
abbrev pub after_virtual : RingBuffer → ℕ → RingBuffer
after_virtual s m = record s { vr = wrap s.size (s.vr + m) }

virtual_take_lem :
    (s : RingBuffer) (p : List ℕ)
    → IsValid s
    → s.is_empty ≡ false
    → 0 < length p
    → length p < virtual_length s
    → virtual_take s p
      ≡ some (record {
        n = length p;
        err = nil;
        p = splice p 0 (window s.buf s.size s.vr (length p));
        ring = after_virtual s (length p);
      })
virtual_take_lem s p v e h k = elim (dec_lt s.vr s.w) [
  | yes below ↦ virtual_below below
  | no around ↦ virtual_around (omega arith)
]
  where
    virtual_below :
        s.vr < s.w
        → virtual_take s p
          ≡ some (record {
            n = length p;
            err = nil;
            p = splice p 0 (window s.buf s.size s.vr (length p));
            ring = after_virtual s (length p);
          })
    virtual_below below =
        unfold virtual_take virtual_length window in
        ground (
          arith,
          slice_lem s.buf s.vr (s.vr + length p),
          copy_at_lem p 0 (take (length p) (drop s.vr s.buf)),
          advance-wrap s s.vr (length p),
        )

    virtual_around :
        s.w ≤ s.vr
        → virtual_take s p
          ≡ some (record {
            n = length p;
            err = nil;
            p = splice p 0 (window s.buf s.size s.vr (length p));
            ring = after_virtual s (length p);
          })
    virtual_around around =
        unfold virtual_take virtual_length in
        ground (arith, copy_wrapped_lem s s.vr (length p) p, advance-wrap s s.vr (length p))

after_virtual-IsValid :
    (s : RingBuffer) (m : ℕ)
    → IsValid s
    → s.is_empty ≡ false
    → m < virtual_length s
    → IsValid (after_virtual s m)
unfolding virtual_length
after_virtual-IsValid s m v e h = ground arith

virtual_length-after_virtual :
    (s : RingBuffer) (m : ℕ)
    → IsValid s
    → s.is_empty ≡ false
    → m < virtual_length s
    → virtual_length (after_virtual s m) ≡ virtual_length s - m
unfolding virtual_length
virtual_length-after_virtual s m v e h = ground arith

virtual_contents-after_virtual :
    (s : RingBuffer) (m : ℕ)
    → IsValid s
    → s.is_empty ≡ false
    → m < virtual_length s
    → virtual_contents (after_virtual s m) ≡ drop m (virtual_contents s)
unfolding virtual_contents
virtual_contents-after_virtual s m v e h = ground (
  arith,
  virtual_length-after_virtual s m v e h,
  virtual_length-le v,
  ring_length-le v,
  window-drop s.buf s.size s.vr (virtual_length s) m v.stored,
)

take-virtual_contents :
    (s : RingBuffer) (m : ℕ)
    → IsValid s
    → m ≤ virtual_length s
    → take m (virtual_contents s) ≡ window s.buf s.size s.vr m
unfolding virtual_contents
take-virtual_contents s m v h =
    window-take s.buf s.size s.vr (virtual_length s) m v.stored
      (omega (arith, v.vr_in, virtual_length-le v, ring_length-le v))
      (omega (arith, virtual_length-le v, ring_length-le v)) h

-- What a virtual read leaves that does not reach the end: it moves nothing but `vr`.
pub record ReadsVirtually (s : RingBuffer) (p : List ℕ) (out : ReadResult) : Type 0 where
  pub count : out.n ≡ length p
  pub bytes : out.p ≡ take (length p) (virtual_contents s)
  pub rest : virtual_contents out.ring ≡ drop (length p) (virtual_contents s)
  pub same : contents out.ring ≡ contents s
  pub keeps : IsValid out.ring
  pub error : out.err ≡ nil

-- `VirtualRead` of fewer bytes than are left virtually does not panic: it fills the slice with the
-- first of them, leaves the others to the next virtual read and all readable bytes to `Read`, and
-- keeps the invariant.
pub virtual_read_lem :
    (s : RingBuffer) (p : List ℕ)
    → IsValid s
    → length p < virtual_length s
    → (out : ReadResult) × (virtual_read s p ≡ some out) × ReadsVirtually s p out
virtual_read_lem s [] v h = (
  record { n = 0; err = nil; p = []; ring = s },
  (unfold virtual_read in refl),
  record { count = refl; bytes = refl; rest = refl; same = refl; keeps = v; error = refl },
)
virtual_read_lem s (x ∷ p) v h =
    let n = length (x ∷ p) in
    let e = not_empty v h in
    (
      record {
        n = n;
        err = nil;
        p = splice (x ∷ p) 0 (window s.buf s.size s.vr n);
        ring = after_virtual s n;
      },
      (unfold virtual_read in ground (arith, e, virtual_take_lem s (x ∷ p) v e (omega arith) h)),
      record {
        count = refl;
        bytes =
            overwrite_full (x ∷ p) (window s.buf s.size s.vr n) (
              sym (
                length-window s.buf s.size s.vr n v.stored
                  (omega (arith, v.vr_in, virtual_length-le v, ring_length-le v))
                  (omega (arith, virtual_length-le v, ring_length-le v))))
            ∙ sym (take-virtual_contents s n v (omega arith));
        rest = virtual_contents-after_virtual s n v e h;
        same = unfold contents ring_length in refl;
        keeps = after_virtual-IsValid s n v e h;
        error = refl;
      },
    )
  where
    not_empty : {m : ℕ} → IsValid s → m < virtual_length s → s.is_empty ≡ false
    not_empty w k = unfold virtual_length in ground arith

-- `VirtualFlush` consumes what was read virtually: the contents are then what the virtual reader
-- had left, the session is closed, and the invariant is kept. It is not called on a buffer that
-- is full and of which nothing was read virtually.
pub virtual_flush_lem :
    (s : RingBuffer)
    → IsValid s
    → (is_full s ≡ false) ⊎ (s.vr ≢ s.r)
    → (contents (virtual_flush s) ≡ virtual_contents s)
      × IsSettled (virtual_flush s)
      × IsValid (virtual_flush s)
virtual_flush_lem s v part =
    (flushed v part, (unfold virtual_flush in refl), (unfold virtual_flush is_full in ground arith))
  where
    lengths :
        IsValid s
        → (is_full s ≡ false) ⊎ (s.vr ≢ s.r)
        → ring_length (virtual_flush s) ≡ virtual_length s
    lengths w q = unfold ring_length virtual_flush virtual_length is_full in ground arith

    flushed :
        IsValid s
        → (is_full s ≡ false) ⊎ (s.vr ≢ s.r)
        → contents (virtual_flush s) ≡ virtual_contents s
    flushed w q =
        unfold contents virtual_contents in rw (lengths w q) (unfold virtual_flush in refl)

-- `VirtualRevert` gives back what was read virtually: the virtual reader sees all the contents
-- again, which are unchanged, the session is closed, and the invariant is kept.
pub virtual_revert_lem :
    (s : RingBuffer)
    → IsValid s
    → (contents (virtual_revert s) ≡ contents s)
      × (virtual_contents (virtual_revert s) ≡ contents s)
      × IsSettled (virtual_revert s)
      × IsValid (virtual_revert s)
virtual_revert_lem s v = (
  (unfold contents ring_length virtual_revert in refl),
  (unfold contents virtual_contents virtual_length ring_length virtual_revert in refl),
  (unfold virtual_revert in refl),
  (unfold virtual_revert in ground arith),
)

-- A session of one virtual read, not empty, that does not reach the end: reverted it leaves a
-- settled buffer as it was, flushed it leaves the buffer that `Read` leaves, and both hand out the
-- same bytes.
pub virtual_read-read :
    (s : RingBuffer) (p : List ℕ)
    → IsValid s
    → IsSettled s
    → 0 < length p
    → length p < ring_length s
    → (out : ReadResult) × (virtual_read s p ≡ some out)
      × (virtual_revert out.ring ≡ s)
      × (read s p ≡ some (record out { ring = virtual_flush out.ring }))
virtual_read-read s p v settled pos h =
    let n = length p in
    let e = not_empty v h in
    let less = omega_less v settled h in
    (
      record {
        n = n;
        err = nil;
        p = splice p 0 (window s.buf s.size s.vr n);
        ring = after_virtual s n;
      },
      (unfold virtual_read in ground (arith, e, virtual_take_lem s p v e pos less)),
      (unfold virtual_revert in ground arith),
      ground (arith, read_here v e, flushed v settled),
    )
  where
    not_empty : IsValid s → length p < ring_length s → s.is_empty ≡ false
    not_empty w k = unfold ring_length in ground arith

    omega_less : IsValid s → IsSettled s → length p < ring_length s → length p < virtual_length s
    omega_less w q k = unfold virtual_length ring_length in ground arith

    read_here :
        IsValid s
        → s.is_empty ≡ false
        → read s p
          ≡ some (record {
            n = length p;
            err = nil;
            p = splice p 0 (window s.buf s.size s.r (length p));
            ring = after_read s (length p);
          })
    read_here w e =
        unfold read in
        ground (
          arith,
          read_take-read_done s p (length p) w e (omega arith),
          read_done_lem s (length p) (splice p 0 (window s.buf s.size s.r (length p))),
          ring_length-le w,
          w.r_in,
          w.room e,
        )

    flushed :
        IsValid s
        → IsSettled s
        → virtual_flush (after_virtual s (length p)) ≡ after_read s (length p)
    flushed w q = unfold virtual_flush in ground arith
