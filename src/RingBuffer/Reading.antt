-- ===== src/RingBuffer/Reading.antt =====
-- `Read`, `ReadByte` and `VirtualRead` hand out the oldest bytes.
use goreactor.Common.{ℕ, ◌+◌, ◌-◌, ◌%◌, ◌≤◌, ◌<◌, min, true, false, List, ◌⊎◌, ◌≡◌, arith}
use goreactor.Common.{ltb, leb, ◌==◌, if◌then◌else◌, length, take, drop, some, splice}
use goreactor.Common.{
  ◌&&◌, refl, overwrite-nil, Bool-cases, Option-cases, inl, inr, sym, ◌∙◌, slice_lem, copy_at_lem,
  splice-overwrite, length-overwrite,
}
use goreactor.Common.{length-take, length-drop}
use native.Mathlib.Nat.{mod-eq_of_lt, mod-eq-sub-mod}
use native.Mathlib.Decide.{dec_lt}
use goreactor.RingBuffer.Defs.{
  RingBuffer, ring_length, copy_wrapped, advance, read, read_take, read_done, ReadResult, nil,
  err_is_empty,
}
use goreactor.RingBuffer.Contents.{
  ring_length-le, take-contents, ring_length_pos, ring_length_zero, length-contents, wrap,
  window-drop, window, contents, IsValid, IsSettled,
}

pub mod-eq-wrap : (size k : ℕ) → k < size + size → k % size ≡ wrap size k
mod-eq-wrap size k h = grind (arith, mod-eq_of_lt, mod-eq-sub-mod)

pub advance-wrap :
    (s : RingBuffer) (p n : ℕ)
    → p < s.size
    → n ≤ s.size
    → advance s p n ≡ some (wrap s.size (p + n))
unfolding advance
advance-wrap s p n h k = ground (arith, mod-eq-wrap s.size (p + n))

pub copy_wrapped_lem :
    (s : RingBuffer) (start n : ℕ) (p : List ℕ)
    → length s.buf ≡ s.size
    → start < s.size
    → n ≤ s.size
    → n ≤ length p
    → copy_wrapped s start n p ≡ some (splice p 0 (window s.buf s.size start n))
unfolding copy_wrapped window
copy_wrapped_lem s start n p e h k l = elim (Bool-cases (leb (start + n) s.size)) [
  | inl near ↦
      ground (arith, slice_lem s.buf start (start + n), copy_at_lem p 0 (take n (drop start s.buf)))
  | inr far ↦ ground (
    arith,
    slice_lem s.buf start s.size,
    slice_lem s.buf 0 (n + start - s.size),
    copy_at_lem p 0 (take (s.size - start) (drop start s.buf)),
    copy_at_lem (splice p 0 (take (s.size - start) (drop start s.buf))) (s.size - start)
        (take (n - (s.size - start)) s.buf),
    length-overwrite p (take (s.size - start) (drop start s.buf)),
    length-take (s.size - start) (drop start s.buf),
    length-drop start s.buf,
    splice-overwrite p (take (s.size - start) (drop start s.buf))
        (take (n - (s.size - start)) s.buf),
  )
]

-- The buffer once its `m` oldest bytes are read.
abbrev pub after_read : RingBuffer → ℕ → RingBuffer
after_read s m =
    let r' = wrap s.size (s.r + m) in
    record s { r = r'; vr = r'; is_empty = if r' == s.w then true else s.is_empty }

pub read_done_lem :
    (s : RingBuffer) (m : ℕ) (p : List ℕ)
    → s.r < s.size
    → m ≤ s.size
    → read_done s m p ≡ some (record { n = m; err = nil; p = p; ring = after_read s m })
unfolding read_done
read_done_lem s m p h k = rw (advance-wrap s s.r m h k)

read_below :
    (s : RingBuffer) (p : List ℕ) (m : ℕ)
    → IsValid s
    → s.is_empty ≡ false
    → s.r < s.w
    → m ≡ min (length p) (ring_length s)
    → read_take s p ≡ read_done s m (splice p 0 (window s.buf s.size s.r m))
unfolding read_take ring_length window
read_below s p m v e h k =
    ground (arith, slice_lem s.buf s.r (s.r + m), copy_at_lem p 0 (take m (drop s.r s.buf)))

read_around :
    (s : RingBuffer) (p : List ℕ) (m : ℕ)
    → IsValid s
    → s.is_empty ≡ false
    → s.w ≤ s.r
    → m ≡ min (length p) (ring_length s)
    → read_take s p ≡ read_done s m (splice p 0 (window s.buf s.size s.r m))
unfolding read_take ring_length
read_around s p m v e h k = ground (arith, copy_wrapped_lem s s.r m p)

pub after_read-IsValid :
    (s : RingBuffer) (m : ℕ)
    → IsValid s
    → s.is_empty ≡ false
    → 0 < m
    → m ≤ ring_length s
    → IsValid (after_read s m)
unfolding ring_length
after_read-IsValid s m v e h k = ground arith

pub ring_length-after_read :
    (s : RingBuffer) (m : ℕ)
    → IsValid s
    → s.is_empty ≡ false
    → 0 < m
    → m ≤ ring_length s
    → ring_length (after_read s m) ≡ ring_length s - m
unfolding ring_length
ring_length-after_read s m v e h k = ground arith

pub contents-after_read :
    (s : RingBuffer) (m : ℕ)
    → IsValid s
    → s.is_empty ≡ false
    → 0 < m
    → m ≤ ring_length s
    → contents (after_read s m) ≡ drop m (contents s)
unfolding contents
contents-after_read s m v e h k = ground (
  arith,
  ring_length-after_read s m v e h k,
  ring_length-le v,
  window-drop s.buf s.size s.r (ring_length s) m v.stored,
)

-- What a read leaves: how many bytes, which, and what stays in the buffer. The error is
-- `ErrIsEmpty` exactly if bytes were asked for and there were none.
pub record Reads (s : RingBuffer) (p : List ℕ) (out : ReadResult) : Type 0 where
  pub count : out.n ≡ min (length p) (length (contents s))
  pub bytes : out.p ≡ splice p 0 (take out.n (contents s))
  pub rest : contents out.ring ≡ drop out.n (contents s)
  pub keeps : IsValid out.ring
  pub error : out.err ≡ (if ltb 0 (length p) && s.is_empty then err_is_empty else nil)

pub read_take-read_done :
    (s : RingBuffer) (p : List ℕ) (m : ℕ)
    → IsValid s
    → s.is_empty ≡ false
    → m ≡ min (length p) (ring_length s)
    → read_take s p ≡ read_done s m (splice p 0 (window s.buf s.size s.r m))
read_take-read_done s p m v e k = elim (dec_lt s.r s.w) [
  | yes below ↦ read_below s p m v e below k
  | no around ↦ read_around s p m v e (omega arith) k
]

read_take-Reads :
    (s : RingBuffer) (p : List ℕ)
    → IsValid s
    → s.is_empty ≡ false
    → 0 < length p
    → (out : ReadResult) × (read s p ≡ some out) × Reads s p out
unfolding read
read_take-Reads s p v e h = (
  record { n = m; err = nil; p = splice p 0 (window s.buf s.size s.r m); ring = after_read s m },
  ground (
    arith,
    read_take-read_done s p m v e refl,
    read_done_lem s m (splice p 0 (window s.buf s.size s.r m)),
    in_size,
  ),
  record {
    count = omega (arith, length-contents v);
    bytes = rw (take-contents m v (omega arith));
    rest = contents-after_read s m v e pos (omega arith);
    keeps = after_read-IsValid s m v e pos (omega arith);
    error = ground arith;
  },
)
  where
    m : ℕ
    m = min (length p) (ring_length s)

    in_size : m ≤ s.size
    in_size = omega (arith, ring_length-le v)

    pos : 0 < m
    pos = omega (arith, ring_length_pos v e)

read_nothing-Reads :
    (s : RingBuffer) (p : List ℕ)
    → IsValid s
    → (s.is_empty ≡ true) ⊎ (length p ≡ 0)
    → (out : ReadResult) × (read s p ≡ some out) × Reads s p out
unfolding read
read_nothing-Reads s p v h = (
  record {
    n = 0;
    err = if ltb 0 (length p) && s.is_empty then err_is_empty else nil;
    p = p;
    ring = s;
  },
  ground (arith),
  record {
    count = ground (arith, length-contents v, ring_length_zero v);
    bytes = rw overwrite-nil;
    rest = refl;
    keeps = v;
    error = refl;
  },
)

-- `Read` does not panic on a valid buffer, takes `min(len(p), Length())` of the oldest bytes into
-- the front of `p`, leaves the others in order, keeps the invariant, and fails with `ErrIsEmpty`
-- exactly if bytes are asked for and there are none.
pub read_lem :
    (s : RingBuffer) (p : List ℕ)
    → IsValid s
    → (out : ReadResult) × (read s p ≡ some out) × Reads s p out
read_lem s p v = elim (Bool-cases s.is_empty) [
  | inl none_there ↦ read_nothing-Reads s p v (inl none_there)
  | inr some_there ↦ elim (dec_lt 0 (length p)) [
    | yes asked ↦ read_take-Reads s p v some_there asked
    | no not_asked ↦ read_nothing-Reads s p v (inr (omega arith))
  ]
]

read_done-IsSettled :
    (s : RingBuffer) (n : ℕ) (p : List ℕ) (out : ReadResult)
    → read_done s n p ≡ some out
    → IsSettled out.ring
unfolding read_done
read_done-IsSettled s n p out h = elim (Option-cases (advance s s.r n)) [
  | inl e ↦ absurd (ground (arith, e))
  | inr (r', e) ↦ ground (arith, e)
]

-- `Read` opens no virtual session.
pub read-IsSettled :
    (s : RingBuffer) (p : List ℕ) (out : ReadResult)
    → IsValid s
    → IsSettled s
    → read s p ≡ some out
    → IsSettled out.ring
unfolding read
read-IsSettled s p out v settled h = elim (Bool-cases s.is_empty) [
  | inl e ↦ ground arith
  | inr e ↦ elim (Bool-cases (length p == 0)) [
    | inl none_asked ↦ ground arith
    | inr some_asked ↦
        let m = min (length p) (ring_length s) in
        read_done-IsSettled s m (splice p 0 (window s.buf s.size s.r m)) out
          (sym (read_take-read_done s p m v e refl) ∙ (ground (arith, h)))
  ]
]
