-- ===== src/RingBuffer/Storing.antt =====
-- The copies that `Write` makes, read at each index of the array.
use goreactor.Common.{ℕ, ◌+◌, ◌-◌, ◌≤◌, ◌<◌, List, some, ◌≡◌, arith}
use goreactor.Common.{ltb, leb, if◌then◌else◌, length, get_or, take, drop, splice}
use goreactor.Common.{
  slice_lem, copy_at_lem, length-splice, length-overwrite, get_or-overwrite, take_all,
  get_or-splice, get_or-take, get_or-drop,
}
use goreactor.Common.{length-take, length-drop}
use goreactor.Common.{le→leb, lt→leb_false}
use native.Mathlib.Decide.{dec_le}
use goreactor.RingBuffer.Defs.{RingBuffer, ring_length, virtual_length, store}
use goreactor.RingBuffer.Contents.{wrap, IsValid}

-- `len` bytes are readable from `r` on, the last `vlen` of them not yet read virtually.
pub record Holds (s : RingBuffer) (len vlen : ℕ) : Type 0 where
  pub stored : length s.buf ≡ s.size
  pub r_in : s.r < s.size
  pub w_at : s.w ≡ wrap s.size (s.r + len)
  pub vr_at : s.vr ≡ wrap s.size (s.r + (len - vlen))
  pub vlen_le : vlen ≤ len
  pub len_le : len ≤ s.size

pub IsValid-Holds :
    {s : RingBuffer} → IsValid s → 0 < s.size → Holds s (ring_length s) (virtual_length s)
unfolding ring_length virtual_length
IsValid-Holds v pos = ground arith

wrap-le : (size k : ℕ) → k ≤ size + size → wrap size k ≤ size
wrap-le size k h = ground arith

-- The array and the write pointer after `Write` has copied `p`.
abbrev pub stored_buf : RingBuffer → List ℕ → List ℕ
stored_buf s p =
    if leb s.r s.w
    then (if leb (length p) (s.size - s.w)
        then splice s.buf s.w p
        else splice (splice s.buf s.w (take (s.size - s.w) p)) 0 (drop (s.size - s.w) p))
    else splice s.buf s.w p

abbrev pub stored_w : RingBuffer → ℕ → ℕ
stored_w s n =
    if leb s.r s.w then (if leb n (s.size - s.w) then s.w + n else s.w + n - s.size) else s.w + n

-- The copy round the end, read at an index.
module _ (buf p : List ℕ) (size w : ℕ) (e : length buf ≡ size) (in_buf : w ≤ size) where
  get_or-around :
      (j : ℕ)
      → size - w ≤ length p
      → length p ≤ size
      → j < size
      → get_or (splice (splice buf w (take (size - w) p)) 0 (drop (size - w) p)) j 0 ≡ (
          if ltb j (length p - (size - w))
          then get_or p (size - w + j) 0
          else if ltb j w
          then get_or buf j 0
          else get_or p (j - w) 0)
  get_or-around j h k l =
      let front = take (size - w) p in
      let back = drop (size - w) p in
      ground (
        arith,
        length-splice buf w front,
        get_or-splice buf w front j 0 (omega arith),
        get_or-overwrite (splice buf w front) back j 0,
        length-take (size - w) p,
        length-drop (size - w) p,
        get_or-take (size - w) p (j - w) 0,
        get_or-drop (size - w) p j 0,
      )

module _ (s : RingBuffer) (p : List ℕ) {len vlen : ℕ} (held : Holds s len vlen)
    (fits : len + length p ≤ s.size) (some_bytes : 0 < length p) where
  pub store_lem : store s p ≡ some (stored_buf s p, stored_w s (length p))
  unfolding store
  store_lem = ground (
    arith,
    held.stored,
    held.r_in,
    held.w_at,
    copy_at_lem s.buf s.w p,
    slice_lem p 0 (s.size - s.w),
    slice_lem p (s.size - s.w) (length p),
    copy_at_lem s.buf s.w (take (s.size - s.w) p),
    take_all (length p - (s.size - s.w)) (drop (s.size - s.w) p),
    length-drop (s.size - s.w) p,
  )

  w_in_buf : s.w ≤ s.size
  w_in_buf = omega (arith, held.r_in, wrap-le s.size (s.r + len), held.w_at, held.len_le)

  straight :
      (i : ℕ)
      → i < len + length p
      → s.w + length p ≤ s.size
      → get_or (splice s.buf s.w p) (wrap s.size (s.r + i)) 0
        ≡ (if ltb i len then get_or s.buf (wrap s.size (s.r + i)) 0 else get_or p (i - len) 0)
  straight i h k = ground (
    arith,
    held.stored,
    held.r_in,
    held.w_at,
    get_or-splice s.buf s.w p (wrap s.size (s.r + i)) 0,
  )

  around :
      (i : ℕ)
      → i < len + length p
      → s.r ≤ s.w
      → s.size - s.w < length p
      → get_or
          (splice (splice s.buf s.w (take (s.size - s.w) p)) 0 (drop (s.size - s.w) p))
          (wrap s.size (s.r + i))
          0
        ≡ (if ltb i len then get_or s.buf (wrap s.size (s.r + i)) 0 else get_or p (i - len) 0)
  around i h k l = ground (
    arith,
    held.stored,
    held.r_in,
    held.w_at,
    fits,
    get_or-around s.buf p s.size s.w held.stored (w_in_buf) (wrap s.size (s.r + i)),
  )

  pub length-stored_buf : length (stored_buf s p) ≡ s.size
  length-stored_buf = ground (
    arith,
    length-splice s.buf s.w p,
    length-splice s.buf s.w (take (s.size - s.w) p),
    length-overwrite (splice s.buf s.w (take (s.size - s.w) p)) (drop (s.size - s.w) p),
    held.stored,
  )

  pub get_or-stored_buf :
      (i : ℕ)
      → i < len + length p
      → get_or (stored_buf s p) (wrap s.size (s.r + i)) 0
        ≡ (if ltb i len then get_or s.buf (wrap s.size (s.r + i)) 0 else get_or p (i - len) 0)
  get_or-stored_buf i h = elim (dec_le s.r s.w) [
    | yes k ↦ elim (dec_le (length p) (s.size - s.w)) [
      | yes l ↦
          rw (le→leb s.r s.w k, le→leb (length p) (s.size - s.w) l)
            (straight i h (omega (arith, w_in_buf)))
      | no l ↦
          rw (le→leb s.r s.w k, lt→leb_false (length p) (s.size - s.w) (omega arith))
            (around i h k (omega arith))
    ]
    | no k ↦
        rw (lt→leb_false s.r s.w (omega arith))
          (straight i h (ground (arith, held.r_in, held.w_at)))
  ]
