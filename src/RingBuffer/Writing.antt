-- ===== src/RingBuffer/Writing.antt =====
-- `Write` and `WriteByte` append to the contents, whether the array must grow or not.
use goreactor.Common.{ℕ, ◌+◌, ◌-◌, ◌≤◌, ◌<◌, max, false, List, ◌++◌, ◌≡◌, arith, refl, ◌∙◌, ap}
use goreactor.Common.{ltb, ◌==◌, if◌then◌else◌, length, get_or}
use goreactor.Common.{length-append, get_or-append, get_or-append, get_or_ext}
use goreactor.RingBuffer.Defs.{RingBuffer, ring_length, virtual_length}
use goreactor.RingBuffer.Contents.{
  wrap, window, contents, virtual_contents, IsValid, length-window, get_or-window, length-contents,
  ring_length-le,
}
use goreactor.RingBuffer.Storing.{
  Holds, IsValid-Holds, stored_buf, stored_w, get_or-stored_buf, length-stored_buf,
}

-- The buffer after the copies of `Write`.
abbrev pub after_write : RingBuffer → List ℕ → RingBuffer
after_write s p =
    let w' = stored_w s (length p) in
    record s { buf = stored_buf s p; w = if w' == s.size then 0 else w'; is_empty = false }

pub wrap-wrap :
    (size r k i : ℕ)
    → r < size
    → k ≤ size
    → k + i ≤ size
    → wrap size (wrap size (r + k) + i) ≡ wrap size (r + (k + i))
wrap-wrap size r k i h l m = ground arith

-- A window whose array holds `p` behind its first `n` bytes.
window-extend :
    (b b' p : List ℕ) (size start n : ℕ)
    → length b ≡ size
    → length b' ≡ size
    → start ≤ size
    → n + length p ≤ size
    → ((i : ℕ)
        → i < n + length p
        → get_or b' (wrap size (start + i)) 0
          ≡ (if ltb i n then get_or b (wrap size (start + i)) 0 else get_or p (i - n) 0))
    → window b' size start (n + length p) ≡ window b size start n ++ p
window-extend b b' p size start n e e' h k agree =
    get_or_ext 0 _ _
      (omega (
        arith,
        length-window b' size start (n + length p) e' h k,
        length-append (window b size start n) p,
        length-window b size start n e h,
      ))
      λ i j. ground (
        arith,
        agree i,
        length-window b' size start (n + length p) e' h k,
        length-window b size start n e h,
        get_or-append (window b size start n) p i 0,
        get_or-window b' size start (n + length p) i e' h,
        get_or-window b size start n i e h,
      )

module _ (s : RingBuffer) (p : List ℕ) {len vlen : ℕ} (held : Holds s len vlen)
    (fits : len + length p ≤ s.size) (some_bytes : 0 < length p) where
  extends :
      (k start n : ℕ)
      → k ≤ len
      → start ≡ wrap s.size (s.r + k)
      → n ≡ len - k
      → window (stored_buf s p) s.size start (n + length p) ≡ window s.buf s.size start n ++ p
  extends k start n h at_start at_end =
      window-extend s.buf (stored_buf s p) p s.size start n held.stored
        (length-stored_buf s p held fits some_bytes) (ground (arith, held.r_in, held.len_le))
        (omega (arith, fits))
        λ i j.
          rw
            (
              at_start,
              wrap-wrap s.size s.r k i held.r_in (omega (arith, held.len_le)) (omega (arith, fits)),
              at_end,
            )
            (ground (arith, get_or-stored_buf s p held fits some_bytes (k + i)))

  pub after_write-Holds : Holds (after_write s p) (len + length p) (vlen + length p)
  after_write-Holds = record {
    stored = length-stored_buf s p held fits some_bytes;
    r_in = held.r_in;
    w_at = ground (arith, held.w_at, held.r_in, held.len_le);
    vr_at = ground (arith, held.vr_at, held.vlen_le);
    vlen_le = omega (arith, held.vlen_le);
    len_le = fits;
  }

  pub ring_length-after_write : ring_length (after_write s p) ≡ len + length p
  unfolding ring_length
  ring_length-after_write = ground (arith, held.w_at, held.r_in, held.len_le)

  pub virtual_length-after_write : virtual_length (after_write s p) ≡ vlen + length p
  unfolding virtual_length
  virtual_length-after_write =
      ground (arith, held.w_at, held.r_in, held.len_le, held.vr_at, held.vlen_le)

  pub after_write-IsValid : IsValid (after_write s p)
  after_write-IsValid = ground (arith, after_write-Holds)

-- A buffer that holds the bytes `c`, of which `v` are not yet read virtually.
pub record Views (s : RingBuffer) (c v : List ℕ) : Type 0 where
  pub held : Holds s (length c) (length v)
  pub all : window s.buf s.size s.r (length c) ≡ c
  pub virtually : window s.buf s.size s.vr (length v) ≡ v

pub virtual_length-le : {s : RingBuffer} → IsValid s → virtual_length s ≤ ring_length s
unfolding virtual_length ring_length
virtual_length-le v = ground arith

pub length-virtual_contents :
    {s : RingBuffer} → IsValid s → length (virtual_contents s) ≡ virtual_length s
unfolding virtual_contents
length-virtual_contents {s} v =
    length-window s.buf s.size s.vr (virtual_length s) v.stored
      (omega (arith, v.vr_in, v.stored, virtual_length-le v, ring_length-le v))
      (omega (arith, virtual_length-le v, ring_length-le v))

pub IsValid-Views :
    {s : RingBuffer} → IsValid s → 0 < s.size → Views s (contents s) (virtual_contents s)
IsValid-Views {s} v pos = record {
  held = rw (length-contents v, length-virtual_contents v) (IsValid-Holds v pos);
  all = rw (length-contents v) (unfold contents in refl);
  virtually = rw (length-virtual_contents v) (unfold virtual_contents in refl);
}

-- What `Write` promises: the bytes are appended, for the virtual reader too, and the array grows
-- by no more than it must.
pub record Appends (s : RingBuffer) (p : List ℕ) (s' : RingBuffer) : Type 0 where
  pub bytes : contents s' ≡ contents s ++ p
  pub virtual_bytes : virtual_contents s' ≡ virtual_contents s ++ p
  pub keeps : IsValid s'
  pub grows : s'.size ≡ max s.size (length (contents s) + length p)

module _ (s : RingBuffer) (p : List ℕ) {c v : List ℕ} (views : Views s c v)
    (fits : length c + length p ≤ s.size) (some_bytes : 0 < length p) where
  pub contents-after_write : contents (after_write s p) ≡ c ++ p
  unfolding contents
  contents-after_write = rw (ring_length-after_write s p views.held fits some_bytes) (
      extends s p views.held fits some_bytes 0 s.r (length c) (omega arith)
        (ground (arith, views.held.r_in)) (omega arith)
      ∙ ap (λ l. l ++ p) views.all)

  pub virtual_contents-after_write : virtual_contents (after_write s p) ≡ v ++ p
  unfolding virtual_contents
  virtual_contents-after_write = rw (virtual_length-after_write s p views.held fits some_bytes) (
      extends s p views.held fits some_bytes (length c - length v) s.vr (length v) (omega arith)
        views.held.vr_at (omega (arith, views.held.vlen_le))
      ∙ ap (λ l. l ++ p) views.virtually)
