-- ===== src/RingBuffer/Growing.antt =====
-- `makeSpace` keeps the contents, and `Write` and `WriteByte` append to them.
use goreactor.Common.{
  ℕ, ◌+◌, ◌-◌, ◌≤◌, ◌<◌, max, Bool, List, [], ◌∷◌, some, ◌≡◌, arith, refl, ap, sym, ◌∙◌,
}
use goreactor.Common.{
  Option, false, ◌>>=◌, ◌==◌, if◌then◌else◌, Option-cases, inl, inr, length, take, drop, replicate,
  overwrite, length-replicate,
}
use goreactor.Common.{
  eq_of_length_zero, length-drop, get_or-drop, get_or_ext, length-overwrite, get_or-overwrite,
  take_all,
}
use native.Mathlib.Decide.{dec_lt, dec_le}
use goreactor.RingBuffer.Defs.{
  RingBuffer, ring_length, virtual_length, write, store, make_space, free,
}
use goreactor.RingBuffer.Contents.{
  window-drop, window, contents, virtual_contents, IsValid, length-window, get_or-window,
  length-contents, ring_length-le, IsSettled,
}
use goreactor.RingBuffer.Storing.{Holds, IsValid-Holds}
use goreactor.RingBuffer.Reading.{read_lem}
use mathlib.Core.List.{append-nil}
use goreactor.RingBuffer.Storing.{store_lem}
use goreactor.RingBuffer.Writing.{
  Appends, after_write, after_write-IsValid, contents-after_write, virtual_contents-after_write,
  Views, IsValid-Views, virtual_length-le, length-virtual_contents,
}

-- The buffer that `makeSpace(len)` leaves; nothing reads its `isEmpty` before `Write` sets it.
abbrev pub grown : RingBuffer → ℕ → Bool → RingBuffer
grown s len e = record {
  buf = overwrite (replicate (s.size + len) 0) (contents s);
  size = s.size + len;
  vr = ring_length s - virtual_length s;
  r = 0;
  w = ring_length s;
  is_empty = e;
}

pub make_space_lem :
    (s : RingBuffer) (len : ℕ)
    → IsValid s
    → 0 < len
    → (e : Bool) × (make_space s len ≡ some (grown s len e))
unfolding make_space
make_space_lem s len v h =
    let (out, returns, reads) = read_lem s (replicate (s.size + len) 0) v in
    let all : take out.n (contents s) ≡ contents s = take_all out.n (contents s) (
      omega (
        arith,
        reads.count,
        length-replicate {A = ℕ} (s.size + len) 0,
        length-contents v,
        ring_length-le v,
      )) in
    (out.ring.is_empty, ground (arith, returns, virtual_length-le v, reads.bytes, all))

window-overwrite :
    (zeros c : List ℕ) (size start n : ℕ)
    → length zeros ≡ size
    → start + n ≡ length c
    → length c ≤ size
    → window (overwrite zeros c) size start n ≡ drop start c
window-overwrite zeros c size start n e h k =
    let e' : length (overwrite zeros c) ≡ size = omega (arith, length-overwrite zeros c) in
    get_or_ext 0 _ _
      (omega (
        arith,
        length-window (overwrite zeros c) size start n e' (omega arith) (omega arith),
        length-drop start c,
      ))
      λ i j. ground (
        arith,
        e',
        length-window (overwrite zeros c) size start n e',
        get_or-window (overwrite zeros c) size start n i e',
        get_or-drop start c i 0,
        get_or-overwrite zeros c (start + i) 0,
      )

-- The virtual reader sees an end of what the reader sees.
virtual_contents-drop_pos :
    {s : RingBuffer}
    → IsValid s
    → 0 < s.size
    → virtual_contents s ≡ drop (ring_length s - virtual_length s) (contents s)
unfolding contents virtual_contents
virtual_contents-drop_pos {s} v pos =
    let held = IsValid-Holds v pos in
    let k = ring_length s - virtual_length s in
    rw
      (
        window-drop s.buf s.size s.r (ring_length s) k held.stored held.r_in held.len_le
            (omega arith),
        ← held.vr_at,
      )
      (ap (λ n. window s.buf s.size s.vr n) (omega (arith, held.vlen_le)))

pub virtual_contents-drop :
    {s : RingBuffer}
    → IsValid s
    → virtual_contents s ≡ drop (ring_length s - virtual_length s) (contents s)
virtual_contents-drop {s} v = elim (dec_lt 0 s.size) [
  | yes pos ↦ virtual_contents-drop_pos v pos
  | no none_there ↦
      eq_of_length_zero _ _
        (omega (arith, length-virtual_contents v, virtual_length-le v, ring_length-le v))
        (omega (
          arith,
          length-drop (ring_length s - virtual_length s) (contents s),
          length-contents v,
          ring_length-le v,
        ))
]

module _ (s : RingBuffer) (len : ℕ) (e : Bool) (v : IsValid s) (pos : 0 < len) where
  pub grown-Holds : Holds (grown s len e) (ring_length s) (virtual_length s)
  grown-Holds = record {
    stored = omega (
      arith,
      length-overwrite (replicate (s.size + len) 0) (contents s),
      length-replicate {A = ℕ} (s.size + len) 0,
    );
    r_in = omega arith;
    w_at = ground (arith, ring_length-le v);
    vr_at = ground (arith, ring_length-le v);
    vlen_le = virtual_length-le v;
    len_le = omega (arith, ring_length-le v);
  }

  grown-Views : Views (grown s len e) (contents s) (virtual_contents s)
  grown-Views = record {
    held = rw (length-contents v, length-virtual_contents v) grown-Holds;
    all =
        window-overwrite (replicate (s.size + len) 0) (contents s) (s.size + len) 0
          (length (contents s)) (length-replicate (s.size + len) 0) (omega arith)
          (omega (arith, length-contents v, ring_length-le v));
    virtually =
        window-overwrite (replicate (s.size + len) 0) (contents s) (s.size + len)
          (ring_length s - virtual_length s) (length (virtual_contents s))
          (length-replicate (s.size + len) 0)
          (omega (arith, length-contents v, length-virtual_contents v, virtual_length-le v))
          (omega (arith, length-contents v, ring_length-le v))
        ∙ sym (virtual_contents-drop v);
  }

-- With `len` bytes readable, `size - len` are free.
pub free-add-length : {s : RingBuffer} → IsValid s → free s + ring_length s ≡ s.size
unfolding free ring_length
free-add-length v = ground arith

-- `Write` into an array with room enough.
after_write-Appends :
    (s t : RingBuffer) (p : List ℕ)
    → Views t (contents s) (virtual_contents s)
    → length (contents s) + length p ≤ t.size
    → 0 < length p
    → t.size ≡ max s.size (length (contents s) + length p)
    → Appends s p (after_write t p)
after_write-Appends s t p views fits pos grows = record {
  bytes = contents-after_write t p views fits pos;
  virtual_bytes = virtual_contents-after_write t p views fits pos;
  keeps = after_write-IsValid t p views.held fits pos;
  grows = grows;
}

write_in_place :
    (s : RingBuffer) (p : List ℕ)
    → IsValid s
    → 0 < length p
    → length p ≤ free s
    → (write s p ≡ some (length p, after_write s p)) × Appends s p (after_write s p)
unfolding write
write_in_place s p v pos room =
    let fits : ring_length s + length p ≤ s.size = omega (arith, free-add-length v) in
    let valid_size : 0 < s.size = omega arith in
    (
      ground (arith, store_lem s p (IsValid-Holds v valid_size) fits pos),
      after_write-Appends s s p (IsValid-Views v valid_size) (omega (arith, length-contents v)) pos
          (omega (arith, length-contents v)),
    )

write_grown :
    (s : RingBuffer) (p : List ℕ)
    → IsValid s
    → 0 < length p
    → free s < length p
    → (s' : RingBuffer) × (write s p ≡ some (length p, s')) × Appends s p s'
unfolding write
write_grown s p v pos short =
    let more = length p - free s in
    let (e, made) = make_space_lem s more v (omega arith) in
    let t = grown s more e in
    let fits : ring_length s + length p ≤ s.size + more = omega (arith, free-add-length v) in
    (
      after_write t p,
      ground (arith, made, store_lem t p (grown-Holds s more e v (omega arith)) fits pos),
      after_write-Appends s t p (grown-Views s more e v (omega arith))
          (omega (arith, length-contents v)) pos
          (omega (arith, length-contents v, free-add-length v)),
    )

-- `Write` does not panic on a valid buffer, returns `len(p)`, and appends `p` to what the reader
-- sees and to what the virtual reader sees; it keeps the invariant, and the array grows to the
-- contents' new length if that is more than its size, and not otherwise.
pub write_lem :
    (s : RingBuffer) (p : List ℕ)
    → IsValid s
    → (s' : RingBuffer) × (write s p ≡ some (length p, s')) × Appends s p s'
write_lem s [] v = (
  s,
  (unfold write in refl),
  record {
    bytes = sym (append-nil _);
    virtual_bytes = sym (append-nil _);
    keeps = v;
    grows = omega (arith, length-contents v, ring_length-le v);
  },
)
write_lem s (x ∷ p) v = elim (dec_le (length (x ∷ p)) (free s)) [
  | yes room ↦
      let (returns, appends) = write_in_place s (x ∷ p) v (omega arith) room in
      (after_write s (x ∷ p), returns, appends)
  | no short ↦ write_grown s (x ∷ p) v (omega arith) (omega arith)
]

-- The end of `Write`, after `makeSpace`.
abbrev stored : RingBuffer → List ℕ → Option (ℕ × RingBuffer)
stored s p = store s p >>= λ (buf', w').
    some (length p, record s { buf = buf'; w = if w' == s.size then 0 else w'; is_empty = false })

stored-IsSettled :
    (s : RingBuffer) (p : List ℕ) (n : ℕ) (t : RingBuffer)
    → IsSettled s
    → stored s p ≡ some (n, t)
    → IsSettled t
stored-IsSettled s p n t settled h = elim (Option-cases (store s p)) [
  | inl e ↦ absurd (ground (arith, e))
  | inr (x, e) ↦ ground (arith, e)
]

grown-IsSettled : (s : RingBuffer) (len : ℕ) (e : Bool) → IsSettled s → IsSettled (grown s len e)
unfolding ring_length virtual_length
grown-IsSettled s len e settled = ground arith

-- `Write` opens no virtual session.
pub write-IsSettled :
    (s : RingBuffer) (p : List ℕ) (n : ℕ) (t : RingBuffer)
    → IsValid s
    → IsSettled s
    → write s p ≡ some (n, t)
    → IsSettled t
unfolding write
write-IsSettled s [] n t v settled h = ground arith
write-IsSettled s (x ∷ p) n t v settled h = elim (dec_le (length (x ∷ p)) (free s)) [
  | yes room ↦ stored-IsSettled s (x ∷ p) n t settled (ground arith)
  | no short ↦
      let len = length (x ∷ p) - free s in
      let (e, makes) = make_space_lem s len v (omega arith) in
      stored-IsSettled (grown s len e) (x ∷ p) n t (grown-IsSettled s len e settled)
        (ground (arith, makes))
]
