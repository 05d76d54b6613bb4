-- ===== src/RingBuffer/Contents.antt =====
-- The bytes that a ring buffer holds, in order, and the states that its operations keep.
use goreactor.Common.{ℕ, ◌+◌, ◌-◌, ◌≤◌, ◌<◌, max, Bool, true, false, List, ◌⊎◌, ◌++◌, ◌≡◌, arith}
use goreactor.Common.{ltb, leb, if◌then◌else◌, length, get_or, take, drop}
use goreactor.Common.{length-append, length-take, length-drop}
use goreactor.Common.{get_or-append, get_or-take, get_or-drop, get_or_ext}
use goreactor.RingBuffer.Defs.{RingBuffer, ring_length, virtual_length}

-- One step round the end of the array.
abbrev pub wrap : ℕ → ℕ → ℕ
wrap size k = if ltb k size then k else k - size

-- The `n` bytes from index `start` on, going round at `size`.
unfoldable pub window : List ℕ → ℕ → ℕ → ℕ → List ℕ
window buf size start n =
    if leb (start + n) size
    then take n (drop start buf)
    else take (size - start) (drop start buf) ++ take (n - (size - start)) buf

-- All readable bytes, and those that a virtual session has still to read.
unfoldable pub contents : RingBuffer → List ℕ
contents s = window s.buf s.size s.r (ring_length s)

unfoldable pub virtual_contents : RingBuffer → List ℕ
virtual_contents s = window s.buf s.size s.vr (virtual_length s)

-- The virtual read pointer stands on a readable byte.
abbrev pub InWindow : Bool → ℕ → ℕ → ℕ → Type 0
InWindow true r vr w = (vr ≡ r) × (w ≡ r)
InWindow false r vr w = ((r < w) × (r ≤ vr) × (vr < w)) ⊎ ((w ≤ r) × ((r ≤ vr) ⊎ (vr < w)))

pub record IsValid (s : RingBuffer) : Type 0 where
  pub stored : length s.buf ≡ s.size
  pub r_in : s.r < max s.size 1
  pub vr_in : s.vr < max s.size 1
  pub w_in : s.w < max s.size 1
  pub room : s.is_empty ≡ false → 0 < s.size
  pub window_in : InWindow s.is_empty s.r s.vr s.w

-- No virtual session is open.
abbrev pub IsSettled : RingBuffer → Type 0
IsSettled s = s.vr ≡ s.r

pub length-window :
    (buf : List ℕ) (size start n : ℕ)
    → length buf ≡ size
    → start ≤ size
    → n ≤ size
    → length (window buf size start n) ≡ n
unfolding window
length-window buf size start n e p q = ground (
  arith,
  length-append (take (size - start) (drop start buf)) (take (n - (size - start)) buf),
  length-take n (drop start buf),
  length-take (size - start) (drop start buf),
  length-take (n - (size - start)) buf,
  length-drop start buf,
)

pub get_or-window :
    (buf : List ℕ) (size start n i : ℕ)
    → length buf ≡ size
    → start ≤ size
    → i < n
    → get_or (window buf size start n) i 0
      ≡ (if ltb (start + i) size then get_or buf (start + i) 0 else get_or buf (start + i - size) 0)
unfolding window
get_or-window buf size start n i e p q = ground (
  arith,
  get_or-append (take (size - start) (drop start buf)) (take (n - (size - start)) buf) i 0,
  length-take (size - start) (drop start buf),
  length-drop start buf,
  get_or-take n (drop start buf) i 0,
  get_or-take (size - start) (drop start buf) i 0,
  get_or-take (n - (size - start)) buf (i - (size - start)) 0,
  get_or-drop start buf i 0,
)

-- A prefix and a suffix of a window are windows.
pub window-take :
    (buf : List ℕ) (size start n m : ℕ)
    → length buf ≡ size
    → start ≤ size
    → n ≤ size
    → m ≤ n
    → take m (window buf size start n) ≡ window buf size start m
window-take buf size start n m e p q k =
    get_or_ext 0 _ _
      (omega (
        arith,
        length-take m (window buf size start n),
        length-window buf size start n e p q,
        length-window buf size start m e p (omega arith),
      ))
      λ i l. ground (
        arith,
        length-take m (window buf size start n),
        length-window buf size start n e p q,
        get_or-take m (window buf size start n) i 0,
        get_or-window buf size start n i e p,
        get_or-window buf size start m i e p,
      )

pub window-drop :
    (buf : List ℕ) (size start n k : ℕ)
    → length buf ≡ size
    → start < size
    → n ≤ size
    → k ≤ n
    → drop k (window buf size start n) ≡ window buf size (wrap size (start + k)) (n - k)
window-drop buf size start n k e p q l =
    get_or_ext 0 _ _
      (ground (
        arith,
        length-drop k (window buf size start n),
        length-window buf size start n e,
        length-window buf size (wrap size (start + k)) (n - k) e,
      ))
      λ i j. ground (
        arith,
        length-drop k (window buf size start n),
        length-window buf size start n e,
        get_or-drop k (window buf size start n) i 0,
        get_or-window buf size start n (k + i) e,
        get_or-window buf size (wrap size (start + k)) (n - k) i e,
      )

pub ring_length-le : {s : RingBuffer} → IsValid s → ring_length s ≤ s.size
unfolding ring_length
ring_length-le v = ground arith

pub length-contents : {s : RingBuffer} → IsValid s → length (contents s) ≡ ring_length s
unfolding contents
length-contents {s} v =
    length-window s.buf s.size s.r (ring_length s) v.stored
      (omega (arith, v.r_in, v.stored, ring_length-le v)) (ring_length-le v)

pub ring_length_pos : {s : RingBuffer} → IsValid s → s.is_empty ≡ false → 0 < ring_length s
unfolding ring_length
ring_length_pos v e = ground arith

pub ring_length_zero : {s : RingBuffer} → IsValid s → s.is_empty ≡ true → ring_length s ≡ 0
unfolding ring_length
ring_length_zero v e = ground arith

pub take-contents :
    {s : RingBuffer} (m : ℕ)
    → IsValid s
    → m ≤ ring_length s
    → take m (contents s) ≡ window s.buf s.size s.r m
unfolding contents
take-contents {s} m v h =
    window-take s.buf s.size s.r (ring_length s) m v.stored
      (omega (arith, v.r_in, v.stored, ring_length-le v)) (ring_length-le v) h
