-- ===== src/RingBuffer/Making.antt =====
-- The constructors, `WithData`, `Reset` and `RetrieveAll` establish the invariant.
use goreactor.Common.{ℕ, ◌<◌, true, List, [], ◌∷◌, ◌≡◌, arith, refl, ◌∙◌}
use goreactor.Common.{length, length-replicate, take_all}
use goreactor.RingBuffer.Defs.{
  RingBuffer, ring_length, new, with_data, new_with_data, reset, free, is_full, capacity,
}
use goreactor.RingBuffer.Contents.{
  window, contents, IsValid, IsSettled, ring_length_zero, length-contents,
}

pub length-zero : (l : List ℕ) → length l ≡ 0 → l ≡ []
length-zero [] h = refl
length-zero (x ∷ l) h = absurd (omega arith)

new-IsValid : (size : ℕ) → IsValid (new size)
unfolding new
new-IsValid size = ground (arith, length-replicate {A = ℕ} size 0)

-- `New(size)` makes a valid buffer of that capacity with no contents and all its room free.
pub new_lem :
    (size : ℕ)
    → IsValid (new size)
      × IsSettled (new size)
      × (contents (new size) ≡ [])
      × (capacity (new size) ≡ size)
      × (free (new size) ≡ size)
new_lem size = (
  new-IsValid size,
  (unfold new in refl),
  length-zero _ (
      length-contents (new-IsValid size)
      ∙ ring_length_zero (new-IsValid size) (unfold new in refl)),
  (unfold capacity new in refl),
  (unfold free new in ground arith),
)

with_data-IsValid :
    (s : RingBuffer) (bytes : List ℕ) → 0 < length bytes → IsValid (with_data s bytes)
unfolding with_data
with_data-IsValid s bytes h = ground arith

window_whole : (bytes : List ℕ) (n : ℕ) → n ≡ length bytes → window bytes n 0 n ≡ bytes
unfolding window
window_whole bytes n h = ground (arith, take_all n bytes)

-- `WithData` on data that is not empty makes a valid, full buffer that holds exactly the data,
-- whatever the buffer held before; so does `NewWithData`.
pub with_data_lem :
    (s : RingBuffer) (bytes : List ℕ)
    → 0 < length bytes
    → IsValid (with_data s bytes)
      × IsSettled (with_data s bytes)
      × (contents (with_data s bytes) ≡ bytes)
      × (is_full (with_data s bytes) ≡ true)
      × (with_data s bytes ≡ new_with_data bytes)
with_data_lem s bytes h = (
  with_data-IsValid s bytes h,
  (unfold with_data in refl),
  (unfold contents ring_length with_data in (window_whole bytes (length bytes) refl)),
  (unfold is_full with_data in ground arith),
  (unfold with_data new_with_data in refl),
)

-- `Reset` makes a valid buffer of any whose array has its size's length.
pub reset_of_stored :
    (s : RingBuffer) → length s.buf ≡ s.size → IsValid (reset s) × (ring_length (reset s) ≡ 0)
unfolding reset ring_length
reset_of_stored s v = ground arith
