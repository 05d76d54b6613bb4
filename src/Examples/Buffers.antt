-- ===== src/Examples/Buffers.antt =====
-- Buffers of four and of eight bytes, and the theorems about ringbuffer/ at them.
use goreactor.Common.{◌<◌, false, [], ◌∷◌, some, ◌≡◌, refl, arith}
use goreactor.RingBuffer.Defs.{
  RingBuffer, ReadResult, err_is_empty, read, write, virtual_read, virtual_flush, virtual_revert,
  virtual_length, ring_length, is_full,
}
use goreactor.RingBuffer.Contents.{contents, IsValid}
use goreactor.RingBuffer.Reading.{Reads, read_lem}
use goreactor.RingBuffer.Writing.{Appends}
use goreactor.RingBuffer.Growing.{write_lem}
use goreactor.RingBuffer.Virtual.{virtual_read-read}
use goreactor.RingBuffer.Exhausted.{revert_loses, flush_full_loses}
use goreactor.RingBuffer.Queue.{put, get, skip, look, clear, run, queue_run, run_refines}

-- The bytes 1, 2 and 3 are in the buffer, around the end of its array.
abbrev ring : RingBuffer
ring = record { buf = 3 ∷ 0 ∷ 1 ∷ 2 ∷ []; size = 4; vr = 2; r = 2; w = 1; is_empty = false }

-- The same with one byte read virtually.
abbrev ahead : RingBuffer
ahead = record { buf = 3 ∷ 0 ∷ 1 ∷ 2 ∷ []; size = 4; vr = 3; r = 2; w = 1; is_empty = false }

-- The bytes 1 and 2, not around the end.
abbrev low : RingBuffer
low = record { buf = 1 ∷ 2 ∷ 0 ∷ 0 ∷ []; size = 4; vr = 0; r = 0; w = 2; is_empty = false }

-- Full.
abbrev full : RingBuffer
full = record { buf = 1 ∷ 2 ∷ []; size = 2; vr = 0; r = 0; w = 0; is_empty = false }

ring-IsValid : IsValid ring
ring-IsValid = ground arith

ahead-IsValid : IsValid ahead
ahead-IsValid = ground arith

low-IsValid : IsValid low
low-IsValid = ground arith

full-IsValid : IsValid full
full-IsValid = ground arith

run_refines_example :
    run ring (get 2 ∷ put (4 ∷ 5 ∷ 6 ∷ 7 ∷ []) ∷ look 3 ∷ skip 1 ∷ get 9 ∷ clear ∷ [])
    ≡ some (
        queue_run
          (contents ring)
          (get 2 ∷ put (4 ∷ 5 ∷ 6 ∷ 7 ∷ []) ∷ look 3 ∷ skip 1 ∷ get 9 ∷ clear ∷ []))
run_refines_example =
    run_refines ring (get 2 ∷ put (4 ∷ 5 ∷ 6 ∷ 7 ∷ []) ∷ look 3 ∷ skip 1 ∷ get 9 ∷ clear ∷ [])
      ring-IsValid

read_lem_example :
    (out : ReadResult) × (read ring (0 ∷ 0 ∷ []) ≡ some out) × Reads ring (0 ∷ 0 ∷ []) out
read_lem_example = read_lem ring (0 ∷ 0 ∷ []) ring-IsValid

write_lem_example :
    (s' : RingBuffer) × (write ring (4 ∷ 5 ∷ []) ≡ some (2, s')) × Appends ring (4 ∷ 5 ∷ []) s'
write_lem_example = write_lem ring (4 ∷ 5 ∷ []) ring-IsValid

virtual_read-read_example :
    (out : ReadResult) × (virtual_read ring (0 ∷ 0 ∷ []) ≡ some out)
    × (virtual_revert out.ring ≡ ring)
    × (read ring (0 ∷ 0 ∷ []) ≡ some (record out { ring = virtual_flush out.ring }))
virtual_read-read_example =
    virtual_read-read ring (0 ∷ 0 ∷ []) ring-IsValid refl (omega arith)
      (unfold ring_length in omega arith)

revert_loses_example :
    (out : ReadResult) × (virtual_read low (0 ∷ 0 ∷ []) ≡ some out)
    × (ring_length (virtual_revert out.ring) ≡ ring_length low)
    × (read (virtual_revert out.ring) (0 ∷ [])
        ≡ some (record { n = 0; err = err_is_empty; p = 0 ∷ []; ring = virtual_revert out.ring }))
revert_loses_example =
    revert_loses low (0 ∷ 0 ∷ []) (0 ∷ []) low-IsValid (omega arith)
      (unfold virtual_length in omega arith) (omega arith)

flush_full_loses_example :
    (ring_length full ≡ full.size) × (0 < full.size) × (ring_length (virtual_flush full) ≡ 0)
flush_full_loses_example = flush_full_loses full full-IsValid refl (unfold is_full in refl)
