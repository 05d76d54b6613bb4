-- ===== src/RingBuffer/Access.antt =====
-- The operations of ringbuffer/ringbuffer.go that leave the buffer as it is: `Peek`, `PeekAll`,
-- the peeks at big-endian numbers, and `Bytes`.
use goreactor.Common.{ℕ, ◌+◌, ◌-◌, Option, some, List, []}
use goreactor.Common.{ltb, leb, if◌then◌else◌, ◌>>=◌, ◌||◌, length, replicate}
use goreactor.Common.{slice, copy_at, get_elem?, be_uint}
use goreactor.RingBuffer.Defs.{RingBuffer, ring_length}

unfoldable pub peek : RingBuffer → ℕ → Option (List ℕ × List ℕ)
peek s len =
    if s.is_empty || leb len 0
    then some ([], [])
    else if ltb s.r s.w
    then (do
      let n = if ltb (s.w - s.r) len then s.w - s.r else len
      first ← slice s.buf s.r (s.r + n)
      some (first, []))
    else let most = s.size - s.r + s.w in
      let n = if ltb most len then most else len in
      if leb (s.r + n) s.size then (do first ← slice s.buf s.r (s.r + n); some (first, [])) else do
        first ← slice s.buf s.r s.size
        end ← slice s.buf 0 (n + s.r - s.size)
        some (first, end)

unfoldable pub peek_all : RingBuffer → Option (List ℕ × List ℕ)
peek_all s =
    if s.is_empty
    then some ([], [])
    else if ltb s.r s.w
    then (do first ← slice s.buf s.r s.w; some (first, []))
    else do first ← slice s.buf s.r s.size; end ← slice s.buf 0 s.w; some (first, end)

unfoldable pub copy_byte : List ℕ → List ℕ → Option (List ℕ)
copy_byte f e = do buf ← copy_at (replicate (length f + length e) 0) 0 f; copy_at buf (length f) e

unfoldable pub peek_uint8 : RingBuffer → Option ℕ
peek_uint8 s =
    if ltb (ring_length s) 1
    then some 0
    else do (f, e) ← peek s 1; if ltb 0 (length e) then get_elem? e 0 else get_elem? f 0

-- `PeekUint16`, `PeekUint32` and `PeekUint64` are this code at 2, 4 and 8 bytes.
unfoldable pub peek_uint : ℕ → RingBuffer → Option ℕ
peek_uint width s = if ltb (ring_length s) width then some 0 else do
  (f, e) ← peek s width
  if ltb 0 (length e) then (do bytes ← copy_byte f e; be_uint width bytes) else be_uint width f

unfoldable pub peek_uint16 : RingBuffer → Option ℕ
peek_uint16 s = peek_uint 2 s

unfoldable pub peek_uint32 : RingBuffer → Option ℕ
peek_uint32 s = peek_uint 4 s

unfoldable pub peek_uint64 : RingBuffer → Option ℕ
peek_uint64 s = peek_uint 8 s

-- `Bytes`: a copy of all that is readable.
unfoldable pub bytes : RingBuffer → Option (List ℕ)
bytes s =
    if s.is_empty
    then some []
    else if ltb s.r s.w
    then (do all ← slice s.buf s.r s.w; copy_at (replicate (s.w - s.r) 0) 0 all)
    else do
      head ← slice s.buf s.r s.size
      tail ← slice s.buf 0 s.w
      out ← copy_at (replicate (s.size - s.r + s.w) 0) 0 head
      copy_at out (s.size - s.r) tail
