-- ===== src/RingBuffer/Defs.antt =====
-- The state of ringbuffer/ringbuffer.go and the operations that move its pointers: the
-- constructors, the two ends of a virtual session, the lengths, `Retrieve`, `Read`, `ReadByte`,
-- `VirtualRead`, `Write` and `WriteByte`. `none` is a panic of the Go run time (an index out of
-- range, a division by zero), or a negative `vr` or slice length, which the state cannot hold.
use goreactor.Common.{ℕ, ◌+◌, ◌-◌, ◌%◌, Bool, true, false, Option, none, some, List}
use goreactor.Common.{ltb, leb, ◌==◌, if◌then◌else◌, ◌>>=◌, ◌||◌, not, ◌&&◌}
use goreactor.Common.{length, replicate, slice, copy_at, get_elem?, set}

-- `type RingBuffer`
pub record RingBuffer : Type 0 where
  pub buf : List ℕ
  pub size : ℕ
  pub vr : ℕ
  pub r : ℕ
  pub w : ℕ
  pub is_empty : Bool

-- The error values of the package: `nil` and `ErrIsEmpty`.
pub data Err : Type 0 where
  nil err_is_empty : Err

-- What `Read` and `VirtualRead` leave: their results, the caller's slice and the buffer.
pub record ReadResult : Type 0 where
  pub n : ℕ
  pub err : Err
  pub p : List ℕ
  pub ring : RingBuffer

unfoldable pub new : ℕ → RingBuffer
new size = record { buf = replicate size 0; size = size; vr = 0; r = 0; w = 0; is_empty = true }

unfoldable pub new_with_data : List ℕ → RingBuffer
new_with_data bytes = record {
  buf = bytes;
  size = length bytes;
  vr = 0;
  r = 0;
  w = 0;
  is_empty = false;
}

unfoldable pub with_data : RingBuffer → List ℕ → RingBuffer
with_data s bytes = record s {
  r = 0;
  w = 0;
  vr = 0;
  is_empty = false;
  size = length bytes;
  buf = bytes;
}

unfoldable pub virtual_flush : RingBuffer → RingBuffer
virtual_flush s = record s { r = s.vr; is_empty = if s.vr == s.w then true else s.is_empty }

unfoldable pub virtual_revert : RingBuffer → RingBuffer
virtual_revert s = record s { vr = s.r }

unfoldable pub virtual_length : RingBuffer → ℕ
virtual_length s =
    if s.w == s.vr
    then (if s.is_empty then 0 else s.size)
    else if ltb s.vr s.w
    then s.w - s.vr
    else s.size - s.vr + s.w

-- `Length`
unfoldable pub ring_length : RingBuffer → ℕ
ring_length s =
    if s.w == s.r
    then (if s.is_empty then 0 else s.size)
    else if ltb s.r s.w
    then s.w - s.r
    else s.size - s.r + s.w

unfoldable pub capacity : RingBuffer → ℕ
capacity s = s.size

unfoldable pub free : RingBuffer → ℕ
free s =
    if s.w == s.r
    then (if s.is_empty then s.size else 0)
    else if ltb s.w s.r
    then s.r - s.w
    else s.size - s.w + s.r

unfoldable pub is_full : RingBuffer → Bool
is_full s = not s.is_empty && s.w == s.r

unfoldable pub reset : RingBuffer → RingBuffer
reset s = record s { r = 0; vr = 0; w = 0; is_empty = true }

unfoldable pub retrieve_all : RingBuffer → RingBuffer
retrieve_all s = record s { r = 0; w = 0; vr = 0; is_empty = true }

-- `(p + n) % r.size`
unfoldable pub advance : RingBuffer → ℕ → ℕ → Option ℕ
advance s p n = if s.size == 0 then none else some ((p + n) % s.size)

unfoldable pub retrieve : RingBuffer → ℕ → Option RingBuffer
retrieve s len =
    if s.is_empty || leb len 0
    then some s
    else if ltb len (ring_length s)
    then (do
      r' ← advance s s.r len
      some (record s { r = r'; vr = r'; is_empty = if s.w == r' then true else s.is_empty }))
    else some (retrieve_all s)

-- The branch of both reads in which the bytes may go round the end: `copy` from `start` on.
unfoldable pub copy_wrapped : RingBuffer → ℕ → ℕ → List ℕ → Option (List ℕ)
copy_wrapped s start n p =
    if leb (start + n) s.size
    then (do bytes ← slice s.buf start (start + n); copy_at p 0 bytes)
    else do
      head ← slice s.buf start s.size
      p' ← copy_at p 0 head
      tail ← slice s.buf 0 (n + start - s.size)
      copy_at p' (s.size - start) tail

-- `VirtualRead` for a slice that is not empty and a buffer that is not.
unfoldable pub virtual_take : RingBuffer → List ℕ → Option ReadResult
virtual_take s p =
    if ltb s.vr s.w
    then (do
      let n = if ltb (s.w - s.vr) (length p) then s.w - s.vr else length p
      bytes ← slice s.buf s.vr (s.vr + n)
      p' ← copy_at p 0 bytes
      vr' ← advance s s.vr n
      let e = if vr' == s.w then true else s.is_empty
      some (record { n = n; err = nil; p = p'; ring = record s { vr = vr'; is_empty = e } }))
    else do
      let most = s.size - s.vr + s.w
      let n = if ltb most (length p) then most else length p
      p' ← copy_wrapped s s.vr n p
      vr' ← advance s s.vr n
      some (record { n = n; err = nil; p = p'; ring = record s { vr = vr' } })

unfoldable pub virtual_read : RingBuffer → List ℕ → Option ReadResult
virtual_read s p =
    if length p == 0
    then some (record { n = 0; err = nil; p = p; ring = s })
    else if s.is_empty
    then some (record { n = 0; err = err_is_empty; p = p; ring = s })
    else virtual_take s p

-- The end of `Read`: move the read pointer, and `vr` with it.
unfoldable pub read_done : RingBuffer → ℕ → List ℕ → Option ReadResult
read_done s n p = do
  r' ← advance s s.r n
  let e = if r' == s.w then true else s.is_empty
  some (record { n = n; err = nil; p = p; ring = record s { r = r'; vr = r'; is_empty = e } })

-- `Read` for a slice that is not empty and a buffer that is not.
unfoldable pub read_take : RingBuffer → List ℕ → Option ReadResult
read_take s p =
    if ltb s.r s.w
    then (do
      let n = if ltb (s.w - s.r) (length p) then s.w - s.r else length p
      bytes ← slice s.buf s.r (s.r + n)
      p' ← copy_at p 0 bytes
      read_done s n p')
    else do
      let most = s.size - s.r + s.w
      let n = if ltb most (length p) then most else length p
      p' ← copy_wrapped s s.r n p
      read_done s n p'

unfoldable pub read : RingBuffer → List ℕ → Option ReadResult
read s p =
    if length p == 0
    then some (record { n = 0; err = nil; p = p; ring = s })
    else if s.is_empty
    then some (record { n = 0; err = err_is_empty; p = p; ring = s })
    else read_take s p

unfoldable pub read_byte : RingBuffer → Option (ℕ × Err × RingBuffer)
read_byte s = if s.is_empty then some (0, err_is_empty, s) else do
  b ← get_elem? s.buf s.r
  let r' = if s.r + 1 == s.size then 0 else s.r + 1
  let e = if s.w == r' then true else s.is_empty
  some (b, nil, record s { r = r'; vr = r'; is_empty = e })

-- `makeSpace`: the readable bytes move to the front of a larger array.
unfoldable pub make_space : RingBuffer → ℕ → Option RingBuffer
make_space s len = do
  let vlen = virtual_length s
  let new_size = s.size + len
  let old_len = ring_length s
  out ← read s (replicate new_size 0)
  if ltb old_len vlen
      then none
      else some (record out.ring {
        w = old_len;
        r = 0;
        vr = old_len - vlen;
        size = new_size;
        buf = out.p;
      })

-- The three ways in which `Write` copies `p` behind `w`, and where `w` is then.
unfoldable pub store : RingBuffer → List ℕ → Option (List ℕ × ℕ)
store s p =
    if leb s.r s.w
    then (if leb (length p) (s.size - s.w)
        then (do buf' ← copy_at s.buf s.w p; some (buf', s.w + length p))
        else do
          front ← slice p 0 (s.size - s.w)
          back ← slice p (s.size - s.w) (length p)
          buf' ← copy_at s.buf s.w front
          buf'' ← copy_at buf' 0 back
          some (buf'', s.w + length p - s.size))
    else do buf' ← copy_at s.buf s.w p; some (buf', s.w + length p)

-- `Write` returns `len(p)` and no error, so only the buffer is of interest.
unfoldable pub write : RingBuffer → List ℕ → Option (ℕ × RingBuffer)
write s p = if length p == 0 then some (0, s) else do
  let room = free s
  s' ← if ltb room (length p) then make_space s (length p - room) else some s
  (buf', w') ← store s' p
  let w'' = if w' == s'.size then 0 else w'
  some (length p, record s' { buf = buf'; w = w''; is_empty = false })

unfoldable pub write_byte : RingBuffer → ℕ → Option RingBuffer
write_byte s c = do
  s' ← if ltb (free s) 1 then make_space s 1 else some s
  if ltb s'.w (length s'.buf)
      then some (record s' {
        buf = set s'.buf s'.w c;
        w = if s'.w + 1 == s'.size then 0 else s'.w + 1;
        is_empty = false;
      })
      else none
