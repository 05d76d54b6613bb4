-- ===== src/RingBuffer/Bytewise.antt =====
-- `WriteByte`, `ReadByte` and `Retrieve`, in terms of `Write`, `Read` and the contents.
use goreactor.Common.{
  ℕ, zero, suc, ◌+◌, ◌≤◌, ◌<◌, min, false, List, [], ◌∷◌, some, ◌≡◌, arith, refl, ap, sym, ◌∙◌,
  Bool-cases, inl, inr,
}
use goreactor.Common.{
  ◌==◌, if◌then◌else◌, length, get_or, drop, splice, set, get_elem?, get_elem?-eq-get_or,
}
use goreactor.Common.{get_or-splice, length-drop, eq_of_length_zero, splice_one}
use native.Mathlib.Decide.{dec_lt, dec_le}
use goreactor.RingBuffer.Defs.{
  RingBuffer, ring_length, write, write_byte, free, read, read_byte, ReadResult, retrieve,
  retrieve_all, nil, err_is_empty,
}
use goreactor.RingBuffer.Contents.{
  length-window, window, contents, IsValid, length-contents, ring_length-le, ring_length_zero,
  ring_length_pos, get_or-window,
}
use goreactor.RingBuffer.Reading.{
  after_read, read_take-read_done, read_done_lem, after_read-IsValid, contents-after_read,
  advance-wrap,
}
use goreactor.RingBuffer.Growing.{make_space_lem, grown, grown-Holds, free-add-length}
use goreactor.RingBuffer.Storing.{Holds, IsValid-Holds, store_lem}
use goreactor.RingBuffer.Writing.{after_write}

-- The byte goes where a copy of one byte would go.
put_byte :
    (t : RingBuffer) (c : ℕ) {len vlen : ℕ}
    → Holds t len vlen
    → len + 1 ≤ t.size
    → record t {
      buf = set t.buf t.w c;
      w = if t.w + 1 == t.size then 0 else t.w + 1;
      is_empty = false;
    }
      ≡ after_write t (c ∷ [])
put_byte t c held h = ground (arith, held.w_at, held.r_in, splice_one t.buf t.w c)

write_byte_in_place :
    (s : RingBuffer) (c : ℕ)
    → IsValid s
    → 1 ≤ free s
    → (write_byte s c ≡ some (after_write s (c ∷ [])))
      × (write s (c ∷ []) ≡ some (1, after_write s (c ∷ [])))
unfolding write_byte write
write_byte_in_place s c v h =
    let pos : 0 < s.size = omega (arith, free-add-length v) in
    let fits : ring_length s + 1 ≤ s.size = omega (arith, free-add-length v) in
    let held = IsValid-Holds v pos in
    (
      ground (arith, put_byte s c held fits, v.w_in, v.stored),
      ground (arith, store_lem s (c ∷ []) held fits),
    )

write_byte_grown :
    (s : RingBuffer) (c : ℕ)
    → IsValid s
    → free s < 1
    → (s' : RingBuffer) × (write_byte s c ≡ some s') × (write s (c ∷ []) ≡ some (1, s'))
unfolding write_byte write
write_byte_grown s c v h =
    let (e, made) = make_space_lem s 1 v (omega arith) in
    let held = grown-Holds s 1 e v (omega arith) in
    let fits : ring_length s + 1 ≤ s.size + 1 = omega (arith, ring_length-le v) in
    let t = grown s 1 e in
    (
      after_write t (c ∷ []),
      ground (arith, made, put_byte t c held fits, held.stored, ring_length-le v),
      ground (arith, made, store_lem t (c ∷ []) held fits),
    )

-- `WriteByte(c)` leaves a valid buffer as `Write([]byte{c})` leaves it, and panics on none.
pub write_byte-write :
    (s : RingBuffer) (c : ℕ)
    → IsValid s
    → (s' : RingBuffer) × (write_byte s c ≡ some s') × (write s (c ∷ []) ≡ some (1, s'))
write_byte-write s c v = elim (dec_le 1 (free s)) [
  | yes room ↦
      let (one, whole) = write_byte_in_place s c v room in (after_write s (c ∷ []), one, whole)
  | no short ↦ write_byte_grown s c v (omega arith)
]

-- `ReadByte` on a valid buffer does not panic. On one with bytes it returns the oldest and drops
-- it from the contents; on an empty one it returns 0 and `ErrIsEmpty` and changes nothing.

-- The oldest byte, as `ReadByte` reads it and as `Read` copies it.
oldest :
    (s : RingBuffer)
    → IsValid s
    → s.is_empty ≡ false
    → get_elem? s.buf s.r ≡ some (get_or s.buf s.r 0)
oldest s v e = get_elem?-eq-get_or s.buf s.r 0 (omega (arith, v.stored, v.r_in, v.room e))

read_byte-some :
    (s : RingBuffer)
    → IsValid s
    → s.is_empty ≡ false
    → (read_byte s ≡ some (get_or s.buf s.r 0, nil, after_read s 1))
      × (read s (0 ∷ [])
          ≡ some (record {
            n = 1;
            err = nil;
            p = splice (0 ∷ []) 0 (window s.buf s.size s.r 1);
            ring = after_read s 1;
          }))
unfolding read_byte read
read_byte-some s v e =
    let one : 1 ≡ min 1 (ring_length s) = omega (arith, ring_length_pos v e) in
    (
      ground (arith, oldest s v e),
      ground (
        arith,
        read_take-read_done s (0 ∷ []) 1 v e one,
        read_done_lem s 1 (splice (0 ∷ []) 0 (window s.buf s.size s.r 1)),
        v.room e,
      ),
    )

head-window :
    (buf : List ℕ) (size start : ℕ)
    → length buf ≡ size
    → start < size
    → get_or (splice (0 ∷ []) 0 (window buf size start 1)) 0 0 ≡ get_or buf start 0
head-window buf size start e h =
    get_or-splice (0 ∷ []) 0 (window buf size start 1) 0 0 (omega arith)
    ∙ ground (arith, length-window buf size start 1 e, get_or-window buf size start 1 0 e)

-- `ReadByte` leaves a valid buffer as `Read` into a slice of one zero byte leaves it, with the
-- same error, and returns the byte that is then in the slice; neither panics.
pub read_byte-read :
    (s : RingBuffer)
    → IsValid s
    → (out : ReadResult) × (read s (0 ∷ []) ≡ some out)
      × (read_byte s ≡ some (get_or out.p 0 0, out.err, out.ring))
read_byte-read s v = elim (Bool-cases s.is_empty) [
  | inl none_there ↦ (
    record { n = 0; err = err_is_empty; p = 0 ∷ []; ring = s },
    (unfold read in ground arith),
    (unfold read_byte in ground arith),
  )
  | inr e ↦
      let (one, whole) = read_byte-some s v e in
      (
        _,
        whole,
        one
            ∙ ap (λ b. some (b, nil, after_read s 1))
                (sym (head-window s.buf s.size s.r v.stored (omega (arith, v.r_in, v.room e)))),
      )
]

retrieve-some :
    (s : RingBuffer) (n : ℕ)
    → IsValid s
    → s.is_empty ≡ false
    → 0 < n
    → n < ring_length s
    → retrieve s n ≡ some (after_read s n)
unfolding retrieve
retrieve-some s n v e h k = ground (arith, advance-wrap s s.r n, ring_length-le v, v.r_in, v.room e)

retrieve_rest :
    (s : RingBuffer) (n : ℕ)
    → IsValid s
    → s.is_empty ≡ false
    → 0 < n
    → ring_length s ≤ n
    → retrieve s n ≡ some (retrieve_all s)
unfolding retrieve
retrieve_rest s n v e h k = ground arith

pub retrieve_all-IsValid :
    {s : RingBuffer} → IsValid s → IsValid (retrieve_all s) × (ring_length (retrieve_all s) ≡ 0)
unfolding retrieve_all ring_length
retrieve_all-IsValid v = ground arith

-- `Retrieve(n)` does not panic on a valid buffer, drops the `n` oldest bytes, or all where there
-- are no more, and keeps the invariant.
pub retrieve_lem :
    (s : RingBuffer) (n : ℕ)
    → IsValid s
    → (s' : RingBuffer) × (retrieve s n ≡ some s')
      × (contents s' ≡ drop n (contents s))
      × IsValid s'
retrieve_lem s zero v = (s, (unfold retrieve in ground arith), refl, v)
retrieve_lem s (suc n) v = elim (Bool-cases s.is_empty) [
  | inl none_there ↦ (
    s,
    (unfold retrieve in ground arith),
    eq_of_length_zero _ _ (omega (arith, length-contents v, ring_length_zero v none_there)) (
        omega (
          arith,
          length-drop (suc n) (contents s),
          length-contents v,
          ring_length_zero v none_there,
        )),
    v,
  )
  | inr e ↦ elim (dec_lt (suc n) (ring_length s)) [
    | yes part ↦ (
      after_read s (suc n),
      retrieve-some s (suc n) v e (omega arith) part,
      contents-after_read s (suc n) v e (omega arith) (omega arith),
      after_read-IsValid s (suc n) v e (omega arith) (omega arith),
    )
    | no whole ↦
        let (keeps, emptied) = retrieve_all-IsValid v in
        (
          retrieve_all s,
          retrieve_rest s (suc n) v e (omega arith) (omega arith),
          eq_of_length_zero _ _ (omega (arith, length-contents keeps, emptied))
              (omega (arith, length-drop (suc n) (contents s), length-contents v)),
          keeps,
        )
  ]
]
