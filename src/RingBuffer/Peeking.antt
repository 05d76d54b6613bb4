-- ===== src/RingBuffer/Peeking.antt =====
-- `Peek`, `PeekAll`, the peeks at numbers and `Bytes` show the oldest bytes.
use goreactor.Common.{
  ℕ, zero, suc, ◌+◌, ◌-◌, ◌≤◌, ◌<◌, min, false, List, [], ◌∷◌, some, ◌++◌, ◌≡◌, arith, refl, ap,
  sym, ◌∙◌, Bool-cases, inl, inr,
}
use goreactor.Common.{
  ltb, leb, if◌then◌else◌, ◌>>=◌, length, take, drop, overwrite, replicate, copy_at, be_number,
  be_uint,
}
use goreactor.Common.{
  take_min, length-drop, slice_lem, copy_at_lem, take_all, eq_of_length_zero, length-take,
  length-append, splice-overwrite, overwrite_full, length-replicate, length-overwrite,
}
use mathlib.Core.List.{append-nil}
use native.Mathlib.Decide.{dec_lt}
use goreactor.RingBuffer.Defs.{RingBuffer, ring_length}
use goreactor.RingBuffer.Access.{
  peek, peek_all, copy_byte, peek_uint, peek_uint16, peek_uint32, peek_uint64, bytes,
}
use goreactor.RingBuffer.Contents.{
  window, contents, IsValid, length-contents, ring_length_zero, ring_length_pos, take-contents,
}

-- The window in its two parts: up to the end of the array, and from its start.
first_part : List ℕ → ℕ → ℕ → ℕ → List ℕ
first_part buf size start n =
    if leb (start + n) size then take n (drop start buf) else take (size - start) (drop start buf)

end_part : List ℕ → ℕ → ℕ → ℕ → List ℕ
end_part buf size start n = if leb (start + n) size then [] else take (n - (size - start)) buf

parts-window :
    (buf : List ℕ) (size start n : ℕ)
    → first_part buf size start n ++ end_part buf size start n ≡ window buf size start n
unfolding first_part end_part window
parts-window buf size start n = elim (Bool-cases (leb (start + n) size)) [
  | inl near ↦ rw (near, append-nil)
  | inr far ↦ rw far
]

peek-some :
    (s : RingBuffer) (len n : ℕ)
    → IsValid s
    → s.is_empty ≡ false
    → 0 < len
    → n ≡ min len (ring_length s)
    → peek s len ≡ some (first_part s.buf s.size s.r n, end_part s.buf s.size s.r n)
unfolding peek ring_length first_part end_part
peek-some s len n v e h k = ground (
  arith,
  slice_lem s.buf s.r (s.r + n),
  slice_lem s.buf s.r s.size,
  slice_lem s.buf 0 (n + s.r - s.size),
)

-- `Peek(len)` does not panic on a valid buffer; its two slices, one after the other, are the `len`
-- oldest bytes, or all where there are no more.
pub peek_lem :
    (s : RingBuffer) (len : ℕ)
    → IsValid s
    → (first : List ℕ) × (end : List ℕ) × (peek s len ≡ some (first, end))
      × (first ++ end ≡ take len (contents s))
peek_lem s zero v = ([], [], (unfold peek in ground arith), refl)
peek_lem s (suc len) v = elim (Bool-cases s.is_empty) [
  | inl none_there ↦ (
    [],
    [],
    (unfold peek in ground arith),
    eq_of_length_zero _ _ refl (
        omega (
          arith,
          length-take (suc len) (contents s),
          length-contents v,
          ring_length_zero v none_there,
        )),
  )
  | inr e ↦
      let n = min (suc len) (ring_length s) in
      (
        first_part s.buf s.size s.r n,
        end_part s.buf s.size s.r n,
        peek-some s (suc len) n v e (omega arith) refl,
        parts-window s.buf s.size s.r n
            ∙ sym (take-contents n v (omega arith))
            ∙ take_min (suc len) (contents s) n (omega (arith, length-contents v)),
      )
]

peek_all-some :
    (s : RingBuffer)
    → IsValid s
    → s.is_empty ≡ false
    → peek_all s
      ≡ some
          (first_part s.buf s.size s.r (ring_length s), end_part s.buf s.size s.r (ring_length s))
unfolding peek_all ring_length first_part end_part
peek_all-some s v e =
    ground (arith, slice_lem s.buf s.r s.w, slice_lem s.buf s.r s.size, slice_lem s.buf 0 s.w)

-- `PeekAll` on a valid buffer is `Peek` of as many bytes as there are: it does not panic, and its
-- two slices, one after the other, are the contents.
pub peek_all_lem :
    (s : RingBuffer)
    → IsValid s
    → (first : List ℕ) × (end : List ℕ) × (peek_all s ≡ some (first, end))
      × (peek s (ring_length s) ≡ some (first, end))
      × (first ++ end ≡ contents s)
peek_all_lem s v = elim (Bool-cases s.is_empty) [
  | inl none_there ↦ (
    [],
    [],
    (unfold peek_all in ground arith),
    (unfold peek in ground (arith)),
    eq_of_length_zero _ _ refl (omega (arith, length-contents v, ring_length_zero v none_there)),
  )
  | inr e ↦ (
    _,
    _,
    peek_all-some s v e,
    peek-some s (ring_length s) (ring_length s) v e (ring_length_pos v e) (omega arith),
    parts-window s.buf s.size s.r (ring_length s) ∙ (unfold contents in refl),
  )
]

copy_byte_lem : (f e : List ℕ) → copy_byte f e ≡ some (f ++ e)
unfolding copy_byte
copy_byte_lem f e =
    let zeros : List ℕ = replicate (length f + length e) 0 in
    ground (
      arith,
      copy_at_lem (overwrite zeros f) (length f) e,
      length-overwrite zeros f,
      length-replicate {A = ℕ} (length f + length e) 0,
      splice-overwrite zeros f e,
      overwrite_full zeros (f ++ e),
      length-append f e,
    )

bytes_below :
    (s : RingBuffer) → IsValid s → s.is_empty ≡ false → s.r < s.w → bytes s ≡ some (contents s)
unfolding bytes contents window ring_length
bytes_below s v e h = ground (
  arith,
  slice_lem s.buf s.r s.w,
  overwrite_full (replicate (s.w - s.r) 0) (take (s.w - s.r) (drop s.r s.buf)),
  length-replicate {A = ℕ} (s.w - s.r) 0,
  length-take (s.w - s.r) (drop s.r s.buf),
  length-drop s.r s.buf,
)

-- The two copies of `Bytes` and of `copyByte` are the same.
two_copies :
    (n k : ℕ) (head tail : List ℕ)
    → n ≡ length head + length tail
    → k ≡ length head
    → (copy_at (replicate n 0) 0 head >>= λ out. copy_at out k tail) ≡ some (head ++ tail)
unfolding copy_byte
two_copies n k head tail h l = rw (h, l) (copy_byte_lem head tail)

bytes_around :
    (s : RingBuffer)
    → IsValid s
    → s.is_empty ≡ false
    → s.w ≤ s.r
    → bytes s ≡ some (take (s.size - s.r) (drop s.r s.buf) ++ take s.w s.buf)
unfolding bytes
bytes_around s v e h =
    let head = take (s.size - s.r) (drop s.r s.buf) in
    let tail = take s.w s.buf in
    ground (
      arith,
      slice_lem s.buf s.r s.size,
      slice_lem s.buf 0 s.w,
      two_copies (s.size - s.r + s.w) (s.size - s.r) head tail,
      length-take (s.size - s.r) (drop s.r s.buf),
      length-drop s.r s.buf,
      length-take s.w s.buf,
    )

contents_around :
    (s : RingBuffer)
    → IsValid s
    → s.is_empty ≡ false
    → s.w ≤ s.r
    → contents s ≡ take (s.size - s.r) (drop s.r s.buf) ++ take s.w s.buf
unfolding contents window ring_length
contents_around s v e h = ground (arith, append-nil (take (s.size - s.r) (drop s.r s.buf)))

-- `Bytes` does not panic on a valid buffer and returns a copy of all that it holds.
pub bytes_lem : (s : RingBuffer) → IsValid s → bytes s ≡ some (contents s)
bytes_lem s v = elim (Bool-cases s.is_empty) [
  | inl none_there ↦
      (unfold bytes in
        ground (
          arith,
          eq_of_length_zero {A = ℕ} [] (contents s),
          length-contents v,
          ring_length_zero v none_there,
        ))
  | inr e ↦ elim (dec_lt s.r s.w) [
    | yes below ↦ bytes_below s v e below
    | no around ↦
        bytes_around s v e (omega arith) ∙ ap some (sym (contents_around s v e (omega arith)))
  ]
]

be_uint_lem :
    (width : ℕ) (bs : List ℕ) → length bs ≡ width → be_uint width bs ≡ some (be_number 0 bs)
be_uint_lem width bs h = ground (arith, take_all width bs)

peek_uint_parts :
    (width : ℕ) (s : RingBuffer) (f e : List ℕ)
    → width ≤ ring_length s
    → peek s width ≡ some (f, e)
    → length (f ++ e) ≡ width
    → peek_uint width s ≡ some (be_number 0 (f ++ e))
unfolding peek_uint
peek_uint_parts width s f [] h shown size = ground (arith, shown, be_uint_lem width f, append-nil f)
peek_uint_parts width s f (x ∷ e) h shown size =
    ground (arith, shown, copy_byte_lem f (x ∷ e), be_uint_lem width (f ++ (x ∷ e)))

peek_uint_enough :
    (width : ℕ) (s : RingBuffer)
    → IsValid s
    → width ≤ ring_length s
    → peek_uint width s ≡ some (be_number 0 (take width (contents s)))
peek_uint_enough width s v h =
    let (f, e, shown, joined) = peek_lem s width v in
    peek_uint_parts width s f e h shown (
      omega (
        arith,
        ap (λ (l : List ℕ). length l) joined,
        length-take width (contents s),
        length-contents v,
      ))
    ∙ ap (λ l. some (be_number 0 l)) joined

peek_uint_width :
    (width : ℕ) (s : RingBuffer)
    → IsValid s
    → peek_uint width s
      ≡ some (if ltb (length (contents s)) width then 0 else be_number 0 (take width (contents s)))
peek_uint_width width s v = elim (dec_lt (ring_length s) width) [
  | yes short ↦ (unfold peek_uint in ground (arith, length-contents v))
  | no enough ↦ ground (arith, length-contents v, peek_uint_enough width s v)
]

-- `PeekUint16`, `PeekUint32` and `PeekUint64` on a valid buffer do not panic: they return 0 if
-- there are not bytes enough, and else the big-endian number in the oldest bytes.
pub peek_uint_lem :
    (s : RingBuffer)
    → IsValid s
    → let shows = λ (width : ℕ).
      some (if ltb (length (contents s)) width then 0 else be_number 0 (take width (contents s))) in
      (peek_uint16 s ≡ shows 2) × (peek_uint32 s ≡ shows 4) × (peek_uint64 s ≡ shows 8)
unfolding peek_uint16 peek_uint32 peek_uint64
peek_uint_lem s v = (peek_uint_width 2 s v, peek_uint_width 4 s v, peek_uint_width 8 s v)
