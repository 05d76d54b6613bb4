-- ===== src/Connection/Unpacking.antt =====
-- protocol.go: `DefaultProtocol.UnPacket`, and `recv` of connection.go is the same on the
-- connection's own buffer. `user_buf` is the loop's `UserBuf`, whose capacity is its length.
use goreactor.Common.{
  ℕ, ◌-◌, ◌+◌, ◌≤◌, List, [], ◌∷◌, ◌++◌, Option, some, ◌≡◌, refl, arith, zero, suc, ap, sym, ◌∙◌,
}
use goreactor.Common.{
  ltb, if◌then◌else◌, ◌>>=◌, length, length-append, replicate, slice, copy_at, copy_at_lem,
  slice_lem, take, drop, overwrite, length-overwrite, splice-overwrite, length-replicate,
  eq_of_length_zero,
}
use native.Mathlib.Decide.{dec_lt}
use mathlib.Core.Path.{subst}
use mathlib.Core.List.{append-nil}
use goreactor.RingBuffer.Defs.{RingBuffer, retrieve_all, ring_length}
use goreactor.RingBuffer.Access.{peek_all}
use goreactor.RingBuffer.Contents.{contents, IsValid}
use goreactor.RingBuffer.Bytewise.{retrieve_all-IsValid}
use goreactor.RingBuffer.Peeking.{peek_all_lem}

-- The bytes, the buffer, and `UserBuf`.
pub record Received : Type 0 where
  pub bytes : List ℕ
  pub ring : RingBuffer
  pub user_buf : List ℕ

-- Two slices, one after the other, in `UserBuf`, which is made anew where it is too small.
unfoldable pub join : List ℕ → List ℕ → List ℕ → RingBuffer → Option Received
join user_buf s e buf = do
  let size = length s + length e
  let large = if ltb (length user_buf) size then replicate size 0 else user_buf
  one ← copy_at large 0 s
  both ← copy_at one (length s) e
  bytes ← slice both 0 size
  some (record { bytes = bytes; ring = retrieve_all buf; user_buf = both })

unfoldable pub unpack_all : List ℕ → RingBuffer → Option Received
unpack_all user_buf buf = do
  (s, e) ← peek_all buf
  (if ltb 0 (length e)
      then join user_buf s e buf
      else some (record { bytes = s; ring = retrieve_all buf; user_buf = user_buf }))

take-overwrite :
    (xs src : List ℕ) (n : ℕ)
    → n ≡ length src
    → length src ≤ length xs
    → take n (overwrite xs src) ≡ src
take-overwrite xs [] zero h k = refl
take-overwrite xs [] (suc n) h k = absurd (omega arith)
take-overwrite [] (y ∷ src) n h k = absurd (omega arith)
take-overwrite (x ∷ xs) (y ∷ src) zero h k = absurd (omega arith)
take-overwrite (x ∷ xs) (y ∷ src) (suc n) h k =
    ap (λ l. y ∷ l) (take-overwrite xs src n (omega arith) (omega arith))

-- The slice that is large enough.
abbrev large : List ℕ → ℕ → List ℕ
large user_buf size = if ltb (length user_buf) size then replicate size 0 else user_buf

large_enough : (user_buf : List ℕ) (size : ℕ) → size ≤ length (large user_buf size)
large_enough user_buf size = ground (arith, length-replicate {A = ℕ} size 0)

join_lem :
    (user_buf s e : List ℕ) (buf : RingBuffer)
    → (out : Received) × (join user_buf s e buf ≡ some out)
      × (out.bytes ≡ s ++ e)
      × (out.ring ≡ retrieve_all buf)
unfolding join
join_lem user_buf s e buf =
    let size = length s + length e in
    let room = large user_buf size in
    let enough : size ≤ length room = large_enough user_buf size in
    let both = overwrite room (s ++ e) in
    let whole : take (size - 0) (drop 0 both) ≡ s ++ e =
      take-overwrite room (s ++ e) (size - 0) (omega (arith, length-append s e))
        (omega (arith, length-append s e)) in
    (
      record { bytes = s ++ e; ring = retrieve_all buf; user_buf = both },
      rw
          (
            copy_at_lem room 0 s (omega arith),
            copy_at_lem (overwrite room s) (length s) e (omega (arith, length-overwrite room s)),
            splice-overwrite room s e,
            slice_lem both 0 size (omega arith) (omega (arith, length-overwrite room (s ++ e))),
            whole,
          )
          refl,
      refl,
      refl,
    )

-- `UnPacket` of the default protocol on a valid buffer does not panic, returns all bytes of the
-- buffer in order, whether they go round the end or not and whether `UserBuf` is large enough or
-- not, and leaves the buffer valid and empty.
pub unpack_all_lem :
    (user_buf : List ℕ) (buf : RingBuffer)
    → IsValid buf
    → (out : Received) × (unpack_all user_buf buf ≡ some out)
      × (out.bytes ≡ contents buf)
      × (ring_length out.ring ≡ 0)
      × IsValid out.ring
unfolding unpack_all
unpack_all_lem user_buf buf v =
    let (s, e, peeks, same, parts) = peek_all_lem buf v in
    let (keeps, emptied) = retrieve_all-IsValid v in
    elim (dec_lt 0 (length e)) [
      | yes around ↦
          let (out, joins, bytes, ring) = join_lem user_buf s e buf in
          (
            out,
            ground (arith, peeks, joins),
            bytes ∙ parts,
            ap ring_length ring ∙ emptied,
            subst IsValid (sym ring) keeps,
          )
      | no straight ↦ (
        record { bytes = s; ring = retrieve_all buf; user_buf = user_buf },
        ground (arith, peeks),
        sym (append-nil s) ∙ ap (λ l. s ++ l) (eq_of_length_zero [] e refl (omega arith)) ∙ parts,
        emptied,
        keeps,
      )
    ]
