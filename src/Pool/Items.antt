-- ===== src/Pool/Items.antt =====
-- What the pool hands out.
use goreactor.Common.{
  ℕ, zero, suc, List, [], ◌∷◌, some, ◌≡◌, inl, inr, arith, length, get_elem?, Option-cases, ◌∙◌,
}
use mathlib.Core.Path.{subst}
use goreactor.RingBuffer.Defs.{RingBuffer, reset}
use goreactor.RingBuffer.Contents.{contents, IsValid, length-contents}
use goreactor.RingBuffer.Making.{new_lem, reset_of_stored, length-zero}
use goreactor.Pool.Defs.{Pool, CallSize, put, get, calibrate, without}

-- Every buffer in the pool is valid and empty.
abbrev pub IsFresh : RingBuffer → Type 0
IsFresh b = IsValid b × (contents b ≡ [])

abbrev pub AllFresh : List RingBuffer → Type 0
AllFresh [] = Unit {0}
AllFresh (b ∷ bs) = IsFresh b × AllFresh bs

reset-IsFresh : (b : RingBuffer) → length b.buf ≡ b.size → IsFresh (reset b)
reset-IsFresh b h =
    let (keeps, emptied) = reset_of_stored b h in
    (keeps, length-zero _ (length-contents keeps ∙ emptied))

AllFresh-without : (i : ℕ) (bs : List RingBuffer) → AllFresh bs → AllFresh (without i bs)
AllFresh-without i [] h = tt
AllFresh-without zero (b ∷ bs) h = h.1
AllFresh-without (suc i) (b ∷ bs) h = (h.0, AllFresh-without i bs h.1)

AllFresh-get_elem? :
    (i : ℕ) (bs : List RingBuffer) (b : RingBuffer)
    → AllFresh bs
    → get_elem? bs i ≡ some b
    → IsFresh b
AllFresh-get_elem? i [] b h e = cc
AllFresh-get_elem? zero (c ∷ bs) b h e = subst IsFresh (cc) h.0
AllFresh-get_elem? (suc i) (c ∷ bs) b h e = AllFresh-get_elem? i bs b h.1 e

module _ (sort : List CallSize → List CallSize) (share : ℕ → ℕ) where
  -- Every buffer that comes back is put away empty and valid, if its array has its size's length,
  -- whatever it held and wherever its pointers stood; the pool drops it or keeps it, and the
  -- buffers that were there stay.
  pub put-AllFresh :
      (p : Pool) (b : RingBuffer)
      → length b.buf ≡ b.size
      → AllFresh p.items
      → AllFresh (put sort share p b).items
  unfolding put calibrate
  put-AllFresh p b h fresh = ground (arith, reset-IsFresh b h)

-- `Get` hands out a valid buffer with no contents, whichever item it takes and also when it makes
-- a new one, and leaves only such buffers in the pool.
pub get-IsFresh :
    (p : Pool) (choice : ℕ)
    → AllFresh p.items
    → IsFresh (get p choice).0 × AllFresh (get p choice).1.items
get-IsFresh p choice fresh = elim (Option-cases (get_elem? p.items choice)) [
  | inl e ↦
      unfold get in rw (e, get) (((new_lem p.default_size).0, (new_lem p.default_size).2), fresh)
  | inr (b, e) ↦
      unfold get in
      rw (e, get)
        (AllFresh-get_elem? choice p.items b fresh e, AllFresh-without choice p.items fresh)
]
