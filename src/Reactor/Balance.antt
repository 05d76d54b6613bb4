-- ===== src/Reactor/Balance.antt =====
-- server.go: `RoundRobin`, and which loop `handleNewConnection` takes. `none` is a panic: an index
-- out of range, or the remainder by a length of 0.
use goreactor.Common.{
  ℕ, zero, suc, ◌+◌, ◌%◌, ◌<◌, List, [], ◌∷◌, Option, none, some, ◌≡◌, refl, sym, ap, ap₂, ◌∙◌,
  arith,
}
use goreactor.Common.{◌==◌, if◌then◌else◌, ◌>>=◌, length, get_elem?, get_or, get_elem?-eq-get_or}
use native.Mathlib.Nat.{mod-eq_of_lt, mod-add-mod, mod-mod}

module _ {L : Type 0} where
  -- A call of the function that `RoundRobin` returns: the loop, and the next `nextLoopIndex`.
  unfoldable pub next_loop : List L → ℕ → Option (L × ℕ)
  next_loop loops index = do
    l ← get_elem? loops index
    (if length loops == 0 then none else some (l, (index + 1) % length loops))

  -- The loops of `n` calls of one such function, made when `index` is next.
  unfoldable pub next_loops : ℕ → List L → ℕ → Option (List L)
  next_loops zero loops index = some []
  next_loops (suc n) loops index = do
    (l, index') ← next_loop loops index
    rest ← next_loops n loops index'
    some (l ∷ rest)

  -- `handleNewConnection` makes a new function by `RoundRobin()` and calls it once.
  unfoldable pub new_connection_loop : List L → Option L
  new_connection_loop loops = next_loop loops 0 >>= λ out. some out.0

  -- The first loops, again and again.
  abbrev pub cycle : ℕ → List L → ℕ → List (Option L)
  cycle zero loops index = []
  cycle (suc n) loops index = get_elem? loops (index % length loops) ∷ cycle n loops (index + 1)

  abbrev pub somes : List L → List (Option L)
  somes [] = []
  somes (l ∷ ls) = some l ∷ somes ls

  cycle-mod :
      (n index : ℕ) (loops : List L)
      → 0 < length loops
      → cycle n loops (index % length loops) ≡ cycle n loops index
  cycle-mod zero index loops h = refl
  cycle-mod (suc n) index loops h = ap₂ ◌∷◌ (ap (get_elem? loops) (mod-mod index (length loops))) (
      sym (cycle-mod n (index % length loops + 1) loops h)
      ∙ ap (λ i. cycle n loops i) (mod-add-mod index (length loops) 1)
      ∙ cycle-mod n (index + 1) loops h)

  next_loop_lem :
      (index : ℕ) (loops : List L)
      → index < length loops
      → (l : L) × (get_elem? loops index ≡ some l)
        × (next_loop loops index ≡ some (l, (index + 1) % length loops))
  unfolding next_loop
  next_loop_lem index (l ∷ ls) h = (
    get_or (l ∷ ls) index l,
    get_elem?-eq-get_or (l ∷ ls) index l h,
    ground (arith, get_elem?-eq-get_or (l ∷ ls) index l h),
  )
  next_loop_lem index [] h = absurd (omega arith)

  -- One function of `RoundRobin` hands out the loops in turn, from the one that is next.
  pub next_loops-cycle :
      (n index : ℕ) (loops : List L)
      → index < length loops
      → (out : List L) × (next_loops n loops index ≡ some out) × (somes out ≡ cycle n loops index)
  unfolding next_loops
  next_loops-cycle zero index loops h = ([], refl, refl)
  next_loops-cycle (suc n) index loops h = do
    let (l, at, next) = next_loop_lem index loops h
    let (out, run, eq) = next_loops-cycle n ((index + 1) % length loops) loops (omega arith)
    (
      l ∷ out,
      ground (arith, next, run),
      ap₂ ◌∷◌ (sym at ∙ ap (get_elem? loops) (sym (mod-eq_of_lt h)))
          (eq ∙ cycle-mod n (index + 1) loops (omega arith)),
    )

  -- Every new connection goes to the first loop, however many there are.
  pub new_connection_first : (l : L) (loops : List L) → new_connection_loop (l ∷ loops) ≡ some l
  unfolding new_connection_loop next_loop
  new_connection_first l loops = ground arith
