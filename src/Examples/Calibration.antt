-- ===== src/Examples/Calibration.antt =====
-- A calibration of the pool, with a sort in place of sort.Sort.
use goreactor.Common.{
  ℕ, ◌≤◌, ◌/◌, inl, inr, List, [], ◌∷◌, ◌≡◌, refl, arith, replicate, leb, if◌then◌else◌, Bool-cases,
}
use mathlib.Core.Logic.Or
use native.Mathlib.Bridge.{le_prop}
use mathlib.Core.Path.{subst, sym}
use mathlib.Core.List.{not-mem-nil, mem-cons, Perm, Pairwise}
use mathlib.Core.List.Perm
use goreactor.Pool.Defs.{Pool, CallSize, calibrate, call_sizes}
use goreactor.Pool.Calibrate.{Sorts, MostCalled, calibrate_lem}

-- Insertion into a list with the most calls first.
insert : CallSize → List CallSize → List CallSize
insert c [] = c ∷ []
insert c (d ∷ l) = if leb d.calls c.calls then c ∷ d ∷ l else d ∷ insert c l

insertion_sort : List CallSize → List CallSize
insertion_sort [] = []
insertion_sort (c ∷ l) = insert c (insertion_sort l)

insert-Perm : (c : CallSize) (l : List CallSize) → Perm (insert c l) (c ∷ l)
unfolding insert
insert-Perm c [] = Perm.rfl
insert-Perm c (d ∷ l) = elim (Bool-cases (leb d.calls c.calls)) [
  | inl e ↦ subst (λ b. Perm (if b then c ∷ d ∷ l else d ∷ insert c l) (c ∷ d ∷ l)) (sym e) Perm.rfl
  | inr e ↦
      subst (λ b. Perm (if b then c ∷ d ∷ l else d ∷ insert c l) (c ∷ d ∷ l)) (sym e)
        (Perm.trans (Perm.cons d (insert-Perm c l)) (Perm.swap c d l))
]

Ordered : List CallSize → Type 0
Ordered l = Pairwise (λ a b. b.calls ≤ a.calls) l

insert-Ordered : (c : CallSize) (l : List CallSize) → Ordered l → Ordered (insert c l)
unfolding insert Ordered
insert-Ordered c [] p = Pairwise.cons (λ a m. absurd (not-mem-nil m)) Pairwise.nil
insert-Ordered c (d ∷ l) (Pairwise.cons first rest) = elim (Bool-cases (leb d.calls c.calls)) [
  | inl e ↦
      subst (λ b. Ordered (if b then c ∷ d ∷ l else d ∷ insert c l)) (sym e)
        (Pairwise.cons
          (λ x m.
            Or.elim le_prop (mem-cons.0 m) (λ q. rw q (ground arith))
              (λ n. ground (arith, first x n)))
          (Pairwise.cons first rest))
  | inr e ↦
      subst (λ b. Ordered (if b then c ∷ d ∷ l else d ∷ insert c l)) (sym e)
        (Pairwise.cons
          (λ x m.
            Or.elim le_prop (mem-cons.0 ((Perm.mem_iff (insert-Perm c l)).0 m))
              (λ q. rw q (ground arith)) (λ n. first x n))
          (insert-Ordered c l rest))
]

insertion_sort-Perm : (l : List CallSize) → Perm (insertion_sort l) l
unfolding insertion_sort
insertion_sort-Perm [] = Perm.rfl
insertion_sort-Perm (c ∷ l) =
    Perm.trans (insert-Perm c (insertion_sort l)) (Perm.cons c (insertion_sort-Perm l))

insertion_sort-Ordered : (l : List CallSize) → Ordered (insertion_sort l)
unfolding insertion_sort Ordered
insertion_sort-Ordered [] = Pairwise.nil
insertion_sort-Ordered (c ∷ l) = insert-Ordered c (insertion_sort l) (insertion_sort-Ordered l)

insertion_sort-Sorts : Sorts insertion_sort
unfolding Ordered
insertion_sort-Sorts = record { same = insertion_sort-Perm; ordered = insertion_sort-Ordered }

-- A pool that counted buffers of three classes.
abbrev counted : Pool
counted = record {
  calls = 3 ∷ 9 ∷ 1 ∷ [];
  calibrating = 0;
  default_size = 0;
  max_size = 0;
  items = [];
}

abbrev half : ℕ → ℕ
half n = n / 2

calibrate_lem_example :
    let p' = calibrate insertion_sort half counted in
    MostCalled (call_sizes 0 (3 ∷ 9 ∷ 1 ∷ [])) p'.default_size
    × (p'.default_size ≤ p'.max_size)
    × (p'.calls ≡ replicate 3 0)
    × (p'.calibrating ≡ 0)
    × (p'.items ≡ [])
calibrate_lem_example =
    calibrate_lem insertion_sort half insertion_sort-Sorts counted refl (omega arith)
