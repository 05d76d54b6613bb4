-- ===== src/Pool/Calibrate.antt =====
-- What `calibrate` makes of the counters.
use goreactor.Common.{
  ℕ, ◌≤◌, ◌<◌, List, [], ◌∷◌, ◌≡◌, refl, arith, length, replicate, ltb, if◌then◌else◌,
}
use mathlib.Core.Logic.Or
use native.Mathlib.Bridge.{le_prop}
use mathlib.Core.List.{
  not-mem-nil, mem-cons_self, mem-cons, rel_of_Pairwise-cons, Mem, Perm, Pairwise,
}
use mathlib.Core.List.Perm
use goreactor.Pool.Defs.{
  Pool, CallSize, calibrate, call_sizes, calls_sum, scan_max, first_size, add_u64,
}

-- What `sort.Sort` documents, for the order `Less` of `callSizes`: the same elements, and none
-- before one with more calls.
pub record Sorts (sort : List CallSize → List CallSize) : Type 0 where
  pub same : (l : List CallSize) → Perm (sort l) l
  pub ordered : (l : List CallSize) → Pairwise (λ a b. b.calls ≤ a.calls) (sort l)

max-le-scan_max : (max_sum sum max : ℕ) (l : List CallSize) → max ≤ scan_max max_sum sum max l
unfolding scan_max
max-le-scan_max max_sum sum max [] = omega arith
max-le-scan_max max_sum sum max (c ∷ cs) = ground (
  arith,
  max-le-scan_max max_sum (add_u64 sum c.calls) (if ltb max c.size then c.size else max) cs,
)

-- A size that stands beside a count which no other count exceeds.
abbrev pub MostCalled : List CallSize → ℕ → Type 0
MostCalled l size =
    (top : CallSize) × Mem top l
    × (top.size ≡ size)
    × ((c : CallSize) → Mem c l → c.calls ≤ top.calls)

first_size-MostCalled :
    (a l : List CallSize)
    → Perm a l
    → Pairwise (λ x y. y.calls ≤ x.calls) a
    → (l ≡ [] → ⊥)
    → MostCalled l (first_size a)
first_size-MostCalled [] [] same ordered some_there = absurd (some_there refl)
first_size-MostCalled [] (c ∷ l) same ordered some_there =
    absurd (not-mem-nil ((Perm.mem_iff same).1 mem-cons_self))
first_size-MostCalled (c ∷ a) l same ordered some_there = (
  c,
  (Perm.mem_iff same).0 mem-cons_self,
  refl,
  λ d m.
      Or.elim le_prop (mem-cons.0 ((Perm.mem_iff same).1 m)) (λ e. rw e (omega arith))
        (λ n. rel_of_Pairwise-cons ordered n),
)

classes : (i : ℕ) (cs : List ℕ) → 0 < length cs → call_sizes i cs ≡ [] → ⊥
unfolding call_sizes
classes i [] h e = absurd (omega arith)
classes i (c ∷ cs) h e = cc

module _ (sort : List CallSize → List CallSize) (share : ℕ → ℕ) (sorts : Sorts sort) where
  -- Where sort.Sort sorts as it documents, no other calibration runs and there are classes, a calibration sets
  -- the counters to zero, lets the next one run, takes as the default size that of a class that no class was
  -- counted more often than, sets a maximal size that is no smaller, and leaves the items alone.
  pub calibrate_lem :
      (p : Pool)
      → p.calibrating ≡ 0
      → 0 < length p.calls
      → let p' = calibrate sort share p in
        MostCalled (call_sizes 0 p.calls) p'.default_size
        × (p'.default_size ≤ p'.max_size)
        × (p'.calls ≡ replicate (length p.calls) 0)
        × (p'.calibrating ≡ 0)
        × (p'.items ≡ p.items)
  calibrate_lem p idle some_classes =
      let a = sort (call_sizes 0 p.calls) in
      unfold calibrate in
      rw (idle, calibrate)
        (
          first_size-MostCalled a (call_sizes 0 p.calls) (sorts.same (call_sizes 0 p.calls))
              (sorts.ordered (call_sizes 0 p.calls)) (classes 0 p.calls some_classes),
          max-le-scan_max (share (calls_sum p.calls)) 0 (first_size a) a,
          refl,
          refl,
          refl,
        )
