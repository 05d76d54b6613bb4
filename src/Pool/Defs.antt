-- ===== src/Pool/Defs.antt =====
-- ringbuffer/pool.go: the pool, its calibration by the sizes that come back, and `Get` and `Put`.
-- One goroutine's view: each atomic operation is a step of its own on the state. Three things
-- are parameters: which item `sync.Pool` hands out (`choice`, out of range for none), the order
-- that `sort.Sort` gives, and the float product `float64(sum) * 0.95` cut to an integer.
use goreactor.Common.{
  ℕ, zero, suc, ◌+◌, ◌-◌, ◌*◌, ◌/◌, ◌%◌, ◌^◌, not, true, false, ◌||◌, List, [], ◌∷◌, none, some,
}
use goreactor.Common.{ltb, leb, ◌==◌, if◌then◌else◌, length, get_or, get_elem?, set, replicate}
use goreactor.RingBuffer.Defs.{RingBuffer, new, reset}

abbrev pub min_bit_size : ℕ
min_bit_size = 6

abbrev pub steps : ℕ
steps = 20

abbrev pub min_size : ℕ
min_size = 2 ^ min_bit_size

abbrev pub calibrate_calls_threshold : ℕ
calibrate_calls_threshold = 42000

-- `uint64` addition
abbrev pub add_u64 : ℕ → ℕ → ℕ
add_u64 a b = (a + b) % 2 ^ 64

-- `type Pool`; `items` are the buffers that `sync.Pool` keeps.
pub record Pool : Type 0 where
  pub calls : List ℕ
  pub calibrating : ℕ
  pub default_size : ℕ
  pub max_size : ℕ
  pub items : List RingBuffer

abbrev pub default_pool : Pool
default_pool = record {
  calls = replicate steps 0;
  calibrating = 0;
  default_size = 0;
  max_size = 0;
  items = [];
}

-- `type callSize`
pub record CallSize : Type 0 where
  pub calls : ℕ
  pub size : ℕ

-- The loop of `index`: `fuel` rounds suffice where `n < 2 ^ fuel`.
unfoldable pub halvings : ℕ → ℕ → ℕ → ℕ
halvings zero n idx = idx
halvings (suc fuel) n idx = elim (ltb 0 n) [ true ↦ halvings fuel (n / 2) (idx + 1) | false ↦ idx ]

-- `index`. For `n = 0` the source shifts -1, which stays -1 and ends the loop at once, as 0 does.
unfoldable pub index : ℕ → ℕ
index n =
    let shifted = (n - 1) / 2 ^ min_bit_size in
    let idx = halvings shifted shifted 0 in if leb steps idx then steps - 1 else idx

-- The first loop of `calibrate`: each counter with the size of its class, from class `i` on.
unfoldable pub call_sizes : ℕ → List ℕ → List CallSize
call_sizes i [] = []
call_sizes i (c ∷ cs) = record { calls = c; size = min_size * 2 ^ i } ∷ call_sizes (i + 1) cs

unfoldable pub calls_sum : List ℕ → ℕ
calls_sum [] = 0
calls_sum (c ∷ cs) = add_u64 c (calls_sum cs)

-- The second loop: the largest size among the classes that make up the share `max_sum`.
unfoldable pub scan_max : ℕ → ℕ → ℕ → List CallSize → ℕ
scan_max max_sum sum max [] = max
scan_max max_sum sum max (c ∷ cs) =
    let rest = scan_max max_sum (add_u64 sum c.calls) (if ltb max c.size then c.size else max) cs in
    if ltb max_sum sum then max else rest

-- `a[0].size`
abbrev pub first_size : List CallSize → ℕ
first_size [] = 0
first_size (c ∷ cs) = c.size

module _ (sort : List CallSize → List CallSize) (share : ℕ → ℕ) where
  unfoldable pub calibrate : Pool → Pool
  calibrate p =
      if not (p.calibrating == 0)
      then p
      else let a = sort (call_sizes 0 p.calls) in
        record p {
          calls = replicate (length p.calls) 0;
          default_size = first_size a;
          max_size = scan_max (share (calls_sum p.calls)) 0 (first_size a) a;
          calibrating = 0;
        }

  -- `Put`
  unfoldable pub put : Pool → RingBuffer → Pool
  put p b =
      let idx = index (length b.buf) in
      let n = add_u64 (get_or p.calls idx 0) 1 in
      let counted = record p { calls = set p.calls idx n } in
      let p' = if ltb calibrate_calls_threshold n then calibrate counted else counted in
      if p'.max_size == 0 || leb (length b.buf) p'.max_size
      then record p' { items = reset b ∷ p'.items }
      else p'

-- The items without the one at an index.
abbrev pub without : ℕ → List RingBuffer → List RingBuffer
without i [] = []
without zero (b ∷ bs) = bs
without (suc i) (b ∷ bs) = b ∷ without i bs

-- `Get`
unfoldable pub get : Pool → ℕ → RingBuffer × Pool
get p choice = elim (get_elem? p.items choice) [
  | some b ↦ (b, record p { items = without choice p.items })
  | none ↦ (new p.default_size, p)
]
