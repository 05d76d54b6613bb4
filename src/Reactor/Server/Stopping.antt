-- ===== src/Reactor/Server/Stopping.antt =====
-- What `Stop` and a failing `NewServer` leave.
use goreactor.Common.{
  ℕ, zero, suc, ◌+◌, Bool, true, false, ◌&&◌, List, [], ◌∷◌, ◌++◌, none, some, ◌≡◌, refl, ap, ◌∙◌,
  arith,
}
use goreactor.Common.{◌==◌, if◌then◌else◌, ◌>>=◌, length}
use goreactor.Reactor.Server.Defs.{
  Poller, Server, close_poller, enter_all, enter_poll, failed, loops, make_loops, new_poller,
  new_work_loops, or_fatal, start, stop, stop_all, stop_loop, stop_loops, stop_started,
}

-- All are in `Poll` and can be woken.
unfoldable pub can_stop : List Poller → Bool
can_stop [] = true
can_stop (p ∷ ps) = p.running && p.wakes && can_stop ps

unfoldable pub closed : List Poller → List Poller
closed [] = []
closed (p ∷ ps) = record p { running = false; is_open = false } ∷ closed ps

stop_loops_lem :
    (ps : List Poller) → stop_loops ps ≡ (if can_stop ps then some (closed ps) else none)
unfolding stop_loops can_stop closed or_fatal stop_loop close_poller
stop_loops_lem [] = refl
stop_loops_lem (p ∷ ps) = ground (arith, stop_loops_lem ps)

-- Stop does nothing to a server that is not running; else it ends the program if the listener or one of the loops
-- is not in Poll or cannot be woken, and closes the listener's poller and those of all loops if they can; another Stop
-- then does nothing.
pub stop_lem :
    (s : Server)
    → (stop s ≡ (
        if s.running
        then (if can_stop (s.listener ∷ s.work_loops)
            then some (record {
              running = false;
              wheel_running = false;
              listener = record s.listener { running = false; is_open = false };
              work_loops = closed s.work_loops;
            })
            else none)
        else some s))
      × ((stop s >>= stop) ≡ stop s)
unfolding stop stop_started can_stop or_fatal stop_loop close_poller
stop_lem s =
    (ground (arith, stop_loops_lem s.work_loops), ground (arith, stop_loops_lem s.work_loops))

unfoldable pub copies : ℕ → List Poller
copies zero = []
copies (suc n) = new_poller ∷ copies n

-- Whether one of `n` calls of `eventloop.New` fails, the first being number `i`.
unfoldable pub any_fails : (ℕ → Bool) → ℕ → ℕ → Bool
any_fails fails i zero = false
any_fails fails i (suc n) = if fails i then true else any_fails fails (suc i) n

-- The number of the first call that fails.
unfoldable pub first_failure : (ℕ → Bool) → ℕ → ℕ → ℕ
first_failure fails i zero = i
first_failure fails i (suc n) = if fails i then i else first_failure fails (suc i) n

copies-append : (i : ℕ) → copies i ++ new_poller ∷ [] ≡ copies (suc i)
unfolding copies
copies-append zero = refl
copies-append (suc i) = ap (λ ps. new_poller ∷ ps) (copies-append i)

length-copies : (i : ℕ) → length (copies i) ≡ i
unfolding copies
length-copies zero = refl
length-copies (suc i) = ap suc (length-copies i)

stop_all-copies : (i : ℕ) → stop_all (copies i) ≡ copies i
unfolding copies stop_all stop_loop close_poller new_poller
stop_all-copies zero = refl
stop_all-copies (suc i) = ap (λ ps. new_poller ∷ ps) (stop_all-copies i)

make_loops_lem :
    (n i : ℕ) (fails : ℕ → Bool) (made : List Poller)
    → made ≡ copies i
    → make_loops n fails made ≡ (
        if any_fails fails i n
        then failed (copies (first_failure fails i n))
        else loops (copies (i + n)))
unfolding make_loops any_fails first_failure
make_loops_lem zero i fails made e = ap loops (e ∙ ap copies (omega arith))
make_loops_lem (suc n) i fails made e =
    let count = ap length e ∙ length-copies i in
    let rest =
      make_loops_lem n (suc i) fails (made ++ new_poller ∷ [])
        (ap (λ ps. ps ++ new_poller ∷ []) e ∙ copies-append i) in
    let sum : copies (suc i + n) ≡ copies (i + suc n) = ap copies (omega arith) in
    let left = ap stop_all e ∙ stop_all-copies i in ground arith

-- `NewServer` makes as many loops as the option says, or as there are processors if it says 0; if one
-- cannot be made, it returns an error, and the loops made before it stay open, since `Stop` does not close
-- a poller that is not running.
pub new_work_loops_lem :
    (num_cpu num_loops : ℕ) (fails : ℕ → Bool)
    → new_work_loops num_cpu num_loops fails ≡ (
        let n = if num_loops == 0 then num_cpu else num_loops in
        if any_fails fails 0 n then failed (copies (first_failure fails 0 n)) else loops (copies n))
unfolding new_work_loops copies
new_work_loops_lem num_cpu num_loops fails =
    ground (arith, make_loops_lem (if num_loops == 0 then num_cpu else num_loops) 0 fails [] refl)

closed-enter_all : (ps : List Poller) → closed (enter_all ps) ≡ closed ps
unfolding closed enter_all enter_poll
closed-enter_all [] = refl
closed-enter_all (p ∷ ps) =
    ap (λ qs. record p { running = false; is_open = false } ∷ qs) (closed-enter_all ps)

unfoldable pub all_wake : List Poller → Bool
all_wake [] = true
all_wake (p ∷ ps) = p.wakes && all_wake ps

enter_all-can_stop : (ps : List Poller) → can_stop (enter_all ps) ≡ all_wake ps
unfolding can_stop enter_all enter_poll all_wake
enter_all-can_stop [] = refl
enter_all-can_stop (p ∷ ps) = ap (λ b. p.wakes && b) (enter_all-can_stop ps)

-- A server that was started, its goroutines having entered `Poll`, stops without an error and with all pollers closed,
-- if all of them can be woken.
pub stop-start :
    (s : Server)
    → all_wake (s.listener ∷ s.work_loops) ≡ true
    → stop (start s)
      ≡ some (record {
        running = false;
        wheel_running = false;
        listener = record s.listener { running = false; is_open = false };
        work_loops = closed s.work_loops;
      })
unfolding start enter_poll can_stop all_wake
stop-start s wakes =
    let both = (stop_lem (start s)).0 in
    ground (arith, both, enter_all-can_stop s.work_loops, closed-enter_all s.work_loops)
