-- ===== src/Reactor/Server/Defs.antt =====
-- server.go: `NewServer`, `Start` and `Stop`; listener.go: `HandleEvent` and `Stop`; `Stop` of a loop
-- and `Close` of its poller. What the operating system and the timing wheel answer are parameters.
use Prim.Native.Nat.{bit_and}
use goreactor.Common.{ℕ, zero, suc, Bool, true, false, not, List, [], ◌∷◌, ◌++◌, Option, none, some}
use goreactor.Common.{◌==◌, if◌then◌else◌, ◌>>=◌, length}
use goreactor.Reactor.Events.{event_read}

-- Whether `Poll` is running, whether the poller's file descriptors are open, and whether the operating
-- system lets `Wake` write to its event file.
pub record Poller : Type 0 where
  pub running : Bool
  pub is_open : Bool
  pub wakes : Bool

-- `poller.New` without an error: the counter of the event file is 0 and can be raised.
unfoldable pub new_poller : Poller
new_poller = record { running = false; is_open = true; wakes = true }

-- `Poll`, as far as `running`.
unfoldable pub enter_poll : Poller → Poller
enter_poll p = record p { running = true }

-- `Poller.Close`, to where the loop, once woken, has left `Poll`; `false` is an error, of a poller that
-- is not running or of `Wake`.
unfoldable pub close_poller : Poller → Poller × Bool
close_poller p =
    if not p.running
    then (p, false)
    else if not p.wakes
    then (record p { running = false }, false)
    else (record p { running = false; is_open = false }, true)

-- The return of `EventLoop.Stop`, which `listener.Stop` calls; the task that `Stop` queues before it and
-- `ConnCnt` are left out.
unfoldable pub stop_loop : Poller → Poller × Bool
stop_loop p = close_poller p

-- Go's `for` that stops the loops made so far and drops the errors.
unfoldable pub stop_all : List Poller → List Poller
stop_all [] = []
stop_all (p ∷ ps) = (stop_loop p).0 ∷ stop_all ps

-- What `NewServer` makes: the loops, or an error, with the loops that are left behind.
pub data Made : Type 0 where
  loops : List Poller → Made
  failed : List Poller → Made

-- The `for` of `NewServer` with `n` rounds left; `eventloop.New` fails in the rounds in which `fails` says so.
unfoldable pub make_loops : ℕ → (ℕ → Bool) → List Poller → Made
make_loops zero fails made = loops made
make_loops (suc n) fails made =
    let rest = make_loops n fails (made ++ new_poller ∷ []) in
    if fails (length made) then failed (stop_all made) else rest

-- `NewServer` after the listener: `num_loops` is not positive where it is 0.
unfoldable pub new_work_loops : ℕ → ℕ → (ℕ → Bool) → Made
new_work_loops num_cpu num_loops fails =
    make_loops (if num_loops == 0 then num_cpu else num_loops) fails []

pub record Server : Type 0 where
  pub running : Bool
  pub wheel_running : Bool
  pub listener : Poller
  pub work_loops : List Poller

unfoldable pub enter_all : List Poller → List Poller
enter_all [] = []
enter_all (p ∷ ps) = enter_poll p ∷ enter_all ps

-- `Start`, when the goroutines it starts have all entered `Poll`.
unfoldable pub start : Server → Server
start s = record {
  running = true;
  wheel_running = true;
  listener = enter_poll s.listener;
  work_loops = enter_all s.work_loops;
}

-- A loop is stopped; `none` is log.Fatal.
unfoldable pub or_fatal : Poller × Bool → Option Poller
or_fatal (p, true) = some p
or_fatal (p, false) = none

unfoldable pub stop_loops : List Poller → Option (List Poller)
stop_loops [] = some []
stop_loops (p ∷ ps) = do q ← or_fatal (stop_loop p); qs ← stop_loops ps; some (q ∷ qs)

unfoldable pub stop_started : Server → Option Server
stop_started s = do
  l ← or_fatal (stop_loop s.listener)
  ps ← stop_loops s.work_loops
  some (record { running = false; wheel_running = false; listener = l; work_loops = ps })

-- `Stop`
unfoldable pub stop : Server → Option Server
stop s = if s.running then stop_started s else some s

-- What `HandleEvent` of the listener does: nothing, log.Fatal, or `handleNewConnection`.
pub data Accepted : Type 0 where
  nothing : Accepted
  ends : Accepted
  connects : ℕ → Accepted

-- The result of `unix.Accept`.
pub data Accept : Type 0 where
  accepted : ℕ → Accept
  again : Accept
  failed_accept : Accept

unfoldable pub after_accept : (ℕ → Bool) → Accept → Accepted
after_accept set_nonblock (accepted nfd) = if set_nonblock nfd then connects nfd else ends
after_accept set_nonblock again = nothing
after_accept set_nonblock failed_accept = ends

unfoldable pub handle_listener_event : (ℕ → Bool) → Accept → ℕ → Accepted
handle_listener_event set_nonblock accept events =
    if bit_and events event_read == 0 then nothing else after_accept set_nonblock accept
