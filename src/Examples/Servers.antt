-- ===== src/Examples/Servers.antt =====
-- The theorems about the steps and the sockets of a loop, idle connections and server.go, at small inputs.
use goreactor.Common.{
  ℕ, ◌≤◌, ◌+◌, ◌*◌, Bool, true, false, List, [], ◌∷◌, Option, some, none, ◌≡◌, refl, arith, ap, sym,
  ◌∙◌, if◌then◌else◌, length, leb, ◌==◌, ◌>>=◌,
}
use mathlib.Core.Option.{some-injective}
use goreactor.Reactor.Wakeup.Defs.{
  Loop as Tasks, Action, idle, new_loop, act, append, compare_and_swap, wake, read, store,
  swap_queues, call, finish, Reached, start, then_step, try_wake, write_event, read_event,
  store_need_wake, swap_task_queues, call_next, finish_pending,
}
use goreactor.Reactor.Wakeup.Progress.{
  remaining, run_actions, are_own, is_append, can_step, some_made, is_some, run_actions-executed,
}
use goreactor.Reactor.Sockets.Tables.{find, put, delete, is_absent, find-put, find-delete}
use goreactor.Reactor.Sockets.Defs.{
  Control, ctl_add, ctl_del, ctl_mod, new_sockets, add_socket_and_enable_read,
}
use goreactor.Reactor.Sockets.Counting.{Epoll, IsCounted, Held, made, added_socket, Held-IsCounted}
use goreactor.Connection.Idle.Defs.{new_connection, close_timeout_conn, unix, second}
use goreactor.Connection.Idle.Timing.{Lives, begins, close_timeout_conn_armed}
use goreactor.Reactor.Server.Defs.{Poller, Server, new_poller, stop, new_work_loops, failed, loops}
use goreactor.Reactor.Server.Stopping.{
  can_stop, closed, stop_lem, new_work_loops_lem, copies, any_fails, first_failure,
}

-- The task 7 has just been queued.
abbrev queued : Tasks ℕ
queued = record {
  task_queue_w = 7 ∷ [];
  task_queue_r = [];
  need_wake = true;
  event = 0;
  queuing = 1;
  waking = 0;
  place = idle;
  executed = [];
  history = 7 ∷ [];
}

abbrev done : Tasks ℕ
done = record {
  task_queue_w = [];
  task_queue_r = [];
  need_wake = true;
  event = 0;
  queuing = 0;
  waking = 0;
  place = idle;
  executed = 7 ∷ [];
  history = 7 ∷ [];
}

abbrev actions : List (Action ℕ)
actions = compare_and_swap ∷ wake ∷ read ∷ store ∷ swap_queues ∷ call ∷ finish ∷ []

queued-Reached : Reached queued
unfolding new_loop act
queued-Reached = then_step (append 7) start refl

actions_run : run_actions actions queued ≡ some done
unfolding run_actions act try_wake write_event read_event store_need_wake swap_task_queues call_next
    finish_pending
actions_run = refl

actions_own : are_own actions ≡ true
unfolding are_own is_append
actions_own = refl

done_stuck : can_step done ≡ false
unfolding can_step some_made is_some act try_wake write_event read_event store_need_wake
    swap_task_queues call_next finish_pending
done_stuck = refl

run_actions-executed_example :
    (length actions ≤ remaining queued) × (done.executed ≡ queued.history)
run_actions-executed_example =
    run_actions-executed actions queued done queued-Reached actions_own actions_run done_stuck

-- An interest list as a table of event masks.
abbrev control : Control → ℕ → ℕ → List (ℕ × ℕ) → Option (List (ℕ × ℕ))
control ctl_add fd events k = if is_absent (find fd k) then some (put fd events k) else none
control ctl_del fd events k = if is_absent (find fd k) then none else some (delete fd k)
control ctl_mod fd events k = if is_absent (find fd k) then none else some (put fd events k)

abbrev interest : List (ℕ × ℕ) → ℕ → Option ℕ
interest k fd = find fd k

absent-none : {V : Type 0} (o : Option V) → is_absent o ≡ true → o ≡ none
unfolding is_absent
absent-none none h = refl
absent-none (some x) h = absurd (ground arith)

then_some :
    {V : Type 0} (b : Bool) (x y : V) → (if b then some x else none) ≡ some y → (b ≡ true) × (x ≡ y)
then_some true x y h = (refl, some-injective x y h)
then_some false x y h = absurd (ground arith)

else_some :
    {V : Type 0} (b : Bool) (x y : V)
    → (if b then none else some x) ≡ some y
    → (b ≡ false) × (x ≡ y)
else_some false x y h = (refl, some-injective x y h)
else_some true x y h = absurd (ground arith)

control-Epoll : Epoll control interest
control-Epoll = record {
  added = λ fd events k k' h.
      let (b, e) = then_some (is_absent (find fd k)) (put fd events k) k' h in
      (absent-none (find fd k) b, λ j. ap (find j) (sym e) ∙ find-put fd j events k);
  deleted = λ fd events k k' h.
      let (b, e) = else_some (is_absent (find fd k)) (delete fd k) k' h in
      (b, λ j. ap (find j) (sym e) ∙ find-delete fd j k);
  modified = λ fd events k k' h.
      let (b, e) = else_some (is_absent (find fd k)) (put fd events k) k' h in
      (b, λ j. ap (find j) (sym e) ∙ find-put fd j events k);
  deletes = λ fd events k h. (delete fd k, ap (λ b. if b then none else some (delete fd k)) h);
}

-- Only the event file, 3, is watched.
abbrev event_only : List (ℕ × ℕ)
event_only = (3, 1) ∷ []

event_only_lem : (j : ℕ) → is_absent (interest event_only j) ≡ (if j == 3 then false else true)
unfolding is_absent find
event_only_lem j = ground arith

-- A socket is added under the file descriptor 8.
abbrev conn : ℕ
conn = 50

eight-Held :
    Held control interest control-Epoll 3
      (add_socket_and_enable_read control 8 conn (new_sockets event_only)).0
unfolding new_sockets find
eight-Held = added_socket 8 conn (made event_only event_only_lem) refl

Held-IsCounted_example :
    IsCounted control interest control-Epoll 3
      (add_socket_and_enable_read control 8 conn (new_sockets event_only)).0
Held-IsCounted_example = Held-IsCounted control interest control-Epoll 3 eight-Held

-- Half a minute of idle time, and a connection made five seconds ago.
abbrev minute : ℕ
minute = 30 * second

fresh-Lives : Lives minute (5 * second) (5 * second) (new_connection minute (5 * second))
fresh-Lives = begins (5 * second)

close_timeout_conn_armed_example :
    ((due : ℕ) × ((new_connection minute (5 * second)).timer ≡ some due)
      × (due ≤ 5 * second + minute))
    × ((close_timeout_conn minute (40 * second) (new_connection minute (5 * second))).close_queued
        ≡ leb (unix (5 * second) * second + minute) (40 * second))
    × ((close_timeout_conn minute (40 * second) (new_connection minute (5 * second))).timer ≡ (
        if leb (unix (5 * second) * second + minute) (40 * second)
        then none
        else some (unix (5 * second) * second + minute)))
unfolding new_connection
close_timeout_conn_armed_example =
    close_timeout_conn_armed (40 * second) (omega arith) fresh-Lives (omega arith) refl refl

abbrev polling : Poller
polling = record { running = true; is_open = true; wakes = true }

abbrev served : Server
served = record {
  running = true;
  wheel_running = true;
  listener = polling;
  work_loops = polling ∷ [];
}

stop_lem_example :
    (stop served ≡ (
      if true
      then (if can_stop (polling ∷ polling ∷ [])
          then some (record {
            running = false;
            wheel_running = false;
            listener = record polling { running = false; is_open = false };
            work_loops = closed (polling ∷ []);
          })
          else none)
      else some served))
    × ((stop served >>= stop) ≡ stop served)
stop_lem_example = stop_lem served

-- The third call of `eventloop.New` fails.
abbrev third : ℕ → Bool
third i = i == 2

new_work_loops_lem_example : new_work_loops 8 4 third ≡ (
    let n = if 4 == 0 then 8 else 4 in
    if any_fails third 0 n then failed (copies (first_failure third 0 n)) else loops (copies n))
new_work_loops_lem_example = new_work_loops_lem 8 4 third

-- Two pollers are left open.
left_open : new_work_loops 8 4 third ≡ failed (new_poller ∷ new_poller ∷ [])
unfolding copies any_fails first_failure
left_open = new_work_loops_lem 8 4 third
