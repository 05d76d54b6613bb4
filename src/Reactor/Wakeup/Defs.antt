-- ===== src/Reactor/Wakeup/Defs.antt =====
-- eventloop/eventloop.go: `QueueInLoop`, `handlerEvent` and `doPendingFunc`, with `Wake` and
-- `wakeHandlerRead` of poller/epoll.go, as the steps that goroutines interleave. A task is a value.
use goreactor.Common.{ℕ, zero, suc, Bool, true, false, List, [], ◌∷◌, ◌++◌, Option, some, none, ◌≡◌}

-- Where the loop's goroutine is: waiting in the poller; after `wakeHandlerRead`; after
-- `needWake.Store(true)`; in the `for` of `doPendingFunc`.
pub data Place : Type 0 where
  idle woken stored running : Place

-- `queuing` counts the goroutines between the append and the compare-and-swap of `QueueInLoop`,
-- `waking` those that won it and have not written to the event file; `event` is what was written
-- to that file and not read. `executed` and `history` are the tasks run and queued so far.
pub record Loop (A : Type 0) : Type 0 where
  pub task_queue_w : List A
  pub task_queue_r : List A
  pub need_wake : Bool
  pub event : ℕ
  pub queuing : ℕ
  pub waking : ℕ
  pub place : Place
  pub executed : List A
  pub history : List A

pub data Action (A : Type 0) : Type 0 where
  append : A → Action A
  compare_and_swap wake read store swap_queues call finish : Action A

module _ {A : Type 0} where
  -- `New`
  unfoldable pub new_loop : Loop A
  new_loop = record {
    task_queue_w = [];
    task_queue_r = [];
    need_wake = true;
    event = 0;
    queuing = 0;
    waking = 0;
    place = idle;
    executed = [];
    history = [];
  }

  -- `needWake.CompareAndSwap(true, false)` of one of the goroutines that queue.
  unfoldable pub try_wake : Loop A → ℕ → Bool → Option (Loop A)
  try_wake s zero w = none
  try_wake s (suc n) true =
      some (record s { queuing = n; need_wake = false; waking = suc s.waking })
  try_wake s (suc n) false = some (record s { queuing = n })

  -- `poll.Wake()`
  unfoldable pub write_event : Loop A → ℕ → Option (Loop A)
  write_event s zero = none
  write_event s (suc n) = some (record s { waking = n; event = suc s.event })

  -- `wakeHandlerRead`: the event file is read and is 0 again.
  unfoldable pub read_event : Loop A → Place → ℕ → Option (Loop A)
  read_event s idle (suc n) = some (record s { event = 0; place = woken })
  read_event s _ _ = none

  -- `handlerEvent` on the file descriptor -1, up to `doPendingFunc`.
  unfoldable pub store_need_wake : Loop A → Place → Option (Loop A)
  store_need_wake s woken = some (record s { need_wake = true; place = stored })
  store_need_wake s _ = none

  -- `doPendingFunc` up to the `for`, which counts the tasks there are now.
  unfoldable pub swap_task_queues : Loop A → Place → Option (Loop A)
  swap_task_queues s stored =
      some
        (record s { task_queue_w = s.task_queue_r; task_queue_r = s.task_queue_w; place = running })
  swap_task_queues s _ = none

  -- A round of the `for`; the tasks that are still to be called are `task_queue_r`.
  unfoldable pub call_next : Loop A → Place → List A → Option (Loop A)
  call_next s running (f ∷ fs) =
      some (record s { task_queue_r = fs; executed = s.executed ++ f ∷ [] })
  call_next s _ _ = none

  -- The end of `doPendingFunc`.
  unfoldable pub finish_pending : Loop A → Place → List A → Option (Loop A)
  finish_pending s running [] = some (record s { task_queue_r = []; place = idle })
  finish_pending s _ _ = none

  -- A step of any goroutine; `none` where it cannot be made.
  unfoldable pub act : Action A → Loop A → Option (Loop A)
  act (append f) s = some (record s {
    task_queue_w = s.task_queue_w ++ f ∷ [];
    queuing = suc s.queuing;
    history = s.history ++ f ∷ [];
  })
  act compare_and_swap s = try_wake s s.queuing s.need_wake
  act wake s = write_event s s.waking
  act read s = read_event s s.place s.event
  act store s = store_need_wake s s.place
  act swap_queues s = swap_task_queues s s.place
  act call s = call_next s s.place s.task_queue_r
  act finish s = finish_pending s s.place s.task_queue_r

  -- The states that some interleaving of steps reaches.
  pub data Reached : Loop A → Type 0 where
    start : Reached new_loop
    then_step : {s s' : Loop A} (a : Action A) → Reached s → act a s ≡ some s' → Reached s'
