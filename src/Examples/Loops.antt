-- ===== src/Examples/Loops.antt =====
-- The theorems about the sending side of connection.go, the tasks of a loop and the pool, at small inputs.
use Prim.Native.String.{String}
use goreactor.Common.{
  ◌<◌, ◌≤◌, ◌-◌, ◌*◌, ◌^◌, ◌⊎◌, ℕ, ◌/◌, length, Bool, true, false, List, [], ◌∷◌, Option, some, ◌≡◌,
  refl, arith,
}
use goreactor.RingBuffer.Defs.{RingBuffer}
use goreactor.RingBuffer.Contents.{IsValid}
use goreactor.Connection.Defs.{
  Conn, System, WriteResult, wrote, again, Takes, send_in_loop, handle_write,
}
use goreactor.Connection.Sending.{Goes, send_in_loop_lem}
use goreactor.Connection.Tasks.{
  Task, sends, closes as closes_task, run_tasks, Delivers, run_tasks_lem,
}
use goreactor.Connection.Draining.{Drains, handle_write_lem}
use goreactor.Reactor.Wakeup.Defs.{
  Loop, idle, new_loop, act, append, compare_and_swap, wake, read, store, swap_queues, call, finish,
  Reached, start, then_step, try_wake, write_event, read_event, store_need_wake, swap_task_queues,
  call_next, finish_pending,
}
use goreactor.Reactor.Wakeup.Invariant.{IsSound, Reached-IsSound, Reached-executed}
use goreactor.Reactor.Events.{}
use goreactor.Pool.Defs.{default_pool, put}
use goreactor.Pool.Defs.{index, steps, min_size}
use goreactor.Pool.Index.{index_lem}
use goreactor.Pool.Items.{AllFresh, put-AllFresh}

-- The bytes 1, 2 and 3 wait, around the end of the array.
abbrev waiting : RingBuffer
waiting = record { buf = 3 ∷ 0 ∷ 1 ∷ 2 ∷ []; size = 4; vr = 2; r = 2; w = 1; is_empty = false }

abbrev nothing : RingBuffer
nothing = record { buf = 0 ∷ 0 ∷ []; size = 2; vr = 0; r = 0; w = 0; is_empty = true }

waiting-IsValid : IsValid waiting
waiting-IsValid = ground arith

nothing-IsValid : IsValid nothing
nothing-IsValid = ground arith

abbrev busy : Conn
busy = record {
  out_buf = waiting;
  connected = true;
  writing = true;
  timed = true;
  written = 9 ∷ [];
  closings = [];
}

abbrev quiet : Conn
quiet = record {
  out_buf = nothing;
  connected = true;
  writing = false;
  timed = false;
  written = 9 ∷ [];
  closings = [];
}

-- A kernel that takes one byte of what it is given.
abbrev one_byte : List ℕ → WriteResult
one_byte [] = again
one_byte (b ∷ bs) = wrote 1

abbrev all_bytes : List ℕ → WriteResult
all_bytes bs = wrote (length bs)

one_byte-Takes : Takes one_byte
one_byte-Takes [] = omega arith
one_byte-Takes (b ∷ bs) = omega arith

all_bytes-Takes : Takes all_bytes
all_bytes-Takes bs = omega arith

-- Both calls of unix.Write take one byte, and the others succeed.
abbrev slow : System
slow = record {
  write_fd = one_byte;
  write_again = one_byte;
  modifies = true;
  deletes = true;
  closes = true;
}

-- The first call takes everything that it is given, and the second one byte.
abbrev faster : System
faster = record slow { write_fd = all_bytes }

send_in_loop_lem_example :
    (c' : Conn) × (closed : Bool) × (send_in_loop slow quiet (4 ∷ 5 ∷ 6 ∷ []) ≡ some (c', closed))
    × Goes slow quiet (4 ∷ 5 ∷ 6 ∷ []) c' closed
send_in_loop_lem_example =
    send_in_loop_lem slow quiet (4 ∷ 5 ∷ 6 ∷ []) (refl, refl) nothing-IsValid refl refl

handle_write_lem_example :
    (c' : Conn) × (closed : Bool) × (handle_write faster busy ≡ some (c', closed))
    × Drains busy c' closed
handle_write_lem_example =
    handle_write_lem faster busy (refl, (refl, refl)) all_bytes-Takes one_byte-Takes waiting-IsValid
      refl refl refl

-- The task 7 was queued, its goroutine woke the loop, and the loop has run it.
abbrev rested : Loop ℕ
rested = record {
  task_queue_w = [];
  task_queue_r = [];
  need_wake = true;
  event = 0;
  queuing = 0;
  waking = 0;
  place = idle;
  executed = 7 ∷ [];
  history = 7 ∷ [];
}

rested-Reached : Reached rested
unfolding new_loop act try_wake write_event read_event store_need_wake swap_task_queues call_next
    finish_pending
rested-Reached =
    then_step finish
      (then_step call
        (then_step swap_queues
          (then_step store
            (then_step read
              (then_step wake (then_step compare_and_swap (then_step (append 7) start refl) refl)
                refl)
              refl)
            refl)
          refl)
        refl)
      refl

Reached-IsSound_example : IsSound rested
Reached-IsSound_example = Reached-IsSound rested rested-Reached

Reached-executed_example : rested.executed ≡ rested.history
Reached-executed_example = Reached-executed rested rested-Reached refl refl refl refl

abbrev table : Option (List (String × ℕ))
table = some (("b", 3) ∷ [])

abbrev half : ℕ → ℕ
half n = n / 2

-- A buffer that was used: its pointers stand anywhere.
abbrev used : RingBuffer
used = waiting

put-AllFresh_example : AllFresh (put (λ l. l) half default_pool used).items
put-AllFresh_example = put-AllFresh (λ l. l) half default_pool used refl tt

index_lem_example :
    (index 100 < steps)
    × ((index 100 ≡ steps - 1) ⊎ (100 ≤ min_size * 2 ^ index 100))
    × ((index 100 ≡ 0) ⊎ (min_size * 2 ^ (index 100 - 1) < 100))
index_lem_example = index_lem 100

-- Two messages and a close, with a kernel that takes one byte at a time.
abbrev tasks : List (Task (List ℕ))
tasks = sends (4 ∷ 5 ∷ []) ∷ sends (6 ∷ []) ∷ closes_task ∷ []

run_tasks_lem_example :
    (c' : Conn) × (run_tasks (λ bytes. bytes) (λ i. slow) 0 tasks quiet ≡ some c')
    × Delivers (λ bytes. bytes) tasks quiet c'
run_tasks_lem_example =
    run_tasks_lem (λ bytes. bytes) (λ i. slow) 0 tasks quiet (λ j. (refl, (refl, refl)))
      nothing-IsValid refl refl
