-- ===== src/Reactor/Polling/Defs.antt =====
-- poller/epoll.go: the loop of `Poll`. What `EpollWait` and the read of the event file answer, and whether
-- `running` is still set after a wake-up, are given for each round.
use goreactor.Common.{ℕ, ◌*◌, Bool, true, false, not, List, [], ◌∷◌, ◌++◌}
use goreactor.Common.{◌==◌, if◌then◌else◌, length}
use goreactor.Reactor.Events.{Flags, poll_events}

-- `unix.EpollEvent`
pub record EpollEvent : Type 0 where
  pub fd : ℕ
  pub flags : Flags

-- The result of `EpollWait`: events, EINTR, or another error.
pub data Waited : Type 0 where
  events : List EpollEvent → Waited
  interrupted failed : Waited

-- A round: what `EpollWait` gives, whether each read of the event file gives eight bytes, and `running` at its end.
pub record Round : Type 0 where
  pub waited : Waited
  pub reads : Bool
  pub running : Bool

-- A call of `handle`: for the events of a socket, or with -1 and 0.
pub data Call : Type 0 where
  handles : ℕ → ℕ → Call
  wakes : Call

-- `msec` (-1 is `blocks`) and the length of the slice of events.
pub record PollState : Type 0 where
  pub blocks : Bool
  pub capacity : ℕ

-- How `Poll` goes on after a round: another round, a return, or log.Fatal.
pub data Next : Type 0 where
  continues : PollState → Next
  returns ends : Next

-- The inner `for`, with `wake` as it is: the calls, `wake` afterwards, and whether log.Fatal is reached.
pub record Batch : Type 0 where
  pub calls : List Call
  pub wake : Bool
  pub dies : Bool

unfoldable pub handle_batch : ℕ → Bool → List EpollEvent → Bool → Batch
handle_batch event_fd reads [] wake = record { calls = []; wake = wake; dies = false }
handle_batch event_fd reads (e ∷ es) wake =
    let socket = handle_batch event_fd reads es wake in
    let woken = handle_batch event_fd reads es true in
    if not (e.fd == event_fd)
    then record socket { calls = handles e.fd (poll_events e.flags) ∷ socket.calls }
    else if reads
    then woken
    else record { calls = []; wake = wake; dies = true }

-- `if n == len(events)`
unfoldable pub grow : ℕ → PollState → PollState
grow n st = if n == st.capacity then record st { capacity = 2 * n } else st

-- The rest of a round after the inner `for`.
unfoldable pub after_batch : Bool → ℕ → PollState → Batch → List Call × Next
after_batch running n st b =
    if b.dies
    then (b.calls, ends)
    else if b.wake
    then (b.calls ++ wakes ∷ [], (if not running then returns else continues (grow n st)))
    else (b.calls, continues (grow n st))

unfoldable pub poll_round : ℕ → Bool → Bool → Waited → PollState → List Call × Next
poll_round event_fd reads running interrupted st = ([], continues st)
poll_round event_fd reads running failed st = ([], ends)
poll_round event_fd reads running (events []) st = ([], continues (record st { blocks = true }))
poll_round event_fd reads running (events (e ∷ es)) st =
    after_batch running (length (e ∷ es)) (record st { blocks = false })
      (handle_batch event_fd reads (e ∷ es) false)

-- The state before the first round.
unfoldable pub first_poll : PollState
first_poll = record { blocks = false; capacity = 1024 }

-- What follows a round.
unfoldable pub go_on : (PollState → List Call × Next) → List Call × Next → List Call × Next
go_on more (calls, returns) = (calls, returns)
go_on more (calls, ends) = (calls, ends)
go_on more (calls, continues st) = let (later, next) = more st in (calls ++ later, next)

-- `Poll` over some rounds: its calls, and how it goes on.
unfoldable pub poll : ℕ → List Round → PollState → List Call × Next
poll event_fd [] st = ([], continues st)
poll event_fd (r ∷ rs) st =
    go_on (poll event_fd rs) (poll_round event_fd r.reads r.running r.waited st)
