-- ===== src/Reactor/Events.antt =====
-- poller/epoll.go: what `Poll` makes of the flags of an epoll event; and connection.go: what
-- `HandleEvent` does with it.
use Prim.Native.Nat.{bit_or, bit_and}
use goreactor.Common.{ℕ, Bool, true, false, not, ◌&&◌, ◌||◌, ◌≡◌, refl}
use goreactor.Common.{◌==◌, if◌then◌else◌}

-- The flags that `Poll` tests, POLLIN and EPOLLIN being one bit.
pub record Flags : Type 0 where
  pub pollhup : Bool
  pub epollin : Bool
  pub epollpri : Bool
  pub epollrdhup : Bool
  pub epollerr : Bool
  pub epollout : Bool

abbrev pub event_read : ℕ
event_read = 0x1

abbrev pub event_write : ℕ
event_write = 0x2

abbrev pub event_err : ℕ
event_err = 0x80

abbrev pub event_none : ℕ
event_none = 0

-- `rEvents |= e` under a test.
unfoldable pub with_event : Bool → ℕ → ℕ → ℕ
with_event test e events = if test then bit_or events e else events

-- The three tests of `Poll`, in their order.
unfoldable pub poll_events : Flags → ℕ
poll_events f = with_event (f.epollin || f.epollpri || f.epollrdhup) event_read (
    with_event (f.epollerr || f.epollout) event_write
      (with_event (f.pollhup && not f.epollin) event_err event_none))

-- Which of `handleClose`, `handleWrite` and `handleRead` is called.
pub data Dispatch : Type 0 where
  closes writes reads ignores : Dispatch

-- `HandleEvent`, for an output buffer that is empty or not.
unfoldable pub handle_event : Bool → ℕ → Dispatch
handle_event out_empty events =
    if not (bit_and events event_err == 0)
    then closes
    else if not out_empty
    then (if not (bit_and events event_write == 0) then writes else ignores)
    else if not (bit_and events event_read == 0)
    then reads
    else ignores

dispatch_lem :
    (out_empty e w r : Bool)
    → handle_event out_empty
        (with_event r event_read (with_event w event_write (with_event e event_err event_none)))
      ≡ (if e
          then closes
          else if out_empty
          then (if r then reads else ignores)
          else (if w then writes else ignores))
unfolding handle_event with_event
dispatch_lem true true true true = refl
dispatch_lem true true true false = refl
dispatch_lem true true false true = refl
dispatch_lem true true false false = refl
dispatch_lem true false true true = refl
dispatch_lem true false true false = refl
dispatch_lem true false false true = refl
dispatch_lem true false false false = refl
dispatch_lem false true true true = refl
dispatch_lem false true true false = refl
dispatch_lem false true false true = refl
dispatch_lem false true false false = refl
dispatch_lem false false true true = refl
dispatch_lem false false true false = refl
dispatch_lem false false false true = refl
dispatch_lem false false false false = refl

-- On an epoll event the connection is closed if the peer hung up and there is nothing to read; if
-- not, it writes when bytes wait and the socket can be written or has an error; it reads only when
-- no bytes wait, and there is input, urgent input or the end of the peer's; else nothing is done.
pub handle_event-poll_events :
    (out_empty : Bool) (f : Flags)
    → handle_event out_empty (poll_events f) ≡ (
        if f.pollhup && not f.epollin
        then closes
        else if out_empty
        then (if f.epollin || f.epollpri || f.epollrdhup then reads else ignores)
        else (if f.epollerr || f.epollout then writes else ignores))
unfolding poll_events
handle_event-poll_events out_empty f =
    dispatch_lem out_empty (f.pollhup && not f.epollin) (f.epollerr || f.epollout)
      (f.epollin || f.epollpri || f.epollrdhup)
