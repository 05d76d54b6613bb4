-- ===== src/Examples/Polling.antt =====
-- The loop of `Poll` at a few rounds.
use goreactor.Common.{true, false, List, [], ◌∷◌, ◌≡◌, refl, if◌then◌else◌}
use goreactor.Reactor.Events.{Flags, event_read, poll_events, with_event}
use goreactor.Reactor.Polling.Defs.{
  Round, PollState, events, interrupted, handles, wakes, returns, continues, poll, first_poll,
}
use goreactor.Reactor.Polling.Rounds.{
  all_work, works, calls_until_stop, has_stop, round_calls, sockets_of, has_wake, wakes_up,
  poll_lem,
}

abbrev readable : Flags
readable = record {
  pollhup = false;
  epollin = true;
  epollpri = false;
  epollrdhup = false;
  epollerr = false;
  epollout = false;
}

-- An interrupted wait; sockets 8 and 9 with the event file, 3, between them; and a round after the end.
abbrev rounds : List Round
rounds =
    record { waited = interrupted; reads = true; running = true }
    ∷ record {
      waited = events (
          record { fd = 8; flags = readable }
          ∷ record { fd = 3; flags = readable }
          ∷ record { fd = 9; flags = readable }
          ∷ []);
      reads = true;
      running = false;
    }
    ∷ record { waited = events []; reads = true; running = false }
    ∷ []

rounds_work : all_work rounds ≡ true
unfolding all_work works
rounds_work = refl

poll_lem_example :
    (st' : PollState) × (poll 3 rounds first_poll
      ≡ (calls_until_stop 3 rounds, (if has_stop 3 rounds then returns else continues st')))
poll_lem_example = poll_lem 3 rounds first_poll rounds_work

-- The wake-up comes last, and the last round is not reached.
rounds_calls : calls_until_stop 3 rounds ≡ handles 8 event_read ∷ handles 9 event_read ∷ wakes ∷ []
unfolding calls_until_stop round_calls sockets_of has_wake wakes_up poll_events with_event
rounds_calls = refl
