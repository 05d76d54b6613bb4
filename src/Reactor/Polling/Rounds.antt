-- ===== src/Reactor/Polling/Rounds.antt =====
-- The calls that `Poll` makes, round by round.
use goreactor.Common.{
  ℕ, Bool, true, false, not, ◌&&◌, ◌||◌, List, [], ◌∷◌, ◌++◌, ◌≡◌, refl, sym, ap, ◌∙◌, arith,
}
use goreactor.Common.{◌==◌, if◌then◌else◌, length}
use mathlib.Core.List.{append-nil}
use goreactor.Reactor.Events.{poll_events}
use goreactor.Reactor.Polling.Defs.{
  Call, EpollEvent, Next, PollState, Round, Waited, after_batch, continues, events, failed, go_on,
  grow, handle_batch, handles, interrupted, poll, poll_round, returns, wakes,
}

-- What a round hands over: the events of sockets, in order, each once, and at the end one wake-up if the
-- event file was among them.
unfoldable pub sockets_of : ℕ → List EpollEvent → List Call
sockets_of event_fd [] = []
sockets_of event_fd (e ∷ es) =
    if e.fd == event_fd
    then sockets_of event_fd es
    else handles e.fd (poll_events e.flags) ∷ sockets_of event_fd es

unfoldable pub has_wake : ℕ → List EpollEvent → Bool
has_wake event_fd [] = false
has_wake event_fd (e ∷ es) = e.fd == event_fd || has_wake event_fd es

handle_batch_lem :
    (event_fd : ℕ) (es : List EpollEvent) (wake : Bool)
    → handle_batch event_fd true es wake
      ≡ record { calls = sockets_of event_fd es; wake = wake || has_wake event_fd es; dies = false }
unfolding handle_batch sockets_of has_wake
handle_batch_lem event_fd [] wake = ground arith
handle_batch_lem event_fd (e ∷ es) wake =
    let socket = handle_batch_lem event_fd es wake in
    let woken = handle_batch_lem event_fd es true in ground arith

-- The calls of a round in which the event file can be read, and whether it is the last.
unfoldable pub round_calls : ℕ → Waited → List Call
round_calls event_fd interrupted = []
round_calls event_fd failed = []
round_calls event_fd (events es) =
    sockets_of event_fd es ++ (if has_wake event_fd es then wakes ∷ [] else [])

unfoldable pub wakes_up : ℕ → Waited → Bool
wakes_up event_fd interrupted = false
wakes_up event_fd failed = false
wakes_up event_fd (events es) = has_wake event_fd es

-- The calls of all rounds up to the first that wakes the loop when it is not running any more.
unfoldable pub calls_until_stop : ℕ → List Round → List Call
calls_until_stop event_fd [] = []
calls_until_stop event_fd (r ∷ rs) =
    round_calls event_fd r.waited
    ++ (if wakes_up event_fd r.waited && not r.running then [] else calls_until_stop event_fd rs)

unfoldable pub has_stop : ℕ → List Round → Bool
has_stop event_fd [] = false
has_stop event_fd (r ∷ rs) = wakes_up event_fd r.waited && not r.running || has_stop event_fd rs

-- Neither `EpollWait` nor a read of the event file fails.
unfoldable pub works : Waited → Bool
works failed = false
works _ = true

unfoldable pub all_work : List Round → Bool
all_work [] = true
all_work (r ∷ rs) = r.reads && works r.waited && all_work rs

round_lem :
    (event_fd : ℕ) (running : Bool) (w : Waited) (st : PollState)
    → works w ≡ true
    → (st' : PollState) × (poll_round event_fd true running w st ≡ (
      round_calls event_fd w,
      (if wakes_up event_fd w && not running then returns else continues st'),
    ))
unfolding poll_round round_calls wakes_up works after_batch sockets_of has_wake
round_lem event_fd running interrupted st h = (st, refl)
round_lem event_fd running failed st h = absurd (ground arith)
round_lem event_fd running (events []) st h = (record st { blocks = true }, refl)
round_lem event_fd running (events (e ∷ es)) st h = (
  grow (length (e ∷ es)) (record st { blocks = false }),
  ground
      (arith, handle_batch_lem event_fd (e ∷ es) false, append-nil (sockets_of event_fd (e ∷ es))),
)

go_on_lem :
    (more : PollState → List Call × Next) (calls later : List Call) (b stop : Bool)
    (next last : PollState)
    → more next ≡ (later, (if stop then returns else continues last))
    → go_on more (calls, (if b then returns else continues next))
      ≡ (calls ++ (if b then [] else later), (if b || stop then returns else continues last))
unfolding go_on
go_on_lem more calls later true stop next last h = ap (λ l. (l, returns)) (sym (append-nil calls))
go_on_lem more calls later false stop next last h = ap (λ m. (calls ++ m.0, m.1)) h

-- If EpollWait and the reads of the event file do not fail, Poll hands over the events of the sockets, in order and each
-- once, with one call for a wake-up behind those that came with it, until the first round that wakes it when
-- it is not running any more; it returns after that one, and only then.
pub poll_lem :
    (event_fd : ℕ) (rs : List Round) (st : PollState)
    → all_work rs ≡ true
    → (st' : PollState) × (poll event_fd rs st
        ≡ (calls_until_stop event_fd rs, (if has_stop event_fd rs then returns else continues st')))
unfolding poll calls_until_stop has_stop all_work go_on
poll_lem event_fd [] st h = (st, refl)
poll_lem event_fd (r ∷ rs) st h =
    let reads : r.reads ≡ true = ground (arith, h) in
    let (next, round) = round_lem event_fd r.running r.waited st (ground (arith, h)) in
    let (last, rest) = poll_lem event_fd rs next (ground (arith, h)) in
    (
      last,
      ap (λ b. go_on (poll event_fd rs) (poll_round event_fd b r.running r.waited st)) reads
          ∙ ap (go_on (poll event_fd rs)) round
          ∙ go_on_lem (poll event_fd rs) (round_calls event_fd r.waited)
              (calls_until_stop event_fd rs) (wakes_up event_fd r.waited && not r.running)
              (has_stop event_fd rs) next last rest,
    )
