-- ===== src/Reactor/Wakeup/Progress.antt =====
-- eventloop/eventloop.go: how many steps the goroutines can make before a task is queued again, and
-- where they end.
use goreactor.Common.{
  ℕ, zero, suc, ◌+◌, ◌*◌, ◌≤◌, ◌<◌, Bool, true, false, ◌&&◌, ◌||◌, not, List, [], ◌∷◌, Option, some,
  none, ◌≡◌, refl, ap, sym, ◌∙◌, arith,
}
use goreactor.Common.{length, ◌>>=◌}
use goreactor.Reactor.Wakeup.Defs.{
  Place, idle, woken, stored, running, Loop, Action, append, compare_and_swap, wake, read, store,
  swap_queues, call, finish, try_wake, write_event, read_event, store_need_wake, swap_task_queues,
  call_next, finish_pending, act, Reached, then_step,
}
use mathlib.Core.Option.{some-injective}
use mathlib.Core.Path.{subst}
use goreactor.Reactor.Wakeup.Invariant.{Reached-executed}

-- The steps of the loop's goroutine up to the end of `handlerEvent`, the tasks apart.
unfoldable pub steps_left : Place → ℕ
steps_left idle = 0
steps_left running = 1
steps_left stored = 2
steps_left woken = 3

unfoldable pub is_some : {A : Type 0} → Option A → Bool
is_some none = false
is_some (some x) = true

and-true : (b c : Bool) → (not b && c) ≡ true → (b ≡ false) × (c ≡ true)
and-true true c h = absurd (ground arith)
and-true false c h = (refl, h)

module _ {A : Type 0} where
  -- More than the steps that can follow without another `append`.
  unfoldable pub remaining : Loop A → ℕ
  remaining s =
      6 * s.queuing
      + 5 * s.waking
      + 4 * s.event
      + length s.task_queue_w
      + length s.task_queue_r
      + steps_left s.place

  unfoldable pub is_append : Action A → Bool
  is_append (append f) = true
  is_append _ = false

  -- The steps that are not the start of another `QueueInLoop`.
  unfoldable pub are_own : List (Action A) → Bool
  are_own [] = true
  are_own (a ∷ actions) = not (is_append a) && are_own actions

  unfoldable pub run_actions : List (Action A) → Loop A → Option (Loop A)
  run_actions [] s = some s
  run_actions (a ∷ actions) s = act a s >>= run_actions actions

  unfoldable pub some_made : List (Option (Loop A)) → Bool
  some_made [] = false
  some_made (o ∷ os) = is_some o || some_made os

  -- A step other than `append` can be made.
  unfoldable pub can_step : Loop A → Bool
  can_step s = some_made (
      act compare_and_swap s
      ∷ act wake s
      ∷ act read s
      ∷ act store s
      ∷ act swap_queues s
      ∷ act call s
      ∷ act finish s
      ∷ [])

  Falls : Loop A → Option (Loop A) → Type 0
  Falls s none = true ≡ true
  Falls s (some t) = (remaining t < remaining s) × (t.history ≡ s.history)

  try_wake-Falls : (s : Loop A) (n : ℕ) (b : Bool) → s.queuing ≡ n → Falls s (try_wake s n b)
  unfolding try_wake Falls remaining
  try_wake-Falls s zero b e = refl
  try_wake-Falls s (suc n) true e = (ground arith, refl)
  try_wake-Falls s (suc n) false e = (ground arith, refl)

  write_event-Falls : (s : Loop A) (n : ℕ) → s.waking ≡ n → Falls s (write_event s n)
  unfolding write_event Falls remaining
  write_event-Falls s zero e = refl
  write_event-Falls s (suc n) e = (ground arith, refl)

  read_event-Falls :
      (s : Loop A) (p : Place) (n : ℕ) → s.place ≡ p → s.event ≡ n → Falls s (read_event s p n)
  unfolding read_event Falls remaining steps_left
  read_event-Falls s idle (suc n) ep en = (ground (arith, ap steps_left ep), refl)
  read_event-Falls s idle zero ep en = refl
  read_event-Falls s woken n ep en = refl
  read_event-Falls s stored n ep en = refl
  read_event-Falls s running n ep en = refl

  store-Falls : (s : Loop A) (p : Place) → s.place ≡ p → Falls s (store_need_wake s p)
  unfolding store_need_wake Falls remaining steps_left
  store-Falls s woken ep = (ground (arith, ap steps_left ep), refl)
  store-Falls s idle ep = refl
  store-Falls s stored ep = refl
  store-Falls s running ep = refl

  swap-Falls : (s : Loop A) (p : Place) → s.place ≡ p → Falls s (swap_task_queues s p)
  unfolding swap_task_queues Falls remaining steps_left
  swap-Falls s stored ep = (ground (arith, ap steps_left ep), refl)
  swap-Falls s idle ep = refl
  swap-Falls s woken ep = refl
  swap-Falls s running ep = refl

  call-Falls :
      (s : Loop A) (p : Place) (fs : List A)
      → s.place ≡ p
      → s.task_queue_r ≡ fs
      → Falls s (call_next s p fs)
  unfolding call_next Falls remaining
  call-Falls s running (f ∷ fs) ep er = (ground (arith, ap length er), refl)
  call-Falls s running [] ep er = refl
  call-Falls s idle fs ep er = refl
  call-Falls s woken fs ep er = refl
  call-Falls s stored fs ep er = refl

  finish-Falls :
      (s : Loop A) (p : Place) (fs : List A)
      → s.place ≡ p
      → s.task_queue_r ≡ fs
      → Falls s (finish_pending s p fs)
  unfolding finish_pending Falls remaining steps_left
  finish-Falls s running [] ep er = (ground (arith, ap length er, ap steps_left ep), refl)
  finish-Falls s running (f ∷ fs) ep er = refl
  finish-Falls s idle fs ep er = refl
  finish-Falls s woken fs ep er = refl
  finish-Falls s stored fs ep er = refl

  act-Falls : (a : Action A) (s : Loop A) → is_append a ≡ false → Falls s (act a s)
  unfolding act is_append
  act-Falls (append f) s h = absurd (ground arith)
  act-Falls compare_and_swap s h = try_wake-Falls s s.queuing s.need_wake refl
  act-Falls wake s h = write_event-Falls s s.waking refl
  act-Falls read s h = read_event-Falls s s.place s.event refl refl
  act-Falls store s h = store-Falls s s.place refl
  act-Falls swap_queues s h = swap-Falls s s.place refl
  act-Falls call s h = call-Falls s s.place s.task_queue_r refl refl
  act-Falls finish s h = finish-Falls s s.place s.task_queue_r refl refl

  no_swap : (s : Loop A) (n : ℕ) (b : Bool) → is_some (try_wake s n b) ≡ false → n ≡ 0
  unfolding try_wake is_some
  no_swap s zero b h = refl
  no_swap s (suc n) true h = absurd (ground arith)
  no_swap s (suc n) false h = absurd (ground arith)

  no_write : (s : Loop A) (n : ℕ) → is_some (write_event s n) ≡ false → n ≡ 0
  unfolding write_event is_some
  no_write s zero h = refl
  no_write s (suc n) h = absurd (ground arith)

  no_read : (s : Loop A) (n : ℕ) → is_some (read_event s idle n) ≡ false → n ≡ 0
  unfolding read_event is_some
  no_read s zero h = refl
  no_read s (suc n) h = absurd (ground arith)

  -- The steps of the loop's goroutine leave it nowhere but in the poller.
  no_place :
      (s : Loop A) (p : Place) (fs : List A)
      → is_some (store_need_wake s p) ≡ false
      → is_some (swap_task_queues s p) ≡ false
      → is_some (call_next s p fs) ≡ false
      → is_some (finish_pending s p fs) ≡ false
      → p ≡ idle
  unfolding store_need_wake swap_task_queues call_next finish_pending is_some
  no_place s idle fs h1 h2 h3 h4 = refl
  no_place s woken fs h1 h2 h3 h4 = absurd (ground (arith, h1))
  no_place s stored fs h1 h2 h3 h4 = absurd (ground (arith, h2))
  no_place s running [] h1 h2 h3 h4 = absurd (ground (arith, h4))
  no_place s running (f ∷ fs) h1 h2 h3 h4 = absurd (ground (arith, h3))

  no_first :
      (o : Option (Loop A)) (os : List (Option (Loop A)))
      → some_made (o ∷ os) ≡ false
      → (is_some o ≡ false) × (some_made os ≡ false)
  unfolding some_made is_some
  no_first none os h = (refl, h)
  no_first (some s) os h = absurd (ground arith)

  -- Where no step but an `append` can be made, all tasks that were queued have been run.
  no_step-executed : (s : Loop A) → Reached s → can_step s ≡ false → s.executed ≡ s.history
  unfolding can_step act
  no_step-executed s reached h =
      let (h_swap, h1) = no_first (act compare_and_swap s) _ h in
      let (h_write, h2) = no_first (act wake s) _ h1 in
      let (h_read, h3) = no_first (act read s) _ h2 in
      let (h_store, h4) = no_first (act store s) _ h3 in
      let (h_swap_queues, h5) = no_first (act swap_queues s) _ h4 in
      let (h_call, h6) = no_first (act call s) _ h5 in
      let (h_finish, h7) = no_first (act finish s) _ h6 in
      let at_rest = no_place s s.place s.task_queue_r h_store h_swap_queues h_call h_finish in
      Reached-executed s reached at_rest
        (no_read s s.event (ap (λ p. is_some (read_event s p s.event)) (sym at_rest) ∙ h_read))
        (no_swap s s.queuing s.need_wake h_swap) (no_write s s.waking h_write)

  bind-Falls :
      (a : Action A) (s u : Loop A) (o : Option (Loop A)) (f : Loop A → Option (Loop A))
      → Falls s o
      → (o >>= f) ≡ some u
      → (t : Loop A) × (o ≡ some t)
        × (remaining t < remaining s)
        × (t.history ≡ s.history)
        × (f t ≡ some u)
  unfolding Falls
  bind-Falls a s u none f v h = absurd (ground arith)
  bind-Falls a s u (some t) f (less, same) h = (t, refl, less, same, h)

  -- Steps other than `append` come to an end from every state: there are no more of them than
  -- `remaining` says, and they queue nothing.
  pub run_actions-remaining :
      (actions : List (Action A)) (s u : Loop A)
      → are_own actions ≡ true
      → run_actions actions s ≡ some u
      → (length actions + remaining u ≤ remaining s) × (u.history ≡ s.history)
  unfolding run_actions are_own
  run_actions-remaining [] s u own h =
      let same = some-injective _ _ h in (ground arith, ap (λ o. o.history) (sym same))
  run_actions-remaining (a ∷ actions) s u own h =
      let (one, others) = and-true (is_append a) (are_own actions) own in
      let (t, e, less, same, h') =
        bind-Falls a s u (act a s) (run_actions actions) (act-Falls a s one) h in
      let (rest, same') = run_actions-remaining actions t u others h' in
      (ground arith, same' ∙ same)

  run_actions-Reached :
      (actions : List (Action A)) (s u : Loop A)
      → Reached s
      → are_own actions ≡ true
      → run_actions actions s ≡ some u
      → Reached u
  unfolding run_actions are_own
  run_actions-Reached [] s u reached own h = subst Reached (some-injective _ _ h) reached
  run_actions-Reached (a ∷ actions) s u reached own h =
      let (one, others) = and-true (is_append a) (are_own actions) own in
      let (t, e, less, same, h') =
        bind-Falls a s u (act a s) (run_actions actions) (act-Falls a s one) h in
      run_actions-Reached actions t u (then_step a reached e) others h'

  -- Where the goroutines have made all the steps they can without another `append`, whatever their order, the
  -- tasks that had been queued have all been run, in order; and there are no more such steps than `remaining` says.
  pub run_actions-executed :
      (actions : List (Action A)) (s u : Loop A)
      → Reached s
      → are_own actions ≡ true
      → run_actions actions s ≡ some u
      → can_step u ≡ false
      → (length actions ≤ remaining s) × (u.executed ≡ s.history)
  run_actions-executed actions s u reached own h stuck =
      let (bound, same) = run_actions-remaining actions s u own h in
      (
        ground arith,
        no_step-executed u (run_actions-Reached actions s u reached own h) stuck ∙ same,
      )
