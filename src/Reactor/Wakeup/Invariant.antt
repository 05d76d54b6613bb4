-- ===== src/Reactor/Wakeup/Invariant.antt =====
-- No wake-up of a loop is lost or made twice, and its tasks are run in the order they were queued.
use goreactor.Common.{
  ℕ, zero, suc, ◌+◌, ◌≤◌, Bool, true, false, List, [], ◌∷◌, ◌++◌, Option, some, none, ◌≡◌, refl,
  sym, ap, ap₂, ◌∙◌, arith,
}
use goreactor.Reactor.Wakeup.Defs.{
  Loop, Place, idle, woken, stored, running, Action, append, compare_and_swap, wake, read, store,
  swap_queues, call, finish, new_loop, try_wake, write_event, read_event, store_need_wake,
  swap_task_queues, call_next, finish_pending, act, Reached, start, then_step,
}
use mathlib.Core.List.{append_assoc, append-nil}
use mathlib.Core.Path.{subst}

abbrev pub is_woken : Place → ℕ
is_woken woken = 1
is_woken _ = 0

abbrev pub is_stored : Place → ℕ
is_stored stored = 1
is_stored _ = 0

abbrev pub is_running : Place → ℕ
is_running running = 1
is_running _ = 0

abbrev pub not_yet : Bool → ℕ
not_yet true = 0
not_yet false = 1

module _ {A : Type 0} where
  abbrev pub waits : List A → ℕ
  waits [] = 0
  waits (f ∷ fs) = 1

  waits-le : (fs : List A) → waits fs ≤ 1
  waits-le [] = omega arith
  waits-le (f ∷ fs) = omega arith

  waits-empty : (fs : List A) → waits fs ≡ 0 → fs ≡ []
  waits-empty [] h = refl
  waits-empty (f ∷ fs) h = absurd (omega arith)

  -- One wake-up at most is under way, and one is exactly when `needWake` is false; a task waits
  -- only if a goroutine is in `QueueInLoop`, a wake-up is under way, or the loop is about to take
  -- it; the reading queue holds tasks only while they run; and tasks keep their order.
  pub record IsSound (s : Loop A) : Type 0 where
    pub once : s.waking + s.event + is_woken s.place ≡ not_yet s.need_wake
    pub heard : waits s.task_queue_w ≤ s.queuing + is_stored s.place + not_yet s.need_wake
    pub drained : waits s.task_queue_r ≤ is_running s.place
    pub in_order : s.executed ++ s.task_queue_r ++ s.task_queue_w ≡ s.history

  start_lem : IsSound new_loop
  unfolding new_loop
  start_lem = record {
    once = omega arith;
    heard = omega arith;
    drained = omega arith;
    in_order = refl;
  }

  -- A step that can be made keeps the invariant.
  pub IfMade : Option (Loop A) → Type 0
  IfMade none = true ≡ true
  IfMade (some s) = IsSound s

  try_wake_lem :
      (s : Loop A) (n : ℕ) (w : Bool)
      → s.queuing ≡ n
      → s.need_wake ≡ w
      → IsSound s
      → IfMade (try_wake s n w)
  unfolding try_wake IfMade
  try_wake_lem s zero w en ew v = refl
  try_wake_lem s (suc n) true en ew v = record {
    once = ground (arith, v.once);
    heard = ground (arith, v.heard);
    drained = ground (arith, v.drained);
    in_order = v.in_order;
  }
  try_wake_lem s (suc n) false en ew v = record {
    once = ground (arith, v.once);
    heard = ground (arith, v.heard);
    drained = ground (arith, v.drained);
    in_order = v.in_order;
  }

  write_event_lem : (s : Loop A) (n : ℕ) → s.waking ≡ n → IsSound s → IfMade (write_event s n)
  unfolding write_event IfMade
  write_event_lem s zero en v = refl
  write_event_lem s (suc n) en v = record {
    once = ground (arith, v.once);
    heard = ground (arith, v.heard);
    drained = ground (arith, v.drained);
    in_order = v.in_order;
  }

  read_event_lem :
      (s : Loop A) (p : Place) (n : ℕ)
      → s.place ≡ p
      → s.event ≡ n
      → IsSound s
      → IfMade (read_event s p n)
  unfolding read_event IfMade
  read_event_lem s idle (suc n) ep en v = record {
    once = ground (arith, v.once);
    heard = ground (arith, v.heard);
    drained = ground (arith, v.drained);
    in_order = v.in_order;
  }
  read_event_lem s idle zero ep en v = refl
  read_event_lem s woken n ep en v = refl
  read_event_lem s stored n ep en v = refl
  read_event_lem s running n ep en v = refl

  store_need_wake_lem :
      (s : Loop A) (p : Place) → s.place ≡ p → IsSound s → IfMade (store_need_wake s p)
  unfolding store_need_wake IfMade
  store_need_wake_lem s woken ep v = record {
    once = ground (arith, v.once);
    heard = ground (arith, v.heard);
    drained = ground (arith, v.drained);
    in_order = v.in_order;
  }
  store_need_wake_lem s idle ep v = refl
  store_need_wake_lem s stored ep v = refl
  store_need_wake_lem s running ep v = refl

  swap_task_queues_lem :
      (s : Loop A) (p : Place) → s.place ≡ p → IsSound s → IfMade (swap_task_queues s p)
  unfolding swap_task_queues IfMade
  swap_task_queues_lem s stored ep v =
      let none_left : s.task_queue_r ≡ [] =
        waits-empty s.task_queue_r (ground (arith, v.drained)) in
      record {
        once = ground (arith, v.once);
        heard = ground (arith, none_left);
        drained = ground (arith, waits-le s.task_queue_w);
        in_order =
            ap (λ l. (s.executed ++ s.task_queue_w) ++ l) none_left
            ∙ append-nil (s.executed ++ s.task_queue_w)
            ∙ ap (λ l. l ++ s.task_queue_w)
                (sym (append-nil s.executed) ∙ ap (λ l. s.executed ++ l) (sym none_left))
            ∙ v.in_order;
      }
  swap_task_queues_lem s idle ep v = refl
  swap_task_queues_lem s woken ep v = refl
  swap_task_queues_lem s running ep v = refl

  call_next_lem :
      (s : Loop A) (p : Place) (fs : List A)
      → s.place ≡ p
      → s.task_queue_r ≡ fs
      → IsSound s
      → IfMade (call_next s p fs)
  unfolding call_next IfMade
  call_next_lem s running (f ∷ fs) ep er v = record {
    once = ground (arith, v.once);
    heard = ground (arith, v.heard);
    drained = ground (arith, waits-le fs);
    in_order =
        ap (λ l. l ++ s.task_queue_w)
          (append_assoc s.executed (f ∷ []) fs ∙ ap (λ l. s.executed ++ l) (sym er))
        ∙ v.in_order;
  }
  call_next_lem s running [] ep er v = refl
  call_next_lem s idle fs ep er v = refl
  call_next_lem s woken fs ep er v = refl
  call_next_lem s stored fs ep er v = refl

  finish_pending_lem :
      (s : Loop A) (p : Place) (fs : List A)
      → s.place ≡ p
      → s.task_queue_r ≡ fs
      → IsSound s
      → IfMade (finish_pending s p fs)
  unfolding finish_pending IfMade
  finish_pending_lem s running [] ep er v = record {
    once = ground (arith, v.once);
    heard = ground (arith, v.heard);
    drained = ground (arith, v.drained);
    in_order = ap (λ l. s.executed ++ l ++ s.task_queue_w) (sym er) ∙ v.in_order;
  }
  finish_pending_lem s running (f ∷ fs) ep er v = refl
  finish_pending_lem s idle fs ep er v = refl
  finish_pending_lem s woken fs ep er v = refl
  finish_pending_lem s stored fs ep er v = refl

  act_lem : (a : Action A) (s : Loop A) → IsSound s → IfMade (act a s)
  unfolding act
  act_lem (append f) s v =
      unfold IfMade in
      record {
        once = ground (arith, v.once);
        heard = ground (arith, waits-le (s.task_queue_w ++ f ∷ []));
        drained = ground (arith, v.drained);
        in_order =
            sym (append_assoc (s.executed ++ s.task_queue_r) s.task_queue_w (f ∷ []))
            ∙ ap (λ l. l ++ f ∷ []) v.in_order;
      }
  act_lem compare_and_swap s v = try_wake_lem s s.queuing s.need_wake refl refl v
  act_lem wake s v = write_event_lem s s.waking refl v
  act_lem read s v = read_event_lem s s.place s.event refl refl v
  act_lem store s v = store_need_wake_lem s s.place refl v
  act_lem swap_queues s v = swap_task_queues_lem s s.place refl v
  act_lem call s v = call_next_lem s s.place s.task_queue_r refl refl v
  act_lem finish s v = finish_pending_lem s s.place s.task_queue_r refl refl v

  -- Whatever the interleaving, one wake-up at most is under way, and one is exactly when `needWake`
  -- is false; a task waits only while a goroutine is in `QueueInLoop`, a wake-up is under way or
  -- the loop is about to take it; the tasks run, being run and waiting are those that were
  -- queued, each once and in the order of the queuing.
  pub Reached-IsSound : (s : Loop A) → Reached s → IsSound s
  unfolding IfMade
  Reached-IsSound s start = start_lem
  Reached-IsSound s (then_step {s = t} a reached e) =
      subst IfMade e (act_lem a t (Reached-IsSound t reached))

  -- No wake-up is lost: when the loop waits in the poller with nothing to read, and no goroutine
  -- is in `QueueInLoop`, all tasks that were queued have been run, in order.
  pub Reached-executed :
      (s : Loop A)
      → Reached s
      → s.place ≡ idle
      → s.event ≡ 0
      → s.queuing ≡ 0
      → s.waking ≡ 0
      → s.executed ≡ s.history
  Reached-executed s reached at_rest none_written none_queuing none_waking =
      let v = Reached-IsSound s reached in
      let no_r : s.task_queue_r ≡ [] = waits-empty s.task_queue_r (ground (arith, v.drained)) in
      let no_w : s.task_queue_w ≡ [] =
        waits-empty s.task_queue_w (ground (arith, v.heard, v.once)) in
      sym (append-nil s.executed)
      ∙ sym (append-nil (s.executed ++ []))
      ∙ ap₂ (λ l m. s.executed ++ l ++ m) (sym no_r) (sym no_w)
      ∙ v.in_order
