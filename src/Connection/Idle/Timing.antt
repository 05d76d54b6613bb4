-- ===== src/Connection/Idle/Timing.antt =====
-- When the timer of a connection is due, and when it closes the connection.
use goreactor.Common.{ℕ, ◌+◌, ◌-◌, ◌*◌, ◌≤◌, ◌<◌, true, false, none, some, ◌≡◌, refl, sym, arith}
use mathlib.Core.Option.{some-injective}
use mathlib.Core.Path.{subst}
use goreactor.Common.{inl, inr, Bool-cases, leb, if◌then◌else◌}
use goreactor.Connection.Idle.Defs.{
  Idle, close, close_timeout_conn, handle_close, ignore_error, new_connection, note_activity,
  second, unix,
}

-- What becomes of a connection, with the time of its last event (or of `NewConnection`) and the present
-- one: time does not go back, and the timer fires when it is due or later.
pub data Lives (idle_time : ℕ) : ℕ → ℕ → Idle → Type 0 where
  begins : (now : ℕ) → Lives idle_time now now (new_connection idle_time now)
  active :
      {last now : ℕ} {c : Idle} (later : ℕ)
      → Lives idle_time last now c
      → now ≤ later
      → Lives idle_time later later (note_activity idle_time later c)
  fires :
      {last now : ℕ} {c : Idle} (later due : ℕ)
      → Lives idle_time last now c
      → now ≤ later
      → c.timer ≡ some due
      → due ≤ later
      → Lives idle_time last later (close_timeout_conn idle_time later c)
  closed :
      {last now : ℕ} {c : Idle} (c' : Idle)
      → Lives idle_time last now c
      → close c ≡ some c'
      → Lives idle_time last now c'
  runs_close :
      {last now : ℕ} {c : Idle}
      → Lives idle_time last now c
      → c.close_queued ≡ true
      → Lives idle_time last now (handle_close c)

seconds_le : (last : ℕ) → unix last * second ≤ last
unfolding unix
seconds_le last = omega arith

-- The active time is that of the last event, and a connection that is not being closed has a timer
-- that is due when it will have been idle for the idle time, at the latest.
pub record IsTimed (idle_time last now : ℕ) (c : Idle) : Type 0 where
  pub in_order : last ≤ now
  pub noted : c.active_time ≡ unix last
  pub armed :
      c.connected ≡ true
      → c.close_queued ≡ false
      → (due : ℕ) × (c.timer ≡ some due) × (due ≤ last + idle_time)

new_connection_armed :
    (idle_time now : ℕ)
    → 0 < idle_time
    → new_connection idle_time now ≡ record {
      connected = true;
      active_time = unix now;
      timer = some (now + idle_time);
      close_queued = false;
    }
unfolding new_connection
new_connection_armed idle_time now pos = ground arith

note_activity_armed :
    (idle_time now : ℕ) (c : Idle)
    → 0 < idle_time
    → note_activity idle_time now c ≡ record c { active_time = unix now }
unfolding note_activity
note_activity_armed idle_time now c pos = ground arith

made_lem :
    (idle_time now : ℕ) → 0 < idle_time → IsTimed idle_time now now (new_connection idle_time now)
made_lem idle_time now pos =
    subst (IsTimed idle_time now now) (sym (new_connection_armed idle_time now pos)) (record {
      in_order = omega arith;
      noted = refl;
      armed = λ h k. (now + idle_time, refl, omega arith);
    })

active_lem :
    (idle_time last now later : ℕ) (c : Idle)
    → 0 < idle_time
    → IsTimed idle_time last now c
    → now ≤ later
    → IsTimed idle_time later later (note_activity idle_time later c)
active_lem idle_time last now later c pos v le =
    subst (IsTimed idle_time later later) (sym (note_activity_armed idle_time later c pos))
      (record {
        in_order = omega arith;
        noted = refl;
        armed = λ h k. let (due, e, bound) = v.armed h k in (due, e, ground (arith, v.in_order));
      })

late_lem :
    (idle_time now : ℕ) (c : Idle)
    → c.active_time * second + idle_time ≤ now
    → c.connected ≡ true
    → close_timeout_conn idle_time now c ≡ record c { timer = none; close_queued = true }
unfolding close_timeout_conn close ignore_error
late_lem idle_time now c late up = ground arith

early_lem :
    (idle_time now : ℕ) (c : Idle)
    → now < c.active_time * second + idle_time
    → c.connected ≡ true
    → close_timeout_conn idle_time now c
      ≡ record c { timer = some (c.active_time * second + idle_time) }
unfolding close_timeout_conn close ignore_error
early_lem idle_time now c early up =
    let due : now + (idle_time + c.active_time * second - now)
        ≡ c.active_time * second + idle_time =
      omega arith in
    ground arith

ended_lem :
    (idle_time now : ℕ) (c : Idle)
    → c.connected ≡ false
    → close_timeout_conn idle_time now c ≡ record c { timer = none }
unfolding close_timeout_conn close ignore_error
ended_lem idle_time now c down = ground arith

fires_lem :
    (idle_time last now later : ℕ) (c : Idle)
    → IsTimed idle_time last now c
    → now ≤ later
    → IsTimed idle_time last later (close_timeout_conn idle_time later c)
fires_lem idle_time last now later c v le = elim (Bool-cases c.connected) [
  | inr down ↦
      subst (IsTimed idle_time last later) (sym (ended_lem idle_time later c down)) (record {
        in_order = ground (arith, v.in_order);
        noted = v.noted;
        armed = λ h k. absurd (ground arith);
      })
  | inl up ↦ elim (Bool-cases (leb (c.active_time * second + idle_time) later)) [
    | inl late ↦
        subst (IsTimed idle_time last later) (sym (late_lem idle_time later c (ground arith) up))
          (record {
            in_order = ground (arith, v.in_order);
            noted = v.noted;
            armed = λ h k. absurd (ground arith);
          })
    | inr early ↦
        subst (IsTimed idle_time last later) (sym (early_lem idle_time later c (ground arith) up))
          (record {
            in_order = ground (arith, v.in_order);
            noted = v.noted;
            armed = λ h k. (
              c.active_time * second + idle_time,
              refl,
              ground (arith, v.noted, seconds_le last),
            );
          })
  ]
]

closed_lem :
    (idle_time last now : ℕ) (c c' : Idle)
    → IsTimed idle_time last now c
    → close c ≡ some c'
    → IsTimed idle_time last now c'
unfolding close
closed_lem idle_time last now c c' v h =
    let same : record c { close_queued = true } ≡ c' = some-injective _ _ (ground arith) in
    subst (IsTimed idle_time last now) same
      (record { in_order = v.in_order; noted = v.noted; armed = λ h k. absurd (ground arith) })

up_lem :
    (c : Idle)
    → c.connected ≡ true
    → record { connected = false; active_time = c.active_time; timer = none; close_queued = false }
      ≡ handle_close c
unfolding handle_close
up_lem c up = ground arith

down_lem : (c : Idle) → c.connected ≡ false → record c { close_queued = false } ≡ handle_close c
unfolding handle_close
down_lem c down = ground arith

handle_close_lem :
    (idle_time last now : ℕ) (c : Idle)
    → IsTimed idle_time last now c
    → c.close_queued ≡ true
    → IsTimed idle_time last now (handle_close c)
handle_close_lem idle_time last now c v h = elim (Bool-cases c.connected) [
  | inl up ↦
      subst (IsTimed idle_time last now) (up_lem c up)
        (record { in_order = v.in_order; noted = v.noted; armed = λ h k. absurd (ground arith) })
  | inr down ↦
      subst (IsTimed idle_time last now) (down_lem c down)
        (record { in_order = v.in_order; noted = v.noted; armed = λ h k. absurd (ground arith) })
]

Lives-IsTimed :
    {idle_time last now : ℕ} {c : Idle}
    → 0 < idle_time
    → Lives idle_time last now c
    → IsTimed idle_time last now c
Lives-IsTimed {idle_time} pos (begins now) = made_lem idle_time now pos
Lives-IsTimed {idle_time} pos (active {last} {now} {c} later lives le) =
    active_lem idle_time last now later c pos (Lives-IsTimed pos lives) le
Lives-IsTimed {idle_time} pos (fires {last} {now} {c} later due lives le e reached) =
    fires_lem idle_time last now later c (Lives-IsTimed pos lives) le
Lives-IsTimed {idle_time} pos (closed {last} {now} {c} c' lives h) =
    closed_lem idle_time last now c c' (Lives-IsTimed pos lives) h
Lives-IsTimed {idle_time} pos (runs_close {last} {now} {c} lives h) =
    handle_close_lem idle_time last now c (Lives-IsTimed pos lives) h

-- A connection that has an idle time and is neither closed nor being closed always has a timer, which is due
-- when the connection will have been idle for that time, at the latest. When the timer fires, the connection is
-- closed exactly if the idle time has passed since its last event, whose time counts in whole seconds; if not, the
-- timer is set to the time when it will have.
pub close_timeout_conn_armed :
    {idle_time last now : ℕ} {c : Idle} (later : ℕ)
    → 0 < idle_time
    → Lives idle_time last now c
    → now ≤ later
    → c.connected ≡ true
    → c.close_queued ≡ false
    → ((due : ℕ) × (c.timer ≡ some due) × (due ≤ last + idle_time))
      × ((close_timeout_conn idle_time later c).close_queued
          ≡ leb (unix last * second + idle_time) later)
      × ((close_timeout_conn idle_time later c).timer ≡ (
          if leb (unix last * second + idle_time) later
          then none
          else some (unix last * second + idle_time)))
close_timeout_conn_armed {idle_time} {last} {now} {c} later pos lives le up idle =
    let v = Lives-IsTimed pos lives in
    let late = late_lem idle_time later c in
    let early = early_lem idle_time later c in
    (v.armed up idle, ground (arith, v.noted), ground (arith, v.noted))
