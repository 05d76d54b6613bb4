-- ===== src/Connection/Idle/Defs.antt =====
-- connection.go: the idle time of a connection: `NewConnection`, `HandleEvent` as far as it notes the
-- time, `closeTimeoutConn`, `Close` and `handleClose`. Times are nanoseconds since 1970; `AfterFunc` of
-- the timing wheel is asked for a time at which its function is called.
use goreactor.Common.{ℕ, ◌+◌, ◌-◌, ◌*◌, ◌/◌, Bool, true, false, Option, none, some}
use goreactor.Common.{ltb, leb, if◌then◌else◌}

-- `connected`, `activeTime` (in seconds), when the timer is due, and whether `handleClose` is queued.
pub record Idle : Type 0 where
  pub connected : Bool
  pub active_time : ℕ
  pub timer : Option ℕ
  pub close_queued : Bool

abbrev pub second : ℕ
second = 1000000000

-- `time.Now().Unix()`
unfoldable pub unix : ℕ → ℕ
unix now = now / second

-- `NewConnection`
unfoldable pub new_connection : ℕ → ℕ → Idle
new_connection idle_time now =
    if ltb 0 idle_time
    then record {
      connected = true;
      active_time = unix now;
      timer = some (now + idle_time);
      close_queued = false;
    }
    else record { connected = true; active_time = 0; timer = none; close_queued = false }

-- The first statement of `HandleEvent`.
unfoldable pub note_activity : ℕ → ℕ → Idle → Idle
note_activity idle_time now c = if ltb 0 idle_time then record c { active_time = unix now } else c

-- `Close`; `none` is ErrConnectionClosed.
unfoldable pub close : Idle → Option Idle
close c = if c.connected then some (record c { close_queued = true }) else none

-- `_ = c.Close()`
unfoldable pub ignore_error : Idle → Option Idle → Idle
ignore_error c none = c
ignore_error c (some c') = c'

-- The function of `closeTimeoutConn`, called at `now`; its timer is used up. `intervals >= idleTime` is
-- written without a difference of times.
unfoldable pub close_timeout_conn : ℕ → ℕ → Idle → Idle
close_timeout_conn idle_time now c =
    let fired = record c { timer = none } in
    if leb (c.active_time * second + idle_time) now
    then ignore_error fired (close fired)
    else if c.connected
    then record fired { timer = some (now + (idle_time + c.active_time * second - now)) }
    else fired

-- `handleClose`, which stops the timer.
unfoldable pub handle_close : Idle → Idle
handle_close c =
    if c.connected
    then record {
      connected = false;
      active_time = c.active_time;
      timer = none;
      close_queued = false;
    }
    else record c { close_queued = false }
