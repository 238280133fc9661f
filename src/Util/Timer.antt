-- ===== src/Util/Timer.antt =====
-- src/util/timer.c: the user's timer, one-shot or repeating, on a delayed call of a poller. A
-- handle is the address of the poller's timer; the poller is known.
pub mod Repeat
mod Tests
use zero_tool_kit.Prelude.{ℕ, Bool, true, false, Option, none, some, ◌==◌, if◌then◌else◌}
use zero_tool_kit.Poller.TimerHeap.{Heap}
use zero_tool_kit.Poller.Timers.{Env, Delayed, failed, inserted, posted, do_delay, timer_cancel}

-- `struct ztk_timer`, less the poller and the callback
pub record UserTimer : Type 0 where
  pub handle : ℕ
  pub interval_ms : ℕ
  pub repeat : Bool

-- What the bridge returns to the poller after it ran the user's callback.
pub timer_bridge : UserTimer → ℕ
timer_bridge t = if t.repeat then t.interval_ms else 0

abbrev pub started : ℕ → Bool → Delayed → Option UserTimer × Delayed
started interval_ms repeat failed = (none, failed)
started interval_ms repeat (inserted h a) =
    (some (record { handle = a; interval_ms = interval_ms; repeat = repeat }), inserted h a)
started interval_ms repeat (posted h a d) =
    (some (record { handle = a; interval_ms = interval_ms; repeat = repeat }), posted h a d)

-- The timer, `none` for NULL, and what the delayed call did; `user` is the address of the timer.
pub start : (ℕ → Bool) → Env → Bool → Heap → ℕ → Bool → ℕ → Option UserTimer × Delayed
start realloc env calloc_ok h interval_ms repeat user =
    let made = started interval_ms repeat (do_delay realloc env h interval_ms user) in
    if interval_ms == 0 then (none, failed) else if calloc_ok then made else (none, failed)

-- The cancellation; the memory of the user's timer is freed.
pub stop : Env → Heap → UserTimer → Heap × Bool
stop env h t = timer_cancel env h t.handle
