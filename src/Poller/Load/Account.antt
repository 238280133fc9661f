-- ===== src/Poller/Load/Account.antt =====
-- src/poller/poller_load.c: what the two accounts hold, and the range of the percentage.
use native.Mathlib.Nat.{div-le_of_le-mul, div-mul-le_self, lt-div-mul-add}
use zero_tool_kit.Prelude.{ℕ, ◌+◌, ◌-◌, ◌*◌, ◌/◌, ◌^◌, ◌≤◌, ◌<◌, ◌≡◌, Bool, false, arith}
use zero_tool_kit.Poller.Load.{Load, window_ms, mark_time, on_sleep, on_wake, percent, charged}

-- From work that began at `t0`, through a sleep at `t1`, to the wake-up at `t2`: what was worked
-- goes to one account and what was slept to the other, as long as the window is not exceeded.
pub on_wake-on_sleep :
    (st : Load) (t1 t2 : ℕ)
    → st.sleeping ≡ false
    → st.last_ms ≤ t1
    → t1 ≤ t2
    → t2 < 2 ^ 64
    → st.run_ms + st.sleep_ms + (t2 - st.last_ms) ≤ window_ms
    → let st' = on_wake t2 (on_sleep t1 st) in
      (st'.run_ms ≡ st.run_ms + (t1 - st.last_ms))
      × (st'.sleep_ms ≡ st.sleep_ms + (t2 - t1))
      × (st'.last_ms ≡ t2)
      × (st'.sleeping ≡ false)
unfolding on_wake on_sleep mark_time
on_wake-on_sleep st t1 t2 awake le1 le2 small fits = ground arith

-- A mark never lets the two accounts grow beyond the window and half of the time since the last
-- mark together, so after marks that come often enough they stay near the window.
pub mark_time_bounded :
    (st : Load) (now : ℕ) (sleeping : Bool)
    → st.run_ms + st.sleep_ms ≤ window_ms
    → st.last_ms ≤ now
    → now < 2 ^ 62
    → (mark_time now sleeping st).run_ms + (mark_time now sleeping st).sleep_ms
      ≤ window_ms + (now - st.last_ms) / 2
unfolding mark_time
mark_time_bounded st now sleeping fits le small = ground arith

share :
    (r s : ℕ)
    → 0 < r + s
    → (r * 100 / (r + s) ≤ 100)
      × (r * 100 / (r + s) * (r + s) ≤ r * 100)
      × (r * 100 < (r * 100 / (r + s) + 1) * (r + s))
share r s pos = (
  div-le_of_le-mul (r + s) (omega arith),
  div-mul-le_self (r * 100) (r + s),
  omega (arith, lt-div-mul-add {a = r * 100} pos),
)

-- The load is a percentage, and it is the share of the worked time in the whole, rounded down,
-- with the time since the last mark charged to the present state.
pub percent_share :
    (st : Load) (now : ℕ)
    → st.last_ms ≤ now
    → st.run_ms + st.sleep_ms + (now - st.last_ms) < 2 ^ 57
    → 0 < st.run_ms + st.sleep_ms + (now - st.last_ms)
    → now < 2 ^ 64
    → let (st', pct) = percent now st in
      (pct ≤ 100)
      × (pct * (st'.run_ms + st'.sleep_ms) ≤ st'.run_ms * 100)
      × (st'.run_ms * 100 < (pct + 1) * (st'.run_ms + st'.sleep_ms))
      × (st'.run_ms + st'.sleep_ms ≡ st.run_ms + st.sleep_ms + (now - st.last_ms))
unfolding percent
percent_share st now le small some_time small' =
    ground (arith, share (charged now st).run_ms (charged now st).sleep_ms)
