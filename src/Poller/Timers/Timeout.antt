-- ===== src/Poller/Timers/Timeout.antt =====
-- src/poller/poller_timer.c: how long the poller may sleep.
use zero_tool_kit.Prelude.{
  ℕ, ◌+◌, ◌-◌, ◌^◌, ◌≤◌, ◌<◌, ◌≡◌, refl, Bool, Option, none, some, ltb, ◌==◌, if◌then◌else◌, arith,
}
use zero_tool_kit.Poller.TimerHeap.{Heap, key}
use zero_tool_kit.Poller.TimerHeap.Swap.{Holds}
use zero_tool_kit.Poller.TimerHeap.Content.{IsHeap, root_first}
use zero_tool_kit.Poller.TimerHeap.Push.{Refuses}
use zero_tool_kit.Poller.Timers.{
  Answer, flush_expired_timers, next_delay, timeout_for, resolve_timeout_ms,
}
use zero_tool_kit.Poller.Timers.Expiry.{flush-IsHeap}

-- The limit is not above a request that sets one.
abbrev pub Within : Option ℕ → ℕ → Type 0
Within none t = Unit {0}
Within (some r) t = t ≤ r

timeout_for_lem :
    (realloc : ℕ → Bool) (callback : ℕ → Answer) (now : ℕ) (g : Heap) (request : Option ℕ)
    → 0 < g.count
    → now < 2 ^ 64
    → key g 0 < now + 2 ^ 63
    → let limit = timeout_for realloc callback now (next_delay realloc callback now g) request in
      (t : ℕ) × (limit ≡ some t) × (t ≤ key g 0 - now) × Within request t
timeout_for_lem realloc callback now g request pos small near =
    let d : ℕ = key g 0 - now in
    let delay : next_delay realloc callback now g ≡ some d = ground arith in rw delay (go request)
  where
    go :
        (r : Option ℕ)
        → (t : ℕ) × (timeout_for realloc callback now (some (key g 0 - now)) r ≡ some t)
          × (t ≤ key g 0 - now)
          × Within r t
    go none = (
      if ltb 0x7fffffff (key g 0 - now) then 0x7fffffff else key g 0 - now,
      refl,
      ground arith,
      tt,
    )
    go (some r) = (
      if r == 0 then 0 else if ltb (key g 0 - now) r then key g 0 - now else r,
      ground arith,
      ground arith,
      ground arith,
    )

-- The poller never sleeps past a deadline: while the heap holds a timer after the flush, the
-- result is a limit that is no later than the deadline of that timer, and not above the requested
-- limit. (The next deadline lies less than 2 ^ 63 ms ahead.)
pub resolve_timeout_ms_lem :
    (realloc : ℕ → Bool) (callback : ℕ → Answer) (now : ℕ) (h : Heap) (request : Option ℕ) (a : ℕ)
    → Refuses realloc
    → IsHeap h
    → now < 2 ^ 64
    → Holds (resolve_timeout_ms realloc callback now h request).0.heap a
    → key (resolve_timeout_ms realloc callback now h request).0.heap 0 < now + 2 ^ 63
    → let (f, limit) = resolve_timeout_ms realloc callback now h request in
      (t : ℕ) × (limit ≡ some t) × (t ≤ (f.heap.timers a).deadline_ms - now) × Within request t
unfolding resolve_timeout_ms flush_expired_timers
resolve_timeout_ms_lem realloc callback now h request a limits v small holds near =
    let heap = flush-IsHeap realloc callback now limits h v in
    let (t, e, le, within) =
      timeout_for_lem realloc callback now (flush_expired_timers realloc callback now h).0.heap
        request (omega (arith, holds.0)) small near in
    (
      t,
      e,
      omega (arith, root_first (flush_expired_timers realloc callback now h).0.heap a heap holds),
      within,
    )
