-- ===== src/Poller/Timers/Tests.antt =====
-- The theorems on the timers of src/poller/poller_timer.c at concrete inputs.
use zero_tool_kit.Prelude.{ℕ, ◌≡◌, ◌≤◌, ◌<◌, ◌^◌, Bool, true, false, none, some, ltb, arith}
use zero_tool_kit.Poller.TimerHeap.Content.{IsHeap}
use zero_tool_kit.Poller.TimerHeap.Sample.{sample, sample-IsHeap}
use zero_tool_kit.Poller.TimerHeap.Push.{Refuses}
use zero_tool_kit.Poller.Timers.{Answer, Env, flush_loop, flush_expired_timers, resolve_timeout_ms}
use zero_tool_kit.Poller.Timers.Expiry.{flush-IsHeap, flush_complete}
use zero_tool_kit.Poller.Timers.Timeout.{Within, resolve_timeout_ms_lem}

abbrev grants : ℕ → Bool
grants n = ltb n (2 ^ 63)

grants-Refuses : Refuses grants
grants-Refuses n h = ground arith

-- Every callback is a one-shot.
abbrev once : ℕ → Answer
once a = record { next_ms = 0; cancelled = false }

abbrev here : Env
here = record { now = 5; calloc_timer = none; is_owner = true; calloc_ctx = true; async_ok = true }

flush-IsHeap_example : IsHeap (flush_expired_timers grants once 15 (sample 9)).0.heap
flush-IsHeap_example = flush-IsHeap grants once 15 grants-Refuses (sample 9) (sample-IsHeap 9)

-- At time 5 nothing is due yet.
flush_complete_example : 5 < 20
unfolding flush_expired_timers flush_loop
flush_complete_example =
    flush_complete grants once 5 grants-Refuses (sample 9) 2 (sample-IsHeap 9) (ground arith)
      (ground arith)

resolve_timeout_ms_lem_example :
    (t : ℕ) × ((resolve_timeout_ms grants once 5 (sample 9) (some 100)).1 ≡ some t)
    × (t ≤ 5)
    × Within (some 100) t
unfolding resolve_timeout_ms flush_expired_timers flush_loop
resolve_timeout_ms_lem_example =
    resolve_timeout_ms_lem grants once 5 (sample 9) (some 100) 1 grants-Refuses (sample-IsHeap 9)
      (ground arith) (ground arith) (ground arith)
