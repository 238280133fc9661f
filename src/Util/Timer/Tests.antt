-- ===== src/Util/Timer/Tests.antt =====
-- The theorem on the timers of src/util/timer.c at a concrete input.
use zero_tool_kit.Prelude.{ℕ, ◌≡◌, ◌⊎◌, ◌^◌, refl, Bool, true, false, none, ltb, arith}
use zero_tool_kit.Poller.TimerHeap.{push, set_deadline}
use zero_tool_kit.Poller.TimerHeap.Swap.{Holds}
use zero_tool_kit.Poller.TimerHeap.Content.{IsHeap}
use zero_tool_kit.Poller.TimerHeap.Sample.{sample, sample-IsHeap}
use zero_tool_kit.Poller.Timers.{expire}
use zero_tool_kit.Util.Timer.{UserTimer, timer_bridge}
use zero_tool_kit.Util.Timer.Repeat.{expire-timer_bridge}

abbrev grants : ℕ → Bool
grants n = ltb n (2 ^ 63)

abbrev every_ten : UserTimer
every_ten = record { handle = 3; interval_ms = 10; repeat = true }

-- The timer at address 3 was just popped, at time 30.
expire-timer_bridge_example :
    let (g', ran, freed) =
      expire grants (λ a. record { next_ms = 10; cancelled = false }) 30 3 (sample 9) in
    (ran ≡ true)
    × (freed ≡ false)
    × IsHeap g'
    × (((g'.timers 3).deadline_ms ≡ 40)
        × (Holds g' 3 ⊎ (push grants (set_deadline (sample 9) 3 40) 3 ≡ none)))
unfolding timer_bridge
expire-timer_bridge_example =
    expire-timer_bridge grants (λ a. record { next_ms = 10; cancelled = false }) 30 (sample 9)
      every_ten (λ n h. ground arith) (sample-IsHeap 9) refl refl (ground arith) refl
