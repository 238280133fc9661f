-- ===== src/Util/Timer/Repeat.antt =====
-- src/util/timer.c on src/poller/poller_timer.c: when a user's timer fires again.
use zero_tool_kit.Prelude.{
  ℕ, ◌+◌, ◌<◌, ◌≡◌, ◌⊎◌, refl, Bool, true, false, not, none, ltb, if◌then◌else◌, u64, arith,
  Bool-cases, inl, inr,
}
use zero_tool_kit.Poller.TimerHeap.{Heap, index_none, push, set_deadline}
use zero_tool_kit.Poller.TimerHeap.Swap.{Holds}
use zero_tool_kit.Poller.TimerHeap.Content.{IsHeap}
use zero_tool_kit.Poller.TimerHeap.Push.{Refuses, insert_locked_lem}
use zero_tool_kit.Poller.Timers.{Answer, expire}
use zero_tool_kit.Util.Timer.{UserTimer, timer_bridge}

-- When the poller expires a user's timer that is not cancelled, a repeating one with an interval
-- goes back to the heap, due one interval after now, unless memory runs out, and is not freed; a
-- one-shot timer runs once, is freed, and leaves the heap as it is.
pub expire-timer_bridge :
    (realloc : ℕ → Bool) (callback : ℕ → Answer) (now : ℕ) (g : Heap) (t : UserTimer)
    → Refuses realloc
    → IsHeap g
    → (g.timers t.handle).heap_index ≡ index_none
    → (g.timers t.handle).cancelled ≡ false
    → 0 < t.interval_ms
    → callback t.handle ≡ record { next_ms = timer_bridge t; cancelled = false }
    → let (g', ran, freed) = expire realloc callback now t.handle g in
      (ran ≡ true)
      × (freed ≡ not t.repeat)
      × IsHeap g'
      × (if t.repeat
          then ((g'.timers t.handle).deadline_ms ≡ u64 (now + t.interval_ms))
            × (Holds g' t.handle
                ⊎ (push realloc (set_deadline g t.handle (u64 (now + t.interval_ms))) t.handle
                    ≡ none))
          else g' ≡ g)
unfolding timer_bridge
expire-timer_bridge realloc callback now g t limits v out on some_time answer =
    elim (Bool-cases t.repeat) [
      | inl again ↦
          let due : ltb 0 t.interval_ms ≡ true = ground arith in
          let (heap, deadline, holds, others, there) =
            insert_locked_lem realloc g t.handle (u64 (now + t.interval_ms)) limits v out in
          rw (on, answer, again, due) (refl, refl, heap, (deadline, (rw on at there)))
      | inr once ↦ rw (on, answer, once) (refl, refl, v, refl)
    ]
