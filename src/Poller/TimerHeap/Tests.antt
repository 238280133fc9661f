-- ===== src/Poller/TimerHeap/Tests.antt =====
-- Runs of the heap of src/poller/poller_timer.c, and its theorems at concrete inputs.
use zero_tool_kit.Prelude.{ℕ, ◌+◌, ◌≡◌, ◌≤◌, ◌⊎◌, ◌^◌, refl, Bool, none, some, ltb, arith}
use zero_tool_kit.Poller.TimerHeap.{
  Heap, index_none, push, pop_min, remove, insert_locked, set_deadline, swap, up_loop, bubble_up,
  down_loop, bubble_down, reserve,
}
use zero_tool_kit.Poller.TimerHeap.Swap.{Holds}
use zero_tool_kit.Poller.TimerHeap.Content.{IsHeap}
use zero_tool_kit.Poller.TimerHeap.Sample.{sample, sample-IsHeap}
use zero_tool_kit.Poller.TimerHeap.Push.{Refuses}
use zero_tool_kit.Poller.TimerHeap.Queue.{pop_min_first, remove_others}
use zero_tool_kit.Poller.TimerHeap.Insert.{insert_locked_others, push-total}

-- realloc grants every request below 2 ^ 63 bytes.
abbrev grants : ℕ → Bool
grants n = ltb n (2 ^ 63)

grants-Refuses : Refuses grants
grants-Refuses n h = ground arith

-- The timer at 2 gets an earlier deadline than the other: the next pop returns it.
earlier : (pop_min (insert_locked grants (sample 9) 2 5)).0 ≡ some 2
unfolding pop_min insert_locked remove push reserve swap up_loop bubble_up down_loop bubble_down
earlier = refl

pop_min_first_example :
    ((pop_min (sample 9)).0 ≡ some 1)
    × (10 ≤ 20)
    × IsHeap (pop_min (sample 9)).1
    × ((pop_min (sample 9)).1.count + 1 ≡ 2)
    × Holds (pop_min (sample 9)).1 2
    × (((pop_min (sample 9)).1.timers 2).deadline_ms ≡ 20)
    × (((pop_min (sample 9)).1.timers 1).heap_index ≡ index_none)
pop_min_first_example = pop_min_first (sample 9) 2 (sample-IsHeap 9) (ground arith) (ground arith)

remove_others_example :
    IsHeap (remove (sample 9) 1)
    × ((remove (sample 9) 1).count + 1 ≡ 2)
    × (((remove (sample 9) 1).timers 1).heap_index ≡ index_none)
    × Holds (remove (sample 9) 1) 2
    × (((remove (sample 9) 1).timers 2).deadline_ms ≡ 20)
remove_others_example =
    remove_others (sample 9) 1 2 (sample-IsHeap 9) (ground arith) (ground arith) (ground arith)

insert_locked_others_example :
    let g = insert_locked grants (sample 9) 3 15 in
    IsHeap g
    × ((g.timers 3).deadline_ms ≡ 15)
    × Holds g 2
    × ((g.timers 2).deadline_ms ≡ 20)
    × (Holds g 3 ⊎ (push grants (set_deadline (sample 9) 3 15) 3 ≡ none))
insert_locked_others_example =
    insert_locked_others grants (sample 9) 3 2 15 grants-Refuses (sample-IsHeap 9) refl
      (ground arith) (ground arith)

push-total_example :
    (g : Heap) × (push grants (sample 9) 3 ≡ some g) × IsHeap g × Holds g 3 × (g.count ≡ 3)
push-total_example =
    push-total grants (sample 9) 3 (λ n small. ground arith) grants-Refuses (sample-IsHeap 9)
      (ground arith) refl
