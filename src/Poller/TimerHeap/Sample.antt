-- ===== src/Poller/TimerHeap/Sample.antt =====
-- A heap of two timers, for the runs: the timer at address 1 is due at 10, the one at address 2 at
-- 20; every other timer is outside. The timer at `off` is cancelled.
use zero_tool_kit.Prelude.{ℕ, ◌==◌, if◌then◌else◌, arith}
use zero_tool_kit.Poller.TimerHeap.{Heap, index_none}
use zero_tool_kit.Poller.TimerHeap.Content.{IsHeap}

abbrev pub sample : ℕ → Heap
sample off = record {
  timers = λ a. record {
    user = 0;
    cancelled = a == off;
    deadline_ms = if a == 1 then 10 else if a == 2 then 20 else 0;
    heap_index = if a == 1 then 0 else if a == 2 then 1 else index_none;
  };
  slots = λ k. if k == 0 then 1 else 2;
  count = 2;
  cap = 8;
}

pub sample-IsHeap : (off : ℕ) → IsHeap (sample off)
sample-IsHeap off = record {
  ordered = λ k pos small. ground arith;
  placed = λ k small. ground arith;
  fits = ground arith;
  small = ground arith;
}
