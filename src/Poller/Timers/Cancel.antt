-- ===== src/Poller/Timers/Cancel.antt =====
-- src/poller/poller_timer.c: cancelling a timer.
use zero_tool_kit.Prelude.{ℕ, ◌≡◌, ◌≢◌, true, arith, ◌∙◌}
use zero_tool_kit.Poller.TimerHeap.{Heap, index_none}
use zero_tool_kit.Poller.TimerHeap.Swap.{Holds}
use zero_tool_kit.Poller.TimerHeap.Content.{IsHeap}
use zero_tool_kit.Poller.TimerHeap.Queue.{remove-Without}
use zero_tool_kit.Poller.Timers.{Env, timer_cancel, mark_cancelled}

mark_cancelled-IsHeap : (h : Heap) (a : ℕ) → IsHeap h → IsHeap (mark_cancelled h a)
mark_cancelled-IsHeap h a v = record {
  ordered = λ k pos small. ground (arith, v.ordered k);
  placed = λ k small. ground (arith, v.placed k);
  fits = v.fits;
  small = v.small;
}

mark_cancelled-Holds : (h : Heap) (a b : ℕ) → Holds h b → Holds (mark_cancelled h a) b
mark_cancelled-Holds h a b holds = ground arith

-- Cancelling a timer of the heap on the poller's own thread flags it and takes it out of the heap;
-- every other timer is still held with its deadline.
pub timer_cancel_lem :
    (env : Env) (h : Heap) (a b : ℕ)
    → env.is_owner ≡ true
    → IsHeap h
    → Holds h a
    → Holds h b
    → b ≢ a
    → let g = (timer_cancel env h a).0 in
      IsHeap g
      × ((g.timers a).cancelled ≡ true)
      × ((g.timers a).heap_index ≡ index_none)
      × Holds g b
      × ((g.timers b).deadline_ms ≡ (h.timers b).deadline_ms)
unfolding timer_cancel
timer_cancel_lem env h a b mine v held held' ne =
    let m = mark_cancelled h a in
    let w = remove-Without m a (mark_cancelled-IsHeap h a v) (mark_cancelled-Holds h a a held) in
    rw mine (
      w.heap,
      w.flags a ∙ ground arith,
      w.outside,
      w.others b ne (mark_cancelled-Holds h a b held'),
      w.deadlines b ∙ ground arith,
    )
