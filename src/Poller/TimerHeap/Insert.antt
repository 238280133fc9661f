-- ===== src/Poller/TimerHeap/Insert.antt =====
-- src/poller/poller_timer.c: what an insertion promises, to the timers of the heap and to the
-- caller who has memory.
use zero_tool_kit.Prelude.{
  ℕ, ◌+◌, ◌*◌, ◌^◌, ◌≤◌, ◌<◌, ◌≡◌, ◌≢◌, ◌⊎◌, inl, inr, Bool, true, none, some, ltb, leb, ◌==◌,
  if◌then◌else◌, arith, refl, Bool-cases, u64,
}
use zero_tool_kit.Poller.TimerHeap.{
  Heap, index_none, set_deadline, push, reserve, grow, append, bubble_up, insert_locked,
}
use zero_tool_kit.Poller.TimerHeap.Swap.{Holds}
use zero_tool_kit.Poller.TimerHeap.Content.{IsHeap}
use zero_tool_kit.Poller.TimerHeap.Push.{Refuses, grow_lem, push-With, insert_locked_lem}

-- Inserting a timer `a` that is outside the heap sets its deadline and leaves a well-formed heap,
-- in which any timer `b` that was held stays with its deadline; and `a` is held afterwards, unless
-- the push found no memory. (realloc refuses requests that no object can have.)
pub insert_locked_others :
    (realloc : ℕ → Bool) (h : Heap) (a b d : ℕ)
    → Refuses realloc
    → IsHeap h
    → (h.timers a).heap_index ≡ index_none
    → Holds h b
    → b ≢ a
    → let g = insert_locked realloc h a d in
      IsHeap g
      × ((g.timers a).deadline_ms ≡ d)
      × Holds g b
      × ((g.timers b).deadline_ms ≡ (h.timers b).deadline_ms)
      × (Holds g a ⊎ (push realloc (set_deadline h a d) a ≡ none))
insert_locked_others realloc h a b d limits v out held ne =
    let (heap, deadline, holds, deadlines, there) = insert_locked_lem realloc h a d limits v out in
    (heap, deadline, holds b held, deadlines b ne, there)

reserve-total :
    (realloc : ℕ → Bool) (h : Heap)
    → ((n : ℕ) → n < 2 ^ 63 → realloc n ≡ true)
    → h.count ≤ h.cap
    → h.cap < 2 ^ 59
    → (g : Heap) × (reserve realloc h (h.count + 1) ≡ some g) × (g.count ≡ h.count)
unfolding reserve
reserve-total realloc h mem fits small = elim (Bool-cases (leb (h.count + 1) h.cap)) [
  | inl enough ↦ (h, rw enough refl, refl)
  | inr full ↦
      let old : ℕ = if h.cap == 0 then 8 else h.cap in
      let new : ℕ = if ltb old (h.count + 1) then 2 * old else old in
      let grown : grow 65 old (h.count + 1) ≡ some new =
        grow_lem 63 old (h.count + 1) (ground arith) (ground arith) in
      (record h { cap = new }, rw (full, grown) (ground (arith, mem (u64 (new * 8)))), refl)
]

push-reserved :
    (realloc : ℕ → Bool) (h r : Heap) (a : ℕ)
    → reserve realloc h (h.count + 1) ≡ some r
    → push realloc h a ≡ some (bubble_up (append r a) r.count)
unfolding push
push-reserved realloc h r a got = rw got refl

-- With memory for every request below 2 ^ 63 bytes, a push onto a heap whose array has fewer than
-- 2 ^ 59 entries succeeds, and the heap then holds the timer.
pub push-total :
    (realloc : ℕ → Bool) (h : Heap) (a : ℕ)
    → ((n : ℕ) → n < 2 ^ 63 → realloc n ≡ true)
    → Refuses realloc
    → IsHeap h
    → h.cap < 2 ^ 59
    → (h.timers a).heap_index ≡ index_none
    → (g : Heap) × (push realloc h a ≡ some g) × IsHeap g × Holds g a × (g.count ≡ h.count + 1)
push-total realloc h a mem limits v small out =
    let (r, got, same) = reserve-total realloc h mem v.fits small in
    let e = push-reserved realloc h r a got in
    let w = push-With realloc h (bubble_up (append r a) r.count) a limits v out e in
    (bubble_up (append r a) r.count, e, w.heap, w.held, w.number)
