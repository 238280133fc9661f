-- ===== src/Poller/TimerHeap/Queue.antt =====
-- src/poller/poller_timer.c: the heap of timers as a priority queue.
use zero_tool_kit.Prelude.{
  ℕ, ◌+◌, ◌-◌, ◌^◌, ◌≤◌, ◌<◌, ◌≡◌, ◌≢◌, inl, inr, false, ◌||◌, some, ltb, leb, ◌==◌, if◌then◌else◌,
  arith, refl, Bool-cases, ==_ne, ltb→lt, ap, ◌∙◌, sym,
}
use mathlib.Core.Path.{subst}
use zero_tool_kit.Poller.TimerHeap.{
  Heap, index_none, cut, refill, pop_min, remove, bubble_up, bubble_down,
}
use zero_tool_kit.Poller.TimerHeap.Swap.{IsOrdered, Holds}
use zero_tool_kit.Poller.TimerHeap.Up.{Kept, Kept-trans, bubble_up_lem}
use zero_tool_kit.Poller.TimerHeap.Down.{bubble_down-Rising, bubble_down_lem}
use zero_tool_kit.Poller.TimerHeap.Content.{
  IsHeap, root_first, replaced, replaced-Hole, replaced-IsPlaced, replaced-Holds, cut-IsHeap,
  cut-Holds, replaced_out, replaced-deadline,
}

-- `g` is `h` without the timer `a`: the other timers are still held, with their deadlines, and
-- `a` is marked as outside.
pub record Without (h : Heap) (a : ℕ) (g : Heap) : Type 0 where
  pub heap : IsHeap g
  pub number : g.count + 1 ≡ h.count
  pub others : (b : ℕ) → b ≢ a → Holds h b → Holds g b
  pub deadlines : (b : ℕ) → (g.timers b).deadline_ms ≡ (h.timers b).deadline_ms
  pub flags : (b : ℕ) → (g.timers b).cancelled ≡ (h.timers b).cancelled
  pub outside : (g.timers a).heap_index ≡ index_none

Kept-IsHeap : (h g : Heap) → IsOrdered g → Kept h g → h.count ≤ h.cap → h.cap < 2 ^ 60 → IsHeap g
Kept-IsHeap h g o kept fits small = record {
  ordered = o;
  placed = kept.placed;
  fits = omega (arith, kept.number, kept.room);
  small = omega (arith, kept.room);
}

-- The timer taken out stays outside when the rest is put in order.
stays_out :
    (h g : Heap) (a i : ℕ)
    → IsHeap h
    → h.slots i ≡ a
    → i < h.count - 1
    → Kept (replaced h i) g
    → (g.timers a).heap_index ≡ index_none
stays_out h g a i v at small kept = rw (← at) (
    kept.away (h.slots i) (omega (arith, replaced_out h i v small, v.fits, v.small))
    ∙ replaced_out h i v small)

-- Removing a held timer that is not in the last place: move down, then up.
removed-Without :
    (h : Heap) (a i : ℕ)
    → IsHeap h
    → h.slots i ≡ a
    → i < h.count - 1
    → Without h a (bubble_up (bubble_down (replaced h i) i) i)
removed-Without h a i v at small =
    let (rising, down) =
      bubble_down-Rising (replaced h i) i (replaced-Hole h i v small)
        (replaced-IsPlaced h i v small) in
    let (ordered, up) = bubble_up_lem (bubble_down (replaced h i) i) i rising down.placed in
    let kept = Kept-trans (replaced h i) _ _ down up in
    record {
      heap = Kept-IsHeap (replaced h i) _ ordered kept (omega (arith, v.fits)) v.small;
      number = omega (arith, kept.number);
      others = λ b ne holds. kept.holds b (replaced-Holds h i b v small (λ e. ne (e ∙ at)) holds);
      deadlines = λ b. kept.deadlines b ∙ (replaced-deadline h i b).0;
      flags = λ b. kept.flags b ∙ (replaced-deadline h i b).1;
      outside = stays_out h _ a i v at small kept;
    }

-- The same for index 0, where moving down is enough.
popped-Without :
    (h : Heap) (a : ℕ)
    → IsHeap h
    → h.slots 0 ≡ a
    → 0 < h.count - 1
    → Without h a (bubble_down (replaced h 0) 0)
popped-Without h a v at small =
    let (ordered, kept) =
      bubble_down_lem (replaced h 0) 0 (replaced-Hole h 0 v small) (λ z. absurd (omega arith))
        (replaced-IsPlaced h 0 v small) in
    record {
      heap = Kept-IsHeap (replaced h 0) _ ordered kept (omega (arith, v.fits)) v.small;
      number = omega (arith, kept.number);
      others = λ b ne holds. kept.holds b (replaced-Holds h 0 b v small (λ e. ne (e ∙ at)) holds);
      deadlines = λ b. kept.deadlines b ∙ (replaced-deadline h 0 b).0;
      flags = λ b. kept.flags b ∙ (replaced-deadline h 0 b).1;
      outside = stays_out h _ a 0 v at small kept;
    }

-- The last timer is just cut off.
cut-Without :
    (h : Heap) (a : ℕ) → IsHeap h → h.slots (h.count - 1) ≡ a → 0 < h.count → Without h a (cut h a)
cut-Without h a v at pos = record {
  heap = cut-IsHeap h a v at pos;
  number = omega arith;
  others = λ b ne holds. cut-Holds h a b v at ne holds;
  deadlines = λ b. ground arith;
  flags = λ b. ground arith;
  outside = ground arith;
}

-- `pop_min` on a heap that is not empty returns a timer before which no timer of the heap is due,
-- and leaves a heap without it.
pub pop_min-Without :
    (h : Heap) (a : ℕ)
    → IsHeap h
    → Holds h a
    → ((pop_min h).0 ≡ some (h.slots 0))
      × ((h.timers (h.slots 0)).deadline_ms ≤ (h.timers a).deadline_ms)
      × Without h (h.slots 0) (pop_min h).1
unfolding pop_min
pop_min-Without h a v holds =
    rw (==_ne h.count 0 (omega (arith, holds.0)))
      (refl, root_first h a v holds, rest (omega (arith, holds.0)))
  where
    rest :
        0 < h.count
        → Without h
            (h.slots 0)
            (if ltb 0 (h.count - 1) then bubble_down (replaced h 0) 0 else cut h (h.slots 0))
    rest pos = elim (Bool-cases (ltb 0 (h.count - 1))) [
      | inl more ↦ rw more (popped-Without h (h.slots 0) v refl (ltb→lt _ _ more))
      | inr last ↦ rw last (cut-Without h (h.slots 0) v (ap h.slots (ground arith)) pos)
    ]

-- Removing a timer that the heap holds, at whatever index, leaves the heap without it.
pub remove-Without : (h : Heap) (a : ℕ) → IsHeap h → Holds h a → Without h a (remove h a)
unfolding remove
remove-Without h a v held = rw (inside held) (rest held)
  where
    i : ℕ
    i = (h.timers a).heap_index

    inside : Holds h a → (i == index_none || leb h.count i) ≡ false
    inside holds = ground (arith, v.fits, v.small)

    rest :
        Holds h a
        → Without h a (
            if ltb i (h.count - 1)
            then bubble_up (bubble_down (refill (cut h a) i) i) i
            else cut h a)
    rest holds = elim (Bool-cases (ltb i (h.count - 1))) [
      | inl more ↦ rw more (
          subst (λ x. Without h a (bubble_up (bubble_down (refill (cut h x) i) i) i)) holds.1
            (removed-Without h a i v holds.1 (ltb→lt _ _ more)))
      | inr last ↦
          let at : i ≡ h.count - 1 = ground arith in
          rw last (cut-Without h a v (ap h.slots (sym at) ∙ holds.1) (omega arith))
    ]

-- `pop_min` on a heap that holds a timer `a` other than the one it returns: no timer of the heap is
-- due before the returned one, which is marked as outside; `a` stays, with its deadline, and what
-- is left is a well-formed heap with one timer less.
pub pop_min_first :
    (h : Heap) (a : ℕ)
    → IsHeap h
    → Holds h a
    → a ≢ h.slots 0
    → let (top, g) = pop_min h in
      (top ≡ some (h.slots 0))
      × ((h.timers (h.slots 0)).deadline_ms ≤ (h.timers a).deadline_ms)
      × IsHeap g
      × (g.count + 1 ≡ h.count)
      × Holds g a
      × ((g.timers a).deadline_ms ≡ (h.timers a).deadline_ms)
      × ((g.timers (h.slots 0)).heap_index ≡ index_none)
pop_min_first h a v holds ne =
    let (top, first, w) = pop_min-Without h a v holds in
    (top, first, w.heap, w.number, w.others a ne holds, w.deadlines a, w.outside)

-- Removing a timer `a` that the heap holds, at whatever index, marks it as outside and leaves a
-- well-formed heap with one timer less, in which any other timer `b` stays with its deadline.
pub remove_others :
    (h : Heap) (a b : ℕ)
    → IsHeap h
    → Holds h a
    → Holds h b
    → b ≢ a
    → let g = remove h a in
      IsHeap g
      × (g.count + 1 ≡ h.count)
      × ((g.timers a).heap_index ≡ index_none)
      × Holds g b
      × ((g.timers b).deadline_ms ≡ (h.timers b).deadline_ms)
remove_others h a b v held held' ne =
    let w = remove-Without h a v held in
    (w.heap, w.number, w.outside, w.others b ne held', w.deadlines b)
