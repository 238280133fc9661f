-- ===== src/Poller/Timers/Expiry.antt =====
-- src/poller/poller_timer.c: what `flush_expired_timers` leaves, and whom it calls.
use zero_tool_kit.Prelude.{
  ℕ, zero, suc, ◌+◌, ◌<◌, ◌≡◌, refl, Bool, true, false, ◌&&◌, not, count, ltb, ◌==◌, u64, arith,
  Bool-cases, ◌∙◌, inl, inr, ap, ==_iff,
}
use zero_tool_kit.Poller.TimerHeap.{Heap, index_none, pop_min}
use zero_tool_kit.Poller.TimerHeap.Swap.{Holds}
use zero_tool_kit.Poller.TimerHeap.Content.{IsHeap, root_first}
use zero_tool_kit.Poller.TimerHeap.Queue.{pop_min-Without}
use zero_tool_kit.Poller.TimerHeap.Push.{Refuses, insert_locked_lem, insert_locked-flags}
use zero_tool_kit.Poller.Timers.{
  Answer, expire, is_due, flush_loop, flush_max, flush_expired_timers,
}

module _ (realloc : ℕ → Bool) (callback : ℕ → Answer) (now : ℕ) (limits : Refuses realloc) where
  -- A round with a timer that is outside the heap keeps the heap and every flag.
  expire_lem :
      (a : ℕ) (g : Heap)
      → IsHeap g
      → (g.timers a).heap_index ≡ index_none
      → IsHeap (expire realloc callback now a g).0
        × ((b : ℕ)
            → ((expire realloc callback now a g).0.timers b).cancelled ≡ (g.timers b).cancelled)
  expire_lem a g v out = elim (Bool-cases (g.timers a).cancelled) [
    | inl off ↦ rw off (v, λ b. refl)
    | inr on ↦ rw on (elim (Bool-cases (ltb 0 (callback a).next_ms && not (callback a).cancelled)) [
      | inr once ↦ rw once (v, λ b. refl)
      | inl again ↦
          let d = u64 (now + (callback a).next_ms) in
          rw again (
            (insert_locked_lem realloc g a d limits v out).0,
            λ b. insert_locked-flags realloc g a d b limits v out,
          )
    ])
  ]

  -- The heap after one round.
  abbrev round : Heap → Heap
  round h = (expire realloc callback now (h.slots 0) (pop_min h).1).0

  round_lem :
      (h : Heap)
      → IsHeap h
      → 0 < h.count
      → IsHeap (round h)
        × ((b : ℕ) → ((round h).timers b).cancelled ≡ (h.timers b).cancelled)
        × (((pop_min h).1.timers (h.slots 0)).cancelled ≡ (h.timers (h.slots 0)).cancelled)
  round_lem h v pos =
      let w = (pop_min-Without h (h.slots 0) v (ground (arith, v.placed 0))).2 in
      let (heap, flags) = expire_lem (h.slots 0) (pop_min h).1 w.heap w.outside in
      (heap, (λ b. flags b ∙ w.flags b), w.flags (h.slots 0))

  flush_loop-IsHeap :
      (n : ℕ) (h : Heap) → IsHeap h → IsHeap (flush_loop realloc callback now n h).heap
  unfolding flush_loop
  flush_loop-IsHeap zero h v = v
  flush_loop-IsHeap (suc n) h v = elim (Bool-cases (is_due realloc callback now h)) [
    | inr done ↦ rw done v
    | inl due ↦ rw due (flush_loop-IsHeap n (round h) (round_lem h v (ground arith)).0)
  ]

  -- With rounds left at the end, the loop ended by its test.
  flush_loop-done :
      (n : ℕ) (h : Heap)
      → (flush_loop realloc callback now n h).processed < n
      → is_due realloc callback now (flush_loop realloc callback now n h).heap ≡ false
  unfolding flush_loop
  flush_loop-done zero h less = absurd (omega arith)
  flush_loop-done (suc n) h less = elim (Bool-cases (is_due realloc callback now h)) [
    | inr done ↦ rw done done
    | inl due ↦ rw due (flush_loop-done n (round h) (ground arith))
  ]

  flush_loop-cancelled :
      (n : ℕ) (h : Heap) (a : ℕ)
      → IsHeap h
      → (h.timers a).cancelled ≡ true
      → count a (flush_loop realloc callback now n h).fired ≡ 0
  unfolding flush_loop
  flush_loop-cancelled zero h a v off = refl
  flush_loop-cancelled (suc n) h a v off = elim (Bool-cases (is_due realloc callback now h)) [
    | inr done ↦ rw done
    | inl due ↦
        let (heap, flags, top) = round_lem h v (ground arith) in
        let later = flush_loop-cancelled n (round h) a heap (flags a ∙ off) in
        rw due (elim (Bool-cases (h.slots 0 == a)) [
          | inl same ↦
              let e : h.slots 0 ≡ a = (==_iff _ _).0 same in
              let off' : ((pop_min h).1.timers (h.slots 0)).cancelled ≡ true =
                top ∙ ap (λ x. (h.timers x).cancelled) e ∙ off in
              ground arith
          | inr other ↦ ground arith
        ])
  ]

  -- A flush leaves a well-formed heap.
  pub flush-IsHeap :
      (h : Heap) → IsHeap h → IsHeap (flush_expired_timers realloc callback now h).0.heap
  unfolding flush_expired_timers
  flush-IsHeap h v = flush_loop-IsHeap flush_max h v

  -- If a flush stopped before the limit of 256 rounds, every timer that the heap still holds is
  -- due later than now.
  pub flush_complete :
      (h : Heap) (a : ℕ)
      → IsHeap h
      → (flush_expired_timers realloc callback now h).0.processed < flush_max
      → Holds (flush_expired_timers realloc callback now h).0.heap a
      → now < ((flush_expired_timers realloc callback now h).0.heap.timers a).deadline_ms
  unfolding flush_expired_timers
  flush_complete h a v less holds = ground (
    arith,
    flush_loop-done flush_max h less,
    root_first _ a (flush_loop-IsHeap flush_max h v) holds,
  )

  -- A flush does not call back a timer that was cancelled before it.
  pub flush_skips_cancelled :
      (h : Heap) (a : ℕ)
      → IsHeap h
      → (h.timers a).cancelled ≡ true
      → count a (flush_expired_timers realloc callback now h).0.fired ≡ 0
  unfolding flush_expired_timers
  flush_skips_cancelled h a v off = flush_loop-cancelled flush_max h a v off
