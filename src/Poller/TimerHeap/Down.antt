-- ===== src/Poller/TimerHeap/Down.antt =====
-- src/poller/poller_timer.c: `timer_heap_bubble_down`.
use zero_tool_kit.Prelude.{
  ℕ, zero, suc, ◌+◌, ◌*◌, ◌≤◌, ◌<◌, ◌≡◌, ◌≢◌, ◌⊎◌, inl, inr, ◌==◌, arith, Bool-cases, ==_iff,
}
use zero_tool_kit.Poller.TimerHeap.{Heap, key, swap, smallest, down_loop, bubble_down}
use zero_tool_kit.Poller.TimerHeap.Swap.{parent, IsOrdered, IsPlaced, swap-key, swap-count}
use zero_tool_kit.Poller.TimerHeap.Up.{Rising, Kept, Kept-self, Kept-trans, swap-Kept}

-- The entry `i` may be out of order with its parent and its children, and nothing else is.
pub record Hole (h : Heap) (i : ℕ) : Type 0 where
  pub inside : i < h.count
  pub others : (k : ℕ) → 0 < k → k < h.count → k ≢ i → parent k ≢ i → key h (parent k) ≤ key h k
  pub bypass : (k : ℕ) → 0 < k → k < h.count → parent k ≡ i → 0 < i → key h (parent i) ≤ key h k

-- What the body of the loop chooses: `i` itself if it is due no later than its children, and
-- otherwise a child that is due before `i` and no later than the other one.
smallest_lem :
    (h : Heap) (i k : ℕ) → 0 < k → k < h.count → parent k ≡ i → key h (smallest h i) ≤ key h k
smallest_lem h i k pos small e = ground (arith, sides)
  where
    sides : (k ≡ i * 2 + 1) ⊎ (k ≡ i * 2 + 1 + 1)
    sides = omega arith

smallest_child :
    (h : Heap) (i : ℕ)
    → smallest h i ≢ i
    → (parent (smallest h i) ≡ i)
      × (i < smallest h i)
      × (smallest h i < h.count)
      × (key h (smallest h i) < key h i)
smallest_child h i ne = ground arith

Hole-swap :
    (h : Heap) (i s : ℕ)
    → Hole h i
    → parent s ≡ i
    → i < s
    → s < h.count
    → key h s < key h i
    → ((k : ℕ) → 0 < k → k < h.count → parent k ≡ i → key h s ≤ key h k)
    → Hole (swap h i s) s × (key (swap h i s) (parent s) ≤ key (swap h i s) s)
Hole-swap h i s r e lt small less least = (
  record {
    inside = ground (arith, swap-count h i s);
    others = λ k kpos ksmall ne ne'. ground (
      arith,
      swap-key h i s k,
      swap-key h i s (parent k),
      swap-count h i s,
      r.others k,
      r.bypass s,
      least k,
    );
    bypass = λ k kpos ksmall down pos.
        ground (arith, swap-key h i s k, swap-key h i s (parent s), swap-count h i s, r.others k);
  },
  ground (arith, swap-key h i s s, swap-key h i s (parent s)),
)

Hole-IsOrdered :
    (h : Heap) (i : ℕ)
    → Hole h i
    → ((k : ℕ) → 0 < k → k < h.count → parent k ≡ i → key h i ≤ key h k)
    → (0 < i → key h (parent i) ≤ key h i)
    → IsOrdered h
Hole-IsOrdered h i r least up k pos small = elim (Bool-cases (k == i)) [
  | inl same ↦ let e : k ≡ i = ground arith in rw e (up (omega arith))
  | inr other ↦ elim (Bool-cases (parent k == i)) [
    | inl child ↦
        let e : parent k ≡ i = ground arith in
        let at : key h i ≤ key h k = least k pos small e in rw e at
    | inr far ↦ r.others k pos small (ground arith) (ground arith)
  ]
]

down_loop_lem :
    (fuel : ℕ) (h : Heap) (i : ℕ)
    → h.count ≤ i + fuel
    → Hole h i
    → (0 < i → key h (parent i) ≤ key h i)
    → IsPlaced h
    → IsOrdered (down_loop fuel h i) × Kept h (down_loop fuel h i)
unfolding down_loop
down_loop_lem zero h i le r up p = absurd (omega (arith, r.inside))
down_loop_lem (suc fuel) h i le r up p = elim (Bool-cases (smallest h i == i)) [
  | inl stop ↦
      let e : smallest h i ≡ i = (==_iff _ _).0 stop in
      rw stop (
        Hole-IsOrdered h i r (λ k pos small c. rw e at (smallest_lem h i k pos small c)) up,
        Kept-self h p,
      )
  | inr move ↦
      let (e, lt, small, less) =
        smallest_child h i (λ q. ground (arith, (==_iff (smallest h i) i).1 q)) in
      let (hole, up') = Hole-swap h i (smallest h i) r e lt small less (smallest_lem h i) in
      let kept = swap-Kept h i (smallest h i) r.inside small p in
      let (ordered, kept') =
        down_loop_lem fuel (swap h i (smallest h i)) (smallest h i)
          (omega (arith, swap-count h i (smallest h i))) hole (λ _. up') kept.placed in
      rw move (ordered, Kept-trans h _ _ kept kept')
]

ordered-Rising : (h : Heap) (i : ℕ) → i < h.count → IsOrdered h → Rising h i
ordered-Rising h i small o = record {
  inside = small;
  others = λ k pos ksmall ne. o k pos ksmall;
  bypass = λ k pos ksmall e ipos. ground (arith, o k, o i);
}

stay-Rising :
    (h : Heap) (i : ℕ)
    → Hole h i
    → ((k : ℕ) → 0 < k → k < h.count → parent k ≡ i → key h i ≤ key h k)
    → Rising h i
stay-Rising h i r least = record {
  inside = r.inside;
  others = λ k pos small ne. elim (Bool-cases (parent k == i)) [
    | inl child ↦
        let e : parent k ≡ i = (==_iff _ _).0 child in
        let at : key h i ≤ key h k = least k pos small e in rw e at
    | inr far ↦ r.others k pos small ne (ground arith)
  ];
  bypass = r.bypass;
}

first_round :
    (fuel : ℕ) (h : Heap) (i : ℕ)
    → h.count ≤ fuel
    → Hole h i
    → IsPlaced h
    → Rising (down_loop fuel h i) i × Kept h (down_loop fuel h i)
unfolding down_loop
first_round zero h i le r p = absurd (omega (arith, r.inside))
first_round (suc fuel) h i le r p = elim (Bool-cases (smallest h i == i)) [
  | inl stop ↦
      let e : smallest h i ≡ i = (==_iff _ _).0 stop in
      rw stop (
        stay-Rising h i r (λ k pos small c. rw e at (smallest_lem h i k pos small c)),
        Kept-self h p,
      )
  | inr move ↦
      let (e, lt, small, less) =
        smallest_child h i (λ q. ground (arith, (==_iff (smallest h i) i).1 q)) in
      let (hole, up) = Hole-swap h i (smallest h i) r e lt small less (smallest_lem h i) in
      let kept = swap-Kept h i (smallest h i) r.inside small p in
      let (ordered, kept') =
        down_loop_lem fuel (swap h i (smallest h i)) (smallest h i)
          (omega (arith, swap-count h i (smallest h i))) hole (λ _. up) kept.placed in
      rw move (
        ordered-Rising _ i (omega (arith, r.inside, kept.number, kept'.number)) ordered,
        Kept-trans h _ _ kept kept',
      )
]

-- From any fault at `i` alone, moving down leaves at most a fault between `i` and its parent,
-- which moving up then mends.
pub bubble_down-Rising :
    (h : Heap) (i : ℕ)
    → Hole h i
    → IsPlaced h
    → Rising (bubble_down h i) i × Kept h (bubble_down h i)
unfolding bubble_down
bubble_down-Rising h i r p = first_round h.count h i (omega arith) r p

-- Moving an entry that is not due before its parent downwards orders the heap, and the heap keeps
-- its timers.
pub bubble_down_lem :
    (h : Heap) (i : ℕ)
    → Hole h i
    → (0 < i → key h (parent i) ≤ key h i)
    → IsPlaced h
    → IsOrdered (bubble_down h i) × Kept h (bubble_down h i)
unfolding bubble_down
bubble_down_lem h i r up p = down_loop_lem h.count h i (omega arith) r up p
