-- ===== src/Poller/TimerHeap/Up.antt =====
-- src/poller/poller_timer.c: `timer_heap_bubble_up`, and what it keeps.
use zero_tool_kit.Prelude.{
  ℕ, zero, suc, ◌≤◌, ◌<◌, ◌≡◌, ◌≢◌, inl, inr, leb, ◌==◌, arith, refl, Bool-cases, ◌∙◌,
}
use zero_tool_kit.Poller.TimerHeap.{Heap, key, swap, up_loop, bubble_up}
use zero_tool_kit.Poller.TimerHeap.Swap.{
  parent, IsOrdered, IsPlaced, Holds, swap-key, swap-count, swap-deadline, swap-IsPlaced,
  swap-Holds, swap-away,
}

-- Only the entry `i` may be due before its parent, and what stands below it is not due before that
-- parent.
pub record Rising (h : Heap) (i : ℕ) : Type 0 where
  pub inside : i < h.count
  pub others : (k : ℕ) → 0 < k → k < h.count → k ≢ i → key h (parent k) ≤ key h k
  pub bypass : (k : ℕ) → 0 < k → k < h.count → parent k ≡ i → 0 < i → key h (parent i) ≤ key h k

Rising-IsOrdered :
    (h : Heap) (i : ℕ) → Rising h i → (0 < i → key h (parent i) ≤ key h i) → IsOrdered h
Rising-IsOrdered h i r ok k pos small = elim (Bool-cases (k == i)) [
  | inl same ↦ let e : k ≡ i = ground arith in rw e (ok (omega arith))
  | inr other ↦ r.others k pos small (ground arith)
]

-- One round leaves the fault at the parent.
Rising-swap :
    (h : Heap) (i : ℕ)
    → Rising h i
    → 0 < i
    → key h i < key h (parent i)
    → Rising (swap h (parent i) i) (parent i)
Rising-swap h i r pos less = record {
  inside = ground (arith, r.inside, swap-count h (parent i) i);
  others = λ k kpos small ne. ground (
    arith,
    swap-key h (parent i) i k,
    swap-key h (parent i) i (parent k),
    swap-count h (parent i) i,
    r.others k,
    r.bypass k,
  );
  bypass = λ k kpos small down up. ground (
    arith,
    swap-key h (parent i) i k,
    swap-key h (parent i) i (parent (parent i)),
    swap-count h (parent i) i,
    r.inside,
    r.others k,
    r.others (parent i),
  );
}

-- What the loop keeps: the timers but for their indices, the places, the count.
pub record Kept (h g : Heap) : Type 0 where
  pub deadlines : (a : ℕ) → (g.timers a).deadline_ms ≡ (h.timers a).deadline_ms
  pub flags : (a : ℕ) → ((g.timers a).cancelled ≡ (h.timers a).cancelled)
  pub holds : (a : ℕ) → Holds h a → Holds g a
  pub away :
      (a : ℕ)
      → h.count ≤ (h.timers a).heap_index
      → (g.timers a).heap_index ≡ (h.timers a).heap_index
  pub placed : IsPlaced g
  pub number : g.count ≡ h.count
  pub room : g.cap ≡ h.cap

pub Kept-self : (h : Heap) → IsPlaced h → Kept h h
Kept-self h p = record {
  deadlines = λ a. refl;
  flags = λ a. refl;
  holds = λ a x. x;
  away = λ a x. refl;
  placed = p;
  number = refl;
  room = refl;
}

pub Kept-trans : (h g f : Heap) → Kept h g → Kept g f → Kept h f
Kept-trans h g f p q = record {
  deadlines = λ a. q.deadlines a ∙ p.deadlines a;
  flags = λ a. q.flags a ∙ p.flags a;
  holds = λ a x. q.holds a (p.holds a x);
  away = λ a x. q.away a (omega (arith, p.away a x, p.number)) ∙ p.away a x;
  placed = q.placed;
  number = q.number ∙ p.number;
  room = q.room ∙ p.room;
}

pub swap-Kept : (h : Heap) (i j : ℕ) → i < h.count → j < h.count → IsPlaced h → Kept h (swap h i j)
swap-Kept h i j hi hj p = record {
  deadlines = λ a. (swap-deadline h i j a).0;
  flags = λ a. (swap-deadline h i j a).1;
  holds = λ a x. swap-Holds h i j a hi hj p x;
  away = λ a x. swap-away h i j a hi hj p x;
  placed = swap-IsPlaced h i j hi hj p;
  number = (swap-count h i j).0;
  room = (swap-count h i j).1;
}

up_loop_lem :
    (fuel : ℕ) (h : Heap) (i : ℕ)
    → i ≤ fuel
    → Rising h i
    → IsPlaced h
    → IsOrdered (up_loop fuel h i) × Kept h (up_loop fuel h i)
unfolding up_loop
up_loop_lem zero h i le r p = (Rising-IsOrdered h i r (λ z. absurd (omega arith)), Kept-self h p)
up_loop_lem (suc fuel) h i le r p = elim (Bool-cases (i == 0)) [
  | inl top ↦ rw top (Rising-IsOrdered h i r (λ z. absurd (ground arith)), Kept-self h p)
  | inr below ↦ rw below (elim (Bool-cases (leb (key h (parent i)) (key h i))) [
    | inl fine ↦ rw fine (Rising-IsOrdered h i r (λ z. ground arith), Kept-self h p)
    | inr fault ↦
        let up : parent i < h.count = omega (arith, r.inside) in
        let q : IsPlaced (swap h (parent i) i) = swap-IsPlaced h (parent i) i up r.inside p in
        let (ordered, kept) =
          up_loop_lem fuel (swap h (parent i) i) (parent i) (ground arith)
            (Rising-swap h i r (ground arith) (ground arith)) q in
        rw fault (ordered, Kept-trans h _ _ (swap-Kept h (parent i) i up r.inside p) kept)
  ])
]

-- Moving the one entry that may be due before its parent upwards orders the heap; the heap keeps
-- its timers, their deadlines, and each timer's index.
pub bubble_up_lem :
    (h : Heap) (i : ℕ)
    → Rising h i
    → IsPlaced h
    → IsOrdered (bubble_up h i) × Kept h (bubble_up h i)
unfolding bubble_up
bubble_up_lem h i r p = up_loop_lem i h i (omega arith) r p
