-- ===== src/Poller/TimerHeap/Push.antt =====
-- src/poller/poller_timer.c: adding a timer, and setting its deadline anew.
use zero_tool_kit.Prelude.{
  ℕ, suc, ◌+◌, ◌*◌, ◌^◌, ◌≤◌, ◌<◌, ◌≡◌, ◌≢◌, ◌⊎◌, inl, inr, Bool, true, Option, none, some, ltb,
  leb, ◌==◌, if◌then◌else◌, arith, refl, Bool-cases, Option-cases, ==_iff, ◌∙◌, u64,
}
use zero_tool_kit.Poller.TimerHeap.{
  Heap, index_none, append, set_deadline, pushed_or, push, reserve, reserve_to, grow, bubble_up,
  insert_locked,
}
use zero_tool_kit.Poller.TimerHeap.Swap.{parent, IsOrdered, IsPlaced, Holds}
use zero_tool_kit.Poller.TimerHeap.Up.{Rising, bubble_up_lem}
use zero_tool_kit.Poller.TimerHeap.Content.{IsHeap}

-- What realloc is documented to do with requests that no object can have: it refuses them.
abbrev pub Refuses : (ℕ → Bool) → Type 0
Refuses realloc = (n : ℕ) → realloc n ≡ true → n < 2 ^ 63

pub grow_lem :
    (fuel c need : ℕ)
    → need ≤ 2 * c
    → c < 2 ^ 61
    → grow (suc (suc fuel)) c need ≡ some (if ltb c need then 2 * c else c)
unfolding grow
grow_lem fuel c need le small = ground arith

-- Room for one more entry: the array is not smaller, nothing else changes, and it is only refused
-- when realloc refuses.
reserve_lem :
    (realloc : ℕ → Bool) (h g : Heap)
    → Refuses realloc
    → h.count ≤ h.cap
    → h.cap < 2 ^ 60
    → reserve realloc h (h.count + 1) ≡ some g
    → (c : ℕ) × (g ≡ record h { cap = c }) × (h.count + 1 ≤ c) × (c < 2 ^ 60)
unfolding reserve
reserve_lem realloc h g limits fits small e = elim (Bool-cases (leb (h.count + 1) h.cap)) [
  | inl enough ↦
      let e' : some h ≡ some g = rw enough at e in
      let q : g ≡ h = cc in (h.cap, q, ground arith, small)
  | inr full ↦
      let old : ℕ = if h.cap == 0 then 8 else h.cap in
      let new : ℕ = if ltb old (h.count + 1) then 2 * old else old in
      let grown : grow 65 old (h.count + 1) ≡ some new =
        grow_lem 63 old (h.count + 1) (ground arith) (ground arith) in
      let e' : reserve_to realloc h (some new) ≡ some g = rw (full, grown) at e in
      (new, ground arith, ground arith, ground (arith, limits (u64 (new * 8))))
]

-- `g` is `h` with the timer `a`: it holds `a` and the timers of `h`, with the deadlines of `h`.
pub record With (h : Heap) (a : ℕ) (g : Heap) : Type 0 where
  pub heap : IsHeap g
  pub number : g.count ≡ h.count + 1
  pub held : Holds g a
  pub others : (b : ℕ) → Holds h b → Holds g b
  pub deadlines : (b : ℕ) → (g.timers b).deadline_ms ≡ (h.timers b).deadline_ms
  pub flags : (b : ℕ) → (g.timers b).cancelled ≡ (h.timers b).cancelled

append-Rising :
    (h : Heap) (a : ℕ)
    → IsOrdered h
    → IsPlaced h
    → h.count ≤ (h.timers a).heap_index
    → Rising (append h a) h.count
append-Rising h a o p out = record {
  inside = omega arith;
  others = λ k pos small ne. ground (arith, o k);
  bypass = λ k pos small e ipos. absurd (omega arith);
}

append-IsPlaced :
    (h : Heap) (a : ℕ) → IsPlaced h → h.count ≤ (h.timers a).heap_index → IsPlaced (append h a)
append-IsPlaced h a p out k small = ground (arith, p k)

append-Holds :
    (h : Heap) (a b : ℕ) → h.count ≤ (h.timers a).heap_index → Holds h b → Holds (append h a) b
append-Holds h a b out holds = ground arith

append-deadline :
    (h : Heap) (a b : ℕ)
    → (((append h a).timers b).deadline_ms ≡ (h.timers b).deadline_ms)
      × (((append h a).timers b).cancelled ≡ (h.timers b).cancelled)
append-deadline h a b = ground arith

append_self : (h : Heap) (a : ℕ) → Holds (append h a) a
append_self h a = ground arith

appended-With :
    (h : Heap) (a c : ℕ)
    → h.count + 1 ≤ c
    → c < 2 ^ 60
    → IsOrdered h
    → IsPlaced h
    → h.count ≤ (h.timers a).heap_index
    → With h a (bubble_up (append (record h { cap = c }) a) h.count)
appended-With h a c room small o p out =
    let r = record h { cap = c } in
    let (ordered, kept) =
      bubble_up_lem (append r a) h.count (append-Rising r a o p out) (append-IsPlaced r a p out) in
    record {
      heap = record {
        ordered = ordered;
        placed = kept.placed;
        fits = omega (arith, kept.number, kept.room);
        small = omega (arith, kept.room);
      };
      number = kept.number;
      held = kept.holds a (append_self r a);
      others = λ b holds. kept.holds b (append-Holds r a b out holds);
      deadlines = λ b. kept.deadlines b ∙ (append-deadline r a b).0;
      flags = λ b. kept.flags b ∙ (append-deadline r a b).1;
    }

-- A push of a timer that is outside the heap either fails, when there is no memory, or gives a
-- heap with that timer.
pub push-With :
    (realloc : ℕ → Bool) (h g : Heap) (a : ℕ)
    → Refuses realloc
    → IsHeap h
    → (h.timers a).heap_index ≡ index_none
    → push realloc h a ≡ some g
    → With h a g
unfolding push
push-With realloc h g a limits v out e = elim (Option-cases (reserve realloc h (h.count + 1))) [
  | inl refused ↦ absurd (ground arith)
  | inr (h', got) ↦
      let (c, same, room, small) = reserve_lem realloc h h' limits v.fits v.small got in
      let made : some (bubble_up (append (record h { cap = c }) a) h.count) ≡ some g =
        rw (got, same) at e in
      let q : g ≡ bubble_up (append (record h { cap = c }) a) h.count = cc in
      rw q (appended-With h a c room small v.ordered v.placed (omega (arith, v.fits, v.small)))
]

-- Setting the deadline of a timer that is outside the heap changes nothing of the heap.
set_deadline-IsHeap :
    (h : Heap) (a d : ℕ)
    → IsHeap h
    → h.count ≤ (h.timers a).heap_index
    → IsHeap (set_deadline h a d)
set_deadline-IsHeap h a d v out = record {
  ordered = λ k pos small. ground (arith, v.ordered k, v.placed k, v.placed (parent k));
  placed = λ k small. ground (arith, v.placed k);
  fits = v.fits;
  small = v.small;
}

-- Inserting a timer that is outside the heap, with memory: the heap then holds it with the new
-- deadline, beside the timers that it held, whose deadlines stay. Without memory the timer is
-- left outside and the heap holds what it held.
pub insert_locked_lem :
    (realloc : ℕ → Bool) (h : Heap) (a d : ℕ)
    → Refuses realloc
    → IsHeap h
    → (h.timers a).heap_index ≡ index_none
    → IsHeap (insert_locked realloc h a d)
      × (((insert_locked realloc h a d).timers a).deadline_ms ≡ d)
      × ((b : ℕ) → Holds h b → Holds (insert_locked realloc h a d) b)
      × ((b : ℕ)
          → b ≢ a
          → ((insert_locked realloc h a d).timers b).deadline_ms ≡ (h.timers b).deadline_ms)
      × (Holds (insert_locked realloc h a d) a ⊎ (push realloc (set_deadline h a d) a ≡ none))
unfolding insert_locked
insert_locked_lem realloc h a d limits v out = rw outside (
    go (push realloc s a)
      (λ g e. push-With realloc s g a limits (set_deadline-IsHeap h a d v past) index e))
  where
    s : Heap
    s = set_deadline h a d

    past : h.count ≤ (h.timers a).heap_index
    past = omega (arith, v.fits, v.small)

    index : (s.timers a).heap_index ≡ index_none
    index = ground arith

    outside : ((s.timers a).heap_index == index_none) ≡ true
    outside = (==_iff _ _).1 index

    go :
        (r : Option Heap)
        → ((g : Heap) → r ≡ some g → With s a g)
        → IsHeap (pushed_or s r)
          × (((pushed_or s r).timers a).deadline_ms ≡ d)
          × ((b : ℕ) → Holds h b → Holds (pushed_or s r) b)
          × ((b : ℕ) → b ≢ a → ((pushed_or s r).timers b).deadline_ms ≡ (h.timers b).deadline_ms)
          × (Holds (pushed_or s r) a ⊎ (r ≡ none))
    go none w = (
      set_deadline-IsHeap h a d v past,
      ground arith,
      (λ b holds. ground arith),
      (λ b ne. ground arith),
      inr refl,
    )
    go (some g) w =
        let with_it = w g refl in
        (
          with_it.heap,
          with_it.deadlines a ∙ ground arith,
          (λ b holds. with_it.others b (ground arith)),
          (λ b ne. with_it.deadlines b ∙ ground arith),
          inl with_it.held,
        )

-- Inserting changes no flag.
pub insert_locked-flags :
    (realloc : ℕ → Bool) (h : Heap) (a d b : ℕ)
    → Refuses realloc
    → IsHeap h
    → (h.timers a).heap_index ≡ index_none
    → ((insert_locked realloc h a d).timers b).cancelled ≡ (h.timers b).cancelled
unfolding insert_locked
insert_locked-flags realloc h a d b limits v out =
    rw ((==_iff ((set_deadline h a d).timers a).heap_index index_none).1 (ground arith)) (
      go (push realloc (set_deadline h a d) a) (λ g e.
        push-With realloc (set_deadline h a d) g a limits
          (set_deadline-IsHeap h a d v (omega (arith, v.fits, v.small))) (ground arith) e))
  where
    go :
        (r : Option Heap)
        → ((g : Heap) → r ≡ some g → With (set_deadline h a d) a g)
        → ((pushed_or (set_deadline h a d) r).timers b).cancelled ≡ (h.timers b).cancelled
    go none w = ground arith
    go (some g) w = (w g refl).flags b ∙ ground arith
