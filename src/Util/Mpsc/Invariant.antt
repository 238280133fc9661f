-- ===== src/Util/Mpsc/Invariant.antt =====
-- src/util/mpsc.c: the invariant of the cells under every interleaving.
use zero_tool_kit.Prelude.{
  ℕ, ◌+◌, ◌^◌, ◌≤◌, ◌<◌, ◌≡◌, ◌≢◌, ◌⊎◌, inl, inr, refl, sym, ap, ◌∙◌, Bool, true, false, List,
  length, take, get_or, ltb, ◌==◌, if◌then◌else◌, arith, Bool-cases,
}
use zero_tool_kit.Util.Mpsc.{free, full, slot, judge}
use zero_tool_kit.Util.Mpsc.Steps.{
  Phase, unclaimed, claimed, written, published, Consumer, resting, holding, leaving, World,
}
use zero_tool_kit.Util.Mpsc.Window.{IsMasked, slot-apart, slot-wraps}

-- The first position whose cell the consumer has not freed.
abbrev pub front_of : ℕ → Consumer → ℕ
front_of head resting = head
front_of head (holding item) = head
front_of head leaving = head + 1

abbrev pub front : World → ℕ
front w = front_of w.queue.head w.consumer

-- The sequence number of the cell at a claimed position, and whether its item is there.
abbrev pub seq_of : ℕ → Phase → ℕ
seq_of k unclaimed = k
seq_of k claimed = k
seq_of k written = k
seq_of k published = k + 1

abbrev pub is_stored : Phase → Bool
is_stored unclaimed = false
is_stored claimed = false
is_stored written = true
is_stored published = true

-- The item in the consumer's hand is the one at the head, which is published.
abbrev pub HoldsHead : List ℕ → ℕ → ℕ → Phase → Consumer → Type 0
HoldsHead pushed head tail phase resting = Unit {0}
HoldsHead pushed head tail phase (holding item) =
    (item ≡ get_or pushed head 0) × (head < tail) × (phase ≡ published)
HoldsHead pushed head tail phase leaving = Unit {0}

-- The positions from the front to the tail are claimed, those from there to a round behind the front
-- are free, and each cell's sequence number and item tell so.
pub record IsOrdered (w : World) : Type 0 where
  pub masked : IsMasked w.queue.cap w.queue.mask
  pub front_le : front w ≤ w.queue.tail
  pub room : w.queue.tail ≤ front w + w.queue.cap
  pub small : w.queue.tail + w.queue.cap < 2 ^ 63
  pub numbered : length w.pushed ≡ w.queue.tail
  pub in_order : w.popped ≡ take (front w) w.pushed
  pub free_seq :
      (k : ℕ) → w.queue.tail ≤ k → k < front w + w.queue.cap → w.queue.seq (slot w.queue.mask k) ≡ k
  pub used_seq :
      (k : ℕ)
      → front w ≤ k
      → k < w.queue.tail
      → w.queue.seq (slot w.queue.mask k) ≡ seq_of k (w.phase k)
  pub used_item :
      (k : ℕ)
      → front w ≤ k
      → k < w.queue.tail
      → is_stored (w.phase k) ≡ true
      → w.queue.items (slot w.queue.mask k) ≡ get_or w.pushed k 0
  pub later : (k : ℕ) → w.queue.tail ≤ k → w.phase k ≡ unclaimed
  pub earlier : (k : ℕ) → k < front w → w.phase k ≡ published
  pub seen_free : (k : ℕ) → w.seen k ≡ true → w.queue.tail ≤ k → k < front w + w.queue.cap
  pub hand : HoldsHead w.pushed w.queue.head w.queue.tail (w.phase w.queue.head) w.consumer

Phase-cases : (p : Phase) → (p ≡ unclaimed) ⊎ (p ≡ claimed) ⊎ (p ≡ written) ⊎ (p ≡ published)
Phase-cases unclaimed = inl refl
Phase-cases claimed = inr (inl refl)
Phase-cases written = inr (inr (inl refl))
Phase-cases published = inr (inr (inr refl))

-- A sequence number is that of its position or the next one.
pub seq_of_bounds : (k : ℕ) (p : Phase) → (k ≤ seq_of k p) × (seq_of k p ≤ k + 1)
seq_of_bounds k unclaimed = omega arith
seq_of_bounds k claimed = omega arith
seq_of_bounds k written = omega arith
seq_of_bounds k published = omega arith

-- Different positions of the window have different slots.
pub slots_ne :
    (w : World) (a b : ℕ)
    → IsOrdered w
    → front w ≤ a
    → a < front w + w.queue.cap
    → front w ≤ b
    → b < front w + w.queue.cap
    → a ≢ b
    → slot w.queue.mask a ≢ slot w.queue.mask b
slots_ne w a b v la ua lb ub ne e = elim (Bool-cases (ltb a b)) [
  | inl below ↦ slot-apart w.queue.cap w.queue.mask v.masked a b (ground arith) (omega arith) e
  | inr above ↦
      slot-apart w.queue.cap w.queue.mask v.masked b a (ground arith) (omega arith) (sym e)
]

-- A cell that is free for the tail is free for a position of this round.
pub judge_tail :
    (w : World)
    → IsOrdered w
    → judge w.queue w.queue.tail ≡ free
    → w.queue.tail < front w + w.queue.cap
unfolding judge
judge_tail w v e = elim (Bool-cases (ltb w.queue.tail (front w + w.queue.cap))) [
  | inl inside ↦ ground arith
  | inr outside ↦
      let around : w.queue.tail ≡ front w + w.queue.cap = ground (arith, v.room) in
      let same : slot w.queue.mask w.queue.tail ≡ slot w.queue.mask (front w) =
        ap (slot w.queue.mask) around ∙ slot-wraps w.queue.cap w.queue.mask v.masked (front w) in
      let number : w.queue.seq (slot w.queue.mask w.queue.tail)
          ≡ seq_of (front w) (w.phase (front w)) =
        ap w.queue.seq same
        ∙ v.used_seq (front w) (omega arith) (omega (arith, v.masked.at_least_two)) in
      absurd (
        ground (
          arith,
          v.small,
          v.masked.at_least_two,
          number,
          seq_of_bounds (front w) (w.phase (front w)),
        ))
]

-- The cell at the tail is free or full, never taken by a later round.
pub judge_full :
    (w : World)
    → IsOrdered w
    → judge w.queue w.queue.tail ≡ (if w.queue.tail == front w + w.queue.cap then full else free)
unfolding judge
judge_full w v = elim (Bool-cases (w.queue.tail == front w + w.queue.cap)) [
  | inl around ↦
      let e : w.queue.tail ≡ front w + w.queue.cap = ground arith in
      let same : slot w.queue.mask w.queue.tail ≡ slot w.queue.mask (front w) =
        ap (slot w.queue.mask) e ∙ slot-wraps w.queue.cap w.queue.mask v.masked (front w) in
      let number : w.queue.seq (slot w.queue.mask w.queue.tail)
          ≡ seq_of (front w) (w.phase (front w)) =
        ap w.queue.seq same
        ∙ v.used_seq (front w) (omega arith) (omega (arith, v.masked.at_least_two)) in
      rw around (
        ground (
          arith,
          v.small,
          v.masked.at_least_two,
          number,
          seq_of_bounds (front w) (w.phase (front w)),
        ))
  | inr inside ↦
      let number = v.free_seq w.queue.tail (omega arith) (ground (arith, v.room)) in
      rw inside (ground (arith, v.small, number))
]
