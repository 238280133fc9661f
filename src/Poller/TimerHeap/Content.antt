-- ===== src/Poller/TimerHeap/Content.antt =====
-- src/poller/poller_timer.c: the invariant of the heap of timers, and its first consequence.
use zero_tool_kit.Prelude.{ℕ, zero, suc, ◌-◌, ◌^◌, ◌≤◌, ◌<◌, ◌≡◌, ◌≢◌, ◌==◌, if◌then◌else◌, arith}
use zero_tool_kit.Poller.TimerHeap.{Heap, key, index_none, cut, refill}
use zero_tool_kit.Poller.TimerHeap.Swap.{parent, IsOrdered, IsPlaced, Holds}
use zero_tool_kit.Poller.TimerHeap.Down.{Hole}

-- The heap is ordered, each timer in it knows its index, and its array is large enough and can be
-- counted in bytes.
pub record IsHeap (h : Heap) : Type 0 where
  pub ordered : IsOrdered h
  pub placed : IsPlaced h
  pub fits : h.count ≤ h.cap
  pub small : h.cap < 2 ^ 60

root_below : (h : Heap) (fuel k : ℕ) → IsOrdered h → k ≤ fuel → k < h.count → key h 0 ≤ key h k
root_below h zero zero o le small = omega arith
root_below h zero (suc k) o le small = absurd (omega arith)
root_below h (suc fuel) zero o le small = omega arith
root_below h (suc fuel) (suc k) o le small = omega (
  arith,
  o (suc k) (omega arith) small,
  root_below h fuel (parent (suc k)) o (omega arith) (omega arith),
)

-- Nothing in the heap is due before the entry at index 0.
pub root_first : (h : Heap) (a : ℕ) → IsHeap h → Holds h a → key h 0 ≤ (h.timers a).deadline_ms
root_first h a v holds =
    ground (arith, root_below h (h.timers a).heap_index (h.timers a).heap_index v.ordered)

-- The heap with the timer at `i` taken out and the last one in its place.
abbrev pub replaced : Heap → ℕ → Heap
replaced h i = refill (cut h (h.slots i)) i

replaced-key :
    (h : Heap) (i k : ℕ) → key (replaced h i) k ≡ (if k == i then key h (h.count - 1) else key h k)
replaced-key h i k = ground arith

-- That leaves one fault, at index `i`.
pub replaced-Hole : (h : Heap) (i : ℕ) → IsHeap h → i < h.count - 1 → Hole (replaced h i) i
replaced-Hole h i v small = record {
  inside = small;
  others = λ k pos ksmall ne ne'.
      ground (arith, replaced-key h i k, replaced-key h i (parent k), v.ordered k);
  bypass = λ k pos ksmall e ipos.
      ground (arith, replaced-key h i k, replaced-key h i (parent i), v.ordered k, v.ordered i);
}

pub replaced-IsPlaced : (h : Heap) (i : ℕ) → IsHeap h → i < h.count - 1 → IsPlaced (replaced h i)
replaced-IsPlaced h i v small k ksmall =
    ground (arith, v.placed i, v.placed k, v.placed (h.count - 1))

-- Every other timer is still held, and the one taken out is marked as outside.
pub replaced-Holds :
    (h : Heap) (i a : ℕ)
    → IsHeap h
    → i < h.count - 1
    → a ≢ h.slots i
    → Holds h a
    → Holds (replaced h i) a
replaced-Holds h i a v small ne holds =
    ground (arith, v.placed i, v.placed (h.count - 1), v.placed (h.timers a).heap_index)

pub cut-IsHeap :
    (h : Heap) (a : ℕ) → IsHeap h → h.slots (h.count - 1) ≡ a → 0 < h.count → IsHeap (cut h a)
cut-IsHeap h a v last pos = record {
  ordered = λ k kpos small. ground (arith, v.ordered k);
  placed = λ k small. ground (arith, v.placed k, v.placed (h.count - 1));
  fits = omega (arith, v.fits);
  small = v.small;
}

pub cut-Holds :
    (h : Heap) (a b : ℕ)
    → IsHeap h
    → h.slots (h.count - 1) ≡ a
    → b ≢ a
    → Holds h b
    → Holds (cut h a) b
cut-Holds h a b v last ne holds = ground (arith, v.placed (h.count - 1))

-- The timer that was taken out has the index of none, the others keep their deadlines.
pub replaced_out :
    (h : Heap) (i : ℕ)
    → IsHeap h
    → i < h.count - 1
    → ((replaced h i).timers (h.slots i)).heap_index ≡ index_none
replaced_out h i v small = ground (arith, v.placed i, v.placed (h.count - 1))

pub replaced-deadline :
    (h : Heap) (i a : ℕ)
    → (((replaced h i).timers a).deadline_ms ≡ (h.timers a).deadline_ms)
      × (((replaced h i).timers a).cancelled ≡ (h.timers a).cancelled)
replaced-deadline h i a = ground arith
