-- ===== src/Poller/TimerHeap/Swap.antt =====
-- src/poller/poller_timer.c: the order of the heap, the places of its timers, and what an exchange
-- of two entries does to both.
use zero_tool_kit.Prelude.{ℕ, ◌-◌, ◌/◌, ◌≤◌, ◌<◌, ◌≡◌, ◌==◌, if◌then◌else◌, arith}
use zero_tool_kit.Poller.TimerHeap.{Heap, key, swap}

abbrev pub parent : ℕ → ℕ
parent k = (k - 1) / 2

-- No entry is due before its parent.
abbrev pub IsOrdered : Heap → Type 0
IsOrdered h = (k : ℕ) → 0 < k → k < h.count → key h (parent k) ≤ key h k

-- Each timer in the heap knows its index.
abbrev pub IsPlaced : Heap → Type 0
IsPlaced h = (k : ℕ) → k < h.count → (h.timers (h.slots k)).heap_index ≡ k

-- The heap holds the timer `a`.
abbrev pub Holds : Heap → ℕ → Type 0
Holds h a = ((h.timers a).heap_index < h.count) × (h.slots (h.timers a).heap_index ≡ a)

-- An exchange changes no timer but for its index.
pub swap-deadline :
    (h : Heap) (i j a : ℕ)
    → (((swap h i j).timers a).deadline_ms ≡ (h.timers a).deadline_ms)
      × (((swap h i j).timers a).cancelled ≡ (h.timers a).cancelled)
      × (((swap h i j).timers a).user ≡ (h.timers a).user)
unfolding swap
swap-deadline h i j a = ground arith

pub swap-slots :
    (h : Heap) (i j k : ℕ)
    → (swap h i j).slots k ≡ (if k == i then h.slots j else if k == j then h.slots i else h.slots k)
unfolding swap
swap-slots h i j k = ground arith

pub swap-key :
    (h : Heap) (i j k : ℕ)
    → key (swap h i j) k ≡ (if k == i then key h j else if k == j then key h i else key h k)
swap-key h i j k = ground (arith, swap-slots h i j k, swap-deadline h i j ((swap h i j).slots k))

pub swap-count : (h : Heap) (i j : ℕ) → ((swap h i j).count ≡ h.count) × ((swap h i j).cap ≡ h.cap)
unfolding swap
swap-count h i j = ground arith

pub swap-IsPlaced :
    (h : Heap) (i j : ℕ) → i < h.count → j < h.count → IsPlaced h → IsPlaced (swap h i j)
unfolding swap
swap-IsPlaced h i j hi hj placed k hk = ground (arith, placed i, placed j, placed k)

pub swap-Holds :
    (h : Heap) (i j a : ℕ)
    → i < h.count
    → j < h.count
    → IsPlaced h
    → Holds h a
    → Holds (swap h i j) a
unfolding swap
swap-Holds h i j a hi hj placed holds = ground (arith, placed i, placed j)

-- A timer whose index is not below the count stays as it is.
pub swap-away :
    (h : Heap) (i j a : ℕ)
    → i < h.count
    → j < h.count
    → IsPlaced h
    → h.count ≤ (h.timers a).heap_index
    → ((swap h i j).timers a).heap_index ≡ (h.timers a).heap_index
unfolding swap
swap-away h i j a hi hj placed out = ground (arith, placed i, placed j)
