-- ===== src/Poller/TimerHeap.antt =====
-- src/poller/poller_timer.c: the binary heap of timers by deadline. A timer is its address; memory
-- gives each address its `ztk_poller_timer`. The array `timer_heap` is a function from index to
-- address, of which `cap` entries exist. Every function runs under `timer_mtx`.
pub mod Swap
pub mod Up
pub mod Down
pub mod Content
pub mod Queue
pub mod Push
pub mod Insert
pub mod Sample
mod Tests
use zero_tool_kit.Prelude.{
  ℕ, zero, suc, ◌+◌, ◌-◌, ◌*◌, ◌/◌, ◌^◌, Bool, true, false, ◌&&◌, ◌||◌, Option, none, some, List,
  [], ◌∷◌, ltb, leb, ◌==◌, if◌then◌else◌, u64,
}

-- `ztk_poller_timer`, less the poller and the callback.
pub record Timer : Type 0 where
  pub user : ℕ
  pub cancelled : Bool
  pub deadline_ms : ℕ
  pub heap_index : ℕ

pub record Heap : Type 0 where
  pub timers : ℕ → Timer
  pub slots : ℕ → ℕ
  pub count : ℕ
  pub cap : ℕ

-- `ZTK_TIMER_HEAP_INDEX_NONE`
abbrev pub index_none : ℕ
index_none = 2 ^ 64 - 1

abbrev pub update {ℓ} : {A : Type ℓ} → (ℕ → A) → ℕ → A → ℕ → A
update f p v q = if p == q then v else f q

-- `timer->heap_index = i`
abbrev pub set_index : (ℕ → Timer) → ℕ → ℕ → ℕ → Timer
set_index timers a i = update timers a (record (timers a) { heap_index = i })

-- The deadline of the timer at index `k` of the heap.
abbrev pub key : Heap → ℕ → ℕ
key h k = (h.timers (h.slots k)).deadline_ms

-- `while (cap < need) cap *= 2;` on size_t; `none` means that the fuel ran out.
pub grow : ℕ → ℕ → ℕ → Option ℕ
grow zero cap need = none
grow (suc fuel) cap need = elim (ltb cap need) [
  | true ↦ grow fuel (u64 (cap * 2)) need
  | false ↦ some cap
]

abbrev pub reserve_to : (ℕ → Bool) → Heap → Option ℕ → Option Heap
reserve_to realloc h none = none
reserve_to realloc h (some cap) =
    if realloc (u64 (cap * 8)) then some (record h { cap = cap }) else none

-- `none` is the result -1. 64 doublings take any capacity past every size_t, or to 0 for ever.
pub reserve : (ℕ → Bool) → Heap → ℕ → Option Heap
reserve realloc h need =
    if leb need h.cap
    then some h
    else reserve_to realloc h (grow 65 (if h.cap == 0 then 8 else h.cap) need)

pub swap : Heap → ℕ → ℕ → Heap
swap h i j =
    let slots = update (update h.slots i (h.slots j)) j (h.slots i) in
    record h { slots = slots; timers = set_index (set_index h.timers (slots i) i) (slots j) j }

-- Each round halves the index, so `i` rounds are enough.
pub up_loop : ℕ → Heap → ℕ → Heap
up_loop zero h i = h
up_loop (suc fuel) h i =
    let parent = (i - 1) / 2 in
    let moved = up_loop fuel (swap h parent i) parent in
    if i == 0 then h else if leb (key h parent) (key h i) then h else moved

pub bubble_up : Heap → ℕ → Heap
bubble_up h i = up_loop i h i

-- The index that the body of the loop chooses among `i` and its children.
abbrev pub smaller : Heap → ℕ → ℕ → ℕ
smaller h child best = if ltb child h.count && ltb (key h child) (key h best) then child else best

abbrev pub smallest : Heap → ℕ → ℕ
smallest h i = let left = i * 2 + 1 in let right = left + 1 in smaller h right (smaller h left i)

-- Each round goes to a larger index below the count, so that many rounds are enough.
pub down_loop : ℕ → Heap → ℕ → Heap
down_loop zero h i = h
down_loop (suc fuel) h i =
    let next = smallest h i in
    let moved = down_loop fuel (swap h i next) next in if next == i then h else moved

pub bubble_down : Heap → ℕ → Heap
bubble_down h i = down_loop h.count h i

-- The new last entry, before it is moved up.
abbrev pub append : Heap → ℕ → Heap
append h a = record h {
  timers = set_index h.timers a h.count;
  slots = update h.slots h.count a;
  count = h.count + 1;
}

abbrev pub push_reserved : ℕ → Option Heap → Option Heap
push_reserved a none = none
push_reserved a (some h) = some (bubble_up (append h a) h.count)

-- `none` is the result -1.
pub push : (ℕ → Bool) → Heap → ℕ → Option Heap
push realloc h a = push_reserved a (reserve realloc h (h.count + 1))

-- The timer `a` is marked as outside and the count falls; nothing is moved yet.
abbrev pub cut : Heap → ℕ → Heap
cut h a = record h { timers = set_index h.timers a index_none; count = h.count - 1 }

-- The entry behind the last one goes to index `i`.
abbrev pub refill : Heap → ℕ → Heap
refill h i =
    let last = h.slots h.count in
    record h { slots = update h.slots i last; timers = set_index h.timers last i }

-- The top timer, `none` for NULL.
pub pop_min : Heap → Option ℕ × Heap
pop_min h =
    let g = cut h (h.slots 0) in
    if h.count == 0
    then (none, h)
    else (some (h.slots 0), if ltb 0 g.count then bubble_down (refill g 0) 0 else g)

-- `timer->heap_index` tells where the timer is.
pub remove : Heap → ℕ → Heap
remove h a =
    let i = (h.timers a).heap_index in
    let g = cut h a in
    if i == index_none || leb h.count i
    then h
    else if ltb i g.count
    then bubble_up (bubble_down (refill g i) i) i
    else g

abbrev pub set_deadline : Heap → ℕ → ℕ → Heap
set_deadline h a deadline = record h {
  timers = update h.timers a (record (h.timers a) { deadline_ms = deadline });
}

abbrev pub pushed_or : Heap → Option Heap → Heap
pushed_or h none = h
pushed_or h (some h') = h'

-- A push that fails is ignored.
pub insert_locked : (ℕ → Bool) → Heap → ℕ → ℕ → Heap
insert_locked realloc h a deadline =
    let g = set_deadline h a deadline in
    let out = if (g.timers a).heap_index == index_none then g else remove g a in
    pushed_or out (push realloc out a)

-- `ztk_poller_timer_init`
pub init : Heap → Heap
init h = record h { count = 0; cap = 0 }

-- The first entries of the array.
abbrev pub entries : (ℕ → ℕ) → ℕ → ℕ → List ℕ
entries slots i zero = []
entries slots i (suc n) = slots i ∷ entries slots (i + 1) n

-- `ztk_poller_timer_fini`: the timers that are freed, and the heap.
pub fini : Heap → List ℕ × Heap
fini h = (entries h.slots 0 h.count, record h { count = 0; cap = 0 })
