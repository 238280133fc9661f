-- ===== src/Util/Mpsc.antt =====
-- src/util/mpsc.c: a bounded queue of pointers for many producers and one consumer. The array of
-- cells is two functions from slot to value, of which `cap` slots exist. Each function on the queue
-- below `create` is one atomic access, or the read and the write that only one thread can make;
-- `Steps` interleaves them. A pointer is a number.
pub mod Window
pub mod Steps
pub mod Invariant
pub mod Producers
pub mod Consumers
pub mod Order
mod Tests
use Prim.Native.Nat.{bit_and}
use zero_tool_kit.Prelude.{
  ℕ, ◌+◌, ◌-◌, ◌^◌, Bool, true, false, ◌&&◌, not, Option, none, some, ltb, leb, ◌==◌, if◌then◌else◌,
  u64, sub64,
}

-- `ztk_mpsc_queue` with its cells
pub record Queue : Type 0 where
  pub items : ℕ → ℕ
  pub seq : ℕ → ℕ
  pub cap : ℕ
  pub mask : ℕ
  pub head : ℕ
  pub tail : ℕ

abbrev pub is_pow2 : ℕ → Bool
is_pow2 n = leb 2 n && (bit_and n (n - 1) == 0)

-- The two flags say whether the two allocations succeed; calloc's memory is 0.
pub create : Bool → Bool → ℕ → Option Queue
create calloc_queue calloc_cells cap_pow2 =
    let made : Queue = record {
      items = λ s. 0;
      seq = λ s. s;
      cap = cap_pow2;
      mask = cap_pow2 - 1;
      head = 0;
      tail = 0;
    } in
    if is_pow2 cap_pow2 && calloc_queue && calloc_cells then some made else none

-- `pos & q->mask`
pub slot : ℕ → ℕ → ℕ
slot mask pos = bit_and pos mask

abbrev pub stored : (ℕ → ℕ) → ℕ → ℕ → ℕ → ℕ
stored f s v t = if t == s then v else f t

-- What a producer learns from the sequence number of the cell at its position: the cell is free
-- for the position, still holds an item of one round before, or was taken by another producer.
pub data Verdict : Type 0 where
  free full moved : Verdict

-- The sign of `(int64_t)seq - (int64_t)pos`.
abbrev pub verdict_of : ℕ → Verdict
verdict_of dif = if dif == 0 then free else if ltb dif (2 ^ 63) then moved else full

pub judge : Queue → ℕ → Verdict
judge q pos = verdict_of (sub64 (q.seq (slot q.mask pos)) pos)

-- The compare-exchange of the tail; it fails and changes nothing if the tail has moved.
pub claim : ℕ → Queue → Bool × Queue
claim pos q = if q.tail == pos then (true, record q { tail = u64 (pos + 1) }) else (false, q)

-- The write of the item, and the store that publishes it.
pub write : ℕ → ℕ → Queue → Queue
write pos item q = record q { items = stored q.items (slot q.mask pos) item }

pub publish : ℕ → Queue → Queue
publish pos q = record q { seq = stored q.seq (slot q.mask pos) (u64 (pos + 1)) }

-- The consumer: whether the cell at the head is published, what it holds, the store that frees
-- the cell, and the store of the head.
pub is_ready : Queue → Bool
is_ready q = sub64 (q.seq (slot q.mask q.head)) (u64 (q.head + 1)) == 0

pub peek : Queue → ℕ
peek q = q.items (slot q.mask q.head)

pub release : Queue → Queue
release q = record q { seq = stored q.seq (slot q.mask q.head) (u64 (q.head + q.mask + 1)) }

pub advance : Queue → Queue
advance q = record q { head = u64 (q.head + 1) }

-- `ztk_mpsc_pop` with nobody between its accesses; `none` is NULL.
pub pop : Queue → Option ℕ × Queue
pop q = if is_ready q then (some (peek q), advance (release q)) else (none, q)
