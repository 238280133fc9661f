-- ===== src/Poller/Pool.antt =====
-- src/poller/poller_pool.c: a pool of pollers and how one is chosen. A poller is its address;
-- slot `i` of the array is entry `i` of the list. What `ztk_poller_get_load` reads changes while a
-- choice is made, so the parameter `load` gives the percentage for each reading: `load k i` is the
-- reading number `k`, of slot `i`.
pub mod Choice
mod Tests
use Prim.Native.Nat.{bit_xor}
use zero_tool_kit.Prelude.{
  ℕ, zero, suc, ◌+◌, ◌*◌, ◌/◌, ◌%◌, ◌^◌, Bool, true, false, ◌&&◌, ◌||◌, Option, none, some, List,
  [], ◌∷◌, length, get_elem?, ltb, leb, ◌==◌, if◌then◌else◌, u32, u64,
}

pub record Pool : Type 0 where
  pub pollers : List ℕ
  pub thread_pos : ℕ
  pub prefer_current : Bool

-- `pool->count`
abbrev pub size : Pool → ℕ
size pool = length pool.pollers

-- `none` is NULL.
pub at : Pool → ℕ → Option ℕ
at pool index = if leb (size pool) index then none else get_elem? pool.pollers index

pub get_first : Pool → Option ℕ
unfolding at
get_first pool = at pool 0

pub find_current_poller : (ℕ → Bool) → List ℕ → Option ℕ
find_current_poller is_current [] = none
find_current_poller is_current (p ∷ ps) =
    let rest = find_current_poller is_current ps in if is_current p then some p else rest

abbrev xor_shift : ℕ → ℕ
xor_shift x = bit_xor x (x / 2 ^ 33)

-- The finaliser of the hash, on uint64_t.
pub hash_u64 : ℕ → ℕ
hash_u64 x =
    let a = u64 (xor_shift x * 0xff51afd7ed558ccd) in
    let b = u64 (xor_shift a * 0xc4ceb9fe1a85ec53) in xor_shift b

pub get_by_key : Pool → ℕ → Option ℕ
unfolding hash_u64
get_by_key pool key =
    if size pool == 0 then none else get_elem? pool.pollers (u32 (hash_u64 key % size pool))

-- What the scan has found so far: the slot of the best poller, its load, and `pos`.
pub record Best : Type 0 where
  pub index : ℕ
  pub min_load : ℕ
  pub pos : ℕ

module _ (load : ℕ → ℕ → ℕ) (count : ℕ) where
  -- One round of the loop, with the reading number `i + 1`.
  abbrev pub look : ℕ → Best → Best
  look i b =
      let idx = u32 (b.pos + i) % count in
      if ltb (load (i + 1) idx) b.min_load
      then record { index = idx; min_load = load (i + 1) idx; pos = idx }
      else b

  -- The loop from round `i` on, with the rounds that are left.
  pub scan : ℕ → ℕ → Best → Best
  scan zero i b = b
  scan (suc rounds) i b =
      let b' = look i b in
      let more = scan rounds (i + 1) b' in if b'.min_load == 0 then b' else more

  abbrev pub start_at : ℕ → Best
  start_at pos = record { index = pos; min_load = load 0 pos; pos = pos }

  pub choose : ℕ → Best
  choose thread_pos = scan count 0 (start_at (if leb count thread_pos then 0 else thread_pos))

abbrev pub chosen : Pool → Best → Option ℕ × Pool
chosen pool b =
    (get_elem? pool.pollers b.index, record pool { thread_pos = u32 (b.pos + 1) % size pool })

abbrev pub found_or : Option ℕ → Pool → Option ℕ × Pool → Option ℕ × Pool
found_or none pool other = other
found_or (some p) pool other = (some p, pool)

-- The poller, and the pool with its new position. `is_current` is `ztk_poller_is_current_thread`
-- in the calling thread.
pub get : (ℕ → ℕ → ℕ) → (ℕ → Bool) → Pool → Bool → Option ℕ × Pool
get load is_current pool prefer_current =
    let least = chosen pool (choose load (size pool) pool.thread_pos) in
    if size pool == 0
    then (none, pool)
    else if prefer_current && pool.prefer_current
    then found_or (find_current_poller is_current pool.pollers) pool least
    else least

pub set_prefer_current_thread : Pool → Bool → Pool
set_prefer_current_thread pool on = record pool { prefer_current = on }

-- `ztk_tcp_pick_poller_from_pool` on a pool that is not NULL.
pub pick_poller : (ℕ → ℕ → ℕ) → (ℕ → Bool) → Pool → Option ℕ × Pool
pick_poller load is_current pool = get load is_current pool false

-- `ztk_tcp_pick_poller_by_key` on a pool that is not NULL.
pub pick_poller_by_key : Pool → ℕ → Option ℕ
unfolding get_by_key
pick_poller_by_key pool key = get_by_key pool key

-- The readings of the slots from `i` on.
pub loads_from : (ℕ → ℕ → ℕ) → ℕ → ℕ → List ℕ
loads_from load i zero = []
loads_from load i (suc n) = load i i ∷ loads_from load (i + 1) n

-- The loads that are written; their number is what the function returns.
pub get_loads : (ℕ → ℕ → ℕ) → Pool → ℕ → List ℕ
unfolding loads_from
get_loads load pool loads_cap =
    loads_from load 0 (if ltb (size pool) loads_cap then size pool else loads_cap)
