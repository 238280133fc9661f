-- ===== src/Util/BufPool.antt =====
-- src/util/buf.c, the second half: `ztk_buf_pool`, nine freelists of memory blocks by capacity.
-- A block is its address. The intrusive list under `free_heads[i]` is the list of its blocks, the
-- head first. An operation returns the new pool beside what it hands to free() and to the owner
-- poller's task queue. What malloc answers for a size is the parameter `malloc`.
pub mod Buckets
pub mod Blocks
pub mod Places
pub mod Validity
pub mod Capacity
mod Tests
use zero_tool_kit.Prelude.{
  ℕ, ◌+◌, ◌-◌, ◌^◌, Bool, true, false, ◌&&◌, ◌||◌, not, Option, none, some, List, [], ◌∷◌, ◌++◌,
  set, get_or, take, replicate, ltb, leb, ◌==◌, if◌then◌else◌, u32, u64,
}

-- `ztk_buf_pool_stats`
pub record Stats : Type 0 where
  pub acquire_hit : ℕ
  pub acquire_miss : ℕ
  pub acquire_oversize : ℕ
  pub release_cached : ℕ
  pub release_dropped : ℕ

abbrev pub no_stats : Stats
no_stats = record {
  acquire_hit = 0;
  acquire_miss = 0;
  acquire_oversize = 0;
  release_cached = 0;
  release_dropped = 0;
}

-- `struct ztk_buf_pool`; `owner` is the address of a poller, `none` for NULL. The mutex exists
-- exactly if `thread_safe`, and makes each operation below atomic.
pub record BufPool : Type 0 where
  pub max_per_bucket : ℕ
  pub thread_safe : Bool
  pub free_heads : List (List ℕ)
  pub counts : List ℕ
  pub stats : Stats
  pub owner : Option ℕ

abbrev pub bucket_count : ℕ
bucket_count = 9

abbrev pub k_bucket_caps : List ℕ
k_bucket_caps = 512 ∷ 2048 ∷ 8192 ∷ 32768 ∷ 65536 ∷ 131072 ∷ 524288 ∷ 1048576 ∷ 2097152 ∷ []

abbrev pub default_max : ℕ
default_max = 128

-- The loop from index `i` on: the first bucket that is large enough, with its capacity.
pub index_for_size : ℕ → ℕ → List ℕ → Option (ℕ × ℕ)
index_for_size size i [] = none
index_for_size size i (cap ∷ caps) =
    let rest = index_for_size size (i + 1) caps in if leb size cap then some (i, cap) else rest

pub bucket_index_for_size : ℕ → Option (ℕ × ℕ)
unfolding index_for_size
bucket_index_for_size size = index_for_size size 0 k_bucket_caps

pub index_exact_cap : ℕ → ℕ → List ℕ → Option ℕ
index_exact_cap wanted i [] = none
index_exact_cap wanted i (cap ∷ caps) =
    let rest = index_exact_cap wanted (i + 1) caps in if wanted == cap then some i else rest

pub bucket_index_exact_cap : ℕ → Option ℕ
unfolding index_exact_cap
bucket_index_exact_cap cap = index_exact_cap cap 0 k_bucket_caps

-- `ztk_buf_pool_opts`
pub record Opts : Type 0 where
  pub max_per_bucket : ℕ
  pub thread_safe : Bool

abbrev pub max_of : Option Opts → ℕ
max_of none = default_max
max_of (some o) = if ltb 0 o.max_per_bucket then o.max_per_bucket else default_max

abbrev pub safe_of : Option Opts → Bool
safe_of none = true
safe_of (some o) = o.thread_safe

abbrev pub fresh_pool : Option Opts → BufPool
fresh_pool opts = record {
  max_per_bucket = max_of opts;
  thread_safe = safe_of opts;
  free_heads = replicate bucket_count [];
  counts = replicate bucket_count 0;
  stats = no_stats;
  owner = none;
}

-- `calloc_ok` and `mutex_ok` say whether the two allocations succeed.
pub create : Bool → Bool → Option Opts → Option BufPool
create calloc_ok mutex_ok opts =
    if not calloc_ok
    then none
    else if safe_of opts && not mutex_ok
    then none
    else some (fresh_pool opts)

pub set_owner_poller : BufPool → Option ℕ → BufPool
set_owner_poller pool owner = record pool { owner = owner }

abbrev pub dropped : BufPool → BufPool
dropped pool =
    let s = pool.stats in
    record pool { stats = record s { release_dropped = u64 (s.release_dropped + 1) } }

abbrev pub cached : BufPool → ℕ → ℕ → BufPool
cached pool bi ptr =
    let s = pool.stats in
    record pool {
      free_heads = set pool.free_heads bi (ptr ∷ get_or pool.free_heads bi []);
      counts = set pool.counts bi (u32 (get_or pool.counts bi 0 + 1));
      stats = record s { release_cached = u64 (s.release_cached + 1) };
    }

-- The new pool, and the blocks that are handed to free().
abbrev pub release_at : BufPool → ℕ → Option ℕ → BufPool × List ℕ
release_at pool ptr none = (dropped pool, ptr ∷ [])
release_at pool ptr (some bi) =
    if ltb (get_or pool.counts bi 0) pool.max_per_bucket
    then (cached pool bi ptr, [])
    else (dropped pool, ptr ∷ [])

pub pool_release_now : BufPool → ℕ → ℕ → BufPool × List ℕ
pool_release_now pool ptr cap = release_at pool ptr (bucket_index_exact_cap cap)

abbrev pub oversize : BufPool → BufPool
oversize pool =
    let s = pool.stats in
    record pool { stats = record s { acquire_oversize = u64 (s.acquire_oversize + 1) } }

abbrev pub missed : BufPool → BufPool
missed pool =
    let s = pool.stats in
    record pool { stats = record s { acquire_miss = u64 (s.acquire_miss + 1) } }

abbrev pub hit : BufPool → ℕ → List ℕ → BufPool
hit pool bi rest =
    let s = pool.stats in
    record pool {
      free_heads = set pool.free_heads bi rest;
      counts = set pool.counts bi (u32 (get_or pool.counts bi 0 + 2 ^ 32 - 1));
      stats = record s { acquire_hit = u64 (s.acquire_hit + 1) };
    }

-- What an acquire returns: the pool, the pointer, and `*out_cap` where it is written.
abbrev pub Acquired : Type 0
Acquired = BufPool × Option ℕ × Option ℕ

abbrev pub acquire_miss_at : BufPool → ℕ → Option ℕ → Acquired
acquire_miss_at pool cap none = (missed pool, none, none)
acquire_miss_at pool cap (some ptr) = (missed pool, some ptr, some cap)

abbrev pub acquire_at : (ℕ → Option ℕ) → BufPool → ℕ → ℕ → List ℕ → Acquired
acquire_at malloc pool bi cap [] = acquire_miss_at pool cap (malloc cap)
acquire_at malloc pool bi cap (ptr ∷ rest) = (hit pool bi rest, some ptr, some cap)

abbrev pub acquire_sized : (ℕ → Option ℕ) → BufPool → ℕ → Option (ℕ × ℕ) → Acquired
acquire_sized malloc pool size none = (oversize pool, malloc size, some size)
acquire_sized malloc pool size (some (bi, cap)) =
    acquire_at malloc pool bi cap (get_or pool.free_heads bi [])

pub acquire : (ℕ → Option ℕ) → BufPool → ℕ → Acquired
acquire malloc pool size =
    if size == 0
    then (pool, none, none)
    else acquire_sized malloc pool size (bucket_index_for_size size)

-- `ztk_buf_pool_defer`, less the pool, which is the receiver
pub record Defer : Type 0 where
  pub ptr : ℕ
  pub cap : ℕ

pub record Released : Type 0 where
  pub pool : BufPool
  pub freed : List ℕ
  pub posted : List Defer

-- What the environment answers in `release`: whether the calling thread is that poller's, whether
-- the context is allocated, and whether `ztk_poller_async` accepts the task.
pub record Env : Type 0 where
  pub is_current_thread : ℕ → Bool
  pub defer_ok : Bool
  pub async_ok : Bool

abbrev pub release_here : BufPool → ℕ → ℕ → Released
release_here pool ptr cap =
    let (pool', freed) = pool_release_now pool ptr cap in
    record { pool = pool'; freed = freed; posted = [] }

abbrev pub release_from : Env → BufPool → ℕ → ℕ → Option ℕ → Released
release_from env pool ptr cap none = release_here pool ptr cap
release_from env pool ptr cap (some owner) =
    if not pool.thread_safe && not (env.is_current_thread owner)
    then if env.defer_ok && env.async_ok
      then record { pool = pool; freed = []; posted = record { ptr = ptr; cap = cap } ∷ [] }
      else record { pool = pool; freed = ptr ∷ []; posted = [] }
    else release_here pool ptr cap

pub release : Env → BufPool → ℕ → ℕ → Released
release env pool ptr cap = release_from env pool ptr cap pool.owner

-- The task on the owner's thread.
pub pool_release_deferred : BufPool → Defer → BufPool × List ℕ
pool_release_deferred pool d = pool_release_now pool d.ptr d.cap

-- The blocks that `destroy` hands to free(), bucket by bucket.
pub destroy_lists : List (List ℕ) → List ℕ
destroy_lists [] = []
destroy_lists (blocks ∷ lists) = blocks ++ destroy_lists lists

pub destroy : BufPool → List ℕ
unfolding destroy_lists
destroy pool = destroy_lists pool.free_heads

pub get_stats : Option BufPool → Stats
get_stats none = no_stats
get_stats (some pool) = pool.stats

pub reset_stats : BufPool → BufPool
reset_stats pool = record pool { stats = no_stats }

-- The counts that are written; their number is what the function returns.
pub bucket_counts : BufPool → ℕ → List ℕ
bucket_counts pool max_buckets =
    take (if ltb max_buckets bucket_count then max_buckets else bucket_count) pool.counts
