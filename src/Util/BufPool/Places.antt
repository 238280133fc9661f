-- ===== src/Util/BufPool/Places.antt =====
-- src/util/buf.c: from where an acquire takes its block and where a release puts one.
use zero_tool_kit.Prelude.{
  ℕ, ◌+◌, ◌-◌, ◌≤◌, ◌<◌, ◌≡◌, ◌⊎◌, inl, inr, refl, ap, true, false, ◌&&◌, ◌||◌, length, ◌==◌,
  Option, none, some, List, [], ◌∷◌, get_or, set, arith, Bool-cases, Option-cases,
}
use zero_tool_kit.Util.BufPool.{
  BufPool, Env, Released, Acquired, k_bucket_caps, bucket_count, acquire, acquire_at,
}
use zero_tool_kit.Util.BufPool.Buckets.{bucket_index_for_size_smallest}
use zero_tool_kit.Util.BufPool.Validity.{IsValid}

-- The smallest bucket that is large enough for a size.
abbrev pub Smallest : ℕ → ℕ → Type 0
Smallest size bi =
    (bi < bucket_count)
    × (size ≤ get_or k_bucket_caps bi 0)
    × ((bi ≡ 0) ⊎ (get_or k_bucket_caps (bi - 1) 0 < size))

-- The capacity is reported with a block only.
abbrev pub reported : ℕ → Option ℕ → Option ℕ
reported capacity none = none
reported capacity (some ptr) = some capacity

-- How an acquire got its pointer, for a given malloc: the first block of the freelist of the
-- smallest bucket that is large enough, which is taken off that list; if that list is empty, a
-- block of the bucket's capacity from malloc; for a size above the largest bucket's, a block of just
-- that size from malloc; or not at all, for the size 0.
pub data Source (malloc : ℕ → Option ℕ) (pool : BufPool) (size : ℕ) (out : Acquired) : Type 0 where
  from_list :
      (bi ptr : ℕ) (rest : List ℕ)
      → 0 < size
      → Smallest size bi
      → get_or pool.free_heads bi [] ≡ ptr ∷ rest
      → (out.1 ≡ some ptr) × (out.2 ≡ some (get_or k_bucket_caps bi 0))
      → out.0.free_heads ≡ set pool.free_heads bi rest
      → out.0.counts ≡ set pool.counts bi (get_or pool.counts bi 0 - 1)
      → Source malloc pool size out
  from_malloc :
      (bi : ℕ)
      → 0 < size
      → Smallest size bi
      → get_or pool.free_heads bi [] ≡ []
      → (let got = malloc (get_or k_bucket_caps bi 0) in
          (out.1 ≡ got) × (out.2 ≡ reported (get_or k_bucket_caps bi 0) got))
      → (out.0.free_heads ≡ pool.free_heads) × (out.0.counts ≡ pool.counts)
      → Source malloc pool size out
  too_large :
      2097152 < size
      → (out.1 ≡ malloc size) × (out.2 ≡ some size)
      → (out.0.free_heads ≡ pool.free_heads) × (out.0.counts ≡ pool.counts)
      → Source malloc pool size out
  no_size : size ≡ 0 → out ≡ (pool, none, none) → Source malloc pool size out

acquire_at-Source :
    (malloc : ℕ → Option ℕ) (pool : BufPool) (size bi : ℕ) (l : List ℕ)
    → 0 < size
    → Smallest size bi
    → get_or pool.free_heads bi [] ≡ l
    → IsValid pool
    → Source malloc pool size (acquire_at malloc pool bi (get_or k_bucket_caps bi 0) l)
acquire_at-Source malloc pool size bi [] pos fits e v =
    elim (Option-cases (malloc (get_or k_bucket_caps bi 0))) [
      | inl failed ↦
          rw failed (Source.from_malloc bi pos fits e (rw failed (refl, refl)) (refl, refl))
      | inr (ptr, got) ↦
          rw got (Source.from_malloc bi pos fits e (rw got (refl, refl)) (refl, refl))
    ]
acquire_at-Source malloc pool size bi (ptr ∷ rest) pos fits e v =
    let held = ap (length {A = ℕ}) e in
    Source.from_list bi ptr rest pos fits e (refl, refl) refl
      (ap (set pool.counts bi) (omega (arith, held, v.counted bi, v.limited bi, v.small)))

-- An acquire takes the first block of the freelist of the smallest bucket that is large enough, and
-- asks malloc, for a block of that bucket's capacity, only if that list is empty, or, for just the
-- size that is wanted, if that is above 2097152; nothing else on the freelists and in the counts
-- changes. It reports the capacity of what it hands out, and takes nothing for the size 0.
pub acquire-Source :
    (malloc : ℕ → Option ℕ) (pool : BufPool) (size : ℕ)
    → IsValid pool
    → Source malloc pool size (acquire malloc pool size)
unfolding acquire
acquire-Source malloc pool size v = elim (Bool-cases (size == 0)) [
  | inl empty ↦ rw empty (Source.no_size (ground arith) refl)
  | inr positive ↦ elim (bucket_index_for_size_smallest size) [
    | inl (bi, room, e, range, table, fits, least) ↦
        rw (positive, e, table)
          (acquire_at-Source malloc pool size bi (get_or pool.free_heads bi []) (ground arith)
            (range, omega (arith, fits, table), least) refl v)
    | inr (e, large) ↦ rw (positive, e) (Source.too_large large (refl, refl) (refl, refl))
  ]
]

-- The caller is another thread than that of the owner, and the pool is not safe for it.
abbrev pub Elsewhere : Env → BufPool → Type 0
Elsewhere env pool =
    (owner : ℕ) × (pool.owner ≡ some owner)
    × (pool.thread_safe ≡ false)
    × (env.is_current_thread owner ≡ false)

abbrev pub Here : Env → BufPool → Type 0
Here env pool =
    (owner : ℕ) → pool.owner ≡ some owner → (pool.thread_safe || env.is_current_thread owner) ≡ true

-- Where a release put a block of the given capacity: on the head of the freelist of the bucket of
-- just that capacity, which has room; to free(), if there is no such bucket with room; to the
-- owner's task queue, if the caller is elsewhere; or to free(), if the task is refused.
pub data Placed (env : Env) (pool : BufPool) (ptr size : ℕ) (r : Released) : Type 0 where
  listed :
      (bi : ℕ)
      → Here env pool
      → (bi < bucket_count) × (get_or k_bucket_caps bi 0 ≡ size)
      → get_or pool.counts bi 0 < pool.max_per_bucket
      → r.pool.free_heads ≡ set pool.free_heads bi (ptr ∷ get_or pool.free_heads bi [])
      → r.pool.counts ≡ set pool.counts bi (get_or pool.counts bi 0 + 1)
      → (r.freed ≡ []) × (r.posted ≡ [])
      → Placed env pool ptr size r
  given_up :
      Here env pool
      → ((bi : ℕ)
          → bi < bucket_count
          → get_or k_bucket_caps bi 0 ≡ size
          → pool.max_per_bucket ≤ get_or pool.counts bi 0)
      → (r.pool.free_heads ≡ pool.free_heads) × (r.pool.counts ≡ pool.counts)
      → (r.freed ≡ ptr ∷ []) × (r.posted ≡ [])
      → Placed env pool ptr size r
  handed_over :
      Elsewhere env pool
      → (env.defer_ok && env.async_ok) ≡ true
      → r ≡ record { pool = pool; freed = []; posted = record { ptr = ptr; cap = size } ∷ [] }
      → Placed env pool ptr size r
  not_taken :
      Elsewhere env pool
      → (env.defer_ok && env.async_ok) ≡ false
      → r ≡ record { pool = pool; freed = ptr ∷ []; posted = [] }
      → Placed env pool ptr size r
