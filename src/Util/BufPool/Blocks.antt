-- ===== src/Util/BufPool/Blocks.antt =====
-- src/util/buf.c: where the blocks of a pool are, and how its counters account for them.
use zero_tool_kit.Prelude.{
  ℕ, zero, suc, ◌+◌, ◌-◌, ◌^◌, ◌<◌, ◌≡◌, ◌≢◌, not, ◌&&◌, Option, none, some, List, [], ◌∷◌, get_or,
  set, length, arith, refl, Bool-cases, ◌==◌, inl, inr, count, count-append, get_or-set_self,
  set-set, set-get_or, ==_ne, lt→ltb, u32, u64, if◌then◌else◌, ◌∙◌, ap,
}
use zero_tool_kit.Util.BufPool.{
  BufPool, Stats, Env, Defer, bucket_index_for_size, bucket_index_exact_cap, bucket_count, acquire,
  pool_release_now, release, release_at, release_from, acquire_at, acquire_miss_at, acquire_sized,
  missed, cached, destroy, destroy_lists,
}
use zero_tool_kit.Util.BufPool.Buckets.{exact_cap-of_size, exact_cap_range}
use zero_tool_kit.Util.BufPool.Validity.{IsValid}

-- How often the block `x` stands in the freelists.
abbrev pub idle : ℕ → BufPool → ℕ
idle x pool = count x (destroy pool)

-- How often `x` stands among the blocks that were posted to the owner.
abbrev pub posted_count : ℕ → List Defer → ℕ
posted_count x [] = 0
posted_count x (d ∷ ds) = (if d.ptr == x then 1 else 0) + posted_count x ds

lists-set :
    (x : ℕ) (lists : List (List ℕ)) (i : ℕ) (l : List ℕ)
    → i < length lists
    → count x (destroy_lists (set lists i l)) + count x (get_or lists i [])
      ≡ count x (destroy_lists lists) + count x l
unfolding destroy_lists
lists-set x [] i l h = absurd (omega arith)
lists-set x (m ∷ lists) zero l h =
    omega (arith, count-append x l (destroy_lists lists), count-append x m (destroy_lists lists))
lists-set x (m ∷ lists) (suc i) l h = omega (
  arith,
  lists-set x lists i l (omega arith),
  count-append x m (destroy_lists (set lists i l)),
  count-append x m (destroy_lists lists),
)

release_at-count :
    (pool : BufPool) (ptr x : ℕ) (b : Option ℕ)
    → ((bi : ℕ) → b ≡ some bi → bi < bucket_count)
    → IsValid pool
    → idle x (release_at pool ptr b).0 + count x (release_at pool ptr b).1
      ≡ idle x pool + (if ptr == x then 1 else 0)
unfolding destroy
release_at-count pool ptr x none range v = ground arith
release_at-count pool ptr x (some bi) range v = ground (
  arith,
  v.lists,
  range bi refl,
  lists-set x pool.free_heads bi (ptr ∷ get_or pool.free_heads bi []),
)

release_from-count :
    (env : Env) (pool : BufPool) (ptr cap x : ℕ) (owner : Option ℕ)
    → IsValid pool
    → idle x (release_from env pool ptr cap owner).pool
        + count x (release_from env pool ptr cap owner).freed
        + posted_count x (release_from env pool ptr cap owner).posted
      ≡ idle x pool + (if ptr == x then 1 else 0)
unfolding pool_release_now
release_from-count env pool ptr cap x none v =
    omega (arith, release_at-count pool ptr x (bucket_index_exact_cap cap) (exact_cap_range cap) v)
release_from-count env pool ptr cap x (some owner) v =
    elim (Bool-cases (not pool.thread_safe && not (env.is_current_thread owner))) [
      | inr here ↦ rw here (
          omega (
            arith,
            release_at-count pool ptr x (bucket_index_exact_cap cap) (exact_cap_range cap) v,
          ))
      | inl there ↦ rw there (elim (Bool-cases (env.defer_ok && env.async_ok)) [
        | inl sent ↦ rw sent (omega arith)
        | inr refused ↦ rw refused (omega arith)
      ])
    ]

-- What is idle, freed and posted after a release is what was idle before and the released block.
pub release-count :
    (env : Env) (pool : BufPool) (ptr cap x : ℕ)
    → IsValid pool
    → idle x (release env pool ptr cap).pool
        + count x (release env pool ptr cap).freed
        + posted_count x (release env pool ptr cap).posted
      ≡ idle x pool + (if ptr == x then 1 else 0)
unfolding release
release-count env pool ptr cap x v = release_from-count env pool ptr cap x pool.owner v

hit-cached :
    (malloc : ℕ → Option ℕ) (pool : BufPool) (ptr bi cap : ℕ)
    → IsValid pool
    → bi < bucket_count
    → get_or pool.counts bi 0 < pool.max_per_bucket
    → let (pool', ptr', cap') =
        acquire_at malloc
          (cached pool bi ptr)
          bi
          cap
          (get_or (cached pool bi ptr).free_heads bi []) in
      (ptr' ≡ some ptr)
      × (cap' ≡ some cap)
      × (pool'.free_heads ≡ pool.free_heads)
      × (pool'.counts ≡ pool.counts)
hit-cached malloc pool ptr bi cap v range room =
    rw
      (get_or-set_self pool.free_heads bi (ptr ∷ get_or pool.free_heads bi []) []
        (omega (arith, v.lists)))
      (
        refl,
        refl,
        set-set pool.free_heads bi _ _ ∙ set-get_or pool.free_heads bi [],
        set-set pool.counts bi _ _ ∙ ap (set pool.counts bi) same ∙ set-get_or pool.counts bi 0,
      )
  where
    n : ℕ
    n = get_or pool.counts bi 0

    same : u32 (get_or (set pool.counts bi (u32 (n + 1))) bi 0 + 2 ^ 32 - 1) ≡ n
    same =
        rw (get_or-set_self pool.counts bi (u32 (n + 1)) 0 (omega (arith, v.numbers)))
          (omega (arith, v.small))

-- A block that goes back to a bucket with room is the next one that an acquire of that bucket
-- hands out, with the bucket's capacity; malloc is not asked, and freelists and counts are again
-- as they were.
pub acquire-pool_release_now :
    (malloc : ℕ → Option ℕ) (pool : BufPool) (ptr size bi cap : ℕ)
    → IsValid pool
    → size ≢ 0
    → bucket_index_for_size size ≡ some (bi, cap)
    → get_or pool.counts bi 0 < pool.max_per_bucket
    → let (pool', ptr', cap') = acquire malloc (pool_release_now pool ptr cap).0 size in
      (ptr' ≡ some ptr)
      × (cap' ≡ some cap)
      × (pool'.free_heads ≡ pool.free_heads)
      × (pool'.counts ≡ pool.counts)
unfolding acquire pool_release_now
acquire-pool_release_now malloc pool ptr size bi cap v positive e room =
    rw
      (
        ==_ne size 0 positive,
        e,
        (exact_cap-of_size size bi cap e).0,
        lt→ltb (get_or pool.counts bi 0) pool.max_per_bucket room,
      )
      (hit-cached malloc pool ptr bi cap v (exact_cap-of_size size bi cap e).1 room)

-- Every acquire of some bytes is counted exactly once, as a hit, a miss or an oversize, and every
-- release that runs now once, as cached or dropped (the counters are uint64_t and wrap).
pub stats_account :
    (malloc : ℕ → Option ℕ) (pool : BufPool) (size ptr cap : ℕ)
    → size ≢ 0
    → let a = (acquire malloc pool size).0.stats in
      let r = (pool_release_now pool ptr cap).0.stats in
      let s = pool.stats in
      (u64 (a.acquire_hit + a.acquire_miss + a.acquire_oversize)
        ≡ u64 (s.acquire_hit + s.acquire_miss + s.acquire_oversize + 1))
      × (a.release_cached + a.release_dropped ≡ s.release_cached + s.release_dropped)
      × (u64 (r.release_cached + r.release_dropped)
          ≡ u64 (s.release_cached + s.release_dropped + 1))
unfolding acquire pool_release_now
stats_account malloc pool size ptr cap positive =
    rw (==_ne size 0 positive)
      (ground (arith, sized (bucket_index_for_size size), released (bucket_index_exact_cap cap)))
  where
    s : Stats
    s = pool.stats

    missed_once : (n : ℕ) (o : Option ℕ) → (acquire_miss_at pool n o).0 ≡ missed pool
    missed_once n none = refl
    missed_once n (some _) = refl

    sized :
        (b : Option (ℕ × ℕ))
        → let a = (acquire_sized malloc pool size b).0.stats in
          (u64 (a.acquire_hit + a.acquire_miss + a.acquire_oversize)
            ≡ u64 (s.acquire_hit + s.acquire_miss + s.acquire_oversize + 1))
          × (a.release_cached + a.release_dropped ≡ s.release_cached + s.release_dropped)
    sized none = omega arith
    sized (some (bi, n)) = at (get_or pool.free_heads bi [])
      where
        at :
            (l : List ℕ)
            → let a = (acquire_at malloc pool bi n l).0.stats in
              (u64 (a.acquire_hit + a.acquire_miss + a.acquire_oversize)
                ≡ u64 (s.acquire_hit + s.acquire_miss + s.acquire_oversize + 1))
              × (a.release_cached + a.release_dropped ≡ s.release_cached + s.release_dropped)
        at [] = rw (missed_once n (malloc n)) (omega arith)
        at (ptr' ∷ rest) = omega arith

    released :
        (b : Option ℕ)
        → let r = (release_at pool ptr b).0.stats in
          u64 (r.release_cached + r.release_dropped)
          ≡ u64 (s.release_cached + s.release_dropped + 1)
    released none = omega arith
    released (some bi) = ground arith
