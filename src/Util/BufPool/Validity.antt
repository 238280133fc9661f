-- ===== src/Util/BufPool/Validity.antt =====
-- src/util/buf.c: the representation invariant of a pool.
use zero_tool_kit.Prelude.{
  ℕ, zero, suc, ◌+◌, ◌-◌, ◌^◌, ◌≤◌, ◌<◌, ◌≡◌, ◌≢◌, not, ◌&&◌, ap, replicate, get_or-replicate, Bool,
  Option, none, some, List, [], ◌∷◌, get_or, set, length, arith, refl, Bool-cases, ◌==◌, inl, inr,
  ◌∙◌, length-set, get_or-set_self, get_or-set_ne, ltb, u32, ==_iff,
}
use zero_tool_kit.Util.BufPool.{
  BufPool, Opts, Env, bucket_index_for_size, bucket_index_exact_cap, bucket_count, create, acquire,
  pool_release_now, release, release_at, release_from, acquire_at, acquire_miss_at, acquire_sized,
  max_of, fresh_pool,
}
use zero_tool_kit.Util.BufPool.Buckets.{exact_cap-of_size, exact_cap_range}

-- There are nine freelists and nine counts, each count is the length of its list, and no list is
-- longer than the limit, which fits in an `unsigned`.
pub record IsValid (pool : BufPool) : Type 0 where
  pub lists : length pool.free_heads ≡ bucket_count
  pub numbers : length pool.counts ≡ bucket_count
  pub counted : (i : ℕ) → get_or pool.counts i 0 ≡ length (get_or pool.free_heads i [])
  pub limited : (i : ℕ) → get_or pool.counts i 0 ≤ pool.max_per_bucket
  pub small : pool.max_per_bucket < 2 ^ 32

get_or_past {ℓ} : {A : Type ℓ} (xs : List A) (i : ℕ) (d : A) → length xs ≤ i → get_or xs i d ≡ d
get_or_past [] i d h = refl
get_or_past (x ∷ xs) zero d h = absurd (omega arith)
get_or_past (x ∷ xs) (suc i) d h = get_or_past xs i d (omega arith)

-- Replacing one freelist together with its count.
set_both :
    (counts : List ℕ) (lists : List (List ℕ)) (bi n i : ℕ) (l : List ℕ)
    → bi < length counts
    → bi < length lists
    → n ≡ length l
    → ((j : ℕ) → get_or counts j 0 ≡ length (get_or lists j []))
    → get_or (set counts bi n) i 0 ≡ length (get_or (set lists bi l) i [])
set_both counts lists bi n i l hc hl e h = elim (Bool-cases (bi == i)) [
  | inl same ↦
      let e' : bi ≡ i = (==_iff bi i).0 same in
      rw (← e') (rw (get_or-set_self counts bi n 0 hc, get_or-set_self lists bi l [] hl) e)
  | inr other ↦
      let ne : bi ≢ i = ground arith in
      rw (get_or-set_ne counts bi i n 0 ne, get_or-set_ne lists bi i l [] ne) (h i)
]

set_limit :
    (counts : List ℕ) (bi n i limit : ℕ)
    → n ≤ limit
    → ((j : ℕ) → get_or counts j 0 ≤ limit)
    → get_or (set counts bi n) i 0 ≤ limit
set_limit [] bi n i limit e h = omega arith
set_limit (x ∷ xs) zero n zero limit e h = e
set_limit (x ∷ xs) zero n (suc i) limit e h = h (suc i)
set_limit (x ∷ xs) (suc bi) n zero limit e h = h 0
set_limit (x ∷ xs) (suc bi) n (suc i) limit e h = set_limit xs bi n i limit e (λ j. h (suc j))

-- A freelist and its count, replaced together by a list within the limit.
replaced-IsValid :
    (pool : BufPool) (bi n : ℕ) (l : List ℕ)
    → IsValid pool
    → bi < bucket_count
    → n ≡ length l
    → n ≤ pool.max_per_bucket
    → IsValid (record pool { free_heads = set pool.free_heads bi l; counts = set pool.counts bi n })
replaced-IsValid pool bi n l v small e le = record {
  lists = length-set pool.free_heads bi l ∙ v.lists;
  numbers = length-set pool.counts bi n ∙ v.numbers;
  counted =
      λ i. set_both pool.counts pool.free_heads bi n i l (omega arith) (omega arith) e v.counted;
  limited = λ i. set_limit pool.counts bi n i pool.max_per_bucket le v.limited;
  small = v.small;
}

-- Validity does not depend on the statistics or the owner.
IsValid-same :
    {pool q : BufPool}
    → IsValid pool
    → q.free_heads ≡ pool.free_heads
    → q.counts ≡ pool.counts
    → q.max_per_bucket ≡ pool.max_per_bucket
    → IsValid q
IsValid-same {pool} {q} v a b c = record {
  lists = rw a v.lists;
  numbers = rw b v.numbers;
  counted = λ i. rw (a, b) (v.counted i);
  limited = λ i. rw (b, c) (v.limited i);
  small = rw c v.small;
}

release_at-IsValid :
    (pool : BufPool) (ptr : ℕ) (b : Option ℕ)
    → ((bi : ℕ) → b ≡ some bi → bi < bucket_count)
    → IsValid pool
    → IsValid (release_at pool ptr b).0
release_at-IsValid pool ptr none range v = IsValid-same v refl refl refl
release_at-IsValid pool ptr (some bi) range v =
    elim (Bool-cases (ltb (get_or pool.counts bi 0) pool.max_per_bucket)) [
      | inl room ↦ rw room (
          IsValid-same
            (replaced-IsValid pool bi (u32 (get_or pool.counts bi 0 + 1))
              (ptr ∷ get_or pool.free_heads bi []) v (range bi refl)
              (ground (arith, v.counted bi, v.small)) (ground (arith, v.small)))
            refl refl refl)
      | inr full ↦ rw full (IsValid-same v refl refl refl)
    ]

-- A block that is released now leaves the pool valid, whether it is cached or freed.
pub pool_release_now-IsValid :
    (pool : BufPool) (ptr cap : ℕ) → IsValid pool → IsValid (pool_release_now pool ptr cap).0
unfolding pool_release_now
pool_release_now-IsValid pool ptr cap v =
    release_at-IsValid pool ptr (bucket_index_exact_cap cap) (λ bi e. exact_cap_range cap bi e) v

release_from-IsValid :
    (env : Env) (pool : BufPool) (ptr cap : ℕ) (owner : Option ℕ)
    → IsValid pool
    → IsValid (release_from env pool ptr cap owner).pool
release_from-IsValid env pool ptr cap none v = pool_release_now-IsValid pool ptr cap v
release_from-IsValid env pool ptr cap (some owner) v =
    elim (Bool-cases (not pool.thread_safe && not (env.is_current_thread owner))) [
      | inr here ↦ rw here (pool_release_now-IsValid pool ptr cap v)
      | inl there ↦ rw there (elim (Bool-cases (env.defer_ok && env.async_ok)) [
        | inl yes_posted ↦ rw yes_posted v
        | inr no_post ↦ rw no_post v
      ])
    ]

acquire_at-IsValid :
    (malloc : ℕ → Option ℕ) (pool : BufPool) (bi cap : ℕ) (l : List ℕ)
    → bi < bucket_count
    → get_or pool.free_heads bi [] ≡ l
    → IsValid pool
    → IsValid (acquire_at malloc pool bi cap l).0
acquire_at-IsValid malloc pool bi cap [] range e v = miss (malloc cap)
  where
    miss : (o : Option ℕ) → IsValid (acquire_miss_at pool cap o).0
    miss none = IsValid-same v refl refl refl
    miss (some ptr) = IsValid-same v refl refl refl
acquire_at-IsValid malloc pool bi cap (ptr ∷ rest) range e v =
    IsValid-same
      (replaced-IsValid pool bi (u32 (get_or pool.counts bi 0 + 2 ^ 32 - 1)) rest v range
        (omega (arith, v.counted bi, v.limited bi, v.small, ap (length {A = ℕ}) e))
        (omega (arith, v.counted bi, v.limited bi, v.small, ap (length {A = ℕ}) e)))
      refl refl refl

acquire_sized-IsValid :
    (malloc : ℕ → Option ℕ) (pool : BufPool) (size : ℕ) (b : Option (ℕ × ℕ))
    → ((bi cap : ℕ) → b ≡ some (bi, cap) → bi < bucket_count)
    → IsValid pool
    → IsValid (acquire_sized malloc pool size b).0
acquire_sized-IsValid malloc pool size none range v = IsValid-same v refl refl refl
acquire_sized-IsValid malloc pool size (some (bi, cap)) range v =
    acquire_at-IsValid malloc pool bi cap (get_or pool.free_heads bi []) (range bi cap refl) refl v

-- `acquire` keeps a pool valid on every path: no size, a size above the table, a freelist that has
-- a block and one that is empty, with malloc succeeding or not.
pub acquire-IsValid :
    (malloc : ℕ → Option ℕ) (pool : BufPool) (size : ℕ)
    → IsValid pool
    → IsValid (acquire malloc pool size).0
unfolding acquire
acquire-IsValid malloc pool size v = elim (Bool-cases (size == 0)) [
  | inl empty ↦ rw empty v
  | inr some_size ↦ rw some_size (
      acquire_sized-IsValid malloc pool size (bucket_index_for_size size)
        (λ bi cap e. (exact_cap-of_size size bi cap e).1) v)
]

-- `release` keeps a pool valid, on the owner's thread and on any other.
pub release-IsValid :
    (env : Env) (pool : BufPool) (ptr cap : ℕ)
    → IsValid pool
    → IsValid (release env pool ptr cap).pool
unfolding release
release-IsValid env pool ptr cap v = release_from-IsValid env pool ptr cap pool.owner v

-- A pool that `create` returns is valid and has no block.
pub create-IsValid :
    (calloc_ok mutex_ok : Bool) (opts : Option Opts) {pool : BufPool}
    → max_of opts < 2 ^ 32
    → create calloc_ok mutex_ok opts ≡ some pool
    → IsValid pool × (pool.free_heads ≡ replicate bucket_count [])
unfolding create
create-IsValid calloc_ok mutex_ok opts {pool} small h = (valid, ground arith)
  where
    made : pool ≡ fresh_pool opts
    made = ground arith

    valid : IsValid pool
    valid = rw made (record {
      lists = refl;
      numbers = refl;
      counted = λ i. rw (
        get_or-replicate {A = ℕ} bucket_count i 0,
        get_or-replicate {A = List ℕ} bucket_count i [],
      );
      limited = λ i. rw (get_or-replicate {A = ℕ} bucket_count i 0) (omega arith);
      small = small;
    })
