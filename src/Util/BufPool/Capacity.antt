-- ===== src/Util/BufPool/Capacity.antt =====
-- src/util/buf.c: the capacity that an acquire reports.
use zero_tool_kit.Prelude.{
  ℕ, ◌≤◌, ◌≡◌, ◌≢◌, Option, none, some, List, [], ◌∷◌, get_or, ==_ne, arith, refl,
}
use zero_tool_kit.Util.BufPool.{
  BufPool, acquire, bucket_index_for_size, acquire_sized, acquire_at, acquire_miss_at,
}
use zero_tool_kit.Util.BufPool.Buckets.{exact_cap-of_size}

-- The capacity that a successful acquire reports is written and holds the size.
pub acquire-cap :
    (malloc : ℕ → Option ℕ) (pool : BufPool) (size addr : ℕ)
    → size ≢ 0
    → (acquire malloc pool size).1 ≡ some addr
    → (c : ℕ) × ((acquire malloc pool size).2 ≡ some c) × (size ≤ c)
unfolding acquire
acquire-cap malloc pool size addr positive =
    rw (==_ne size 0 positive)
      (go (bucket_index_for_size size) (λ i c e. (exact_cap-of_size size i c e).2))
  where
    miss :
        (cap : ℕ) (o : Option ℕ)
        → size ≤ cap
        → (acquire_miss_at pool cap o).1 ≡ some addr
        → (c : ℕ) × ((acquire_miss_at pool cap o).2 ≡ some c) × (size ≤ c)
    miss cap none fits got = absurd (ground arith)
    miss cap (some a) fits got = (cap, refl, fits)

    at :
        (bi cap : ℕ) (l : List ℕ)
        → size ≤ cap
        → (acquire_at malloc pool bi cap l).1 ≡ some addr
        → (c : ℕ) × ((acquire_at malloc pool bi cap l).2 ≡ some c) × (size ≤ c)
    at bi cap [] fits = miss cap (malloc cap) fits
    at bi cap (ptr ∷ rest) fits = λ got. (cap, refl, fits)

    go :
        (b : Option (ℕ × ℕ))
        → ((i c : ℕ) → b ≡ some (i, c) → size ≤ c)
        → (acquire_sized malloc pool size b).1 ≡ some addr
        → (c : ℕ) × ((acquire_sized malloc pool size b).2 ≡ some c) × (size ≤ c)
    go none fits = λ got. (size, refl, omega arith)
    go (some (bi, cap)) fits = at bi cap (get_or pool.free_heads bi []) (fits bi cap refl)
