-- ===== src/Util/Buf/Alloc.antt =====
-- src/util/buf.c: what an allocation gives.
use zero_tool_kit.Prelude.{
  ℕ, ◌+◌, ◌^◌, ◌≤◌, ◌<◌, ◌≡◌, inl, inr, true, Option, none, some, ◌==◌, u64, arith, refl,
  Bool-cases,
}
use zero_tool_kit.Util.BufPool.{BufPool, Acquired, acquire}
use zero_tool_kit.Util.BufPool.Capacity.{acquire-cap}
use zero_tool_kit.Util.Buf.{
  Buf, alloc, buf_create_from_pool, buf_create_malloc, malloc_buf, pool_buf, create_from,
}

-- A buffer fresh from an allocation of `cap` bytes: one reference, no content, and room.
pub record IsFresh (hdr cap : ℕ) (b : Buf) : Type 0 where
  pub one : b.refcnt ≡ 1
  pub empty : b.len ≡ 0
  pub room : cap ≤ b.cap
  pub inside : b.pooled ≡ true → hdr + b.cap ≡ b.pool_blk_cap

malloc_buf-IsFresh :
    (hdr cap : ℕ) (malloc : ℕ → Option ℕ) {b : Buf}
    → buf_create_malloc hdr malloc cap ≡ some b
    → IsFresh hdr cap b
unfolding buf_create_malloc
malloc_buf-IsFresh hdr cap malloc {b} h = go (malloc (u64 (hdr + cap))) h
  where
    go : (o : Option ℕ) → malloc_buf hdr malloc cap o ≡ some b → IsFresh hdr cap b
    go none h' = absurd (ground arith)
    go (some a) h' = ground arith

pool_buf-IsFresh :
    (hdr cap : ℕ) (malloc : ℕ → Option ℕ) (a : Acquired) {b : Buf}
    → 0 < cap
    → ((addr : ℕ) → a.1 ≡ some addr → (c : ℕ) × (a.2 ≡ some c) × (hdr + cap ≤ c))
    → (pool_buf hdr malloc cap a).1 ≡ some b
    → IsFresh hdr cap b
pool_buf-IsFresh hdr cap malloc (p, none, out) positive fits h = malloc_buf-IsFresh hdr cap malloc h
pool_buf-IsFresh hdr cap malloc (p, some addr, out) positive fits h =
    let (c, written, le) = fits addr refl in ground arith

-- Any buffer that `ztk_buf_alloc` of `cap` bytes returns has one reference, length 0 and a capacity
-- of at least `cap`, which is not 0, and if its memory is a pool's block, header and payload fill
-- the block exactly. (The sum of header and capacity must not wrap.)
pub alloc-IsFresh :
    (hdr : ℕ) (malloc : ℕ → Option ℕ) (shared : Option BufPool) (cap : ℕ) (b : Buf)
    → hdr + cap < 2 ^ 64
    → (alloc hdr malloc shared cap).1 ≡ some b
    → IsFresh hdr cap b × (0 < cap)
unfolding alloc buf_create_from_pool
alloc-IsFresh hdr malloc shared cap b small h = elim (Bool-cases (cap == 0)) [
  | inl z ↦ absurd (ground arith)
  | inr positive ↦ (made shared (rw positive at h), ground arith)
]
  where
    made : (s : Option BufPool) → (create_from hdr malloc cap s).1 ≡ some b → IsFresh hdr cap b
    made none got = malloc_buf-IsFresh hdr cap malloc got
    made (some pool) got =
        let e : u64 (hdr + cap) ≡ hdr + cap = omega arith in
        pool_buf-IsFresh hdr cap malloc (acquire malloc pool (u64 (hdr + cap))) (ground arith)
          (λ addr q. rw e (acquire-cap malloc pool (hdr + cap) addr (ground arith) (rw e at q))) got
