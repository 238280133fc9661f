-- ===== src/Util/Buf.antt =====
-- src/util/buf.c, the first half: `ztk_buf`, a reference-counted payload whose memory comes from
-- a pool or from malloc. `hdr` is `offsetof(ztk_buf, data)`, which the compiler fixes, and is also
-- taken for `sizeof(ztk_buf)`. The payload's bytes are the client's and are not modelled here.
pub mod Alloc
pub mod Sharing
mod Tests
use zero_tool_kit.Prelude.{
  ℕ, ◌+◌, ◌-◌, ◌^◌, Bool, true, false, Option, none, some, List, [], ◌∷◌, ltb, ◌==◌, if◌then◌else◌,
  u32, u64,
}
use zero_tool_kit.Util.BufPool.{BufPool, Acquired, Env, Released, acquire, release}

-- `struct ztk_buf`; `addr` is the address of the block. Which pool the block came from is
-- recorded by `pooled`: the operations below are given that pool.
pub record Buf : Type 0 where
  pub addr : ℕ
  pub refcnt : ℕ
  pub len : ℕ
  pub cap : ℕ
  pub pooled : Bool
  pub pool_blk_cap : ℕ

module _ (hdr : ℕ) (malloc : ℕ → Option ℕ) where
  abbrev pub malloc_buf : ℕ → Option ℕ → Option Buf
  malloc_buf cap none = none
  malloc_buf cap (some addr) =
      some
        (record { addr = addr; refcnt = 1; len = 0; cap = cap; pooled = false; pool_blk_cap = 0 })

  pub buf_create_malloc : ℕ → Option Buf
  buf_create_malloc cap = malloc_buf cap (malloc (u64 (hdr + cap)))

  -- `blk_cap` is 0 before the call and keeps that where the pool writes nothing.
  abbrev pub blk_cap_of : Option ℕ → ℕ
  blk_cap_of none = 0
  blk_cap_of (some c) = c

  abbrev pub pool_buf : ℕ → Acquired → BufPool × Option Buf
  pool_buf cap (pool', none, out_cap) = (pool', buf_create_malloc cap)
  pool_buf cap (pool', some addr, out_cap) =
      let blk_cap = blk_cap_of out_cap in
      (
        pool',
        some (record {
          addr = addr;
          refcnt = 1;
          len = 0;
          cap = if ltb hdr blk_cap then blk_cap - hdr else cap;
          pooled = true;
          pool_blk_cap = blk_cap;
        }),
      )

  abbrev pub create_from : ℕ → Option BufPool → Option BufPool × Option Buf
  create_from cap none = (none, buf_create_malloc cap)
  create_from cap (some pool) =
      let (pool', b) = pool_buf cap (acquire malloc pool (u64 (hdr + cap))) in (some pool', b)

  pub buf_create_from_pool : Option BufPool → ℕ → Option BufPool × Option Buf
  buf_create_from_pool pool cap = create_from cap pool

  -- `shared` is `g_shared_pool`.
  pub alloc : Option BufPool → ℕ → Option BufPool × Option Buf
  alloc shared cap = if cap == 0 then (shared, none) else buf_create_from_pool shared cap

  -- The pools after the call, the local one first.
  pub alloc_local :
      Option BufPool → Option BufPool → ℕ → (Option BufPool × Option BufPool) × Option Buf
  alloc_local local shared cap = if cap == 0 then ((local, shared), none) else go local
    where
      go : Option BufPool → (Option BufPool × Option BufPool) × Option Buf
      go none = let (shared', b) = alloc shared cap in ((none, shared'), b)
      go (some pool) =
          let (local', b) = buf_create_from_pool (some pool) cap in ((local', shared), b)

-- `ztk_buf_ref`: one atomic addition on an `int`.
pub ref : Buf → Buf
ref b = record b { refcnt = u32 (b.refcnt + 1) }

-- What became of the memory in an unref: still in use, handed back to the pool, or to free().
pub data Fate : Type 0 where
  in_use : Fate
  to_pool : Released → Fate
  to_free : ℕ → Fate

abbrev pub drop_last : Env → BufPool → Buf → Bool → Bool → Fate
drop_last env pool b false pooled = in_use
drop_last env pool b true true = to_pool (release env pool b.addr b.pool_blk_cap)
drop_last env pool b true false = to_free b.addr

pub unref : Env → BufPool → Buf → Buf × Fate
unref env pool b = (
  record b { refcnt = u32 (b.refcnt + 2 ^ 32 - 1) },
  drop_last env pool b (b.refcnt == 1) b.pooled,
)

pub set_len : Buf → ℕ → Buf
set_len b len = if ltb b.cap len then b else record b { len = len }
