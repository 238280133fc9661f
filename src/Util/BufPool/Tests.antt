-- ===== src/Util/BufPool/Tests.antt =====
-- The theorems on the pool of src/util/buf.c at concrete inputs.
use zero_tool_kit.Prelude.{ℕ, ◌≡◌, refl, true, false, Option, none, some, arith}
use zero_tool_kit.Util.BufPool.{
  BufPool, Env, fresh_pool, create, acquire, pool_release_now, bucket_index_for_size,
  index_for_size,
}
use zero_tool_kit.Util.BufPool.Validity.{IsValid, create-IsValid}
use zero_tool_kit.Util.BufPool.Blocks.{acquire-pool_release_now}
use zero_tool_kit.Util.BufPool.Places.{Source, acquire-Source}

abbrev pool : BufPool
pool = fresh_pool none

pool-IsValid : IsValid pool
unfolding create
pool-IsValid = (create-IsValid true true none (ground arith) refl).0

-- Another thread releases a block of a pool that is not thread safe.
abbrev elsewhere : Env
elsewhere = record { is_current_thread = λ p. false; defer_ok = true; async_ok = true }

abbrev malloc : ℕ → Option ℕ
malloc n = some 4096

acquire-Source_example : Source malloc pool 600 (acquire malloc pool 600)
acquire-Source_example = acquire-Source malloc pool 600 pool-IsValid

acquire-pool_release_now_example :
    let (pool', ptr', cap') = acquire malloc (pool_release_now pool 8192 2048).0 600 in
    (ptr' ≡ some 8192)
    × (cap' ≡ some 2048)
    × (pool'.free_heads ≡ pool.free_heads)
    × (pool'.counts ≡ pool.counts)
unfolding bucket_index_for_size index_for_size
acquire-pool_release_now_example =
    acquire-pool_release_now malloc pool 8192 600 1 2048 pool-IsValid (ground arith) refl
      (ground arith)
