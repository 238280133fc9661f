-- ===== src/Net/RtpPort/Leases.antt =====
-- src/net/rtp_port.c: what `acquire` and `release` do, and the ports in the hands of the clients.
use zero_tool_kit.Prelude.{
  ℕ, ◌+◌, ◌*◌, ◌%◌, ◌^◌, ◌≤◌, ◌<◌, ◌≡◌, Bool, true, some, List, [], ◌∷◌, count, erase, count-erase,
  ◌==◌, if◌then◌else◌, u16, u32, arith,
}
use zero_tool_kit.Errno.{ok}
use zero_tool_kit.Net.RtpPort.{
  RtpPortPool, pool_push, pool_pop, create_range, acquire, release, port_valid,
}
use zero_tool_kit.Net.RtpPort.Ports.{in_range, create-ports, pool_push-count, pool_push_failed}

-- A pool and the ports that clients hold.
pub record Leases : Type 0 where
  pub pool : RtpPortPool
  pub held : List ℕ

-- What clients do: acquire a port that the pool has, or give back one that they hold.
pub data Step (realloc : ℕ → Bool) (s : Leases) (t : Leases) : Type 0 where
  take_port :
      (rtp rtcp : ℕ) (pool' : RtpPortPool)
      → acquire s.pool ≡ (ok, some (rtp, rtcp), pool')
      → t ≡ record { pool = pool'; held = rtp ∷ s.held }
      → Step realloc s t
  give_port :
      (rtp : ℕ)
      → 0 < count rtp s.held
      → t ≡ record { pool = release realloc s.pool rtp; held = erase rtp s.held }
      → Step realloc s t

pub data Reach (realloc : ℕ → Bool) (s : Leases) : Leases → Type 0 where
  here : Reach realloc s s
  next : {t u : Leases} → Reach realloc s t → Step realloc t u → Reach realloc s u

-- Each even port of the range is free or held at most once, and no other number is either.
pub record IsExclusive (start end : ℕ) (s : Leases) : Type 0 where
  pub once : (x : ℕ) → count x s.pool.free_ports + count x s.held ≤ in_range start end x
  pub start_kept : s.pool.range_start ≡ start
  pub end_kept : s.pool.range_end ≡ end

acquire_cases :
    (pool pool' : RtpPortPool) (rtp rtcp x : ℕ)
    → acquire pool ≡ (ok, some (rtp, rtcp), pool')
    → (count x pool.free_ports ≡ (if rtp == x then 1 else 0) + count x pool'.free_ports)
      × (pool'.range_start ≡ pool.range_start)
      × (pool'.range_end ≡ pool.range_end)
      × (rtcp ≡ u16 (rtp + 1))
unfolding acquire pool_pop
acquire_cases pool pool' rtp rtcp x h = ground arith

release-count :
    (realloc : ℕ → Bool) (pool : RtpPortPool) (port x : ℕ)
    → (count x (release realloc pool port).free_ports
        ≤ count x pool.free_ports + (if port == x then 1 else 0))
      × ((release realloc pool port).range_start ≡ pool.range_start)
      × ((release realloc pool port).range_end ≡ pool.range_end)
unfolding release
release-count realloc pool port x =
    ground (arith, pool_push-count realloc pool port x, pool_push_failed realloc pool port)

Step-IsExclusive :
    (realloc : ℕ → Bool) (start end : ℕ) (s t : Leases)
    → Step realloc s t
    → IsExclusive start end s
    → IsExclusive start end t
Step-IsExclusive realloc start end s t (take_port rtp rtcp pool' got e) v = record {
  once = λ x. ground (arith, acquire_cases s.pool pool' rtp rtcp x, v.once x);
  start_kept = ground (arith, acquire_cases s.pool pool' rtp rtcp 0);
  end_kept = ground (arith, acquire_cases s.pool pool' rtp rtcp 0);
}
Step-IsExclusive realloc start end s t (give_port rtp has e) v = record {
  once =
      λ x. ground (arith, release-count realloc s.pool rtp x, v.once x, count-erase rtp x s.held);
  start_kept = ground (arith, release-count realloc s.pool rtp 0);
  end_kept = ground (arith, release-count realloc s.pool rtp 0);
}

Reach-IsExclusive :
    (realloc : ℕ → Bool) (start end : ℕ) {s t : Leases}
    → IsExclusive start end s
    → Reach realloc s t
    → IsExclusive start end t
Reach-IsExclusive realloc start end v here = v
Reach-IsExclusive realloc start end v (next {t} {u} r st) =
    Step-IsExclusive realloc start end t u st (Reach-IsExclusive realloc start end v r)

-- From a pool that `create` made for the range from `start` to `end`, after any acquires and any
-- releases of held ports, a port that `acquire` hands out is even, in the range and held by no
-- client, and the second port is the next number.
pub acquire_exclusive :
    (realloc : ℕ → Bool) (calloc : Bool) (start end rtp rtcp : ℕ) (q pool' : RtpPortPool)
    {t : Leases}
    → end < 2 ^ 16
    → end % 2 ≡ 0
    → create_range realloc calloc start end ≡ some (some q)
    → Reach realloc (record { pool = q; held = [] }) t
    → acquire t.pool ≡ (ok, some (rtp, rtcp), pool')
    → (count rtp t.held ≡ 0) × (rtp % 2 ≡ 0) × (start ≤ rtp) × (rtp ≤ end) × (rtcp ≡ rtp + 1)
acquire_exclusive realloc calloc start end rtp rtcp q pool' {t} small even made r got = ground (
  arith,
  (Reach-IsExclusive realloc start end fresh r).once rtp,
  acquire_cases t.pool pool' rtp rtcp rtp,
)
  where
    fresh : IsExclusive start end (record { pool = q; held = [] })
    fresh = record {
      once = λ x. ground (arith, create-ports realloc calloc start end x small made);
      start_kept = ground (arith, create-ports realloc calloc start end 0 small made);
      end_kept = ground (arith, create-ports realloc calloc start end 0 small made);
    }

-- Giving back a valid port, with memory, and acquiring again returns that port and the next number
-- and restores the free ports.
pub acquire-release :
    (realloc : ℕ → Bool) (pool : RtpPortPool) (port : ℕ)
    → ((n : ℕ) → realloc n ≡ true)
    → port_valid port pool.range_start pool.range_end ≡ true
    → let (status, ports, pool') = acquire (release realloc pool port) in
      (status ≡ ok) × (ports ≡ some (port, u16 (port + 1))) × (pool'.free_ports ≡ pool.free_ports)
unfolding acquire release pool_pop pool_push
acquire-release realloc pool port all valid =
    ground (arith, all ((if pool.free_cap == 0 then 64 else u32 (pool.free_cap * 2)) * 2))
