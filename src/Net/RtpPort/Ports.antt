-- ===== src/Net/RtpPort/Ports.antt =====
-- src/net/rtp_port.c: which ports a new pool holds.
use zero_tool_kit.Prelude.{
  ℕ, zero, suc, ◌+◌, ◌*◌, ◌-◌, ◌%◌, ◌/◌, ◌^◌, ◌≤◌, ◌<◌, ◌≡◌, inl, inr, Bool, true, false, ◌&&◌,
  some, length, count, leb, ◌==◌, if◌then◌else◌, u16, u32, Bool-cases, arith,
}
use zero_tool_kit.Net.RtpPort.{
  RtpPortPool, pool_push, fill, create_range, empty_pool, create_fuel, port_valid, free_count,
}

-- 1 for an even port of the range, 0 for any other number.
abbrev pub in_range : ℕ → ℕ → ℕ → ℕ
in_range start end x = if port_valid x start end then 1 else 0

-- What the loop of `create` still pushes from `p` on, of the port `x`.
abbrev still : ℕ → ℕ → ℕ → ℕ
still p end x = if leb p x && (leb x end && (x % 2 == p % 2)) then 1 else 0

still-step :
    (p end x : ℕ) → p ≤ end → still p end x ≡ (if p == x then 1 else 0) + still (p + 2) end x
still-step p end x h = ground arith

still_done : (p end x : ℕ) → end < p → still p end x ≡ 0
still_done p end x h = ground arith

-- A push that succeeds adds exactly the port.
pub pool_push-count :
    (realloc : ℕ → Bool) (pool : RtpPortPool) (port x : ℕ)
    → (pool_push realloc pool port).0 ≡ true
    → (count x (pool_push realloc pool port).1.free_ports
        ≡ (if port == x then 1 else 0) + count x pool.free_ports)
      × ((pool_push realloc pool port).1.range_start ≡ pool.range_start)
      × ((pool_push realloc pool port).1.range_end ≡ pool.range_end)
      × (length (pool_push realloc pool port).1.free_ports ≡ length pool.free_ports + 1)
unfolding pool_push
pool_push-count realloc pool port x h = ground arith

-- A push that fails changes nothing.
pub pool_push_failed :
    (realloc : ℕ → Bool) (pool : RtpPortPool) (port : ℕ)
    → (pool_push realloc pool port).0 ≡ false
    → (pool_push realloc pool port).1 ≡ pool
unfolding pool_push
pool_push_failed realloc pool port h = ground arith

pool_push_succeeds :
    (realloc : ℕ → Bool) (pool : RtpPortPool) (port : ℕ)
    → ((n : ℕ) → realloc n ≡ true)
    → (pool_push realloc pool port).0 ≡ true
unfolding pool_push
pool_push_succeeds realloc pool port all =
    ground (arith, all ((if pool.free_cap == 0 then 64 else u32 (pool.free_cap * 2)) * 2))

record Filled (p end x : ℕ) (pool q : RtpPortPool) : Type 0 where
  ports : count x q.free_ports ≡ still p end x + count x pool.free_ports
  number : length q.free_ports ≡ (end + 2 - p) / 2 + length pool.free_ports
  start_kept : q.range_start ≡ pool.range_start
  end_kept : q.range_end ≡ pool.range_end

fill-Filled :
    (realloc : ℕ → Bool) (fuel p end x : ℕ) (pool q : RtpPortPool)
    → end < 2 ^ 16
    → fill realloc fuel p end pool ≡ some (some q)
    → Filled p end x pool q
unfolding fill
fill-Filled realloc zero p end x pool q small h = ground arith
fill-Filled realloc (suc fuel) p end x pool q small h = ground (
  arith,
  still-step p end x,
  still_done p end x,
  pool_push-count realloc pool (u16 p) x,
  fill-Filled realloc fuel (u32 (p + 2)) end x (pool_push realloc pool (u16 p)).1 q,
)

-- With more fuel than rounds the loop ends, and with memory it ends with a pool.
fill_total :
    (realloc : ℕ → Bool) (fuel p end : ℕ) (pool : RtpPortPool)
    → end < 2 ^ 16
    → p ≤ end + 2
    → end + 2 < p + 2 * fuel
    → ((n : ℕ) → realloc n ≡ true)
    → (q : RtpPortPool) × (fill realloc fuel p end pool ≡ some (some q))
unfolding fill
fill_total realloc zero p end pool small low h all = absurd (omega arith)
fill_total realloc (suc fuel) p end pool small low h all = elim (Bool-cases (leb p end)) [
  | inr stop ↦ (pool, ground arith)
  | inl more ↦
      let (q, e) =
        fill_total realloc fuel (u32 (p + 2)) end (pool_push realloc pool (u16 p)).1 small
          (ground arith) (ground arith) all in
      (q, ground (arith, pool_push_succeeds realloc pool (u16 p) all))
]

-- A pool that `create` returns for the range from `start` to `end` holds every even port of the
-- range once and no other number, records the range, and has `(end - start) / 2 + 1` free ports.
pub create-ports :
    (realloc : ℕ → Bool) (calloc : Bool) (start end x : ℕ) {q : RtpPortPool}
    → end < 2 ^ 16
    → create_range realloc calloc start end ≡ some (some q)
    → (count x q.free_ports ≡ in_range start end x)
      × (free_count q ≡ (end - start) / 2 + 1)
      × (q.range_start ≡ start)
      × (q.range_end ≡ end)
unfolding create_range free_count
create-ports realloc calloc start end x {q} small h =
    ground (arith, fill-Filled realloc create_fuel start end x (empty_pool start end) q)

-- For an even range in order, and with memory, `create` ends and returns a pool.
pub create_range-total :
    (realloc : ℕ → Bool) (start end : ℕ)
    → end < 2 ^ 16
    → ((n : ℕ) → realloc n ≡ true)
    → start % 2 ≡ 0
    → end % 2 ≡ 0
    → start ≤ end
    → (q : RtpPortPool) × (create_range realloc true start end ≡ some (some q))
unfolding create_range
create_range-total realloc start end small all even even' le =
    let (q, e) =
      fill_total realloc create_fuel start end (empty_pool start end) small (omega arith)
        (omega arith) all in
    (q, ground arith)
