-- ===== src/Net/RtpPort.antt =====
-- src/net/rtp_port.c: the pool of even RTP ports. The used entries of the array `free_ports` are a
-- list with the last entry first, so `free_count` is its length and the top of the stack its head.
-- What realloc answers for a request of so many bytes is the parameter `realloc`.
pub mod Ports
pub mod Leases
mod Tests
use zero_tool_kit.Prelude.{
  ℕ, zero, suc, ◌+◌, ◌*◌, ◌%◌, Bool, true, false, ◌&&◌, ◌||◌, Option, none, some, List, [], ◌∷◌,
  length, ltb, leb, ◌==◌, if◌then◌else◌, u16, u32,
}
use zero_tool_kit.Errno.{Err, ok, nomem, invalid}

pub record RtpPortPool : Type 0 where
  pub range_start : ℕ
  pub range_end : ℕ
  pub free_ports : List ℕ
  pub free_cap : ℕ

-- `ztk_rtp_port_pool_opts_t`
pub record Opts : Type 0 where
  pub range_start : ℕ
  pub range_end : ℕ

abbrev pub default_start : ℕ
default_start = 30000

abbrev pub default_end : ℕ
default_end = 39998

abbrev pub port_valid : ℕ → ℕ → ℕ → Bool
port_valid p start end = leb start p && leb p end && (p % 2 == 0)

pub pool_push : (ℕ → Bool) → RtpPortPool → ℕ → Bool × RtpPortPool
pool_push realloc pool port =
    if leb pool.free_cap (length pool.free_ports)
    then (if realloc (ncap * 2) then (true, record pushed { free_cap = ncap }) else (false, pool))
    else (true, pushed)
  where
    ncap : ℕ
    ncap = if pool.free_cap == 0 then 64 else u32 (pool.free_cap * 2)

    pushed : RtpPortPool
    pushed = record pool { free_ports = port ∷ pool.free_ports }

abbrev pub pop_list : List ℕ → RtpPortPool → Option (ℕ × RtpPortPool)
pop_list [] pool = none
pop_list (port ∷ rest) pool = some (port, record pool { free_ports = rest })

pub pool_pop : RtpPortPool → Option (ℕ × RtpPortPool)
pool_pop pool = pop_list pool.free_ports pool

-- The loop of `create` over `uint32_t p`, on fuel: the outer `none` means that the fuel ran out,
-- `some none` is the NULL of a failed push.
pub fill : (ℕ → Bool) → ℕ → ℕ → ℕ → RtpPortPool → Option (Option RtpPortPool)
fill realloc zero p end pool = none
fill realloc (suc fuel) p end pool = elim (leb p end) [
  | true ↦
      let (done, pool') = pool_push realloc pool (u16 p) in
      elim done [ true ↦ fill realloc fuel (u32 (p + 2)) end pool' | false ↦ some none ]
  | false ↦ some (some pool)
]

-- The range that the options give: a zero keeps the default.
abbrev pub range_of : Option Opts → ℕ × ℕ
range_of none = (default_start, default_end)
range_of (some o) = (
  if o.range_start == 0 then default_start else o.range_start,
  if o.range_end == 0 then default_end else o.range_end,
)

abbrev pub empty_pool : ℕ → ℕ → RtpPortPool
empty_pool start end = record {
  range_start = start;
  range_end = end;
  free_ports = [];
  free_cap = 0;
}

-- 2 ^ 15 rounds cover every even uint16_t, and one more makes the last test.
abbrev pub create_fuel : ℕ
create_fuel = 32769

-- `calloc` says whether the pool's own allocation succeeds.
pub create_range : (ℕ → Bool) → Bool → ℕ → ℕ → Option (Option RtpPortPool)
create_range realloc calloc start end =
    let filled = fill realloc create_fuel start end (empty_pool start end) in
    if start % 2 == 1 || end % 2 == 1 || ltb end start
    then some none
    else if calloc
    then filled
    else some none

pub create : (ℕ → Bool) → Bool → Option Opts → Option (Option RtpPortPool)
create realloc calloc opts =
    let (start, end) = range_of opts in create_range realloc calloc start end

-- The status, the two ports when they are written, and the pool.
abbrev pub acquired : RtpPortPool → Option (ℕ × RtpPortPool) → Err × Option (ℕ × ℕ) × RtpPortPool
acquired pool none = (nomem, none, pool)
acquired pool (some (rtp, pool')) = (ok, some (rtp, u16 (rtp + 1)), pool')

-- The guard on NULL arguments (status `invalid`) is left to the caller, who has a pool here.
pub acquire : RtpPortPool → Err × Option (ℕ × ℕ) × RtpPortPool
acquire pool = acquired pool (pool_pop pool)

pub release : (ℕ → Bool) → RtpPortPool → ℕ → RtpPortPool
release realloc pool rtp_port =
    if port_valid rtp_port pool.range_start pool.range_end
    then (pool_push realloc pool rtp_port).1
    else pool

pub free_count : RtpPortPool → ℕ
free_count pool = length pool.free_ports
