-- ===== src/Poller/Load.antt =====
-- src/poller/poller_load.c: how busy a poller is. The clock's value is the argument `now`; the
-- times are uint64_t.
pub mod Account
use zero_tool_kit.Prelude.{ℕ, ◌+◌, ◌*◌, ◌/◌, Bool, true, false, not, ltb, if◌then◌else◌, u64, sub64}

-- `ztk_poller_load_state`, less the mutex, which exists from `init` to `fini`.
pub record Load : Type 0 where
  pub last_ms : ℕ
  pub run_ms : ℕ
  pub sleep_ms : ℕ
  pub sleeping : Bool

-- `ZTK_POLLER_LOAD_WINDOW_MS`
abbrev pub window_ms : ℕ
window_ms = 2000

pub init : ℕ → Load
init now = record { last_ms = now; run_ms = 0; sleep_ms = 0; sleeping = false }

-- The time since the last mark goes to the account of the state that it was spent in.
abbrev pub charged : ℕ → Load → Load
charged now st =
    let delta = sub64 now st.last_ms in
    if st.sleeping
    then record st { last_ms = now; sleep_ms = u64 (st.sleep_ms + delta) }
    else record st { last_ms = now; run_ms = u64 (st.run_ms + delta) }

abbrev pub halved : Load → Load
halved st =
    if ltb window_ms (u64 (st.run_ms + st.sleep_ms))
    then record st { run_ms = st.run_ms / 2; sleep_ms = st.sleep_ms / 2 }
    else st

pub mark_time : ℕ → Bool → Load → Load
mark_time now sleeping st = halved (record (charged now st) { sleeping = sleeping })

pub on_sleep : ℕ → Load → Load
on_sleep now st = if not st.sleeping then mark_time now true st else st

pub on_wake : ℕ → Load → Load
on_wake now st = if st.sleeping then mark_time now false st else st

abbrev pub percent_of : Load → ℕ
percent_of st =
    let total = u64 (st.run_ms + st.sleep_ms) in
    let pct = if ltb 0 total then u64 (st.run_ms * 100) / total else 0 in
    if ltb 100 pct then 100 else pct

-- The state after the reading, and the percentage. (The cast to int is exact up to 2 ^ 31.)
pub percent : ℕ → Load → Load × ℕ
percent now st = let st' = charged now st in (st', percent_of st')
