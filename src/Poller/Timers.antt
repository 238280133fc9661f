-- ===== src/Poller/Timers.antt =====
-- src/poller/poller_timer.c: the timers of a poller over their heap: expiry, the timeout of the
-- next wait, delayed calls and their cancellation. A time in milliseconds is a uint64_t.
pub mod Expiry
pub mod Timeout
pub mod Cancel
mod Tests
use zero_tool_kit.Prelude.{
  ℕ, zero, suc, ◌+◌, ◌-◌, ◌*◌, ◌/◌, ◌^◌, Bool, true, false, not, ◌&&◌, ◌||◌, Option, none, some,
  List, [], ◌∷◌, ltb, leb, ◌==◌, if◌then◌else◌, u64, sub64,
}
use zero_tool_kit.Poller.TimerHeap.{
  Timer, Heap, key, index_none, update, pop_min, remove, insert_locked,
}

-- `ZTK_TIMER_FLUSH_MAX`
abbrev pub flush_max : ℕ
flush_max = 256

-- What the callback of the timer at an address returns, and whether the timer is cancelled when
-- the flag is read again after it (another thread may set it meanwhile). The callback cannot
-- change the heap: `timer_mtx`, a plain mutex, is held around it.
pub record Answer : Type 0 where
  pub next_ms : ℕ
  pub cancelled : Bool

-- After some rounds: the heap, the timers whose callback ran, in order, the timers that were
-- freed, and the number of rounds.
pub record Flushed : Type 0 where
  pub heap : Heap
  pub fired : List ℕ
  pub freed : List ℕ
  pub processed : ℕ

module _ (realloc : ℕ → Bool) (callback : ℕ → Answer) (now : ℕ) where
  -- One round with the timer `a`, popped from the heap: the heap, and whether the callback ran and
  -- whether the timer was freed. The callback, which runs with `timer_mtx` held, leaves the heap alone.
  abbrev pub expire : ℕ → Heap → Heap × Bool × Bool
  expire a g =
      let answer = callback a in
      if (g.timers a).cancelled
      then (g, false, true)
      else if ltb 0 answer.next_ms && not answer.cancelled
      then (insert_locked realloc g a (u64 (now + answer.next_ms)), true, false)
      else (g, true, true)

  abbrev pub is_due : Heap → Bool
  is_due h = ltb 0 h.count && leb (key h 0) now

  abbrev pub after : ℕ → Bool → Bool → Flushed → Flushed
  after a ran gone rest = record {
    heap = rest.heap;
    fired = if ran then a ∷ rest.fired else rest.fired;
    freed = if gone then a ∷ rest.freed else rest.freed;
    processed = suc rest.processed;
  }

  -- The loop, with the rounds that are left.
  pub flush_loop : ℕ → Heap → Flushed
  flush_loop zero h = record { heap = h; fired = []; freed = []; processed = 0 }
  flush_loop (suc rounds) h =
      let a = h.slots 0 in
      let (g, ran, gone) = expire a (pop_min h).1 in
      let more = after a ran gone (flush_loop rounds g) in
      if is_due h then more else record { heap = h; fired = []; freed = []; processed = 0 }

  -- The delay to the next deadline as int64_t; `none` stands for the negative values.
  abbrev pub next_delay : Heap → Option ℕ
  next_delay h =
      if h.count == 0
      then none
      else if ltb now (key h 0)
      then if ltb (sub64 (key h 0) now) (2 ^ 63) then some (sub64 (key h 0) now) else none
      else some 0

  pub flush_expired_timers : Heap → Flushed × Option ℕ
  flush_expired_timers h = let f = flush_loop flush_max h in (f, next_delay f.heap)

  -- `none` is a negative request or result, which means to wait without limit.
  abbrev pub timeout_for : Option ℕ → Option ℕ → Option ℕ
  timeout_for none request = request
  timeout_for (some delay) none = some (if ltb 0x7fffffff delay then 0x7fffffff else delay)
  timeout_for (some delay) (some request) =
      if request == 0 then some 0 else if ltb delay request then some delay else some request

  pub resolve_timeout_ms : Heap → Option ℕ → Flushed × Option ℕ
  resolve_timeout_ms h request =
      let (f, delay) = flush_expired_timers h in (f, timeout_for delay request)

-- What `ztk_poller_do_delay` finds: the time, the address of the new timer if calloc gives one,
-- whether the caller is the poller's thread, and whether the context and the task are accepted.
pub record Env : Type 0 where
  pub now : ℕ
  pub calloc_timer : Option ℕ
  pub is_owner : Bool
  pub calloc_ctx : Bool
  pub async_ok : Bool

-- The NULL result, a timer in the heap, or a timer whose insertion is posted to the front of the
-- task queue, with its deadline.
pub data Delayed : Type 0 where
  failed : Delayed
  inserted : Heap → ℕ → Delayed
  posted : Heap → ℕ → ℕ → Delayed

-- Memory with the new timer in it.
abbrev pub with_timer : Heap → ℕ → ℕ → Heap
with_timer h a user = record h {
  timers =
      update h.timers a
        (record { user = user; cancelled = false; deadline_ms = 0; heap_index = index_none });
}

abbrev pub delay_at : (ℕ → Bool) → Env → Heap → ℕ → ℕ → Option ℕ → Delayed
delay_at realloc env h delay_ms user none = failed
delay_at realloc env h delay_ms user (some a) =
    let deadline = u64 (env.now + delay_ms) in
    if env.is_owner
    then inserted (insert_locked realloc (with_timer h a user) a deadline) a
    else if env.calloc_ctx && env.async_ok
    then posted (with_timer h a user) a deadline
    else failed

pub do_delay : (ℕ → Bool) → Env → Heap → ℕ → ℕ → Delayed
do_delay realloc env h delay_ms user = delay_at realloc env h delay_ms user env.calloc_timer

-- The task that a posted insertion runs on the poller's thread.
pub delay_insert_async : (ℕ → Bool) → Heap → ℕ → ℕ → Heap
delay_insert_async realloc h a deadline = insert_locked realloc h a deadline

abbrev pub mark_cancelled : Heap → ℕ → Heap
mark_cancelled h a = record h {
  timers = update h.timers a (record (h.timers a) { cancelled = true });
}

-- The heap after the call, and whether the unlinking is posted as a task.
pub timer_cancel : Env → Heap → ℕ → Heap × Bool
timer_cancel env h a =
    let marked = mark_cancelled h a in
    if env.is_owner then (remove marked a, false) else (marked, env.calloc_ctx && env.async_ok)

-- The task that a posted cancellation runs.
pub timer_cancel_async : Heap → ℕ → Heap
timer_cancel_async h a = remove h a
