-- ===== src/ThreadPool.antt =====
-- src/thread/thread_pool.c: worker threads that wait on a semaphore and take tasks from one list.
-- The semaphore is that of POSIX or Windows; the count of sem_pthread.c without POSIX semaphores,
-- an `unsigned` that wraps, is left out. A task is a number; the list from `head` to `tail` is a list. `put`, `post`, `wait`, `pop` and
-- `fini` are what one thread does at once: under the mutex or in one call of the semaphore.
pub mod Order
mod Tests
use zero_tool_kit.Prelude.{
  ℕ, zero, suc, ◌+◌, ◌-◌, min, Bool, true, false, not, ◌&&◌, ◌||◌, Option, none, some, List, [],
  ◌∷◌, ◌++◌, ◌==◌, if◌then◌else◌,
}
use zero_tool_kit.Errno.{Err, ok, nomem, invalid, state}

-- `struct ztk_thread_pool`, less the mutex. `sem` is the semaphore's count. Not in the source: `owed`
-- counts the threads that have put a task and not yet posted, `lost` the posts of a task that failed,
-- `final` the posts of the shutdown, `awake` the workers between the wait and the pop, `left` the
-- workers that left their loop for want of a task, `gave_up` those whose wait failed, and `taken` is
-- the log of the tasks that workers took, in order, and `ran_here` of those that `may_sync` ran in
-- the caller.
pub record Pool : Type 0 where
  pub queue : List ℕ
  pub sem : ℕ
  pub worker_count : ℕ
  pub worker_ids : List ℕ
  pub shutdown : Bool
  pub started : Bool
  pub owed : ℕ
  pub lost : ℕ
  pub final : ℕ
  pub awake : ℕ
  pub left : ℕ
  pub gave_up : ℕ
  pub taken : List ℕ
  pub ran_here : List ℕ

abbrev pub is_member : ℕ → List ℕ → Bool
is_member self [] = false
is_member self (i ∷ ids) = i == self || is_member self ids

pub is_pool_worker : Pool → ℕ → Bool
is_pool_worker p self = is_member self p.worker_ids

-- The part of `push_task` under the mutex.
pub put : Bool → ℕ → Pool → Pool
put first t p = record p {
  queue = if first then t ∷ p.queue else p.queue ++ (t ∷ []);
  owed = p.owed + 1;
}

-- Its last call, for what `ztk_sem_post` answers, ZTK_OK or that the count is at its limit.
pub post : Err → Pool → Err × Pool
post ok p = (ok, record p { owed = p.owed - 1; sem = p.sem + 1 })
post failed p = (failed, record p { owed = p.owed - 1; lost = p.lost + 1 })

-- What `ztk_sem_wait` answers in a worker: ZTK_OK, for a positive count, or an error, after which the
-- worker leaves its loop.
pub wait : Err → Pool → Pool
wait ok p = record p { sem = p.sem - 1; awake = p.awake + 1 }
wait failed p = record p { gave_up = p.gave_up + 1 }

abbrev pub popped : Pool → List ℕ → Pool
popped p [] = record p { awake = p.awake - 1; left = p.left + 1 }
popped p (t ∷ rest) = record p { awake = p.awake - 1; queue = rest; taken = p.taken ++ (t ∷ []) }

-- `pop_task` in a worker, which leaves its loop if there is no task.
pub pop : Pool → Pool
pop p = popped p p.queue

-- `ztk_thread_pool_fini` up to the joins. `posts` of its `worker_count` posts succeed: its call of
-- `ztk_sem_post` ends at the first that fails, and its result is not looked at.
pub fini : ℕ → Pool → Pool
fini posts p =
    let n = min posts p.worker_count in
    if p.started then record p { shutdown = true; sem = p.sem + n; final = p.final + n } else p

abbrev pub push_task : Bool → Err → Pool → ℕ → Bool → Err × Pool
push_task calloc_ok answer p t first = if calloc_ok then post answer (put first t p) else (nomem, p)

abbrev pub started_async : Bool → Err → Pool → ℕ → ℕ → Bool → Bool → Err × Pool
started_async calloc_ok answer p self t may_sync first =
    if may_sync && is_pool_worker p self
    then (ok, record p { ran_here = p.ran_here ++ (t ∷ []) })
    else push_task calloc_ok answer p t first

-- `ztk_thread_pool_async` and, with `first`, `ztk_thread_pool_async_first`; `none` is the NULL function.
pub async_at : Bool → Err → Pool → ℕ → Option ℕ → Bool → Bool → Err × Pool
async_at calloc_ok answer p self none may_sync first = (invalid, p)
async_at calloc_ok answer p self (some t) may_sync first =
    if not p.started then (state, p) else started_async calloc_ok answer p self t may_sync first
