-- ===== src/Poller/Tasks.antt =====
-- src/poller/poller_task.c: the task queue of a poller. A task is a number that stands for its
-- function and argument; the linked list from `task_head` to `task_tail` is a list. What a task
-- does to the poller when it runs is the list of tasks that it posts, the parameter `body`. The
-- log `ran` of what ran, in order, is not in the source.
pub mod Order
mod Tests
use zero_tool_kit.Prelude.{
  ℕ, Bool, true, false, not, ◌&&◌, Option, none, some, List, [], ◌∷◌, ◌++◌, ◌==◌, if◌then◌else◌,
}
use zero_tool_kit.Errno.{Err, ok, nomem, invalid, state}

pub record Tasks : Type 0 where
  pub has_mtx : Bool
  pub queue : List ℕ
  pub owner_thread : ℕ
  pub ran : List ℕ

-- What the caller finds: its thread's number, whether calloc gives a task, and the result of the
-- write to the wake pipe, which the backend reports.
pub record Env : Type 0 where
  pub self : ℕ
  pub calloc_ok : Bool
  pub wake : Err

-- A task that is posted, at the front or at the back.
pub record Post : Type 0 where
  pub task : ℕ
  pub front : Bool

abbrev pub enqueue : Post → List ℕ → List ℕ
enqueue x queue = if x.front then x.task ∷ queue else queue ++ (x.task ∷ [])

pub post_all : List Post → List ℕ → List ℕ
post_all [] queue = queue
post_all (x ∷ xs) queue = post_all xs (enqueue x queue)

module _ (body : ℕ → List Post) where
  -- Running one task: it is logged, and what it posts goes to the queue of that moment.
  pub run_task : Tasks → ℕ → Tasks
  run_task p t = record p { ran = p.ran ++ (t ∷ []); queue = post_all (body t) p.queue }

  pub run_list : Tasks → List ℕ → Tasks
  run_list p [] = p
  run_list p (t ∷ ts) = run_list (run_task p t) ts

  pub drain_tasks : Tasks → Tasks
  drain_tasks p = if not p.has_mtx then p else run_list (record p { queue = [] }) p.queue

  abbrev pub async_task : Env → Tasks → ℕ → Bool → Bool → Err × Tasks
  async_task env p fn may_sync push_front =
      if may_sync && (not (p.owner_thread == 0) && p.owner_thread == env.self)
      then (ok, run_task p fn)
      else if not p.has_mtx
      then (state, p)
      else if not env.calloc_ok
      then (nomem, p)
      else (
        env.wake,
        record p { queue = enqueue (record { task = fn; front = push_front }) p.queue },
      )

  -- `none` is the NULL function.
  pub async_impl : Env → Tasks → Option ℕ → Bool → Bool → Err × Tasks
  async_impl env p none may_sync push_front = (invalid, p)
  async_impl env p (some fn) may_sync push_front = async_task env p fn may_sync push_front

  pub async : Env → Tasks → Option ℕ → Bool → Err × Tasks
  async env p fn may_sync = async_impl env p fn may_sync false

  pub async_first : Env → Tasks → Option ℕ → Bool → Err × Tasks
  async_first env p fn may_sync = async_impl env p fn may_sync true

  pub process_pending : Tasks → Tasks
  process_pending p = drain_tasks p

pub is_current_thread : Tasks → ℕ → Bool
is_current_thread p self = if p.owner_thread == 0 then false else p.owner_thread == self

pub bind_thread : Tasks → ℕ → Tasks
bind_thread p self = record p { owner_thread = self }

pub unbind_thread : Tasks → Tasks
unbind_thread p = record p { owner_thread = 0 }

-- The tasks' part of `ztk_poller_task_init`; `mtx` says whether the mutex is created.
pub task_init : Bool → Tasks
task_init mtx = record { has_mtx = mtx; queue = []; owner_thread = 0; ran = [] }

-- The tasks' part of `ztk_poller_task_fini`.
pub task_fini : (ℕ → List Post) → Tasks → Tasks
unfolding drain_tasks
task_fini body p = record (drain_tasks body p) { has_mtx = false }
