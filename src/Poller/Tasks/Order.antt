-- ===== src/Poller/Tasks/Order.antt =====
-- src/poller/poller_task.c: in which order tasks run, and which wait for the next round.
use zero_tool_kit.Prelude.{
  ℕ, ◌≡◌, refl, Bool, true, false, some, List, [], ◌∷◌, ◌++◌, if◌then◌else◌, append_assoc,
  append-nil, ◌∙◌, arith,
}
use zero_tool_kit.Errno.{ok}
use zero_tool_kit.Poller.Tasks.{
  Tasks, Env, Post, enqueue, post_all, run_task, run_list, drain_tasks, async_impl, task_fini,
  is_current_thread,
}

-- Everything that the tasks of a list post, one after the other.
abbrev pub posts_of : (ℕ → List Post) → List ℕ → List Post
posts_of body [] = []
posts_of body (t ∷ ts) = body t ++ posts_of body ts

post_all-append :
    (xs ys : List Post) (queue : List ℕ)
    → post_all (xs ++ ys) queue ≡ post_all ys (post_all xs queue)
unfolding post_all
post_all-append [] ys queue = refl
post_all-append (x ∷ xs) ys queue = post_all-append xs ys (enqueue x queue)

run_list_lem :
    (body : ℕ → List Post) (p : Tasks) (ts : List ℕ)
    → ((run_list body p ts).ran ≡ p.ran ++ ts)
      × ((run_list body p ts).queue ≡ post_all (posts_of body ts) p.queue)
      × ((run_list body p ts).has_mtx ≡ p.has_mtx)
      × ((run_list body p ts).owner_thread ≡ p.owner_thread)
unfolding run_list run_task post_all
run_list_lem body p [] = (rw append-nil, refl, refl, refl)
run_list_lem body p (t ∷ ts) =
    let (ran, queue, mtx, owner) = run_list_lem body (run_task body p t) ts in
    (ran ∙ append_assoc p.ran (t ∷ []) ts, rw queue (rw post_all-append), mtx, owner)

-- A drain runs every queued task once, in the order of the queue, whatever the tasks do; the
-- tasks that they post in the meantime, in that order, make up the queue afterwards and run in the
-- next drain.
pub drain_tasks_lem :
    (body : ℕ → List Post) (p : Tasks)
    → p.has_mtx ≡ true
    → ((drain_tasks body p).ran ≡ p.ran ++ p.queue)
      × ((drain_tasks body p).queue ≡ post_all (posts_of body p.queue) [])
      × ((drain_tasks body p).owner_thread ≡ p.owner_thread)
unfolding drain_tasks
drain_tasks_lem body p mtx = ground (arith, run_list_lem body (record p { queue = [] }) p.queue)

-- A task that another thread posts runs in the next drain: before all the queued tasks if it was
-- posted to the front, and after them all otherwise.
pub drain_tasks-async_impl :
    (body : ℕ → List Post) (env : Env) (p : Tasks) (fn : ℕ) (may_sync front : Bool)
    → p.has_mtx ≡ true
    → env.calloc_ok ≡ true
    → is_current_thread p env.self ≡ false
    → let (status, p') = async_impl body env p (some fn) may_sync front in
      (status ≡ env.wake)
      × ((drain_tasks body p').ran
          ≡ p.ran ++ (if front then fn ∷ p.queue else p.queue ++ (fn ∷ [])))
unfolding async_impl is_current_thread
drain_tasks-async_impl body env p fn may_sync front mtx mem other = ground (
  arith,
  drain_tasks_lem body (record p { queue = enqueue (record { task = fn; front = front }) p.queue }),
)

-- On the poller's own thread a task posted with `may_sync` runs at once, before every queued one,
-- and the queue keeps what it held, with what the task posts.
pub async_impl_sync :
    (body : ℕ → List Post) (env : Env) (p : Tasks) (fn : ℕ) (front : Bool)
    → is_current_thread p env.self ≡ true
    → let (status, p') = async_impl body env p (some fn) true front in
      (status ≡ ok) × (p'.ran ≡ p.ran ++ (fn ∷ [])) × (p'.queue ≡ post_all (body fn) p.queue)
unfolding async_impl is_current_thread run_task
async_impl_sync body env p fn front mine = ground arith

-- `ztk_poller_task_fini` drains the queue once: it runs every task that was queued, but a task that
-- one of these posts is left in the queue of the poller that is gone, and never runs.
pub task_fini-left :
    (body : ℕ → List Post) (p : Tasks)
    → p.has_mtx ≡ true
    → let q = task_fini body p in
      (q.has_mtx ≡ false)
      × (q.ran ≡ p.ran ++ p.queue)
      × (q.queue ≡ post_all (posts_of body p.queue) [])
      × (drain_tasks body q ≡ q)
unfolding task_fini drain_tasks
task_fini-left body p mtx =
    let (ran, queue, owner) = drain_tasks_lem body p mtx in (refl, ran, queue, refl)
