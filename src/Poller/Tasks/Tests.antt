-- ===== src/Poller/Tasks/Tests.antt =====
-- The theorems on the task queue of src/poller/poller_task.c at concrete inputs.
use zero_tool_kit.Prelude.{ℕ, ◌≡◌, refl, true, some, List, [], ◌∷◌, ◌==◌, if◌then◌else◌}
use zero_tool_kit.Errno.{ok}
use zero_tool_kit.Poller.Tasks.{Tasks, Env, Post, drain_tasks, async_impl, is_current_thread}
use zero_tool_kit.Poller.Tasks.Order.{drain_tasks-async_impl}

-- The task 7 posts the task 8 to the front; the others post nothing.
abbrev body : ℕ → List Post
body t = if t == 7 then record { task = 8; front = true } ∷ [] else []

abbrev two_tasks : Tasks
two_tasks = record { has_mtx = true; queue = 7 ∷ 5 ∷ []; owner_thread = 1; ran = [] }

abbrev env_of : ℕ → Env
env_of self = record { self = self; calloc_ok = true; wake = ok }

-- Thread 2 is not the poller's thread.
drain_tasks-async_impl_example :
    ((async_impl body (env_of 2) two_tasks (some 4) true true).0 ≡ ok)
    × ((drain_tasks body (async_impl body (env_of 2) two_tasks (some 4) true true).1).ran
        ≡ 4 ∷ 7 ∷ 5 ∷ [])
unfolding is_current_thread
drain_tasks-async_impl_example =
    drain_tasks-async_impl body (env_of 2) two_tasks 4 true true refl refl refl
