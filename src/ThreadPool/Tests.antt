-- ===== src/ThreadPool/Tests.antt =====
-- The theorems on the workers of src/thread/thread_pool.c at a concrete run.
use zero_tool_kit.Prelude.{◌+◌, ◌≡◌, refl, false, [], ◌∷◌, length, count, arith}
use zero_tool_kit.Errno.{ok, platform}
use zero_tool_kit.ThreadPool.{Pool, put, post, wait, pop}
use zero_tool_kit.ThreadPool.Order.{fresh, Step, Reach, here, next, taken_once, wakes_balanced}

-- Two tasks were put, the post of the second failed, one task was taken, and the wait of one worker
-- failed.
abbrev busy : Pool
busy = record (fresh 2 (11 ∷ 12 ∷ [])) { queue = 5 ∷ []; lost = 1; gave_up = 1; taken = 7 ∷ [] }

run : Reach (fresh 2 (11 ∷ 12 ∷ [])) busy (5 ∷ 7 ∷ [])
unfolding put post wait pop
run =
    next
      (next
        (next
          (next
            (next
              (next (next here (Step.do_put false 7 refl refl))
                (Step.do_post ok (ground arith) refl refl))
              (Step.do_put false 5 refl refl))
            (Step.do_post platform (ground arith) refl refl))
          (Step.do_wait ok (λ _. ground arith) refl refl))
        (Step.do_wait platform (λ e. cc) refl refl))
      (Step.do_pop (ground arith) refl refl)

taken_once_example : count 7 busy.taken + count 7 busy.queue ≡ 1
taken_once_example = taken_once 7 run

wakes_balanced_example :
    (busy.left ≡ 0) × (busy.owed + busy.sem + busy.awake + busy.lost ≡ length busy.queue)
wakes_balanced_example = wakes_balanced run refl
