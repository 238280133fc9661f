-- ===== src/ThreadPool/Order.antt =====
-- src/thread/thread_pool.c: any interleaving of callers, workers and the shutdown. The steps do not
-- limit how many workers are awake.
use zero_tool_kit.Prelude.{
  ℕ, ◌+◌, ◌<◌, ◌≡◌, refl, ap, ap₂, ◌∙◌, Bool, true, false, List, [], ◌∷◌, length, length-append,
  count, count-append, arith, if◌then◌else◌,
}
use zero_tool_kit.Errno.{Err, ok}
use zero_tool_kit.ThreadPool.{Pool, put, post, wait, pop, fini, popped}

-- A pool that was started with so many workers.
abbrev pub fresh : ℕ → List ℕ → Pool
fresh n ids = record {
  queue = [];
  sem = 0;
  worker_count = n;
  worker_ids = ids;
  shutdown = false;
  started = true;
  owed = 0;
  lost = 0;
  final = 0;
  awake = 0;
  left = 0;
  gave_up = 0;
  taken = [];
  ran_here = [];
}

-- One step of any thread; the index lists the tasks that were put before and after it.
pub data Step (p : Pool) (sub : List ℕ) (q : Pool) (sub' : List ℕ) : Type 0 where
  do_put : (first : Bool) (t : ℕ) → q ≡ put first t p → sub' ≡ t ∷ sub → Step p sub q sub'
  do_post : (answer : Err) → 0 < p.owed → q ≡ (post answer p).1 → sub' ≡ sub → Step p sub q sub'
  do_wait :
      (answer : Err)
      → (answer ≡ ok → 0 < p.sem)
      → q ≡ wait answer p
      → sub' ≡ sub
      → Step p sub q sub'
  do_pop : 0 < p.awake → q ≡ pop p → sub' ≡ sub → Step p sub q sub'
  do_fini : (posts : ℕ) → p.shutdown ≡ false → q ≡ fini posts p → sub' ≡ sub → Step p sub q sub'

pub data Reach (p : Pool) : Pool → List ℕ → Type 0 where
  here : Reach p p []
  next : {q r : Pool} {sub sub' : List ℕ} → Reach p q sub → Step q sub r sub' → Reach p r sub'

-- Each task waits or was taken, and each waiting task has a wake-up on its way or a post that failed;
-- beyond these there are only the wake-ups of the shutdown.
pub record IsBalanced (p : Pool) (sub : List ℕ) : Type 0 where
  pub tasks : (x : ℕ) → count x p.taken + count x p.queue ≡ count x sub
  pub wakes : p.owed + p.sem + p.awake + p.left + p.lost ≡ length p.queue + p.final
  pub running : p.started ≡ true
  pub up : (if p.shutdown then 0 else p.final + p.left) ≡ 0

put-IsBalanced :
    (p : Pool) (sub : List ℕ) (first : Bool) (t : ℕ)
    → IsBalanced p sub
    → IsBalanced (put first t p) (t ∷ sub)
unfolding put
put-IsBalanced p sub true t v = record {
  tasks = λ x. omega (arith, v.tasks x);
  wakes = ground (arith, v.wakes);
  running = v.running;
  up = v.up;
}
put-IsBalanced p sub false t v = record {
  tasks = λ x. ground (arith, v.tasks x, count-append x p.queue (t ∷ []));
  wakes = ground (arith, v.wakes, length-append p.queue (t ∷ []));
  running = v.running;
  up = v.up;
}

popped-IsBalanced :
    (p : Pool) (sub l : List ℕ)
    → p.queue ≡ l
    → 0 < p.awake
    → IsBalanced p sub
    → IsBalanced (popped p l) sub
popped-IsBalanced p sub [] e some_awake v = record {
  tasks = v.tasks;
  wakes = ground (arith, v.wakes);
  running = v.running;
  up = ground (arith, v.wakes, v.up, ap length e);
}
popped-IsBalanced p sub (t ∷ rest) e some_awake v = record {
  tasks = λ x. ground (arith, v.tasks x, ap (count x) e, count-append x p.taken (t ∷ []));
  wakes = ground (arith, v.wakes, ap length e);
  running = v.running;
  up = v.up;
}

same_queue :
    (p q : Pool) (sub : List ℕ)
    → q.queue ≡ p.queue
    → q.taken ≡ p.taken
    → q.owed + q.sem + q.awake + q.left + q.lost ≡ p.owed + p.sem + p.awake + p.left + p.lost
    → q.final ≡ p.final
    → q.left ≡ p.left
    → q.shutdown ≡ p.shutdown
    → q.started ≡ p.started
    → IsBalanced p sub
    → IsBalanced q sub
same_queue p q sub queue taken wakes final left shutdown started v = record {
  tasks = λ x. ap₂ (λ k l. count x k + count x l) taken queue ∙ v.tasks x;
  wakes = omega (arith, wakes, v.wakes, final, ap (length {A = ℕ}) queue);
  running = started ∙ v.running;
  up = ground (arith, v.up, final, left, shutdown);
}

post-IsBalanced :
    (p : Pool) (sub : List ℕ) (answer : Err)
    → 0 < p.owed
    → IsBalanced p sub
    → IsBalanced (post answer p).1 sub
unfolding post
post-IsBalanced p sub ok h v = same_queue p _ sub refl refl (omega arith) refl refl refl refl v
post-IsBalanced p sub _ h v = same_queue p _ sub refl refl (omega arith) refl refl refl refl v

wait-IsBalanced :
    (p : Pool) (sub : List ℕ) (answer : Err)
    → (answer ≡ ok → 0 < p.sem)
    → IsBalanced p sub
    → IsBalanced (wait answer p) sub
unfolding wait
wait-IsBalanced p sub ok h v =
    same_queue p _ sub refl refl (omega (arith, h refl)) refl refl refl refl v
wait-IsBalanced p sub _ h v = same_queue p _ sub refl refl refl refl refl refl refl v

Step-IsBalanced :
    (p q : Pool) (sub sub' : List ℕ) → Step p sub q sub' → IsBalanced p sub → IsBalanced q sub'
unfolding pop fini
Step-IsBalanced p q sub sub' (do_put first t e e') v = rw (e, e') (put-IsBalanced p sub first t v)
Step-IsBalanced p q sub sub' (do_post answer some_owed e e') v =
    rw (e, e') (post-IsBalanced p sub answer some_owed v)
Step-IsBalanced p q sub sub' (do_wait answer some_sem e e') v =
    rw (e, e') (wait-IsBalanced p sub answer some_sem v)
Step-IsBalanced p q sub sub' (do_pop some_awake e e') v =
    rw (e, e') (popped-IsBalanced p sub p.queue refl some_awake v)
Step-IsBalanced p q sub sub' (do_fini posts alive e e') v =
    rw (e, e', v.running)
      (record { tasks = v.tasks; wakes = ground (arith, v.wakes); running = refl; up = refl })

Reach-IsBalanced :
    {n : ℕ} {ids : List ℕ} {p : Pool} {sub : List ℕ} → Reach (fresh n ids) p sub → IsBalanced p sub
Reach-IsBalanced here = record { tasks = λ x. refl; wakes = refl; running = refl; up = refl }
Reach-IsBalanced (next {q} {r} {sub} {sub'} way st) =
    Step-IsBalanced q r sub sub' st (Reach-IsBalanced way)

-- Whatever the callers, the workers and the shutdown do, in any order: each task that was put is
-- either still in the queue or was taken, and by one worker only.
pub taken_once :
    {n : ℕ} {ids : List ℕ} {p : Pool} {sub : List ℕ} (x : ℕ)
    → Reach (fresh n ids) p sub
    → count x p.taken + count x p.queue ≡ count x sub
taken_once x way = (Reach-IsBalanced way).tasks x

-- Whatever posts and waits fail, before the shutdown no worker leaves for want of a task (one whose
-- wait fails does leave), and each waiting task has exactly one wake-up on its way,
-- or its post failed: the posts that are owed or failed, the count of the semaphore and the workers
-- that are awake are together as many as the waiting tasks.
pub wakes_balanced :
    {n : ℕ} {ids : List ℕ} {p : Pool} {sub : List ℕ}
    → Reach (fresh n ids) p sub
    → p.shutdown ≡ false
    → (p.left ≡ 0) × (p.owed + p.sem + p.awake + p.lost ≡ length p.queue)
wakes_balanced way alive = ground (arith, (Reach-IsBalanced way).wakes, (Reach-IsBalanced way).up)
