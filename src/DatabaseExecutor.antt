-- ===== src/DatabaseExecutor.antt =====
-- The bounded queue of database tasks: include/DatabaseExecutor.h and src/DatabaseExecutor.cpp. The
-- thread pool is the list of the tasks that wait in it and the list of those that its workers run;
-- a task is a number. Each piece of code under a mutex is one operation.
pub mod Steps
pub mod Calls
use dnf_mock_server_client.Prelude.{
  ℕ, zero, suc, nat_eq, ◌+◌, ◌-◌, ◌%◌, Bool, true, false, ◌&&◌, ◌||◌, not, Option, none, some, List,
  [], ◌∷◌, ◌++◌, ltb, leb, ◌==◌, if◌then◌else◌, length, u64_mod,
}
use dnf_mock_server_client.Prelude.Except.{Except, ok, err, ◌>>=◌, ◌>>◌}

pub data ExecutorError : Type 0 where
  no_workers no_queue empty_task post_failed queue_full : ExecutorError

pub record ExecutorStats : Type 0 where
  pub accepting_tasks : Bool
  pub queue_depth : ℕ
  pub active_tasks : ℕ
  pub peak_queue_depth : ℕ
  pub accepted_tasks : ℕ  -- uint64, as the next three
  pub rejected_tasks : ℕ
  pub completed_tasks : ℕ
  pub failed_tasks : ℕ

pub record Executor : Type 0 where
  pub max_queued_tasks : ℕ
  pub workers : ℕ
  pub accepting : Bool
  pub stopping : Bool
  pub joined : Bool
  pub stats : ExecutorStats
  pub waiting : List ℕ
  pub running : List ℕ

-- ++ and -- on 64 bits.
abbrev pub up : ℕ → ℕ
up n = (n + 1) % u64_mod

abbrev pub down : ℕ → ℕ
down n = (n + u64_mod - 1) % u64_mod

unfoldable pub new_executor : ℕ → ℕ → Except ExecutorError Executor
new_executor workers max_queued =
    if max_queued == 0
    then err ExecutorError.no_queue
    else if workers == 0
    then err ExecutorError.no_workers
    else ok (record {
      max_queued_tasks = max_queued;
      workers = workers;
      accepting = true;
      stopping = false;
      joined = false;
      stats = record {
        accepting_tasks = true;
        queue_depth = 0;
        active_tasks = 0;
        peak_queue_depth = 0;
        accepted_tasks = 0;
        rejected_tasks = 0;
        completed_tasks = 0;
        failed_tasks = 0;
      };
      waiting = [];
      running = [];
    })

unfoldable pub reject : Executor → Executor
reject x = record x { stats = record x.stats { rejected_tasks = up x.stats.rejected_tasks } }

-- The counters before the task is posted.
unfoldable pub count_accepted : Executor → Executor
count_accepted x = record x {
  stats = record x.stats {
    queue_depth = x.stats.queue_depth + 1;
    accepted_tasks = up x.stats.accepted_tasks;
    peak_queue_depth =
        if ltb x.stats.peak_queue_depth (x.stats.queue_depth + 1)
        then x.stats.queue_depth + 1
        else x.stats.peak_queue_depth;
  };
}

-- The handler of an exception of `boost::asio::post`.
unfoldable pub uncount : Executor → Executor
uncount x = record x {
  stats = record x.stats {
    queue_depth = x.stats.queue_depth - 1;
    accepted_tasks = down x.stats.accepted_tasks;
    rejected_tasks = up x.stats.rejected_tasks;
  };
}

-- Whether the pool takes the task is an argument.
unfoldable pub try_post : Executor → Option ℕ → Bool → Executor × Except ExecutorError Bool
unfolding reject count_accepted uncount
try_post x task taken = elim task [
  | none ↦ (x, err ExecutorError.empty_task)
  | some t ↦
      if not x.accepting
      then (reject x, ok false)
      else if leb x.max_queued_tasks x.stats.queue_depth
      then (reject x, ok false)
      else let counted = count_accepted x in
        if taken
        then (record counted { waiting = counted.waiting ++ t ∷ [] }, ok true)
        else (uncount counted, err ExecutorError.post_failed)
]

unfoldable pub post : Executor → Option ℕ → Bool → Executor × Except ExecutorError (Unit {0})
unfolding try_post
post x task taken =
    let tried = try_post x task taken in
    (tried.0, tried.1 >>= λ accepted. if accepted then ok tt else err ExecutorError.queue_full)

-- A free worker takes the first task: the counters before `task()`. The depth of the queue, a
-- std::size_t in the code, counts that task.
unfoldable pub begin_task : Executor → Executor
begin_task x = elim x.waiting [
  | [] ↦ x
  | t ∷ ts ↦ if leb x.workers (length x.running) then x else record x {
    waiting = ts;
    running = t ∷ x.running;
    stats = record x.stats {
      queue_depth = x.stats.queue_depth - 1;
      active_tasks = x.stats.active_tasks + 1;
    };
  }
]

-- The task at a place of the list ends, and may have thrown: the counters after `task()`.
unfoldable pub remove_at : ℕ → List ℕ → List ℕ
remove_at i [] = []
remove_at zero (t ∷ ts) = ts
remove_at (suc i) (t ∷ ts) = t ∷ remove_at i ts

unfoldable pub end_task : Executor → ℕ → Bool → Executor
unfolding remove_at
end_task x i failed = if leb (length x.running) i then x else record x {
  running = remove_at i x.running;
  stats = record x.stats {
    active_tasks = x.stats.active_tasks - 1;
    completed_tasks = up x.stats.completed_tasks;
    failed_tasks = if failed then up x.stats.failed_tasks else x.stats.failed_tasks;
  };
}

-- The first two blocks of `DrainAndStop`.
unfoldable pub begin_drain : Executor → Executor
begin_drain x = if x.joined || x.stopping then x else record x {
  accepting = false;
  stopping = true;
  stats = record x.stats { accepting_tasks = false };
}

-- `join` returns when no task waits or runs; then the last block.
unfoldable pub end_drain : Executor → Executor
end_drain x =
    if x.stopping && length x.waiting == 0 && length x.running == 0
    then record x { joined = true }
    else x
