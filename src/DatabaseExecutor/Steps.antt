-- ===== src/DatabaseExecutor/Steps.antt =====
-- Each operation keeps the counters of the executor true.
use dnf_mock_server_client.Prelude.{
  ℕ, zero, suc, nat_eq, ◌+◌, ◌-◌, ◌%◌, ◌≤◌, ◌<◌, ◌≡◌, refl, inl, inr, Bool, true, false, ◌&&◌,
  Option, none, some, List, [], ◌∷◌, ◌++◌, arith, ◌==◌, if◌then◌else◌, Bool-cases, length,
  length-append, u64_mod,
}
use dnf_mock_server_client.Prelude.{List-cases}
use dnf_mock_server_client.DatabaseExecutor.{
  Executor, up, reject, count_accepted, uncount, try_post, begin_task, remove_at, end_task,
  begin_drain, end_drain,
}

-- The counters tell the truth about the pool, and the limits are kept.
pub record Inv (x : Executor) : Type 0 where
  pub depth : x.stats.queue_depth ≡ length x.waiting
  pub active : x.stats.active_tasks ≡ length x.running
  pub bounded : x.stats.queue_depth ≤ x.max_queued_tasks
  pub busy : x.stats.active_tasks ≤ x.workers
  pub peak :
      (x.stats.queue_depth ≤ x.stats.peak_queue_depth)
      × (x.stats.peak_queue_depth ≤ x.max_queued_tasks)
  pub balance :
      x.stats.accepted_tasks
      ≡ (x.stats.completed_tasks + x.stats.active_tasks + x.stats.queue_depth) % u64_mod
  pub shown : x.stats.accepting_tasks ≡ x.accepting
  pub closed : x.stopping ≡ true → x.accepting ≡ false
  pub empty : x.joined ≡ true → (x.stopping ≡ true) × (length x.waiting + length x.running ≡ 0)
  pub workers : 0 < x.workers

pub length-remove_at :
    (i : ℕ) (xs : List ℕ) → i < length xs → length (remove_at i xs) + 1 ≡ length xs
unfolding remove_at
length-remove_at i [] h = absurd (omega arith)
length-remove_at zero (x ∷ xs) h = omega arith
length-remove_at (suc i) (x ∷ xs) h = omega (arith, length-remove_at i xs (omega arith))

module _ (x : Executor) (v : Inv x) where
  reject-Inv : Inv (reject x)
  unfolding reject
  reject-Inv = record {
    depth = v.depth;
    active = v.active;
    bounded = v.bounded;
    busy = v.busy;
    peak = v.peak;
    balance = v.balance;
    shown = v.shown;
    closed = v.closed;
    empty = v.empty;
    workers = v.workers;
  }

  posted :
      (t : ℕ)
      → x.accepting ≡ true
      → x.stats.queue_depth < x.max_queued_tasks
      → Inv (record (count_accepted x) { waiting = x.waiting ++ t ∷ [] })
  unfolding count_accepted
  posted t serving room = record {
    depth = omega (arith, v.depth, length-append x.waiting (t ∷ []));
    active = v.active;
    bounded = omega arith;
    busy = v.busy;
    peak = ground (arith, v.peak);
    balance = omega (arith, v.balance);
    shown = v.shown;
    closed = v.closed;
    empty = λ h. absurd (ground (arith, v.empty h, v.closed));
    workers = v.workers;
  }

  taken_back :
      x.accepting ≡ true
      → x.stats.queue_depth < x.max_queued_tasks
      → Inv (uncount (count_accepted x))
  unfolding count_accepted uncount
  taken_back serving room = record {
    depth = omega (arith, v.depth);
    active = v.active;
    bounded = omega (arith, v.bounded);
    busy = v.busy;
    peak = ground (arith, v.peak);
    balance = omega (arith, v.balance);
    shown = v.shown;
    closed = v.closed;
    empty = v.empty;
    workers = v.workers;
  }

  pub try_post-Inv : (task : Option ℕ) (taken : Bool) → Inv (try_post x task taken).0
  unfolding try_post
  try_post-Inv none taken = v
  try_post-Inv (some t) taken = ground (arith, v, reject-Inv, posted t, taken_back)

  begun :
      (t : ℕ) (ts : List ℕ)
      → x.waiting ≡ t ∷ ts
      → length x.running < x.workers
      → Inv (record x {
        waiting = ts;
        running = t ∷ x.running;
        stats = record x.stats {
          queue_depth = x.stats.queue_depth - 1;
          active_tasks = x.stats.active_tasks + 1;
        };
      })
  begun t ts front free =
      let count : length x.waiting ≡ length ts + 1 = ground arith in
      record {
        depth = omega (arith, v.depth, count);
        active = omega (arith, v.active);
        bounded = omega (arith, v.bounded);
        busy = omega (arith, v.active);
        peak = omega (arith, v.peak);
        balance = omega (arith, v.balance, v.depth, count);
        shown = v.shown;
        closed = v.closed;
        empty = λ h. absurd (omega (arith, v.empty h, count));
        workers = v.workers;
      }

  pub begin_task-Inv : Inv (begin_task x)
  unfolding begin_task
  begin_task-Inv = elim (List-cases x.waiting) [
    | inl idle ↦ ground (arith, v)
    | inr (t, ts, front) ↦ ground (arith, v, begun t ts front)
  ]

  ended :
      (i : ℕ) (failed : Bool)
      → i < length x.running
      → Inv (record x {
        running = remove_at i x.running;
        stats = record x.stats {
          active_tasks = x.stats.active_tasks - 1;
          completed_tasks = up x.stats.completed_tasks;
          failed_tasks = if failed then up x.stats.failed_tasks else x.stats.failed_tasks;
        };
      })
  ended i failed there =
      let fewer = length-remove_at i x.running there in
      record {
        depth = v.depth;
        active = omega (arith, v.active, fewer);
        bounded = v.bounded;
        busy = omega (arith, v.busy);
        peak = v.peak;
        balance = omega (arith, v.balance, v.active);
        shown = v.shown;
        closed = v.closed;
        empty = λ h. absurd (omega (arith, v.empty h));
        workers = v.workers;
      }

  pub end_task-Inv : (i : ℕ) (failed : Bool) → Inv (end_task x i failed)
  unfolding end_task
  end_task-Inv i failed = ground (arith, v, ended i failed)

  pub begin_drain-Inv : Inv (begin_drain x)
  unfolding begin_drain
  begin_drain-Inv =
      let shut : Inv (record x {
        accepting = false;
        stopping = true;
        stats = record x.stats { accepting_tasks = false };
      }) =
        record {
          depth = v.depth;
          active = v.active;
          bounded = v.bounded;
          busy = v.busy;
          peak = v.peak;
          balance = v.balance;
          shown = refl;
          closed = λ h. refl;
          empty = λ h. (refl, (v.empty h).1);
          workers = v.workers;
        } in
      ground (arith, v, shut)

  pub end_drain-Inv : Inv (end_drain x)
  unfolding end_drain
  end_drain-Inv = elim (Bool-cases (x.stopping && length x.waiting == 0 && length x.running == 0)) [
    | inr busy ↦ ground (arith, v)
    | inl done ↦
        let over : Inv (record x { joined = true }) = record {
          depth = v.depth;
          active = v.active;
          bounded = v.bounded;
          busy = v.busy;
          peak = v.peak;
          balance = v.balance;
          shown = v.shown;
          closed = v.closed;
          empty = λ h. (ground arith, ground arith);
          workers = v.workers;
        } in
        ground (arith, over)
  ]
