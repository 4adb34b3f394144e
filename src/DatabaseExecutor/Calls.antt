-- ===== src/DatabaseExecutor/Calls.antt =====
-- The executor under any interleaving of callers and workers, and how it comes to its end.
use dnf_mock_server_client.Prelude.{
  ℕ, nat_eq, ◌+◌, ◌*◌, ◌≡◌, ◌⊎◌, inl, inr, Bool, true, false, ◌&&◌, Option, none, some, List, [],
  ◌∷◌, arith, ltb, if◌then◌else◌, Bool-cases, length,
}
use dnf_mock_server_client.Prelude.Except.{ok}
use dnf_mock_server_client.Prelude.{List-cases}
use dnf_mock_server_client.DatabaseExecutor.{
  Executor, new_executor, reject, try_post, begin_task, end_task, begin_drain, end_drain,
}
use dnf_mock_server_client.DatabaseExecutor.Steps.{
  Inv, length-remove_at, try_post-Inv, begin_task-Inv, end_task-Inv, begin_drain-Inv, end_drain-Inv,
}

pub data Call : Type 0 where
  submit : Option ℕ → Bool → Call
  begin drain wait : Call
  end : ℕ → Bool → Call

unfoldable pub step : Executor → Call → Executor
step x (submit task taken) = (try_post x task taken).0
step x begin = begin_task x
step x drain = begin_drain x
step x wait = end_drain x
step x (end i failed) = end_task x i failed

unfoldable pub run : Executor → List Call → Executor
run x [] = x
run x (c ∷ cs) = run (step x c) cs

step-Inv : (x : Executor) (c : Call) → Inv x → Inv (step x c)
unfolding step
step-Inv x (submit task taken) v = try_post-Inv x v task taken
step-Inv x begin v = begin_task-Inv x v
step-Inv x drain v = begin_drain-Inv x v
step-Inv x wait v = end_drain-Inv x v
step-Inv x (end i failed) v = end_task-Inv x v i failed

run_from : (x : Executor) (cs : List Call) → Inv x → Inv (run x cs)
unfolding run
run_from x [] v = v
run_from x (c ∷ cs) v = run_from (step x c) cs (step-Inv x c v)

-- Under any interleaving of callers and workers with a new executor, whether or not tasks throw and
-- the pool takes them: the counters are those of the pool, no more tasks wait than the limit, nor
-- ever did, no more run than there are workers, each accepted task is waiting, running or completed
-- (up to 2 ^ 64), and an executor that was joined has no task left.
pub executor_run-Inv :
    (workers max_queued : ℕ) (x : Executor) (cs : List Call)
    → new_executor workers max_queued ≡ ok x
    → Inv (run x cs)
unfolding new_executor
executor_run-Inv workers max_queued x cs made =
    let v : Inv x = record {
      depth = ground arith;
      active = ground arith;
      bounded = ground arith;
      busy = ground arith;
      peak = ground arith;
      balance = ground arith;
      shown = ground arith;
      closed = λ h. absurd (ground arith);
      empty = λ h. absurd (ground arith);
      workers = ground arith;
    } in
    run_from x cs v

-- The steps of the workers that are left.
abbrev pub work : Executor → ℕ
work x = 2 * length x.waiting + length x.running

-- A step that a worker can make.
abbrev pub is_possible : Executor → Call → Bool
is_possible x begin = ltb 0 (length x.waiting) && ltb (length x.running) x.workers
is_possible x (end i failed) = ltb i (length x.running)
is_possible x _ = false

-- What one call does to the work that is left in an executor that stops.
abbrev Shrinks : Executor → Call → Type 0
Shrinks x c =
    (work (step x c) + (if is_possible x c then 1 else 0) ≡ work x) × ((step x c).stopping ≡ true)

step-Shrinks : (x : Executor) (c : Call) → Inv x → x.stopping ≡ true → Shrinks x c
unfolding step try_post reject begin_task end_task begin_drain end_drain
step-Shrinks x (submit none taken) v h = ground arith
step-Shrinks x (submit (some t) taken) v h = ground (arith, v.closed h)
step-Shrinks x begin v h = elim (List-cases x.waiting) [
  | inl idle ↦ ground arith
  | inr (t, ts, front) ↦ ground arith
]
step-Shrinks x drain v h = ground arith
step-Shrinks x wait v h = ground arith
step-Shrinks x (end i failed) v h = elim (Bool-cases (ltb i (length x.running))) [
  | inl there ↦ ground (arith, length-remove_at i x.running (ground arith))
  | inr missing ↦ ground arith
]

-- An executor that satisfies the invariant and stops comes to its end: whatever is called, the steps
-- that are left for the workers do not become more, and each step that a worker can make takes one
-- away; as long as there is one left a worker can make a step, and when there is none the wait for
-- the end returns.
pub drain-progress :
    (x : Executor) (c : Call)
    → Inv x
    → x.stopping ≡ true
    → (work (step x c) + (if is_possible x c then 1 else 0) ≡ work x)
      × ((step x c).stopping ≡ true)
      × (((work x ≡ 0) × ((step x wait).joined ≡ true))
          ⊎ ((is_possible x begin ≡ true) ⊎ (is_possible x (end 0 false) ≡ true)))
unfolding step end_drain
drain-progress x c v h =
    let shrinks = step-Shrinks x c v h in (shrinks.0, shrinks.1, ground (arith, v.workers))
