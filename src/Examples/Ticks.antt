-- ===== src/Examples/Ticks.antt =====
-- An executor of two workers, the clock of the ticks, and a tick of the server of `Services`.
use dnf_mock_server_client.Prelude.{
  ℕ, nat_eq, ◌+◌, ◌-◌, ◌*◌, ◌/◌, ◌%◌, ◌≤◌, ◌<◌, ◌≡◌, refl, ◌⊎◌, true, false, some, List, [], ◌∷◌,
  if◌then◌else◌, length, All, u64_mod,
}
use dnf_mock_server_client.Prelude.Except.{ok}
use dnf_mock_server_client.Map.{Map, find}
use dnf_mock_server_client.DatabaseExecutor.{try_post, begin_task, end_task, begin_drain}
use dnf_mock_server_client.DatabaseExecutor.{Executor, new_executor}
use dnf_mock_server_client.DatabaseExecutor.Steps as ExecutorSteps
use dnf_mock_server_client.DatabaseExecutor.Calls as ExecutorCalls
use dnf_mock_server_client.DatabaseExecutor.Calls.{
  executor_run-Inv, drain-progress, work, is_possible,
}
use dnf_mock_server_client.TickService.{
  TickClock, TickState, tick_interval, max_catch_up_ticks, advance_deadline, tick_waiting,
  tick_finished,
}
use dnf_mock_server_client.TickService.Deadline.{advance_deadline_lem}
use dnf_mock_server_client.TickService.Waiting.{tick-Agree}
use dnf_mock_server_client.DungeonUdpManager.{pending_attack_count}
use dnf_mock_server_client.UdpSession.{UdpSession, new_session}
use dnf_mock_server_client.Lifecycle.Agreement.{Agree}
use dnf_mock_server_client.Combat.{Strength, PendingSkillHit, resolve_hits}
use dnf_mock_server_client.Combat.Pending.{Waits, resolve_hits-Waits}
use dnf_mock_server_client.Combat.Process.{Fight, drain_attacks, drain_attacks-empty}
use dnf_mock_server_client.SkillCatalog.{SkillTemplate}
use dnf_mock_server_client.Examples.{nat_float}
use dnf_mock_server_client.Examples.Dungeons.{fresh}
use dnf_mock_server_client.Examples.Services.{server, server-Agree, no_enemies}

abbrev pool : Executor
pool = record {
  max_queued_tasks = 3;
  workers = 2;
  accepting = true;
  stopping = false;
  joined = false;
  stats = record {
    accepting_tasks = true;
    queue_depth = 0;
    active_tasks = 0;
    peak_queue_depth = 0;
    accepted_tasks = 0;
    rejected_tasks = 0;
    completed_tasks = 0;
    failed_tasks = 0;
  };
  waiting = [];
  running = [];
}

pool_made : new_executor 2 3 ≡ ok pool
unfolding new_executor
pool_made = refl

abbrev pool_calls : List ExecutorCalls.Call
pool_calls =
    ExecutorCalls.submit (some 10) true
    ∷ ExecutorCalls.submit (some 11) true
    ∷ ExecutorCalls.begin
    ∷ ExecutorCalls.submit (some 12) false
    ∷ ExecutorCalls.end 0 true
    ∷ ExecutorCalls.drain
    ∷ []

executor_run-Inv_example : ExecutorSteps.Inv (ExecutorCalls.run pool pool_calls)
executor_run-Inv_example = executor_run-Inv 2 3 pool pool_calls pool_made

abbrev draining : Executor
draining = ExecutorCalls.run pool pool_calls

draining-Inv : ExecutorSteps.Inv draining
draining-Inv = executor_run-Inv 2 3 pool pool_calls pool_made

drain-progress_example :
    (work (ExecutorCalls.step draining ExecutorCalls.begin)
        + (if is_possible draining ExecutorCalls.begin then 1 else 0)
      ≡ work draining)
    × ((ExecutorCalls.step draining ExecutorCalls.begin).stopping ≡ true)
    × (((work draining ≡ 0) × ((ExecutorCalls.step draining ExecutorCalls.wait).joined ≡ true))
        ⊎ ((is_possible draining ExecutorCalls.begin ≡ true)
            ⊎ (is_possible draining (ExecutorCalls.end 0 false) ≡ true)))
unfolding ExecutorCalls.run ExecutorCalls.step try_post begin_task end_task begin_drain
drain-progress_example = drain-progress draining ExecutorCalls.begin draining-Inv refl

abbrev clock : TickClock
clock = record { next_tick = 1000000000; missed_tick_count = 4 }

advance_deadline_lem_example :
    let after = advance_deadline clock 2000000000 in
    let skipped = (after.next_tick - clock.next_tick) / tick_interval - 1 in
    (after.next_tick ≡ clock.next_tick + tick_interval * (1 + skipped))
    × ((after.missed_tick_count ≡ (clock.missed_tick_count + skipped) % u64_mod)
        ⊎ ((after.missed_tick_count ≡ clock.missed_tick_count) × (skipped ≡ 0)))
    × (2000000000 < after.next_tick + tick_interval * max_catch_up_ticks)
    × ((skipped ≡ 0) ⊎ (after.next_tick + tick_interval ≤ 2000000000))
advance_deadline_lem_example = advance_deadline_lem clock 2000000000

-- Dungeon 1 of the server waits since the time 1000.
abbrev ticking : TickState ℕ ℕ
ticking = record { service = server; waiting_since = (1, 1000) ∷ []; finished_since = [] }

tick-Agree_example :
    Agree (tick_waiting no_enemies 12000 10000 ticking).0.service
    × Agree (tick_finished 12000 ticking).service
tick-Agree_example = tick-Agree no_enemies 12000 10000 ticking server-Agree

abbrev strength : Strength ℕ
strength = record { base_attack = 40; to_hit_points = λ x. x }

abbrev slash : SkillTemplate ℕ
slash = record {
  id = 1;
  name = "slash";
  cooldown_ticks = 30;
  mana_cost = 5;
  startup_ticks = 2;
  active_ticks = 1;
  recovery_ticks = 3;
  hit_box = record { forward_range = 10; backward_range = 1; half_depth = 5; height = 5 };
  effects = [];
}

abbrev slashes : Map ℕ (PendingSkillHit ℕ)
slashes = (5, record { skill = slash; direction_x = 1; direction_y = 0 }) ∷ []

resolve_hits-Waits_example :
    let after = resolve_hits strength slashes fresh in
    (after.0.players ≡ fresh.players) × All (Waits strength fresh) after.1 × (length after.1 ≤ 1)
resolve_hits-Waits_example = resolve_hits-Waits strength slashes fresh

abbrev attacked : UdpSession ℕ ℕ
attacked = record (new_session 7 ((5, 70) ∷ [])) {
  pending_attacks =
      record {
        session_id = 5;
        attack = record {
          dungeon_id = 7;
          sequence = 1;
          skill_id = 1;
          direction_x = 1;
          direction_y = 0;
        };
      }
      ∷ [];
}

abbrev fought : Fight ℕ ℕ
fought = record {
  udp = record { sessions = (7, attacked) ∷ []; server_tick = 0; stopping = false };
  dungeon = fresh;
  hits = [];
  result = record { received_count = 0; accepted_count = 0; rejected_count = 0; hit_count = 0 };
}

drain_attacks-empty_example :
    let after = drain_attacks strength ((1, slash) ∷ []) 1 7 fought in
    (pending_attack_count after.udp 7 ≡ 0)
    × (after.result.received_count ≡ 1)
    × (after.result.accepted_count + after.result.rejected_count ≡ 1)
unfolding pending_attack_count find new_session
drain_attacks-empty_example = drain_attacks-empty strength ((1, slash) ∷ []) 1 7 fought refl
