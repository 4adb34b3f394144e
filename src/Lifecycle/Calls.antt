-- ===== src/Lifecycle/Calls.antt =====
-- Any calls of the lifecycle service.
use dnf_mock_server_client.Prelude.{ℕ, nat_eq, List, [], ◌∷◌}
use dnf_mock_server_client.Lifecycle.{
  Service, register_session, disconnect_session, sweep, cancel_waiting, complete,
}
use dnf_mock_server_client.Lifecycle.Agreement.{Agree, register_session-Agree}
use dnf_mock_server_client.Lifecycle.Removal.{disconnect_session-Agree, sweep-Agree}
use dnf_mock_server_client.Lifecycle.Endings.{cancel_waiting-Agree, complete-Agree}

pub data Call : Type 0 where
  log_in : List ℕ → ℕ → ℕ → ℕ → ℕ → Call
  log_out : ℕ → ℕ → Call
  sweep_all : ℕ → ℕ → ℕ → Call
  cancel end : ℕ → Call

module _ {E R : Type 0} where
  unfoldable pub step : Service E R → Call → Service E R
  step l (log_in drawn session player now later) =
      (register_session l drawn session player now later).0
  step l (log_out session now) = (disconnect_session l session now).0
  step l (sweep_all now grace lifetime) = (sweep l now grace lifetime).0
  step l (cancel id) = (cancel_waiting l id).0
  step l (end id) = (complete l id).0

  unfoldable pub run : Service E R → List Call → Service E R
  run l [] = l
  run l (c ∷ cs) = run (step l c) cs

  step-Agree : (l : Service E R) (c : Call) → Agree l → Agree (step l c)
  unfolding step
  step-Agree l (log_in drawn session player now later) v =
      (register_session-Agree l v drawn session player now later).0
  step-Agree l (log_out session now) v = disconnect_session-Agree l v session now
  step-Agree l (sweep_all now grace lifetime) v = sweep-Agree l v now grace lifetime
  step-Agree l (cancel id) v = cancel_waiting-Agree l v id
  step-Agree l (end id) v = complete-Agree l v id

  -- Tokens and participants stay in agreement whatever is called: after any log-ins, whichever
  -- tokens are drawn, disconnections, sweeps, cancellations and ends, each UDP session belongs to a
  -- dungeon of the manager, and the sessions with a token there are exactly its participants.
  pub service_run-Agree : (l : Service E R) (cs : List Call) → Agree l → Agree (run l cs)
  unfolding run
  service_run-Agree l [] v = v
  service_run-Agree l (c ∷ cs) v = service_run-Agree (step l c) cs (step-Agree l c v)
