-- ===== src/DungeonManager/Calls.antt =====
-- Every call of the dungeon manager keeps its tables in agreement.
use dnf_mock_server_client.Prelude.{
  ℕ, nat_eq, ◌≡◌, inl, inr, true, [], ◌∷◌, arith, if◌then◌else◌, Option-cases, ◌+◌, List, ◌<◌,
  u64_mod, ◌≤◌, length,
}
use dnf_mock_server_client.Map.{find, assign}
use dnf_mock_server_client.Map.Laws.{find-assign}
use dnf_mock_server_client.Dungeon.Progress.{finish, is_running}
use dnf_mock_server_client.DungeonManager.{
  DungeonManager, find_dungeon_of, Float, DungeonCatalog, create_dungeon, EnemyCatalog,
  PartyManager, stop, new_manager,
}
use dnf_mock_server_client.DungeonManager.Sessions.{
  enter_dungeons, register_player_session, reconnect_in, rollback_player_reconnect,
  disconnect_player_session,
}
use dnf_mock_server_client.DungeonManager.Lifetime.{
  finish_dungeon, sweep_abandoned_participants, start_dungeon, cancel_dungeon, drop_dungeon,
}
use dnf_mock_server_client.DungeonManager.Ids.{ids_of, finish-ids_of}
use dnf_mock_server_client.DungeonManager.Sweep.{sweep_abandoned_participants-Inv}
use dnf_mock_server_client.DungeonManager.Invariant.{
  new_manager-Inv, stop-Inv, cancel_dungeon-Inv, start_dungeon-Inv, rollback_player_reconnect-Inv,
  disconnect_player_session-Inv, Inv, replaced_instance, drop_dungeon-Inv,
}
use dnf_mock_server_client.DungeonManager.LogIn.{register_player_session-Inv}
use dnf_mock_server_client.DungeonManager.Creation.{create_dungeon-Inv}

module _ {R : Type 0} (m : DungeonManager R) (v : Inv m) where
  pub finish_dungeon-Inv : (id : ℕ) → Inv (finish_dungeon m id).0
  unfolding finish_dungeon
  finish_dungeon-Inv id = elim (Option-cases (find id m.dungeons)) [
    | inl missing ↦ ground (arith, v)
    | inr (i, found) ↦
        let ended = if is_running i.state then finish i else (i, true) in
        let same : ids_of ended.0 ≡ ids_of i = ground (arith, finish-ids_of i) in
        let w =
          replaced_instance m v id i ended.0 m.authenticated_players m.active_player_sessions found
            same v.logged_in in
        ground (
          arith,
          w,
          drop_dungeon-Inv (record m { dungeons = assign id ended.0 m.dungeons }) w id ended.0
              (ground (arith, find-assign id id ended.0 m.dungeons)),
        )
  ]

-- Only the creation of a dungeon gives out an id.
module _ {R : Type 0} (m : DungeonManager R) where
  abbrev NextKept : DungeonManager R → Type 0
  NextKept n = n.next_dungeon_id ≤ m.next_dungeon_id + 1

  register_player_session-next :
      (session player now grace : ℕ)
      → NextKept (register_player_session m session player now grace).0
  unfolding register_player_session enter_dungeons
  register_player_session-next session player now grace =
      elim (Option-cases (find_dungeon_of m.dungeons session)) [
        | inr ((id, i), home) ↦ ground arith
        | inl away ↦ elim (Option-cases (reconnect_in m.dungeons player session now grace).1) [
          | inl nowhere ↦ ground arith
          | inr ((id, r), back) ↦ ground arith
        ]
      ]

  rollback_player_reconnect-next :
      (id player new replaced at : ℕ)
      → NextKept (rollback_player_reconnect m id player new replaced at).0
  unfolding rollback_player_reconnect
  rollback_player_reconnect-next id player new replaced at = ground arith

  disconnect_player_session-next :
      (session at : ℕ) → NextKept (disconnect_player_session m session at).0
  unfolding disconnect_player_session
  disconnect_player_session-next session at = ground arith

  sweep_abandoned_participants-next :
      (now grace lifetime : ℕ) → NextKept (sweep_abandoned_participants m now grace lifetime).0
  unfolding sweep_abandoned_participants
  sweep_abandoned_participants-next now grace lifetime = ground arith

  start_dungeon-next : (enemies : EnemyCatalog R) (id : ℕ) → NextKept (start_dungeon enemies m id).0
  unfolding start_dungeon
  start_dungeon-next enemies id = ground arith

  cancel_dungeon-next : (id : ℕ) → NextKept (cancel_dungeon m id).0
  unfolding cancel_dungeon drop_dungeon
  cancel_dungeon-next id = ground arith

  finish_dungeon-next : (id : ℕ) → NextKept (finish_dungeon m id).0
  unfolding finish_dungeon drop_dungeon
  finish_dungeon-next id = ground arith

  stop-next : NextKept (stop m)
  unfolding stop
  stop-next = ground arith

module _ {R : Type 0} ⦃f : Float R⦄ (catalog : DungeonCatalog R) (enemies : EnemyCatalog R) where
  -- The calls of the manager; the party manager may be any when a dungeon is created.
  pub data Call : Type 0 where
    create : PartyManager → ℕ → ℕ → ℕ → Call
    register : ℕ → ℕ → ℕ → ℕ → Call
    rollback : ℕ → ℕ → ℕ → ℕ → ℕ → Call
    disconnect : ℕ → ℕ → Call
    sweep : ℕ → ℕ → ℕ → Call
    begin cancel complete : ℕ → Call
    shut_down : Call

  unfoldable pub step : DungeonManager R → Call → DungeonManager R
  step m (create parties party_id template_id now) =
      (create_dungeon parties catalog m party_id template_id now).0
  step m (register session player now grace) =
      (register_player_session m session player now grace).0
  step m (rollback id player new replaced at) =
      (rollback_player_reconnect m id player new replaced at).0
  step m (disconnect session at) = (disconnect_player_session m session at).0
  step m (sweep now grace lifetime) = (sweep_abandoned_participants m now grace lifetime).0
  step m (begin id) = (start_dungeon enemies m id).0
  step m (cancel id) = (cancel_dungeon m id).0
  step m (complete id) = (finish_dungeon m id).0
  step m shut_down = stop m

  unfoldable pub run : DungeonManager R → List Call → DungeonManager R
  run m [] = m
  run m (c ∷ cs) = run (step m c) cs

  step-Inv :
      (m : DungeonManager R) (c : Call)
      → Inv m
      → m.next_dungeon_id + 1 < u64_mod
      → Inv (step m c) × ((step m c).next_dungeon_id ≤ m.next_dungeon_id + 1)
  unfolding step
  step-Inv m (create parties party_id template_id now) v room =
      create_dungeon-Inv m v parties catalog party_id template_id now room
  step-Inv m (register session player now grace) v room = (
    register_player_session-Inv m v session player now grace,
    register_player_session-next m session player now grace,
  )
  step-Inv m (rollback id player new replaced at) v room = (
    rollback_player_reconnect-Inv m v id player new replaced at,
    rollback_player_reconnect-next m id player new replaced at,
  )
  step-Inv m (disconnect session at) v room =
      (disconnect_player_session-Inv m v session at, disconnect_player_session-next m session at)
  step-Inv m (sweep now grace lifetime) v room = (
    sweep_abandoned_participants-Inv m v now grace lifetime,
    sweep_abandoned_participants-next m now grace lifetime,
  )
  step-Inv m (begin id) v room = (start_dungeon-Inv m v enemies id, start_dungeon-next m enemies id)
  step-Inv m (cancel id) v room = (cancel_dungeon-Inv m v id, cancel_dungeon-next m id)
  step-Inv m (complete id) v room = (finish_dungeon-Inv m v id, finish_dungeon-next m id)
  step-Inv m shut_down v room = (stop-Inv m v, stop-next m)

  run_from :
      (m : DungeonManager R) (cs : List Call)
      → Inv m
      → m.next_dungeon_id + length cs < u64_mod
      → Inv (run m cs)
  unfolding run
  run_from m [] v room = v
  run_from m (c ∷ cs) v room =
      let (w, next) = step-Inv m c v (omega arith) in run_from (step m c) cs w (omega arith)

  -- After any sequence of calls on a new manager, fewer than 2 ^ 64 - 1 of them: every dungeon
  -- stands under its own id, and its party leads to it; every party in the table leads to a dungeon
  -- of its own, so that a party is in one dungeon at most; a player is logged in with one session
  -- at most; and a manager that was stopped has no dungeon.
  pub manager_run-Inv : (cs : List Call) → length cs + 1 < u64_mod → Inv (run new_manager cs)
  unfolding new_manager
  manager_run-Inv cs room = run_from new_manager cs new_manager-Inv (omega arith)
