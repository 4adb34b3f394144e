-- ===== src/DungeonManager/TakenBack.antt =====
-- A log-in that brought a player back and is taken back by `RollbackPlayerReconnect` of
-- src/DungeonManager.cpp.
use dnf_mock_server_client.Prelude.{
  ℕ, nat_eq, ◌≡◌, subst, inl, inr, true, none, some, arith, ◌==◌, Bool-cases,
}
use dnf_mock_server_client.Map.{Map, find, contains, assign}
use dnf_mock_server_client.Map.Laws.{find-assign, find-erase}
use dnf_mock_server_client.Dungeon.{DungeonInstance}
use dnf_mock_server_client.Dungeon.Membership.{
  reconnect_participant, rollback_participant_reconnect,
}
use dnf_mock_server_client.Dungeon.Membership.Invariant.{Inv}
use dnf_mock_server_client.Dungeon.Membership.Reconnect.{
  reconnect_participant-Inv, rollback_participant_reconnect-Inv,
}
use dnf_mock_server_client.Dungeon.Membership.Rollback.{
  rollback_participant_reconnect-reconnect_participant,
}
use dnf_mock_server_client.DungeonManager.{DungeonManager, RegisterDungeonSessionResult}
use dnf_mock_server_client.DungeonManager.Sessions.{rollback_player_reconnect, erase_if_is}
use dnf_mock_server_client.DungeonManager.Participants.{AllInv, SameParticipants}
use dnf_mock_server_client.DungeonManager.Returns.{Returned, reconnect_participant-players}

module _ {R : Type 0} (m after : DungeonManager R) (all : AllInv m.dungeons) where
  -- The dungeon table after the rollback.
  restored :
      (id : ℕ) (i k : DungeonInstance R) (ds : Map ℕ (DungeonInstance R))
      → find id m.dungeons ≡ some i
      → ((k : ℕ) → contains k ds ≡ contains k m.dungeons)
      → ((k : ℕ) → find k (assign id i ds) ≡ find k m.dungeons)
      → Inv k
      → ((s : ℕ) → contains s k.players ≡ contains s i.players)
      → SameParticipants m.dungeons (assign id k ds)
  restored id i k ds found present others v same = record {
    present = λ j. ground (arith, find-assign id j k ds, present j);
    same = λ j s. ground (arith, find-assign id j k ds, find-assign id j i ds, others j, same s);
    all = λ j o h. elim (Bool-cases (id == j)) [
      | inl here ↦ let is : k ≡ o = ground (arith, find-assign id j k ds) in subst Inv is v
      | inr there ↦ all j o (ground (arith, find-assign id j k ds, find-assign id j i ds, others j))
    ];
  }

  -- The rollback succeeds: the participants of all dungeons are as before the log-in, and the
  -- player and the session are logged out.
  pub rollback_player_reconnect-Returned :
      (result : RegisterDungeonSessionResult) (player session now grace : ℕ)
      (b : Returned m after result player session now grace)
      → let back =
          rollback_player_reconnect after result.dungeon_id player session b.r.replaced_session_id
            b.r.disconnected_at in
        (back.1 ≡ true)
        × SameParticipants m.dungeons back.0.dungeons
        × (find session back.0.authenticated_players ≡ none)
        × (find player back.0.active_player_sessions ≡ none)
  unfolding rollback_player_reconnect erase_if_is
  rollback_player_reconnect-Returned result player session now grace b =
      let id = result.dungeon_id in
      let i = b.came.instance_before in
      let v = all id i b.came.found in
      let j = (reconnect_participant i player session now grace).0 in
      let (undone, same) =
        rollback_participant_reconnect-reconnect_participant i v player session now grace b.r
          b.came.back in
      let (_, _, connected, _) =
        reconnect_participant-players i v player session now grace b.r b.came.back in
      let w =
        rollback_participant_reconnect-Inv j
          (reconnect_participant-Inv i v player session now grace) player session b.r connected in
      let k = (rollback_participant_reconnect j player session b.r).0 in
      let tables =
        restored id i k after.dungeons b.came.found
          (λ q. ground (arith, b.came.dungeons q, b.came.found))
          (λ q. ground (arith, b.came.dungeons q, b.came.found, find-assign id q i after.dungeons))
          w (λ s. ground (arith, same.players s)) in
      (
        ground (arith, b.came.dungeons id, undone),
        ground (arith, b.came.dungeons id, undone, tables),
        ground (
          arith,
          b.came.dungeons id,
          undone,
          find-erase session session after.authenticated_players,
        ),
        ground (
          arith,
          b.came.dungeons id,
          undone,
          b.logged_in,
          find-erase player player after.active_player_sessions,
        ),
      )
