-- ===== src/DungeonManager/Sessions.antt =====
-- Log in, come back, roll back and disconnect: `RegisterPlayerSession`, `RollbackPlayerReconnect` and
-- `DisconnectPlayerSession` of src/DungeonManager.cpp.
use dnf_mock_server_client.Prelude.{
  ℕ, nat_eq, Bool, true, false, ◌||◌, not, Option, none, some, [], ◌∷◌, ◌==◌, ◌!=◌, if◌then◌else◌,
}
use dnf_mock_server_client.Map.{Map, find, assign, emplace, erase}
use dnf_mock_server_client.Dungeon.{DungeonInstance}
use dnf_mock_server_client.Dungeon.Membership.{
  Reconnected, bind_participant_player, disconnect_participant, reconnect_participant,
  rollback_participant_reconnect,
}
use dnf_mock_server_client.DungeonManager.{
  DungeonManager, RegisterDungeonSessionResult, RegisterDungeonSessionStatus, find_dungeon_of,
  is_finished,
}

abbrev pub invalid_identity_result : RegisterDungeonSessionResult
invalid_identity_result = record {
  status = RegisterDungeonSessionStatus.invalid_identity;
  dungeon_id = 0;
  replaced_session_id = 0;
  disconnected_at = none;
}

-- Whether the key is in the table with another value.
unfoldable pub taken_by_other : ℕ → ℕ → Map ℕ ℕ → Bool
taken_by_other k v m = elim (find k m) [ none ↦ false | some w ↦ w != v ]

-- Erases the entry of the key, if it holds the value.
unfoldable pub erase_if_is : ℕ → ℕ → Map ℕ ℕ → Map ℕ ℕ
erase_if_is k v m = elim (find k m) [ none ↦ m | some w ↦ if w == v then erase k m else m ]

module _ {R : Type 0} where
  -- The loop that looks for a dungeon in which the player was disconnected.
  unfoldable pub reconnect_in :
      Map ℕ (DungeonInstance R)
      → ℕ
      → ℕ
      → ℕ
      → ℕ
      → Map ℕ (DungeonInstance R) × Option (ℕ × Reconnected)
  reconnect_in [] player session now grace = ([], none)
  reconnect_in ((id, i) ∷ ds) player session now grace =
      let rest = reconnect_in ds player session now grace in
      if is_finished i.state
      then ((id, i) ∷ rest.0, rest.1)
      else let tried = reconnect_participant i player session now grace in
        elim tried.1 [
          | none ↦ ((id, tried.0) ∷ rest.0, rest.1)
          | some r ↦ ((id, tried.0) ∷ ds, some (id, r))
        ]

  -- The part of `RegisterPlayerSession` after the two tables were filled.
  unfoldable pub enter_dungeons :
      DungeonManager R → ℕ → ℕ → ℕ → ℕ → DungeonManager R × RegisterDungeonSessionResult
  unfolding find_dungeon_of reconnect_in
  enter_dungeons m session player now grace = elim (find_dungeon_of m.dungeons session) [
    | some (id, i) ↦
        let bound = bind_participant_player i session player in
        if not bound.1
        then (
          record m {
            dungeons = assign id bound.0 m.dungeons;
            authenticated_players = erase session m.authenticated_players;
            active_player_sessions = erase player m.active_player_sessions;
          },
          invalid_identity_result,
        )
        else (
          record m { dungeons = assign id bound.0 m.dungeons },
          record {
            status = RegisterDungeonSessionStatus.registered;
            dungeon_id = id;
            replaced_session_id = 0;
            disconnected_at = none;
          },
        )
    | none ↦
        let tried = reconnect_in m.dungeons player session now grace in
        elim tried.1 [
          | some (id, r) ↦ (
            record m {
              dungeons = tried.0;
              authenticated_players = erase r.replaced_session_id m.authenticated_players;
            },
            record {
              status = RegisterDungeonSessionStatus.reconnected;
              dungeon_id = id;
              replaced_session_id = r.replaced_session_id;
              disconnected_at = some r.disconnected_at;
            },
          )
          | none ↦ (
            record m { dungeons = tried.0 },
            record {
              status = RegisterDungeonSessionStatus.registered;
              dungeon_id = 0;
              replaced_session_id = 0;
              disconnected_at = none;
            },
          )
        ]
  ]

  unfoldable pub register_player_session :
      DungeonManager R → ℕ → ℕ → ℕ → ℕ → DungeonManager R × RegisterDungeonSessionResult
  unfolding taken_by_other enter_dungeons
  register_player_session m session player now grace =
      if session == 0 || player == 0 || grace == 0
      then (m, invalid_identity_result)
      else if m.stopping
      then (m, invalid_identity_result)
      else if taken_by_other session player m.authenticated_players
      then (m, invalid_identity_result)
      else if taken_by_other player session m.active_player_sessions
      then (m, invalid_identity_result)
      else enter_dungeons
          (record m {
            authenticated_players = emplace session player m.authenticated_players;
            active_player_sessions = emplace player session m.active_player_sessions;
          })
          session player now grace

  unfoldable pub rollback_player_reconnect :
      DungeonManager R → ℕ → ℕ → ℕ → ℕ → ℕ → DungeonManager R × Bool
  unfolding erase_if_is
  rollback_player_reconnect m dungeon_id player new replaced disconnected_at =
      elim (find dungeon_id m.dungeons) [
        | none ↦ (m, false)
        | some i ↦
            let back =
              rollback_participant_reconnect i player new
                (record { replaced_session_id = replaced; disconnected_at = disconnected_at }) in
            if not back.1
            then (record m { dungeons = assign dungeon_id back.0 m.dungeons }, false)
            else (
              record m {
                dungeons = assign dungeon_id back.0 m.dungeons;
                authenticated_players = erase new m.authenticated_players;
                active_player_sessions = erase_if_is player new m.active_player_sessions;
              },
              true,
            )
      ]

  -- The loop over the dungeons; an instance that refuses is not changed.
  unfoldable pub disconnect_in :
      Map ℕ (DungeonInstance R) → ℕ → ℕ → Map ℕ (DungeonInstance R) × Option ℕ
  disconnect_in [] session at = ([], none)
  disconnect_in ((id, i) ∷ ds) session at =
      let rest = disconnect_in ds session at in
      let tried = disconnect_participant i session at in
      if tried.1 then ((id, tried.0) ∷ ds, some id) else ((id, tried.0) ∷ rest.0, rest.1)

  unfoldable pub disconnect_player_session : DungeonManager R → ℕ → ℕ → DungeonManager R × Option ℕ
  unfolding disconnect_in erase_if_is
  disconnect_player_session m session at =
      if session == 0
      then (m, none)
      else let left = disconnect_in m.dungeons session at in
        (
          elim (find session m.authenticated_players) [
            | none ↦ record m { dungeons = left.0 }
            | some player ↦ record m {
              dungeons = left.0;
              authenticated_players = erase session m.authenticated_players;
              active_player_sessions = erase_if_is player session m.active_player_sessions;
            }
          ],
          left.1,
        )
