-- ===== src/DungeonManager/Lifetime.antt =====
-- How a dungeon of the table starts and how it leaves: `SweepAbandonedParticipants`, `StartDungeon`,
-- `CancelDungeon` and `FinishDungeon` of src/DungeonManager.cpp.
use dnf_mock_server_client.Prelude.{
  ℕ, nat_eq, ◌-◌, Bool, true, false, ◌&&◌, ◌||◌, not, none, some, [], ◌∷◌, ◌++◌, map, leb, ◌==◌,
  if◌then◌else◌, length,
}
use dnf_mock_server_client.Prelude.Except.{Except, ok}
use dnf_mock_server_client.Map.{Map, find, assign, erase}
use dnf_mock_server_client.Dungeon.{DungeonInstance}
use dnf_mock_server_client.Dungeon.Membership.{
  remove_expired_disconnected_participants, remove_all_participants,
}
use dnf_mock_server_client.Dungeon.Progress.{is_running, is_waiting, start, finish}
use dnf_mock_server_client.EnemyCatalog.{EnemyCatalog}
use dnf_mock_server_client.Room.{RoomError}
use dnf_mock_server_client.DungeonManager.{DungeonManager, DungeonAbandonmentSweep, is_finished}

module _ {R : Type 0} where
  unfoldable pub start_dungeon :
      EnemyCatalog R → DungeonManager R → ℕ → DungeonManager R × Except RoomError Bool
  start_dungeon enemies m dungeon_id = elim (find dungeon_id m.dungeons) [
    | none ↦ (m, ok false)
    | some i ↦
        let started = start enemies i in
        (record m { dungeons = assign dungeon_id started.0 m.dungeons }, started.1)
  ]

  -- The two erasures with which a dungeon leaves the tables.
  unfoldable pub drop_dungeon : DungeonManager R → ℕ → DungeonInstance R → DungeonManager R
  drop_dungeon m dungeon_id i = record m {
    party_dungeons = erase i.party_id m.party_dungeons;
    dungeons = erase dungeon_id m.dungeons;
  }

  unfoldable pub cancel_dungeon : DungeonManager R → ℕ → DungeonManager R × Bool
  unfolding drop_dungeon
  cancel_dungeon m dungeon_id = elim (find dungeon_id m.dungeons) [
    | none ↦ (m, false)
    | some i ↦ if not (is_waiting i.state) then (m, false) else (drop_dungeon m dungeon_id i, true)
  ]

  unfoldable pub finish_dungeon : DungeonManager R → ℕ → DungeonManager R × Bool
  unfolding drop_dungeon
  finish_dungeon m dungeon_id = elim (find dungeon_id m.dungeons) [
    | none ↦ (m, false)
    | some i ↦
        let ended = if is_running i.state then finish i else (i, true) in
        let changed : DungeonManager R = record m {
          dungeons = assign dungeon_id ended.0 m.dungeons;
        } in
        if not ended.1
        then (changed, false)
        else if not (is_finished ended.0.state)
        then (changed, false)
        else (drop_dungeon changed dungeon_id ended.0, true)
  ]

  -- The loop of the sweep, with what it does to the two tables and to the result.
  unfoldable pub sweep_dungeons :
      ℕ
      → ℕ
      → ℕ
      → Map ℕ (DungeonInstance R)
      → Map ℕ ℕ
      → Map ℕ (DungeonInstance R) × Map ℕ ℕ × DungeonAbandonmentSweep
  sweep_dungeons now grace lifetime [] parties =
      ([], parties, record { removed_participants = []; released_dungeons = [] })
  sweep_dungeons now grace lifetime ((id, i) ∷ ds) parties =
      let expired = leb i.created_at now && leb lifetime (now - i.created_at) in
      let left =
        if expired
        then remove_all_participants i
        else remove_expired_disconnected_participants i now grace in
      let stays = not expired && not (length left.0.participants == 0) in
      let (ds', parties', sweep) =
        sweep_dungeons now grace lifetime ds
          (if stays then parties else erase left.0.party_id parties) in
      (
        if stays then (id, left.0) ∷ ds' else ds',
        parties',
        record {
          removed_participants =
              map (λ session. (id, session)) left.1 ++ sweep.removed_participants;
          released_dungeons =
              if stays then sweep.released_dungeons else id ∷ sweep.released_dungeons;
        },
      )

  unfoldable pub sweep_abandoned_participants :
      DungeonManager R → ℕ → ℕ → ℕ → DungeonManager R × DungeonAbandonmentSweep
  unfolding sweep_dungeons
  sweep_abandoned_participants m now grace lifetime =
      if grace == 0 || lifetime == 0
      then (m, record { removed_participants = []; released_dungeons = [] })
      else let (ds, parties, sweep) =
          sweep_dungeons now grace lifetime m.dungeons m.party_dungeons in
        (record m { dungeons = ds; party_dungeons = parties }, sweep)
