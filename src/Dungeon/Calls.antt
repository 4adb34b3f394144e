-- ===== src/Dungeon/Calls.antt =====
-- The calls on a dungeon (src/DungeonInstance.cpp), and those on the players and the rooms that it
-- shares by pointer (src/DungeonPlayerState.cpp, src/RoomState.cpp). `RebindSession` and `EnterRoom`
-- of a player are called by the dungeon alone, as is `StartNextWave` of a room.
use dnf_mock_server_client.Prelude.{
  ℕ, nat_eq, ◌≡◌, ◌⊎◌, inl, inr, none, some, List, [], ◌∷◌, arith, Option-cases,
}
use dnf_mock_server_client.Map.{find, assign}
use dnf_mock_server_client.Float.{Float}
use dnf_mock_server_client.Geometry.{Position}
use dnf_mock_server_client.EnemyCatalog.{EnemyCatalog}
use dnf_mock_server_client.Room.{RoomState, apply_enemy_damage, apply_obstacle_damage}
use dnf_mock_server_client.Player.{
  PlayerState, apply_damage, begin_skill, advance_combat_tick, move_to, clear_action,
  advance_action, next_phase,
}
use dnf_mock_server_client.Dungeon.{DungeonInstance}
use dnf_mock_server_client.Dungeon.Membership.{
  Reconnected, bind_participant_player, disconnect_participant, reconnect_participant,
  rollback_participant_reconnect, remove_expired_disconnected_participants, remove_all_participants,
}
use dnf_mock_server_client.Dungeon.Progress.{
  start, finish, advance_room_waves, try_finish_if_cleared, try_use_portal,
}

-- The changes of a player from outside of the dungeon.
pub data Act (R : Type 0) : Type 0 where
  damage : ℕ → Act R
  skill : (id mana cooldown startup active recovery : ℕ) → Act R
  tick : Act R
  move : RoomState R → Position R → Act R

pub data Call (R : Type 0) : Type 0 where
  bind disconnect : (session value : ℕ) → Call R
  reconnect : (player new now grace : ℕ) → Call R
  roll_back : (player new : ℕ) → Reconnected → Call R
  expire : (now grace : ℕ) → Call R
  begin advance complete try_complete empty : Call R
  portal : (session : ℕ) → Call R
  act : (session : ℕ) → Act R → Call R
  hit_enemy hit_obstacle : (room_id id amount : ℕ) → Call R

module _ {R : Type 0} where
  -- A player or a room is changed behind its pointer.
  abbrev pub change_player :
      (PlayerState R → PlayerState R) → ℕ → DungeonInstance R → DungeonInstance R
  change_player g session i = elim (find session i.players) [
    | none ↦ i
    | some p ↦ record i { players = assign session (g p) i.players }
  ]

  abbrev pub change_room : (RoomState R → RoomState R) → ℕ → DungeonInstance R → DungeonInstance R
  change_room g room_id i = elim (find room_id i.rooms) [
    | none ↦ i
    | some r ↦ record i { rooms = assign room_id (g r) i.rooms }
  ]

module _ {R : Type 0} ⦃f : Float R⦄ where
  unfoldable pub after_act : Act R → PlayerState R → PlayerState R
  after_act (damage amount) p = (apply_damage p amount).0
  after_act (skill id mana cooldown startup active recovery) p =
      (begin_skill p id mana cooldown startup active recovery).0
  after_act tick p = advance_combat_tick p
  after_act (move room next) p = (move_to p room next).0

module _ {R : Type 0} ⦃f : Float R⦄ (catalog : EnemyCatalog R) where
  unfoldable pub step : DungeonInstance R → Call R → DungeonInstance R
  step i (bind session player) = (bind_participant_player i session player).0
  step i (disconnect session at) = (disconnect_participant i session at).0
  step i (reconnect player new now grace) = (reconnect_participant i player new now grace).0
  step i (roll_back player new r) = (rollback_participant_reconnect i player new r).0
  step i (expire now grace) = (remove_expired_disconnected_participants i now grace).0
  step i begin = (start catalog i).0
  step i advance = (advance_room_waves catalog i).0
  step i complete = (finish i).0
  step i try_complete = (try_finish_if_cleared i).0
  step i empty = (remove_all_participants i).0
  step i (portal session) = (try_use_portal catalog i session).0
  step i (act session a) = change_player (after_act a) session i
  step i (hit_enemy room_id id amount) =
      change_room (λ r. (apply_enemy_damage r id amount).0) room_id i
  step i (hit_obstacle room_id id amount) =
      change_room (λ r. (apply_obstacle_damage r id amount).0) room_id i

  unfoldable pub run : DungeonInstance R → List (Call R) → DungeonInstance R
  run i [] = i
  run i (c ∷ cs) = run (step i c) cs

module _ {R : Type 0} ⦃f : Float R⦄ where
  -- No call from outside changes whose player it is, or its room.
  pub after_act-kept :
      (a : Act R) (p : PlayerState R)
      → ((after_act a p).session_id ≡ p.session_id) × ((after_act a p).room_id ≡ p.room_id)
  unfolding after_act apply_damage clear_action begin_skill advance_combat_tick advance_action
      next_phase move_to
  after_act-kept (damage amount) p = (ground arith, ground arith)
  after_act-kept (skill id mana cooldown startup active recovery) p = (ground arith, ground arith)
  after_act-kept tick p = (ground arith, ground arith)
  after_act-kept (move room next) p = (ground arith, ground arith)

module _ {R : Type 0} where
  -- A table of players with one of them changed.
  pub change_player-cases :
      (g : PlayerState R → PlayerState R) (session : ℕ) (i : DungeonInstance R)
      → (change_player g session i ≡ i)
        ⊎ ((p : PlayerState R) × (find session i.players ≡ some p)
            × (change_player g session i ≡ record i { players = assign session (g p) i.players }))
  change_player-cases g session i = elim (Option-cases (find session i.players)) [
    | inl missing ↦ inl (ground arith)
    | inr (p, found) ↦ inr (p, found, ground arith)
  ]

  pub change_room-cases :
      (g : RoomState R → RoomState R) (room_id : ℕ) (i : DungeonInstance R)
      → (change_room g room_id i ≡ i)
        ⊎ ((r : RoomState R) × (find room_id i.rooms ≡ some r)
            × (change_room g room_id i ≡ record i { rooms = assign room_id (g r) i.rooms }))
  change_room-cases g room_id i = elim (Option-cases (find room_id i.rooms)) [
    | inl missing ↦ inl (ground arith)
    | inr (r, found) ↦ inr (r, found, ground arith)
  ]
