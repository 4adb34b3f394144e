-- ===== src/Dungeon/Progress.antt =====
-- How a dungeon goes on: its waves, its portals, its start and its end. The methods that lock in
-- several pieces are modelled as they run when no other call comes between.
pub mod Portals
pub mod Phases
use dnf_mock_server_client.Prelude.{
  ℕ, suc, nat_eq, ◌+◌, Bool, true, false, ◌&&◌, ◌||◌, not, Option, none, some, List, [], ◌∷◌, ◌==◌,
  ◌!=◌, if◌then◌else◌, Bool-cases, any, elem,
}
use dnf_mock_server_client.Prelude.Except.{Except, ok, err, ◌>>=◌, ◌>>◌}
use dnf_mock_server_client.Map.{Map, find, contains, assign, size}
use dnf_mock_server_client.Float.{Float}
use dnf_mock_server_client.Geometry.{PortalTemplate, RoomTemplate, is_inside_collision_box}
use dnf_mock_server_client.EnemyCatalog.{EnemyCatalog}
use dnf_mock_server_client.Room.{RoomState, RoomError, start_next_wave, is_cleared}
use dnf_mock_server_client.Player.{PlayerState, is_success, enter_room}
use dnf_mock_server_client.Dungeon.{DungeonInstance, DungeonState}

pub data UsePortalResult : Type 0 where
  success dungeon_not_running player_not_found not_inside_portal room_not_cleared : UsePortalResult
  target_room_not_found target_position_blocked : UsePortalResult

abbrev pub is_running : DungeonState → Bool
is_running DungeonState.running = true
is_running _ = false

abbrev pub is_waiting : DungeonState → Bool
is_waiting DungeonState.waiting = true
is_waiting _ = false

module _ {R : Type 0} where
  unfoldable pub find_room : DungeonInstance R → ℕ → Option (RoomState R)
  find_room i room_id = find room_id i.rooms

  unfoldable pub find_player : DungeonInstance R → ℕ → Option (PlayerState R)
  find_player i session = find session i.players

  -- Start the next wave of a room of the table.
  unfoldable pub start_wave_in :
      EnemyCatalog R → ℕ → Map ℕ (RoomState R) → Map ℕ (RoomState R) × Except RoomError Bool
  start_wave_in catalog room_id rooms = elim (find room_id rooms) [
    | none ↦ (rooms, ok false)
    | some room ↦
        let started = start_next_wave catalog room in (assign room_id started.0 rooms, started.1)
  ]

  -- The rooms of the connected players, each once.
  unfoldable pub occupied_rooms : Map ℕ ℕ → Map ℕ (PlayerState R) → List ℕ
  occupied_rooms disconnected [] = []
  occupied_rooms disconnected ((session, p) ∷ players) =
      let rest = occupied_rooms disconnected players in
      if contains session disconnected || elem p.room_id rest then rest else p.room_id ∷ rest

  -- The count of the waves that start; an exception ends the loop.
  unfoldable pub advance_rooms :
      EnemyCatalog R → List ℕ → Map ℕ (RoomState R) → Map ℕ (RoomState R) × Except RoomError ℕ
  unfolding start_wave_in
  advance_rooms catalog [] rooms = (rooms, ok 0)
  advance_rooms catalog (room_id ∷ ids) rooms =
      let first = start_wave_in catalog room_id rooms in
      let rest = advance_rooms catalog ids first.0 in
      elim first.1 [
        | err e ↦ (first.0, err e)
        | ok started ↦ (rest.0, rest.1 >>= λ count. ok (if started then count + 1 else count))
      ]

  unfoldable pub advance_room_waves :
      EnemyCatalog R → DungeonInstance R → DungeonInstance R × Except RoomError ℕ
  unfolding occupied_rooms advance_rooms
  advance_room_waves catalog i =
      if not (is_running i.state)
      then (i, ok 0)
      else let advanced =
          advance_rooms catalog (occupied_rooms i.disconnected_since i.players) i.rooms in
        (record i { rooms = advanced.0 }, advanced.1)

  unfoldable pub finish : DungeonInstance R → DungeonInstance R × Bool
  finish i =
      if not (is_running i.state)
      then (i, false)
      else (record i { state = DungeonState.finished }, true)

  -- `rooms.back().id`; the constructor refuses a template without rooms.
  unfoldable pub final_room_id : List (RoomTemplate R) → ℕ
  final_room_id [] = 0
  final_room_id (t ∷ []) = t.id
  final_room_id (t ∷ u ∷ ts) = final_room_id (u ∷ ts)

  unfoldable pub try_finish_if_cleared : DungeonInstance R → DungeonInstance R × Bool
  unfolding finish final_room_id
  try_finish_if_cleared i =
      if not (is_running i.state)
      then (i, false)
      else if size i.players == 0
      then (i, false)
      else if any (λ e. e.1.room_id != final_room_id i.dungeon_template.rooms) i.players
      then (i, false)
      else if any (λ e. not (is_cleared e.1)) i.rooms
      then (i, false)
      else finish i

  unfoldable pub first_room_id : List (RoomTemplate R) → ℕ
  first_room_id [] = 0
  first_room_id (t ∷ ts) = t.id

  -- The state changes before the first wave starts, which may throw.
  unfoldable pub start :
      EnemyCatalog R → DungeonInstance R → DungeonInstance R × Except RoomError Bool
  unfolding start_wave_in first_room_id
  start catalog i =
      if not (is_waiting i.state)
      then (i, ok false)
      else let first = first_room_id i.dungeon_template.rooms in
        let started = start_wave_in catalog first i.rooms in
        (
          record i { state = DungeonState.running; rooms = started.0 },
          if contains first i.rooms
              then (started.1 >>= λ wave. ok true)
              else err RoomError.no_such_room,
        )

  unfoldable pub find_template : ℕ → List (RoomTemplate R) → Option (RoomTemplate R)
  find_template room_id [] = none
  find_template room_id (t ∷ ts) = if t.id == room_id then some t else find_template room_id ts

module _ {R : Type 0} ⦃f : Float R⦄ where
  -- The first portal whose trigger area holds the player.
  unfoldable pub find_portal : PlayerState R → List (PortalTemplate R) → Option (PortalTemplate R)
  find_portal p [] = none
  find_portal p (portal ∷ portals) =
      if is_inside_collision_box portal.trigger_area p.position
      then some portal
      else find_portal p portals

  -- The part of `TryUsePortal` that enters the target room. An exception of its next wave leaves
  -- the player there.
  unfoldable pub enter_target :
      EnemyCatalog R
      → DungeonInstance R
      → ℕ
      → PlayerState R
      → PortalTemplate R
      → DungeonInstance R × Except RoomError UsePortalResult
  unfolding start_wave_in
  enter_target catalog i session p portal = elim (find portal.target_room_id i.rooms) [
    | none ↦ (i, ok UsePortalResult.target_room_not_found)
    | some target ↦
        let entered = enter_room p target portal.target_position in
        if not (is_success entered.1)
        then (i, ok UsePortalResult.target_position_blocked)
        else let started = start_wave_in catalog portal.target_room_id i.rooms in
          (
            record i { players = assign session entered.0 i.players; rooms = started.0 },
            started.1 >>= λ wave. ok UsePortalResult.success,
          )
  ]

  unfoldable pub try_use_portal :
      EnemyCatalog R → DungeonInstance R → ℕ → DungeonInstance R × Except RoomError UsePortalResult
  unfolding find_template find_portal enter_target
  try_use_portal catalog i session =
      if not (is_running i.state)
      then (i, ok UsePortalResult.dungeon_not_running)
      else elim (find session i.players) [
        | none ↦ (i, ok UsePortalResult.player_not_found)
        | some p ↦ elim (find p.room_id i.rooms) [
          | none ↦ (i, ok UsePortalResult.target_room_not_found)
          | some room ↦ elim (find_template p.room_id i.dungeon_template.rooms) [
            | none ↦ (i, ok UsePortalResult.target_room_not_found)
            | some t ↦ elim (find_portal p t.portals) [
              | none ↦ (i, ok UsePortalResult.not_inside_portal)
              | some portal ↦
                  if portal.requires_room_clear && not (is_cleared room)
                  then (i, ok UsePortalResult.room_not_cleared)
                  else enter_target catalog i session p portal
            ]
          ]
        ]
      ]
