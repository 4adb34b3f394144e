-- ===== src/Examples/Rooms.antt =====
-- A room with two waves of one enemy and an obstacle.
use dnf_mock_server_client.Prelude.{
  ℕ, nat_eq, ◌≤◌, ◌<◌, ◌≡◌, refl, ◌⊎◌, true, false, some, [], ◌∷◌, List, ◌++◌,
}
use dnf_mock_server_client.Prelude.Except.{ok}
use dnf_mock_server_client.Map.{find}
use dnf_mock_server_client.Prelude.{string_eq}
use dnf_mock_server_client.Geometry.{RoomTemplate, is_inside_room, is_inside_collision_box}
use dnf_mock_server_client.EnemyCatalog.{EnemyCatalog, EnemyTemplate, EnemyAiType, get_enemy}
use dnf_mock_server_client.Room.{
  RoomState, EnemyState, PositionCheckResult, new_room, has_living_enemy, start_next_wave,
  is_cleared, check_position, is_blocked,
}
use dnf_mock_server_client.Room.Waves.{
  IsRoom, new_room-IsRoom, AllKnown, start_next_wave_progress, has_wave, NoneBetween, AllSpawned,
  spawns_of,
}
use dnf_mock_server_client.Room.Damage.{target}
use dnf_mock_server_client.Examples.{nat_float, at_point}

abbrev goblin : EnemyTemplate ℕ
goblin = record {
  id = 1;
  name = "goblin";
  max_hp = 30;
  move_speed = 2;
  ai_type = EnemyAiType.melee;
  collision = record { minimum = at_point 0 0 0; maximum = at_point 1 1 2 };
}

abbrev catalog : EnemyCatalog ℕ
catalog = (1, goblin) ∷ []

abbrev room_template : RoomTemplate ℕ
room_template = record {
  id = 2;
  width = 100;
  depth = 50;
  player_spawn = at_point 1 1 0;
  portals = [];
  obstacles =
      record {
        id = 4;
        collision = record { minimum = at_point 10 10 0; maximum = at_point 20 20 5 };
        destructible = true;
        max_hp = 10;
      }
      ∷ [];
  enemy_spawns =
      record { id = 1; enemy_template_id = 1; position = at_point 30 30 0; wave = 1 }
      ∷ record { id = 2; enemy_template_id = 1; position = at_point 40 30 0; wave = 2 }
      ∷ [];
}

abbrev room : RoomState ℕ
room = new_room room_template

room-IsRoom : IsRoom room
room-IsRoom = new_room-IsRoom room_template

catalog-AllKnown : AllKnown catalog room_template.enemy_spawns
unfolding get_enemy find
catalog-AllKnown = (refl, (refl, tt))

room_quiet : has_living_enemy room ≡ false
unfolding has_living_enemy new_room
room_quiet = refl

start_next_wave_progress_example :
    ((is_cleared room ≡ true) × (start_next_wave catalog room ≡ (room, ok false)))
    ⊎ (let after = (start_next_wave catalog room).0 in
        let ss = room_template.enemy_spawns in
        (is_cleared room ≡ false)
        × ((start_next_wave catalog room).1 ≡ ok true)
        × (room.current_wave < after.current_wave)
        × (after.current_wave ≤ room.last_wave)
        × (has_wave after.current_wave ss ≡ true)
        × NoneBetween room.current_wave after.current_wave ss
        × (es : List (EnemyState ℕ)) × (after.enemies ≡ room.enemies ++ es)
        × AllSpawned catalog 2 (spawns_of after.current_wave ss) es)
unfolding new_room
start_next_wave_progress_example =
    start_next_wave_progress catalog room room-IsRoom catalog-AllKnown room_quiet

abbrev guard : EnemyState ℕ
guard = record {
  entity_id = 8589934593;
  spawn_id = 1;
  enemy_template_id = 1;
  position = at_point 30 30 0;
  current_hp = 30;
  alive = true;
}

abbrev fight : RoomState ℕ
fight = record {
  room_template = room_template;
  current_wave = 1;
  last_wave = 2;
  enemies = guard ∷ [];
  obstacles =
      record { obstacle_id = 4; current_hp = 10; destructible = true; destroyed = false } ∷ [];
}

guard_found : target 8589934593 fight.enemies ≡ some guard
unfolding target
guard_found = refl

open_position : check_position fight (at_point 30 30 0) ≡ PositionCheckResult.valid
unfolding check_position is_inside_room is_blocked is_inside_collision_box
open_position = refl
