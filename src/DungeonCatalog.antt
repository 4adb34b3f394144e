-- ===== src/DungeonCatalog.antt =====
-- The dungeon templates: include/DungeonCatalog.h and src/DungeonCatalog.cpp. The sets of the ids
-- that were seen are lists.
pub mod Accepted
pub mod Additions
pub mod Instances
pub mod Furnished
pub mod Housed
pub mod PortalTargets
use dnf_mock_server_client.Prelude.{
  ℕ, nat_eq, Bool, true, false, ◌&&◌, ◌||◌, not, Option, none, some, List, [], ◌∷◌, map, ltb, ◌==◌,
  ◌!=◌, if◌then◌else◌, is_some, length,
}
use dnf_mock_server_client.Map.{Map, find, contains, emplace}
use Prim.Native.String.{String}
use dnf_mock_server_client.Prelude.{string_eq, elem}
use dnf_mock_server_client.Sort.{sort_by}
use dnf_mock_server_client.Float.{Float, ◌<f◌, ◌≤f◌, zero_float}
use dnf_mock_server_client.Geometry.{
  RoomTemplate, PortalTemplate, ObstacleTemplate, EnemySpawnTemplate, is_inside_room,
  is_valid_collision_box,
}
use dnf_mock_server_client.EnemyCatalog.{EnemyCatalog, get_enemy}
use dnf_mock_server_client.Party.{max_party_members}
use dnf_mock_server_client.Dungeon.{DungeonTemplate}
use dnf_mock_server_client.Dungeon.Progress.{find_template}

abbrev pub DungeonCatalog : Type 0 → Type 0
DungeonCatalog R = Map ℕ (DungeonTemplate R)

module _ {R : Type 0} ⦃f : Float R⦄ where
  -- The tests of one room but that of its id against the ids before it.
  unfoldable pub valid_room : RoomTemplate R → Bool
  valid_room room = not (
      room.id == 0
      || room.width ≤f zero_float
      || room.depth ≤f zero_float
      || room.player_spawn.z <f zero_float
      || not (is_inside_room room room.player_spawn))

  -- The first loop, which ends with the set of the room ids.
  unfoldable pub collect_room_ids : List ℕ → List (RoomTemplate R) → Option (List ℕ)
  unfolding valid_room
  collect_room_ids ids [] = some ids
  collect_room_ids ids (room ∷ rooms) =
      let rest = collect_room_ids (room.id ∷ ids) rooms in
      if not (valid_room room) || elem room.id ids then none else rest

  -- The loop over the portals of a room. No room of the target's id would be a read past the end of
  -- the rooms; that such a room exists is tested before.
  unfoldable pub valid_portals :
      List (RoomTemplate R) → List ℕ → RoomTemplate R → List ℕ → List (PortalTemplate R) → Bool
  valid_portals rooms room_ids room seen [] = true
  valid_portals rooms room_ids room seen (portal ∷ portals) =
      let rest = valid_portals rooms room_ids room (portal.id ∷ seen) portals in
      if portal.id == 0
        || elem portal.id seen
        || not (is_valid_collision_box portal.trigger_area)
        || portal.trigger_area.minimum.z <f zero_float
        || not (is_inside_room room portal.trigger_area.minimum)
        || not (is_inside_room room portal.trigger_area.maximum)
        || not (elem portal.target_room_id room_ids)
      then false
      else elim (find_template portal.target_room_id rooms) [
        | none ↦ false
        | some target ↦
            if portal.target_position.z <f zero_float
              || not (is_inside_room target portal.target_position)
            then false
            else rest
      ]

  unfoldable pub valid_obstacles : RoomTemplate R → List ℕ → List (ObstacleTemplate R) → Bool
  valid_obstacles room seen [] = true
  valid_obstacles room seen (obstacle ∷ obstacles) =
      let invalid_hp =
        (obstacle.destructible && obstacle.max_hp == 0)
        || (not obstacle.destructible && obstacle.max_hp != 0) in
      let rest = valid_obstacles room (obstacle.id ∷ seen) obstacles in
      if obstacle.id == 0
        || elem obstacle.id seen
        || not (is_valid_collision_box obstacle.collision)
        || obstacle.collision.minimum.z <f zero_float
        || not (is_inside_room room obstacle.collision.minimum)
        || not (is_inside_room room obstacle.collision.maximum)
        || invalid_hp
      then false
      else rest

  unfoldable pub valid_enemy_spawns :
      EnemyCatalog R → RoomTemplate R → List ℕ → List (EnemySpawnTemplate R) → Bool
  valid_enemy_spawns enemies room seen [] = true
  valid_enemy_spawns enemies room seen (spawn ∷ spawns) =
      let rest = valid_enemy_spawns enemies room (spawn.id ∷ seen) spawns in
      if spawn.id == 0
        || elem spawn.id seen
        || not (is_some (get_enemy enemies spawn.enemy_template_id))
        || spawn.position.z <f zero_float
        || not (is_inside_room room spawn.position)
        || spawn.wave == 0
      then false
      else rest

  -- The second loop.
  unfoldable pub valid_contents :
      EnemyCatalog R → List (RoomTemplate R) → List ℕ → List (RoomTemplate R) → Bool
  unfolding valid_portals valid_obstacles valid_enemy_spawns
  valid_contents enemies rooms room_ids [] = true
  valid_contents enemies rooms room_ids (room ∷ more) =
      let rest = valid_contents enemies rooms room_ids more in
      if not (valid_portals rooms room_ids room [] room.portals)
        || not (valid_obstacles room [] room.obstacles)
        || not (valid_enemy_spawns enemies room [] room.enemy_spawns)
      then false
      else rest

  unfoldable pub add_dungeon :
      EnemyCatalog R
      → DungeonCatalog R
      → ℕ
      → String
      → List (RoomTemplate R)
      → ℕ
      → ℕ
      → DungeonCatalog R × Bool
  unfolding collect_room_ids valid_contents
  add_dungeon enemies catalog template_id name rooms recommended most =
      if template_id == 0
        || name == ""
        || length rooms == 0
        || recommended == 0
        || most == 0
        || ltb most recommended
        || ltb max_party_members most
        || contains template_id catalog
      then (catalog, false)
      else elim (collect_room_ids [] rooms) [
        | none ↦ (catalog, false)
        | some room_ids ↦
            if not (valid_contents enemies rooms room_ids rooms) then (catalog, false) else (
              emplace template_id
                  (record {
                    id = template_id;
                    name = name;
                    rooms = rooms;
                    recommended_party_size = recommended;
                    max_party_size = most;
                  })
                  catalog,
              true,
            )
      ]

module _ {R : Type 0} where
  unfoldable pub get_dungeon : DungeonCatalog R → ℕ → Option (DungeonTemplate R)
  get_dungeon catalog template_id = find template_id catalog

  unfoldable pub get_dungeon_list : DungeonCatalog R → List (DungeonTemplate R)
  get_dungeon_list catalog = sort_by (λ t. t.id) (map (λ e. e.1) catalog)
