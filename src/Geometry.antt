-- ===== src/Geometry.antt =====
-- Positions, boxes and the static description of a room: include/DungeonRoom.h and
-- src/DungeonRoom.cpp. `x >= y` is written `y ≤f x`.
use dnf_mock_server_client.Prelude.{ℕ, nat_eq, Bool, ◌&&◌, List}
use dnf_mock_server_client.Float.{Float, ◌<f◌, ◌≤f◌, zero_float}

pub record Position (R : Type 0) : Type 0 where
  pub x : R
  pub y : R
  pub z : R

pub record CollisionBox (R : Type 0) : Type 0 where
  pub minimum : Position R
  pub maximum : Position R

pub record PortalTemplate (R : Type 0) : Type 0 where
  pub id : ℕ
  pub trigger_area : CollisionBox R
  pub target_room_id : ℕ
  pub target_position : Position R
  pub requires_room_clear : Bool

pub record ObstacleTemplate (R : Type 0) : Type 0 where
  pub id : ℕ
  pub collision : CollisionBox R
  pub destructible : Bool
  pub max_hp : ℕ

pub record EnemySpawnTemplate (R : Type 0) : Type 0 where
  pub id : ℕ
  pub enemy_template_id : ℕ
  pub position : Position R
  pub wave : ℕ

pub record RoomTemplate (R : Type 0) : Type 0 where
  pub id : ℕ
  pub width : R
  pub depth : R
  pub player_spawn : Position R
  pub portals : List (PortalTemplate R)
  pub obstacles : List (ObstacleTemplate R)
  pub enemy_spawns : List (EnemySpawnTemplate R)

module _ {R : Type 0} ⦃f : Float R⦄ where
  unfoldable pub is_inside_room : RoomTemplate R → Position R → Bool
  is_inside_room room p =
      zero_float ≤f p.x && p.x ≤f room.width && zero_float ≤f p.y && p.y ≤f room.depth

  unfoldable pub is_valid_collision_box : CollisionBox R → Bool
  is_valid_collision_box box =
      box.minimum.x <f box.maximum.x
      && box.minimum.y <f box.maximum.y
      && box.minimum.z <f box.maximum.z

  unfoldable pub is_inside_collision_box : CollisionBox R → Position R → Bool
  is_inside_collision_box box p =
      box.minimum.x ≤f p.x
      && p.x ≤f box.maximum.x
      && box.minimum.y ≤f p.y
      && p.y ≤f box.maximum.y
      && box.minimum.z ≤f p.z
      && p.z ≤f box.maximum.z
