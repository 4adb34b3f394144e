-- ===== src/Room.antt =====
-- A room at run time: include/RoomState.h and src/RoomState.cpp. Each method holds the mutex for
-- its whole body, so it is one step. The catalog is a reference in the source, and is an argument
-- of the method that reads it.
pub mod Waves
pub mod Damage
pub mod Positions
use Prim.Native.Nat.{bit_or, max}
use dnf_mock_server_client.Prelude.{
  ℕ, zero, nat_eq, ◌+◌, ◌-◌, ◌*◌, ◌%◌, ◌<◌, Bool, true, false, ◌&&◌, ◌||◌, not, none, some, List,
  [], ◌∷◌, ◌++◌, map, ltb, leb, ◌==◌, ◌!=◌, if◌then◌else◌, any, u64_mod,
}
use dnf_mock_server_client.Prelude.Except.{Except, ok, err, ◌>>=◌, ◌>>◌}
use dnf_mock_server_client.Float.{Float, ◌<f◌, zero_float}
use dnf_mock_server_client.Geometry.{
  Position, RoomTemplate, EnemySpawnTemplate, ObstacleTemplate, is_inside_room,
  is_inside_collision_box,
}
use dnf_mock_server_client.EnemyCatalog.{EnemyCatalog, get_enemy}

pub record EnemyState (R : Type 0) : Type 0 where
  pub entity_id : ℕ  -- uint64
  pub spawn_id : ℕ
  pub enemy_template_id : ℕ
  pub position : Position R
  pub current_hp : ℕ
  pub alive : Bool

pub record ObstacleState : Type 0 where
  pub obstacle_id : ℕ
  pub current_hp : ℕ
  pub destructible : Bool
  pub destroyed : Bool

pub data PositionCheckResult : Type 0 where
  valid outside_room blocked_by_obstacle : PositionCheckResult

pub data RoomError : Type 0 where
  enemy_template_not_found : RoomError
  -- `rooms_.at` in the start of a dungeon.
  no_such_room : RoomError

pub record RoomState (R : Type 0) : Type 0 where
  pub room_template : RoomTemplate R
  pub current_wave : ℕ
  pub last_wave : ℕ
  pub enemies : List (EnemyState R)
  pub obstacles : List ObstacleState

-- (roomId << 32) | spawnId in 64 bits.
unfoldable pub make_enemy_entity_id : ℕ → ℕ → ℕ
make_enemy_entity_id room_id spawn_id = bit_or (room_id * 4294967296 % u64_mod) spawn_id

unfoldable pub hurt_obstacle : ObstacleState → ℕ → ObstacleState
hurt_obstacle o damage =
    if leb o.current_hp damage
    then record o { current_hp = 0; destroyed = true }
    else record o { current_hp = o.current_hp - damage }

unfoldable pub damage_obstacles : ℕ → ℕ → List ObstacleState → List ObstacleState × Bool
unfolding hurt_obstacle
damage_obstacles id damage [] = ([], false)
damage_obstacles id damage (o ∷ os) =
    let rest = damage_obstacles id damage os in
    if o.obstacle_id == id
    then if not o.destructible || o.destroyed || damage == 0
      then (o ∷ os, false)
      else (hurt_obstacle o damage ∷ os, true)
    else (o ∷ rest.0, rest.1)

module _ {R : Type 0} where
  unfoldable pub greatest_wave : ℕ → List (EnemySpawnTemplate R) → ℕ
  greatest_wave last [] = last
  greatest_wave last (s ∷ ss) = greatest_wave (max last s.wave) ss

  unfoldable pub initial_obstacle : ObstacleTemplate R → ObstacleState
  initial_obstacle o = record {
    obstacle_id = o.id;
    current_hp = o.max_hp;
    destructible = o.destructible;
    destroyed = false;
  }

  -- The constructor.
  unfoldable pub new_room : RoomTemplate R → RoomState R
  unfolding greatest_wave initial_obstacle
  new_room t = record {
    room_template = t;
    current_wave = 0;
    last_wave = greatest_wave 0 t.enemy_spawns;
    enemies = [];
    obstacles = map initial_obstacle t.obstacles;
  }

  unfoldable pub has_living_enemy : RoomState R → Bool
  has_living_enemy r = any (λ e. e.alive) r.enemies

  -- The least wave above the current one; 0, if there is none.
  unfoldable pub next_wave_from : ℕ → ℕ → List (EnemySpawnTemplate R) → ℕ
  next_wave_from current next [] = next
  next_wave_from current next (s ∷ ss) =
      next_wave_from current
        (if ltb current s.wave && (next == 0 || ltb s.wave next) then s.wave else next) ss

  abbrev pub next_wave : RoomState R → ℕ
  next_wave r = next_wave_from r.current_wave 0 r.room_template.enemy_spawns

  -- The enemies of a wave that are pushed before the loop ends or throws, and whether it throws.
  unfoldable pub spawn_wave :
      EnemyCatalog R → ℕ → ℕ → List (EnemySpawnTemplate R) → List (EnemyState R) × Bool
  spawn_wave catalog room_id wave [] = ([], false)
  spawn_wave catalog room_id wave (s ∷ ss) =
      let rest = spawn_wave catalog room_id wave ss in
      if s.wave != wave then rest else elim (get_enemy catalog s.enemy_template_id) [
        | none ↦ ([], true)
        | some t ↦ (
          record {
            entity_id = make_enemy_entity_id room_id s.id;
            spawn_id = s.id;
            enemy_template_id = s.enemy_template_id;
            position = s.position;
            current_hp = t.max_hp;
            alive = true;
          }
              ∷ rest.0,
          rest.1,
        )
      ]

  unfoldable pub start_next_wave :
      EnemyCatalog R → RoomState R → RoomState R × Except RoomError Bool
  start_next_wave catalog r =
      if has_living_enemy r
      then (r, ok false)
      else if next_wave r == 0
      then (r, ok false)
      else let spawned =
          spawn_wave catalog r.room_template.id (next_wave r) r.room_template.enemy_spawns in
        if spawned.1
        then (record r { enemies = r.enemies ++ spawned.0 }, err RoomError.enemy_template_not_found)
        else (record r { enemies = r.enemies ++ spawned.0; current_wave = next_wave r }, ok true)

  unfoldable pub hurt_enemy : EnemyState R → ℕ → EnemyState R
  hurt_enemy e damage =
      if leb e.current_hp damage
      then record e { current_hp = 0; alive = false }
      else record e { current_hp = e.current_hp - damage }

  -- The first enemy with the id is the one that is hit.
  unfoldable pub damage_enemies : ℕ → ℕ → List (EnemyState R) → List (EnemyState R) × Bool
  unfolding hurt_enemy
  damage_enemies id damage [] = ([], false)
  damage_enemies id damage (e ∷ es) =
      let rest = damage_enemies id damage es in
      if e.entity_id == id
      then if not e.alive || damage == 0 then (e ∷ es, false) else (hurt_enemy e damage ∷ es, true)
      else (e ∷ rest.0, rest.1)

  unfoldable pub apply_enemy_damage : RoomState R → ℕ → ℕ → RoomState R × Bool
  apply_enemy_damage r id damage =
      let hit = damage_enemies id damage r.enemies in (record r { enemies = hit.0 }, hit.1)

  unfoldable pub apply_obstacle_damage : RoomState R → ℕ → ℕ → RoomState R × Bool
  apply_obstacle_damage r id damage =
      let hit = damage_obstacles id damage r.obstacles in (record r { obstacles = hit.0 }, hit.1)

  unfoldable pub is_cleared : RoomState R → Bool
  unfolding has_living_enemy
  is_cleared r = r.current_wave == r.last_wave && not (has_living_enemy r)

module _ {R : Type 0} ⦃f : Float R⦄ where
  -- The loop over the indices of the obstacles. There is a state for each template.
  unfoldable pub is_blocked : List (ObstacleTemplate R) → List ObstacleState → Position R → Bool
  is_blocked [] os p = false
  is_blocked (t ∷ ts) [] p = false
  is_blocked (t ∷ ts) (o ∷ os) p =
      (not o.destroyed && is_inside_collision_box t.collision p) || is_blocked ts os p

  unfoldable pub check_position : RoomState R → Position R → PositionCheckResult
  check_position r p =
      if p.z <f zero_float || not (is_inside_room r.room_template p)
      then PositionCheckResult.outside_room
      else if is_blocked r.room_template.obstacles r.obstacles p
      then PositionCheckResult.blocked_by_obstacle
      else PositionCheckResult.valid
