-- ===== src/EnemyCatalog.antt =====
-- The enemy templates: include/EnemyCatalog.h and src/EnemyCatalog.cpp.
use Prim.Native.String.{String}
use dnf_mock_server_client.Prelude.{string_eq}
use dnf_mock_server_client.Prelude.{
  ℕ, nat_eq, ◌<◌, ◌≡◌, Bool, true, false, ◌||◌, not, Option, some, arith, ◌==◌, if◌then◌else◌,
}
use dnf_mock_server_client.Map.{Map, find, contains, emplace}
use dnf_mock_server_client.Map.Laws.{find-emplace}
use dnf_mock_server_client.Float.{Float, ◌<f◌, zero_float}
use dnf_mock_server_client.Geometry.{CollisionBox, is_valid_collision_box}

pub data EnemyAiType : Type 0 where
  melee ranged boss : EnemyAiType

pub record EnemyTemplate (R : Type 0) : Type 0 where
  pub id : ℕ
  pub name : String
  pub max_hp : ℕ
  pub move_speed : R
  pub ai_type : EnemyAiType
  pub collision : CollisionBox R

abbrev pub EnemyCatalog : Type 0 → Type 0
EnemyCatalog R = Map ℕ (EnemyTemplate R)

module _ {R : Type 0} ⦃f : Float R⦄ where
  unfoldable pub add_enemy : EnemyCatalog R → EnemyTemplate R → EnemyCatalog R × Bool
  add_enemy catalog enemy =
      if enemy.id == 0
        || enemy.name == ""
        || enemy.max_hp == 0
        || enemy.move_speed <f zero_float
        || not (is_valid_collision_box enemy.collision)
        || enemy.collision.minimum.z <f zero_float
        || contains enemy.id catalog
      then (catalog, false)
      else (emplace enemy.id enemy catalog, true)

module _ {R : Type 0} where
  unfoldable pub get_enemy : EnemyCatalog R → ℕ → Option (EnemyTemplate R)
  get_enemy catalog id = find id catalog

  -- Every template of the catalog can be hurt, and stands under its own id.
  abbrev pub IsEnemyCatalog : EnemyCatalog R → Type 0
  IsEnemyCatalog catalog =
      (id : ℕ) (e : EnemyTemplate R) → get_enemy catalog id ≡ some e → (0 < e.max_hp) × (e.id ≡ id)

module _ {R : Type 0} ⦃f : Float R⦄ where
  pub add_enemy-IsEnemyCatalog :
      (catalog : EnemyCatalog R) (enemy : EnemyTemplate R)
      → IsEnemyCatalog catalog
      → IsEnemyCatalog (add_enemy catalog enemy).0
  unfolding add_enemy get_enemy
  add_enemy-IsEnemyCatalog catalog enemy v id e found =
      ground (arith, find-emplace enemy.id id enemy catalog, v id e)
