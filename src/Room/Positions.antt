-- ===== src/Room/Positions.antt =====
-- Where a player may stand, what the destruction of obstacles changes, and the ids of enemies.
use dnf_mock_server_client.Prelude.{
  ℕ, nat_eq, ◌+◌, ◌*◌, ◌%◌, ◌<◌, ◌≡◌, refl, sym, ◌∙◌, ◌⊎◌, inl, inr, true, false, ◌||◌, not, List,
  [], ◌∷◌, arith, ◌==◌, Bool-cases, u32_mod, u64_mod, ◌↔◌,
}
use dnf_mock_server_client.Prelude.Bits.{bit_or-shift32}
use dnf_mock_server_client.Float.{Float, ◌<f◌, zero_float}
use dnf_mock_server_client.Geometry.{
  Position, ObstacleTemplate, is_inside_room, is_inside_collision_box,
}
use dnf_mock_server_client.Room.{
  RoomState, ObstacleState, PositionCheckResult, make_enemy_entity_id, is_blocked, check_position,
  damage_obstacles, apply_obstacle_damage,
}

-- For 32-bit ids of rooms and spawns, the id of an enemy determines the room and the spawn.
pub make_enemy_entity_id-injective :
    (r s r' s' : ℕ)
    → r < u32_mod
    → s < u32_mod
    → r' < u32_mod
    → s' < u32_mod
    → make_enemy_entity_id r s ≡ make_enemy_entity_id r' s'
    → (r ≡ r') × (s ≡ s')
unfolding make_enemy_entity_id
make_enemy_entity_id-injective r s r' s' hr hs hr' hs' e =
    let fits : r * 4294967296 % u64_mod ≡ r * 4294967296 = omega arith in
    let fits' : r' * 4294967296 % u64_mod ≡ r' * 4294967296 = omega arith in
    let sum : r * 4294967296 + s ≡ r' * 4294967296 + s' =
      sym (rw fits (bit_or-shift32 r s hs)) ∙ e ∙ rw fits' (bit_or-shift32 r' s' hs') in
    (omega arith, omega arith)

module _ {R : Type 0} ⦃f : Float R⦄ where
  -- Each obstacle that still stands leaves the position free.
  abbrev pub IsFree : List (ObstacleTemplate R) → List ObstacleState → Position R → Type 0
  IsFree [] os p = Unit
  IsFree (t ∷ ts) [] p = Unit
  IsFree (t ∷ ts) (o ∷ os) p =
      ((o.destroyed ≡ true) ⊎ (is_inside_collision_box t.collision p ≡ false)) × IsFree ts os p

  is_blocked_iff :
      (ts : List (ObstacleTemplate R)) (os : List ObstacleState) (p : Position R)
      → (is_blocked ts os p ≡ false) ↔ IsFree ts os p
  unfolding is_blocked
  is_blocked_iff [] os p = (λ h. tt, λ h. refl)
  is_blocked_iff (t ∷ ts) [] p = (λ h. tt, λ h. refl)
  is_blocked_iff (t ∷ ts) (o ∷ os) p = ground (arith, is_blocked_iff ts os p)

  -- A position is valid exactly when it is not below the floor, lies inside the room and in no
  -- obstacle that still stands.
  pub check_position-valid_iff :
      (r : RoomState R) (p : Position R)
      → (check_position r p ≡ PositionCheckResult.valid) ↔ (
          (p.z <f zero_float ≡ false)
          × (is_inside_room r.room_template p ≡ true)
          × IsFree r.room_template.obstacles r.obstacles p)
  unfolding check_position
  check_position-valid_iff r p =
      ground (arith, is_blocked_iff r.room_template.obstacles r.obstacles p)

  damage_obstacles-IsFree :
      (id damage : ℕ) (ts : List (ObstacleTemplate R)) (os : List ObstacleState) (p : Position R)
      → IsFree ts os p
      → IsFree ts (damage_obstacles id damage os).0 p
  unfolding damage_obstacles
  damage_obstacles-IsFree id damage [] os p h = tt
  damage_obstacles-IsFree id damage (t ∷ ts) [] p h = tt
  damage_obstacles-IsFree id damage (t ∷ ts) (o ∷ os) p h =
      elim (Bool-cases (o.obstacle_id == id)) [
        | inl hit ↦ elim (Bool-cases (not o.destructible || o.destroyed || damage == 0)) [
          | inl refused ↦ rw (hit, refused) h
          | inr hurt ↦ rw (hit, hurt) (ground arith, h.1)
        ]
        | inr other ↦ rw other (h.0, damage_obstacles-IsFree id damage ts os p h.1)
      ]

  -- Damage to obstacles never closes a position that was open.
  pub apply_obstacle_damage-valid :
      (r : RoomState R) (id damage : ℕ) (p : Position R)
      → check_position r p ≡ PositionCheckResult.valid
      → check_position (apply_obstacle_damage r id damage).0 p ≡ PositionCheckResult.valid
  unfolding apply_obstacle_damage
  apply_obstacle_damage-valid r id damage p h =
      let (above, inside, free) = (check_position-valid_iff r p).0 h in
      (check_position-valid_iff _ p).1 (
        above,
        inside,
        damage_obstacles-IsFree id damage r.room_template.obstacles r.obstacles p free,
      )
