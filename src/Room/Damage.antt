-- ===== src/Room/Damage.antt =====
-- Damage to the enemies and the obstacles of a room.
use dnf_mock_server_client.Prelude.{
  ℕ, zero, suc, nat_eq, ◌-◌, ◌*◌, ◌<◌, ◌≡◌, refl, ap, ◌≢◌, ◌⊎◌, inl, inr, true, false, Option, none,
  some, List, [], ◌∷◌, ◌++◌, arith, ltb, ◌==◌, if◌then◌else◌, Bool-cases, Option-cases, All,
  All-append,
}
use dnf_mock_server_client.EnemyCatalog.{EnemyCatalog, get_enemy, IsEnemyCatalog}
use dnf_mock_server_client.Geometry.{EnemySpawnTemplate, RoomTemplate}
use dnf_mock_server_client.Room.{
  RoomState, EnemyState, damage_enemies, apply_enemy_damage, spawn_wave, start_next_wave, new_room,
  next_wave,
}

module _ {R : Type 0} where
  -- The enemy that an id names.
  unfoldable pub target : ℕ → List (EnemyState R) → Option (EnemyState R)
  target id [] = none
  target id (e ∷ es) = if e.entity_id == id then some e else target id es

  -- Alive means that there are hit points left.
  abbrev pub IsHealthy : List (EnemyState R) → Type 0
  IsHealthy es = All (λ e. e.alive ≡ ltb 0 e.current_hp) es

  damage_enemies-IsHealthy :
      (id damage : ℕ) (es : List (EnemyState R))
      → IsHealthy es
      → IsHealthy (damage_enemies id damage es).0
  unfolding damage_enemies
  damage_enemies-IsHealthy id damage [] h = tt
  damage_enemies-IsHealthy id damage (e ∷ es) h =
      ground (arith, damage_enemies-IsHealthy id damage es h.1)

  spawn_wave-IsHealthy :
      (catalog : EnemyCatalog R) (room w : ℕ) (ss : List (EnemySpawnTemplate R))
      → IsEnemyCatalog catalog
      → IsHealthy (spawn_wave catalog room w ss).0
  unfolding spawn_wave
  spawn_wave-IsHealthy catalog room w [] c = tt
  spawn_wave-IsHealthy catalog room w (s ∷ ss) c =
      elim (Option-cases (get_enemy catalog s.enemy_template_id)) [
        | inl missing ↦ ground (arith, spawn_wave-IsHealthy catalog room w ss c)
        | inr (t, found) ↦
            ground (arith, spawn_wave-IsHealthy catalog room w ss c, c s.enemy_template_id t found)
      ]

  pub new_room-IsHealthy : (t : RoomTemplate R) → IsHealthy (new_room t).enemies
  unfolding new_room
  new_room-IsHealthy t = tt

  -- A wave only adds enemies behind those that are there.
  start_next_wave-enemies :
      (catalog : EnemyCatalog R) (r : RoomState R)
      → ((start_next_wave catalog r).0.enemies ≡ r.enemies)
        ⊎ ((start_next_wave catalog r).0.enemies
            ≡ r.enemies
              ++ (spawn_wave catalog r.room_template.id
                  (next_wave r)
                  r.room_template.enemy_spawns).0)
  unfolding start_next_wave
  start_next_wave-enemies catalog r = ground arith

  pub start_next_wave-IsHealthy :
      (catalog : EnemyCatalog R) (r : RoomState R)
      → IsEnemyCatalog catalog
      → IsHealthy r.enemies
      → IsHealthy (start_next_wave catalog r).0.enemies
  start_next_wave-IsHealthy catalog r c h = elim (start_next_wave-enemies catalog r) [
    | inl same ↦ rw same h
    | inr more ↦ rw more (
        All-append _ r.enemies _ (
          h,
          spawn_wave-IsHealthy catalog r.room_template.id (next_wave r) r.room_template.enemy_spawns
              c,
        ))
  ]

  -- No method makes an enemy that is alive with no hit points, or dead with some.
  pub apply_enemy_damage-IsHealthy :
      (r : RoomState R) (id damage : ℕ)
      → IsHealthy r.enemies
      → IsHealthy (apply_enemy_damage r id damage).0.enemies
  unfolding apply_enemy_damage
  apply_enemy_damage-IsHealthy r id damage h = damage_enemies-IsHealthy id damage r.enemies h

  damage_enemies-target :
      (id damage : ℕ) (es : List (EnemyState R)) (e : EnemyState R)
      → target id es ≡ some e
      → e.alive ≡ true
      → 0 < damage
      → ((damage_enemies id damage es).1 ≡ true)
        × (target id (damage_enemies id damage es).0
            ≡ some
                (record e { current_hp = e.current_hp - damage; alive = ltb damage e.current_hp }))
  unfolding damage_enemies target
  damage_enemies-target id damage [] e t a d = cc
  damage_enemies-target id damage (x ∷ es) e t a d =
      ground (arith, damage_enemies-target id damage es e)

  damage_enemies-other :
      (id damage j : ℕ) (es : List (EnemyState R))
      → id ≢ j
      → target j (damage_enemies id damage es).0 ≡ target j es
  unfolding damage_enemies target
  damage_enemies-other id damage j [] n = refl
  damage_enemies-other id damage j (x ∷ es) n =
      ground (arith, damage_enemies-other id damage j es n)

  -- The enemy after a hit.
  abbrev pub hit : EnemyState R → ℕ → EnemyState R
  hit e damage = record e { current_hp = e.current_hp - damage; alive = ltb damage e.current_hp }

  -- A positive damage to a living enemy is accepted: the enemy loses it, down to 0, and lives on
  -- exactly if it had more hit points; no other enemy changes.
  pub apply_enemy_damage_lem :
      (r : RoomState R) (id damage : ℕ) (e : EnemyState R)
      → target id r.enemies ≡ some e
      → e.alive ≡ true
      → 0 < damage
      → ((apply_enemy_damage r id damage).1 ≡ true)
        × ((j : ℕ)
            → target j (apply_enemy_damage r id damage).0.enemies
              ≡ (if id == j then some (hit e damage) else target j r.enemies))
  unfolding apply_enemy_damage
  apply_enemy_damage_lem r id damage e t a d =
      let (done, now) = damage_enemies-target id damage r.enemies e t a d in
      (done, λ j. ground (arith, now, damage_enemies-other id damage j r.enemies))

  damage_enemies_missed :
      (id damage : ℕ) (es : List (EnemyState R))
      → (damage_enemies id damage es).1 ≡ false
      → (damage_enemies id damage es).0 ≡ es
  unfolding damage_enemies
  damage_enemies_missed id damage [] h = refl
  damage_enemies_missed id damage (e ∷ es) h = ground (arith, damage_enemies_missed id damage es)

  -- Damage that is refused changes nothing.
  pub apply_enemy_damage_missed :
      (r : RoomState R) (id damage : ℕ)
      → (apply_enemy_damage r id damage).1 ≡ false
      → (apply_enemy_damage r id damage).0 ≡ r
  unfolding apply_enemy_damage
  apply_enemy_damage_missed r id damage h =
      ap (λ es. record r { enemies = es }) (damage_enemies_missed id damage r.enemies h)

  pub damage_enemies-dead :
      (id damage : ℕ) (es : List (EnemyState R)) (e : EnemyState R)
      → target id es ≡ some e
      → e.alive ≡ false
      → target id (damage_enemies id damage es).0 ≡ some e
  unfolding damage_enemies target
  damage_enemies-dead id damage [] e t a = cc
  damage_enemies-dead id damage (x ∷ es) e t a = ground (arith, damage_enemies-dead id damage es e)

  -- Hits one after the other.
  pub strike : RoomState R → ℕ → ℕ → ℕ → RoomState R
  strike r id damage zero = r
  strike r id damage (suc n) = strike (apply_enemy_damage r id damage).0 id damage n

  strike-dead :
      (n : ℕ) (r : RoomState R) (id damage : ℕ) (e : EnemyState R)
      → target id r.enemies ≡ some e
      → e.alive ≡ false
      → target id (strike r id damage n).enemies ≡ some e
  unfolding strike apply_enemy_damage
  strike-dead zero r id damage e t a = t
  strike-dead (suc n) r id damage e t a =
      strike-dead n (apply_enemy_damage r id damage).0 id damage e
        (damage_enemies-dead id damage r.enemies e t a) a

  -- Enough hits kill: if an enemy is alive exactly when it has hit points, then n hits of a
  -- positive damage take n times the damage from it, down to 0, and it lives on exactly if it had
  -- more hit points than that.
  pub strike_lem :
      (n : ℕ) (r : RoomState R) (id damage : ℕ) (e : EnemyState R)
      → target id r.enemies ≡ some e
      → e.alive ≡ ltb 0 e.current_hp
      → 0 < damage
      → target id (strike r id damage n).enemies
        ≡ some (record e {
          current_hp = e.current_hp - n * damage;
          alive = ltb (n * damage) e.current_hp;
        })
  unfolding strike
  strike_lem zero r id damage e t h d = ground arith
  strike_lem (suc n) r id damage e t h d = elim (Bool-cases e.alive) [
    | inl living ↦
        let (_, now) = apply_enemy_damage_lem r id damage e t living d in
        ground (
          arith,
          strike_lem n (apply_enemy_damage r id damage).0 id damage (hit e damage)
              (ground (arith, now id)) (ground arith) d,
        )
    | inr dead ↦ ground (arith, strike-dead (suc n) r id damage e t dead)
  ]
