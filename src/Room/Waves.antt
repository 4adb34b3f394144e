-- ===== src/Room/Waves.antt =====
-- The waves of a room: which one is next, what it brings, and when the room is cleared.
use dnf_mock_server_client.Prelude.{
  ℕ, nat_eq, ◌≤◌, ◌<◌, ◌≡◌, refl, ◌⊎◌, inl, inr, Bool, true, List, [], ◌∷◌, arith, ◌==◌, any, All,
  ℕ_discrete, length, false, is_some, ◌↔◌, length-map, Bool-cases, keep_if, Option-cases, ◌++◌,
  some,
}
use dnf_mock_server_client.EnemyCatalog.{EnemyTemplate}
use dnf_mock_server_client.Geometry.{EnemySpawnTemplate}
use dnf_mock_server_client.Room.{
  RoomState, next_wave, next_wave_from, EnemyCatalog, greatest_wave, is_cleared, new_room,
  spawn_wave, start_next_wave, RoomTemplate, has_living_enemy, max, get_enemy, ok, EnemyState,
  make_enemy_entity_id,
}

module _ {R : Type 0} where
  -- Some spawn of the list has this wave.
  abbrev pub has_wave : ℕ → List (EnemySpawnTemplate R) → Bool
  has_wave w ss = any (λ s. s.wave == w) ss

  -- No spawn of the list has a wave strictly between the two.
  abbrev pub NoneBetween : ℕ → ℕ → List (EnemySpawnTemplate R) → Type 0
  NoneBetween current next ss = All (λ s. (s.wave ≤ current) ⊎ (next ≤ s.wave)) ss

  abbrev pub NoneAbove : ℕ → List (EnemySpawnTemplate R) → Type 0
  NoneAbove current ss = All (λ s. s.wave ≤ current) ss

  next_wave_from-le :
      (current next : ℕ) (ss : List (EnemySpawnTemplate R))
      → 0 < next
      → (0 < next_wave_from current next ss) × (next_wave_from current next ss ≤ next)
  unfolding next_wave_from
  next_wave_from-le current next [] h = ground arith
  next_wave_from-le current next (s ∷ ss) h =
      ground (arith, next_wave_from-le current next ss, next_wave_from-le current s.wave ss)

  next_wave_from-NoneBetween :
      (current next : ℕ) (ss : List (EnemySpawnTemplate R))
      → 0 < next_wave_from current next ss
      → NoneBetween current (next_wave_from current next ss) ss
  unfolding next_wave_from
  next_wave_from-NoneBetween current next [] h = tt
  next_wave_from-NoneBetween current next (s ∷ ss) h = ground (
    arith,
    next_wave_from-NoneBetween current next ss,
    next_wave_from-NoneBetween current s.wave ss,
    next_wave_from-le current next ss,
    next_wave_from-le current s.wave ss,
  )

  next_wave_from-zero :
      (current : ℕ) (ss : List (EnemySpawnTemplate R))
      → next_wave_from current 0 ss ≡ 0
      → NoneAbove current ss
  unfolding next_wave_from
  next_wave_from-zero current [] h = tt
  next_wave_from-zero current (s ∷ ss) h =
      ground (arith, next_wave_from-zero current ss, next_wave_from-le current s.wave ss)

  next_wave_from-has_wave :
      (current next : ℕ) (ss : List (EnemySpawnTemplate R))
      → (next_wave_from current next ss ≡ next)
        ⊎ ((has_wave (next_wave_from current next ss) ss ≡ true)
            × (current < next_wave_from current next ss))
  unfolding next_wave_from
  next_wave_from-has_wave current next [] = inl refl
  next_wave_from-has_wave current next (s ∷ ss) =
      ground
        (arith, next_wave_from-has_wave current next ss, next_wave_from-has_wave current s.wave ss)

  -- The wave that is chosen is one of the room's, lies above the current one, and skips none; none
  -- is chosen exactly when no spawn lies above the current wave.
  pub next_wave_lem :
      (r : RoomState R)
      → ((next_wave r ≡ 0) × NoneAbove r.current_wave r.room_template.enemy_spawns)
        ⊎ ((r.current_wave < next_wave r)
            × (has_wave (next_wave r) r.room_template.enemy_spawns ≡ true)
            × NoneBetween r.current_wave (next_wave r) r.room_template.enemy_spawns)
  next_wave_lem r =
      let ss = r.room_template.enemy_spawns in
      elim (ℕ_discrete (next_wave r) 0) [
        | yes none_left ↦ inl (none_left, next_wave_from-zero r.current_wave ss none_left)
        | no some_left ↦ elim (next_wave_from-has_wave r.current_wave 0 ss) [
          | inl e ↦ absurd (some_left e)
          | inr (h, above) ↦
              inr (above, h, next_wave_from-NoneBetween r.current_wave 0 ss (omega arith))
        ]
      ]

  NoneAbove-mono :
      (m n : ℕ) (ss : List (EnemySpawnTemplate R)) → m ≤ n → NoneAbove m ss → NoneAbove n ss
  NoneAbove-mono m n [] h a = tt
  NoneAbove-mono m n (s ∷ ss) h a = (omega arith, NoneAbove-mono m n ss h a.1)

  greatest_wave-le : (n : ℕ) (ss : List (EnemySpawnTemplate R)) → n ≤ greatest_wave n ss
  unfolding greatest_wave
  greatest_wave-le n [] = omega arith
  greatest_wave-le n (s ∷ ss) = omega (arith, greatest_wave-le (max n s.wave) ss)

  greatest_wave-NoneAbove :
      (n : ℕ) (ss : List (EnemySpawnTemplate R)) → NoneAbove (greatest_wave n ss) ss
  unfolding greatest_wave
  greatest_wave-NoneAbove n [] = tt
  greatest_wave-NoneAbove n (s ∷ ss) =
      (omega (arith, greatest_wave-le (max n s.wave) ss), greatest_wave-NoneAbove (max n s.wave) ss)

  greatest_wave-le_of_NoneAbove :
      (n w : ℕ) (ss : List (EnemySpawnTemplate R)) → n ≤ w → NoneAbove w ss → greatest_wave n ss ≤ w
  unfolding greatest_wave
  greatest_wave-le_of_NoneAbove n w [] h a = h
  greatest_wave-le_of_NoneAbove n w (s ∷ ss) h a =
      greatest_wave-le_of_NoneAbove (max n s.wave) w ss (omega arith) a.1

  has_wave-le :
      (w n : ℕ) (ss : List (EnemySpawnTemplate R)) → has_wave w ss ≡ true → NoneAbove n ss → w ≤ n
  has_wave-le w n [] h a = cc
  has_wave-le w n (s ∷ ss) h a = ground (arith, has_wave-le w n ss)

  -- What the constructor sets up and every method keeps.
  pub record IsRoom (r : RoomState R) : Type 0 where
    pub last : r.last_wave ≡ greatest_wave 0 r.room_template.enemy_spawns
    pub within : r.current_wave ≤ r.last_wave
    pub obstacle_for_each : length r.obstacles ≡ length r.room_template.obstacles

  pub new_room-IsRoom : (t : RoomTemplate R) → IsRoom (new_room t)
  unfolding new_room
  new_room-IsRoom t = record {
    last = refl;
    within = omega arith;
    obstacle_for_each = length-map t.obstacles _;
  }

  pub start_next_wave-IsRoom :
      (catalog : EnemyCatalog R) (r : RoomState R) → IsRoom r → IsRoom (start_next_wave catalog r).0
  unfolding start_next_wave
  start_next_wave-IsRoom catalog r v =
      let ss = r.room_template.enemy_spawns in
      ground (
        arith,
        next_wave_lem r,
        has_wave-le (next_wave r) (greatest_wave 0 ss) ss,
        greatest_wave-NoneAbove 0 ss,
      )

  -- A well-formed room is cleared exactly when nobody in it is alive and no spawn waits for a later
  -- wave.
  pub is_cleared_iff :
      (r : RoomState R)
      → IsRoom r
      → (is_cleared r ≡ true)
        ↔ ((has_living_enemy r ≡ false) × NoneAbove r.current_wave r.room_template.enemy_spawns)
  unfolding is_cleared
  is_cleared_iff r v =
      let ss = r.room_template.enemy_spawns in
      (
        λ h. (
          ground arith,
          NoneAbove-mono (greatest_wave 0 ss) r.current_wave ss (ground arith)
              (greatest_wave-NoneAbove 0 ss),
        ),
        λ h. ground (arith, greatest_wave-le_of_NoneAbove 0 r.current_wave ss (omega arith) h.1),
      )

  -- The catalog has the template of every spawn.
  abbrev pub AllKnown : EnemyCatalog R → List (EnemySpawnTemplate R) → Type 0
  AllKnown catalog ss = All (λ s. is_some (get_enemy catalog s.enemy_template_id) ≡ true) ss

  spawn_wave-AllKnown :
      (catalog : EnemyCatalog R) (room w : ℕ) (ss : List (EnemySpawnTemplate R))
      → AllKnown catalog ss
      → (spawn_wave catalog room w ss).1 ≡ false
  unfolding spawn_wave
  spawn_wave-AllKnown catalog room w [] k = refl
  spawn_wave-AllKnown catalog room w (s ∷ ss) k =
      ground (arith, spawn_wave-AllKnown catalog room w ss k.1)

  -- The spawns of one wave.
  abbrev pub spawns_of : ℕ → List (EnemySpawnTemplate R) → List (EnemySpawnTemplate R)
  spawns_of w ss = keep_if (λ s. s.wave == w) ss

  -- The enemy of a spawn, as it appears: alive, in its place, with the hit points of its template.
  abbrev pub Spawned : EnemyCatalog R → ℕ → EnemySpawnTemplate R → EnemyState R → Type 0
  Spawned catalog room s e =
      (e.entity_id ≡ make_enemy_entity_id room s.id)
      × (e.spawn_id ≡ s.id)
      × (e.enemy_template_id ≡ s.enemy_template_id)
      × (e.position ≡ s.position)
      × (e.alive ≡ true)
      × (t : EnemyTemplate R) × (get_enemy catalog s.enemy_template_id ≡ some t)
      × (e.current_hp ≡ t.max_hp)

  -- One enemy for each spawn, in the same order.
  abbrev pub AllSpawned :
      EnemyCatalog R → ℕ → List (EnemySpawnTemplate R) → List (EnemyState R) → Type 0
  AllSpawned catalog room [] [] = Unit
  AllSpawned catalog room (s ∷ ss) (e ∷ es) =
      Spawned catalog room s e × AllSpawned catalog room ss es
  AllSpawned catalog room _ _ = ⊥

  spawn_wave-AllSpawned :
      (catalog : EnemyCatalog R) (room w : ℕ) (ss : List (EnemySpawnTemplate R))
      → AllKnown catalog ss
      → AllSpawned catalog room (spawns_of w ss) (spawn_wave catalog room w ss).0
  unfolding spawn_wave
  spawn_wave-AllSpawned catalog room w [] k = tt
  spawn_wave-AllSpawned catalog room w (s ∷ ss) k =
      let rest = spawn_wave-AllSpawned catalog room w ss k.1 in
      elim (Bool-cases (s.wave == w)) [
        | inr other ↦ ground (arith, rest)
        | inl now ↦ elim (Option-cases (get_enemy catalog s.enemy_template_id)) [
          | inl unknown ↦ absurd (ground arith)
          | inr (t, known) ↦
              let shown : Spawned catalog room s (record {
                entity_id = make_enemy_entity_id room s.id;
                spawn_id = s.id;
                enemy_template_id = s.enemy_template_id;
                position = s.position;
                current_hp = t.max_hp;
                alive = true;
              }) =
                (refl, refl, refl, refl, refl, t, known, refl) in
              ground (arith, rest, shown)
        ]
      ]

  -- A well-formed room that nobody guards, and whose enemies are all in the catalog, makes
  -- progress: it is cleared and does not change, or the next wave starts. It is the least wave above
  -- the current one that has a spawn, at most the last; its enemies, one for each of its spawns,
  -- come after those that were there, alive and with all their hit points.
  pub start_next_wave_progress :
      (catalog : EnemyCatalog R) (r : RoomState R)
      → IsRoom r
      → AllKnown catalog r.room_template.enemy_spawns
      → has_living_enemy r ≡ false
      → ((is_cleared r ≡ true) × (start_next_wave catalog r ≡ (r, ok false)))
        ⊎ (let after = (start_next_wave catalog r).0 in
            let ss = r.room_template.enemy_spawns in
            (is_cleared r ≡ false)
            × ((start_next_wave catalog r).1 ≡ ok true)
            × (r.current_wave < after.current_wave)
            × (after.current_wave ≤ r.last_wave)
            × (has_wave after.current_wave ss ≡ true)
            × NoneBetween r.current_wave after.current_wave ss
            × (es : List (EnemyState R)) × (after.enemies ≡ r.enemies ++ es)
            × AllSpawned catalog r.room_template.id (spawns_of after.current_wave ss) es)
  unfolding start_next_wave
  start_next_wave_progress catalog r v k quiet =
      let ss = r.room_template.enemy_spawns in
      let known = spawn_wave-AllKnown catalog r.room_template.id (next_wave r) ss k in
      elim (next_wave_lem r) [
        | inl (e, none_above) ↦ inl (((is_cleared_iff r v).1 (quiet, none_above)), ground arith)
        | inr (above, h, least) ↦
            let bounded =
              has_wave-le (next_wave r) (greatest_wave 0 ss) ss h (greatest_wave-NoneAbove 0 ss) in
            let spawned = spawn_wave-AllSpawned catalog r.room_template.id (next_wave r) ss k in
            let started : start_next_wave catalog r ≡ (
              record r {
                enemies = r.enemies ++ (spawn_wave catalog r.room_template.id (next_wave r) ss).0;
                current_wave = next_wave r;
              },
              ok true,
            ) =
              ground arith in
            rw started (
              inr (
                unfold is_cleared in ground arith,
                refl,
                above,
                ground arith,
                h,
                least,
                (spawn_wave catalog r.room_template.id (next_wave r) ss).0,
                refl,
                spawned,
              ))
      ]
