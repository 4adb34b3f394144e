-- ===== src/DungeonCatalog/Accepted.antt =====
-- What `AddDungeon` of src/DungeonCatalog.cpp lets into the catalog.
use dnf_mock_server_client.Prelude.{
  ℕ, nat_eq, ◌≤◌, ◌<◌, ◌≡◌, refl, inl, inr, true, false, some, List, [], ◌∷◌, map, arith, is_some,
  Option-cases, length, All, ◌↔◌,
}
use dnf_mock_server_client.Prelude.{elem, Distinct}
use dnf_mock_server_client.Float.{Float, ◌<f◌, zero_float}
use dnf_mock_server_client.Geometry.{
  RoomTemplate, PortalTemplate, ObstacleTemplate, EnemySpawnTemplate, is_inside_room,
}
use dnf_mock_server_client.EnemyCatalog.{EnemyCatalog, get_enemy}
use dnf_mock_server_client.Party.{max_party_members}
use dnf_mock_server_client.Dungeon.{DungeonTemplate}
use dnf_mock_server_client.Dungeon.Progress.{find_template}
use dnf_mock_server_client.DungeonCatalog.{
  DungeonCatalog, valid_room, collect_room_ids, valid_portals, valid_obstacles, valid_enemy_spawns,
  valid_contents, get_dungeon,
}

-- No element repeats another, or one of those that were seen.
abbrev Unseen : List ℕ → List ℕ → Type 0
Unseen seen xs = Distinct xs × ((a : ℕ) → elem a seen ≡ true → elem a xs ≡ false)

Unseen-cons :
    (seen : List ℕ) (x : ℕ) (xs : List ℕ)
    → elem x seen ≡ false
    → Unseen (x ∷ seen) xs
    → Unseen seen (x ∷ xs)
Unseen-cons seen x xs new (distinct, fresh) =
    ((ground (arith, fresh x), distinct), λ a h. ground (arith, fresh a))

module _ {R : Type 0} ⦃f : Float R⦄ where
  -- A portal leads to a room of the dungeon, and to a position inside that room.
  pub record IsPortal (rooms : List (RoomTemplate R)) (p : PortalTemplate R) : Type 0 where
    pub named : 0 < p.id
    pub target : RoomTemplate R
    pub leads : find_template p.target_room_id rooms ≡ some target
    pub lands : is_inside_room target p.target_position ≡ true

  abbrev pub IsObstacle : ObstacleTemplate R → Type 0
  IsObstacle o = (0 < o.id) × ((o.destructible ≡ true) ↔ (0 < o.max_hp))

  abbrev pub IsEnemySpawn : EnemyCatalog R → RoomTemplate R → EnemySpawnTemplate R → Type 0
  IsEnemySpawn enemies room s =
      (0 < s.id)
      × (0 < s.wave)
      × (is_inside_room room s.position ≡ true)
      × (is_some (get_enemy enemies s.enemy_template_id) ≡ true)

  pub record IsRoomTemplate (enemies : EnemyCatalog R) (rooms : List (RoomTemplate R))
      (room : RoomTemplate R) : Type 0 where
    pub named : 0 < room.id
    pub spawn : is_inside_room room room.player_spawn ≡ true
    pub floor : room.player_spawn.z <f zero_float ≡ false
    pub portals : All (IsPortal rooms) room.portals
    pub portal_ids : Distinct (map (λ p. p.id) room.portals)
    pub obstacles : All IsObstacle room.obstacles
    pub obstacle_ids : Distinct (map (λ o. o.id) room.obstacles)
    pub enemy_spawns : All (IsEnemySpawn enemies room) room.enemy_spawns
    pub enemy_spawn_ids : Distinct (map (λ s. s.id) room.enemy_spawns)

  pub record IsDungeonTemplate (enemies : EnemyCatalog R) (t : DungeonTemplate R) : Type 0 where
    pub named : 0 < t.id
    pub occupied : 0 < length t.rooms
    pub room_ids : Distinct (map (λ r. r.id) t.rooms)
    pub rooms : All (IsRoomTemplate enemies t.rooms) t.rooms
    pub recommended : (0 < t.recommended_party_size) × (t.recommended_party_size ≤ t.max_party_size)
    pub most : t.max_party_size ≤ max_party_members

  valid_portals-IsPortal :
      (rooms : List (RoomTemplate R)) (room_ids : List ℕ) (room : RoomTemplate R) (seen : List ℕ)
      (ps : List (PortalTemplate R))
      → valid_portals rooms room_ids room seen ps ≡ true
      → All (IsPortal rooms) ps × Unseen seen (map (λ p. p.id) ps)
  unfolding valid_portals
  valid_portals-IsPortal rooms room_ids room seen [] h = (tt, (tt, λ a k. refl))
  valid_portals-IsPortal rooms room_ids room seen (p ∷ ps) h =
      elim (Option-cases (find_template p.target_room_id rooms)) [
        | inl missing ↦ absurd (ground arith)
        | inr (target, leads) ↦
            let (more, unseen) =
              valid_portals-IsPortal rooms room_ids room (p.id ∷ seen) ps (ground arith) in
            let good : IsPortal rooms p = record {
              named = ground arith;
              target = target;
              leads = leads;
              lands = ground arith;
            } in
            ((good, more), Unseen-cons seen p.id (map (λ p. p.id) ps) (ground arith) unseen)
      ]

  valid_obstacles-IsObstacle :
      (room : RoomTemplate R) (seen : List ℕ) (os : List (ObstacleTemplate R))
      → valid_obstacles room seen os ≡ true
      → All IsObstacle os × Unseen seen (map (λ o. o.id) os)
  unfolding valid_obstacles
  valid_obstacles-IsObstacle room seen [] h = (tt, (tt, λ a k. refl))
  valid_obstacles-IsObstacle room seen (o ∷ os) h =
      let (more, unseen) = valid_obstacles-IsObstacle room (o.id ∷ seen) os (ground arith) in
      (
        ((ground arith, ground arith), more),
        Unseen-cons seen o.id (map (λ o. o.id) os) (ground arith) unseen,
      )

  valid_enemy_spawns-IsEnemySpawn :
      (enemies : EnemyCatalog R) (room : RoomTemplate R) (seen : List ℕ)
      (ss : List (EnemySpawnTemplate R))
      → valid_enemy_spawns enemies room seen ss ≡ true
      → All (IsEnemySpawn enemies room) ss × Unseen seen (map (λ s. s.id) ss)
  unfolding valid_enemy_spawns
  valid_enemy_spawns-IsEnemySpawn enemies room seen [] h = (tt, (tt, λ a k. refl))
  valid_enemy_spawns-IsEnemySpawn enemies room seen (s ∷ ss) h =
      let (more, unseen) =
        valid_enemy_spawns-IsEnemySpawn enemies room (s.id ∷ seen) ss (ground arith) in
      ((ground arith, more), Unseen-cons seen s.id (map (λ s. s.id) ss) (ground arith) unseen)

  pub collect_room_ids-some :
      (seen : List ℕ) (rooms : List (RoomTemplate R)) (ids : List ℕ)
      → collect_room_ids seen rooms ≡ some ids
      → All (λ r. valid_room r ≡ true) rooms × Unseen seen (map (λ r. r.id) rooms)
  unfolding collect_room_ids
  collect_room_ids-some seen [] ids h = (tt, (tt, λ a k. refl))
  collect_room_ids-some seen (r ∷ rs) ids h =
      let (more, unseen) = collect_room_ids-some (r.id ∷ seen) rs ids (ground arith) in
      ((ground arith, more), Unseen-cons seen r.id (map (λ r. r.id) rs) (ground arith) unseen)

  pub valid_contents-IsRoomTemplate :
      (enemies : EnemyCatalog R) (rooms : List (RoomTemplate R)) (ids : List ℕ)
      (more : List (RoomTemplate R))
      → valid_contents enemies rooms ids more ≡ true
      → All (λ r. valid_room r ≡ true) more
      → All (IsRoomTemplate enemies rooms) more
  unfolding valid_contents valid_room
  valid_contents-IsRoomTemplate enemies rooms ids [] h valid = tt
  valid_contents-IsRoomTemplate enemies rooms ids (r ∷ rs) h (valid, others) =
      let (portals, p) = valid_portals-IsPortal rooms ids r [] r.portals (ground arith) in
      let (obstacles, o) = valid_obstacles-IsObstacle r [] r.obstacles (ground arith) in
      let (spawns, s) =
        valid_enemy_spawns-IsEnemySpawn enemies r [] r.enemy_spawns (ground arith) in
      (
        record {
          named = ground arith;
          spawn = ground arith;
          floor = ground arith;
          portals = portals;
          portal_ids = p.0;
          obstacles = obstacles;
          obstacle_ids = o.0;
          enemy_spawns = spawns;
          enemy_spawn_ids = s.0;
        },
        valid_contents-IsRoomTemplate enemies rooms ids rs (ground arith) others,
      )

  -- Every template stands under its own id and is fit to be played.
  abbrev pub IsDungeonCatalog : EnemyCatalog R → DungeonCatalog R → Type 0
  IsDungeonCatalog enemies catalog =
      (id : ℕ) (t : DungeonTemplate R)
      → get_dungeon catalog id ≡ some t
      → IsDungeonTemplate enemies t × (t.id ≡ id)
