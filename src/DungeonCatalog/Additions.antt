-- ===== src/DungeonCatalog/Additions.antt =====
-- The catalog that calls of `AddDungeon` of src/DungeonCatalog.cpp fill.
use dnf_mock_server_client.Prelude.{
  nat_eq, ◌≡◌, inl, inr, true, false, List, [], ◌∷◌, arith, ◌==◌, Bool-cases, Option-cases,
}
use dnf_mock_server_client.Map.{find, emplace}
use dnf_mock_server_client.Map.Laws.{find-emplace}
use dnf_mock_server_client.Float.{Float}
use dnf_mock_server_client.EnemyCatalog.{EnemyCatalog}
use dnf_mock_server_client.Dungeon.{DungeonTemplate}
use dnf_mock_server_client.DungeonCatalog.{
  DungeonCatalog, collect_room_ids, add_dungeon, get_dungeon,
}
use dnf_mock_server_client.DungeonCatalog.{add_dungeon}
use dnf_mock_server_client.DungeonCatalog.Accepted.{
  IsDungeonTemplate, IsDungeonCatalog, collect_room_ids-some, valid_contents-IsRoomTemplate,
}

module _ {R : Type 0} ⦃f : Float R⦄ where
  accepted :
      (enemies : EnemyCatalog R) (catalog : DungeonCatalog R) (t : DungeonTemplate R)
      → (add_dungeon enemies catalog t.id t.name t.rooms t.recommended_party_size
          t.max_party_size).1
        ≡ true
      → IsDungeonTemplate enemies t
        × ((add_dungeon enemies catalog t.id t.name t.rooms t.recommended_party_size
              t.max_party_size).0
            ≡ emplace t.id t catalog)
  unfolding add_dungeon
  accepted enemies catalog t h = elim (Option-cases (collect_room_ids [] t.rooms)) [
    | inl refused ↦ absurd (ground arith)
    | inr (ids, collected) ↦
        let (valid, unseen) = collect_room_ids-some [] t.rooms ids collected in
        let rooms =
          valid_contents-IsRoomTemplate enemies t.rooms ids t.rooms (ground arith) valid in
        (
          record {
            named = ground arith;
            occupied = ground arith;
            room_ids = unseen.0;
            rooms = rooms;
            recommended = ground arith;
            most = ground arith;
          },
          ground arith,
        )
  ]

  refused :
      (enemies : EnemyCatalog R) (catalog : DungeonCatalog R) (t : DungeonTemplate R)
      → (add_dungeon enemies catalog t.id t.name t.rooms t.recommended_party_size
          t.max_party_size).1
        ≡ false
      → (add_dungeon enemies catalog t.id t.name t.rooms t.recommended_party_size
          t.max_party_size).0
        ≡ catalog
  unfolding add_dungeon
  refused enemies catalog t h = elim (Option-cases (collect_room_ids [] t.rooms)) [
    | inl failed ↦ ground arith
    | inr (ids, collected) ↦ ground arith
  ]

  -- Adds the templates of a list, in order.
  unfoldable pub add_dungeons :
      EnemyCatalog R → DungeonCatalog R → List (DungeonTemplate R) → DungeonCatalog R
  add_dungeons enemies catalog [] = catalog
  add_dungeons enemies catalog (t ∷ ts) =
      add_dungeons enemies
        (add_dungeon enemies catalog t.id t.name t.rooms t.recommended_party_size
          t.max_party_size).0
        ts

  add_dungeon-IsDungeonCatalog :
      (enemies : EnemyCatalog R) (catalog : DungeonCatalog R) (t : DungeonTemplate R)
      → IsDungeonCatalog enemies catalog
      → IsDungeonCatalog enemies
          (add_dungeon enemies catalog t.id t.name t.rooms t.recommended_party_size
            t.max_party_size).0
  unfolding get_dungeon
  add_dungeon-IsDungeonCatalog enemies catalog t v id u found =
      elim (Bool-cases
        (add_dungeon enemies catalog t.id t.name t.rooms t.recommended_party_size
          t.max_party_size).1) [
            | inr failed ↦ v id u (ground (arith, refused enemies catalog t failed))
            | inl done ↦
                let (good, put) = accepted enemies catalog t done in
                elim (Bool-cases (t.id == id)) [
                  | inl same ↦ ground (arith, find-emplace t.id id t catalog, good, put, v id u)
                  | inr other ↦ ground (arith, find-emplace t.id id t catalog, put, v id u)
                ]
          ]

  abbrev pub empty_catalog : DungeonCatalog R
  empty_catalog = []

  add_dungeons_from :
      (enemies : EnemyCatalog R) (catalog : DungeonCatalog R) (ts : List (DungeonTemplate R))
      → IsDungeonCatalog enemies catalog
      → IsDungeonCatalog enemies (add_dungeons enemies catalog ts)
  unfolding add_dungeons
  add_dungeons_from enemies catalog [] v = v
  add_dungeons_from enemies catalog (t ∷ ts) v =
      add_dungeons_from enemies
        (add_dungeon enemies catalog t.id t.name t.rooms t.recommended_party_size
          t.max_party_size).0
        ts (add_dungeon-IsDungeonCatalog enemies catalog t v)

  -- Whatever templates are added to the empty catalog, each template that it then returns stands
  -- under its own id and is fit to be played: its rooms, and the portals, obstacles and spawns of a
  -- room, have distinct ids other than 0; each portal leads to a position inside a room of the same
  -- template; an obstacle has hit points exactly if it can be destroyed; each spawn names an enemy
  -- of the enemy catalog, a wave and a position inside its room; and at most four may play.
  pub add_dungeons-IsDungeonCatalog :
      (enemies : EnemyCatalog R) (ts : List (DungeonTemplate R))
      → IsDungeonCatalog enemies (add_dungeons enemies empty_catalog ts)
  unfolding find get_dungeon
  add_dungeons-IsDungeonCatalog enemies ts =
      add_dungeons_from enemies empty_catalog ts (λ id t h. absurd (ground arith))
