-- ===== src/DungeonCatalog/Furnished.antt =====
-- A dungeon that was made from a template of the catalog always has the room that a portal leads to.
use dnf_mock_server_client.Prelude.{
  ℕ, nat_eq, ◌≡◌, refl, subst, ◌∙◌, inl, inr, true, some, List, [], ◌∷◌, arith, ◌==◌, is_some,
  Bool-cases, Option-cases, all, All, if◌then◌else◌, none, ◌≢◌,
}
use dnf_mock_server_client.Prelude.Except.{Except-cases, ok}
use dnf_mock_server_client.Map.{Map, find, contains, assign}
use dnf_mock_server_client.Map.Laws.{find-assign}
use dnf_mock_server_client.Prelude.{elem}
use dnf_mock_server_client.Float.{Float}
use dnf_mock_server_client.Geometry.{RoomTemplate, PortalTemplate, is_inside_collision_box}
use dnf_mock_server_client.EnemyCatalog.{EnemyCatalog}
use dnf_mock_server_client.Room.{RoomState, start_next_wave}
use dnf_mock_server_client.Player.{PlayerState, enter_room}
use dnf_mock_server_client.Dungeon.{DungeonInstance, DungeonState}
use dnf_mock_server_client.Dungeon.Progress.{
  find_template, find_portal, start_wave_in, advance_rooms, enter_target, try_use_portal,
  UsePortalResult,
}
use dnf_mock_server_client.DungeonCatalog.Accepted.{IsDungeonTemplate, IsRoomTemplate, IsPortal}
use dnf_mock_server_client.DungeonCatalog.Instances.{room_at, room_ids}

module _ {R : Type 0} ⦃f : Float R⦄ (enemies : EnemyCatalog R) where
  -- The dungeon has the rooms of its template, which is fit to be played, and its players are there.
  pub record Furnished (i : DungeonInstance R) : Type 0 where
    pub fit : IsDungeonTemplate enemies i.dungeon_template
    pub rooms :
        (k : ℕ)
        → room_at k i.rooms ≡ (if elem k (room_ids i.dungeon_template.rooms) then some k else none)
    pub players :
        (s : ℕ) (p : PlayerState R)
        → find s i.players ≡ some p
        → elem p.room_id (room_ids i.dungeon_template.rooms) ≡ true

  find_template-elem :
      (k : ℕ) (ts : List (RoomTemplate R)) → is_some (find_template k ts) ≡ elem k (room_ids ts)
  unfolding find_template
  find_template-elem k [] = refl
  find_template-elem k (t ∷ ts) = ground (arith, find_template-elem k ts)

  find_template-All {κ} :
      (P : RoomTemplate R → Type κ) (k : ℕ) (ts : List (RoomTemplate R)) (t : RoomTemplate R)
      → find_template k ts ≡ some t
      → All P ts
      → P t
  unfolding find_template
  find_template-All P k [] t h all = absurd (ground arith)
  find_template-All P k (u ∷ us) t h (first, rest) = elim (Bool-cases (u.id == k)) [
    | inl here ↦ let same : u ≡ t = ground arith in subst P same first
    | inr later ↦ find_template-All P k us t (ground arith) rest
  ]

  find_portal-All {κ} :
      (P : PortalTemplate R → Type κ) (p : PlayerState R) (ps : List (PortalTemplate R))
      (q : PortalTemplate R)
      → find_portal p ps ≡ some q
      → All P ps
      → P q
  unfolding find_portal
  find_portal-All P p [] q h all = absurd (ground arith)
  find_portal-All P p (u ∷ us) q h (first, rest) =
      elim (Bool-cases (is_inside_collision_box u.trigger_area p.position)) [
        | inl here ↦ let same : u ≡ q = ground arith in subst P same first
        | inr later ↦ find_portal-All P p us q (ground arith) rest
      ]

  start_next_wave-template :
      (r : RoomState R) → (start_next_wave enemies r).0.room_template ≡ r.room_template
  unfolding start_next_wave
  start_next_wave-template r = ground arith

  pub room_at-start_wave_in :
      (k room_id : ℕ) (rooms : Map ℕ (RoomState R))
      → room_at k (start_wave_in enemies room_id rooms).0 ≡ room_at k rooms
  unfolding start_wave_in
  room_at-start_wave_in k room_id rooms = elim (Option-cases (find room_id rooms)) [
    | inl missing ↦ ground arith
    | inr (room, found) ↦ ground (
      arith,
      find-assign room_id k (start_next_wave enemies room).0 rooms,
      start_next_wave-template room,
    )
  ]

  pub room_at-advance_rooms :
      (k : ℕ) (ids : List ℕ) (rooms : Map ℕ (RoomState R))
      → room_at k (advance_rooms enemies ids rooms).0 ≡ room_at k rooms
  unfolding advance_rooms
  room_at-advance_rooms k [] rooms = refl
  room_at-advance_rooms k (room_id ∷ ids) rooms =
      let first = start_wave_in enemies room_id rooms in
      let here = room_at-start_wave_in k room_id rooms in
      elim (Except-cases first.1) [
        | inl (started, calm) ↦ ground (arith, here, room_at-advance_rooms k ids first.0)
        | inr (e, thrown) ↦ ground (arith, here)
      ]

  module _ (i : DungeonInstance R) (v : Furnished i) where
    -- The same template and players, with rooms of the same ids.
    pub refurnished :
        (rooms : Map ℕ (RoomState R)) (state : DungeonState)
        → ((k : ℕ) → room_at k rooms ≡ room_at k i.rooms)
        → Furnished (record i { rooms = rooms; state = state })
    refurnished rooms state same = record {
      fit = v.fit;
      rooms = λ k. same k ∙ v.rooms k;
      players = v.players;
    }

    -- What a player at a portal finds: a room of the dungeon.
    portal_target :
        (p : PlayerState R) (t : RoomTemplate R) (q : PortalTemplate R)
        → find_template p.room_id i.dungeon_template.rooms ≡ some t
        → find_portal p t.portals ≡ some q
        → (room : RoomState R) × (find q.target_room_id i.rooms ≡ some room)
          × (elem room.room_template.id (room_ids i.dungeon_template.rooms) ≡ true)
    portal_target p t q listed reached =
        let room =
          find_template-All (IsRoomTemplate enemies i.dungeon_template.rooms) p.room_id
            i.dungeon_template.rooms t listed v.fit.rooms in
        let good =
          find_portal-All (IsPortal i.dungeon_template.rooms) p t.portals q reached room.portals in
        let there : elem q.target_room_id (room_ids i.dungeon_template.rooms) ≡ true =
          ground
            (arith, find_template-elem q.target_room_id i.dungeon_template.rooms, good.leads) in
        elim (Option-cases (find q.target_room_id i.rooms)) [
          | inl missing ↦ absurd (ground (arith, v.rooms q.target_room_id))
          | inr (target, found) ↦ (target, found, ground (arith, there, v.rooms q.target_room_id))
        ]

    -- The room of a player, and its template.
    at_home :
        (s : ℕ) (p : PlayerState R)
        → find s i.players ≡ some p
        → (contains p.room_id i.rooms ≡ true)
          × (is_some (find_template p.room_id i.dungeon_template.rooms) ≡ true)
    at_home s p found = (
      ground (arith, v.rooms p.room_id, v.players s p),
      ground (arith, v.players s p, find_template-elem p.room_id i.dungeon_template.rooms),
    )

    entered :
        (s : ℕ) (p q : PlayerState R) (k : ℕ)
        → elem q.room_id (room_ids i.dungeon_template.rooms) ≡ true
        → Furnished (record i {
          players = assign s q i.players;
          rooms = (start_wave_in enemies k i.rooms).0;
        })
    entered s p q k there = record {
      fit = v.fit;
      rooms = λ j. room_at-start_wave_in j k i.rooms ∙ v.rooms j;
      players = λ t r h. ground (arith, find-assign s t q i.players, v.players t r);
    }

    enter_target-Furnished :
        (s : ℕ) (p : PlayerState R) (t : RoomTemplate R) (q : PortalTemplate R)
        → find_template p.room_id i.dungeon_template.rooms ≡ some t
        → find_portal p t.portals ≡ some q
        → Furnished (enter_target enemies i s p q).0
          × ((enter_target enemies i s p q).1 ≢ ok UsePortalResult.target_room_not_found)
    unfolding enter_target enter_room
    enter_target-Furnished s p t q listed reached =
        let (room, found, there) = portal_target p t q listed reached in
        let moved : PlayerState R = record p {
          room_id = room.room_template.id;
          position = q.target_position;
        } in
        elim (Except-cases (start_wave_in enemies q.target_room_id i.rooms).1) [
          | inl (wave, calm) ↦ ground (arith, v, entered s p moved q.target_room_id there)
          | inr (e, thrown) ↦ ground (arith, v, entered s p moved q.target_room_id there)
        ]

    pub try_use_portal-Furnished :
        (s : ℕ)
        → Furnished (try_use_portal enemies i s).0
          × ((try_use_portal enemies i s).1 ≢ ok UsePortalResult.target_room_not_found)
    unfolding try_use_portal
    try_use_portal-Furnished s = elim (Option-cases (find s i.players)) [
      | inl absent ↦ ground (arith, v)
      | inr (p, present) ↦
          let (stored, described) = at_home s p present in
          elim (Option-cases (find_template p.room_id i.dungeon_template.rooms)) [
            | inl missing ↦ absurd (ground arith)
            | inr (t, listed) ↦ elim (Option-cases (find_portal p t.portals)) [
              | inl outside ↦ ground (arith, v)
              | inr (q, reached) ↦ ground (arith, v, enter_target-Furnished s p t q listed reached)
            ]
          ]
    ]
