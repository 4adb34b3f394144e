-- ===== src/DungeonCatalog/Instances.antt =====
-- A template of the catalog makes an instance: the constructor of src/DungeonInstance.cpp does not
-- throw for it.
use dnf_mock_server_client.Prelude.{
  ℕ, nat_eq, ◌≤◌, ◌<◌, ◌≡◌, refl, subst, inl, inr, true, false, some, List, [], ◌∷◌, map, arith,
  Bool-cases, length, All, Option, if◌then◌else◌, none,
}
use dnf_mock_server_client.Prelude.Except.{ok}
use dnf_mock_server_client.Map.{Map, find, contains, emplace}
use dnf_mock_server_client.Map.Laws.{find-emplace}
use dnf_mock_server_client.Prelude.{elem, Distinct}
use dnf_mock_server_client.Float.{Float, ◌<f◌, zero_float}
use dnf_mock_server_client.Geometry.{RoomTemplate}
use dnf_mock_server_client.EnemyCatalog.{EnemyCatalog}
use dnf_mock_server_client.Room.{RoomState, new_room}
use dnf_mock_server_client.Player.{PlayerState, new_player}
use dnf_mock_server_client.Party.{max_party_members}
use dnf_mock_server_client.Dungeon.{
  DungeonInstance, DungeonTemplate, check_participants, make_rooms, make_players, new_instance,
  DungeonState,
}
use dnf_mock_server_client.DungeonCatalog.Accepted.{IsDungeonTemplate, IsRoomTemplate}
use dnf_mock_server_client.Prelude.{List-cases}
use dnf_mock_server_client.Prelude.Except.{Except-cases}

-- The ids of the rooms of a template.
abbrev pub room_ids : {R : Type 0} → List (RoomTemplate R) → List ℕ
room_ids rooms = map (λ r. r.id) rooms

check_participants_lem :
    (seen ss : List ℕ)
    → Distinct ss
    → elem 0 ss ≡ false
    → ((a : ℕ) → elem a seen ≡ true → elem a ss ≡ false)
    → check_participants seen ss ≡ true
unfolding check_participants
check_participants_lem seen [] d z fresh = refl
check_participants_lem seen (s ∷ ss) (new, d) z fresh =
    let rest =
      check_participants_lem (s ∷ seen) ss d (ground arith) (λ a h. ground (arith, fresh a)) in
    elim (Bool-cases (elem s seen)) [
      | inl again ↦ absurd (ground (arith, fresh s again))
      | inr first ↦ ground (arith, rest)
    ]

-- The id of the template of the room that is stored under a key.
abbrev pub room_at : {R : Type 0} → ℕ → Map ℕ (RoomState R) → Option ℕ
room_at k rooms = elim (find k rooms) [ none ↦ none | some r ↦ some r.room_template.id ]

module _ {R : Type 0} where
  make_rooms_lem :
      (ts : List (RoomTemplate R)) (rooms : Map ℕ (RoomState R))
      → Distinct (room_ids ts)
      → ((k : ℕ) → contains k rooms ≡ true → elem k (room_ids ts) ≡ false)
      → (m : Map ℕ (RoomState R)) × (make_rooms ts rooms ≡ ok m)
        × ((k : ℕ) → room_at k m ≡ (if elem k (room_ids ts) then some k else room_at k rooms))
  unfolding make_rooms new_room
  make_rooms_lem [] rooms d fresh = (rooms, refl, λ k. ground arith)
  make_rooms_lem (t ∷ ts) rooms (new, d) fresh =
      let put = λ (k : ℕ). find-emplace t.id k (new_room t) rooms in
      let (m, made, there) =
        make_rooms_lem ts (emplace t.id (new_room t) rooms) d
          (λ k h. ground (arith, put k, fresh k)) in
      elim (Bool-cases (contains t.id rooms)) [
        | inl again ↦ absurd (ground (arith, fresh t.id again))
        | inr first ↦ (m, ground arith, λ k. ground (arith, there k, put k))
      ]

module _ {R : Type 0} ⦃f : Float R⦄ where
  -- The players of the table are in the room.
  abbrev AllIn : RoomTemplate R → Map ℕ (PlayerState R) → Type 0
  AllIn room players = (s : ℕ) (p : PlayerState R) → find s players ≡ some p → p.room_id ≡ room.id

  make_players_lem :
      (room : RoomTemplate R) (ss : List ℕ) (players : Map ℕ (PlayerState R))
      → 0 < room.id
      → room.player_spawn.z <f zero_float ≡ false
      → elem 0 ss ≡ false
      → AllIn room players
      → (m : Map ℕ (PlayerState R)) × (make_players room ss players ≡ ok m) × AllIn room m
  unfolding make_players new_player
  make_players_lem room [] players named floor z here = (players, refl, here)
  make_players_lem room (s ∷ ss) players named floor z here =
      elim (Except-cases (new_player s room.id room.player_spawn 100 100)) [
        | inr (e, refused) ↦ absurd (ground arith)
        | inl (p, made) ↦
            let (m, done, all_here) =
              make_players_lem room ss (emplace s p players) named floor (ground arith)
                (λ t q h. ground (arith, find-emplace s t p players, here t q)) in
            (m, ground arith, all_here)
      ]

  -- A template that is fit to be played, and one to four distinct sessions other than 0, make an
  -- instance: it has every room of the template and no other, and all its players are in the
  -- first room.
  pub new_instance-IsDungeonTemplate :
      (enemies : EnemyCatalog R) (dungeon_id : ℕ) (t : DungeonTemplate R) (party_id : ℕ)
      (participants : List ℕ) (now : ℕ)
      → IsDungeonTemplate enemies t
      → 0 < dungeon_id
      → 0 < party_id
      → Distinct participants
      → elem 0 participants ≡ false
      → 0 < length participants
      → length participants ≤ max_party_members
      → (i : DungeonInstance R) × (new_instance dungeon_id t party_id participants now ≡ ok i)
        × (i.dungeon_template ≡ t)
        × ((k : ℕ) → room_at k i.rooms ≡ (if elem k (room_ids t.rooms) then some k else none))
        × ((s : ℕ) (p : PlayerState R)
            → find s i.players ≡ some p
            → elem p.room_id (room_ids t.rooms) ≡ true)
  unfolding new_instance find
  new_instance-IsDungeonTemplate enemies dungeon_id t party_id participants now v id_named
        party_named d z some_one few =
      elim (List-cases t.rooms) [
        | inl no_room ↦ absurd (ground (arith, v.occupied))
        | inr (first, others, rooms) ↦
            let good : All (IsRoomTemplate enemies t.rooms) (first ∷ others) =
              subst (λ rs. All (IsRoomTemplate enemies t.rooms) rs) rooms v.rooms in
            let distinct : Distinct (room_ids (first ∷ others)) =
              subst (λ rs. Distinct (room_ids rs)) rooms v.room_ids in
            let (made, made_rooms, there) =
              make_rooms_lem (first ∷ others) [] distinct (λ k h. absurd (ground arith)) in
            let (players, made_players, here) =
              make_players_lem first participants [] good.0.named good.0.floor z
                (λ s p h. absurd (ground arith)) in
            let checked =
              check_participants_lem [] participants d z (λ a h. absurd (ground arith)) in
            (
              record {
                dungeon_id = dungeon_id;
                dungeon_template = t;
                party_id = party_id;
                participants = participants;
                rooms = made;
                players = players;
                participant_player_ids = [];
                player_sessions = [];
                disconnected_since = [];
                created_at = now;
                state = DungeonState.waiting;
              },
              ground (arith, v.named),
              refl,
              λ k. ground (arith, there k),
              λ s p h. ground (arith, here s p),
            )
      ]
