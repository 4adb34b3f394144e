-- ===== src/DungeonManager.antt =====
-- The dungeons of the server and the players that are logged in: include/DungeonManager.h and
-- src/DungeonManager.cpp. A method holds the mutex for its whole body, so it is one step;
-- `CreateDungeon` lets it go while it asks the party manager and the catalog, and is modelled as it
-- runs when no other call comes between. An instance is an entry of the table, changed in place.
pub mod Sessions
pub mod Ids
pub mod Invariant
pub mod Sweep
pub mod LogIn
pub mod Participants
pub mod Returns
pub mod TakenBack
pub mod Departures
pub mod Creation
pub mod Success
pub mod Made
pub mod Calls
pub mod Lifetime
use dnf_mock_server_client.Prelude.{
  ℕ, nat_eq, ◌+◌, ◌%◌, Bool, true, false, Option, none, some, List, [], ◌∷◌, if◌then◌else◌, u64_mod,
}
use dnf_mock_server_client.Prelude.Except.{Except, ok, err}
use dnf_mock_server_client.Map.{Map, find, contains, emplace, size}
use dnf_mock_server_client.Float.{Float}
use dnf_mock_server_client.Party.{PartyManager, get_party}
use dnf_mock_server_client.EnemyCatalog.{EnemyCatalog}
use dnf_mock_server_client.Dungeon.{DungeonInstance, DungeonState, DungeonError, new_instance}
use dnf_mock_server_client.Dungeon.Membership.{has_participant, bind_participant_player}
use dnf_mock_server_client.Dungeon.Progress.{is_running, is_waiting}
use dnf_mock_server_client.DungeonCatalog.{DungeonCatalog, get_dungeon}

pub data CreateDungeonStatus : Type 0 where
  success party_not_found dungeon_template_not_found : CreateDungeonStatus
  party_already_in_dungeon server_stopping : CreateDungeonStatus

pub data RegisterDungeonSessionStatus : Type 0 where
  registered reconnected invalid_identity : RegisterDungeonSessionStatus

-- The exception of `unordered_map::at`.
pub data MissingKey : Type 0 where
  out_of_range : MissingKey

pub record RegisterDungeonSessionResult : Type 0 where
  pub status : RegisterDungeonSessionStatus
  pub dungeon_id : ℕ
  pub replaced_session_id : ℕ
  pub disconnected_at : Option ℕ

pub record DungeonAbandonmentSweep : Type 0 where
  pub removed_participants : List (ℕ × ℕ)
  pub released_dungeons : List ℕ

pub record DungeonManager (R : Type 0) : Type 0 where
  pub next_dungeon_id : ℕ  -- uint64
  pub dungeons : Map ℕ (DungeonInstance R)
  pub party_dungeons : Map ℕ ℕ
  pub authenticated_players : Map ℕ ℕ
  pub active_player_sessions : Map ℕ ℕ
  pub stopping : Bool

abbrev pub is_finished : DungeonState → Bool
is_finished DungeonState.finished = true
is_finished _ = false

module _ {R : Type 0} where
  unfoldable pub new_manager : DungeonManager R
  new_manager = record {
    next_dungeon_id = 1;
    dungeons = [];
    party_dungeons = [];
    authenticated_players = [];
    active_player_sessions = [];
    stopping = false;
  }

  -- The loop of `CreateDungeon` over the members that are logged in.
  unfoldable pub bind_members : Map ℕ ℕ → List ℕ → DungeonInstance R → DungeonInstance R
  bind_members players [] i = i
  bind_members players (session ∷ sessions) i =
      bind_members players sessions (elim (find session players) [
        | none ↦ i
        | some player ↦ (bind_participant_player i session player).0
      ])

module _ {R : Type 0} ⦃f : Float R⦄ where
  -- An exception of the instance's constructor leaves the id taken.
  unfoldable pub create_dungeon :
      PartyManager
      → DungeonCatalog R
      → DungeonManager R
      → ℕ
      → ℕ
      → ℕ
      → DungeonManager R × Except DungeonError (CreateDungeonStatus × Option (DungeonInstance R))
  unfolding bind_members
  create_dungeon parties catalog m party_id template_id now =
      if m.stopping
      then (m, ok (CreateDungeonStatus.server_stopping, none))
      else elim (get_party parties party_id) [
        | none ↦ (m, ok (CreateDungeonStatus.party_not_found, none))
        | some party ↦ elim (get_dungeon catalog template_id) [
          | none ↦ (m, ok (CreateDungeonStatus.dungeon_template_not_found, none))
          | some t ↦
              if contains party_id m.party_dungeons
              then (m, ok (CreateDungeonStatus.party_already_in_dungeon, none))
              else let dungeon_id = m.next_dungeon_id in
                let taken : DungeonManager R = record m {
                  next_dungeon_id = (dungeon_id + 1) % u64_mod;
                } in
                elim (new_instance dungeon_id t party_id party.members now) [
                  | err e ↦ (taken, err e)
                  | ok dungeon ↦
                      let bound = bind_members m.authenticated_players party.members dungeon in
                      (
                        record taken {
                          dungeons = emplace dungeon_id bound m.dungeons;
                          party_dungeons = emplace party_id dungeon_id m.party_dungeons;
                        },
                        ok (CreateDungeonStatus.success, some bound),
                      )
                ]
        ]
      ]

module _ {R : Type 0} where
  -- The first dungeon that the session takes part in.
  unfoldable pub find_dungeon_of : Map ℕ (DungeonInstance R) → ℕ → Option (ℕ × DungeonInstance R)
  find_dungeon_of [] session = none
  find_dungeon_of ((id, i) ∷ ds) session =
      if has_participant i session then some (id, i) else find_dungeon_of ds session

  unfoldable pub find_dungeon : DungeonManager R → ℕ → Option (DungeonInstance R)
  find_dungeon m dungeon_id = find dungeon_id m.dungeons

  -- `at`, which throws on a missing key.
  unfoldable pub find_dungeon_by_party :
      DungeonManager R → ℕ → Except MissingKey (Option (DungeonInstance R))
  find_dungeon_by_party m party_id = elim (find party_id m.party_dungeons) [
    | none ↦ ok none
    | some dungeon_id ↦ elim (find dungeon_id m.dungeons) [
      | none ↦ err MissingKey.out_of_range
      | some i ↦ ok (some i)
    ]
  ]

  unfoldable pub find_dungeon_by_participant : DungeonManager R → ℕ → Option (DungeonInstance R)
  unfolding find_dungeon_of
  find_dungeon_by_participant m session = elim (find_dungeon_of m.dungeons session) [
    | none ↦ none
    | some (id, i) ↦ some i
  ]

  unfoldable pub stop : DungeonManager R → DungeonManager R
  stop m = if m.stopping then m else record m {
    stopping = true;
    party_dungeons = [];
    authenticated_players = [];
    active_player_sessions = [];
    dungeons = [];
  }

  -- The ids of the dungeons whose state passes the test.
  unfoldable pub ids_in : (DungeonState → Bool) → Map ℕ (DungeonInstance R) → List ℕ
  ids_in test [] = []
  ids_in test ((id, i) ∷ ds) = let rest = ids_in test ds in if test i.state then id ∷ rest else rest

  unfoldable pub waiting_dungeon_ids : DungeonManager R → List ℕ
  unfolding ids_in
  waiting_dungeon_ids m = ids_in is_waiting m.dungeons

  unfoldable pub running_dungeon_ids : DungeonManager R → List ℕ
  unfolding ids_in
  running_dungeon_ids m = ids_in is_running m.dungeons

  unfoldable pub finished_dungeon_ids : DungeonManager R → List ℕ
  unfolding ids_in
  finished_dungeon_ids m = ids_in is_finished m.dungeons

  unfoldable pub active_dungeon_count : DungeonManager R → ℕ
  active_dungeon_count m = size m.dungeons
