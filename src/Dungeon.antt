-- ===== src/Dungeon.antt =====
-- A running dungeon: include/DungeonInstance.h and src/DungeonInstance.cpp. Its rooms and players
-- are shared with other components by pointer; here they are entries of the two tables. The time is
-- an argument.
pub mod Membership
pub mod Progress
pub mod Calls
use dnf_mock_server_client.Prelude.{
  ℕ, zero, nat_eq, inl, inr, Bool, true, false, ◌||◌, not, List, [], ◌∷◌, ltb, ◌==◌, if◌then◌else◌,
  length, elem,
}
use dnf_mock_server_client.Prelude.Except.{Except, ok, err, ◌>>=◌, ◌>>◌}
use dnf_mock_server_client.Map.{Map, contains, emplace}
use Prim.Native.String.{String}
use dnf_mock_server_client.Float.{Float}
use dnf_mock_server_client.Geometry.{RoomTemplate}
use dnf_mock_server_client.Room.{RoomState, new_room}
use dnf_mock_server_client.Player.{PlayerState, new_player}
use dnf_mock_server_client.Party.{max_party_members}

pub data DungeonState : Type 0 where
  waiting running finished : DungeonState

pub record DungeonTemplate (R : Type 0) : Type 0 where
  pub id : ℕ
  pub name : String
  pub rooms : List (RoomTemplate R)
  pub recommended_party_size : ℕ
  pub max_party_size : ℕ

pub data DungeonError : Type 0 where
  zero_id invalid_contents invalid_participant duplicate_room invalid_player : DungeonError

pub record DungeonInstance (R : Type 0) : Type 0 where
  pub dungeon_id : ℕ
  pub dungeon_template : DungeonTemplate R
  pub party_id : ℕ
  pub participants : List ℕ
  pub rooms : Map ℕ (RoomState R)
  pub players : Map ℕ (PlayerState R)
  pub participant_player_ids : Map ℕ ℕ
  pub player_sessions : Map ℕ ℕ
  pub disconnected_since : Map ℕ ℕ
  pub created_at : ℕ
  pub state : DungeonState

-- The loop over the participants, with the set of those that were seen.
unfoldable pub check_participants : List ℕ → List ℕ → Bool
check_participants seen [] = true
check_participants seen (s ∷ ss) =
    if s == 0 || elem s seen then false else check_participants (s ∷ seen) ss

module _ {R : Type 0} where
  unfoldable pub make_rooms :
      List (RoomTemplate R) → Map ℕ (RoomState R) → Except DungeonError (Map ℕ (RoomState R))
  make_rooms [] rooms = ok rooms
  make_rooms (t ∷ ts) rooms =
      let rest = make_rooms ts (emplace t.id (new_room t) rooms) in
      if contains t.id rooms then err DungeonError.duplicate_room else rest

module _ {R : Type 0} ⦃f : Float R⦄ where
  -- A player is made with the default mana and hit points of its constructor.
  unfoldable pub make_players :
      RoomTemplate R → List ℕ → Map ℕ (PlayerState R) → Except DungeonError (Map ℕ (PlayerState R))
  make_players room [] players = ok players
  make_players room (s ∷ ss) players = elim (new_player s room.id room.player_spawn 100 100) [
    | err e ↦ err DungeonError.invalid_player
    | ok p ↦ make_players room ss (emplace s p players)
  ]

  -- The constructor.
  unfoldable pub new_instance :
      ℕ → DungeonTemplate R → ℕ → List ℕ → ℕ → Except DungeonError (DungeonInstance R)
  unfolding check_participants make_rooms make_players
  new_instance dungeon_id t party_id participants now =
      if dungeon_id == 0 || t.id == 0 || party_id == 0
      then err DungeonError.zero_id
      else elim t.rooms [
        | [] ↦ err DungeonError.invalid_contents
        | first ∷ others ↦
            if length participants == 0 || ltb max_party_members (length participants)
            then err DungeonError.invalid_contents
            else if not (check_participants [] participants)
            then err DungeonError.invalid_participant
            else make_rooms (first ∷ others) [] >>= λ rooms.
                make_players first participants [] >>= λ players. ok (record {
                  dungeon_id = dungeon_id;
                  dungeon_template = t;
                  party_id = party_id;
                  participants = participants;
                  rooms = rooms;
                  players = players;
                  participant_player_ids = [];
                  player_sessions = [];
                  disconnected_since = [];
                  created_at = now;
                  state = DungeonState.waiting;
                })
      ]
