-- ===== src/Dungeon/Membership.antt =====
-- The participants: their players, their connection, and how one comes back under a new session.
pub mod Invariant
pub mod Rename
pub mod Reconnect
pub mod Rollback
pub mod Others
pub mod Reachable
use dnf_mock_server_client.Prelude.{
  ℕ, nat_eq, ◌+◌, ◌-◌, ◌%◌, ap, Bool, true, false, ◌||◌, not, Option, none, some, List, [], ◌∷◌,
  ltb, leb, ◌==◌, ◌!=◌, if◌then◌else◌, is_some, Option-cases, u64_mod, without,
}
use dnf_mock_server_client.Prelude.Except.{◌>>=◌, ◌>>◌}
use dnf_mock_server_client.Map.{Map, find, contains, assign, emplace, erase, size}
use dnf_mock_server_client.Map.Laws.{find-emplace, find-erase}
use dnf_mock_server_client.Map.Size.{emplace-IsMap, erase-IsMap}
use dnf_mock_server_client.Player.{PlayerState, rebind_session}
use dnf_mock_server_client.Dungeon.{DungeonInstance}

pub record Reconnected : Type 0 where
  pub replaced_session_id : ℕ
  pub disconnected_at : ℕ

-- std::find and the write through the iterator.
unfoldable pub replace_first : ℕ → ℕ → List ℕ → List ℕ
replace_first old new [] = []
replace_first old new (s ∷ ss) = if s == old then new ∷ ss else s ∷ replace_first old new ss

module _ {R : Type 0} where
  unfoldable pub has_participant : DungeonInstance R → ℕ → Bool
  has_participant i session = contains session i.players

  unfoldable pub bind_participant_player : DungeonInstance R → ℕ → ℕ → DungeonInstance R × Bool
  bind_participant_player i session player =
      if session == 0 || player == 0
      then (i, false)
      else if not (contains session i.players)
      then (i, false)
      else elim (find session i.participant_player_ids) [
        | some existing ↦ (i, existing == player)
        | none ↦ elim (find player i.player_sessions) [
          | some existing ↦ (i, existing == session)
          | none ↦ (
            record i {
              participant_player_ids = emplace session player i.participant_player_ids;
              player_sessions = emplace player session i.player_sessions;
            },
            true,
          )
        ]
      ]

  unfoldable pub disconnect_participant : DungeonInstance R → ℕ → ℕ → DungeonInstance R × Bool
  disconnect_participant i session disconnected_at =
      if not (contains session i.players) then (i, false) else (
        record i { disconnected_since = emplace session disconnected_at i.disconnected_since },
        true,
      )

  -- The node of the player is taken out, rebound and put back under the other session; a node that
  -- cannot be rebound is dropped.
  unfoldable pub move_player : Map ℕ (PlayerState R) → ℕ → ℕ → Map ℕ (PlayerState R) × Bool
  move_player players old new = elim (find old players) [
    | none ↦ (players, false)
    | some p ↦
        let bound = rebind_session p new in
        if bound.1
        then (emplace new bound.0 (erase old players), true)
        else (erase old players, false)
  ]

  unfoldable pub reconnect_participant :
      DungeonInstance R → ℕ → ℕ → ℕ → ℕ → DungeonInstance R × Option Reconnected
  unfolding move_player replace_first
  reconnect_participant i player new now grace =
      if player == 0 || new == 0 || grace == 0
      then (i, none)
      else elim (find player i.player_sessions) [
        | none ↦ (i, none)
        | some old ↦ elim (find old i.disconnected_since) [
          | none ↦ (i, none)
          | some since ↦
              if contains new i.players || ltb now since || leb grace (now - since)
              then (i, none)
              else let moved = move_player i.players old new in
                if not moved.1 then (record i { players = moved.0 }, none) else (
                  record i {
                    players = moved.0;
                    participant_player_ids =
                        emplace new player (erase old i.participant_player_ids);
                    player_sessions = assign player new i.player_sessions;
                    disconnected_since = erase old i.disconnected_since;
                    participants = replace_first old new i.participants;
                  },
                  some (record { replaced_session_id = old; disconnected_at = since }),
                )
        ]
      ]

  unfoldable pub rollback_participant_reconnect :
      DungeonInstance R → ℕ → ℕ → Reconnected → DungeonInstance R × Bool
  unfolding move_player replace_first
  rollback_participant_reconnect i player new reconnect =
      let old = reconnect.replaced_session_id in
      if player == 0 || new == 0 || old == 0
      then (i, false)
      else elim (find player i.player_sessions) [
        | none ↦ (i, false)
        | some session ↦
            if session != new || not (contains new i.players) || contains old i.players
            then (i, false)
            else let moved = move_player i.players new old in
              if not moved.1 then (record i { players = moved.0 }, false) else (
                record i {
                  players = moved.0;
                  participant_player_ids = emplace old player (erase new i.participant_player_ids);
                  player_sessions = assign player old i.player_sessions;
                  disconnected_since = emplace old reconnect.disconnected_at i.disconnected_since;
                  participants = replace_first new old i.participants;
                },
                true,
              )
      ]

  -- Everything about one session, which was disconnected for too long.
  unfoldable pub remove_session : DungeonInstance R → ℕ → DungeonInstance R
  remove_session i session = record i {
    player_sessions = elim (find session i.participant_player_ids) [
      | none ↦ i.player_sessions
      | some player ↦ erase player i.player_sessions
    ];
    participant_player_ids = erase session i.participant_player_ids;
    players = erase session i.players;
    participants = without session i.participants;
    disconnected_since = erase session i.disconnected_since;
  }

  -- The loop over the sessions that are disconnected.
  unfoldable pub remove_expired : ℕ → ℕ → Map ℕ ℕ → DungeonInstance R → DungeonInstance R × List ℕ
  unfolding remove_session
  remove_expired now grace [] i = (i, [])
  remove_expired now grace ((session, since) ∷ m) i =
      let stays = ltb now since || ltb (now - since) grace in
      let rest = remove_expired now grace m (if stays then i else remove_session i session) in
      (rest.0, if stays then rest.1 else session ∷ rest.1)

  unfoldable pub remove_expired_disconnected_participants :
      DungeonInstance R → ℕ → ℕ → DungeonInstance R × List ℕ
  unfolding remove_expired
  remove_expired_disconnected_participants i now grace =
      if grace == 0 then (i, []) else remove_expired now grace i.disconnected_since i

  unfoldable pub remove_all_participants : DungeonInstance R → DungeonInstance R × List ℕ
  remove_all_participants i = (
    record i {
      participants = [];
      players = [];
      participant_player_ids = [];
      player_sessions = [];
      disconnected_since = [];
    },
    i.participants,
  )

  unfoldable pub is_participant_disconnected : DungeonInstance R → ℕ → Bool
  is_participant_disconnected i session = contains session i.disconnected_since

  -- Unsigned, so that it would wrap if more sessions were disconnected than there are players.
  unfoldable pub connected_participant_count : DungeonInstance R → ℕ
  connected_participant_count i = (size i.players + u64_mod - size i.disconnected_since) % u64_mod
