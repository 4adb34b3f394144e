-- ===== src/DungeonManager/Ids.antt =====
-- The dungeon id and the party of an instance never change.
use dnf_mock_server_client.Prelude.{
  ℕ, nat_eq, ◌-◌, ◌<◌, ◌≡◌, refl, inl, inr, ◌||◌, Option, none, some, List, [], ◌∷◌, arith, ltb,
  Bool-cases, Option-cases,
}
use dnf_mock_server_client.Prelude.Except.{ok}
use dnf_mock_server_client.Map.{Map, find, assign, IsMap, contains}
use dnf_mock_server_client.Map.Laws.{find-assign}
use dnf_mock_server_client.Float.{Float}
use dnf_mock_server_client.EnemyCatalog.{EnemyCatalog}
use dnf_mock_server_client.Dungeon.{
  DungeonInstance, DungeonTemplate, DungeonState, new_instance, make_rooms, make_players,
}
use dnf_mock_server_client.Dungeon.Membership.{
  Reconnected, bind_participant_player, disconnect_participant, reconnect_participant,
  rollback_participant_reconnect, remove_expired_disconnected_participants, remove_all_participants,
  remove_expired, remove_session, move_player,
}
use dnf_mock_server_client.Dungeon.Progress.{start, finish}
use dnf_mock_server_client.Prelude.{List-cases}
use dnf_mock_server_client.Prelude.Except.{Except-cases}
use dnf_mock_server_client.DungeonManager.{bind_members}
use dnf_mock_server_client.DungeonManager.Sessions.{reconnect_in, disconnect_in}

-- The id and the party of an instance.
abbrev pub ids_of : {R : Type 0} → DungeonInstance R → ℕ × ℕ
ids_of i = (i.dungeon_id, i.party_id)

-- Those of the instance that is stored under a key.
abbrev pub ids : {R : Type 0} → ℕ → Map ℕ (DungeonInstance R) → Option (ℕ × ℕ)
ids id ds = elim (find id ds) [ none ↦ none | some i ↦ some (ids_of i) ]

module _ {R : Type 0} where
  pub bind_participant_player-ids_of :
      (i : DungeonInstance R) (session player : ℕ)
      → ids_of (bind_participant_player i session player).0 ≡ ids_of i
  unfolding bind_participant_player
  bind_participant_player-ids_of i session player = ground arith

  pub bind_members-ids_of :
      (players : Map ℕ ℕ) (sessions : List ℕ) (i : DungeonInstance R)
      → ids_of (bind_members players sessions i) ≡ ids_of i
  unfolding bind_members
  bind_members-ids_of players [] i = refl
  bind_members-ids_of players (s ∷ ss) i = elim (Option-cases (find s players)) [
    | inl missing ↦ ground (arith, bind_members-ids_of players ss i)
    | inr (player, found) ↦ ground (
      arith,
      bind_members-ids_of players ss (bind_participant_player i s player).0,
      bind_participant_player-ids_of i s player,
    )
  ]

  pub disconnect_participant-ids_of :
      (i : DungeonInstance R) (session at : ℕ)
      → ids_of (disconnect_participant i session at).0 ≡ ids_of i
  unfolding disconnect_participant
  disconnect_participant-ids_of i session at = ground arith

  pub reconnect_participant-ids_of :
      (i : DungeonInstance R) (player new now grace : ℕ)
      → ids_of (reconnect_participant i player new now grace).0 ≡ ids_of i
  unfolding reconnect_participant
  reconnect_participant-ids_of i player new now grace =
      elim (Option-cases (find player i.player_sessions)) [
        | inl unbound ↦ ground arith
        | inr (old, session) ↦ elim (Option-cases (find old i.disconnected_since)) [
          | inl connected ↦ ground arith
          | inr (since, lost) ↦ elim (Bool-cases (move_player i.players old new).1) [
            | inl moved ↦ ground arith
            | inr stuck ↦ ground arith
          ]
        ]
      ]

  pub rollback_participant_reconnect-ids_of :
      (i : DungeonInstance R) (player new : ℕ) (r : Reconnected)
      → ids_of (rollback_participant_reconnect i player new r).0 ≡ ids_of i
  unfolding rollback_participant_reconnect
  rollback_participant_reconnect-ids_of i player new r =
      elim (Option-cases (find player i.player_sessions)) [
        | inl unbound ↦ ground arith
        | inr (session, bound) ↦
            elim (Bool-cases (move_player i.players new r.replaced_session_id).1) [
              | inl moved ↦ ground arith
              | inr stuck ↦ ground arith
            ]
      ]

  remove_expired-ids_of :
      (now grace : ℕ) (m : Map ℕ ℕ) (i : DungeonInstance R)
      → ids_of (remove_expired now grace m i).0 ≡ ids_of i
  unfolding remove_expired remove_session
  remove_expired-ids_of now grace [] i = refl
  remove_expired-ids_of now grace ((s, since) ∷ m) i =
      elim (Bool-cases (ltb now since || ltb (now - since) grace)) [
        | inl stays ↦ rw (stays) (remove_expired-ids_of now grace m i)
        | inr expired ↦ rw (expired) (remove_expired-ids_of now grace m (remove_session i s))
      ]

  pub remove_expired_disconnected_participants-ids_of :
      (i : DungeonInstance R) (now grace : ℕ)
      → ids_of (remove_expired_disconnected_participants i now grace).0 ≡ ids_of i
  unfolding remove_expired_disconnected_participants
  remove_expired_disconnected_participants-ids_of i now grace =
      ground (arith, remove_expired-ids_of now grace i.disconnected_since i)

  pub remove_all_participants-ids_of :
      (i : DungeonInstance R) → ids_of (remove_all_participants i).0 ≡ ids_of i
  unfolding remove_all_participants
  remove_all_participants-ids_of i = refl

  pub start-ids_of :
      (enemies : EnemyCatalog R) (i : DungeonInstance R) → ids_of (start enemies i).0 ≡ ids_of i
  unfolding start
  start-ids_of enemies i = ground arith

  pub finish-ids_of : (i : DungeonInstance R) → ids_of (finish i).0 ≡ ids_of i
  unfolding finish
  finish-ids_of i = ground arith

  pub ids-assign :
      (id k : ℕ) (i j : DungeonInstance R) (ds : Map ℕ (DungeonInstance R))
      → find id ds ≡ some i
      → ids_of j ≡ ids_of i
      → ids k (assign id j ds) ≡ ids k ds
  ids-assign id k i j ds found same = ground (arith, find-assign id k j ds)

  pub ids-reconnect_in :
      (k : ℕ) (ds : Map ℕ (DungeonInstance R)) (player session now grace : ℕ)
      → ids k (reconnect_in ds player session now grace).0 ≡ ids k ds
  unfolding reconnect_in find
  ids-reconnect_in k [] player session now grace = refl
  ids-reconnect_in k ((id, i) ∷ ds) player session now grace =
      let tried = reconnect_participant i player session now grace in
      let same = reconnect_participant-ids_of i player session now grace in
      let rest = ids-reconnect_in k ds player session now grace in
      elim (Option-cases tried.1) [
        | inl refused ↦ ground (arith, same, rest)
        | inr (r, done) ↦ ground (arith, same, rest)
      ]

  pub ids-disconnect_in :
      (k : ℕ) (ds : Map ℕ (DungeonInstance R)) (session at : ℕ)
      → ids k (disconnect_in ds session at).0 ≡ ids k ds
  unfolding disconnect_in find
  ids-disconnect_in k [] session at = refl
  ids-disconnect_in k ((id, i) ∷ ds) session at =
      let same = disconnect_participant-ids_of i session at in
      let rest = ids-disconnect_in k ds session at in ground (arith, same, rest)

  -- The loops keep the keys, each of them once.
  contains-reconnect_in :
      (k : ℕ) (ds : Map ℕ (DungeonInstance R)) (player session now grace : ℕ)
      → contains k (reconnect_in ds player session now grace).0 ≡ contains k ds
  unfolding reconnect_in find
  contains-reconnect_in k [] player session now grace = refl
  contains-reconnect_in k ((id, i) ∷ ds) player session now grace =
      let rest = contains-reconnect_in k ds player session now grace in
      elim (Option-cases (reconnect_participant i player session now grace).1) [
        | inl refused ↦ ground (arith, rest)
        | inr (r, done) ↦ ground (arith, rest)
      ]

  pub reconnect_in-IsMap :
      (ds : Map ℕ (DungeonInstance R)) (player session now grace : ℕ)
      → IsMap ds
      → IsMap (reconnect_in ds player session now grace).0
  unfolding reconnect_in
  reconnect_in-IsMap [] player session now grace d = tt
  reconnect_in-IsMap ((id, i) ∷ ds) player session now grace (fresh, d) =
      let rest = reconnect_in-IsMap ds player session now grace d in
      let same = contains-reconnect_in id ds player session now grace in
      elim (Option-cases (reconnect_participant i player session now grace).1) [
        | inl refused ↦ ground (arith, rest, same)
        | inr (r, done) ↦ ground (arith, rest, same)
      ]

  contains-disconnect_in :
      (k : ℕ) (ds : Map ℕ (DungeonInstance R)) (session at : ℕ)
      → contains k (disconnect_in ds session at).0 ≡ contains k ds
  unfolding disconnect_in find
  contains-disconnect_in k [] session at = refl
  contains-disconnect_in k ((id, i) ∷ ds) session at =
      ground (arith, contains-disconnect_in k ds session at)

  pub disconnect_in-IsMap :
      (ds : Map ℕ (DungeonInstance R)) (session at : ℕ)
      → IsMap ds
      → IsMap (disconnect_in ds session at).0
  unfolding disconnect_in
  disconnect_in-IsMap [] session at d = tt
  disconnect_in-IsMap ((id, i) ∷ ds) session at (fresh, d) =
      ground (arith, disconnect_in-IsMap ds session at d, contains-disconnect_in id ds session at)

module _ {R : Type 0} ⦃f : Float R⦄ where
  pub new_instance-ids_of :
      (dungeon_id : ℕ) (t : DungeonTemplate R) (party_id : ℕ) (participants : List ℕ) (now : ℕ)
      (i : DungeonInstance R)
      → new_instance dungeon_id t party_id participants now ≡ ok i
      → (ids_of i ≡ (dungeon_id, party_id))
        × (0 < party_id)
        × (i.state ≡ DungeonState.waiting)
        × (i.participants ≡ participants)
  unfolding new_instance
  new_instance-ids_of dungeon_id t party_id participants now i e = elim (List-cases t.rooms) [
    | inl missing ↦ absurd (ground arith)
    | inr (first, others, rooms) ↦ elim (Except-cases (make_rooms (first ∷ others) [])) [
      | inr (x, failed) ↦ absurd (ground arith)
      | inl (made, made_rooms) ↦ elim (Except-cases (make_players first participants [])) [
        | inr (x, failed) ↦ absurd (ground arith)
        | inl (players, made_players) ↦ ground arith
      ]
    ]
  ]
