-- ===== src/Dungeon/Membership/Invariant.antt =====
-- The tables of a dungeon agree on who takes part.
use dnf_mock_server_client.Prelude.{
  ℕ, nat_eq, ◌-◌, ◌≤◌, ◌≡◌, refl, inl, inr, true, ◌||◌, none, some, [], ◌∷◌, arith, ltb, ◌!=◌,
  Bool-cases, Option-cases, length, elem, elem-without, Distinct, Distinct-without,
  length-keep_if-le, ◌↔◌, false,
}
use dnf_mock_server_client.Map.{Map, find, contains, emplace, IsMap}
use dnf_mock_server_client.Map.Laws.{find-emplace, find-erase}
use dnf_mock_server_client.Map.Size.{emplace-IsMap, erase-IsMap}
use dnf_mock_server_client.Player.{PlayerState}
use dnf_mock_server_client.Party.{max_party_members}
use dnf_mock_server_client.Dungeon.{DungeonInstance}
use dnf_mock_server_client.Dungeon.Membership.{
  bind_participant_player, disconnect_participant, remove_session, remove_expired,
  remove_all_participants, false,
}

pub record Inv {R : Type 0} (i : DungeonInstance R) : Type 0 where
  pub listed : (s : ℕ) → elem s i.participants ≡ contains s i.players
  pub distinct : Distinct i.participants
  pub positive : contains 0 i.players ≡ false
  pub few : length i.participants ≤ max_party_members
  pub own : (s : ℕ) (p : PlayerState R) → find s i.players ≡ some p → p.session_id ≡ s
  pub agree :
      (s q : ℕ) → (find s i.participant_player_ids ≡ some q) ↔ (find q i.player_sessions ≡ some s)
  pub bound_here :
      (s : ℕ) → contains s i.participant_player_ids ≡ true → contains s i.players ≡ true
  pub away_here : (s : ℕ) → contains s i.disconnected_since ≡ true → contains s i.players ≡ true
  pub players_map : IsMap i.players
  pub away_map : IsMap i.disconnected_since

module _ {R : Type 0} (i : DungeonInstance R) (v : Inv i) where
  bound :
      (s q : ℕ)
      → contains s i.players ≡ true
      → find s i.participant_player_ids ≡ none
      → find q i.player_sessions ≡ none
      → Inv (record i {
        participant_player_ids = emplace s q i.participant_player_ids;
        player_sessions = emplace q s i.player_sessions;
      })
  bound s q here free_session free_player = record {
    listed = v.listed;
    distinct = v.distinct;
    positive = v.positive;
    few = v.few;
    own = v.own;
    agree = λ t r. ground (
      arith,
      find-emplace s t q i.participant_player_ids,
      find-emplace q r s i.player_sessions,
      v.agree t r,
      v.agree s r,
      v.agree t q,
    );
    bound_here = λ t h. ground (arith, find-emplace s t q i.participant_player_ids, v.bound_here t);
    away_here = v.away_here;
    players_map = v.players_map;
    away_map = v.away_map;
  }

  pub bind_participant_player-Inv : (s q : ℕ) → Inv (bind_participant_player i s q).0
  unfolding bind_participant_player
  bind_participant_player-Inv s q = ground (arith, v, bound s q)

  away :
      (s at : ℕ)
      → contains s i.players ≡ true
      → Inv (record i { disconnected_since = emplace s at i.disconnected_since })
  away s at here = record {
    listed = v.listed;
    distinct = v.distinct;
    positive = v.positive;
    few = v.few;
    own = v.own;
    agree = v.agree;
    bound_here = v.bound_here;
    away_here = λ t h. ground (arith, find-emplace s t at i.disconnected_since, v.away_here t);
    players_map = v.players_map;
    away_map = emplace-IsMap s at i.disconnected_since v.away_map;
  }

  pub disconnect_participant-Inv : (s at : ℕ) → Inv (disconnect_participant i s at).0
  unfolding disconnect_participant
  disconnect_participant-Inv s at = ground (arith, v, away s at)

  pub remove_session-Inv : (s : ℕ) → Inv (remove_session i s)
  unfolding remove_session
  remove_session-Inv s = record {
    listed =
        λ t. ground (arith, elem-without t s i.participants, find-erase s t i.players, v.listed t);
    distinct = Distinct-without s i.participants v.distinct;
    positive = ground (arith, find-erase s 0 i.players, v.positive);
    few = omega (arith, v.few, length-keep_if-le (λ x. x != s) i.participants);
    own = λ t p h. ground (arith, find-erase s t i.players, v.own t p);
    agree = λ t r. elim (Option-cases (find s i.participant_player_ids)) [
      | inl free ↦ ground (arith, find-erase s t i.participant_player_ids, v.agree t r)
      | inr (q, taken) ↦ ground (
        arith,
        find-erase s t i.participant_player_ids,
        find-erase q r i.player_sessions,
        v.agree t r,
        v.agree s q,
        v.agree t q,
      )
    ];
    bound_here = λ t h.
        ground (
          arith,
          find-erase s t i.players,
          find-erase s t i.participant_player_ids,
          v.bound_here t,
        );
    away_here = λ t h.
        ground
          (arith, find-erase s t i.players, find-erase s t i.disconnected_since, v.away_here t);
    players_map = erase-IsMap s i.players v.players_map;
    away_map = erase-IsMap s i.disconnected_since v.away_map;
  }

  pub remove_all_participants-Inv : Inv (remove_all_participants i).0
  unfolding remove_all_participants find
  remove_all_participants-Inv = record {
    listed = λ s. refl;
    distinct = tt;
    positive = refl;
    few = omega arith;
    own = λ s p h. cc;
    agree = λ s q. (λ h. cc, λ h. cc);
    bound_here = λ s h. h;
    away_here = λ s h. h;
    players_map = tt;
    away_map = tt;
  }

pub remove_expired-Inv :
    {R : Type 0} (now grace : ℕ) (m : Map ℕ ℕ) (i : DungeonInstance R)
    → Inv i
    → Inv (remove_expired now grace m i).0
unfolding remove_expired
remove_expired-Inv now grace [] i v = v
remove_expired-Inv now grace ((s, since) ∷ m) i v =
    elim (Bool-cases (ltb now since || ltb (now - since) grace)) [
      | inl stays ↦ rw (stays) (remove_expired-Inv now grace m i v)
      | inr expired ↦
          rw (expired)
            (remove_expired-Inv now grace m (remove_session i s) (remove_session-Inv i v s))
    ]
