-- ===== src/DungeonManager/LogIn.antt =====
-- `RegisterPlayerSession` of src/DungeonManager.cpp keeps the tables in agreement.
use dnf_mock_server_client.Prelude.{
  ℕ, nat_eq, ◌≡◌, inl, inr, false, some, [], ◌∷◌, arith, Bool-cases, Option-cases, refl,
}
use dnf_mock_server_client.Map.{Map, find, emplace, IsMap, erase}
use dnf_mock_server_client.Map.Laws.{find-emplace, find-erase}
use dnf_mock_server_client.Dungeon.{DungeonInstance}
use dnf_mock_server_client.Dungeon.Membership.{has_participant, bind_participant_player}
use dnf_mock_server_client.DungeonManager.{DungeonManager, find_dungeon_of}
use dnf_mock_server_client.DungeonManager.Sessions.{
  taken_by_other, enter_dungeons, register_player_session, reconnect_in,
}
use dnf_mock_server_client.DungeonManager.Ids.{
  bind_participant_player-ids_of, ids, ids-reconnect_in, reconnect_in-IsMap,
}
use dnf_mock_server_client.DungeonManager.Invariant.{Inv, replaced_instance, retabled}

module _ {R : Type 0} where
  pub find_dungeon_of-find :
      (ds : Map ℕ (DungeonInstance R)) (session id : ℕ) (i : DungeonInstance R)
      → find_dungeon_of ds session ≡ some (id, i)
      → IsMap ds
      → find id ds ≡ some i
  unfolding find_dungeon_of find
  find_dungeon_of-find [] session id i h d = absurd (ground arith)
  find_dungeon_of-find ((k, j) ∷ ds) session id i h (fresh, d) =
      elim (Bool-cases (has_participant j session)) [
        | inl here ↦ ground arith
        | inr elsewhere ↦
            let rest = find_dungeon_of-find ds session id i (ground arith) d in ground arith
      ]

module _ {R : Type 0} (m : DungeonManager R) (v : Inv m) where
  -- The two tables after the log-in passed its tests.
  logged :
      (session player : ℕ)
      → taken_by_other session player m.authenticated_players ≡ false
      → taken_by_other player session m.active_player_sessions ≡ false
      → (s q : ℕ) → find s (emplace session player m.authenticated_players) ≡ some q
      → find q (emplace player session m.active_player_sessions) ≡ some s
  unfolding taken_by_other
  logged session player free idle s q h = ground (
    arith,
    find-emplace session s player m.authenticated_players,
    find-emplace player q session m.active_player_sessions,
    v.logged_in s q,
  )

  abbrev logged_manager : (session player : ℕ) → DungeonManager R
  logged_manager session player = record m {
    authenticated_players = emplace session player m.authenticated_players;
    active_player_sessions = emplace player session m.active_player_sessions;
  }

  logged_manager-Inv :
      (session player : ℕ)
      → taken_by_other session player m.authenticated_players ≡ false
      → taken_by_other player session m.active_player_sessions ≡ false
      → Inv (logged_manager session player)
  logged_manager-Inv session player free idle =
      retabled m v m.dungeons (emplace session player m.authenticated_players)
        (emplace player session m.active_player_sessions) (λ k. refl) v.dungeons_map
        (logged session player free idle)

  -- A log-in that is taken back.
  unlogged :
      (session player : ℕ)
      → find session m.authenticated_players ≡ some player
      → (s q : ℕ) → find s (erase session m.authenticated_players) ≡ some q
      → find q (erase player m.active_player_sessions) ≡ some s
  unlogged session player known s q h = ground (
    arith,
    find-erase session s m.authenticated_players,
    find-erase player q m.active_player_sessions,
    v.logged_in s q,
    v.logged_in session player known,
  )

  enter_dungeons-Inv :
      (session player now grace : ℕ)
      → find session m.authenticated_players ≡ some player
      → Inv (enter_dungeons m session player now grace).0
  unfolding enter_dungeons
  enter_dungeons-Inv session player now grace known =
      elim (Option-cases (find_dungeon_of m.dungeons session)) [
        | inr ((id, i), at_home) ↦
            let found = find_dungeon_of-find m.dungeons session id i at_home v.dungeons_map in
            let same = bind_participant_player-ids_of i session player in
            let j = (bind_participant_player i session player).0 in
            ground (
              arith,
              replaced_instance m v id i j m.authenticated_players m.active_player_sessions found
                  same v.logged_in,
              replaced_instance m v id i j (erase session m.authenticated_players)
                  (erase player m.active_player_sessions) found same
                  (unlogged session player known),
            )
        | inl away ↦
            let tried = reconnect_in m.dungeons player session now grace in
            let same : (k : ℕ) → ids k tried.0 ≡ ids k m.dungeons =
              λ k. ids-reconnect_in k m.dungeons player session now grace in
            let d : IsMap tried.0 =
              reconnect_in-IsMap m.dungeons player session now grace v.dungeons_map in
            elim (Option-cases tried.1) [
              | inl nowhere ↦ ground (
                arith,
                retabled m v tried.0 m.authenticated_players m.active_player_sessions same d
                    v.logged_in,
              )
              | inr ((id, r), back) ↦
                  let old = r.replaced_session_id in
                  ground (
                    arith,
                    retabled m v tried.0 (erase old m.authenticated_players)
                        m.active_player_sessions same d
                        (λ s q h.
                          ground
                            (arith, find-erase old s m.authenticated_players, v.logged_in s q)),
                  )
            ]
      ]

module _ {R : Type 0} (m : DungeonManager R) (v : Inv m) where
  logged_manager-find :
      (session player : ℕ)
      → taken_by_other session player m.authenticated_players ≡ false
      → find session (emplace session player m.authenticated_players) ≡ some player
  unfolding taken_by_other
  logged_manager-find session player free =
      ground (arith, find-emplace session session player m.authenticated_players)

  pub register_player_session-Inv :
      (session player now grace : ℕ) → Inv (register_player_session m session player now grace).0
  unfolding register_player_session
  register_player_session-Inv session player now grace =
      elim (Bool-cases (taken_by_other session player m.authenticated_players)) [
        | inl other_player ↦ ground (arith, v)
        | inr free ↦ elim (Bool-cases (taken_by_other player session m.active_player_sessions)) [
          | inl other_session ↦ ground (arith, v)
          | inr idle ↦ ground (
            arith,
            v,
            enter_dungeons-Inv (logged_manager m v session player)
                (logged_manager-Inv m v session player free idle) session player now grace
                (logged_manager-find session player free),
          )
        ]
      ]
