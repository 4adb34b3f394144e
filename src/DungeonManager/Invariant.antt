-- ===== src/DungeonManager/Invariant.antt =====
-- The tables of the dungeon manager agree with each other.
use dnf_mock_server_client.Prelude.{
  ℕ, nat_eq, ◌<◌, ◌≡◌, refl, inl, inr, true, none, some, [], arith, Option-cases,
}
use dnf_mock_server_client.Map.{Map, find, assign, erase, IsMap}
use dnf_mock_server_client.Map.Laws.{find-erase}
use dnf_mock_server_client.Map.Size.{assign-IsMap, erase-IsMap}
use dnf_mock_server_client.EnemyCatalog.{EnemyCatalog}
use dnf_mock_server_client.Dungeon.{DungeonInstance}
use dnf_mock_server_client.Dungeon.Membership.{Reconnected, rollback_participant_reconnect}
use dnf_mock_server_client.Dungeon.Progress.{start}
use dnf_mock_server_client.DungeonManager.{DungeonManager, new_manager, stop}
use dnf_mock_server_client.DungeonManager.Sessions.{
  erase_if_is, rollback_player_reconnect, disconnect_player_session, disconnect_in,
}
use dnf_mock_server_client.DungeonManager.Lifetime.{start_dungeon, cancel_dungeon, drop_dungeon}
use dnf_mock_server_client.DungeonManager.Ids.{
  disconnect_in-IsMap, ids, ids_of, rollback_participant_reconnect-ids_of, start-ids_of, ids-assign,
  ids-disconnect_in,
}

-- Every dungeon stands under its own id, which was given out, and its party leads to it; a party
-- leads to a dungeon of its own; and a player that is logged in with a session is not logged in
-- with another.
pub record Inv {R : Type 0} (m : DungeonManager R) : Type 0 where
  pub keyed :
      (k d p : ℕ)
      → ids k m.dungeons ≡ some (d, p)
      → (d ≡ k) × (k < m.next_dungeon_id) × (find p m.party_dungeons ≡ some k)
  pub led : (p k : ℕ) → find p m.party_dungeons ≡ some k → ids k m.dungeons ≡ some (k, p)
  pub dungeons_map : IsMap m.dungeons
  pub logged_in :
      (s q : ℕ) → find s m.authenticated_players ≡ some q → find q m.active_player_sessions ≡ some s
  pub stopped : (k : ℕ) → m.stopping ≡ true → find k m.dungeons ≡ none

pub new_manager-Inv : {R : Type 0} → Inv (new_manager {R = R})
unfolding new_manager find
new_manager-Inv = record {
  keyed = λ k d p h. absurd (ground arith);
  led = λ p k h. absurd (ground arith);
  dungeons_map = tt;
  logged_in = λ s q h. absurd (ground arith);
  stopped = λ k h. absurd (ground arith);
}

module _ {R : Type 0} (m : DungeonManager R) (v : Inv m) where
  -- Changed instances of the same ids, and other log-ins.
  pub retabled :
      (ds : Map ℕ (DungeonInstance R)) (players sessions : Map ℕ ℕ)
      → ((k : ℕ) → ids k ds ≡ ids k m.dungeons)
      → IsMap ds
      → ((s q : ℕ) → find s players ≡ some q → find q sessions ≡ some s)
      → Inv (record m {
        dungeons = ds;
        authenticated_players = players;
        active_player_sessions = sessions;
      })
  retabled ds players sessions same d logged = record {
    keyed = λ k d p h. v.keyed k d p (ground (arith, same k));
    led = λ p k h. ground (arith, same k, v.led p k h);
    dungeons_map = d;
    logged_in = logged;
    stopped = λ k h. elim (Option-cases (find k ds)) [
      | inl none_there ↦ none_there
      | inr (i, there) ↦ absurd (ground (arith, same k, v.stopped k h))
    ];
  }

  pub replaced_instance :
      (id : ℕ) (i j : DungeonInstance R) (players sessions : Map ℕ ℕ)
      → find id m.dungeons ≡ some i
      → ids_of j ≡ ids_of i
      → ((s q : ℕ) → find s players ≡ some q → find q sessions ≡ some s)
      → Inv (record m {
        dungeons = assign id j m.dungeons;
        authenticated_players = players;
        active_player_sessions = sessions;
      })
  replaced_instance id i j players sessions found same logged =
      retabled (assign id j m.dungeons) players sessions
        (λ k. ids-assign id k i j m.dungeons found same)
        (assign-IsMap id j m.dungeons v.dungeons_map) logged

  logged_out :
      (session : ℕ) (s q : ℕ)
      → find s (erase session m.authenticated_players) ≡ some q
      → find q m.active_player_sessions ≡ some s
  logged_out session s q h =
      ground (arith, find-erase session s m.authenticated_players, v.logged_in s q)

  pub closed :
      (session player : ℕ) (s q : ℕ)
      → find s (erase session m.authenticated_players) ≡ some q
      → find q (erase_if_is player session m.active_player_sessions) ≡ some s
  unfolding erase_if_is
  closed session player s q h = elim (Option-cases (find player m.active_player_sessions)) [
    | inl inactive ↦ ground (arith, find-erase session s m.authenticated_players, v.logged_in s q)
    | inr (t, active) ↦ ground (
      arith,
      find-erase session s m.authenticated_players,
      find-erase player q m.active_player_sessions,
      v.logged_in s q,
    )
  ]

  pub drop_dungeon-Inv :
      (id : ℕ) (i : DungeonInstance R) → find id m.dungeons ≡ some i → Inv (drop_dungeon m id i)
  unfolding drop_dungeon
  drop_dungeon-Inv id i found = record {
    keyed = λ k d p h. ground (
      arith,
      find-erase id k m.dungeons,
      find-erase i.party_id p m.party_dungeons,
      v.keyed k d p,
      v.keyed id i.dungeon_id i.party_id,
    );
    led = λ p k h. ground (
      arith,
      find-erase id k m.dungeons,
      find-erase i.party_id p m.party_dungeons,
      v.led p k,
      v.keyed id i.dungeon_id i.party_id,
    );
    dungeons_map = erase-IsMap id m.dungeons v.dungeons_map;
    logged_in = v.logged_in;
    stopped = λ k h. ground (arith, find-erase id k m.dungeons, v.stopped k);
  }

  emptied : Inv (record m {
    stopping = true;
    party_dungeons = [];
    authenticated_players = [];
    active_player_sessions = [];
    dungeons = [];
  })
  unfolding find
  emptied = record {
    keyed = λ k d p h. absurd (ground arith);
    led = λ p k h. absurd (ground arith);
    dungeons_map = tt;
    logged_in = λ s q h. absurd (ground arith);
    stopped = λ k h. refl;
  }

  pub stop-Inv : Inv (stop m)
  unfolding stop
  stop-Inv = ground (arith, v, emptied)

  pub cancel_dungeon-Inv : (id : ℕ) → Inv (cancel_dungeon m id).0
  unfolding cancel_dungeon
  cancel_dungeon-Inv id = elim (Option-cases (find id m.dungeons)) [
    | inl missing ↦ ground (arith, v)
    | inr (i, found) ↦ ground (arith, v, drop_dungeon-Inv id i found)
  ]

  pub start_dungeon-Inv : (enemies : EnemyCatalog R) (id : ℕ) → Inv (start_dungeon enemies m id).0
  unfolding start_dungeon
  start_dungeon-Inv enemies id = elim (Option-cases (find id m.dungeons)) [
    | inl missing ↦ ground (arith, v)
    | inr (i, found) ↦ ground (
      arith,
      replaced_instance id i (start enemies i).0 m.authenticated_players m.active_player_sessions
          found (start-ids_of enemies i) v.logged_in,
    )
  ]

  pub rollback_player_reconnect-Inv :
      (id player new replaced at : ℕ)
      → Inv (rollback_player_reconnect m id player new replaced at).0
  unfolding rollback_player_reconnect
  rollback_player_reconnect-Inv id player new replaced at =
      elim (Option-cases (find id m.dungeons)) [
        | inl missing ↦ ground (arith, v)
        | inr (i, found) ↦
            let r : Reconnected = record { replaced_session_id = replaced; disconnected_at = at } in
            let same = rollback_participant_reconnect-ids_of i player new r in
            let j = (rollback_participant_reconnect i player new r).0 in
            ground (
              arith,
              replaced_instance id i j m.authenticated_players m.active_player_sessions found same
                  v.logged_in,
              replaced_instance id i j (erase new m.authenticated_players)
                  (erase_if_is player new m.active_player_sessions) found same (closed new player),
            )
      ]

  pub disconnect_player_session-Inv :
      (session at : ℕ) → Inv (disconnect_player_session m session at).0
  unfolding disconnect_player_session
  disconnect_player_session-Inv session at =
      let left = disconnect_in m.dungeons session at in
      let same : (k : ℕ) → ids k left.0 ≡ ids k m.dungeons =
        λ k. ids-disconnect_in k m.dungeons session at in
      let d : IsMap left.0 = disconnect_in-IsMap m.dungeons session at v.dungeons_map in
      elim (Option-cases (find session m.authenticated_players)) [
        | inl unknown ↦ ground (
          arith,
          v,
          retabled left.0 m.authenticated_players m.active_player_sessions same d v.logged_in,
        )
        | inr (player, found) ↦ ground (
          arith,
          v,
          retabled left.0 (erase session m.authenticated_players)
              (erase_if_is player session m.active_player_sessions) same d (closed session player),
        )
      ]
