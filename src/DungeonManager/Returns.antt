-- ===== src/DungeonManager/Returns.antt =====
-- The two outcomes of `RegisterPlayerSession` of src/DungeonManager.cpp, and the way back from the
-- second.
use dnf_mock_server_client.Prelude.{
  ℕ, nat_eq, ◌≡◌, refl, subst, ◌≢◌, ◌⊎◌, inl, inr, true, false, ◌||◌, some, arith, ◌==◌,
  if◌then◌else◌, Bool-cases, Option-cases, all,
}
use dnf_mock_server_client.Map.{Map, find, contains, emplace, IsMap}
use dnf_mock_server_client.Map.Laws.{find-emplace, find-erase}
use dnf_mock_server_client.Dungeon.{DungeonInstance}
use dnf_mock_server_client.Dungeon.Membership.{Reconnected, reconnect_participant}
use dnf_mock_server_client.Dungeon.Membership.Invariant.{Inv}
use dnf_mock_server_client.Dungeon.Membership.Reconnect.{
  reconnect_participant_iff, reconnect_participant-some, lost_player,
}
use dnf_mock_server_client.Dungeon.Membership.Rename.{find-renamed}
use dnf_mock_server_client.DungeonManager.{
  DungeonManager, RegisterDungeonSessionStatus, RegisterDungeonSessionResult, find_dungeon_of,
}
use dnf_mock_server_client.DungeonManager.Sessions.{
  register_player_session, enter_dungeons, reconnect_in, taken_by_other,
}
use dnf_mock_server_client.DungeonManager.LogIn.{find_dungeon_of-find}
use dnf_mock_server_client.DungeonManager.Participants.{
  AllInv, CameBack, SameParticipants, reconnect_in-cases, bound,
}

module _ {R : Type 0} where
  pub unchanged :
      (ds after : Map ℕ (DungeonInstance R))
      → AllInv ds
      → ((k : ℕ) → find k after ≡ find k ds)
      → SameParticipants ds after
  unchanged ds after all same = record {
    present = λ k. ground (arith, same k);
    same = λ k s. ground (arith, same k);
    all = λ k i h. all k i (ground (arith, same k));
  }

  -- A log-in that brought the player back.
  pub record Returned (m after : DungeonManager R) (result : RegisterDungeonSessionResult)
      (player session now grace : ℕ) : Type 0 where
    pub r : Reconnected
    pub status : result.status ≡ RegisterDungeonSessionStatus.reconnected
    pub replaced : result.replaced_session_id ≡ r.replaced_session_id
    pub since : result.disconnected_at ≡ some r.disconnected_at
    pub came : CameBack m.dungeons after.dungeons player session now grace result.dungeon_id r
    pub logged_in : find player after.active_player_sessions ≡ some session

module _ {R : Type 0} (m : DungeonManager R) (d : IsMap m.dungeons) (all : AllInv m.dungeons) where
  enter_dungeons-cases :
      (session player now grace : ℕ)
      → find player m.active_player_sessions ≡ some session
      → let after = enter_dungeons m session player now grace in
        ((after.1.status ≢ RegisterDungeonSessionStatus.reconnected)
          × SameParticipants m.dungeons after.0.dungeons)
        ⊎ Returned m after.0 after.1 player session now grace
  unfolding enter_dungeons
  enter_dungeons-cases session player now grace active =
      elim (Option-cases (find_dungeon_of m.dungeons session)) [
        | inr ((id, i), at_home) ↦
            let same =
              bound m.dungeons id session player i all
                (find_dungeon_of-find m.dungeons session id i at_home d) in
            inl (ground arith, ground (arith, same))
        | inl away ↦ elim (reconnect_in-cases m.dungeons player session now grace d all) [
          | inl (nowhere, same) ↦
              let kept =
                unchanged m.dungeons (reconnect_in m.dungeons player session now grace).0 all
                  same in
              inl (ground arith, ground (arith, kept))
          | inr (id, r, done, c) ↦ inr (record {
            r = r;
            status = ground arith;
            replaced = ground arith;
            since = ground arith;
            came = ground (arith, c);
            logged_in = ground (arith, active);
          })
        ]
      ]

  active-emplace :
      (session player : ℕ)
      → taken_by_other player session m.active_player_sessions ≡ false
      → find player (emplace player session m.active_player_sessions) ≡ some session
  unfolding taken_by_other
  active-emplace session player free =
      ground (arith, find-emplace player player session m.active_player_sessions)

module _ {R : Type 0} (m : DungeonManager R) (d : IsMap m.dungeons) (all : AllInv m.dungeons) where
  pub register_player_session-cases :
      (session player now grace : ℕ)
      → let after = register_player_session m session player now grace in
        ((after.1.status ≢ RegisterDungeonSessionStatus.reconnected)
          × SameParticipants m.dungeons after.0.dungeons)
        ⊎ Returned m after.0 after.1 player session now grace
  unfolding register_player_session
  register_player_session-cases session player now grace =
      let kept = unchanged m.dungeons m.dungeons all (λ k. refl) in
      elim (Bool-cases (session == 0 || player == 0 || grace == 0)) [
        | inl invalid ↦ inl (ground arith, ground (arith, kept))
        | inr valid ↦ elim (Bool-cases m.stopping) [
          | inl stopping ↦ inl (ground arith, ground (arith, kept))
          | inr serving ↦
              elim (Bool-cases (taken_by_other session player m.authenticated_players)) [
                | inl other_player ↦ inl (ground arith, ground (arith, kept))
                | inr free ↦
                    elim (Bool-cases (taken_by_other player session m.active_player_sessions)) [
                      | inl other_session ↦ inl (ground arith, ground (arith, kept))
                      | inr idle ↦
                          let n : DungeonManager R = record m {
                            authenticated_players = emplace session player m.authenticated_players;
                            active_player_sessions =
                                emplace player session m.active_player_sessions;
                          } in
                          elim (enter_dungeons-cases n d all session player now grace
                            (active-emplace m d all session player idle)) [
                              | inl (other, same) ↦ inl (ground arith, ground (arith, same))
                              | inr back ↦ inr (record {
                                r = back.r;
                                status = ground (arith, back.status);
                                replaced = ground (arith, back.replaced);
                                since = ground (arith, back.since);
                                came = ground (arith, back.came);
                                logged_in = ground (arith, back.logged_in);
                              })
                            ]
                    ]
              ]
        ]
      ]

module _ {R : Type 0} (i : DungeonInstance R) (v : Inv i) where
  -- What a reconnect does to the participants.
  pub reconnect_participant-players :
      (player session now grace : ℕ) (r : Reconnected)
      → (reconnect_participant i player session now grace).1 ≡ some r
      → let j = (reconnect_participant i player session now grace).0 in
        (contains r.replaced_session_id i.players ≡ true)
        × (contains session i.players ≡ false)
        × (contains session j.disconnected_since ≡ false)
        × ((s : ℕ)
            → contains s j.players ≡ (
                if session == s
                then true
                else if r.replaced_session_id == s
                then false
                else contains s i.players))
  reconnect_participant-players player session now grace r e =
      let c = (reconnect_participant_iff i v player session now grace).0.0 (ground arith) in
      let (p, found) = lost_player i v player session now grace c in
      let done = reconnect_participant-some i v player session now grace p c found in
      let first : Reconnected = record { replaced_session_id = c.old; disconnected_at = c.since } in
      let is : first ≡ r = ground arith in
      subst
        (λ (q : Reconnected).
          let j = (reconnect_participant i player session now grace).0 in
          (contains q.replaced_session_id i.players ≡ true)
          × (contains session i.players ≡ false)
          × (contains session j.disconnected_since ≡ false)
          × ((s : ℕ)
              → contains s j.players ≡ (
                  if session == s
                  then true
                  else if q.replaced_session_id == s
                  then false
                  else contains s i.players)))
        is
        (
          ground arith,
          c.free,
          ground (
            arith,
            done,
            find-erase c.old session i.disconnected_since,
            v.away_here session,
            c.free,
          ),
          λ s. ground (arith, done, find-renamed i c.old session s p c.free found),
        )
