-- ===== src/Lifecycle/Removal.antt =====
-- The other operations of the lifecycle service keep tokens and participants in agreement.
use dnf_mock_server_client.Prelude.{
  ℕ, nat_eq, ◌<◌, ◌≡◌, refl, subst, inl, inr, true, false, ◌&&◌, ◌||◌, not, none, List, [], ◌∷◌,
  arith, ◌==◌, if◌then◌else◌, Bool-cases, Option-cases,
}
use dnf_mock_server_client.Map.{find, contains}
use dnf_mock_server_client.Map.Laws.{find-assign, find-erase}
use dnf_mock_server_client.Prelude.{elem}
use dnf_mock_server_client.Dungeon.Membership.Invariant.{Inv}
use dnf_mock_server_client.DungeonManager.Sessions.{disconnect_player_session}
use dnf_mock_server_client.DungeonManager.Lifetime.{sweep_abandoned_participants}
use dnf_mock_server_client.DungeonManager.Invariant.{disconnect_player_session-Inv}
use dnf_mock_server_client.DungeonManager.Participants.{takes_part, AllInv}
use dnf_mock_server_client.DungeonManager.Sweep.{
  swept, sweep_abandoned_participants_lem, sweep_abandoned_participants-Inv,
}
use dnf_mock_server_client.DungeonManager.Departures.{
  disconnect_player_session-SameParticipants, removes, swept-players, swept-Inv,
  sweep_dungeons-removes,
}
use dnf_mock_server_client.UdpSession.{UdpSession}
use dnf_mock_server_client.UdpSession
use dnf_mock_server_client.DungeonUdpManager.{UdpManager, remove_participant, release, pass_on}
use dnf_mock_server_client.DungeonUdpManager
use dnf_mock_server_client.Lifecycle.{Service, disconnect_session, remove_each, release_each, sweep}
use dnf_mock_server_client.Lifecycle.Agreement.{has_token, Agree, kept}

module _ {E R : Type 0} where
  disconnect_participant-tokens :
      (m : UdpManager E R) (id session k s : ℕ)
      → let after = (DungeonUdpManager.disconnect_participant m id session).0 in
        (contains k after.sessions ≡ contains k m.sessions)
        × (has_token k s after.sessions ≡ has_token k s m.sessions)
  unfolding DungeonUdpManager.disconnect_participant pass_on UdpSession.disconnect_participant
      UdpSession.remove_participant_runtime_state
  disconnect_participant-tokens m id session k s = elim (Option-cases (find id m.sessions)) [
    | inl missing ↦ ground arith
    | inr (u, found) ↦
        ground (arith, find-assign id k (UdpSession.disconnect_participant u session).0 m.sessions)
  ]

  remove_participant-tokens :
      (m : UdpManager E R) (id session k s : ℕ)
      → let after = (remove_participant m id session).0 in
        (contains k after.sessions ≡ contains k m.sessions)
        × (has_token k s after.sessions
            ≡ (has_token k s m.sessions && not (id == k && session == s)))
  unfolding remove_participant pass_on UdpSession.remove_participant
      UdpSession.remove_participant_runtime_state
  remove_participant-tokens m id session k s = elim (Option-cases (find id m.sessions)) [
    | inl missing ↦ ground arith
    | inr (u, found) ↦ ground (
      arith,
      find-assign id k (UdpSession.remove_participant u session).0 m.sessions,
      find-erase session s u.tokens,
    )
  ]

  remove_each-tokens :
      (removed : List (ℕ × ℕ)) (m : UdpManager E R) (k s : ℕ)
      → (contains k (remove_each removed m).sessions ≡ contains k m.sessions)
        × (has_token k s (remove_each removed m).sessions
            ≡ (has_token k s m.sessions && not (removes k s removed)))
  unfolding remove_each
  remove_each-tokens [] m k s = (refl, ground arith)
  remove_each-tokens ((id, session) ∷ removed) m k s = ground (
    arith,
    remove_each-tokens removed (remove_participant m id session).0 k s,
    remove_participant-tokens m id session k s,
  )

  release_each-find :
      (released : List ℕ) (m : UdpManager E R) (k : ℕ)
      → find k (release_each released m).sessions
        ≡ (if elem k released then none else find k m.sessions)
  unfolding release_each release
  release_each-find [] m k = refl
  release_each-find (id ∷ released) m k =
      ground (arith, release_each-find released (release m id).0 k, find-erase id k m.sessions)

module _ {E R : Type 0} (l : Service E R) (v : Agree l) where
  pub disconnect_session-Agree : (session now : ℕ) → Agree (disconnect_session l session now).0
  unfolding disconnect_session
  disconnect_session-Agree session now =
      let left = disconnect_player_session l.manager session now in
      let w = disconnect_player_session-Inv l.manager v.tables session now in
      let p = disconnect_player_session-SameParticipants l.manager session now v.all in
      elim (Option-cases left.1) [
        | inl nowhere ↦ ground (arith, kept l v left.0 l.udp w p (λ k. refl) (λ k s. refl))
        | inr (id, there) ↦ ground (
          arith,
          kept l v left.0 (DungeonUdpManager.disconnect_participant l.udp id session).0 w p
              (λ k. (disconnect_participant-tokens l.udp id session k 0).0)
              (λ k s. (disconnect_participant-tokens l.udp id session k s).1),
        )
      ]

  swept_participants :
      (now grace lifetime k s : ℕ)
      → 0 < grace
      → 0 < lifetime
      → let after = sweep_abandoned_participants l.manager now grace lifetime in
        takes_part k s after.0.dungeons ≡ (
          if elem k after.1.released_dungeons
          then false
          else takes_part k s l.manager.dungeons && not (removes k s after.1.removed_participants))
  unfolding sweep_abandoned_participants
  swept_participants now grace lifetime k s g t =
      let formula = sweep_abandoned_participants_lem l.manager v.tables now grace lifetime k g t in
      let list =
        sweep_dungeons-removes now grace lifetime k s l.manager.dungeons l.manager.party_dungeons
          v.tables.dungeons_map in
      elim (Option-cases (find k l.manager.dungeons)) [
        | inl missing ↦ ground (arith, formula)
        | inr (i, found) ↦
            ground (arith, formula, list, swept-players now grace lifetime i s (v.all k i found))
      ]

  swept_all :
      (now grace lifetime : ℕ)
      → 0 < grace
      → 0 < lifetime
      → AllInv (sweep_abandoned_participants l.manager now grace lifetime).0.dungeons
  swept_all now grace lifetime g t k o h =
      let formula = sweep_abandoned_participants_lem l.manager v.tables now grace lifetime k g t in
      elim (Option-cases (find k l.manager.dungeons)) [
        | inl missing ↦ absurd (ground (arith, formula))
        | inr (i, found) ↦
            let is : swept now grace lifetime i ≡ o = ground (arith, formula) in
            subst Inv is (swept-Inv now grace lifetime i (v.all k i found))
      ]

  swept_tables :
      (now grace lifetime : ℕ) → 0 < grace → 0 < lifetime → Agree (sweep l now grace lifetime).0
  unfolding sweep
  swept_tables now grace lifetime g t =
      let after = sweep_abandoned_participants l.manager now grace lifetime in
      let udp = remove_each after.1.removed_participants l.udp in
      record {
        dungeon_for = λ k h. ground (
          arith,
          release_each-find after.1.released_dungeons udp k,
          remove_each-tokens after.1.removed_participants l.udp k 0,
          sweep_abandoned_participants_lem l.manager v.tables now grace lifetime k g t,
          v.dungeon_for k,
        );
        same = λ k s h. ground (
          arith,
          release_each-find after.1.released_dungeons udp k,
          remove_each-tokens after.1.removed_participants l.udp k s,
          swept_participants now grace lifetime k s g t,
          v.same k s,
        );
        all = swept_all now grace lifetime g t;
        tables = sweep_abandoned_participants-Inv l.manager v.tables now grace lifetime;
      }

  unswept :
      (now grace lifetime : ℕ)
      → (grace == 0 || lifetime == 0) ≡ true
      → Agree (sweep l now grace lifetime).0
  unfolding sweep sweep_abandoned_participants remove_each release_each
  unswept now grace lifetime off = ground (arith, v)

  pub sweep-Agree : (now grace lifetime : ℕ) → Agree (sweep l now grace lifetime).0
  sweep-Agree now grace lifetime = elim (Bool-cases (grace == 0 || lifetime == 0)) [
    | inr on ↦ swept_tables now grace lifetime (ground arith) (ground arith)
    | inl off ↦ unswept now grace lifetime off
  ]
