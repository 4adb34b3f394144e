-- ===== src/Lifecycle/Agreement.antt =====
-- The sessions with a UDP token of a dungeon are its participants, after a log-in too.
use dnf_mock_server_client.Prelude.{
  ℕ, nat_eq, ◌≡◌, refl, subst, ◌≢◌, ◌⊎◌, inl, inr, Bool, true, false, none, some, List, arith, ◌==◌,
  if◌then◌else◌, is_some, Bool-cases,
}
use dnf_mock_server_client.Map.{Map, find, contains}
use dnf_mock_server_client.Dungeon.Membership.{Reconnected, reconnect_participant}
use dnf_mock_server_client.Dungeon.Membership.Invariant.{Inv}
use dnf_mock_server_client.Dungeon.Membership.Reconnect.{reconnect_participant-Inv}
use dnf_mock_server_client.DungeonManager.{DungeonManager, RegisterDungeonSessionStatus}
use dnf_mock_server_client.DungeonManager.Invariant.{
  Inv as ManagerInv, rollback_player_reconnect-Inv,
}
use dnf_mock_server_client.DungeonManager.LogIn.{register_player_session-Inv}
use dnf_mock_server_client.DungeonManager.Sessions.{
  register_player_session, rollback_player_reconnect,
}
use dnf_mock_server_client.DungeonManager.Participants.{
  takes_part, AllInv, CameBack, SameParticipants,
}
use dnf_mock_server_client.DungeonManager.Returns.{
  register_player_session-cases, reconnect_participant-players,
}
use dnf_mock_server_client.DungeonManager.TakenBack.{rollback_player_reconnect-Returned}
use dnf_mock_server_client.UdpSession.{UdpSession, find_token}
use dnf_mock_server_client.UdpSession
use dnf_mock_server_client.UdpSession.Participants.{replace_participant_lem}
use dnf_mock_server_client.DungeonUdpManager.{UdpManager, replace_participant}
use dnf_mock_server_client.DungeonUdpManager.Replacement.{replace_participant-cases}
use dnf_mock_server_client.Lifecycle.{Service, register_session, take_back}

status-cases :
    (s : RegisterDungeonSessionStatus)
    → (s ≡ RegisterDungeonSessionStatus.reconnected)
      ⊎ ((s ≡ RegisterDungeonSessionStatus.registered)
          ⊎ (s ≡ RegisterDungeonSessionStatus.invalid_identity))
status-cases RegisterDungeonSessionStatus.reconnected = inl refl
status-cases RegisterDungeonSessionStatus.registered = inr (inl refl)
status-cases RegisterDungeonSessionStatus.invalid_identity = inr (inr refl)

module _ {E R : Type 0} where
  -- Whether a session has a token for the dungeon that is stored under a key.
  abbrev pub has_token : ℕ → ℕ → Map ℕ (UdpSession E R) → Bool
  has_token k s us = elim (find k us) [ none ↦ false | some u ↦ contains s u.tokens ]

  -- Every UDP session belongs to a dungeon, and its tokens to the participants.
  pub record Agree (l : Service E R) : Type 0 where
    pub dungeon_for :
        (k : ℕ) → contains k l.udp.sessions ≡ true → contains k l.manager.dungeons ≡ true
    pub same :
        (k s : ℕ)
        → contains k l.udp.sessions ≡ true
        → has_token k s l.udp.sessions ≡ takes_part k s l.manager.dungeons
    pub all : AllInv l.manager.dungeons
    pub tables : ManagerInv l.manager

module _ {E R : Type 0} (l : Service E R) (v : Agree l) where
  -- The participants are as before, and so are the tokens.
  pub kept :
      (m : DungeonManager R) (udp : UdpManager E R)
      → ManagerInv m
      → SameParticipants l.manager.dungeons m.dungeons
      → ((k : ℕ) → contains k udp.sessions ≡ contains k l.udp.sessions)
      → ((k s : ℕ) → has_token k s udp.sessions ≡ has_token k s l.udp.sessions)
      → Agree (record l { manager = m; udp = udp })
  kept m udp tables p there tokens = record {
    dungeon_for = λ k h. ground (arith, there k, p.present k, v.dungeon_for k);
    same = λ k s h. ground (arith, there k, tokens k s, p.same k s, v.same k s);
    all = p.all;
    tables = tables;
  }

  came_back :
      (m : DungeonManager R) (udp : UdpManager E R) (player session now id : ℕ) (r : Reconnected)
      (u : UdpSession E R) (token : ℕ)
      → ManagerInv m
      → CameBack l.manager.dungeons m.dungeons player session now l.reconnect_grace id r
      → find id l.udp.sessions ≡ some u
      → (UdpSession.replace_participant u r.replaced_session_id session token).1 ≡ true
      → ((k : ℕ)
          → find k udp.sessions ≡ (
              if id == k
              then some (UdpSession.replace_participant u r.replaced_session_id session token).0
              else find k l.udp.sessions))
      → Agree (record l { manager = m; udp = udp })
  unfolding UdpSession.find_token
  came_back m udp player session now id r u token tables c stored done sessions =
      let i = c.instance_before in
      let w = v.all id i c.found in
      let (_, _, _, players) =
        reconnect_participant-players i w player session now l.reconnect_grace r c.back in
      let (tokens, _, _, _) = replace_participant_lem u r.replaced_session_id session token done in
      record {
        dungeon_for =
            λ k h. ground (arith, sessions k, c.dungeons k, v.dungeon_for k, stored, c.found);
        same = λ k s h. elim (Bool-cases (id == k)) [
          | inl here ↦
              ground
                (arith, sessions k, c.dungeons k, c.found, stored, tokens s, players s, v.same k s)
          | inr there ↦ ground (arith, sessions k, c.dungeons k, v.same k s)
        ];
        all = λ k o h. elim (Bool-cases (id == k)) [
          | inl here ↦
              let j = (reconnect_participant i player session now l.reconnect_grace).0 in
              let is : j ≡ o = ground (arith, c.dungeons k) in
              subst Inv is (reconnect_participant-Inv i w player session now l.reconnect_grace)
          | inr there ↦ v.all k o (ground (arith, c.dungeons k))
        ];
        tables = tables;
      }

  -- The manager after a log-in.
  abbrev logged : ℕ → ℕ → ℕ → DungeonManager R
  logged session player now =
      (register_player_session l.manager session player now l.reconnect_grace).0

  -- A log-in of a service whose tokens and participants agree keeps them in agreement. If no token
  -- can be given for a player who came back, everybody takes part as before, and the player is
  -- logged out.
  pub register_session-Agree :
      (drawn : List ℕ) (session player now later : ℕ)
      → let after = register_session l drawn session player now later in
        Agree after.0
        × ((after.1.status ≢ RegisterDungeonSessionStatus.reconnected)
            ⊎ (is_some after.1.fresh_udp_token ≡ true)
            ⊎ (((k s : ℕ)
                  → takes_part k s after.0.manager.dungeons ≡ takes_part k s l.manager.dungeons)
                × (find session after.0.manager.authenticated_players ≡ none)
                × (find player after.0.manager.active_player_sessions ≡ none)))
  unfolding register_session take_back
  register_session-Agree drawn session player now later =
      let m = logged session player now in
      let registered = register_player_session l.manager session player now l.reconnect_grace in
      let w = register_player_session-Inv l.manager v.tables session player now l.reconnect_grace in
      elim (register_player_session-cases l.manager v.tables.dungeons_map v.all session player now
        l.reconnect_grace) [
          | inl (other, p) ↦
              let a = kept m l.udp w p (λ k. refl) (λ k s. refl) in
              elim (status-cases registered.1.status) [
                | inl back ↦ absurd (other back)
                | inr (inl plain) ↦ (ground (arith, a), inl (ground (arith, other)))
                | inr (inr refused) ↦ (ground (arith, a), inl (ground (arith, other)))
              ]
          | inr b ↦
              let id = registered.1.dungeon_id in
              elim (replace_participant-cases l.udp drawn id b.r.replaced_session_id session) [
                | inr (u, token, drew, stored, done, sessions) ↦
                    let a =
                      came_back m
                        (replace_participant l.udp drawn id b.r.replaced_session_id session).0
                        player session now id b.r u token w b.came stored done sessions in
                    (
                      ground (arith, b.status, b.replaced, a),
                      inr (inl (ground (arith, b.status, b.replaced))),
                    )
                | inl (nothing, same) ↦
                    let back =
                      rollback_player_reconnect m id player session b.r.replaced_session_id
                        b.r.disconnected_at in
                    let (done, p, out, inactive) =
                      rollback_player_reconnect-Returned l.manager m v.all registered.1 player
                        session now l.reconnect_grace b in
                    let a =
                      kept back.0
                        (replace_participant l.udp drawn id b.r.replaced_session_id session).0
                        (rollback_player_reconnect-Inv m w id player session b.r.replaced_session_id
                          b.r.disconnected_at)
                        p (λ k. ground (arith, same k)) (λ k s. ground (arith, same k)) in
                    (
                      ground (arith, b.status, b.replaced, b.since, a),
                      inr (
                          inr (
                            λ k s. ground (arith, b.status, b.replaced, b.since, p.same k s),
                            ground (arith, b.status, b.replaced, b.since, out),
                            ground (arith, b.status, b.replaced, b.since, inactive),
                          )),
                    )
              ]
        ]
