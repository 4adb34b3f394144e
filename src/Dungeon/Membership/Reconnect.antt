-- ===== src/Dungeon/Membership/Reconnect.antt =====
-- A participant who comes back, and a reconnect that is rolled back.
use dnf_mock_server_client.Prelude.{
  ℕ, nat_eq, ◌-◌, ◌≤◌, ◌<◌, ◌≡◌, false, some, arith, inr, inl, true, ◌↔◌, ◌⊎◌, ap,
}
use dnf_mock_server_client.Map.{find, contains, erase}
use dnf_mock_server_client.Player.{PlayerState}
use dnf_mock_server_client.Dungeon.{DungeonInstance, inr, inl}
use dnf_mock_server_client.Dungeon.Membership.{
  reconnect_participant, Option-cases, is_some, true, ap, erase-IsMap, find-erase, Reconnected,
  rollback_participant_reconnect, emplace, emplace-IsMap, find-emplace,
}
use dnf_mock_server_client.Dungeon.Membership.Invariant.{Inv}
use dnf_mock_server_client.Dungeon.Membership.Rename.{
  move_player_lem, renamed, renamed-Inv, find-renamed,
}

module _ {R : Type 0} (i : DungeonInstance R) where
  -- What a reconnect needs: a bound player whose session was lost less than the grace time ago, and
  -- a session id that no participant has.
  pub record CanReconnect (player new now grace : ℕ) : Type 0 where
    pub old : ℕ
    pub since : ℕ
    pub named : 0 < player
    pub fresh : 0 < new
    pub session : find player i.player_sessions ≡ some old
    pub lost : find old i.disconnected_since ≡ some since
    pub free : contains new i.players ≡ false
    pub after : since ≤ now
    pub soon : now - since < grace

module _ {R : Type 0} (i : DungeonInstance R) (v : Inv i) where
  pub reconnect_participant-some :
      (player new now grace : ℕ) (p : PlayerState R) (c : CanReconnect i player new now grace)
      → find c.old i.players ≡ some p
      → reconnect_participant i player new now grace ≡ (
        renamed i player c.old new p (erase c.old i.disconnected_since),
        some (record { replaced_session_id = c.old; disconnected_at = c.since }),
      )
  unfolding reconnect_participant
  reconnect_participant-some player new now grace p c found = ground (
    arith,
    c.named,
    c.fresh,
    c.session,
    c.lost,
    c.free,
    c.after,
    c.soon,
    move_player_lem i.players c.old new p found c.fresh,
  )

  -- The player of a session that was lost.
  pub lost_player :
      (player new now grace : ℕ) (c : CanReconnect i player new now grace)
      → (p : PlayerState R) × (find c.old i.players ≡ some p)
  lost_player player new now grace c = elim (Option-cases (find c.old i.players)) [
    | inl missing ↦ absurd (ground (arith, v.away_here c.old, c.lost))
    | inr found ↦ found
  ]

  reconnect_participant-CanReconnect :
      (player new now grace : ℕ)
      → is_some (reconnect_participant i player new now grace).1 ≡ true
      → CanReconnect i player new now grace
  unfolding reconnect_participant
  reconnect_participant-CanReconnect player new now grace h =
      elim (Option-cases (find player i.player_sessions)) [
        | inl unbound ↦ absurd (ground arith)
        | inr (old, session) ↦ elim (Option-cases (find old i.disconnected_since)) [
          | inl connected ↦ absurd (ground arith)
          | inr (since, lost) ↦ record {
            old = old;
            since = since;
            named = ground arith;
            fresh = ground arith;
            session = session;
            lost = lost;
            free = ground arith;
            after = ground arith;
            soon = ground arith;
          }
        ]
      ]

  reconnect_participant-none :
      (player new now grace : ℕ)
      → (is_some (reconnect_participant i player new now grace).1 ≡ true)
        ⊎ ((reconnect_participant i player new now grace).0 ≡ i)
  unfolding reconnect_participant
  reconnect_participant-none player new now grace =
      elim (Option-cases (find player i.player_sessions)) [
        | inl unbound ↦ inr (ground arith)
        | inr (old, session) ↦ elim (Option-cases (find old i.disconnected_since)) [
          | inl connected ↦ inr (ground arith)
          | inr (since, lost) ↦ elim (Option-cases (find old i.players)) [
            | inl missing ↦ absurd (ground (arith, v.away_here old))
            | inr (p, found) ↦ ground (arith, move_player_lem i.players old new p found)
          ]
        ]
      ]

  -- In an instance that satisfies the invariant, a reconnect succeeds exactly when the player is
  -- bound, its session was lost less than the grace time ago, and the new session id is not 0 and
  -- that of no participant; one that fails changes nothing.
  pub reconnect_participant_iff :
      (player new now grace : ℕ)
      → ((is_some (reconnect_participant i player new now grace).1 ≡ true)
          ↔ CanReconnect i player new now grace)
        × ((is_some (reconnect_participant i player new now grace).1 ≡ true)
            ⊎ ((reconnect_participant i player new now grace).0 ≡ i))
  reconnect_participant_iff player new now grace = (
    (
      reconnect_participant-CanReconnect player new now grace,
      λ c.
          let (p, found) = lost_player player new now grace c in
          ap (λ t. is_some t.1) (reconnect_participant-some player new now grace p c found),
    ),
    reconnect_participant-none player new now grace,
  )

  pub reconnect_participant-Inv :
      (player new now grace : ℕ) → Inv (reconnect_participant i player new now grace).0
  reconnect_participant-Inv player new now grace =
      elim (reconnect_participant-none player new now grace) [
        | inr same ↦ rw same v
        | inl done ↦
            let c = reconnect_participant-CanReconnect player new now grace done in
            let (p, found) = lost_player player new now grace c in
            rw (reconnect_participant-some player new now grace p c found) (
              renamed-Inv i player c.old new p (erase c.old i.disconnected_since) v c.session found
                c.free c.fresh (erase-IsMap c.old i.disconnected_since v.away_map)
                (λ s h. ground (
                  arith,
                  find-renamed i c.old new s p c.free found,
                  find-erase c.old s i.disconnected_since,
                  v.away_here s,
                )))
      ]

  pub rollback_participant_reconnect-renamed :
      (player new : ℕ) (r : Reconnected) (p : PlayerState R)
      → (rollback_participant_reconnect i player new r).1 ≡ true
      → find new i.players ≡ some p
      → (rollback_participant_reconnect i player new r).0
        ≡ renamed i player new r.replaced_session_id p
            (emplace r.replaced_session_id r.disconnected_at i.disconnected_since)
  unfolding rollback_participant_reconnect
  rollback_participant_reconnect-renamed player new r p done found =
      ground (arith, move_player_lem i.players new r.replaced_session_id p found)

  -- What a rollback that is accepted had found.
  pub rollback_participant_reconnect-found :
      (player new : ℕ) (r : Reconnected)
      → (rollback_participant_reconnect i player new r).1 ≡ true
      → (find player i.player_sessions ≡ some new)
        × (contains new i.players ≡ true)
        × (contains r.replaced_session_id i.players ≡ false)
        × (0 < r.replaced_session_id)
  unfolding rollback_participant_reconnect
  rollback_participant_reconnect-found player new r done =
      (ground arith, ground arith, ground arith, ground arith)

  rollback_participant_reconnect-same :
      (player new : ℕ) (r : Reconnected)
      → ((rollback_participant_reconnect i player new r).1 ≡ true)
        ⊎ ((rollback_participant_reconnect i player new r).0 ≡ i)
  unfolding rollback_participant_reconnect
  rollback_participant_reconnect-same player new r = elim (Option-cases (find new i.players)) [
    | inl missing ↦ inr (ground arith)
    | inr (p, found) ↦ ground (arith, move_player_lem i.players new r.replaced_session_id p found)
  ]

  pub rollback_participant_reconnect-Inv :
      (player new : ℕ) (r : Reconnected)
      → contains new i.disconnected_since ≡ false
      → Inv (rollback_participant_reconnect i player new r).0
  rollback_participant_reconnect-Inv player new r connected =
      let old = r.replaced_session_id in
      elim (rollback_participant_reconnect-same player new r) [
        | inr same ↦ rw same v
        | inl done ↦
            let (session, here, free, positive) =
              rollback_participant_reconnect-found player new r done in
            elim (Option-cases (find new i.players)) [
              | inl missing ↦ absurd (ground arith)
              | inr (p, found) ↦
                  rw (rollback_participant_reconnect-renamed player new r p done found) (
                    renamed-Inv i player new old p
                      (emplace old r.disconnected_at i.disconnected_since) v session found free
                      positive (emplace-IsMap old r.disconnected_at i.disconnected_since v.away_map)
                      (λ s h. ground (
                        arith,
                        find-renamed i new old s p free found,
                        find-emplace old s r.disconnected_at i.disconnected_since,
                        v.away_here s,
                      )))
            ]
      ]
