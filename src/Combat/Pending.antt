-- ===== src/Combat/Pending.antt =====
-- The hits that wait for their skill, and what a skill of the catalog can be.
use dnf_mock_server_client.Prelude.{
  ℕ, nat_eq, ◌≤◌, ◌<◌, ◌≡◌, refl, inl, inr, false, ◌||◌, not, some, [], ◌∷◌, arith, ltb, ◌!=◌,
  Bool-cases, Option-cases, length, All,
}
use dnf_mock_server_client.Map.{Map}
use dnf_mock_server_client.Geometry.{Position}
use dnf_mock_server_client.UdpSession.Invariant.{All-mono}
use dnf_mock_server_client.Float.{Float}
use dnf_mock_server_client.Player.{PlayerState, snapshot, current_skill_action}
use dnf_mock_server_client.Dungeon.{DungeonInstance}
use dnf_mock_server_client.Dungeon.Progress.{find_player, find_room}
use dnf_mock_server_client.Combat.{Strength, PendingSkillHit, is_active, strike, resolve_hits}

module _ {R : Type 0} ⦃f : Float R⦄ (strength : Strength R) where
  -- The player of the hit lives and does its skill, which is not active yet or any more.
  abbrev pub Waits : DungeonInstance R → ℕ × PendingSkillHit R → Type 0
  Waits i e =
      (p : PlayerState R) × (find_player i e.0 ≡ some p)
      × (0 < p.current_hp)
      × (p.action_skill_id ≡ e.1.skill.id)
      × (is_active p.action_phase ≡ false)

  strike-players :
      (i : DungeonInstance R) (room_id : ℕ) (hit : PendingSkillHit R) (position : Position R)
      → (strike strength i room_id hit position).0.players ≡ i.players
  unfolding strike
  strike-players i room_id hit position = elim (Option-cases (find_room i room_id)) [
    | inl missing ↦ ground arith
    | inr (room, found) ↦ ground arith
  ]

  -- A round of the pending hits leaves no hit that could strike or is out of date: the player of each
  -- hit that stays lives and does that skill, outside of its active phase. No player changes, and no
  -- more hits are pending than before.
  pub resolve_hits-Waits :
      (hits : Map ℕ (PendingSkillHit R)) (i : DungeonInstance R)
      → let after = resolve_hits strength hits i in
        (after.0.players ≡ i.players) × All (Waits i) after.1 × (length after.1 ≤ length hits)
  unfolding resolve_hits snapshot current_skill_action find_player
  resolve_hits-Waits [] i = (refl, tt, omega arith)
  resolve_hits-Waits ((session, hit) ∷ hits) i =
      let dropped = resolve_hits-Waits hits i in
      elim (Option-cases (find_player i session)) [
        | inl gone ↦ ground (arith, dropped)
        | inr (p, found) ↦
            let struck = strike strength i p.room_id hit p.position in
            let same = strike-players i p.room_id hit p.position in
            let later = resolve_hits-Waits hits struck.0 in
            elim (Bool-cases (not (ltb 0 p.current_hp) || p.action_skill_id != hit.skill.id)) [
              | inl stale ↦ ground (arith, dropped)
              | inr fresh ↦ elim (Bool-cases (is_active p.action_phase)) [
                | inr early ↦
                    let here : Waits i (session, hit) =
                      (p, found, ground arith, ground arith, early) in
                    ground (arith, dropped, here)
                | inl now ↦
                    let all_wait : All (Waits i) (resolve_hits strength hits struck.0).1 =
                      All-mono (resolve_hits strength hits struck.0).1
                        (λ e w. (w.0, ground (arith, w.1, same), w.2, w.3, w.4)) later.1 in
                    ground (arith, later.0, later.2, same, all_wait)
              ]
            ]
      ]
