-- ===== src/Player/Skills.antt =====
-- Starting a skill: when it is allowed, and what it costs.
use dnf_mock_server_client.Prelude.{
  ℕ, nat_eq, ◌+◌, ◌-◌, ◌≤◌, ◌<◌, ◌≡◌, ◌≢◌, ◌⊎◌, inl, inr, true, false, ◌||◌, not, arith, ltb, ◌==◌,
  Bool-cases, ◌↔◌, if◌then◌else◌, leb, ◌&&◌, some,
}
use dnf_mock_server_client.Map.{find, contains}
use dnf_mock_server_client.Map.Laws.{find-emplace}
use dnf_mock_server_client.Player.{
  PlayerState, BeginSkillResult, SkillActionPhase, is_idle, begin_skill, apply_damage,
}
use dnf_mock_server_client.Player.Invariant.{IsPlayer}

module _ {R : Type 0} (p : PlayerState R) (skill mana cooldown s a c : ℕ) where
  -- A skill begins exactly when the player lives and is idle, the skill is one, is not on cooldown
  -- and can be paid.
  pub begin_skill-success_iff :
      ((begin_skill p skill mana cooldown s a c).1 ≡ BeginSkillResult.success) ↔ (
        (0 < p.current_hp)
        × (0 < skill)
        × (0 < a)
        × (contains skill p.cooldowns ≡ false)
        × (is_idle p.action_phase ≡ true)
        × (mana ≤ p.current_mp))
  unfolding begin_skill
  begin_skill-success_iff = ground arith

  -- A skill that begins costs its mana and nothing else, and sets no cooldown but its own; one
  -- that is refused changes nothing.
  pub begin_skill_cost :
      let after = begin_skill p skill mana cooldown s a c in
      ((after.1 ≡ BeginSkillResult.success)
        × (after.0.current_mp + mana ≡ p.current_mp)
        × (after.0.current_hp ≡ p.current_hp)
        × (after.0.position ≡ p.position)
        × (after.0.room_id ≡ p.room_id)
        × ((j : ℕ)
            → find j after.0.cooldowns
              ≡ (if skill == j && ltb 0 cooldown then some cooldown else find j p.cooldowns)))
      ⊎ ((after.1 ≢ BeginSkillResult.success) × (after.0 ≡ p))
  unfolding begin_skill
  begin_skill_cost =
      elim (Bool-cases (
        p.current_hp == 0
        || skill == 0
        || a == 0
        || contains skill p.cooldowns
        || not (is_idle p.action_phase)
        || ltb p.current_mp mana)) [
          | inl refused ↦ inr (ground arith, ground arith)
          | inr allowed ↦ inl (
            ground arith,
            ground arith,
            ground arith,
            ground arith,
            ground arith,
            λ j. ground (arith, find-emplace skill j cooldown p.cooldowns),
          )
        ]

-- Damage lowers the hit points of a well-formed player, down to 0. It is accepted exactly if there
-- is some and the player lives, and otherwise changes nothing. It ends the action if it kills, and
-- only then changes the phase.
pub apply_damage_lem :
    {R : Type 0} (p : PlayerState R) (damage : ℕ)
    → IsPlayer p
    → let after = apply_damage p damage in
      (after.0.current_hp ≡ p.current_hp - damage)
      × ((after.1 ≡ true) ↔ ((0 < damage) × (0 < p.current_hp)))
      × ((after.1 ≡ true) ⊎ (after.0 ≡ p))
      × (after.0.action_phase
          ≡ (if leb p.current_hp damage then SkillActionPhase.idle else p.action_phase))
unfolding apply_damage
apply_damage_lem p damage v =
    (ground arith, ground arith, ground arith, ground (arith, v.dead_idle))
