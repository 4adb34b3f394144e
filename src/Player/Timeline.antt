-- ===== src/Player/Timeline.antt =====
-- The course of a skill: start-up, active ticks, recovery, and the cooldown beside it.
use dnf_mock_server_client.Prelude.{
  ℕ, zero, suc, nat_eq, ◌+◌, ◌-◌, ◌<◌, ◌≡◌, arith, ltb, if◌then◌else◌, u32_mod, ◌∙◌, ap,
}
use dnf_mock_server_client.Player.Invariant.{
  IsPlayer, find-advance_cooldowns, advance_combat_tick-IsPlayer, begin_skill-IsPlayer,
}
use dnf_mock_server_client.Map.Laws.{find-emplace}
use dnf_mock_server_client.Player.{
  PlayerState, SkillActionPhase, SkillActionSnapshot, BeginSkillResult, begin_skill, advance_action,
  advance_combat_tick, current_skill_action, advance_cooldowns, remaining_cooldown,
}

-- The action of a skill with `s` ticks of start-up, `a` active ticks and `c` of recovery, `k` ticks
-- after it began.
unfoldable pub action_after : (skill s a c k : ℕ) → SkillActionSnapshot
action_after skill s a c k =
    if ltb k s
    then record { skill_id = skill; phase = SkillActionPhase.startup; remaining_ticks = s - k }
    else if ltb k (s + a)
    then record { skill_id = skill; phase = SkillActionPhase.active; remaining_ticks = s + a - k }
    else if ltb k (s + a + c)
    then record {
      skill_id = skill;
      phase = SkillActionPhase.recovery;
      remaining_ticks = s + a + c - k;
    }
    else record { skill_id = 0; phase = SkillActionPhase.idle; remaining_ticks = 0 }

module _ {R : Type 0} where
  unfoldable pub ticks : ℕ → PlayerState R → PlayerState R
  ticks zero p = p
  ticks (suc k) p = advance_combat_tick (ticks k p)

  -- The state agrees with the schedule; the lengths of the later phases are kept while it acts.
  record OnSchedule (skill s a c k : ℕ) (p : PlayerState R) : Type 0 where
    shows : current_skill_action p ≡ action_after skill s a c k
    active_kept : k < s + a → p.action_active_ticks ≡ a
    recovery_kept : k < s + a + c → p.action_recovery_ticks ≡ c

  begin_skill-OnSchedule :
      (p : PlayerState R) (skill mana cooldown s a c : ℕ)
      → (begin_skill p skill mana cooldown s a c).1 ≡ BeginSkillResult.success
      → OnSchedule skill s a c 0 (begin_skill p skill mana cooldown s a c).0
  unfolding begin_skill current_skill_action action_after
  begin_skill-OnSchedule p skill mana cooldown s a c e = record {
    shows = ground arith;
    active_kept = ground arith;
    recovery_kept = ground arith;
  }

  advance_combat_tick-OnSchedule :
      (p : PlayerState R) (skill s a c k : ℕ)
      → 0 < a
      → s < u32_mod
      → a < u32_mod
      → c < u32_mod
      → OnSchedule skill s a c k p
      → OnSchedule skill s a c (suc k) (advance_combat_tick p)
  unfolding advance_combat_tick advance_action current_skill_action action_after
  advance_combat_tick-OnSchedule p skill s a c k ha fs fa fc o = record {
    shows = ground (arith, o.shows, o.active_kept, o.recovery_kept);
    active_kept = ground (arith, o.shows, o.active_kept, o.recovery_kept);
    recovery_kept = ground (arith, o.shows, o.active_kept, o.recovery_kept);
  }

  ticks-OnSchedule :
      (p : PlayerState R) (skill mana cooldown s a c k : ℕ)
      → 0 < a
      → s < u32_mod
      → a < u32_mod
      → c < u32_mod
      → (begin_skill p skill mana cooldown s a c).1 ≡ BeginSkillResult.success
      → OnSchedule skill s a c k (ticks k (begin_skill p skill mana cooldown s a c).0)
  unfolding ticks
  ticks-OnSchedule p skill mana cooldown s a c zero ha fs fa fc e =
      begin_skill-OnSchedule p skill mana cooldown s a c e
  ticks-OnSchedule p skill mana cooldown s a c (suc k) ha fs fa fc e =
      advance_combat_tick-OnSchedule (ticks k (begin_skill p skill mana cooldown s a c).0) skill s a
        c k ha fs fa fc (ticks-OnSchedule p skill mana cooldown s a c k ha fs fa fc e)

  begin_skill-active :
      (p : PlayerState R) (skill mana cooldown s a c : ℕ)
      → (begin_skill p skill mana cooldown s a c).1 ≡ BeginSkillResult.success
      → 0 < a
  unfolding begin_skill
  begin_skill-active p skill mana cooldown s a c e = ground arith

  -- A skill that begins, with 32-bit lengths of its phases, runs on schedule: after k undisturbed
  -- ticks the player shows start-up, active, recovery or idle, with the ticks that remain of it.
  pub begin_skill-ticks :
      (p : PlayerState R) (skill mana cooldown s a c k : ℕ)
      → s < u32_mod
      → a < u32_mod
      → c < u32_mod
      → (begin_skill p skill mana cooldown s a c).1 ≡ BeginSkillResult.success
      → current_skill_action (ticks k (begin_skill p skill mana cooldown s a c).0)
        ≡ action_after skill s a c k
  begin_skill-ticks p skill mana cooldown s a c k fs fa fc e =
      (ticks-OnSchedule p skill mana cooldown s a c k
        (begin_skill-active p skill mana cooldown s a c e) fs fa fc e).shows

  advance_combat_tick-cooldowns :
      (p : PlayerState R) → (advance_combat_tick p).cooldowns ≡ advance_cooldowns p.cooldowns
  unfolding advance_combat_tick advance_action
  advance_combat_tick-cooldowns p = ground arith

  ticks-IsPlayer : (k : ℕ) (p : PlayerState R) → IsPlayer p → IsPlayer (ticks k p)
  unfolding ticks
  ticks-IsPlayer zero p v = v
  ticks-IsPlayer (suc k) p v = advance_combat_tick-IsPlayer (ticks k p) (ticks-IsPlayer k p v)

  -- A cooldown falls by one with every tick, down to 0.
  pub remaining_cooldown-ticks :
      (k : ℕ) (p : PlayerState R) (skill : ℕ)
      → IsPlayer p
      → remaining_cooldown (ticks k p) skill ≡ remaining_cooldown p skill - k
  unfolding ticks remaining_cooldown
  remaining_cooldown-ticks zero p skill v = ground arith
  remaining_cooldown-ticks (suc k) p skill v =
      let w = ticks-IsPlayer k p v in
      ground (
        arith,
        remaining_cooldown-ticks k p skill v,
        advance_combat_tick-cooldowns (ticks k p),
        find-advance_cooldowns skill (ticks k p).cooldowns w.cooldowns_map w.cooldowns_ticking,
      )

  begin_skill-cooldown :
      (p : PlayerState R) (skill mana cooldown s a c : ℕ)
      → (begin_skill p skill mana cooldown s a c).1 ≡ BeginSkillResult.success
      → remaining_cooldown (begin_skill p skill mana cooldown s a c).0 skill ≡ cooldown
  unfolding begin_skill remaining_cooldown
  begin_skill-cooldown p skill mana cooldown s a c e =
      ground (arith, find-emplace skill skill cooldown p.cooldowns)

  -- A skill that a well-formed player begins, with 32-bit tick counts, is on cooldown for exactly
  -- as many ticks as it was started with: each tick takes one off, down to 0.
  pub begin_skill-remaining_cooldown :
      (p : PlayerState R) (skill mana cooldown s a c k : ℕ)
      → cooldown < u32_mod
      → s < u32_mod
      → a < u32_mod
      → c < u32_mod
      → IsPlayer p
      → (begin_skill p skill mana cooldown s a c).1 ≡ BeginSkillResult.success
      → remaining_cooldown (ticks k (begin_skill p skill mana cooldown s a c).0) skill
        ≡ cooldown - k
  begin_skill-remaining_cooldown p skill mana cooldown s a c k fd fs fa fc v e =
      remaining_cooldown-ticks k _ skill
        (begin_skill-IsPlayer p skill mana cooldown s a c fd fs fa fc v)
      ∙ ap (λ n. n - k) (begin_skill-cooldown p skill mana cooldown s a c e)
