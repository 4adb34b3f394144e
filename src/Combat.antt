-- ===== src/Combat.antt =====
-- The attacks of a tick: include/DungeonCombatProcessor.h and src/DungeonCombatProcessor.cpp. What a
-- `float` gives beyond its operations, the base attack of a player and the rounding to a number of
-- hit points, is the record `Strength`.
pub mod Pending
pub mod Process
use dnf_mock_server_client.Prelude.{
  ℕ, zero, suc, nat_eq, ◌+◌, ◌≤◌, Bool, true, false, ◌&&◌, ◌||◌, not, none, some, List, [], ◌∷◌,
  ltb, ◌!=◌, if◌then◌else◌,
}
use dnf_mock_server_client.Prelude.Except.{◌>>=◌, ◌>>◌}
use dnf_mock_server_client.Map.{Map, assign}
use dnf_mock_server_client.Float.{Float, ◌≤f◌, zero_float}
use dnf_mock_server_client.Geometry.{Position}
use dnf_mock_server_client.Room.{RoomState, EnemyState, apply_enemy_damage}
use dnf_mock_server_client.Player.{
  SkillActionPhase, BeginSkillResult, snapshot, begin_skill, advance_combat_tick,
}
use dnf_mock_server_client.Dungeon.{DungeonInstance}
use dnf_mock_server_client.Dungeon.Progress.{find_player, find_room}
use dnf_mock_server_client.SkillCatalog.{
  SkillCatalog, SkillTemplate, SkillHitBox, SkillEffect, SkillEffectType, SkillTargetType,
  get_skill,
}
use dnf_mock_server_client.UdpMessages.{AuthenticatedPlayerAttack}

pub record Strength (R : Type 0) : Type 0 where
  pub base_attack : R
  -- std::round, at least 1, as a std::uint32_t.
  pub to_hit_points : R → ℕ

pub record PendingSkillHit (R : Type 0) : Type 0 where
  pub skill : SkillTemplate R
  pub direction_x : R
  pub direction_y : R

pub record CombatProcessResult : Type 0 where
  pub received_count : ℕ
  pub accepted_count : ℕ
  pub rejected_count : ℕ
  pub hit_count : ℕ

abbrev pub is_active : SkillActionPhase → Bool
is_active SkillActionPhase.active = true
is_active _ = false

abbrev pub is_begun : BeginSkillResult → Bool
is_begun BeginSkillResult.success = true
is_begun _ = false

abbrev pub is_damage : SkillEffectType → Bool
is_damage SkillEffectType.damage = true
is_damage _ = false

abbrev pub is_enemy_target : SkillTargetType → Bool
is_enemy_target SkillTargetType.enemy = true
is_enemy_target _ = false

module _ {R : Type 0} ⦃f : Float R⦄ (strength : Strength R) where
  unfoldable pub is_inside_skill_hit_box : Position R → Position R → R → R → SkillHitBox R → Bool
  is_inside_skill_hit_box player enemy direction_x direction_y box =
      let len = f.sqrt (f.add (f.mul direction_x direction_x) (f.mul direction_y direction_y)) in
      let x = f.div direction_x len in
      let y = f.div direction_y len in
      let offset_x = f.sub enemy.x player.x in
      let offset_y = f.sub enemy.y player.y in
      let forward = f.add (f.mul offset_x x) (f.mul offset_y y) in
      let side = f.abs (f.add (f.mul offset_x (f.neg y)) (f.mul offset_y x)) in
      let height = f.abs (f.sub enemy.z player.z) in
      f.neg box.backward_range ≤f forward
      && forward ≤f box.forward_range
      && side ≤f box.half_depth
      && height ≤f box.height

  -- The sum of the damaging effects.
  unfoldable pub damage_multiplier : R → List (SkillEffect R) → R
  damage_multiplier total [] = total
  damage_multiplier total (effect ∷ effects) =
      damage_multiplier
        (if is_damage effect.type && is_enemy_target effect.target
          then f.add total effect.value
          else total)
        effects

  unfoldable pub calculate_damage : SkillTemplate R → ℕ
  unfolding damage_multiplier
  calculate_damage skill =
      let multiplier = damage_multiplier zero_float skill.effects in
      if multiplier ≤f zero_float
      then 0
      else strength.to_hit_points (f.mul strength.base_attack multiplier)

  -- The loop over the enemies that the room had when the hit began, with the number of hits.
  unfoldable pub hit_enemies :
      ℕ → Position R → PendingSkillHit R → List (EnemyState R) → RoomState R → RoomState R × ℕ
  hit_enemies damage position hit [] room = (room, 0)
  hit_enemies damage position hit (enemy ∷ enemies) room =
      let strikes =
        ltb 0 damage
        && enemy.alive
        && is_inside_skill_hit_box position enemy.position hit.direction_x hit.direction_y
            hit.skill.hit_box in
      let struck =
        if strikes then apply_enemy_damage room enemy.entity_id damage else (room, false) in
      let rest = hit_enemies damage position hit enemies struck.0 in
      (rest.0, if struck.1 then rest.1 + 1 else rest.1)

  -- A hit whose skill is active strikes the room of its player.
  unfoldable pub strike :
      DungeonInstance R → ℕ → PendingSkillHit R → Position R → DungeonInstance R × ℕ
  unfolding calculate_damage hit_enemies
  strike i room_id hit position = elim (find_room i room_id) [
    | none ↦ (i, 0)
    | some room ↦
        let struck = hit_enemies (calculate_damage hit.skill) position hit room.enemies room in
        (record i { rooms = assign room_id struck.0 i.rooms }, struck.1)
  ]

  -- `ResolvePendingHits` on the hits of the dungeon: those that stay, and the number of strikes.
  unfoldable pub resolve_hits :
      Map ℕ (PendingSkillHit R)
      → DungeonInstance R
      → DungeonInstance R × Map ℕ (PendingSkillHit R) × ℕ
  unfolding strike
  resolve_hits [] i = (i, [], 0)
  resolve_hits ((session, hit) ∷ hits) i =
      let dropped = resolve_hits hits i in
      elim (find_player i session) [
        | none ↦ dropped
        | some p ↦
            let shown = snapshot p in
            let struck = strike i shown.room_id hit shown.position in
            let later = resolve_hits hits struck.0 in
            if not shown.alive || shown.skill_action.skill_id != hit.skill.id
            then dropped
            else if not (is_active shown.skill_action.phase)
            then (dropped.0, (session, hit) ∷ dropped.1, dropped.2)
            else (later.0, later.1, struck.1 + later.2)
      ]

  -- The loop that advances the participants.
  unfoldable pub advance_players : List ℕ → DungeonInstance R → DungeonInstance R
  advance_players [] i = i
  advance_players (session ∷ sessions) i = advance_players sessions (elim (find_player i session) [
    | none ↦ i
    | some p ↦ record i { players = assign session (advance_combat_tick p) i.players }
  ])

  -- One attack of the queue.
  unfoldable pub accept_attack :
      SkillCatalog R
      → AuthenticatedPlayerAttack R
      → DungeonInstance R
      → Map ℕ (PendingSkillHit R)
      → DungeonInstance R × Map ℕ (PendingSkillHit R) × Bool
  accept_attack skills queued i hits = elim (find_player i queued.session_id) [
    | none ↦ (i, hits, false)
    | some p ↦ elim (get_skill skills queued.attack.skill_id) [
      | none ↦ (i, hits, false)
      | some skill ↦
          let begun =
            begin_skill p skill.id skill.mana_cost skill.cooldown_ticks skill.startup_ticks
              skill.active_ticks skill.recovery_ticks in
          let j : DungeonInstance R = record i {
            players = assign queued.session_id begun.0 i.players;
          } in
          if not (is_begun begun.1) then (j, hits, false) else (
            j,
            assign queued.session_id
                (record {
                  skill = skill;
                  direction_x = queued.attack.direction_x;
                  direction_y = queued.attack.direction_y;
                })
                hits,
            true,
          )
    ]
  ]
