-- ===== src/Player/Calls.antt =====
-- Histories of calls on one player.
use dnf_mock_server_client.Prelude.{
  ℕ, nat_eq, ◌<◌, ◌≡◌, refl, ◌∙◌, true, List, [], ◌∷◌, arith, u32_mod,
}
use dnf_mock_server_client.Float.{Float}
use dnf_mock_server_client.Geometry.{Position}
use dnf_mock_server_client.Room.{RoomState}
use dnf_mock_server_client.Player.{
  PlayerState, is_idle, rebind_session, apply_damage, begin_skill, advance_action,
  advance_combat_tick, move_to, enter_room,
}
use dnf_mock_server_client.Player.Invariant.{
  IsPlayer, apply_damage-IsPlayer, begin_skill-IsPlayer, advance_combat_tick-IsPlayer,
  rebind_session-IsPlayer, move_to-IsPlayer, enter_room-IsPlayer,
}

-- The calls that the server makes on a player. The tick counts of a skill are 32-bit numbers.
pub data Call (R : Type 0) : Type 0 where
  damage : ℕ → Call R
  skill :
      (id mana cooldown s a c : ℕ)
      → cooldown < u32_mod
      → s < u32_mod
      → a < u32_mod
      → c < u32_mod
      → Call R
  tick : Call R
  rebind : ℕ → Call R
  move : RoomState R → Position R → Call R
  enter : RoomState R → Position R → Call R

module _ {R : Type 0} ⦃f : Float R⦄ where
  unfoldable pub step : PlayerState R → Call R → PlayerState R
  step p (damage n) = (apply_damage p n).0
  step p (skill id mana cooldown s a c _ _ _ _) = (begin_skill p id mana cooldown s a c).0
  step p tick = advance_combat_tick p
  step p (rebind s) = (rebind_session p s).0
  step p (move room next) = (move_to p room next).0
  step p (enter room spawn) = (enter_room p room spawn).0

  unfoldable pub run : PlayerState R → List (Call R) → PlayerState R
  run p [] = p
  run p (c ∷ cs) = run (step p c) cs

  step-IsPlayer : (p : PlayerState R) (c : Call R) → IsPlayer p → IsPlayer (step p c)
  unfolding step
  step-IsPlayer p (damage n) v = apply_damage-IsPlayer p n v
  step-IsPlayer p (skill id mana cooldown s a c hc hs ha hr) v =
      begin_skill-IsPlayer p id mana cooldown s a c hc hs ha hr v
  step-IsPlayer p tick v = advance_combat_tick-IsPlayer p v
  step-IsPlayer p (rebind s) v = rebind_session-IsPlayer p s v
  step-IsPlayer p (move room next) v = move_to-IsPlayer p room next v
  step-IsPlayer p (enter room spawn) v = enter_room-IsPlayer p room spawn v

  -- Any calls, in any order, keep a well-formed player well formed: hit points and mana within
  -- their limits, an action exactly in the busy phases, none on the dead, and no counter that would
  -- wrap.
  pub run-IsPlayer : (p : PlayerState R) (cs : List (Call R)) → IsPlayer p → IsPlayer (run p cs)
  unfolding run
  run-IsPlayer p [] v = v
  run-IsPlayer p (c ∷ cs) v = run-IsPlayer (step p c) cs (step-IsPlayer p c v)

  step-dead :
      (p : PlayerState R) (c : Call R)
      → IsPlayer p
      → p.current_hp ≡ 0
      → ((step p c).current_hp ≡ 0)
        × ((step p c).position ≡ p.position)
        × ((step p c).room_id ≡ p.room_id)
        × ((step p c).current_mp ≡ p.current_mp)
        × (is_idle (step p c).action_phase ≡ true)
  unfolding step apply_damage begin_skill advance_combat_tick advance_action rebind_session move_to
      enter_room
  step-dead p (damage n) v d = ground arith
  step-dead p (skill id mana cooldown s a c _ _ _ _) v d = ground arith
  step-dead p tick v d = ground arith
  step-dead p (rebind s) v d = ground arith
  step-dead p (move room next) v d = ground arith
  step-dead p (enter room spawn) v d = ground arith

  -- A well-formed player without hit points stays dead: he does not move, change rooms, spend mana
  -- or act, whatever is called.
  pub run_dead :
      (p : PlayerState R) (cs : List (Call R))
      → IsPlayer p
      → p.current_hp ≡ 0
      → ((run p cs).current_hp ≡ 0)
        × ((run p cs).position ≡ p.position)
        × ((run p cs).room_id ≡ p.room_id)
        × ((run p cs).current_mp ≡ p.current_mp)
        × (is_idle (run p cs).action_phase ≡ true)
  unfolding run
  run_dead p [] v d = (d, refl, refl, refl, v.dead_idle d)
  run_dead p (c ∷ cs) v d =
      let (d', x, r, m, i) = step-dead p c v d in
      let (d'', x', r', m', i') = run_dead (step p c) cs (step-IsPlayer p c v) d' in
      (d'', x' ∙ x, r' ∙ r, m' ∙ m, i')
