-- ===== src/Examples/Players.antt =====
-- A player who uses a skill, and is hurt.
use dnf_mock_server_client.Prelude.{
  ℕ, nat_eq, ◌≤◌, ◌<◌, ◌≡◌, refl, true, false, List, [], ◌∷◌, arith, ◌↔◌,
}
use dnf_mock_server_client.Map.{find, contains}
use dnf_mock_server_client.Room.{RoomState}
use dnf_mock_server_client.Player.{
  PlayerState, SkillActionPhase, BeginSkillResult, begin_skill, current_skill_action,
}
use dnf_mock_server_client.Player.Invariant.{IsPlayer}
use dnf_mock_server_client.Player.Calls.{Call, run, damage, skill, tick, run-IsPlayer}
use dnf_mock_server_client.Player.Timeline.{ticks, action_after, begin_skill-ticks}
use dnf_mock_server_client.Player.Skills.{begin_skill-success_iff}
use dnf_mock_server_client.Examples.{nat_float, at_point}

abbrev player : PlayerState ℕ
player = record {
  session_id = 5;
  room_id = 2;
  position = at_point 1 1 0;
  current_hp = 100;
  max_hp = 100;
  current_mp = 40;
  max_mp = 50;
  cooldowns = (3, 7) ∷ [];
  action_skill_id = 0;
  action_phase = SkillActionPhase.idle;
  action_remaining_ticks = 0;
  action_active_ticks = 0;
  action_recovery_ticks = 0;
}

player-IsPlayer : IsPlayer player
unfolding find
player-IsPlayer = record {
  named = omega arith;
  hp_bounded = omega arith;
  mp_bounded = omega arith;
  idle_clear = λ h. (refl, refl);
  busy_ticking = λ h. cc;
  dead_idle = λ h. refl;
  remaining_fits = omega arith;
  active_fits = omega arith;
  recovery_fits = omega arith;
  cooldowns_ticking = (omega arith, omega arith, tt);
  cooldowns_map = (refl, tt);
}

abbrev corpse : PlayerState ℕ
corpse = record player { current_hp = 0 }

corpse-IsPlayer : IsPlayer corpse
unfolding find
corpse-IsPlayer = record {
  named = omega arith;
  hp_bounded = omega arith;
  mp_bounded = omega arith;
  idle_clear = λ h. (refl, refl);
  busy_ticking = λ h. cc;
  dead_idle = λ h. refl;
  remaining_fits = omega arith;
  active_fits = omega arith;
  recovery_fits = omega arith;
  cooldowns_ticking = (omega arith, omega arith, tt);
  cooldowns_map = (refl, tt);
}

-- A skill, a tick and a blow.
abbrev calls : List (Call ℕ)
calls =
    skill 1 10 5 1 2 1 (omega arith) (omega arith) (omega arith) (omega arith)
    ∷ tick
    ∷ damage 30
    ∷ []

run-IsPlayer_example : IsPlayer (run player calls)
run-IsPlayer_example = run-IsPlayer player calls player-IsPlayer

begin_skill-success_iff_example :
    ((begin_skill player 1 10 5 1 2 1).1 ≡ BeginSkillResult.success) ↔ (
      (0 < 100)
      × (0 < 1)
      × (0 < 2)
      × (contains 1 player.cooldowns ≡ false)
      × (true ≡ true)
      × (10 ≤ 40))
begin_skill-success_iff_example = begin_skill-success_iff player 1 10 5 1 2 1

skill_begins : (begin_skill player 1 10 5 1 2 1).1 ≡ BeginSkillResult.success
unfolding begin_skill find
skill_begins = refl

-- Two ticks after it began, a skill of 1 + 2 + 1 ticks is active for one tick more.
begin_skill-ticks_example :
    current_skill_action (ticks 2 (begin_skill player 1 10 5 1 2 1).0)
    ≡ record { skill_id = 1; phase = SkillActionPhase.active; remaining_ticks = 1 }
unfolding action_after
begin_skill-ticks_example =
    begin_skill-ticks player 1 10 5 1 2 1 2 (omega arith) (omega arith) (omega arith) skill_begins

abbrev hall : RoomState ℕ
hall = record {
  room_template = record {
    id = 2;
    width = 100;
    depth = 50;
    player_spawn = at_point 1 1 0;
    portals = [];
    obstacles = [];
    enemy_spawns = [];
  };
  current_wave = 0;
  last_wave = 0;
  enemies = [];
  obstacles = [];
}
