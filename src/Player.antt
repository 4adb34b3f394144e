-- ===== src/Player.antt =====
-- A player inside a dungeon: include/DungeonPlayerState.h and src/DungeonPlayerState.cpp. Each
-- method holds the mutex for its whole body, so it is one step.
pub mod Invariant
pub mod Calls
pub mod Timeline
pub mod Movement
pub mod Skills
use dnf_mock_server_client.Prelude.{
  ℕ, zero, suc, nat_eq, ◌+◌, ◌-◌, ◌%◌, ◌<◌, Bool, true, false, ◌||◌, not, none, some, List, [], ◌∷◌,
  map, ltb, leb, ◌==◌, ◌!=◌, if◌then◌else◌, u32_mod,
}
use dnf_mock_server_client.Prelude.Except.{Except, ok, err, ◌>>=◌, ◌>>◌}
use dnf_mock_server_client.Map.{Map, find, contains, emplace}
use dnf_mock_server_client.Sort.{sort_by}
use dnf_mock_server_client.Float.{Float, ◌<f◌, zero_float}
use dnf_mock_server_client.Geometry.{Position}
use dnf_mock_server_client.Room.{RoomState, PositionCheckResult, check_position}

pub data MovePlayerResult : Type 0 where
  success dead wrong_room outside_room blocked_by_obstacle : MovePlayerResult

pub data BeginSkillResult : Type 0 where
  success dead invalid_skill not_enough_mana on_cooldown busy : BeginSkillResult

pub data SkillActionPhase : Type 0 where
  idle startup active recovery : SkillActionPhase

pub record SkillActionSnapshot : Type 0 where
  pub skill_id : ℕ
  pub phase : SkillActionPhase
  pub remaining_ticks : ℕ

pub record SkillCooldownSnapshot : Type 0 where
  pub skill_id : ℕ
  pub remaining_ticks : ℕ

pub record PlayerSnapshot (R : Type 0) : Type 0 where
  pub room_id : ℕ
  pub position : Position R
  pub current_hp : ℕ
  pub max_hp : ℕ
  pub alive : Bool
  pub current_mp : ℕ
  pub max_mp : ℕ
  pub skill_action : SkillActionSnapshot
  pub cooldowns : List SkillCooldownSnapshot

pub data PlayerError : Type 0 where
  invalid_player_state : PlayerError

pub record PlayerState (R : Type 0) : Type 0 where
  pub session_id : ℕ
  pub room_id : ℕ
  pub position : Position R
  pub current_hp : ℕ
  pub max_hp : ℕ
  pub current_mp : ℕ
  pub max_mp : ℕ
  pub cooldowns : Map ℕ ℕ
  pub action_skill_id : ℕ
  pub action_phase : SkillActionPhase
  pub action_remaining_ticks : ℕ
  pub action_active_ticks : ℕ
  pub action_recovery_ticks : ℕ

-- `--x` on a std::uint32_t.
abbrev pub dec32 : ℕ → ℕ
dec32 x = (x + u32_mod - 1) % u32_mod

abbrev pub is_idle : SkillActionPhase → Bool
is_idle SkillActionPhase.idle = true
is_idle _ = false

abbrev pub is_success : MovePlayerResult → Bool
is_success MovePlayerResult.success = true
is_success _ = false

unfoldable pub to_move_player_result : PositionCheckResult → MovePlayerResult
to_move_player_result PositionCheckResult.valid = MovePlayerResult.success
to_move_player_result PositionCheckResult.outside_room = MovePlayerResult.outside_room
to_move_player_result PositionCheckResult.blocked_by_obstacle = MovePlayerResult.blocked_by_obstacle

-- The loop over the cooldowns: count down, and drop those that reach 0.
unfoldable pub advance_cooldowns : Map ℕ ℕ → Map ℕ ℕ
advance_cooldowns [] = []
advance_cooldowns ((skill_id, ticks) ∷ m) =
    let rest = advance_cooldowns m in
    if dec32 ticks == 0 then rest else (skill_id, dec32 ticks) ∷ rest

module _ {R : Type 0} where
  unfoldable pub rebind_session : PlayerState R → ℕ → PlayerState R × Bool
  rebind_session p session_id =
      if session_id == 0 then (p, false) else (record p { session_id = session_id }, true)

  unfoldable pub current_skill_action : PlayerState R → SkillActionSnapshot
  current_skill_action p = record {
    skill_id = p.action_skill_id;
    phase = p.action_phase;
    remaining_ticks = p.action_remaining_ticks;
  }

  unfoldable pub snapshot : PlayerState R → PlayerSnapshot R
  unfolding current_skill_action
  snapshot p = record {
    room_id = p.room_id;
    position = p.position;
    current_hp = p.current_hp;
    max_hp = p.max_hp;
    alive = ltb 0 p.current_hp;
    current_mp = p.current_mp;
    max_mp = p.max_mp;
    skill_action = current_skill_action p;
    cooldowns =
        sort_by (λ c. c.skill_id)
          (map (λ e. record { skill_id = e.0; remaining_ticks = e.1 }) p.cooldowns);
  }

  unfoldable pub is_alive : PlayerState R → Bool
  is_alive p = ltb 0 p.current_hp

  unfoldable pub remaining_cooldown : PlayerState R → ℕ → ℕ
  remaining_cooldown p skill_id = elim (find skill_id p.cooldowns) [ none ↦ 0 | some ticks ↦ ticks ]

  unfoldable pub clear_action : PlayerState R → PlayerState R
  clear_action p = record p {
    action_skill_id = 0;
    action_phase = SkillActionPhase.idle;
    action_remaining_ticks = 0;
    action_active_ticks = 0;
    action_recovery_ticks = 0;
  }

  unfoldable pub apply_damage : PlayerState R → ℕ → PlayerState R × Bool
  unfolding clear_action
  apply_damage p damage =
      if damage == 0 || p.current_hp == 0
      then (p, false)
      else let hurt : PlayerState R = record p {
        current_hp = if leb p.current_hp damage then 0 else p.current_hp - damage;
      } in
        (if hurt.current_hp == 0 then clear_action hurt else hurt, true)

  unfoldable pub begin_skill :
      PlayerState R → ℕ → ℕ → ℕ → ℕ → ℕ → ℕ → PlayerState R × BeginSkillResult
  begin_skill p skill_id mana_cost cooldown_ticks startup_ticks active_ticks recovery_ticks =
      if p.current_hp == 0
      then (p, BeginSkillResult.dead)
      else if skill_id == 0 || active_ticks == 0
      then (p, BeginSkillResult.invalid_skill)
      else if contains skill_id p.cooldowns
      then (p, BeginSkillResult.on_cooldown)
      else if not (is_idle p.action_phase)
      then (p, BeginSkillResult.busy)
      else if ltb p.current_mp mana_cost
      then (p, BeginSkillResult.not_enough_mana)
      else (
        record p {
          current_mp = p.current_mp - mana_cost;
          cooldowns =
              if ltb 0 cooldown_ticks
              then emplace skill_id cooldown_ticks p.cooldowns
              else p.cooldowns;
          action_skill_id = skill_id;
          action_active_ticks = active_ticks;
          action_recovery_ticks = recovery_ticks;
          action_phase =
              if ltb 0 startup_ticks then SkillActionPhase.startup else SkillActionPhase.active;
          action_remaining_ticks = if ltb 0 startup_ticks then startup_ticks else active_ticks;
        },
        BeginSkillResult.success,
      )

  -- What follows when the ticks of a phase are used up.
  unfoldable pub next_phase : SkillActionPhase → PlayerState R → PlayerState R
  unfolding clear_action
  next_phase SkillActionPhase.startup p = record p {
    action_phase = SkillActionPhase.active;
    action_remaining_ticks = p.action_active_ticks;
  }
  next_phase SkillActionPhase.active p =
      if ltb 0 p.action_recovery_ticks
      then record p {
        action_phase = SkillActionPhase.recovery;
        action_remaining_ticks = p.action_recovery_ticks;
      }
      else clear_action p
  next_phase SkillActionPhase.recovery p = clear_action p
  next_phase SkillActionPhase.idle p = clear_action p

  unfoldable pub advance_action : PlayerState R → PlayerState R
  unfolding next_phase
  advance_action p =
      if is_idle p.action_phase
      then p
      else let q : PlayerState R = record p {
        action_remaining_ticks = dec32 p.action_remaining_ticks;
      } in
        if ltb 0 q.action_remaining_ticks then q else next_phase q.action_phase q

  unfoldable pub advance_combat_tick : PlayerState R → PlayerState R
  unfolding advance_action
  advance_combat_tick p = advance_action (record p { cooldowns = advance_cooldowns p.cooldowns })

module _ {R : Type 0} ⦃f : Float R⦄ where
  -- The constructor; it throws on a player that could not play.
  unfoldable pub new_player : ℕ → ℕ → Position R → ℕ → ℕ → Except PlayerError (PlayerState R)
  new_player session_id room_id position max_mp max_hp =
      if session_id == 0 || room_id == 0 || position.z <f zero_float || max_mp == 0 || max_hp == 0
      then err PlayerError.invalid_player_state
      else ok (record {
        session_id = session_id;
        room_id = room_id;
        position = position;
        current_hp = max_hp;
        max_hp = max_hp;
        current_mp = max_mp;
        max_mp = max_mp;
        cooldowns = [];
        action_skill_id = 0;
        action_phase = SkillActionPhase.idle;
        action_remaining_ticks = 0;
        action_active_ticks = 0;
        action_recovery_ticks = 0;
      })

  unfoldable pub move_to :
      PlayerState R → RoomState R → Position R → PlayerState R × MovePlayerResult
  unfolding to_move_player_result
  move_to p room next_position =
      if p.current_hp == 0
      then (p, MovePlayerResult.dead)
      else if p.room_id != room.room_template.id
      then (p, MovePlayerResult.wrong_room)
      else let result = to_move_player_result (check_position room next_position) in
        if is_success result
        then (record p { position = next_position }, MovePlayerResult.success)
        else (p, result)

  unfoldable pub enter_room :
      PlayerState R → RoomState R → Position R → PlayerState R × MovePlayerResult
  unfolding to_move_player_result
  enter_room p room spawn_position =
      if p.current_hp == 0
      then (p, MovePlayerResult.dead)
      else let result = to_move_player_result (check_position room spawn_position) in
        if is_success result
        then (
          record p { room_id = room.room_template.id; position = spawn_position },
          MovePlayerResult.success,
        )
        else (p, result)
