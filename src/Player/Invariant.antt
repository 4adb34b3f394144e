-- ===== src/Player/Invariant.antt =====
-- What holds of a player between two calls.
use dnf_mock_server_client.Prelude.{
  ℕ, nat_eq, ◌-◌, ◌≤◌, ◌<◌, ◌≡◌, refl, true, false, none, some, [], ◌∷◌, arith, ◌==◌, if◌then◌else◌,
  u32_mod,
}
use dnf_mock_server_client.Prelude.Except.{ok}
use dnf_mock_server_client.Map.{Map, find, contains, emplace, IsMap}
use dnf_mock_server_client.Map.Size.{emplace-IsMap}
use dnf_mock_server_client.Float.{Float}
use dnf_mock_server_client.Geometry.{Position}
use dnf_mock_server_client.Room.{RoomState}
use dnf_mock_server_client.Player.{
  PlayerState, is_idle, advance_cooldowns, rebind_session, apply_damage, begin_skill,
  advance_action, advance_combat_tick, new_player, move_to, enter_room,
}

-- Every cooldown has ticks left, so counting down does not wrap.
abbrev pub Ticking : Map ℕ ℕ → Type 0
Ticking [] = Unit
Ticking ((skill_id, ticks) ∷ m) = (0 < ticks) × (ticks < u32_mod) × Ticking m

pub record IsPlayer {R : Type 0} (p : PlayerState R) : Type 0 where
  pub named : 0 < p.session_id
  pub hp_bounded : p.current_hp ≤ p.max_hp
  pub mp_bounded : p.current_mp ≤ p.max_mp
  pub idle_clear :
      is_idle p.action_phase ≡ true → (p.action_skill_id ≡ 0) × (p.action_remaining_ticks ≡ 0)
  pub busy_ticking :
      is_idle p.action_phase ≡ false
      → (0 < p.action_skill_id) × (0 < p.action_remaining_ticks) × (0 < p.action_active_ticks)
  pub dead_idle : p.current_hp ≡ 0 → is_idle p.action_phase ≡ true
  pub remaining_fits : p.action_remaining_ticks < u32_mod
  pub active_fits : p.action_active_ticks < u32_mod
  pub recovery_fits : p.action_recovery_ticks < u32_mod
  pub cooldowns_ticking : Ticking p.cooldowns
  pub cooldowns_map : IsMap p.cooldowns

emplace-Ticking :
    (k n : ℕ) (m : Map ℕ ℕ) → 0 < n → n < u32_mod → Ticking m → Ticking (emplace k n m)
unfolding emplace
emplace-Ticking k n [] pos fits t = (pos, fits, tt)
emplace-Ticking k n ((j, w) ∷ m) pos fits t = ground (arith, emplace-Ticking k n m pos fits t.2)

advance_cooldowns-Ticking : (m : Map ℕ ℕ) → Ticking m → Ticking (advance_cooldowns m)
unfolding advance_cooldowns
advance_cooldowns-Ticking [] t = tt
advance_cooldowns-Ticking ((k, n) ∷ m) t = ground (arith, advance_cooldowns-Ticking m t.2)

advance_cooldowns-contains :
    (k : ℕ) (m : Map ℕ ℕ) → contains k m ≡ false → contains k (advance_cooldowns m) ≡ false
unfolding advance_cooldowns find
advance_cooldowns-contains k [] h = refl
advance_cooldowns-contains k ((j, n) ∷ m) h = ground (arith, advance_cooldowns-contains k m)

advance_cooldowns-IsMap : (m : Map ℕ ℕ) → IsMap m → IsMap (advance_cooldowns m)
unfolding advance_cooldowns
advance_cooldowns-IsMap [] u = tt
advance_cooldowns-IsMap ((k, n) ∷ m) u =
    ground (arith, advance_cooldowns-IsMap m u.1, advance_cooldowns-contains k m u.0)

-- A cooldown loses one tick, and is gone when it had one.
pub find-advance_cooldowns :
    (k : ℕ) (m : Map ℕ ℕ)
    → IsMap m
    → Ticking m
    → find k (advance_cooldowns m)
      ≡ elim (find k m) [ none ↦ none | some n ↦ if n == 1 then none else some (n - 1) ]
unfolding advance_cooldowns find
find-advance_cooldowns k [] u t = refl
find-advance_cooldowns k ((j, n) ∷ m) u t =
    ground (arith, find-advance_cooldowns k m u.1 t.2, advance_cooldowns-contains k m)

module _ {R : Type 0} where
  pub apply_damage-IsPlayer :
      (p : PlayerState R) (damage : ℕ) → IsPlayer p → IsPlayer (apply_damage p damage).0
  unfolding apply_damage
  apply_damage-IsPlayer p damage v = ground arith

  pub begin_skill-IsPlayer :
      (p : PlayerState R) (skill mana cooldown s a c : ℕ)
      → cooldown < u32_mod
      → s < u32_mod
      → a < u32_mod
      → c < u32_mod
      → IsPlayer p
      → IsPlayer (begin_skill p skill mana cooldown s a c).0
  unfolding begin_skill
  begin_skill-IsPlayer p skill mana cooldown s a c hc hs ha hr v = ground (
    arith,
    emplace-Ticking skill cooldown p.cooldowns,
    emplace-IsMap skill cooldown p.cooldowns v.cooldowns_map,
  )

  advance_action-IsPlayer : (p : PlayerState R) → IsPlayer p → IsPlayer (advance_action p)
  unfolding advance_action
  advance_action-IsPlayer p v = ground arith

  pub advance_combat_tick-IsPlayer :
      (p : PlayerState R) → IsPlayer p → IsPlayer (advance_combat_tick p)
  unfolding advance_combat_tick
  advance_combat_tick-IsPlayer p v =
      advance_action-IsPlayer (record p { cooldowns = advance_cooldowns p.cooldowns })
        (record {
          named = v.named;
          hp_bounded = v.hp_bounded;
          mp_bounded = v.mp_bounded;
          idle_clear = v.idle_clear;
          busy_ticking = v.busy_ticking;
          dead_idle = v.dead_idle;
          remaining_fits = v.remaining_fits;
          active_fits = v.active_fits;
          recovery_fits = v.recovery_fits;
          cooldowns_ticking = advance_cooldowns-Ticking p.cooldowns v.cooldowns_ticking;
          cooldowns_map = advance_cooldowns-IsMap p.cooldowns v.cooldowns_map;
        })

  pub rebind_session-IsPlayer :
      (p : PlayerState R) (s : ℕ) → IsPlayer p → IsPlayer (rebind_session p s).0
  unfolding rebind_session
  rebind_session-IsPlayer p s v = ground arith

module _ {R : Type 0} ⦃f : Float R⦄ where
  pub new_player-IsPlayer :
      (session room : ℕ) (position : Position R) (mp hp : ℕ) (p : PlayerState R)
      → new_player session room position mp hp ≡ ok p
      → IsPlayer p
  unfolding new_player
  new_player-IsPlayer session room position mp hp p e = ground arith

  pub move_to-IsPlayer :
      (p : PlayerState R) (room : RoomState R) (next : Position R)
      → IsPlayer p
      → IsPlayer (move_to p room next).0
  unfolding move_to
  move_to-IsPlayer p room next v = ground arith

  pub enter_room-IsPlayer :
      (p : PlayerState R) (room : RoomState R) (spawn : Position R)
      → IsPlayer p
      → IsPlayer (enter_room p room spawn).0
  unfolding enter_room
  enter_room-IsPlayer p room spawn v = ground arith
