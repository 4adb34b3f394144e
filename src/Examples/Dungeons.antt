-- ===== src/Examples/Dungeons.antt =====
-- A dungeon of two rooms with the sessions 5 and 6, whose players are 50 and 60.
use dnf_mock_server_client.Prelude.{
  ℕ, nat_eq, ◌≤◌, ◌<◌, ◌≡◌, refl, subst, ◌⊎◌, true, false, not, some, [], ◌∷◌, ◌==◌, ◌!=◌,
  if◌then◌else◌, is_some, All, ◌↔◌, ◌≢◌,
}
use dnf_mock_server_client.Prelude.Except.{ok}
use dnf_mock_server_client.Map.{find, contains, assign, emplace, erase, size}
use dnf_mock_server_client.Geometry.{
  RoomTemplate, PortalTemplate, is_inside_room, is_inside_collision_box,
}
use dnf_mock_server_client.Room.{
  RoomState, new_room, is_cleared, check_position, is_blocked, PositionCheckResult, greatest_wave,
  has_living_enemy, start_next_wave, next_wave_from,
}
use dnf_mock_server_client.Player.{
  PlayerState, SkillActionPhase, new_player, rebind_session, enter_room, to_move_player_result,
}
use dnf_mock_server_client.Dungeon.{
  DungeonInstance, DungeonTemplate, DungeonState, new_instance, check_participants, make_rooms,
  make_players,
}
use dnf_mock_server_client.Dungeon.Membership.{
  Reconnected, bind_participant_player, disconnect_participant, reconnect_participant,
  rollback_participant_reconnect, move_player,
}
use dnf_mock_server_client.Dungeon.Membership.Invariant.{Inv}
use dnf_mock_server_client.Dungeon.Membership.Reconnect.{CanReconnect, reconnect_participant_iff}
use dnf_mock_server_client.Dungeon.Membership.Rollback.{
  Same, rollback_participant_reconnect-reconnect_participant,
  rollback_participant_reconnect-disconnected,
}
use dnf_mock_server_client.EnemyCatalog.{EnemyCatalog}
use dnf_mock_server_client.Prelude.{keep_if, List}
use dnf_mock_server_client.Dungeon.Membership.Reachable.{Reaches, made, called, Reaches-Inv}
use dnf_mock_server_client.Dungeon.Calls.{
  Call, bind, disconnect, reconnect, expire, begin, advance, complete, portal, act, damage, tick,
  hit_enemy, step, run,
}
use dnf_mock_server_client.Dungeon.Progress.{
  UsePortalResult, find_player, find_room, final_room_id, try_finish_if_cleared, try_use_portal,
  find_template, find_portal, enter_target, start_wave_in,
}
use dnf_mock_server_client.Dungeon.Progress.Portals.{AtPortal, try_use_portal-success}
use dnf_mock_server_client.Dungeon.Progress.Phases.{
  is_progress, rank, run-rank, try_finish_if_cleared_iff,
}
use dnf_mock_server_client.Examples.{nat_float, at_point}

abbrev gate : PortalTemplate ℕ
gate = record {
  id = 1;
  trigger_area = record { minimum = at_point 0 0 0; maximum = at_point 5 5 5 };
  target_room_id = 2;
  target_position = at_point 9 9 0;
  requires_room_clear = true;
}

abbrev entry : RoomTemplate ℕ
entry = record {
  id = 1;
  width = 100;
  depth = 50;
  player_spawn = at_point 1 1 0;
  portals = gate ∷ [];
  obstacles = [];
  enemy_spawns = [];
}

abbrev vault : RoomTemplate ℕ
vault = record {
  id = 2;
  width = 100;
  depth = 50;
  player_spawn = at_point 1 1 0;
  portals = [];
  obstacles = [];
  enemy_spawns = [];
}

abbrev pub cellar : DungeonTemplate ℕ
cellar = record {
  id = 3;
  name = "cellar";
  rooms = entry ∷ vault ∷ [];
  recommended_party_size = 1;
  max_party_size = 4;
}

abbrev player_of : ℕ → PlayerState ℕ
player_of session = record {
  session_id = session;
  room_id = 1;
  position = at_point 1 1 0;
  current_hp = 100;
  max_hp = 100;
  current_mp = 100;
  max_mp = 100;
  cooldowns = [];
  action_skill_id = 0;
  action_phase = SkillActionPhase.idle;
  action_remaining_ticks = 0;
  action_active_ticks = 0;
  action_recovery_ticks = 0;
}

abbrev pub fresh : DungeonInstance ℕ
fresh = record {
  dungeon_id = 7;
  dungeon_template = cellar;
  party_id = 1;
  participants = 5 ∷ 6 ∷ [];
  rooms = (1, new_room entry) ∷ (2, new_room vault) ∷ [];
  players = (5, player_of 5) ∷ (6, player_of 6) ∷ [];
  participant_player_ids = [];
  player_sessions = [];
  disconnected_since = [];
  created_at = 1000;
  state = DungeonState.waiting;
}

pub was_made : new_instance 7 cellar 1 (5 ∷ 6 ∷ []) 1000 ≡ ok fresh
unfolding new_instance check_participants make_rooms make_players new_player find emplace
was_made = refl

-- Session 5 belongs to player 50, and is lost at the time 2000.
abbrev lost : DungeonInstance ℕ
lost = record fresh {
  participant_player_ids = (5, 50) ∷ [];
  player_sessions = (50, 5) ∷ [];
  disconnected_since = (5, 2000) ∷ [];
}

was_lost : (disconnect_participant (bind_participant_player fresh 5 50).0 5 2000).0 ≡ lost
unfolding disconnect_participant bind_participant_player find emplace
was_lost = refl

abbrev no_enemies : EnemyCatalog ℕ
no_enemies = []

lost-Reaches : Reaches no_enemies lost
unfolding step
lost-Reaches = subst (Reaches no_enemies) was_lost (
    called (bind_participant_player fresh 5 50).0 (disconnect 5 2000) tt
      (called fresh (bind 5 50) tt (made 7 cellar 1 (5 ∷ 6 ∷ []) 1000 fresh was_made)))

lost-Inv : Inv lost
lost-Inv = Reaches-Inv no_enemies lost lost-Reaches

-- The dungeon starts while session 5 is away, and session 6 uses the portal.
abbrev without_five : DungeonInstance ℕ
without_five = step no_enemies (step no_enemies lost begin) (portal 6)

without_five-Reaches : Reaches no_enemies without_five
without_five-Reaches =
    called (step no_enemies lost begin) (portal 6) tt (called lost begin tt lost-Reaches)

Reaches-Inv_example : Inv without_five
Reaches-Inv_example = Reaches-Inv no_enemies without_five without_five-Reaches

reconnect_participant_iff_example :
    ((is_some (reconnect_participant lost 50 9 3000 30000).1 ≡ true)
      ↔ CanReconnect lost 50 9 3000 30000)
    × ((is_some (reconnect_participant lost 50 9 3000 30000).1 ≡ true)
        ⊎ ((reconnect_participant lost 50 9 3000 30000).0 ≡ lost))
reconnect_participant_iff_example = reconnect_participant_iff lost lost-Inv 50 9 3000 30000

abbrev ticket : Reconnected
ticket = record { replaced_session_id = 5; disconnected_at = 2000 }

comes_back : (reconnect_participant lost 50 9 3000 30000).1 ≡ some ticket
unfolding reconnect_participant move_player rebind_session find
comes_back = refl

rollback_participant_reconnect-reconnect_participant_example :
    let back = reconnect_participant lost 50 9 3000 30000 in
    ((rollback_participant_reconnect back.0 50 9 ticket).1 ≡ true)
    × Same lost (rollback_participant_reconnect back.0 50 9 ticket).0
rollback_participant_reconnect-reconnect_participant_example =
    rollback_participant_reconnect-reconnect_participant lost lost-Inv 50 9 3000 30000 ticket
      comes_back

-- The new session is lost before the reconnect is rolled back.
abbrev lost_again : DungeonInstance ℕ
lost_again = (disconnect_participant (reconnect_participant lost 50 9 3000 30000).0 9 3500).0

lost_again-Inv : Inv lost_again
unfolding step
lost_again-Inv = Reaches-Inv no_enemies lost_again (
    called (reconnect_participant lost 50 9 3000 30000).0 (disconnect 9 3500) tt
      (called lost (reconnect 50 9 3000 30000) tt lost-Reaches))

still_accepted : (rollback_participant_reconnect lost_again 50 9 ticket).1 ≡ true
unfolding rollback_participant_reconnect disconnect_participant reconnect_participant move_player
    rebind_session find emplace assign erase
still_accepted = refl

nine_away : contains 9 lost_again.disconnected_since ≡ true
unfolding disconnect_participant reconnect_participant move_player rebind_session find emplace
    assign erase
nine_away = refl

rollback_participant_reconnect-disconnected_example :
    let after = (rollback_participant_reconnect lost_again 50 9 ticket).0 in
    (contains 9 after.players ≡ false) × (contains 9 after.disconnected_since ≡ true)
rollback_participant_reconnect-disconnected_example =
    rollback_participant_reconnect-disconnected lost_again 50 9 ticket lost_again-Inv still_accepted
      nine_away

abbrev going : DungeonInstance ℕ
going = record fresh { state = DungeonState.running }

-- Session 6 fights, is disconnected and comes back as session 8.
abbrev pub history : List (Call ℕ)
history =
    bind 6 60
    ∷ begin
    ∷ act 6 (damage 30)
    ∷ act 6 tick
    ∷ portal 6
    ∷ advance
    ∷ disconnect 6 5000
    ∷ reconnect 60 8 6000 30000
    ∷ hit_enemy 2 7 10
    ∷ complete
    ∷ expire 90000 30000
    ∷ []

run-rank_example :
    (rank fresh.state ≤ rank (run no_enemies fresh history).state)
    × ((fresh.state ≢ DungeonState.finished)
        ⊎ (run no_enemies fresh (keep_if is_progress history) ≡ fresh))
run-rank_example = run-rank no_enemies fresh history

try_finish_if_cleared_iff_example :
    let after = try_finish_if_cleared going in
    ((after.1 ≡ true) ↔ (
      (DungeonState.running ≡ DungeonState.running)
      × (0 < size going.players)
      × All (λ e. e.1.room_id != final_room_id cellar.rooms ≡ false) going.players
      × All (λ e. not (is_cleared e.1) ≡ false) going.rooms))
    × (after.0 ≡ (if after.1 then record going { state = DungeonState.finished } else going))
try_finish_if_cleared_iff_example = try_finish_if_cleared_iff going

passes : (try_use_portal no_enemies going 5).1 ≡ ok UsePortalResult.success
unfolding try_use_portal find_template find_portal enter_target start_wave_in find
    is_inside_collision_box new_room is_cleared greatest_wave has_living_enemy enter_room
    to_move_player_result check_position is_inside_room is_blocked start_next_wave next_wave_from
passes = refl

try_use_portal-success_example :
    (a : AtPortal going 5) × (target : RoomState ℕ) × (find_room going a.portal.target_room_id
      ≡ some target)
    × (0 < a.player.current_hp)
    × (check_position target a.portal.target_position ≡ PositionCheckResult.valid)
    × ((s : ℕ)
        → find_player (try_use_portal no_enemies going 5).0 s ≡ (
            if 5 == s
            then some (record a.player {
              room_id = target.room_template.id;
              position = a.portal.target_position;
            })
            else find_player going s))
try_use_portal-success_example = try_use_portal-success no_enemies going 5 passes
