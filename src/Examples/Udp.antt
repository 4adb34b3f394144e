-- ===== src/Examples/Udp.antt =====
-- A dungeon with the sessions 5 and 6. Endpoints and floats are numbers, and the decoders read the
-- bytes as the fields of a message behind a tag.
use dnf_mock_server_client.Prelude.{
  ℕ, nat_eq, ◌<◌, ◌≡◌, refl, subst, ◌≢◌, ◌⊎◌, true, false, none, some, List, [], ◌∷◌, ◌==◌,
  if◌then◌else◌, get_or, ◌↔◌,
}
use dnf_mock_server_client.Map.{Map, find, contains, assign, emplace, IsMap}
use dnf_mock_server_client.UdpMessages.{
  PlayerMovementMessage, PlayerAttackMessage, UdpHelloMessage, UdpHelloResult, Decoders,
}
use dnf_mock_server_client.UdpSession.{
  UdpSession, is_stale, new_session, find_token, find_endpoint, all_participants_authenticated,
  replace_participant, token_in_use, handle_hello, handle_player_movement, handle_receive,
  session_of, max_pending_dungeon_movements,
}
use dnf_mock_server_client.UdpSession.Invariant.{Inv}
use dnf_mock_server_client.UdpSession.Calls.{Call, step, run, receive, udp_run-Inv}
use dnf_mock_server_client.UdpSession.Participants.{all_participants_authenticated_iff}
use dnf_mock_server_client.UdpSession.Inputs.{
  Greeted, handle_hello-success_iff, handle_player_movement_queued,
}

abbrev decoders : Decoders ℕ
decoders = record {
  decode_udp_hello = λ bytes.
      if get_or bytes 0 0 == 1
      then some (record {
        dungeon_id = get_or bytes 1 0;
        session_id = get_or bytes 2 0;
        token = get_or bytes 3 0;
      })
      else none;
  decode_player_movement = λ bytes. none;
  decode_player_attack = λ bytes. none;
  decode_udp_heartbeat = λ bytes. none;
}

abbrev tokens : Map ℕ ℕ
tokens = (5, 50) ∷ (6, 60) ∷ []

tokens-IsMap : IsMap tokens
unfolding find
tokens-IsMap = (refl, (refl, tt))

-- Session 5 says hello from the endpoint 700 at the time 1000.
abbrev calls : List (Call ℕ)
calls = receive 1 1000 700 (1 ∷ 9 ∷ 5 ∷ 50 ∷ []) ∷ []

abbrev lobby : UdpSession ℕ ℕ
lobby = record {
  dungeon_id = 9;
  stopped = false;
  tokens = tokens;
  endpoints = (5, 700) ∷ [];
  last_activity = (5, 1000) ∷ [];
  last_movement_sequences = [];
  last_attack_sequences = [];
  pending_movements = [];
  pending_attacks = [];
}

ran : run decoders (new_session 9 tokens) calls ≡ lobby
unfolding run step new_session handle_receive handle_hello find emplace assign
ran = refl

udp_run-Inv_example : Inv (run decoders (new_session {E = ℕ} {R = ℕ} 9 tokens) calls)
udp_run-Inv_example = udp_run-Inv decoders 9 tokens calls tokens-IsMap

lobby-Inv : Inv lobby
lobby-Inv = subst Inv ran (udp_run-Inv decoders 9 tokens calls tokens-IsMap)

all_participants_authenticated_iff_example :
    (all_participants_authenticated lobby ≡ true)
    ↔ ((k : ℕ) → contains k tokens ≡ true → contains k lobby.endpoints ≡ true)
all_participants_authenticated_iff_example = all_participants_authenticated_iff lobby lobby-Inv

abbrev again : UdpHelloMessage
again = record { dungeon_id = 9; session_id = 5; token = 50 }

five_known : find_token lobby 5 ≡ some 50
unfolding find_token find
five_known = refl

replaced : (replace_participant lobby 5 7 70).1 ≡ true
unfolding replace_participant find token_in_use
replaced = refl

activity-IsMap : IsMap lobby.last_activity
unfolding find
activity-IsMap = (refl, tt)

abbrev movement : PlayerMovementMessage ℕ
movement = record { dungeon_id = 9; sequence = 4; move_x = 1; move_y = 0; jump = false }

abbrev attack : PlayerAttackMessage ℕ
attack = record { dungeon_id = 9; sequence = 4; skill_id = 2; direction_x = 1; direction_y = 0 }

handle_hello-success_iff_example :
    let answer = handle_hello lobby 1001 700 again in
    ((answer.1 ≡ UdpHelloResult.success) ↔ (
      (find_token lobby 5 ≡ some 50)
      × ((find_endpoint lobby 5 ≡ none) ⊎ (find_endpoint lobby 5 ≡ some 700))))
    × (((answer.1 ≡ UdpHelloResult.success) × Greeted lobby 1001 700 5 answer.0)
        ⊎ ((answer.1 ≢ UdpHelloResult.success) × (answer.0 ≡ lobby)))
handle_hello-success_iff_example = handle_hello-success_iff lobby 1001 700 again

queued : (handle_player_movement lobby 1001 700 movement).pending_movements ≢ []
unfolding handle_player_movement session_of find
queued = λ e. cc

handle_player_movement_queued_example :
    let after = handle_player_movement lobby 1001 700 movement in
    (s : ℕ) × (find_endpoint lobby s ≡ some 700)
    × (contains s tokens ≡ true)
    × (is_stale s 4 [] ≡ false)
    × (0 < max_pending_dungeon_movements)
    × (after.pending_movements ≡ record { session_id = s; movement = movement } ∷ [])
handle_player_movement_queued_example =
    handle_player_movement_queued lobby 1001 700 movement lobby-Inv queued
