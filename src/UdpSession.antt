-- ===== src/UdpSession.antt =====
-- The UDP side of a dungeon: include/DungeonUdpSession.h and src/DungeonUdpSession.cpp. Each method
-- holds `stateMutex_` while it works on this state, so it is one step; the time and the sender of a
-- datagram are arguments. An endpoint is a value of a type with an equality.
pub mod Sequence
pub mod Invariant
pub mod Handlers
pub mod Calls
pub mod Participants
pub mod Inputs
use dnf_mock_server_client.Prelude.{
  ℕ, suc, nat_eq, ◌+◌, ◌-◌, ◌%◌, Bool, true, false, ◌&&◌, ◌||◌, not, Option, none, some, List, [],
  ◌∷◌, ◌++◌, ltb, leb, ◌==◌, ◌!=◌, if◌then◌else◌, Eq, length, keep_if, u32_mod,
}
use dnf_mock_server_client.Prelude.Except.{◌>>=◌, ◌>>◌}
use dnf_mock_server_client.Map.{Map, find, contains, assign, emplace, erase, size}
use dnf_mock_server_client.UdpMessages.{
  PlayerMovementMessage, PlayerAttackMessage, UdpHelloMessage, UdpHelloResult, UdpHelloAckMessage,
  UdpHeartbeatMessage, AuthenticatedPlayerMovement, AuthenticatedPlayerAttack, Decoders,
}

abbrev pub max_pending_dungeon_movements : ℕ
max_pending_dungeon_movements = 256

abbrev pub max_pending_dungeon_attacks : ℕ
max_pending_dungeon_attacks = 256

abbrev pub sequence_half_range : ℕ
sequence_half_range = 2147483648

-- candidate - previous in 32 bits, ahead by less than half the range.
unfoldable pub is_newer_sequence : ℕ → ℕ → Bool
is_newer_sequence candidate previous =
    let distance = (candidate + u32_mod - previous) % u32_mod in
    distance != 0 && ltb distance sequence_half_range

pub record UdpSession (E R : Type 0) : Type 0 where
  pub dungeon_id : ℕ
  pub stopped : Bool
  pub tokens : Map ℕ ℕ
  pub endpoints : Map ℕ E
  pub last_activity : Map ℕ ℕ
  pub last_movement_sequences : Map ℕ ℕ
  pub last_attack_sequences : Map ℕ ℕ
  pub pending_movements : List (AuthenticatedPlayerMovement R)
  pub pending_attacks : List (AuthenticatedPlayerAttack R)

-- Whether some session has this token.
unfoldable pub token_in_use : ℕ → Map ℕ ℕ → Bool
token_in_use token [] = false
token_in_use token ((session, t) ∷ m) = t == token || token_in_use token m

unfoldable pub refresh_each : {E : Type 0} → ℕ → Map ℕ E → Map ℕ ℕ → Map ℕ ℕ
refresh_each now [] activity = activity
refresh_each now ((session, endpoint) ∷ m) activity =
    refresh_each now m (assign session now activity)

-- The first session with the sender's endpoint; 0, if there is none.
unfoldable pub session_of : {E : Type 0} ⦃e : Eq E⦄ → E → Map ℕ E → ℕ
session_of sender [] = 0
session_of sender ((session, endpoint) ∷ m) =
    if endpoint == sender then session else session_of sender m

-- A sequence number that is not newer than the last one of its session.
abbrev pub is_stale : ℕ → ℕ → Map ℕ ℕ → Bool
is_stale session sequence m = elim (find session m) [
  | none ↦ false
  | some last ↦ not (is_newer_sequence sequence last)
]

module _ {E R : Type 0} where
  unfoldable pub new_session : ℕ → Map ℕ ℕ → UdpSession E R
  new_session dungeon_id tokens = record {
    dungeon_id = dungeon_id;
    stopped = false;
    tokens = tokens;
    endpoints = [];
    last_activity = [];
    last_movement_sequences = [];
    last_attack_sequences = [];
    pending_movements = [];
    pending_attacks = [];
  }

  unfoldable pub find_token : UdpSession E R → ℕ → Option ℕ
  find_token u session = find session u.tokens

  unfoldable pub find_endpoint : UdpSession E R → ℕ → Option E
  find_endpoint u session = find session u.endpoints

  unfoldable pub remove_participant_runtime_state : UdpSession E R → ℕ → UdpSession E R
  remove_participant_runtime_state u session = record u {
    endpoints = erase session u.endpoints;
    last_activity = erase session u.last_activity;
    last_movement_sequences = erase session u.last_movement_sequences;
    last_attack_sequences = erase session u.last_attack_sequences;
    pending_movements = keep_if (λ m. m.session_id != session) u.pending_movements;
    pending_attacks = keep_if (λ a. a.session_id != session) u.pending_attacks;
  }

  unfoldable pub disconnect_participant : UdpSession E R → ℕ → UdpSession E R × Bool
  unfolding remove_participant_runtime_state
  disconnect_participant u session =
      if not (contains session u.tokens)
      then (u, false)
      else (remove_participant_runtime_state u session, true)

  unfoldable pub replace_participant : UdpSession E R → ℕ → ℕ → ℕ → UdpSession E R × Bool
  unfolding remove_participant_runtime_state token_in_use
  replace_participant u old_session new_session new_token =
      if old_session == 0 || new_session == 0 || new_token == 0 || old_session == new_session
      then (u, false)
      else if not (contains old_session u.tokens) || contains new_session u.tokens
      then (u, false)
      else if token_in_use new_token u.tokens
      then (u, false)
      else let v = remove_participant_runtime_state u old_session in
        (record v { tokens = emplace new_session new_token (erase old_session v.tokens) }, true)

  unfoldable pub remove_participant : UdpSession E R → ℕ → UdpSession E R × Bool
  unfolding remove_participant_runtime_state
  remove_participant u session =
      if not (contains session u.tokens)
      then (u, false)
      else let v = remove_participant_runtime_state u session in
        (record v { tokens = erase session v.tokens }, true)

  unfoldable pub all_participants_authenticated : UdpSession E R → Bool
  all_participants_authenticated u = size u.endpoints == size u.tokens

  unfoldable pub refresh_all_activity : UdpSession E R → ℕ → UdpSession E R
  unfolding refresh_each
  refresh_all_activity u now = record u {
    last_activity = refresh_each now u.endpoints u.last_activity;
  }

  -- The loop over the activity map. Removing a session takes out its own entry only. The test is
  -- now - at < idleTimeout on signed durations.
  unfoldable pub remove_inactive : ℕ → ℕ → Map ℕ ℕ → UdpSession E R → UdpSession E R × List ℕ
  unfolding remove_participant_runtime_state
  remove_inactive now idle [] u = (u, [])
  remove_inactive now idle ((session, at) ∷ m) u =
      let expired = not (ltb now (at + idle)) in
      let rest =
        remove_inactive now idle m
          (if expired then remove_participant_runtime_state u session else u) in
      (rest.0, if expired then session ∷ rest.1 else rest.1)

  unfoldable pub remove_inactive_endpoints : UdpSession E R → ℕ → ℕ → UdpSession E R × List ℕ
  unfolding remove_inactive
  remove_inactive_endpoints u now idle =
      if idle == 0 then (u, []) else remove_inactive now idle u.last_activity u

  unfoldable pub try_pop_movement :
      UdpSession E R → UdpSession E R × Option (AuthenticatedPlayerMovement R)
  try_pop_movement u = elim u.pending_movements [
    | [] ↦ (u, none)
    | m ∷ ms ↦ (record u { pending_movements = ms }, some m)
  ]

  unfoldable pub try_pop_attack :
      UdpSession E R → UdpSession E R × Option (AuthenticatedPlayerAttack R)
  try_pop_attack u = elim u.pending_attacks [
    | [] ↦ (u, none)
    | a ∷ attacks ↦ (record u { pending_attacks = attacks }, some a)
  ]

module _ {E R : Type 0} ⦃e : Eq E⦄ where
  unfoldable pub handle_hello :
      UdpSession E R → ℕ → E → UdpHelloMessage → UdpSession E R × UdpHelloResult
  handle_hello u now sender hello = elim (find hello.session_id u.tokens) [
    | none ↦ (u, UdpHelloResult.authentication_failed)
    | some token ↦
        if token != hello.token
        then (u, UdpHelloResult.authentication_failed)
        else elim (find hello.session_id u.endpoints) [
          | none ↦ (
            record u {
              endpoints = emplace hello.session_id sender u.endpoints;
              last_activity = assign hello.session_id now u.last_activity;
            },
            UdpHelloResult.success,
          )
          | some endpoint ↦
              if endpoint == sender
              then (
                record u { last_activity = assign hello.session_id now u.last_activity },
                UdpHelloResult.success,
              )
              else (u, UdpHelloResult.authentication_failed)
        ]
  ]

  unfoldable pub handle_heartbeat : UdpSession E R → ℕ → E → UdpHeartbeatMessage → UdpSession E R
  handle_heartbeat u now sender heartbeat = elim (find heartbeat.session_id u.endpoints) [
    | none ↦ u
    | some endpoint ↦
        if endpoint != sender
        then u
        else record u { last_activity = assign heartbeat.session_id now u.last_activity }
  ]

  unfoldable pub handle_player_movement :
      UdpSession E R → ℕ → E → PlayerMovementMessage R → UdpSession E R
  unfolding session_of
  handle_player_movement u now sender movement =
      let session = session_of sender u.endpoints in
      if session == 0
      then u
      else let v = record u { last_activity = assign session now u.last_activity } in
        if leb max_pending_dungeon_movements (length v.pending_movements)
        then v
        else if is_stale session movement.sequence v.last_movement_sequences
        then v
        else record v {
          last_movement_sequences = assign session movement.sequence v.last_movement_sequences;
          pending_movements =
              v.pending_movements ++ record { session_id = session; movement = movement } ∷ [];
        }

  unfoldable pub handle_player_attack :
      UdpSession E R → ℕ → E → PlayerAttackMessage R → UdpSession E R
  unfolding session_of
  handle_player_attack u now sender attack =
      let session = session_of sender u.endpoints in
      if session == 0
      then u
      else let v = record u { last_activity = assign session now u.last_activity } in
        if leb max_pending_dungeon_attacks (length v.pending_attacks)
        then v
        else if is_stale session attack.sequence v.last_attack_sequences
        then v
        else record v {
          last_attack_sequences = assign session attack.sequence v.last_attack_sequences;
          pending_attacks =
              v.pending_attacks ++ record { session_id = session; attack = attack } ∷ [];
        }

  -- The acknowledgement, which a stopped session does not send.
  unfoldable pub hello_ack : UdpSession E R → ℕ → ℕ → UdpHelloResult → Option UdpHelloAckMessage
  hello_ack u server_tick dungeon_id result =
      if u.stopped
      then none
      else some (record {
        dungeon_id = dungeon_id;
        result = result;
        server_tick = elim result [
          | UdpHelloResult.success ↦ server_tick
          | UdpHelloResult.invalid_dungeon ↦ 0
          | UdpHelloResult.authentication_failed ↦ 0
        ];
      })

  unfoldable pub receive_heartbeat : Decoders R → UdpSession E R → ℕ → E → List ℕ → UdpSession E R
  unfolding handle_heartbeat
  receive_heartbeat d u now sender bytes = elim (d.decode_udp_heartbeat bytes) [
    | none ↦ u
    | some heartbeat ↦
        if heartbeat.dungeon_id == u.dungeon_id then handle_heartbeat u now sender heartbeat else u
  ]

  unfoldable pub receive_attack : Decoders R → UdpSession E R → ℕ → E → List ℕ → UdpSession E R
  unfolding handle_player_attack receive_heartbeat
  receive_attack d u now sender bytes = elim (d.decode_player_attack bytes) [
    | none ↦ receive_heartbeat d u now sender bytes
    | some attack ↦
        if attack.dungeon_id == u.dungeon_id
        then handle_player_attack u now sender attack
        else receive_heartbeat d u now sender bytes
  ]

  unfoldable pub receive_movement : Decoders R → UdpSession E R → ℕ → E → List ℕ → UdpSession E R
  unfolding handle_player_movement receive_attack
  receive_movement d u now sender bytes = elim (d.decode_player_movement bytes) [
    | none ↦ receive_attack d u now sender bytes
    | some movement ↦
        if movement.dungeon_id == u.dungeon_id
        then handle_player_movement u now sender movement
        else receive_attack d u now sender bytes
  ]

  -- A datagram that arrived without an error: the state, and the acknowledgement if one is sent.
  unfoldable pub handle_receive :
      Decoders R → UdpSession E R → ℕ → ℕ → E → List ℕ → UdpSession E R × Option UdpHelloAckMessage
  unfolding handle_hello hello_ack receive_movement
  handle_receive d u server_tick now sender bytes =
      if u.stopped then (u, none) else elim (d.decode_udp_hello bytes) [
        | none ↦ (receive_movement d u now sender bytes, none)
        | some hello ↦
            if hello.dungeon_id == u.dungeon_id
            then (let answer = handle_hello u now sender hello in
                (answer.0, hello_ack answer.0 server_tick hello.dungeon_id answer.1))
            else (u, hello_ack u server_tick hello.dungeon_id UdpHelloResult.invalid_dungeon)
      ]
