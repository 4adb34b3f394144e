-- ===== src/UdpMessages.antt =====
-- The messages of a dungeon's UDP traffic: include/DungeonProtocol.h and the queue entries of
-- include/DungeonUdpSession.h.
use dnf_mock_server_client.Prelude.{ℕ, nat_eq, Bool, Option, List}

pub record PlayerMovementMessage (R : Type 0) : Type 0 where
  pub dungeon_id : ℕ
  pub sequence : ℕ  -- uint32
  pub move_x : R
  pub move_y : R
  pub jump : Bool

pub record PlayerAttackMessage (R : Type 0) : Type 0 where
  pub dungeon_id : ℕ
  pub sequence : ℕ  -- uint32
  pub skill_id : ℕ
  pub direction_x : R
  pub direction_y : R

pub record UdpHelloMessage : Type 0 where
  pub dungeon_id : ℕ
  pub session_id : ℕ
  pub token : ℕ

pub data UdpHelloResult : Type 0 where
  success invalid_dungeon authentication_failed : UdpHelloResult

pub record UdpHelloAckMessage : Type 0 where
  pub dungeon_id : ℕ
  pub result : UdpHelloResult
  pub server_tick : ℕ

pub record UdpHeartbeatMessage : Type 0 where
  pub dungeon_id : ℕ
  pub session_id : ℕ

pub record AuthenticatedPlayerMovement (R : Type 0) : Type 0 where
  pub session_id : ℕ
  pub movement : PlayerMovementMessage R

pub record AuthenticatedPlayerAttack (R : Type 0) : Type 0 where
  pub session_id : ℕ
  pub attack : PlayerAttackMessage R

-- The decoders of src/DungeonProtocol.cpp, which read a datagram through generated FlatBuffers code.
pub record Decoders (R : Type 0) : Type 0 where
  pub decode_udp_hello : List ℕ → Option UdpHelloMessage
  pub decode_player_movement : List ℕ → Option (PlayerMovementMessage R)
  pub decode_player_attack : List ℕ → Option (PlayerAttackMessage R)
  pub decode_udp_heartbeat : List ℕ → Option UdpHeartbeatMessage
