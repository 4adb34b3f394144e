-- ===== src/Player/Movement.antt =====
-- Movement inside a room and into another one.
use dnf_mock_server_client.Prelude.{nat_eq, ◌<◌, ◌≡◌, arith, if◌then◌else◌, ◌↔◌}
use dnf_mock_server_client.Float.{Float}
use dnf_mock_server_client.Geometry.{Position}
use dnf_mock_server_client.Room.{RoomState, PositionCheckResult, check_position}
use dnf_mock_server_client.Player.{
  PlayerState, MovePlayerResult, to_move_player_result, move_to, is_success,
}

module _ {R : Type 0} ⦃f : Float R⦄ where
  -- A player moves exactly when he lives, is in the room that is asked, and the position is valid
  -- there; a move that is refused leaves him as he was.
  pub move_to_lem :
      (p : PlayerState R) (room : RoomState R) (next : Position R)
      → (((move_to p room next).1 ≡ MovePlayerResult.success) ↔ (
          (0 < p.current_hp)
          × (p.room_id ≡ room.room_template.id)
          × (check_position room next ≡ PositionCheckResult.valid)))
        × (move_to p room next).0
          ≡ (if is_success (move_to p room next).1 then record p { position = next } else p)
  unfolding move_to to_move_player_result
  move_to_lem p room next = ground arith
