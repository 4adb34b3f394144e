-- ===== src/Lifecycle.antt =====
-- The service that changes the dungeons and their UDP sessions together:
-- include/DungeonLifecycleService.h and src/DungeonLifecycleService.cpp. It holds no mutex of its
-- own; each operation is modelled as it runs when no other call comes between its steps.
pub mod Agreement
pub mod Removal
pub mod Endings
pub mod Calls
use dnf_mock_server_client.Prelude.{
  ℕ, nat_eq, Bool, true, false, Option, none, some, List, [], ◌∷◌, ◌==◌, if◌then◌else◌,
}
use dnf_mock_server_client.Prelude.Except.{Except, ok, err}
use dnf_mock_server_client.DungeonManager.{
  DungeonManager, RegisterDungeonSessionStatus, DungeonAbandonmentSweep,
}
use dnf_mock_server_client.DungeonManager.Sessions.{
  register_player_session, rollback_player_reconnect, disconnect_player_session,
}
use dnf_mock_server_client.DungeonManager.Lifetime.{
  sweep_abandoned_participants, cancel_dungeon, finish_dungeon,
}
use dnf_mock_server_client.DungeonUdpManager.{
  UdpManager, replace_participant, disconnect_participant, remove_participant, release,
}

pub record Service (E R : Type 0) : Type 0 where
  pub manager : DungeonManager R
  pub udp : UdpManager E R
  pub reconnect_grace : ℕ

pub record SessionRegistration : Type 0 where
  pub status : RegisterDungeonSessionStatus
  pub dungeon_id : ℕ
  pub replaced_session_id : ℕ
  pub fresh_udp_token : Option ℕ

pub data ServiceError : Type 0 where
  grace_not_positive : ServiceError

module _ {R : Type 0} where
  -- What becomes of a reconnect whose token could not be replaced.
  unfoldable pub take_back : DungeonManager R → ℕ → ℕ → ℕ → ℕ → Option ℕ → ℕ → DungeonManager R
  take_back m dungeon_id player session replaced disconnected_at later =
      let rolled : DungeonManager R × Bool = elim disconnected_at [
        | none ↦ (m, false)
        | some at ↦ rollback_player_reconnect m dungeon_id player session replaced at
      ] in
      if rolled.1 then rolled.0 else (disconnect_player_session rolled.0 session later).0

module _ {E R : Type 0} where
  -- The constructor.
  unfoldable pub new_service :
      DungeonManager R → UdpManager E R → ℕ → Except ServiceError (Service E R)
  new_service manager udp grace =
      if grace == 0
      then err ServiceError.grace_not_positive
      else ok (record { manager = manager; udp = udp; reconnect_grace = grace })

  -- The two times are those of the log-in and of a disconnection that may follow from it.
  unfoldable pub register_session :
      Service E R → List ℕ → ℕ → ℕ → ℕ → ℕ → Service E R × SessionRegistration
  unfolding take_back
  register_session l drawn session player now later =
      let (m, registration) =
        register_player_session l.manager session player now l.reconnect_grace in
      let result : SessionRegistration = record {
        status = registration.status;
        dungeon_id = registration.dungeon_id;
        replaced_session_id = registration.replaced_session_id;
        fresh_udp_token = none;
      } in
      elim registration.status [
        | RegisterDungeonSessionStatus.registered ↦ (record l { manager = m }, result)
        | RegisterDungeonSessionStatus.invalid_identity ↦ (record l { manager = m }, result)
        | RegisterDungeonSessionStatus.reconnected ↦
            let replaced =
              replace_participant l.udp drawn registration.dungeon_id
                registration.replaced_session_id session in
            elim replaced.1 [
              | some token ↦ (
                record l { manager = m; udp = replaced.0 },
                record result { fresh_udp_token = some token },
              )
              | none ↦ (
                record l {
                  manager =
                      take_back m registration.dungeon_id player session
                        registration.replaced_session_id registration.disconnected_at later;
                  udp = replaced.0;
                },
                result,
              )
            ]
      ]

  unfoldable pub disconnect_session : Service E R → ℕ → ℕ → Service E R × Bool
  disconnect_session l session now =
      let left = disconnect_player_session l.manager session now in
      elim left.1 [
        | none ↦ (record l { manager = left.0 }, false)
        | some dungeon_id ↦ (
          record l { manager = left.0; udp = (disconnect_participant l.udp dungeon_id session).0 },
          true,
        )
      ]

  unfoldable pub remove_each : List (ℕ × ℕ) → UdpManager E R → UdpManager E R
  remove_each [] m = m
  remove_each ((dungeon_id, session) ∷ removed) m =
      remove_each removed (remove_participant m dungeon_id session).0

  unfoldable pub release_each : List ℕ → UdpManager E R → UdpManager E R
  release_each [] m = m
  release_each (dungeon_id ∷ released) m = release_each released (release m dungeon_id).0

  unfoldable pub sweep : Service E R → ℕ → ℕ → ℕ → Service E R × DungeonAbandonmentSweep
  unfolding remove_each release_each
  sweep l now grace lifetime =
      let swept = sweep_abandoned_participants l.manager now grace lifetime in
      (
        record l {
          manager = swept.0;
          udp =
              release_each swept.1.released_dungeons
                (remove_each swept.1.removed_participants l.udp);
        },
        swept.1,
      )

  -- The manager's answer decides whether the UDP session is released.
  unfoldable pub release_if : Service E R → ℕ → DungeonManager R × Bool → Service E R × Bool
  release_if l dungeon_id done =
      if done.1
      then (record l { manager = done.0; udp = (release l.udp dungeon_id).0 }, true)
      else (record l { manager = done.0 }, false)

  unfoldable pub cancel_waiting : Service E R → ℕ → Service E R × Bool
  unfolding release_if
  cancel_waiting l dungeon_id = release_if l dungeon_id (cancel_dungeon l.manager dungeon_id)

  unfoldable pub complete : Service E R → ℕ → Service E R × Bool
  unfolding release_if
  complete l dungeon_id = release_if l dungeon_id (finish_dungeon l.manager dungeon_id)
