-- ===== src/Dispatcher.antt =====
-- The request that opens a dungeon, between its decoding and the encoding of the answer:
-- `HandleEnterDungeonRequest` of src/PacketDispatcher.cpp. The managers are those of the lifecycle
-- service, which the handler makes for the cancellation.
pub mod Opened
pub mod Entry
use dnf_mock_server_client.Prelude.{ℕ, nat_eq, Option, none, some, List, ◌!=◌, if◌then◌else◌}
use dnf_mock_server_client.Prelude.Except.{Except, ok, err}
use dnf_mock_server_client.Float.{Float}
use dnf_mock_server_client.Party.{PartyManager, get_party, get_joined_party}
use dnf_mock_server_client.Dungeon.{DungeonInstance, DungeonError}
use dnf_mock_server_client.DungeonCatalog.{DungeonCatalog}
use dnf_mock_server_client.DungeonManager.{CreateDungeonStatus, create_dungeon}
use dnf_mock_server_client.DungeonUdpManager.{allocate, find_token}
use dnf_mock_server_client.Lifecycle.{Service, cancel_waiting}

pub data EnterDungeonResult : Type 0 where
  success not_in_party not_party_leader : EnterDungeonResult
  dungeon_template_not_found party_already_in_dungeon udp_allocation_failed : EnterDungeonResult

pub record EnterDungeonResponseData : Type 0 where
  pub result : EnterDungeonResult
  pub dungeon_id : ℕ
  pub udp_port : ℕ
  pub udp_token : ℕ

-- The exceptions that leave the handlers.
pub data DispatchError : Type 0 where
  not_created : DungeonError → DispatchError
  not_cancelled : DispatchError

-- The answers that name no dungeon.
abbrev pub refusal : EnterDungeonResult → EnterDungeonResponseData
refusal result = record { result = result; dungeon_id = 0; udp_port = 0; udp_token = 0 }

unfoldable pub to_enter_result : CreateDungeonStatus → EnterDungeonResult
to_enter_result CreateDungeonStatus.success = EnterDungeonResult.success
to_enter_result CreateDungeonStatus.party_not_found = EnterDungeonResult.not_in_party
to_enter_result CreateDungeonStatus.dungeon_template_not_found =
    EnterDungeonResult.dungeon_template_not_found
to_enter_result CreateDungeonStatus.party_already_in_dungeon =
    EnterDungeonResult.party_already_in_dungeon
to_enter_result CreateDungeonStatus.server_stopping = EnterDungeonResult.udp_allocation_failed

module _ {E R : Type 0} where
  -- The cancellation of a dungeon whose UDP session is not ready.
  unfoldable pub cancel_entry :
      Service E R → ℕ → Service E R × Except DispatchError EnterDungeonResponseData
  cancel_entry l dungeon_id =
      let cancelled = cancel_waiting l dungeon_id in
      if cancelled.1
      then (cancelled.0, ok (refusal EnterDungeonResult.udp_allocation_failed))
      else (cancelled.0, err DispatchError.not_cancelled)

  unfoldable pub finish_entry :
      Service E R → ℕ → ℕ → Option ℕ → Service E R × Except DispatchError EnterDungeonResponseData
  unfolding cancel_entry
  finish_entry l session dungeon_id port = elim port [
    | none ↦ cancel_entry l dungeon_id
    | some udp_port ↦ elim (find_token l.udp dungeon_id session) [
      | none ↦ cancel_entry l dungeon_id
      | some udp_token ↦ (
        l,
        ok (record {
          result = EnterDungeonResult.success;
          dungeon_id = dungeon_id;
          udp_port = udp_port;
          udp_token = udp_token;
        }),
      )
    ]
  ]

  -- The allocation for the participants of the new dungeon; without a result it is still drawing
  -- tokens.
  unfoldable pub allocate_entry :
      Service E R
      → Option ℕ
      → List ℕ
      → ℕ
      → DungeonInstance R
      → Option (Service E R × Except DispatchError EnterDungeonResponseData)
  unfolding finish_entry
  allocate_entry l port drawn session dungeon =
      elim (allocate l.udp port drawn dungeon.dungeon_id dungeon.participants) [
        | none ↦ none
        | some (udp, allocated) ↦
            some (finish_entry (record l { udp = udp }) session dungeon.dungeon_id allocated)
      ]

module _ {E R : Type 0} ⦃f : Float R⦄ where
  unfoldable pub enter_dungeon :
      PartyManager
      → DungeonCatalog R
      → Service E R
      → Option ℕ
      → List ℕ
      → ℕ
      → ℕ
      → ℕ
      → Option (Service E R × Except DispatchError EnterDungeonResponseData)
  unfolding to_enter_result allocate_entry
  enter_dungeon parties catalog l port drawn session template_id now =
      elim (get_joined_party parties session) [
        | none ↦ some (l, ok (refusal EnterDungeonResult.not_in_party))
        | some party_id ↦ elim (get_party parties party_id) [
          | none ↦ some (l, ok (refusal EnterDungeonResult.not_in_party))
          | some party ↦
              if party.leader_session_id != session
              then some (l, ok (refusal EnterDungeonResult.not_party_leader))
              else let created =
                  create_dungeon parties catalog l.manager party_id template_id now in
                let n : Service E R = record l { manager = created.0 } in
                elim created.1 [
                  | err e ↦ some (n, err (DispatchError.not_created e))
                  | ok (status, opened) ↦ elim opened [
                    | none ↦ some (n, ok (refusal (to_enter_result status)))
                    | some dungeon ↦ allocate_entry n port drawn session dungeon
                  ]
                ]
        ]
      ]
