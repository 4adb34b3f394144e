-- ===== src/Examples/Services.antt =====
-- The server of `Dungeons` with the party of the sessions 5 and 6: session 5 enters the cellar.
use dnf_mock_server_client.Dispatcher.{DispatchError}
use dnf_mock_server_client.DungeonManager.{RegisterDungeonSessionStatus}
use dnf_mock_server_client.UdpSession.{new_session}
use dnf_mock_server_client.DungeonUdpManager.{draw_token}
use dnf_mock_server_client.Dungeon.{check_participants}
use dnf_mock_server_client.Prelude.{
  ℕ, nat_eq, ◌≡◌, refl, sym, subst, ◌≢◌, ◌⊎◌, true, false, ◌&&◌, not, Option, none, some, List, [],
  ◌∷◌, arith, ◌!=◌, if◌then◌else◌, is_some, any,
}
use dnf_mock_server_client.Prelude.Except.{Except, ok}
use dnf_mock_server_client.Map.{find, contains, emplace}
use dnf_mock_server_client.Prelude.{elem}
use dnf_mock_server_client.Party.{get_party}
use dnf_mock_server_client.EnemyCatalog.{EnemyCatalog}
use dnf_mock_server_client.Dungeon.{DungeonInstance}
use dnf_mock_server_client.Dungeon.Progress.{UsePortalResult, try_use_portal}
use dnf_mock_server_client.Dungeon.Calls as DungeonCalls
use dnf_mock_server_client.Examples.Dungeons.{history}
use dnf_mock_server_client.DungeonCatalog.{DungeonCatalog, get_dungeon}
use dnf_mock_server_client.DungeonCatalog.Accepted.{IsDungeonTemplate, IsDungeonCatalog}
use dnf_mock_server_client.DungeonCatalog.Additions.{
  add_dungeons, empty_catalog, add_dungeons-IsDungeonCatalog,
}
use dnf_mock_server_client.DungeonCatalog.PortalTargets.{try_use_portal-target}
use dnf_mock_server_client.DungeonManager.{
  DungeonManager, new_manager, create_dungeon, CreateDungeonStatus,
}
use dnf_mock_server_client.DungeonManager.Calls as ManagerCalls
use dnf_mock_server_client.DungeonManager.Calls.{manager_run-Inv}
use dnf_mock_server_client.DungeonManager.Invariant as ManagerInvariant
use dnf_mock_server_client.DungeonManager.Lifetime.{sweep_abandoned_participants}
use dnf_mock_server_client.DungeonManager.Sweep.{
  sweep_abandoned_participants_lem, is_released, swept,
}
use dnf_mock_server_client.DungeonManager.Success.{create_dungeon-ok, expected_status, AllNamed}
use dnf_mock_server_client.DungeonManager.Ids.{ids_of}
use dnf_mock_server_client.DungeonManager.Participants.{takes_part}
use dnf_mock_server_client.DungeonUdpManager.{
  UdpManager, new_udp_manager, allocate, draw_tokens, replace_participant,
}
use dnf_mock_server_client.DungeonUdpManager.Tokens.{
  usable, hand_out, draw_tokens-hand_out, allocate-returns, allocate-some, AreTokens,
}
use dnf_mock_server_client.DungeonUdpManager.Replacement.{replace_participant-some_iff}
use dnf_mock_server_client.UdpSession.{UdpSession, token_in_use}
use dnf_mock_server_client.Lifecycle.{Service, register_session}
use dnf_mock_server_client.Lifecycle.Agreement.{Agree, register_session-Agree}
use dnf_mock_server_client.Lifecycle.Calls as ServiceCalls
use dnf_mock_server_client.Lifecycle.Calls.{service_run-Agree}
use dnf_mock_server_client.Dispatcher.{enter_dungeon, EnterDungeonResponseData}
use dnf_mock_server_client.Dispatcher.Entry.{enter_dungeon-Answered, Answered}
use dnf_mock_server_client.Examples.{nat_float}
use dnf_mock_server_client.Examples.Dungeons.{cellar, fresh, was_made}
use dnf_mock_server_client.Geometry.{is_inside_room, is_valid_collision_box}
use dnf_mock_server_client.DungeonCatalog.{add_dungeon}
use dnf_mock_server_client.Dungeon.Progress.{find_template}
use dnf_mock_server_client.Examples.Sessions.{parties, parties-Inv}

abbrev pub no_enemies : EnemyCatalog ℕ
no_enemies = []

abbrev catalog : DungeonCatalog ℕ
catalog = (3, cellar) ∷ []

catalog_made : add_dungeons no_enemies empty_catalog (cellar ∷ []) ≡ catalog
unfolding add_dungeons add_dungeon find emplace is_inside_room is_valid_collision_box find_template
catalog_made = refl

add_dungeons-IsDungeonCatalog_example :
    IsDungeonCatalog no_enemies (add_dungeons no_enemies empty_catalog (cellar ∷ []))
add_dungeons-IsDungeonCatalog_example = add_dungeons-IsDungeonCatalog no_enemies (cellar ∷ [])

catalog-IsDungeonCatalog : IsDungeonCatalog no_enemies catalog
catalog-IsDungeonCatalog =
    subst (IsDungeonCatalog no_enemies) catalog_made
      (add_dungeons-IsDungeonCatalog no_enemies (cellar ∷ []))

cellar-IsDungeonTemplate : IsDungeonTemplate no_enemies cellar
unfolding get_dungeon find
cellar-IsDungeonTemplate = (catalog-IsDungeonCatalog 3 cellar refl).0

try_use_portal-target_example :
    (try_use_portal no_enemies (DungeonCalls.run no_enemies fresh history) 8).1
    ≢ ok UsePortalResult.target_room_not_found
try_use_portal-target_example =
    try_use_portal-target no_enemies 7 cellar 1 (5 ∷ 6 ∷ []) 1000 fresh history 8
      cellar-IsDungeonTemplate (refl, (refl, tt)) refl (omega arith, omega arith)
      (omega arith, omega arith) was_made

parties-AllNamed : AllNamed parties
unfolding get_party find
parties-AllNamed k p found = ground arith

abbrev manager_calls : List (ManagerCalls.Call catalog no_enemies)
manager_calls =
    ManagerCalls.register 5 50 900 30000
    ∷ ManagerCalls.create parties 1 3 1000
    ∷ ManagerCalls.disconnect 5 2000
    ∷ ManagerCalls.register 9 50 3000 30000
    ∷ ManagerCalls.sweep 40000 30000 3600000
    ∷ []

manager_run-Inv_example :
    ManagerInvariant.Inv (ManagerCalls.run catalog no_enemies new_manager manager_calls)
manager_run-Inv_example = manager_run-Inv catalog no_enemies manager_calls (omega arith)

abbrev started : DungeonManager ℕ
started = ManagerCalls.run catalog no_enemies new_manager manager_calls

started-Inv : ManagerInvariant.Inv started
started-Inv = manager_run-Inv catalog no_enemies manager_calls (omega arith)

sweep_abandoned_participants_lem_example :
    let after = sweep_abandoned_participants started 50000 30000 3600000 in
    (find 1 after.0.dungeons ≡ elim (find 1 started.dungeons) [
      | none ↦ none
      | some i ↦
          if is_released 50000 30000 3600000 i then none else some (swept 50000 30000 3600000 i)
    ])
    × (elem 1 after.1.released_dungeons ≡ elim (find 1 started.dungeons) [
      | none ↦ false
      | some i ↦ is_released 50000 30000 3600000 i
    ])
    × (find 1 after.0.party_dungeons ≡ elim (find 1 started.party_dungeons) [
      | none ↦ none
      | some d ↦ if elem d after.1.released_dungeons then none else some d
    ])
sweep_abandoned_participants_lem_example =
    sweep_abandoned_participants_lem started started-Inv 50000 30000 3600000 1 (omega arith)
      (omega arith)

create_dungeon-ok_example :
    let m : DungeonManager ℕ = new_manager in
    let status = expected_status no_enemies catalog parties m 1 3 in
    let after = create_dungeon parties catalog m 1 3 1000 in
    ((after.1 ≡ ok (status, none)) × (after.0 ≡ m) × (status ≢ CreateDungeonStatus.success))
    ⊎ ((i : DungeonInstance ℕ) × (after.1 ≡ ok (status, some i))
        × (status ≡ CreateDungeonStatus.success)
        × (ids_of i ≡ (m.next_dungeon_id, 1))
        × (find m.next_dungeon_id after.0.dungeons ≡ some i))
unfolding new_manager find
create_dungeon-ok_example =
    create_dungeon-ok no_enemies catalog parties new_manager 1 3 1000 parties-Inv parties-AllNamed
      catalog-IsDungeonCatalog (omega arith) refl

abbrev no_service : Service ℕ ℕ
no_service = record { manager = new_manager; udp = new_udp_manager; reconnect_grace = 30000 }

no_service-Agree : Agree no_service
unfolding new_manager new_udp_manager find
no_service-Agree = record {
  dungeon_for = λ k h. absurd (ground arith);
  same = λ k s h. absurd (ground arith);
  all = λ k i h. absurd (ground arith);
  tables = ManagerInvariant.new_manager-Inv;
}

-- Session 5 enters the cellar; the port is 4000, and the first token that is drawn is 0.
abbrev entry : Option (Service ℕ ℕ × Except DispatchError EnterDungeonResponseData)
entry =
    enter_dungeon parties catalog no_service (some 4000) (0 ∷ 70 ∷ 70 ∷ 80 ∷ 90 ∷ 91 ∷ []) 5 3 1000

enter_dungeon-Answered_example :
    (after : Service ℕ ℕ) × (answer : EnterDungeonResponseData) × (entry ≡ some (after, ok answer))
    × Answered no_service after answer 5
unfolding new_manager usable
enter_dungeon-Answered_example =
    enter_dungeon-Answered no_enemies parties catalog no_service (some 4000)
      (0 ∷ 70 ∷ 70 ∷ 80 ∷ 90 ∷ 91 ∷ []) 5 3 1000 no_service-Agree parties-Inv parties-AllNamed
      catalog-IsDungeonCatalog (omega arith) (omega arith) (omega arith)

abbrev pub server : Service ℕ ℕ
server = elim entry [ none ↦ no_service | some (l, answer) ↦ l ]

pub server-Agree : Agree server
unfolding new_manager usable
server-Agree =
    let (after, answer, same, good) =
      enter_dungeon-Answered no_enemies parties catalog no_service (some 4000)
        (0 ∷ 70 ∷ 70 ∷ 80 ∷ 90 ∷ 91 ∷ []) 5 3 1000 no_service-Agree parties-Inv parties-AllNamed
        catalog-IsDungeonCatalog (omega arith) (omega arith) (omega arith) in
    let is : server ≡ after = ground arith in subst Agree (sym is) good.agree

abbrev service_calls : List ServiceCalls.Call
service_calls =
    ServiceCalls.log_in [] 5 50 1500 1600
    ∷ ServiceCalls.log_out 5 2000
    ∷ ServiceCalls.log_in (80 ∷ 95 ∷ []) 9 50 3000 3100
    ∷ ServiceCalls.sweep_all 4000000 30000 3600000
    ∷ []

service_run-Agree_example : Agree (ServiceCalls.run server service_calls)
service_run-Agree_example = service_run-Agree server service_calls server-Agree

register_session-Agree_example :
    let after = register_session server (0 ∷ []) 9 50 3000 3100 in
    Agree after.0
    × ((after.1.status ≢ RegisterDungeonSessionStatus.reconnected)
        ⊎ (is_some after.1.fresh_udp_token ≡ true)
        ⊎ (((k s : ℕ)
              → takes_part k s after.0.manager.dungeons ≡ takes_part k s server.manager.dungeons)
            × (find 9 after.0.manager.authenticated_players ≡ none)
            × (find 50 after.0.manager.active_player_sessions ≡ none)))
register_session-Agree_example = register_session-Agree server server-Agree (0 ∷ []) 9 50 3000 3100

draw_tokens-hand_out_example :
    draw_tokens [] (5 ∷ 6 ∷ []) (0 ∷ 70 ∷ 70 ∷ 80 ∷ []) [] ≡ some ((5, 70) ∷ (6, 80) ∷ [])
unfolding usable hand_out emplace
draw_tokens-hand_out_example = draw_tokens-hand_out [] (5 ∷ 6 ∷ []) (0 ∷ 70 ∷ 70 ∷ 80 ∷ []) []

abbrev no_udp : UdpManager ℕ ℕ
no_udp = new_udp_manager

allocate-returns_example :
    is_some (allocate no_udp (some 4000) (0 ∷ 70 ∷ 70 ∷ 80 ∷ []) 1 (5 ∷ 6 ∷ [])) ≡ true
unfolding usable
allocate-returns_example =
    allocate-returns no_udp (some 4000) (0 ∷ 70 ∷ 70 ∷ 80 ∷ []) 1 (5 ∷ 6 ∷ []) (omega arith)

abbrev two_tokens : UdpSession ℕ ℕ
two_tokens = new_session 1 ((5, 70) ∷ (6, 80) ∷ [])

abbrev one_udp : UdpManager ℕ ℕ
one_udp = record { sessions = (1, two_tokens) ∷ []; server_tick = 0; stopping = false }

allocate-some_example :
    (u : UdpSession ℕ ℕ) × (one_udp.sessions ≡ emplace 1 u [])
    × (contains 1 no_udp.sessions ≡ false)
    × (used : List ℕ) × AreTokens used u.tokens
    × ((s : ℕ) → contains s u.tokens ≡ elem s (5 ∷ 6 ∷ []))
    × (u.endpoints ≡ [])
unfolding new_udp_manager allocate draw_tokens draw_token check_participants find emplace
allocate-some_example =
    allocate-some no_udp one_udp (some 4000) (0 ∷ 70 ∷ 70 ∷ 80 ∷ []) 1 (5 ∷ 6 ∷ []) 4000 refl

replace_participant-some_iff_example :
    is_some (replace_participant one_udp (0 ∷ 80 ∷ 95 ∷ []) 1 5 9).1
    ≡ any (λ token. token != 0 && not (token_in_use token two_tokens.tokens)) (0 ∷ 80 ∷ 95 ∷ [])
unfolding find new_session
replace_participant-some_iff_example =
    replace_participant-some_iff one_udp two_tokens (0 ∷ 80 ∷ 95 ∷ []) 1 5 9 refl refl refl
      (omega arith) (omega arith)
