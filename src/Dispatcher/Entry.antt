-- ===== src/Dispatcher/Entry.antt =====
-- `HandleEnterDungeonRequest` of src/PacketDispatcher.cpp: a request opens a dungeon with its UDP
-- session, or nothing.
use dnf_mock_server_client.Prelude.{
  ℕ, nat_eq, ◌+◌, ◌≤◌, ◌<◌, ◌≡◌, refl, ◌≢◌, ◌⊎◌, inl, inr, true, false, Option, none, some, List,
  [], arith, ◌==◌, Bool-cases, Option-cases, length, u64_mod,
}
use dnf_mock_server_client.Prelude.Except.{ok}
use dnf_mock_server_client.Map.{find}
use dnf_mock_server_client.Map.Laws.{find-emplace}
use dnf_mock_server_client.Prelude.{elem}
use dnf_mock_server_client.Float.{Float}
use dnf_mock_server_client.EnemyCatalog.{EnemyCatalog}
use dnf_mock_server_client.Party.{PartyManager, get_party, get_joined_party, max_party_members}
use dnf_mock_server_client.Party.Invariant.{Inv as PartyInv}
use dnf_mock_server_client.Dungeon.{DungeonInstance}
use dnf_mock_server_client.DungeonCatalog.{DungeonCatalog}
use dnf_mock_server_client.DungeonCatalog.Accepted.{IsDungeonCatalog}
use dnf_mock_server_client.DungeonManager.{DungeonManager, CreateDungeonStatus, create_dungeon}
use dnf_mock_server_client.DungeonManager.Ids.{ids}
use dnf_mock_server_client.DungeonManager.Invariant.{Inv as ManagerInv}
use dnf_mock_server_client.DungeonManager.Creation.{create_dungeon-Inv}
use dnf_mock_server_client.DungeonManager.Success.{create_dungeon-ok, expected_status, AllNamed}
use dnf_mock_server_client.DungeonManager.Made.{Made, create_dungeon-Made}
use dnf_mock_server_client.UdpSession.{UdpSession}
use dnf_mock_server_client.UdpSession
use dnf_mock_server_client.DungeonUdpManager.{UdpManager, allocate, find_token, draw_tokens}
use dnf_mock_server_client.DungeonUdpManager.Tokens.{allocate-some, allocate-returns, usable}
use dnf_mock_server_client.Lifecycle.{Service, cancel_waiting}
use dnf_mock_server_client.Lifecycle.Agreement.{Agree}
use dnf_mock_server_client.Lifecycle.Endings.{cancel_waiting-Agree}
use dnf_mock_server_client.Dispatcher.{
  EnterDungeonResult, EnterDungeonResponseData, refusal, cancel_entry, finish_entry, allocate_entry,
  enter_dungeon, to_enter_result,
}
use dnf_mock_server_client.Dispatcher.Opened.{
  Untouched, Entered, new_id, no_session, find-new_dungeon, opened, cancelled,
}

module _ {E R : Type 0} where
  -- The outcome of a request: an answer, and the tables that go with it.
  pub record Answered (l after : Service E R) (answer : EnterDungeonResponseData) (session : ℕ)
      : Type 0 where
    pub agree : Agree after
    pub outcome :
        ((answer.result ≢ EnterDungeonResult.success) × Untouched l after)
        ⊎ ((answer.result ≡ EnterDungeonResult.success) × Entered after answer session)

  allocate-none :
      (m n : UdpManager E R) (port : Option ℕ) (drawn : List ℕ) (id : ℕ) (participants : List ℕ)
      → allocate m port drawn id participants ≡ some (n, none)
      → n ≡ m
  unfolding allocate
  allocate-none m n port drawn id participants h = elim (Option-cases port) [
    | inl closed ↦ ground arith
    | inr (number, given) ↦ elim (Option-cases (draw_tokens [] participants drawn [])) [
      | inl stuck ↦ ground arith
      | inr (tokens, drew) ↦ ground arith
    ]
  ]

  untouched : (l : Service E R) → Untouched l l
  untouched l = record { dungeons = λ k. refl; parties = λ p. refl; sessions = λ k. refl }

  refused :
      (l : Service E R)
      → Agree l
      → (session : ℕ) (result : EnterDungeonResult) → result ≢ EnterDungeonResult.success
      → Answered l l (refusal result) session
  refused l v session result failed = record { agree = v; outcome = inl (failed, untouched l) }

  unused : (l : Service E R) → Agree l → ids l.manager.next_dungeon_id l.manager.dungeons ≡ none
  unused l v = ground (arith, new_id l v l.manager v.tables)

to_enter_result-success :
    (status : CreateDungeonStatus)
    → status ≢ CreateDungeonStatus.success
    → to_enter_result status ≢ EnterDungeonResult.success
unfolding to_enter_result
to_enter_result-success CreateDungeonStatus.success h = absurd (h refl)
to_enter_result-success CreateDungeonStatus.party_not_found h = ground arith
to_enter_result-success CreateDungeonStatus.dungeon_template_not_found h = ground arith
to_enter_result-success CreateDungeonStatus.party_already_in_dungeon h = ground arith
to_enter_result-success CreateDungeonStatus.server_stopping h = ground arith

module _ {E R : Type 0} (l : Service E R) (v : Agree l) (n : DungeonManager R) (w : ManagerInv n)
    (party_id session : ℕ) (members : List ℕ) (i : DungeonInstance R)
    (b : Made l.manager n party_id members i) where
  cancel_entry-Answered :
      (udp : UdpManager E R)
      → ((k : ℕ)
          → l.manager.next_dungeon_id == k ≡ false
          → find k udp.sessions ≡ find k l.udp.sessions)
      → Agree (record l { manager = n; udp = udp })
      → (after : Service E R) × (answer : EnterDungeonResponseData) × (cancel_entry
            (record l { manager = n; udp = udp })
            l.manager.next_dungeon_id
          ≡ (after, ok answer))
        × Answered l after answer session
  unfolding cancel_entry
  cancel_entry-Answered udp others a =
      let id = l.manager.next_dungeon_id in
      let o : Service E R = record l { manager = n; udp = udp } in
      let (answer, same) = cancelled l v n w party_id members i udp b others in
      (
        (cancel_waiting o id).0,
        refusal EnterDungeonResult.udp_allocation_failed,
        ground (arith, answer),
        record {
          agree = cancel_waiting-Agree o a id;
          outcome = inl (ground arith, ground (arith, same));
        },
      )

  allocate_entry-Answered :
      (port : Option ℕ) (drawn : List ℕ)
      → elem session members ≡ true
      → length members ≤ length (usable [] drawn)
      → (after : Service E R) × (answer : EnterDungeonResponseData) × (allocate_entry
            (record l { manager = n })
            port
            drawn
            session
            i
          ≡ some (after, ok answer))
        × Answered l after answer session
  unfolding allocate_entry finish_entry find_token UdpSession.find_token
  allocate_entry-Answered port drawn member enough =
      let id = l.manager.next_dungeon_id in
      let done =
        allocate-returns l.udp port drawn i.dungeon_id i.participants
          (ground (arith, b.listed, enough)) in
      elim (Option-cases (allocate l.udp port drawn i.dungeon_id i.participants)) [
        | inl stuck ↦ absurd (ground arith)
        | inr ((udp, given), allocated) ↦ elim (Option-cases given) [
          | inl refused ↦
              let same =
                allocate-none l.udp udp port drawn i.dungeon_id i.participants (ground arith) in
              let others : (k : ℕ) → id == k ≡ false → find k udp.sessions ≡ find k l.udp.sessions =
                λ k h. ground arith in
              let empty = no_session l v n w in
              let a =
                opened l v n w party_id members i udp b others (λ s h. absurd (ground arith)) in
              let (after, answer, ends, good) = cancel_entry-Answered udp others a in
              (after, answer, ground (arith, allocated, refused, ends, b.named), good)
          | inr (number, opened_port) ↦
              let (u, sessions, new, used, tokens, holders, nobody) =
                allocate-some l.udp udp port drawn i.dungeon_id i.participants number
                  (ground arith) in
              let put = λ (k : ℕ). find-emplace i.dungeon_id k u l.udp.sessions in
              let a =
                opened l v n w party_id members i udp b
                  (λ k h. ground (arith, sessions, put k, b.named))
                  (λ s h. ground (arith, sessions, put id, b.named, new, holders s, b.listed)) in
              elim (Option-cases (find session u.tokens)) [
                | inl missing ↦ absurd (ground (arith, holders session, b.listed))
                | inr (token, has) ↦ (
                  record l { manager = n; udp = udp },
                  record {
                    result = EnterDungeonResult.success;
                    dungeon_id = i.dungeon_id;
                    udp_port = number;
                    udp_token = token;
                  },
                  ground (arith, allocated, opened_port, sessions, put i.dungeon_id, new, has),
                  record {
                    agree = a;
                    outcome = inr (
                      refl,
                      record {
                        token = ground (arith, sessions, put i.dungeon_id, new, has);
                        member = ground (
                          arith,
                          find-new_dungeon l v n w party_id members i b i.dungeon_id,
                          b.named,
                          b.sound.listed session,
                          b.listed,
                        );
                      },
                    );
                  },
                )
              ]
        ]
      ]

module _ {E R : Type 0} ⦃f : Float R⦄ where
  -- A request to enter a dungeon, in a service whose tokens and participants agree, with a party
  -- manager and a catalog that satisfy their invariants, no party or session id 0, an id left and
  -- at least four different tokens to draw: it is answered, without an exception. The tokens and
  -- participants still agree, and unless the answer is success nothing was opened or closed; if it
  -- is, the session takes part in the dungeon of the answer and has the token of the answer.
  pub enter_dungeon-Answered :
      (enemies : EnemyCatalog R) (parties : PartyManager) (catalog : DungeonCatalog R)
      (l : Service E R) (port : Option ℕ) (drawn : List ℕ) (session template_id now : ℕ)
      → Agree l
      → PartyInv parties
      → AllNamed parties
      → IsDungeonCatalog enemies catalog
      → 0 < l.manager.next_dungeon_id
      → l.manager.next_dungeon_id + 1 < u64_mod
      → max_party_members ≤ length (usable [] drawn)
      → (after : Service E R) × (answer : EnterDungeonResponseData) × (enter_dungeon parties catalog
            l port drawn session template_id now
          ≡ some (after, ok answer))
        × Answered l after answer session
  unfolding enter_dungeon to_enter_result get_party
  enter_dungeon-Answered enemies parties catalog l port drawn session template_id now v pv named cv
        positive room enough =
      elim (Option-cases (get_joined_party parties session)) [
        | inl alone ↦ (
          l,
          refusal EnterDungeonResult.not_in_party,
          ground arith,
          refused l v session EnterDungeonResult.not_in_party (ground arith),
        )
        | inr (party_id, joined) ↦ elim (Option-cases (get_party parties party_id)) [
          | inl gone ↦ (
            l,
            refusal EnterDungeonResult.not_in_party,
            ground arith,
            refused l v session EnterDungeonResult.not_in_party (ground arith),
          )
          | inr (party, led) ↦ elim (Bool-cases (party.leader_session_id == session)) [
            | inr follows ↦ (
              l,
              refusal EnterDungeonResult.not_party_leader,
              ground arith,
              refused l v session EnterDungeonResult.not_party_leader (ground arith),
            )
            | inl leads ↦
                elim (create_dungeon-ok enemies catalog parties l.manager party_id template_id now
                  pv named cv positive (unused l v)) [
                    | inl (answer, same, failed) ↦
                        let status =
                          expected_status enemies catalog parties l.manager party_id template_id in
                        (
                          l,
                          refusal (to_enter_result status),
                          ground arith,
                          refused l v session (to_enter_result status)
                              (to_enter_result-success status failed),
                        )
                    | inr (i, answer, success, is, found) ↦
                        let b =
                          create_dungeon-Made parties catalog l.manager party_id template_id now
                            party i led (ground arith) in
                        let w =
                          (create_dungeon-Inv l.manager v.tables parties catalog party_id
                            template_id now room).0 in
                        let (after, response, ends, good) =
                          allocate_entry-Answered l v
                            (create_dungeon parties catalog l.manager party_id template_id now).0 w
                            party_id session party.members i b port drawn
                            (ground (arith, pv.party_ok party_id party led))
                            (omega (arith, enough, (pv.party_ok party_id party led).bounded)) in
                        (after, response, ground (arith, answer, ends), good)
                  ]
          ]
        ]
      ]
