-- ===== src/TickService/Waiting.antt =====
-- What the loops of a tick do to the dungeons that wait and to those that are over.
use dnf_mock_server_client.Prelude.{
  ℕ, nat_eq, ◌≡◌, refl, subst, ◌⊎◌, inl, inr, true, false, List, [], ◌∷◌, arith, ◌==◌, Bool-cases,
  Option-cases,
}
use dnf_mock_server_client.Prelude.Except.{ok}
use dnf_mock_server_client.Map.{find, contains, erase}
use dnf_mock_server_client.Map.Laws.{find-assign}
use dnf_mock_server_client.Prelude.Except.{Except-cases}
use dnf_mock_server_client.DungeonManager.{waiting_dungeon_ids, finished_dungeon_ids}
use dnf_mock_server_client.EnemyCatalog.{EnemyCatalog}
use dnf_mock_server_client.Dungeon.{DungeonInstance}
use dnf_mock_server_client.Dungeon.Membership.Invariant.{Inv}
use dnf_mock_server_client.Dungeon.Membership.Others.{start-Inv}
use dnf_mock_server_client.Dungeon.Progress.{start}
use dnf_mock_server_client.DungeonManager.{DungeonManager, find_dungeon}
use dnf_mock_server_client.DungeonManager.Invariant.{start_dungeon-Inv}
use dnf_mock_server_client.DungeonManager.Lifetime.{start_dungeon}
use dnf_mock_server_client.DungeonManager.Participants.{AllInv, SameParticipants}
use dnf_mock_server_client.DungeonUdpManager.{
  UdpManager, all_participants_authenticated, refresh_all_activity, pass_on,
}
use dnf_mock_server_client.UdpSession.{UdpSession}
use dnf_mock_server_client.UdpSession
use dnf_mock_server_client.Lifecycle.Agreement.{has_token, Agree, kept}
use dnf_mock_server_client.Lifecycle.Endings.{cancel_waiting-Agree, complete-Agree}
use dnf_mock_server_client.TickService.{
  TickState, is_suspended, start_ready, wait_longer, check_waiting, check_each, tick_waiting,
  check_finished, finish_each, tick_finished,
}

module _ {R : Type 0} where
  -- The parts of an instance that say who takes part.
  started-Inv :
      (enemies : EnemyCatalog R) (i : DungeonInstance R)
      → Inv i
      → Inv (start enemies i).0 × ((start enemies i).0.players ≡ i.players)
  unfolding start
  started-Inv enemies i v = (start-Inv enemies i v, ground arith)

  start_dungeon-SameParticipants :
      (enemies : EnemyCatalog R) (m : DungeonManager R) (id : ℕ)
      → AllInv m.dungeons
      → SameParticipants m.dungeons (start_dungeon enemies m id).0.dungeons
  unfolding start_dungeon
  start_dungeon-SameParticipants enemies m id sound = elim (Option-cases (find id m.dungeons)) [
    | inl missing ↦ record {
      present = λ k. ground arith;
      same = λ k s. ground arith;
      all = λ k o h. sound k o (ground arith);
    }
    | inr (i, found) ↦
        let j = (start enemies i).0 in
        let (w, players) = started-Inv enemies i (sound id i found) in
        record {
          present = λ k. ground (arith, find-assign id k j m.dungeons);
          same = λ k s. ground (arith, find-assign id k j m.dungeons, players);
          all = λ k o h. elim (Bool-cases (id == k)) [
            | inl here ↦
                let is : j ≡ o = ground (arith, find-assign id k j m.dungeons) in subst Inv is w
            | inr there ↦ sound k o (ground (arith, find-assign id k j m.dungeons))
          ];
        }
  ]

module _ {E R : Type 0} where
  refresh_all_activity-tokens :
      (m : UdpManager E R) (id now k s : ℕ)
      → let after = refresh_all_activity m id now in
        (contains k after.sessions ≡ contains k m.sessions)
        × (has_token k s after.sessions ≡ has_token k s m.sessions)
  unfolding refresh_all_activity pass_on UdpSession.refresh_all_activity
  refresh_all_activity-tokens m id now k s = elim (Option-cases (find id m.sessions)) [
    | inl missing ↦ ground arith
    | inr (u, found) ↦
        ground (arith, find-assign id k (UdpSession.refresh_all_activity u now) m.sessions)
  ]

  start_ready-Agree :
      (enemies : EnemyCatalog R) (now : ℕ) (t : TickState E R) (id : ℕ)
      → Agree t.service
      → Agree (start_ready enemies now t id).0.service
  unfolding start_ready
  start_ready-Agree enemies now t id v =
      let l = t.service in
      let started = start_dungeon enemies l.manager id in
      let w = start_dungeon-Inv l.manager v.tables enemies id in
      let p = start_dungeon-SameParticipants enemies l.manager id v.all in
      let plain = kept l v started.0 l.udp w p (λ k. refl) (λ k s. refl) in
      let refreshed =
        kept l v started.0 (refresh_all_activity l.udp id now) w p
          (λ k. (refresh_all_activity-tokens l.udp id now k 0).0)
          (λ k s. (refresh_all_activity-tokens l.udp id now k s).1) in
      elim (Except-cases started.1) [
        | inl (done, calm) ↦ ground (arith, plain, refreshed)
        | inr (e, thrown) ↦ ground (arith, plain)
      ]

  -- The three ways through the loop's body.
  pub check_waiting-cases :
      (enemies : EnemyCatalog R) (now timeout : ℕ) (t : TickState E R) (id : ℕ)
      → let checked = check_waiting enemies now timeout t id in
        (checked ≡ (record t { waiting_since = erase id t.waiting_since }, ok tt))
        ⊎ (((all_participants_authenticated t.service.udp id ≡ true)
              × (checked ≡ start_ready enemies now t id))
            ⊎ ((is_suspended (find_dungeon t.service.manager id) ≡ false)
                × (all_participants_authenticated t.service.udp id ≡ false)
                × (checked ≡ (wait_longer now timeout t id, ok tt))))
  unfolding check_waiting
  check_waiting-cases enemies now timeout t id =
      elim (Bool-cases (is_suspended (find_dungeon t.service.manager id))) [
        | inl suspended ↦ inl (rw (suspended, check_waiting) refl)
        | inr attended ↦ elim (Bool-cases (all_participants_authenticated t.service.udp id)) [
          | inl ready ↦ inr (inl (ready, rw (attended, ready, check_waiting) refl))
          | inr unready ↦ inr (inr (attended, unready, rw (attended, unready, check_waiting) refl))
        ]
      ]

  wait_longer-Agree :
      (now timeout : ℕ) (t : TickState E R) (id : ℕ)
      → Agree t.service
      → Agree (wait_longer now timeout t id).service
  unfolding wait_longer
  wait_longer-Agree now timeout t id v =
      let w = cancel_waiting-Agree t.service v id in
      elim (Option-cases (find id t.waiting_since)) [
        | inl fresh ↦ ground (arith, v)
        | inr (since, noted) ↦ ground (arith, v, w)
      ]

  check_waiting-Agree :
      (enemies : EnemyCatalog R) (now timeout : ℕ) (t : TickState E R) (id : ℕ)
      → Agree t.service
      → Agree (check_waiting enemies now timeout t id).0.service
  check_waiting-Agree enemies now timeout t id v =
      elim (check_waiting-cases enemies now timeout t id) [
        | inl is ↦ rw is v
        | inr (inl (ready, is)) ↦ rw is (start_ready-Agree enemies now t id v)
        | inr (inr (attended, unready, is)) ↦ rw is (wait_longer-Agree now timeout t id v)
      ]

  check_each-Agree :
      (enemies : EnemyCatalog R) (now timeout : ℕ) (ids : List ℕ) (t : TickState E R)
      → Agree t.service
      → Agree (check_each enemies now timeout ids t).0.service
  unfolding check_each
  check_each-Agree enemies now timeout [] t v = v
  check_each-Agree enemies now timeout (id ∷ ids) t v =
      let first = check_waiting enemies now timeout t id in
      let w = check_waiting-Agree enemies now timeout t id v in
      elim (Except-cases first.1) [
        | inr (e, thrown) ↦ ground (arith, w)
        | inl (done, calm) ↦ ground (arith, check_each-Agree enemies now timeout ids first.0 w)
      ]

  finish_each-Agree :
      (now : ℕ) (ids : List ℕ) (t : TickState E R)
      → Agree t.service
      → Agree (finish_each now ids t).service
  unfolding finish_each check_finished
  finish_each-Agree now [] t v = v
  finish_each-Agree now (id ∷ ids) t v =
      finish_each-Agree now ids (check_finished now t id)
        (ground (arith, v, complete-Agree t.service v id))

  -- The two loops of a tick keep UDP tokens and participants in agreement, even when the start of a
  -- dungeon throws.
  pub tick-Agree :
      (enemies : EnemyCatalog R) (now timeout : ℕ) (t : TickState E R)
      → Agree t.service
      → Agree (tick_waiting enemies now timeout t).0.service × Agree (tick_finished now t).service
  unfolding tick_waiting tick_finished
  tick-Agree enemies now timeout t v = (
    ground
        (arith, check_each-Agree enemies now timeout (waiting_dungeon_ids t.service.manager) t v),
    finish_each-Agree now (finished_dungeon_ids t.service.manager) t v,
  )
