-- ===== src/Lifecycle/Endings.antt =====
-- A dungeon that is cancelled or finished leaves with its UDP session.
use dnf_mock_server_client.Prelude.{
  ℕ, nat_eq, ◌≡◌, refl, subst, inl, inr, none, some, arith, ◌==◌, if◌then◌else◌, Bool-cases,
  Option-cases,
}
use dnf_mock_server_client.Map.{find, assign}
use dnf_mock_server_client.Map.Laws.{find-assign, find-erase}
use dnf_mock_server_client.Dungeon.{DungeonInstance, DungeonState}
use dnf_mock_server_client.Dungeon.Membership.Invariant.{Inv}
use dnf_mock_server_client.Dungeon.Progress.{finish, is_running}
use dnf_mock_server_client.DungeonManager.{DungeonManager}
use dnf_mock_server_client.DungeonManager.Lifetime.{cancel_dungeon, finish_dungeon, drop_dungeon}
use dnf_mock_server_client.DungeonManager.Invariant.{drop_dungeon-Inv, replaced_instance}
use dnf_mock_server_client.DungeonUdpManager.{release}
use dnf_mock_server_client.Lifecycle.{Service, release_if, cancel_waiting, complete}
use dnf_mock_server_client.Lifecycle.Agreement.{Agree, kept}

module _ {E R : Type 0} (l : Service E R) (v : Agree l) where
  find-release :
      (id k : ℕ)
      → find k (release l.udp id).0.sessions ≡ (if id == k then none else find k l.udp.sessions)
  unfolding release
  find-release id k = ground (arith, find-erase id k l.udp.sessions)

  dropped :
      (id : ℕ) (i : DungeonInstance R)
      → find id l.manager.dungeons ≡ some i
      → Agree (record l { manager = drop_dungeon l.manager id i; udp = (release l.udp id).0 })
  unfolding drop_dungeon
  dropped id i found = record {
    dungeon_for = λ k h.
        ground (arith, find-release id k, find-erase id k l.manager.dungeons, v.dungeon_for k);
    same =
        λ k s h. ground (arith, find-release id k, find-erase id k l.manager.dungeons, v.same k s);
    all = λ k o h. v.all k o (ground (arith, find-erase id k l.manager.dungeons));
    tables = drop_dungeon-Inv l.manager v.tables id i found;
  }

  -- The state of an instance is no part of the agreement.
  restated :
      (id : ℕ) (i : DungeonInstance R) (state : DungeonState)
      → find id l.manager.dungeons ≡ some i
      → Agree (record l {
        manager = record l.manager {
          dungeons = assign id (record i { state = state }) l.manager.dungeons;
        };
      })
  restated id i state found =
      let j : DungeonInstance R = record i { state = state } in
      let w = v.all id i found in
      let u : Inv j = record {
        listed = w.listed;
        distinct = w.distinct;
        positive = w.positive;
        few = w.few;
        own = w.own;
        agree = w.agree;
        bound_here = w.bound_here;
        away_here = w.away_here;
        players_map = w.players_map;
        away_map = w.away_map;
      } in
      kept l v (record l.manager { dungeons = assign id j l.manager.dungeons }) l.udp
        (replaced_instance l.manager v.tables id i j l.manager.authenticated_players
          l.manager.active_player_sessions found refl v.tables.logged_in)
        (record {
          present = λ k. ground (arith, find-assign id k j l.manager.dungeons);
          same = λ k s. ground (arith, find-assign id k j l.manager.dungeons);
          all = λ k o h. elim (Bool-cases (id == k)) [
            | inl here ↦
                let is : j ≡ o = ground (arith, find-assign id k j l.manager.dungeons) in
                subst Inv is u
            | inr there ↦ v.all k o (ground (arith, find-assign id k j l.manager.dungeons))
          ];
        })
        (λ k. refl) (λ k s. refl)

module _ {E R : Type 0} (l : Service E R) (v : Agree l) where
  pub cancel_waiting-Agree : (id : ℕ) → Agree (cancel_waiting l id).0
  unfolding cancel_waiting release_if cancel_dungeon
  cancel_waiting-Agree id = elim (Option-cases (find id l.manager.dungeons)) [
    | inl missing ↦ ground (arith, v)
    | inr (i, found) ↦ ground (arith, v, dropped l v id i found)
  ]

  pub complete-Agree : (id : ℕ) → Agree (complete l id).0
  unfolding complete release_if finish_dungeon finish
  complete-Agree id = elim (Option-cases (find id l.manager.dungeons)) [
    | inl missing ↦ ground (arith, v)
    | inr (i, found) ↦
        let over : DungeonInstance R = record i { state = DungeonState.finished } in
        let ended = restated l v id i DungeonState.finished found in
        let as_is = restated l v id i i.state found in
        let again : DungeonManager R = record l.manager {
          dungeons = assign id over l.manager.dungeons;
        } in
        let same : DungeonManager R = record l.manager {
          dungeons = assign id i l.manager.dungeons;
        } in
        elim (Bool-cases (is_running i.state)) [
          | inl runs ↦ ground (
            arith,
            dropped (record l { manager = again }) ended id over
                (ground (arith, find-assign id id over l.manager.dungeons)),
          )
          | inr rests ↦ ground (
            arith,
            as_is,
            dropped (record l { manager = same }) as_is id i
                (ground (arith, find-assign id id i l.manager.dungeons)),
          )
        ]
  ]
