-- ===== src/DungeonManager/Departures.antt =====
-- Who takes part after a disconnection, a sweep, a start and the creation of a dungeon.
use dnf_mock_server_client.Prelude.{
  ℕ, nat_eq, ◌-◌, ◌≡◌, refl, subst, ◌⊎◌, inl, inr, Bool, false, ◌&&◌, ◌||◌, not, none, some, List,
  [], ◌∷◌, ◌++◌, map, arith, ltb, ◌==◌, if◌then◌else◌, Bool-cases, Option-cases, any, all,
}
use dnf_mock_server_client.Map.{Map, find, contains, erase, IsMap}
use dnf_mock_server_client.Map.Laws.{find-erase}
use dnf_mock_server_client.Prelude.{elem}
use dnf_mock_server_client.Dungeon.{DungeonInstance}
use dnf_mock_server_client.Dungeon.Membership.{
  disconnect_participant, remove_session, remove_expired, remove_expired_disconnected_participants,
  remove_all_participants,
}
use dnf_mock_server_client.Dungeon.Membership.Invariant.{
  Inv, disconnect_participant-Inv, remove_expired-Inv, remove_all_participants-Inv,
}
use dnf_mock_server_client.DungeonManager.{DungeonManager}
use dnf_mock_server_client.DungeonManager.Sessions.{disconnect_in, disconnect_player_session}
use dnf_mock_server_client.DungeonManager.Lifetime.{sweep_dungeons}
use dnf_mock_server_client.DungeonManager.Participants.{AllInv, SameParticipants}
use dnf_mock_server_client.DungeonManager.Sweep.{is_expired, swept, is_released}

-- Whether a pair stands in the list.
abbrev pub removes : ℕ → ℕ → List (ℕ × ℕ) → Bool
removes k s removed = any (λ e. e.0 == k && e.1 == s) removed

removes-map :
    (k s id : ℕ) (sessions : List ℕ) (more : List (ℕ × ℕ))
    → removes k s (map (λ session. (id, session)) sessions ++ more)
      ≡ ((id == k && elem s sessions) || removes k s more)
removes-map k s id [] more = ground arith
removes-map k s id (x ∷ xs) more = ground (arith, removes-map k s id xs more)

module _ {R : Type 0} where
  disconnect_participant-players :
      (i : DungeonInstance R) (session at : ℕ)
      → (disconnect_participant i session at).0.players ≡ i.players
  unfolding disconnect_participant
  disconnect_participant-players i session at = ground arith

  disconnect_in-find :
      (k : ℕ) (ds : Map ℕ (DungeonInstance R)) (session at : ℕ)
      → (find k (disconnect_in ds session at).0 ≡ find k ds)
        ⊎ ((i : DungeonInstance R) × (find k ds ≡ some i)
            × (find k (disconnect_in ds session at).0
                ≡ some (disconnect_participant i session at).0))
  unfolding disconnect_in find
  disconnect_in-find k [] session at = inl refl
  disconnect_in-find k ((id, i) ∷ ds) session at = elim (Bool-cases (id == k)) [
    | inl here ↦ inr (i, ground arith, ground arith)
    | inr there ↦ elim (disconnect_in-find k ds session at) [
      | inl same ↦ inl (ground arith)
      | inr (j, found, after) ↦ elim (Bool-cases (disconnect_participant i session at).1) [
        | inl done ↦ inl (ground arith)
        | inr not_here ↦ inr (j, ground arith, ground arith)
      ]
    ]
  ]

  disconnect_in-SameParticipants :
      (ds : Map ℕ (DungeonInstance R)) (session at : ℕ)
      → AllInv ds
      → SameParticipants ds (disconnect_in ds session at).0
  disconnect_in-SameParticipants ds session at all = record {
    present = λ k. elim (disconnect_in-find k ds session at) [
      | inl same ↦ ground arith
      | inr (i, found, after) ↦ ground arith
    ];
    same = λ k s. elim (disconnect_in-find k ds session at) [
      | inl same ↦ ground arith
      | inr (i, found, after) ↦ ground (arith, disconnect_participant-players i session at)
    ];
    all = λ k o h. elim (disconnect_in-find k ds session at) [
      | inl same ↦ all k o (ground arith)
      | inr (i, found, after) ↦
          let is : (disconnect_participant i session at).0 ≡ o = ground arith in
          subst Inv is (disconnect_participant-Inv i (all k i found) session at)
    ];
  }

  pub disconnect_player_session-SameParticipants :
      (m : DungeonManager R) (session at : ℕ)
      → AllInv m.dungeons
      → SameParticipants m.dungeons (disconnect_player_session m session at).0.dungeons
  unfolding disconnect_player_session
  disconnect_player_session-SameParticipants m session at all =
      let p = disconnect_in-SameParticipants m.dungeons session at all in
      let q : SameParticipants m.dungeons m.dungeons = record {
        present = λ k. refl;
        same = λ k s. refl;
        all = all;
      } in
      elim (Option-cases (find session m.authenticated_players)) [
        | inl unknown ↦ ground (arith, p, q)
        | inr (player, known) ↦ ground (arith, p, q)
      ]

  remove_expired-players :
      (now grace s : ℕ) (away : Map ℕ ℕ) (i : DungeonInstance R)
      → contains s (remove_expired now grace away i).0.players
        ≡ (contains s i.players && not (elem s (remove_expired now grace away i).1))
  unfolding remove_expired remove_session
  remove_expired-players now grace s [] i = ground arith
  remove_expired-players now grace s ((t, since) ∷ away) i =
      elim (Bool-cases (ltb now since || ltb (now - since) grace)) [
        | inl stays ↦ ground (arith, remove_expired-players now grace s away i)
        | inr expired ↦ ground (
          arith,
          remove_expired-players now grace s away (remove_session i t),
          find-erase t s i.players,
        )
      ]

  module _ (now grace lifetime : ℕ) where
    -- The sessions that the sweep removes from a dungeon.
    abbrev pub removed_from : DungeonInstance R → List ℕ
    removed_from i =
        (if is_expired now grace lifetime i
          then remove_all_participants i
          else remove_expired_disconnected_participants i now grace).1

    pub swept-players :
        (i : DungeonInstance R) (s : ℕ)
        → Inv i
        → contains s (swept now grace lifetime i).players
          ≡ (contains s i.players && not (elem s (removed_from i)))
    unfolding remove_all_participants remove_expired_disconnected_participants find
    swept-players i s v =
        ground (arith, v.listed s, remove_expired-players now grace s i.disconnected_since i)

    pub swept-Inv : (i : DungeonInstance R) → Inv i → Inv (swept now grace lifetime i)
    unfolding remove_expired_disconnected_participants
    swept-Inv i v = ground (
      arith,
      v,
      remove_all_participants-Inv i v,
      remove_expired-Inv now grace i.disconnected_since i v,
    )

    pub sweep_dungeons-removes :
        (k s : ℕ) (ds : Map ℕ (DungeonInstance R)) (parties : Map ℕ ℕ)
        → IsMap ds
        → removes k s (sweep_dungeons now grace lifetime ds parties).2.removed_participants
          ≡ elim (find k ds) [ none ↦ false | some i ↦ elem s (removed_from i) ]
    unfolding sweep_dungeons find
    sweep_dungeons-removes k s [] parties d = refl
    sweep_dungeons-removes k s ((id, i) ∷ ds) parties (fresh, d) =
        let left =
          if is_released now grace lifetime i
          then erase (swept now grace lifetime i).party_id parties
          else parties in
        let rest = sweep_dungeons-removes k s ds left d in
        let here =
          removes-map k s id (removed_from i)
            (sweep_dungeons now grace lifetime ds left).2.removed_participants in
        elim (Bool-cases (is_released now grace lifetime i)) [
          | inl gone ↦ ground (arith, rest, here)
          | inr stays ↦ ground (arith, rest, here)
        ]
