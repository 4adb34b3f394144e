-- ===== src/DungeonManager/Participants.antt =====
-- Who takes part in the dungeons of the table, after a log-in.
use dnf_mock_server_client.Prelude.{
  ℕ, nat_eq, ◌≡◌, refl, subst, ◌⊎◌, inl, inr, Bool, false, none, some, [], ◌∷◌, arith, ◌==◌,
  if◌then◌else◌, Bool-cases, Option-cases, all,
}
use dnf_mock_server_client.Map.{Map, find, contains, assign, IsMap}
use dnf_mock_server_client.Map.Laws.{find-assign}
use dnf_mock_server_client.Dungeon.{DungeonInstance}
use dnf_mock_server_client.Dungeon.Membership.{
  Reconnected, bind_participant_player, reconnect_participant,
}
use dnf_mock_server_client.Dungeon.Membership.Invariant.{Inv, bind_participant_player-Inv}
use dnf_mock_server_client.Dungeon.Membership.Reconnect.{reconnect_participant_iff}
use dnf_mock_server_client.DungeonManager.{is_finished}
use dnf_mock_server_client.DungeonManager.Sessions.{reconnect_in}

module _ {R : Type 0} where
  -- Whether a session takes part in the dungeon that is stored under a key.
  abbrev pub takes_part : ℕ → ℕ → Map ℕ (DungeonInstance R) → Bool
  takes_part k s ds = elim (find k ds) [ none ↦ false | some i ↦ contains s i.players ]

  -- The tables of every dungeon agree on who takes part.
  abbrev pub AllInv : Map ℕ (DungeonInstance R) → Type 0
  AllInv ds = (k : ℕ) (i : DungeonInstance R) → find k ds ≡ some i → Inv i

  -- What a log-in finds that brings a player back: the dungeon, and its participant that was lost.
  pub record CameBack (ds after : Map ℕ (DungeonInstance R)) (player session now grace id : ℕ)
      (r : Reconnected) : Type 0 where
    pub instance_before : DungeonInstance R
    pub found : find id ds ≡ some instance_before
    pub back : (reconnect_participant instance_before player session now grace).1 ≡ some r
    pub dungeons :
        (k : ℕ)
        → find k after ≡ (
            if id == k
            then some (reconnect_participant instance_before player session now grace).0
            else find k ds)

  reconnect_participant-none :
      (i : DungeonInstance R) (player session now grace : ℕ)
      → Inv i
      → (reconnect_participant i player session now grace).1 ≡ none
      → (reconnect_participant i player session now grace).0 ≡ i
  reconnect_participant-none i player session now grace v h =
      elim (reconnect_participant_iff i v player session now grace).1 [
        | inl done ↦ absurd (ground arith)
        | inr same ↦ same
      ]

  pub tail-AllInv :
      (id : ℕ) (i : DungeonInstance R) (ds : Map ℕ (DungeonInstance R))
      → contains id ds ≡ false
      → AllInv ((id, i) ∷ ds)
      → AllInv ds
  unfolding find
  tail-AllInv id i ds fresh all k j found = elim (Bool-cases (id == k)) [
    | inl same ↦ absurd (ground arith)
    | inr other ↦ all k j (ground arith)
  ]

  pub reconnect_in-cases :
      (ds : Map ℕ (DungeonInstance R)) (player session now grace : ℕ)
      → IsMap ds
      → AllInv ds
      → let after = reconnect_in ds player session now grace in
        ((after.1 ≡ none) × ((k : ℕ) → find k after.0 ≡ find k ds))
        ⊎ ((id : ℕ) × (r : Reconnected) × (after.1 ≡ some (id, r))
            × CameBack ds after.0 player session now grace id r)
  unfolding reconnect_in find
  reconnect_in-cases [] player session now grace d all = inl (refl, λ k. refl)
  reconnect_in-cases ((id, i) ∷ ds) player session now grace (fresh, d) all =
      let tried = reconnect_participant i player session now grace in
      let rest = reconnect_in-cases ds player session now grace d (tail-AllInv id i ds fresh all) in
      elim (Bool-cases (is_finished i.state)) [
        | inl over ↦ elim rest [
          | inl (nowhere, same) ↦ inl (ground arith, λ k. ground (arith, same k))
          | inr (j, r, done, c) ↦ inr (
            j,
            r,
            ground arith,
            record {
              instance_before = c.instance_before;
              found = ground (arith, c.found);
              back = c.back;
              dungeons = λ k. ground (arith, c.dungeons k, c.found);
            },
          )
        ]
        | inr goes_on ↦ elim (Option-cases tried.1) [
          | inr (r, done) ↦ inr (
            id,
            r,
            ground arith,
            record {
              instance_before = i;
              found = ground arith;
              back = done;
              dungeons = λ k. ground arith;
            },
          )
          | inl refused ↦
              let kept =
                reconnect_participant-none i player session now grace (all id i (ground arith))
                  refused in
              elim rest [
                | inl (nowhere, same) ↦ inl (ground arith, λ k. ground (arith, same k, kept))
                | inr (j, r, done, c) ↦ inr (
                  j,
                  r,
                  ground arith,
                  record {
                    instance_before = c.instance_before;
                    found = ground (arith, c.found);
                    back = c.back;
                    dungeons = λ k. ground (arith, c.dungeons k, c.found, kept);
                  },
                )
              ]
        ]
      ]

  bind_participant_player-players :
      (i : DungeonInstance R) (session player : ℕ)
      → (bind_participant_player i session player).0.players ≡ i.players
  unfolding bind_participant_player
  bind_participant_player-players i session player = ground arith

  -- The same participants, in dungeons whose tables agree.
  pub record SameParticipants (ds after : Map ℕ (DungeonInstance R)) : Type 0 where
    pub present : (k : ℕ) → contains k after ≡ contains k ds
    pub same : (k s : ℕ) → takes_part k s after ≡ takes_part k s ds
    pub all : AllInv after

  pub bound :
      (ds : Map ℕ (DungeonInstance R)) (id session player : ℕ) (i : DungeonInstance R)
      → AllInv ds
      → find id ds ≡ some i
      → SameParticipants ds (assign id (bind_participant_player i session player).0 ds)
  bound ds id session player i all found =
      let j = (bind_participant_player i session player).0 in
      let w = bind_participant_player-Inv i (all id i found) session player in
      record {
        present = λ k. ground (arith, find-assign id k j ds);
        same = λ k s.
            ground (arith, find-assign id k j ds, bind_participant_player-players i session player);
        all = λ k o h. elim (Bool-cases (id == k)) [
          | inl here ↦ let is : j ≡ o = ground (arith, find-assign id k j ds) in subst Inv is w
          | inr there ↦ all k o (ground (arith, find-assign id k j ds))
        ];
      }
