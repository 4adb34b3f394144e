-- ===== src/DungeonManager/Sweep.antt =====
-- What the sweep over abandoned dungeons does to the tables.
use dnf_mock_server_client.Prelude.{
  ℕ, nat_eq, ◌-◌, ◌<◌, ◌≡◌, refl, inl, inr, Bool, true, false, ◌&&◌, ◌||◌, none, some, [], ◌∷◌,
  arith, leb, ◌==◌, if◌then◌else◌, Bool-cases, Option-cases, length, any,
}
use dnf_mock_server_client.Map.{Map, find, erase, IsMap}
use dnf_mock_server_client.Map.Laws.{find-erase}
use dnf_mock_server_client.Dungeon.{DungeonInstance}
use dnf_mock_server_client.Dungeon.Membership.{
  remove_expired_disconnected_participants, remove_all_participants,
}
use dnf_mock_server_client.DungeonManager.{DungeonManager}
use dnf_mock_server_client.DungeonManager.Lifetime.{sweep_dungeons, sweep_abandoned_participants}
use dnf_mock_server_client.DungeonManager.Ids.{
  ids, ids_of, remove_expired_disconnected_participants-ids_of, remove_all_participants-ids_of,
}
use dnf_mock_server_client.DungeonManager.Invariant.{Inv}
use dnf_mock_server_client.Prelude.{elem}

module _ {R : Type 0} (now grace lifetime : ℕ) where
  -- The age that ends a dungeon.
  abbrev pub is_expired : DungeonInstance R → Bool
  is_expired i = leb i.created_at now && leb lifetime (now - i.created_at)

  -- The dungeon without the participants that the sweep removes.
  abbrev pub swept : DungeonInstance R → DungeonInstance R
  swept i =
      (if is_expired i
        then remove_all_participants i
        else remove_expired_disconnected_participants i now grace).0

  -- Whether the dungeon is released.
  abbrev pub is_released : DungeonInstance R → Bool
  is_released i = is_expired i || length (swept i).participants == 0

  pub swept-ids_of : (i : DungeonInstance R) → ids_of (swept i) ≡ ids_of i
  swept-ids_of i = ground (
    arith,
    remove_expired_disconnected_participants-ids_of i now grace,
    remove_all_participants-ids_of i,
  )

  pub find-sweep_dungeons :
      (k : ℕ) (ds : Map ℕ (DungeonInstance R)) (parties : Map ℕ ℕ)
      → IsMap ds
      → (find k (sweep_dungeons now grace lifetime ds parties).0 ≡ elim (find k ds) [
        | none ↦ none
        | some i ↦ if is_released i then none else some (swept i)
      ])
        × (elem k (sweep_dungeons now grace lifetime ds parties).2.released_dungeons
            ≡ elim (find k ds) [ none ↦ false | some i ↦ is_released i ])
  unfolding sweep_dungeons find
  find-sweep_dungeons k [] parties d = (refl, refl)
  find-sweep_dungeons k ((id, i) ∷ ds) parties (fresh, d) =
      let rest =
        find-sweep_dungeons k ds
          (if is_released i then erase (swept i).party_id parties else parties) d in
      elim (Bool-cases (is_released i)) [
        | inl gone ↦ ground (arith, rest)
        | inr stays ↦ ground (arith, rest)
      ]

  pub sweep_dungeons-IsMap :
      (ds : Map ℕ (DungeonInstance R)) (parties : Map ℕ ℕ)
      → IsMap ds
      → IsMap (sweep_dungeons now grace lifetime ds parties).0
  unfolding sweep_dungeons
  sweep_dungeons-IsMap [] parties d = tt
  sweep_dungeons-IsMap ((id, i) ∷ ds) parties (fresh, d) =
      let left = if is_released i then erase (swept i).party_id parties else parties in
      let rest = sweep_dungeons-IsMap ds left d in
      let there = find-sweep_dungeons id ds left d in
      elim (Bool-cases (is_released i)) [
        | inl gone ↦ ground (arith, rest)
        | inr stays ↦ ground (arith, rest, there)
      ]

  -- Whether a dungeon of the party is released.
  abbrev pub frees : ℕ → Map ℕ (DungeonInstance R) → Bool
  frees p ds = any (λ e. is_released e.1 && e.1.party_id == p) ds

  pub find-parties :
      (p : ℕ) (ds : Map ℕ (DungeonInstance R)) (parties : Map ℕ ℕ)
      → find p (sweep_dungeons now grace lifetime ds parties).1
        ≡ (if frees p ds then none else find p parties)
  unfolding sweep_dungeons
  find-parties p [] parties = refl
  find-parties p ((id, i) ∷ ds) parties =
      let same = swept-ids_of i in
      elim (Bool-cases (is_released i)) [
        | inl gone ↦ ground (
          arith,
          same,
          find-parties p ds (erase i.party_id parties),
          find-erase i.party_id p parties,
        )
        | inr stays ↦ ground (arith, find-parties p ds parties)
      ]

  pub frees-true :
      (p k : ℕ) (ds : Map ℕ (DungeonInstance R)) (i : DungeonInstance R)
      → find k ds ≡ some i
      → is_released i ≡ true
      → i.party_id ≡ p
      → frees p ds ≡ true
  unfolding find
  frees-true p k [] i found gone same = absurd (ground arith)
  frees-true p k ((id, j) ∷ ds) i found gone same = elim (Bool-cases (id == k)) [
    | inl here ↦ ground arith
    | inr there ↦ let rest = frees-true p k ds i (ground arith) gone same in ground arith
  ]

  pub frees-find :
      (p : ℕ) (ds : Map ℕ (DungeonInstance R))
      → IsMap ds
      → frees p ds ≡ true
      → (k : ℕ) × (i : DungeonInstance R) × (find k ds ≡ some i)
        × (is_released i ≡ true)
        × (i.party_id ≡ p)
  unfolding find
  frees-find p [] d h = absurd (ground arith)
  frees-find p ((id, j) ∷ ds) (fresh, d) h = elim (Bool-cases (is_released j && j.party_id == p)) [
    | inl here ↦ (id, j, ground arith, ground arith, ground arith)
    | inr there ↦
        let (k, i, found, gone, same) = frees-find p ds d (ground arith) in
        (k, i, ground arith, gone, same)
  ]

module _ {R : Type 0} (m : DungeonManager R) (v : Inv m) (now grace lifetime : ℕ) where
  -- The sweep of a manager that satisfies the invariant, with positive limits: a dungeon stays if
  -- and only if it is younger than the limit and somebody is left, without the participants that
  -- were away too long; the others are released, and so are their parties.
  pub sweep_abandoned_participants_lem :
      (k : ℕ)
      → 0 < grace
      → 0 < lifetime
      → let after = sweep_abandoned_participants m now grace lifetime in
        (find k after.0.dungeons ≡ elim (find k m.dungeons) [
          | none ↦ none
          | some i ↦
              if is_released now grace lifetime i then none else some (swept now grace lifetime i)
        ])
        × (elem k after.1.released_dungeons
            ≡ elim (find k m.dungeons) [ none ↦ false | some i ↦ is_released now grace lifetime i ])
        × (find k after.0.party_dungeons ≡ elim (find k m.party_dungeons) [
          | none ↦ none
          | some d ↦ if elem d after.1.released_dungeons then none else some d
        ])
  unfolding sweep_abandoned_participants
  sweep_abandoned_participants_lem k g l =
      let there =
        find-sweep_dungeons now grace lifetime k m.dungeons m.party_dungeons v.dungeons_map in
      let parties = find-parties now grace lifetime k m.dungeons m.party_dungeons in
      (
        ground (arith, there),
        ground (arith, there),
        elim (Option-cases (find k m.party_dungeons)) [
          | inl no_dungeon ↦ ground (arith, parties)
          | inr (d, leads) ↦
              let at =
                find-sweep_dungeons now grace lifetime d m.dungeons m.party_dungeons
                  v.dungeons_map in
              elim (Option-cases (find d m.dungeons)) [
                | inl missing ↦ absurd (ground (arith, v.led k d))
                | inr (i, found) ↦ elim (Bool-cases (frees now grace lifetime k m.dungeons)) [
                  | inl freed ↦
                      let (e, j, stored, gone, same) =
                        frees-find now grace lifetime k m.dungeons v.dungeons_map freed in
                      let this = v.keyed e j.dungeon_id k (ground arith) in
                      ground (arith, parties, at)
                  | inr kept ↦ elim (Bool-cases (is_released now grace lifetime i)) [
                    | inl gone ↦ absurd (
                        ground (
                          arith,
                          frees-true now grace lifetime k d m.dungeons i found gone
                              (ground (arith, v.led k d)),
                        ))
                    | inr stays ↦ ground (arith, parties, at)
                  ]
                ]
              ]
        ],
      )

  swept_ids :
      (k : ℕ)
      → 0 < grace
      → 0 < lifetime
      → let after = sweep_abandoned_participants m now grace lifetime in
        ids k after.0.dungeons
        ≡ (if elem k after.1.released_dungeons then none else ids k m.dungeons)
  swept_ids k g l = elim (Option-cases (find k m.dungeons)) [
    | inl missing ↦ ground (arith, sweep_abandoned_participants_lem k g l)
    | inr (i, found) ↦
        ground (arith, sweep_abandoned_participants_lem k g l, swept-ids_of now grace lifetime i)
  ]

  pub sweep_abandoned_participants-Inv : Inv (sweep_abandoned_participants m now grace lifetime).0
  unfolding sweep_abandoned_participants
  sweep_abandoned_participants-Inv = elim (Bool-cases (grace == 0 || lifetime == 0)) [
    | inl off ↦ ground (arith, v)
    | inr on ↦
        let tables = sweep_dungeons now grace lifetime m.dungeons m.party_dungeons in
        let w : Inv (record m { dungeons = tables.0; party_dungeons = tables.1 }) = record {
          keyed = λ k d p h.
              ground (arith, v.keyed k d p, swept_ids k, sweep_abandoned_participants_lem p);
          led = λ p k h. ground (arith, v.led p k, swept_ids k, sweep_abandoned_participants_lem p);
          dungeons_map =
              sweep_dungeons-IsMap now grace lifetime m.dungeons m.party_dungeons v.dungeons_map;
          logged_in = v.logged_in;
          stopped = λ k h. ground (arith, v.stopped k, sweep_abandoned_participants_lem k);
        } in
        ground (arith, w)
  ]
