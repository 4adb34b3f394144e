-- ===== src/DungeonManager/Success.antt =====
-- The answers of `CreateDungeon` of src/DungeonManager.cpp.
use dnf_mock_server_client.Prelude.{
  ℕ, nat_eq, ◌<◌, ◌≡◌, ◌≢◌, ◌⊎◌, inl, inr, false, not, none, some, arith, if◌then◌else◌, is_some,
  Option-cases,
}
use dnf_mock_server_client.Prelude.Except.{ok}
use dnf_mock_server_client.Map.{contains, find}
use dnf_mock_server_client.Map.Laws.{find-emplace}
use dnf_mock_server_client.Prelude.{elem}
use dnf_mock_server_client.Float.{Float}
use dnf_mock_server_client.EnemyCatalog.{EnemyCatalog}
use dnf_mock_server_client.Party.{PartyManager, PartyInfo, get_party}
use dnf_mock_server_client.Party.Invariant.{Inv as PartyInv}
use dnf_mock_server_client.DungeonCatalog.{DungeonCatalog, get_dungeon}
use dnf_mock_server_client.DungeonCatalog.Accepted.{IsDungeonCatalog}
use dnf_mock_server_client.DungeonCatalog.Instances.{new_instance-IsDungeonTemplate}
use dnf_mock_server_client.DungeonManager.{
  DungeonManager, CreateDungeonStatus, create_dungeon, bind_members, DungeonInstance,
}
use dnf_mock_server_client.DungeonManager.Ids.{
  ids, bind_members-ids_of, new_instance-ids_of, ids_of,
}

-- The ids of the parties and of their members are not 0.
abbrev pub AllNamed : PartyManager → Type 0
AllNamed parties =
    (k : ℕ) (p : PartyInfo) → get_party parties k ≡ some p → (0 < k) × (elem 0 p.members ≡ false)

module _ {R : Type 0} ⦃f : Float R⦄ (enemies : EnemyCatalog R) (catalog : DungeonCatalog R) where
  -- The status that the answer reports: the first test that fails, in the order of the code.
  abbrev pub expected_status : PartyManager → DungeonManager R → ℕ → ℕ → CreateDungeonStatus
  expected_status parties m party_id template_id =
      if m.stopping
      then CreateDungeonStatus.server_stopping
      else if not (is_some (get_party parties party_id))
      then CreateDungeonStatus.party_not_found
      else if not (is_some (get_dungeon catalog template_id))
      then CreateDungeonStatus.dungeon_template_not_found
      else if contains party_id m.party_dungeons
      then CreateDungeonStatus.party_already_in_dungeon
      else CreateDungeonStatus.success

  -- With a party manager that satisfies its invariant, whose party and session ids are not 0, a
  -- catalog whose templates are fit to be played, and a dungeon manager whose next id is not 0 and
  -- not that of a dungeon, the creation of a dungeon does not throw: it answers with the first test
  -- that fails, and then changes nothing, or it succeeds and the new dungeon of the party has the
  -- next id, under which it is in the table.
  pub create_dungeon-ok :
      (parties : PartyManager) (m : DungeonManager R) (party_id template_id now : ℕ)
      → PartyInv parties
      → AllNamed parties
      → IsDungeonCatalog enemies catalog
      → 0 < m.next_dungeon_id
      → ids m.next_dungeon_id m.dungeons ≡ none
      → let status = expected_status parties m party_id template_id in
        let after = create_dungeon parties catalog m party_id template_id now in
        ((after.1 ≡ ok (status, none)) × (after.0 ≡ m) × (status ≢ CreateDungeonStatus.success))
        ⊎ ((i : DungeonInstance R) × (after.1 ≡ ok (status, some i))
            × (status ≡ CreateDungeonStatus.success)
            × (ids_of i ≡ (m.next_dungeon_id, party_id))
            × (find m.next_dungeon_id after.0.dungeons ≡ some i))
  unfolding create_dungeon get_party get_dungeon
  create_dungeon-ok parties m party_id template_id now pv named v positive unused =
      elim (Option-cases (get_party parties party_id)) [
        | inl no_party ↦ ground arith
        | inr (party, led) ↦ elim (Option-cases (get_dungeon catalog template_id)) [
          | inl no_template ↦ ground arith
          | inr (t, listed) ↦
              let p = pv.party_ok party_id party led in
              let n = named party_id party led in
              let (i, made, _, _, _) =
                new_instance-IsDungeonTemplate enemies m.next_dungeon_id t party_id party.members
                  now (v template_id t listed).0 positive n.0 p.distinct n.1 p.occupied p.bounded in
              let j = bind_members m.authenticated_players party.members i in
              ground (
                arith,
                made,
                bind_members-ids_of m.authenticated_players party.members i,
                new_instance-ids_of m.next_dungeon_id t party_id party.members now i made,
                find-emplace m.next_dungeon_id m.next_dungeon_id j m.dungeons,
              )
        ]
      ]
