-- ===== src/DungeonManager/Made.antt =====
-- The dungeon that `CreateDungeon` of src/DungeonManager.cpp makes.
use dnf_mock_server_client.Prelude.{
  ℕ, nat_eq, ◌+◌, ◌%◌, ◌≡◌, refl, inl, inr, false, some, List, [], ◌∷◌, arith, Option-cases,
  u64_mod, subst,
}
use dnf_mock_server_client.Prelude.Except.{ok}
use dnf_mock_server_client.Map.{Map, find, contains, emplace}
use dnf_mock_server_client.Prelude.Except.{Except-cases}
use dnf_mock_server_client.Float.{Float}
use dnf_mock_server_client.Party.{PartyManager, PartyInfo, get_party}
use dnf_mock_server_client.Dungeon.{DungeonInstance, DungeonState, new_instance}
use dnf_mock_server_client.Dungeon.Membership.{bind_participant_player}
use dnf_mock_server_client.Dungeon.Membership.Invariant.{Inv, bind_participant_player-Inv}
use dnf_mock_server_client.Dungeon.Membership.Reachable.{new_instance-Inv}
use dnf_mock_server_client.DungeonCatalog.{DungeonCatalog, get_dungeon}
use dnf_mock_server_client.DungeonManager.{
  DungeonManager, CreateDungeonStatus, create_dungeon, bind_members,
}
use dnf_mock_server_client.DungeonManager.Ids.{ids_of, bind_members-ids_of, new_instance-ids_of}

module _ {R : Type 0} where
  bind_participant_player-state :
      (i : DungeonInstance R) (session player : ℕ)
      → let j = (bind_participant_player i session player).0 in
        (j.state ≡ i.state) × (j.participants ≡ i.participants)
  unfolding bind_participant_player
  bind_participant_player-state i session player = ground arith

  bind_members-state :
      (players : Map ℕ ℕ) (sessions : List ℕ) (i : DungeonInstance R)
      → let j = bind_members players sessions i in
        (j.state ≡ i.state) × (j.participants ≡ i.participants)
  unfolding bind_members
  bind_members-state players [] i = (refl, refl)
  bind_members-state players (s ∷ ss) i = elim (Option-cases (find s players)) [
    | inl missing ↦ ground (arith, bind_members-state players ss i)
    | inr (player, found) ↦ ground (
      arith,
      bind_members-state players ss (bind_participant_player i s player).0,
      bind_participant_player-state i s player,
    )
  ]

  bind_members-Inv :
      (players : Map ℕ ℕ) (sessions : List ℕ) (i : DungeonInstance R)
      → Inv i
      → Inv (bind_members players sessions i)
  unfolding bind_members
  bind_members-Inv players [] i v = v
  bind_members-Inv players (s ∷ ss) i v = elim (Option-cases (find s players)) [
    | inl missing ↦ ground (arith, bind_members-Inv players ss i v)
    | inr (player, found) ↦ ground (
      arith,
      bind_members-Inv players ss (bind_participant_player i s player).0
          (bind_participant_player-Inv i v s player),
    )
  ]

  -- The manager with a new dungeon of a party, which waits for its members.
  pub record Made (m after : DungeonManager R) (party_id : ℕ) (members : List ℕ)
      (made : DungeonInstance R) : Type 0 where
    pub named : ids_of made ≡ (m.next_dungeon_id, party_id)
    pub waits : made.state ≡ DungeonState.waiting
    pub listed : made.participants ≡ members
    pub sound : Inv made
    pub free : contains party_id m.party_dungeons ≡ false
    pub tables : after ≡ record m {
      next_dungeon_id = (m.next_dungeon_id + 1) % u64_mod;
      dungeons = emplace m.next_dungeon_id made m.dungeons;
      party_dungeons = emplace party_id m.next_dungeon_id m.party_dungeons;
    }

module _ {R : Type 0} ⦃f : Float R⦄ where
  pub create_dungeon-Made :
      (parties : PartyManager) (catalog : DungeonCatalog R) (m : DungeonManager R)
      (party_id template_id now : ℕ) (party : PartyInfo) (i : DungeonInstance R)
      → get_party parties party_id ≡ some party
      → (create_dungeon parties catalog m party_id template_id now).1
        ≡ ok (CreateDungeonStatus.success, some i)
      → Made m
          (create_dungeon parties catalog m party_id template_id now).0
          party_id
          party.members
          i
  unfolding create_dungeon
  create_dungeon-Made parties catalog m party_id template_id now party i led done =
      elim (Option-cases (get_dungeon catalog template_id)) [
        | inl no_template ↦ absurd (ground arith)
        | inr (t, listed) ↦
            elim (Except-cases (new_instance m.next_dungeon_id t party_id party.members now)) [
              | inr (e, thrown) ↦ absurd (ground arith)
              | inl (o, made) ↦
                  let fresh =
                    new_instance-ids_of m.next_dungeon_id t party_id party.members now o made in
                  let state = bind_members-state m.authenticated_players party.members o in
                  let named = bind_members-ids_of m.authenticated_players party.members o in
                  let is : bind_members m.authenticated_players party.members o ≡ i =
                    ground arith in
                  record {
                    named = ground (arith, named, fresh);
                    waits = ground (arith, state, fresh);
                    listed = ground (arith, state, fresh);
                    sound = subst Inv is (
                        bind_members-Inv m.authenticated_players party.members o
                          (new_instance-Inv m.next_dungeon_id t party_id party.members now o made));
                    free = ground arith;
                    tables = ground arith;
                  }
            ]
      ]
