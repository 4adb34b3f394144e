-- ===== src/DungeonManager/Creation.antt =====
-- `CreateDungeon` of src/DungeonManager.cpp keeps the tables in agreement.
use dnf_mock_server_client.Prelude.{
  ℕ, nat_eq, ◌≡◌, inl, inr, false, arith, Option-cases, none, ◌+◌, ◌<◌, u64_mod, ◌≤◌,
}
use dnf_mock_server_client.Map.{find, emplace}
use dnf_mock_server_client.Map.Laws.{find-emplace}
use dnf_mock_server_client.Dungeon.{DungeonInstance}
use dnf_mock_server_client.DungeonManager.{
  DungeonManager, Float, DungeonCatalog, create_dungeon, PartyManager, get_party, get_dungeon,
}
use dnf_mock_server_client.DungeonManager.Ids.{ids_of, ids}
use dnf_mock_server_client.DungeonManager.Invariant.{Inv}
use dnf_mock_server_client.Map.Size.{emplace-IsMap}
use dnf_mock_server_client.Prelude.Except.{Except-cases}
use dnf_mock_server_client.Dungeon.{new_instance}
use dnf_mock_server_client.DungeonManager.{bind_members}
use dnf_mock_server_client.DungeonManager.Ids.{bind_members-ids_of, new_instance-ids_of}

module _ {R : Type 0} (m : DungeonManager R) (v : Inv m) where
  created :
      (i : DungeonInstance R) (party_id : ℕ)
      → ids_of i ≡ (m.next_dungeon_id, party_id)
      → find party_id m.party_dungeons ≡ none
      → m.stopping ≡ false
      → Inv (record m {
        next_dungeon_id = m.next_dungeon_id + 1;
        dungeons = emplace m.next_dungeon_id i m.dungeons;
        party_dungeons = emplace party_id m.next_dungeon_id m.party_dungeons;
      })
  created i party_id named free serving =
      let unused : ids m.next_dungeon_id m.dungeons ≡ none =
        elim (Option-cases (find m.next_dungeon_id m.dungeons)) [
          | inl none_there ↦ ground arith
          | inr (j, there) ↦
              absurd
                (ground (arith, v.keyed m.next_dungeon_id j.dungeon_id j.party_id (ground arith)))
        ] in
      record {
        keyed = λ k d p h. ground (
          arith,
          find-emplace m.next_dungeon_id k i m.dungeons,
          find-emplace party_id p m.next_dungeon_id m.party_dungeons,
          v.keyed k d p,
        );
        led = λ p k h. ground (
          arith,
          find-emplace m.next_dungeon_id k i m.dungeons,
          find-emplace party_id p m.next_dungeon_id m.party_dungeons,
          v.led p k,
        );
        dungeons_map = emplace-IsMap m.next_dungeon_id i m.dungeons v.dungeons_map;
        logged_in = v.logged_in;
        stopped = λ k h. absurd (ground arith);
      }

  -- An id that was given out in vain.
  skipped : Inv (record m { next_dungeon_id = m.next_dungeon_id + 1 })
  skipped = record {
    keyed = λ k d p h. ground (arith, v.keyed k d p);
    led = v.led;
    dungeons_map = v.dungeons_map;
    logged_in = v.logged_in;
    stopped = v.stopped;
  }

module _ {R : Type 0} ⦃f : Float R⦄ (m : DungeonManager R) (v : Inv m) where
  pub create_dungeon-Inv :
      (parties : PartyManager) (catalog : DungeonCatalog R) (party_id template_id now : ℕ)
      → m.next_dungeon_id + 1 < u64_mod
      → Inv (create_dungeon parties catalog m party_id template_id now).0
        × ((create_dungeon parties catalog m party_id template_id now).0.next_dungeon_id
            ≤ m.next_dungeon_id + 1)
  unfolding create_dungeon
  create_dungeon-Inv parties catalog party_id template_id now room =
      elim (Option-cases (get_party parties party_id)) [
        | inl no_party ↦ ground (arith, v)
        | inr (party, led) ↦ elim (Option-cases (get_dungeon catalog template_id)) [
          | inl no_template ↦ ground (arith, v)
          | inr (t, listed) ↦
              elim (Except-cases (new_instance m.next_dungeon_id t party_id party.members now)) [
                | inr (e, thrown) ↦ ground (arith, v, skipped m v)
                | inl (i, made) ↦
                    let j = bind_members m.authenticated_players party.members i in
                    let named : ids_of j ≡ (m.next_dungeon_id, party_id) = ground (
                      arith,
                      bind_members-ids_of m.authenticated_players party.members i,
                      new_instance-ids_of m.next_dungeon_id t party_id party.members now i made,
                    ) in
                    ground (arith, v, created m v j party_id named)
              ]
        ]
      ]
