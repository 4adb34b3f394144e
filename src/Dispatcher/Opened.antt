-- ===== src/Dispatcher/Opened.antt =====
-- A dungeon that a request opened, and what becomes of it when its UDP session is not ready.
use dnf_mock_server_client.Prelude.{
  ℕ, nat_eq, ◌≡◌, subst, inl, inr, true, false, none, some, List, arith, ◌==◌, if◌then◌else◌,
  Bool-cases, Option-cases,
}
use dnf_mock_server_client.Prelude.Except.{ok}
use dnf_mock_server_client.Map.{find, contains}
use dnf_mock_server_client.Map.Laws.{find-emplace, find-erase}
use dnf_mock_server_client.Prelude.{elem}
use dnf_mock_server_client.Dungeon.{DungeonInstance}
use dnf_mock_server_client.Dungeon.Membership.Invariant.{Inv}
use dnf_mock_server_client.DungeonManager.{DungeonManager}
use dnf_mock_server_client.DungeonManager.Invariant.{Inv as ManagerInv}
use dnf_mock_server_client.DungeonManager.Lifetime.{cancel_dungeon, drop_dungeon}
use dnf_mock_server_client.DungeonManager.Made.{Made}
use dnf_mock_server_client.DungeonManager.Participants.{takes_part}
use dnf_mock_server_client.DungeonUdpManager.{UdpManager, find_token, release}
use dnf_mock_server_client.Lifecycle.{Service, cancel_waiting, release_if}
use dnf_mock_server_client.Lifecycle.Agreement.{has_token, Agree}
use dnf_mock_server_client.Dispatcher.{
  EnterDungeonResult, EnterDungeonResponseData, refusal, cancel_entry,
}

-- No dungeon, no party and no UDP session is there that was not there before, and none is gone.
pub record Untouched {E R : Type 0} (l after : Service E R) : Type 0 where
  pub dungeons : (k : ℕ) → find k after.manager.dungeons ≡ find k l.manager.dungeons
  pub parties : (p : ℕ) → find p after.manager.party_dungeons ≡ find p l.manager.party_dungeons
  pub sessions : (k : ℕ) → find k after.udp.sessions ≡ find k l.udp.sessions

-- The session of the request takes part in the dungeon of the answer, with the token of the answer.
pub record Entered {E R : Type 0} (after : Service E R) (answer : EnterDungeonResponseData)
    (session : ℕ) : Type 0 where
  pub token : find_token after.udp answer.dungeon_id session ≡ some answer.udp_token
  pub member : takes_part answer.dungeon_id session after.manager.dungeons ≡ true

module _ {E R : Type 0} (l : Service E R) (v : Agree l) (n : DungeonManager R)
    (w : ManagerInv n) where
  -- The id of the new dungeon is new.
  pub new_id : find l.manager.next_dungeon_id l.manager.dungeons ≡ none
  new_id = elim (Option-cases (find l.manager.next_dungeon_id l.manager.dungeons)) [
    | inl unused ↦ unused
    | inr (i, found) ↦ absurd (
        ground
          (arith, v.tables.keyed l.manager.next_dungeon_id i.dungeon_id i.party_id (ground arith)))
  ]

  pub find-new_dungeon :
      (party_id : ℕ) (members : List ℕ) (i : DungeonInstance R)
      → Made l.manager n party_id members i
      → (k : ℕ)
      → find k n.dungeons
        ≡ (if l.manager.next_dungeon_id == k then some i else find k l.manager.dungeons)
  find-new_dungeon party_id members i b k =
      ground
        (arith, b.tables, find-emplace l.manager.next_dungeon_id k i l.manager.dungeons, new_id)

  find-party :
      (party_id : ℕ) (members : List ℕ) (i : DungeonInstance R)
      → Made l.manager n party_id members i
      → (p : ℕ)
      → find p n.party_dungeons ≡ (
          if party_id == p then some l.manager.next_dungeon_id else find p l.manager.party_dungeons)
  find-party party_id members i b p = ground (
    arith,
    b.tables,
    b.free,
    find-emplace party_id p l.manager.next_dungeon_id l.manager.party_dungeons,
  )

  pub no_session : find l.manager.next_dungeon_id l.udp.sessions ≡ none
  no_session = elim (Option-cases (find l.manager.next_dungeon_id l.udp.sessions)) [
    | inl free ↦ free
    | inr (u, found) ↦ absurd (ground (arith, v.dungeon_for l.manager.next_dungeon_id, new_id))
  ]

  -- The tables with the new dungeon, and a UDP session for its members or none.
  pub opened :
      (party_id : ℕ) (members : List ℕ) (i : DungeonInstance R) (udp : UdpManager E R)
      → Made l.manager n party_id members i
      → ((k : ℕ)
          → l.manager.next_dungeon_id == k ≡ false
          → find k udp.sessions ≡ find k l.udp.sessions)
      → ((s : ℕ)
          → contains l.manager.next_dungeon_id udp.sessions ≡ true
          → has_token l.manager.next_dungeon_id s udp.sessions ≡ elem s members)
      → Agree (record l { manager = n; udp = udp })
  opened party_id members i udp b others here = record {
    dungeon_for =
        λ k h. ground (arith, find-new_dungeon party_id members i b k, others k, v.dungeon_for k);
    same = λ k s h. elim (Bool-cases (l.manager.next_dungeon_id == k)) [
      | inl this ↦
          ground
            (arith, find-new_dungeon party_id members i b k, here s, b.listed, b.sound.listed s)
      | inr other ↦ ground (arith, find-new_dungeon party_id members i b k, others k, v.same k s)
    ];
    all = λ k o h. elim (Bool-cases (l.manager.next_dungeon_id == k)) [
      | inl this ↦
          let is : i ≡ o = ground (arith, find-new_dungeon party_id members i b k) in
          subst Inv is b.sound
      | inr other ↦ v.all k o (ground (arith, find-new_dungeon party_id members i b k))
    ];
    tables = w;
  }

  -- The cancellation of the new dungeon.
  pub cancelled :
      (party_id : ℕ) (members : List ℕ) (i : DungeonInstance R) (udp : UdpManager E R)
      → Made l.manager n party_id members i
      → ((k : ℕ)
          → l.manager.next_dungeon_id == k ≡ false
          → find k udp.sessions ≡ find k l.udp.sessions)
      → let after =
          cancel_entry {E = E} (record l { manager = n; udp = udp }) l.manager.next_dungeon_id in
        (after.1 ≡ ok (refusal EnterDungeonResult.udp_allocation_failed)) × Untouched l after.0
  unfolding cancel_entry cancel_waiting release_if cancel_dungeon drop_dungeon release
  cancelled party_id members i udp b others =
      let id = l.manager.next_dungeon_id in
      let found = find-new_dungeon party_id members i b id in
      (
        ground (arith, found, b.waits),
        record {
          dungeons = λ k. ground (
            arith,
            found,
            b.waits,
            find-new_dungeon party_id members i b k,
            find-erase id k n.dungeons,
            new_id,
          );
          parties = λ p. ground (
            arith,
            found,
            b.waits,
            b.named,
            b.free,
            find-party party_id members i b p,
            find-erase i.party_id p n.party_dungeons,
          );
          sessions = λ k.
              ground (arith, found, b.waits, others k, find-erase id k udp.sessions, no_session);
        },
      )
