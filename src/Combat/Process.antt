-- ===== src/Combat/Process.antt =====
-- `Process` of src/DungeonCombatProcessor.cpp: one combat tick of a dungeon.
use dnf_mock_server_client.Prelude.{
  ℕ, zero, suc, nat_eq, ◌+◌, ◌≡◌, inl, inr, true, not, none, some, [], arith, ◌==◌, if◌then◌else◌,
  is_some, Option-cases, length,
}
use dnf_mock_server_client.Map.{Map, find, assign, erase}
use dnf_mock_server_client.Map.Laws.{find-assign}
use dnf_mock_server_client.Prelude.{List-cases}
use dnf_mock_server_client.Float.{Float}
use dnf_mock_server_client.Dungeon.{DungeonInstance}
use dnf_mock_server_client.Dungeon.Progress.{is_running}
use dnf_mock_server_client.DungeonManager.{DungeonManager, find_dungeon}
use dnf_mock_server_client.DungeonUdpManager.{
  UdpManager, try_pop_attack, pending_attack_count, pass_on,
}
use dnf_mock_server_client.UdpSession
use dnf_mock_server_client.SkillCatalog.{SkillCatalog}
use dnf_mock_server_client.Combat.{
  Strength, PendingSkillHit, CombatProcessResult, resolve_hits, advance_players, accept_attack,
}

pub record Fight (E R : Type 0) : Type 0 where
  pub udp : UdpManager E R
  pub dungeon : DungeonInstance R
  pub hits : Map ℕ (PendingSkillHit R)
  pub result : CombatProcessResult

module _ {E R : Type 0} ⦃f : Float R⦄ (strength : Strength R) (skills : SkillCatalog R) where
  -- The loop over the queue of attacks, on fuel.
  unfoldable pub drain_attacks : ℕ → ℕ → Fight E R → Fight E R
  drain_attacks zero id t = t
  drain_attacks (suc n) id t =
      let popped = try_pop_attack t.udp id in
      elim popped.1 [
        | none ↦ record t { udp = popped.0 }
        | some queued ↦
            let (dungeon, hits, accepted) = accept_attack strength skills queued t.dungeon t.hits in
            drain_attacks n id (record {
              udp = popped.0;
              dungeon = dungeon;
              hits = hits;
              result = record t.result {
                received_count = t.result.received_count + 1;
                accepted_count =
                    if accepted then t.result.accepted_count + 1 else t.result.accepted_count;
                rejected_count =
                    if accepted then t.result.rejected_count else t.result.rejected_count + 1;
              };
            })
      ]

  unfoldable pub resolve_pending_hits : Fight E R → Fight E R
  resolve_pending_hits t =
      let resolved = resolve_hits strength t.hits t.dungeon in
      record t {
        dungeon = resolved.0;
        hits = resolved.1;
        result = record t.result { hit_count = t.result.hit_count + resolved.2 };
      }

  -- A dungeon that runs; its hits are those of the processor's table. The queue is not refilled
  -- while it is drained, so its length is enough fuel.
  unfoldable pub fight : ℕ → Fight E R → Fight E R
  unfolding drain_attacks resolve_pending_hits
  fight id t =
      let advanced = record t {
        dungeon = advance_players strength t.dungeon.participants t.dungeon;
      } in
      let first = resolve_pending_hits advanced in
      resolve_pending_hits (drain_attacks (pending_attack_count first.udp id) id first)

  unfoldable pub process :
      DungeonManager R
      → UdpManager E R
      → Map ℕ (Map ℕ (PendingSkillHit R))
      → ℕ
      → DungeonManager R × UdpManager E R × Map ℕ (Map ℕ (PendingSkillHit R)) × CombatProcessResult
  unfolding fight
  process m udp pending id =
      let nothing : CombatProcessResult = record {
        received_count = 0;
        accepted_count = 0;
        rejected_count = 0;
        hit_count = 0;
      } in
      elim (find_dungeon m id) [
        | none ↦ (m, udp, erase id pending, nothing)
        | some dungeon ↦
            let hits : Map ℕ (PendingSkillHit R) = elim (find id pending) [
              | none ↦ []
              | some hits ↦ hits
            ] in
            let done =
              fight id (record { udp = udp; dungeon = dungeon; hits = hits; result = nothing }) in
            if not (is_running dungeon.state) then (m, udp, erase id pending, nothing) else (
              record m { dungeons = assign id done.dungeon m.dungeons },
              done.udp,
              if length done.hits == 0 then erase id pending else assign id done.hits pending,
              done.result,
            )
      ]

  pop-count :
      (u : UdpManager E R) (id n : ℕ)
      → pending_attack_count u id ≡ suc n
      → (is_some (try_pop_attack u id).1 ≡ true)
        × (pending_attack_count (try_pop_attack u id).0 id ≡ n)
  unfolding try_pop_attack pass_on pending_attack_count UdpSession.try_pop_attack
  pop-count u id n h = elim (Option-cases (find id u.sessions)) [
    | inl missing ↦ absurd (ground arith)
    | inr (s, found) ↦ elim (List-cases s.pending_attacks) [
      | inl nothing ↦ absurd (ground arith)
      | inr (a, attacks, queue) ↦
          ground (arith, find-assign id id (UdpSession.try_pop_attack s).0 u.sessions)
    ]
  ]

  -- The loop over the attacks empties the queue, when its fuel is the length of the queue: each
  -- attack that waited is received, and each that is received is accepted or rejected.
  pub drain_attacks-empty :
      (n id : ℕ) (t : Fight E R)
      → pending_attack_count t.udp id ≡ n
      → let after = drain_attacks n id t in
        (pending_attack_count after.udp id ≡ 0)
        × (after.result.received_count ≡ t.result.received_count + n)
        × (after.result.accepted_count + after.result.rejected_count
            ≡ t.result.accepted_count + t.result.rejected_count + n)
  unfolding drain_attacks
  drain_attacks-empty zero id t h = ground arith
  drain_attacks-empty (suc n) id t h =
      let popped = try_pop_attack t.udp id in
      let (there, fewer) = pop-count t.udp id n h in
      elim (Option-cases popped.1) [
        | inl nothing ↦ absurd (ground arith)
        | inr (queued, got) ↦
            let (dungeon, hits, accepted) = accept_attack strength skills queued t.dungeon t.hits in
            let rest =
              drain_attacks-empty n id
                (record {
                  udp = popped.0;
                  dungeon = dungeon;
                  hits = hits;
                  result = record t.result {
                    received_count = t.result.received_count + 1;
                    accepted_count =
                        if accepted then t.result.accepted_count + 1 else t.result.accepted_count;
                    rejected_count =
                        if accepted then t.result.rejected_count else t.result.rejected_count + 1;
                  };
                })
                fewer in
            ground (arith, got, rest)
      ]
