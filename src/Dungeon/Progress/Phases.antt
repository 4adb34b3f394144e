-- ===== src/Dungeon/Progress/Phases.antt =====
-- Waiting, running, finished; when a dungeon ends, and what a portal does.
use dnf_mock_server_client.Prelude.{
  ℕ, nat_eq, ◌≤◌, ◌<◌, ◌≡◌, refl, ap, ◌∙◌, ◌⊎◌, inl, inr, Bool, true, false, not, List, [], ◌∷◌,
  arith, ◌!=◌, any, All, ◌↔◌, ◌≢◌, ◌==◌, if◌then◌else◌,
}
use dnf_mock_server_client.Map.{size}
use dnf_mock_server_client.Float.{Float}
use dnf_mock_server_client.EnemyCatalog.{EnemyCatalog}
use dnf_mock_server_client.Room.{RoomState, is_cleared}
use dnf_mock_server_client.Player.{PlayerState}
use dnf_mock_server_client.Dungeon.{DungeonInstance, DungeonState}
use dnf_mock_server_client.Map.{Map}
use dnf_mock_server_client.Prelude.{keep_if, ◌-◌, ltb, ◌||◌}
use dnf_mock_server_client.Dungeon.Membership.{
  Reconnected, bind_participant_player, disconnect_participant, reconnect_participant,
  rollback_participant_reconnect, remove_expired, remove_session,
  remove_expired_disconnected_participants, remove_all_participants,
}
use dnf_mock_server_client.Dungeon.Calls.{
  Call, bind, disconnect, reconnect, roll_back, expire, begin, advance, complete, try_complete,
  empty, portal, act, hit_enemy, hit_obstacle, step, run,
}
use dnf_mock_server_client.Dungeon.Progress.Portals.{try_use_portal-AtPortal, enter_target-state}
use dnf_mock_server_client.Dungeon.Progress.{
  advance_room_waves, finish, final_room_id, try_finish_if_cleared, start, Bool-cases,
}

any-All {ℓ} :
    {A : Type ℓ} (p : A → Bool) (xs : List A) → (any p xs ≡ false) ↔ All (λ x. p x ≡ false) xs
any-All p [] = (λ h. tt, λ h. refl)
any-All p (x ∷ xs) = ground (arith, any-All p xs)

module _ {R : Type 0} (i : DungeonInstance R) where
  -- The answer is true exactly when the dungeon runs, somebody is in it, every participant is in the
  -- last room of the template, and every room is cleared. Then the dungeon is finished, and nothing
  -- else about it changes; otherwise nothing changes at all.
  pub try_finish_if_cleared_iff :
      let final = final_room_id i.dungeon_template.rooms in
      let after = try_finish_if_cleared i in
      ((after.1 ≡ true) ↔ (
        (i.state ≡ DungeonState.running)
        × (0 < size i.players)
        × All (λ e. e.1.room_id != final ≡ false) i.players
        × All (λ e. not (is_cleared e.1) ≡ false) i.rooms))
      × (after.0 ≡ (if after.1 then record i { state = DungeonState.finished } else i))
  unfolding try_finish_if_cleared finish
  try_finish_if_cleared_iff =
      let final = final_room_id i.dungeon_template.rooms in
      let there = any-All (λ (e : ℕ × PlayerState R). e.1.room_id != final) i.players in
      let cleared = any-All (λ (e : ℕ × RoomState R). not (is_cleared e.1)) i.rooms in
      (ground (arith, there, cleared), ground arith)

abbrev pub rank : DungeonState → ℕ
rank DungeonState.waiting = 0
rank DungeonState.running = 1
rank DungeonState.finished = 2

-- The calls that move a dungeon on.
abbrev pub is_progress : {R : Type 0} → Call R → Bool
is_progress begin = true
is_progress advance = true
is_progress complete = true
is_progress try_complete = true
is_progress (portal session) = true
is_progress _ = false

module _ {R : Type 0} where
  remove_expired-state :
      (now grace : ℕ) (m : Map ℕ ℕ) (i : DungeonInstance R)
      → (remove_expired now grace m i).0.state ≡ i.state
  unfolding remove_expired remove_session
  remove_expired-state now grace [] i = refl
  remove_expired-state now grace ((session, since) ∷ m) i =
      elim (Bool-cases (ltb now since || ltb (now - since) grace)) [
        | inl stays ↦ rw (stays) (remove_expired-state now grace m i)
        | inr expired ↦ rw (expired) (remove_expired-state now grace m (remove_session i session))
      ]

  reconnect_participant-state :
      (i : DungeonInstance R) (player new now grace : ℕ)
      → (reconnect_participant i player new now grace).0.state ≡ i.state
  unfolding reconnect_participant
  reconnect_participant-state i player new now grace = ground arith

  rollback_participant_reconnect-state :
      (i : DungeonInstance R) (player new : ℕ) (r : Reconnected)
      → (rollback_participant_reconnect i player new r).0.state ≡ i.state
  unfolding rollback_participant_reconnect
  rollback_participant_reconnect-state i player new r = ground arith

module _ {R : Type 0} ⦃f : Float R⦄ (catalog : EnemyCatalog R) where
  step-rank :
      (i : DungeonInstance R) (c : Call R)
      → (rank i.state ≤ rank (step catalog i c).state)
        × ((i.state ≡ DungeonState.finished) → is_progress c ≡ true → step catalog i c ≡ i)
  unfolding step start advance_room_waves finish try_finish_if_cleared bind_participant_player
      disconnect_participant remove_expired_disconnected_participants remove_all_participants
  step-rank i (bind session player) = (ground arith, λ h k. cc)
  step-rank i (disconnect session at) = (ground arith, λ h k. cc)
  step-rank i (reconnect player new now grace) =
      (ground (arith, reconnect_participant-state i player new now grace), λ h k. cc)
  step-rank i (roll_back player new r) =
      (ground (arith, rollback_participant_reconnect-state i player new r), λ h k. cc)
  step-rank i (expire now grace) =
      (ground (arith, remove_expired-state now grace i.disconnected_since i), λ h k. cc)
  step-rank i begin = ground arith
  step-rank i advance = ground arith
  step-rank i complete = ground arith
  step-rank i try_complete = ground arith
  step-rank i empty = (ground arith, λ h k. cc)
  step-rank i (portal session) = elim (try_use_portal-AtPortal catalog i session) [
    | inr (same, _) ↦ ground (arith, same)
    | inl (a, entered) ↦
        let kept = enter_target-state catalog i session a.player a.portal in
        ground (arith, a.runs, entered, kept)
  ]
  step-rank i (act session a) = (ground arith, λ h k. cc)
  step-rank i (hit_enemy room_id id amount) = (ground arith, λ h k. cc)
  step-rank i (hit_obstacle room_id id amount) = (ground arith, λ h k. cc)

  run-monotone :
      (i : DungeonInstance R) (cs : List (Call R)) → rank i.state ≤ rank (run catalog i cs).state
  unfolding run
  run-monotone i [] = omega arith
  run-monotone i (c ∷ cs) = omega (arith, step-rank i c, run-monotone (step catalog i c) cs)

  run_finished :
      (i : DungeonInstance R) (cs : List (Call R))
      → i.state ≡ DungeonState.finished
      → run catalog i (keep_if is_progress cs) ≡ i
  unfolding run
  run_finished i [] h = refl
  run_finished i (c ∷ cs) h = elim (Bool-cases (is_progress c)) [
    | inr other ↦ rw (other) (run_finished i cs h)
    | inl moves ↦
        let same = (step-rank i c).1 h moves in
        rw (moves) (ap (λ j. run catalog j (keep_if is_progress cs)) same ∙ run_finished i cs h)
  ]

  -- Whatever is called on a dungeon, its players and its rooms, the phases only move forward, from
  -- waiting to running to finished. A finished dungeon is not changed by any starts, waves, portals
  -- and ends.
  pub run-rank :
      (i : DungeonInstance R) (cs : List (Call R))
      → (rank i.state ≤ rank (run catalog i cs).state)
        × ((i.state ≢ DungeonState.finished) ⊎ (run catalog i (keep_if is_progress cs) ≡ i))
  run-rank i cs = (
    run-monotone i cs,
    elim (Bool-cases (rank i.state == 2)) [
      | inl done ↦ inr (run_finished i cs (ground arith))
      | inr going ↦ inl (ground arith)
    ],
  )
