-- ===== src/DungeonCatalog/PortalTargets.antt =====
-- However a dungeon of the catalog goes on, its portals lead to rooms that it has.
use dnf_mock_server_client.Dungeon.Calls.{
  Call, bind, disconnect, reconnect, roll_back, expire, begin, advance, complete, try_complete,
  empty, portal, act, hit_enemy, hit_obstacle, step, run,
}
use dnf_mock_server_client.Room.{apply_enemy_damage, apply_obstacle_damage}
use dnf_mock_server_client.DungeonCatalog.Housed.{
  bind_participant_player-Furnished, disconnect_participant-Furnished,
  reconnect_participant-Furnished, rollback_participant_reconnect-Furnished,
  remove_expired_disconnected_participants-Furnished, remove_all_participants-Furnished,
  act-Furnished, change_room-Furnished,
}
use dnf_mock_server_client.Prelude.{
  ℕ, nat_eq, ◌≡◌, refl, subst, List, [], ◌∷◌, arith, ◌≢◌, Distinct, false, ◌<◌, length, ◌≤◌,
}
use dnf_mock_server_client.Prelude.Except.{ok}
use dnf_mock_server_client.Prelude.{elem}
use dnf_mock_server_client.Float.{Float}
use dnf_mock_server_client.EnemyCatalog.{EnemyCatalog}
use dnf_mock_server_client.Dungeon.{DungeonInstance, DungeonState, DungeonTemplate}
use dnf_mock_server_client.Dungeon.Progress.{
  start_wave_in, advance_rooms, try_use_portal, UsePortalResult, advance_room_waves, finish, start,
  try_finish_if_cleared, first_room_id, occupied_rooms,
}
use dnf_mock_server_client.DungeonCatalog.Accepted.{IsDungeonTemplate}
use dnf_mock_server_client.Prelude.{Distinct, sym, ◌≤◌, ◌<◌, length}
use dnf_mock_server_client.Party.{max_party_members}
use dnf_mock_server_client.Dungeon.{new_instance}
use dnf_mock_server_client.DungeonCatalog.Instances.{new_instance-IsDungeonTemplate}
use dnf_mock_server_client.DungeonCatalog.Furnished.{
  Furnished, refurnished, try_use_portal-Furnished, room_at-start_wave_in, room_at-advance_rooms,
}

module _ {R : Type 0} ⦃f : Float R⦄ (enemies : EnemyCatalog R) where
  module _ (i : DungeonInstance R) (v : Furnished enemies i) where
    start-Furnished : Furnished enemies (start enemies i).0
    unfolding start
    start-Furnished =
        let first = first_room_id i.dungeon_template.rooms in
        ground (
          arith,
          v,
          refurnished enemies i v (start_wave_in enemies first i.rooms).0 DungeonState.running
              (λ k. room_at-start_wave_in enemies k first i.rooms),
        )

    advance_room_waves-Furnished : Furnished enemies (advance_room_waves enemies i).0
    unfolding advance_room_waves
    advance_room_waves-Furnished =
        let ids = occupied_rooms i.disconnected_since i.players in
        ground (
          arith,
          v,
          refurnished enemies i v (advance_rooms enemies ids i.rooms).0 i.state
              (λ k. room_at-advance_rooms enemies k ids i.rooms),
        )

    finish-Furnished : Furnished enemies (finish i).0
    unfolding finish
    finish-Furnished =
        ground (arith, v, refurnished enemies i v i.rooms DungeonState.finished (λ k. refl))

    try_finish_if_cleared-Furnished : Furnished enemies (try_finish_if_cleared i).0
    unfolding try_finish_if_cleared
    try_finish_if_cleared-Furnished = ground (arith, v, finish-Furnished)

  step-Furnished :
      (i : DungeonInstance R) (c : Call R)
      → Furnished enemies i
      → Furnished enemies (step enemies i c)
  unfolding step
  step-Furnished i (bind session player) v =
      bind_participant_player-Furnished enemies i v session player
  step-Furnished i (disconnect session at) v =
      disconnect_participant-Furnished enemies i v session at
  step-Furnished i (reconnect player new now grace) v =
      reconnect_participant-Furnished enemies i v player new now grace
  step-Furnished i (roll_back player new r) v =
      rollback_participant_reconnect-Furnished enemies i v player new r
  step-Furnished i (expire now grace) v =
      remove_expired_disconnected_participants-Furnished enemies i v now grace
  step-Furnished i begin v = start-Furnished i v
  step-Furnished i advance v = advance_room_waves-Furnished i v
  step-Furnished i complete v = finish-Furnished i v
  step-Furnished i try_complete v = try_finish_if_cleared-Furnished i v
  step-Furnished i empty v = remove_all_participants-Furnished enemies i v
  step-Furnished i (portal session) v = (try_use_portal-Furnished enemies i v session).0
  step-Furnished i (act session a) v = act-Furnished enemies i v session a
  step-Furnished i (hit_enemy room_id id amount) v =
      change_room-Furnished enemies i v (λ r. (apply_enemy_damage r id amount).0)
        (λ r. unfold apply_enemy_damage in refl) room_id
  step-Furnished i (hit_obstacle room_id id amount) v =
      change_room-Furnished enemies i v (λ r. (apply_obstacle_damage r id amount).0)
        (λ r. unfold apply_obstacle_damage in refl) room_id

  run-Furnished :
      (i : DungeonInstance R) (cs : List (Call R))
      → Furnished enemies i
      → Furnished enemies (run enemies i cs)
  unfolding run
  run-Furnished i [] v = v
  run-Furnished i (c ∷ cs) v = run-Furnished (step enemies i c) cs (step-Furnished i c v)

  -- In a dungeon that the constructor makes from a template that is fit to be played, for one to
  -- four distinct sessions other than 0, and whose ids are not 0, a portal always leads somewhere:
  -- whatever was called on the dungeon, its players and its rooms, no player is told that the target
  -- room was not found.
  pub try_use_portal-target :
      (dungeon_id : ℕ) (t : DungeonTemplate R) (party_id : ℕ) (participants : List ℕ) (now : ℕ)
      (i : DungeonInstance R) (cs : List (Call R)) (session : ℕ)
      → IsDungeonTemplate enemies t
      → Distinct participants
      → elem 0 participants ≡ false
      → (0 < dungeon_id) × (0 < party_id)
      → (0 < length participants) × (length participants ≤ max_party_members)
      → new_instance dungeon_id t party_id participants now ≡ ok i
      → (try_use_portal enemies (run enemies i cs) session).1
        ≢ ok UsePortalResult.target_room_not_found
  try_use_portal-target dungeon_id t party_id participants now i cs session v d z named few made =
      let (j, again, template, rooms, players) =
        new_instance-IsDungeonTemplate enemies dungeon_id t party_id participants now v named.0
          named.1 d z few.0 few.1 in
      let same : j ≡ i = ground arith in
      let w : Furnished enemies j = record {
        fit = subst (IsDungeonTemplate enemies) (sym template) v;
        rooms = λ k. ground (arith, rooms k);
        players = λ s p h. ground (arith, players s p);
      } in
      (try_use_portal-Furnished enemies (run enemies i cs)
        (run-Furnished i cs (subst (Furnished enemies) same w)) session).1
