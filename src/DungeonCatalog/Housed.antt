-- ===== src/DungeonCatalog/Housed.antt =====
-- Whoever comes and goes, and whatever happens to players and rooms, the players of a dungeon are in
-- rooms of its template, and it has these rooms.
use dnf_mock_server_client.Prelude.{
  ℕ, nat_eq, ◌-◌, ◌≡◌, refl, sym, ap, ◌∙◌, ◌⊎◌, inl, inr, true, ◌||◌, some, List, [], ◌∷◌, arith,
  ltb, leb, ◌==◌, Bool-cases, Option-cases,
}
use dnf_mock_server_client.Map.{Map, find, contains, assign, erase}
use dnf_mock_server_client.Map.Laws.{find-assign, find-emplace, find-erase}
use dnf_mock_server_client.Prelude.{elem}
use dnf_mock_server_client.Float.{Float}
use dnf_mock_server_client.EnemyCatalog.{EnemyCatalog}
use dnf_mock_server_client.Room.{RoomState}
use dnf_mock_server_client.Player.{PlayerState, rebind_session}
use dnf_mock_server_client.Dungeon.{DungeonInstance}
use dnf_mock_server_client.Dungeon.Membership.{
  Reconnected, bind_participant_player, disconnect_participant, reconnect_participant, move_player,
  rollback_participant_reconnect, remove_session, remove_expired,
  remove_expired_disconnected_participants, remove_all_participants,
}
use dnf_mock_server_client.Dungeon.Calls.{
  Act, after_act, after_act-kept, change_player, change_room, change_player-cases,
  change_room-cases,
}
use dnf_mock_server_client.DungeonCatalog.Instances.{room_ids}
use dnf_mock_server_client.DungeonCatalog.Furnished.{Furnished}

module _ {R : Type 0} where
  -- Every player is in one of the rooms.
  abbrev Housed : List ℕ → Map ℕ (PlayerState R) → Type 0
  Housed ids players =
      (s : ℕ) (p : PlayerState R) → find s players ≡ some p → elem p.room_id ids ≡ true

  move_player-Housed :
      (ids : List ℕ) (players : Map ℕ (PlayerState R)) (old new : ℕ)
      → Housed ids players
      → Housed ids (move_player players old new).0
  unfolding move_player rebind_session
  move_player-Housed ids players old new h s q found = elim (Option-cases (find old players)) [
    | inl missing ↦ ground (arith, h s q)
    | inr (p, there) ↦ ground (
      arith,
      find-erase old s players,
      find-emplace new s (record p { session_id = new }) (erase old players),
      h s q,
      h old p there,
    )
  ]

module _ {R : Type 0} ⦃f : Float R⦄ (enemies : EnemyCatalog R) (i : DungeonInstance R)
    (v : Furnished enemies i) where
  -- The same rooms and other players.
  rehoused :
      (j : DungeonInstance R)
      → j.dungeon_template ≡ i.dungeon_template
      → j.rooms ≡ i.rooms
      → Housed (room_ids i.dungeon_template.rooms) j.players
      → Furnished enemies j
  rehoused j template rooms housed = record {
    fit = rw template v.fit;
    rooms = λ k. rw (template, rooms) (v.rooms k);
    players = λ s p h. rw template (housed s p h);
  }

  pub bind_participant_player-Furnished :
      (session player : ℕ) → Furnished enemies (bind_participant_player i session player).0
  unfolding bind_participant_player
  bind_participant_player-Furnished session player =
      rehoused (bind_participant_player i session player).0 (ground arith) (ground arith)
        (λ s p h. v.players s p (ground arith))

  pub disconnect_participant-Furnished :
      (session at : ℕ) → Furnished enemies (disconnect_participant i session at).0
  unfolding disconnect_participant
  disconnect_participant-Furnished session at =
      rehoused (disconnect_participant i session at).0 (ground arith) (ground arith)
        (λ s p h. v.players s p (ground arith))

  pub remove_all_participants-Furnished : Furnished enemies (remove_all_participants i).0
  unfolding remove_all_participants find
  remove_all_participants-Furnished = rehoused (remove_all_participants i).0 refl refl (λ s p h. cc)

  moved :
      (old new : ℕ) (j : DungeonInstance R)
      → j.dungeon_template ≡ i.dungeon_template
      → j.rooms ≡ i.rooms
      → j.players ≡ (move_player i.players old new).0
      → Furnished enemies j
  moved old new j template rooms players =
      let housed =
        move_player-Housed (room_ids i.dungeon_template.rooms) i.players old new v.players in
      rehoused j template rooms (λ s p h. housed s p (ap (λ m. find s m) (sym players) ∙ h))

  pub reconnect_participant-Furnished :
      (player new now grace : ℕ)
      → Furnished enemies (reconnect_participant i player new now grace).0
  unfolding reconnect_participant
  reconnect_participant-Furnished player new now grace =
      let j = (reconnect_participant i player new now grace).0 in
      let same : (j ≡ i) ⊎ ((old : ℕ) × (j.players ≡ (move_player i.players old new).0)) =
        elim (Option-cases (find player i.player_sessions)) [
          | inl unbound ↦ inl (ground arith)
          | inr (old, session) ↦ elim (Option-cases (find old i.disconnected_since)) [
            | inl connected ↦ inl (ground arith)
            | inr (since, lost) ↦
                elim (Bool-cases (
                  player == 0
                  || new == 0
                  || grace == 0
                  || contains new i.players
                  || ltb now since
                  || leb grace (now - since))) [
                    | inl refused ↦ inl (ground arith)
                    | inr free ↦ inr (old, ground arith)
                  ]
          ]
        ] in
      elim same [
        | inl kept ↦ rw kept v
        | inr (old, players) ↦ moved old new j (ground arith) (ground arith) players
      ]

  pub rollback_participant_reconnect-Furnished :
      (player new : ℕ) (r : Reconnected)
      → Furnished enemies (rollback_participant_reconnect i player new r).0
  unfolding rollback_participant_reconnect
  rollback_participant_reconnect-Furnished player new r =
      let j = (rollback_participant_reconnect i player new r).0 in
      let old = r.replaced_session_id in
      let same : (j ≡ i) ⊎ (j.players ≡ (move_player i.players new old).0) = ground arith in
      elim same [
        | inl kept ↦ rw kept v
        | inr players ↦ moved new old j (ground arith) (ground arith) players
      ]

  pub act-Furnished :
      (session : ℕ) (a : Act R) → Furnished enemies (change_player (after_act a) session i)
  act-Furnished session a = elim (change_player-cases (after_act a) session i) [
    | inl same ↦ rw same v
    | inr (p, found, changed) ↦
        let q = after_act a p in
        let put = λ (s : ℕ). find-assign session s q i.players in
        let j : DungeonInstance R = record i { players = assign session q i.players } in
        let w : Furnished enemies j = rehoused j refl refl (λ s r h.
          ground (arith, put s, v.players s r, v.players session p found, after_act-kept a p)) in
        rw changed w
  ]

  pub change_room-Furnished :
      (g : RoomState R → RoomState R)
      → ((r : RoomState R) → (g r).room_template ≡ r.room_template)
      → (room_id : ℕ) → Furnished enemies (change_room g room_id i)
  change_room-Furnished g same_template room_id = elim (change_room-cases g room_id i) [
    | inl same ↦ rw same v
    | inr (r, found, changed) ↦
        let w : Furnished enemies (record i { rooms = assign room_id (g r) i.rooms }) = record {
          fit = v.fit;
          rooms =
              λ k. ground (arith, find-assign room_id k (g r) i.rooms, v.rooms k, same_template r);
          players = v.players;
        } in
        rw changed w
  ]

module _ {R : Type 0} ⦃f : Float R⦄ (enemies : EnemyCatalog R) where
  remove_session-Furnished :
      (i : DungeonInstance R) (session : ℕ)
      → Furnished enemies i
      → Furnished enemies (remove_session i session)
  unfolding remove_session
  remove_session-Furnished i session v =
      rehoused enemies i v (remove_session i session) refl refl
        (λ s p h. ground (arith, find-erase session s i.players, v.players s p))

  remove_expired-Furnished :
      (now grace : ℕ) (m : Map ℕ ℕ) (i : DungeonInstance R)
      → Furnished enemies i
      → Furnished enemies (remove_expired now grace m i).0
  unfolding remove_expired
  remove_expired-Furnished now grace [] i v = v
  remove_expired-Furnished now grace ((session, since) ∷ m) i v =
      elim (Bool-cases (ltb now since || ltb (now - since) grace)) [
        | inl stays ↦ rw (stays) (remove_expired-Furnished now grace m i v)
        | inr expired ↦ rw (expired) (
            remove_expired-Furnished now grace m (remove_session i session)
              (remove_session-Furnished i session v))
      ]

  pub remove_expired_disconnected_participants-Furnished :
      (i : DungeonInstance R) (v : Furnished enemies i) (now grace : ℕ)
      → Furnished enemies (remove_expired_disconnected_participants i now grace).0
  unfolding remove_expired_disconnected_participants
  remove_expired_disconnected_participants-Furnished i v now grace =
      ground (arith, v, remove_expired-Furnished now grace i.disconnected_since i v)
