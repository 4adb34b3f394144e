-- ===== src/Dungeon/Membership/Others.antt =====
-- The calls that change players and rooms leave the tables of the participants in agreement.
use dnf_mock_server_client.Prelude.{ℕ, nat_eq, ◌≡◌, inl, inr, some, arith, Option-cases}
use dnf_mock_server_client.Map.{Map, find, assign}
use dnf_mock_server_client.Map.Laws.{find-assign}
use dnf_mock_server_client.Map.Size.{assign-IsMap}
use dnf_mock_server_client.Float.{Float}
use dnf_mock_server_client.Geometry.{PortalTemplate}
use dnf_mock_server_client.EnemyCatalog.{EnemyCatalog}
use dnf_mock_server_client.Room.{RoomState}
use dnf_mock_server_client.Player.{PlayerState, enter_room}
use dnf_mock_server_client.Dungeon.{DungeonInstance, DungeonState}
use dnf_mock_server_client.Dungeon.Membership.Invariant.{Inv}
use dnf_mock_server_client.Dungeon.Progress.{
  start_wave_in, first_room_id, advance_rooms, occupied_rooms, start, finish, advance_room_waves,
  try_finish_if_cleared, try_use_portal, enter_target,
}
use dnf_mock_server_client.Dungeon.Progress.Portals.{try_use_portal-AtPortal}
use dnf_mock_server_client.Dungeon.Calls.{
  Act, after_act, after_act-kept, change_player, change_room, change_player-cases,
  change_room-cases,
}

module _ {R : Type 0} (i : DungeonInstance R) (v : Inv i) where
  -- Another state of the dungeon and of its rooms.
  with_rooms :
      (rooms : Map ℕ (RoomState R)) (state : DungeonState)
      → Inv (record i { rooms = rooms; state = state })
  with_rooms rooms state = record {
    listed = v.listed;
    distinct = v.distinct;
    positive = v.positive;
    few = v.few;
    own = v.own;
    agree = v.agree;
    bound_here = v.bound_here;
    away_here = v.away_here;
    players_map = v.players_map;
    away_map = v.away_map;
  }

  -- Another state of one player, which knows its session still.
  with_player :
      (session : ℕ) (p q : PlayerState R)
      → find session i.players ≡ some p
      → q.session_id ≡ p.session_id
      → Inv (record i { players = assign session q i.players })
  with_player session p q found same = record {
    listed = λ s. ground (arith, find-assign session s q i.players, v.listed s);
    distinct = v.distinct;
    positive = ground (arith, find-assign session 0 q i.players, v.positive);
    few = v.few;
    own = λ s r h. ground (arith, find-assign session s q i.players, v.own s r, v.own session p);
    agree = v.agree;
    bound_here = λ s h. ground (arith, find-assign session s q i.players, v.bound_here s);
    away_here = λ s h. ground (arith, find-assign session s q i.players, v.away_here s);
    players_map = assign-IsMap session q i.players v.players_map;
    away_map = v.away_map;
  }

  pub change_room-Inv :
      (g : RoomState R → RoomState R) (room_id : ℕ) → Inv (change_room g room_id i)
  change_room-Inv g room_id = elim (change_room-cases g room_id i) [
    | inl same ↦ rw same v
    | inr (r, found, changed) ↦ rw changed (with_rooms (assign room_id (g r) i.rooms) i.state)
  ]

module _ {R : Type 0} ⦃f : Float R⦄ (i : DungeonInstance R) (v : Inv i) where
  pub act-Inv : (session : ℕ) (a : Act R) → Inv (change_player (after_act a) session i)
  act-Inv session a = elim (change_player-cases (after_act a) session i) [
    | inl same ↦ rw same v
    | inr (p, found, changed) ↦
        rw changed (with_player i v session p (after_act a p) found (after_act-kept a p).0)
  ]

module _ {R : Type 0} (catalog : EnemyCatalog R) (i : DungeonInstance R) (v : Inv i) where
  pub start-Inv : Inv (start catalog i).0
  unfolding start
  start-Inv = ground (
    arith,
    v,
    with_rooms i v (start_wave_in catalog (first_room_id i.dungeon_template.rooms) i.rooms).0
        DungeonState.running,
  )

  pub advance_room_waves-Inv : Inv (advance_room_waves catalog i).0
  unfolding advance_room_waves
  advance_room_waves-Inv =
      let advanced =
        advance_rooms catalog (occupied_rooms i.disconnected_since i.players) i.rooms in
      ground (arith, v, with_rooms i v advanced.0 i.state)

module _ {R : Type 0} ⦃f : Float R⦄ (catalog : EnemyCatalog R) (i : DungeonInstance R)
    (v : Inv i) where
  enter_target-Inv :
      (session : ℕ) (p : PlayerState R) (portal : PortalTemplate R)
      → find session i.players ≡ some p
      → Inv (enter_target catalog i session p portal).0
  unfolding enter_target
  enter_target-Inv session p portal found =
      elim (Option-cases (find portal.target_room_id i.rooms)) [
        | inl missing ↦ ground (arith, v)
        | inr (target, there) ↦
            let q = (enter_room p target portal.target_position).0 in
            let same : q.session_id ≡ p.session_id = unfold enter_room in ground arith in
            let w = with_player i v session p q found same in
            let rooms = (start_wave_in catalog portal.target_room_id i.rooms).0 in
            ground (
              arith,
              v,
              with_rooms (record i { players = assign session q i.players }) w rooms i.state,
            )
      ]

  pub try_use_portal-Inv : (session : ℕ) → Inv (try_use_portal catalog i session).0
  try_use_portal-Inv session = elim (try_use_portal-AtPortal catalog i session) [
    | inr (same, _) ↦ rw same v
    | inl (a, entered) ↦ rw entered (enter_target-Inv session a.player a.portal a.found)
  ]

module _ {R : Type 0} (i : DungeonInstance R) (v : Inv i) where
  pub finish-Inv : Inv (finish i).0
  unfolding finish
  finish-Inv = ground (arith, v, with_rooms i v i.rooms DungeonState.finished)

  pub try_finish_if_cleared-Inv : Inv (try_finish_if_cleared i).0
  unfolding try_finish_if_cleared
  try_finish_if_cleared-Inv = ground (arith, v, finish-Inv)
