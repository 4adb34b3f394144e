-- ===== src/Dungeon/Progress/Portals.antt =====
-- A player who uses a portal.
use dnf_mock_server_client.Prelude.{
  ℕ, nat_eq, ◌<◌, ◌≡◌, sym, ap, ◌∙◌, ◌≢◌, ◌⊎◌, inl, inr, true, ◌&&◌, not, some, List, [], ◌∷◌,
  arith, ◌==◌, if◌then◌else◌, Bool-cases, Option-cases,
}
use dnf_mock_server_client.Prelude.Except.{ok}
use dnf_mock_server_client.Map.{find}
use dnf_mock_server_client.Map.Laws.{find-assign}
use dnf_mock_server_client.Float.{Float}
use dnf_mock_server_client.Geometry.{PortalTemplate, RoomTemplate, is_inside_collision_box}
use dnf_mock_server_client.EnemyCatalog.{EnemyCatalog}
use dnf_mock_server_client.Room.{RoomState, is_cleared, PositionCheckResult, check_position}
use dnf_mock_server_client.Player.{PlayerState, enter_room, to_move_player_result}
use dnf_mock_server_client.Dungeon.{DungeonInstance, DungeonState}
use dnf_mock_server_client.Dungeon.Progress.{
  UsePortalResult, is_running, find_player, find_room, find_template, find_portal, enter_target,
  try_use_portal,
}

module _ {R : Type 0} ⦃f : Float R⦄ where
  -- One of the portals of the list.
  abbrev pub Among : PortalTemplate R → List (PortalTemplate R) → Type 0
  Among portal [] = ⊥
  Among portal (x ∷ xs) = (x ≡ portal) ⊎ Among portal xs

  find_portal-some :
      (p : PlayerState R) (portals : List (PortalTemplate R)) (portal : PortalTemplate R)
      → find_portal p portals ≡ some portal
      → (is_inside_collision_box portal.trigger_area p.position ≡ true) × Among portal portals
  unfolding find_portal
  find_portal-some p [] portal e = cc
  find_portal-some p (x ∷ xs) portal e =
      elim (Bool-cases (is_inside_collision_box x.trigger_area p.position)) [
        | inl inside ↦ (ground arith, inl (ground arith))
        | inr outside ↦
            let (inside, among) = find_portal-some p xs portal (ground arith) in (inside, inr among)
      ]

  -- The player, its room, and a portal of that room that holds it and is open.
  pub record AtPortal (i : DungeonInstance R) (session : ℕ) : Type 0 where
    pub player : PlayerState R
    pub room : RoomState R
    pub template_of_room : RoomTemplate R
    pub portal : PortalTemplate R
    pub runs : i.state ≡ DungeonState.running
    pub found : find session i.players ≡ some player
    pub in_room : find player.room_id i.rooms ≡ some room
    pub described : find_template player.room_id i.dungeon_template.rooms ≡ some template_of_room
    pub among : Among portal template_of_room.portals
    pub inside : is_inside_collision_box portal.trigger_area player.position ≡ true
    pub unlocked : portal.requires_room_clear ≡ true → is_cleared room ≡ true

  pub try_use_portal-AtPortal :
      (catalog : EnemyCatalog R) (i : DungeonInstance R) (session : ℕ)
      → ((a : AtPortal i session) × (try_use_portal catalog i session
            ≡ enter_target catalog i session a.player a.portal))
        ⊎ (((try_use_portal catalog i session).0 ≡ i)
            × ((try_use_portal catalog i session).1 ≢ ok UsePortalResult.success))
  unfolding try_use_portal
  try_use_portal-AtPortal catalog i session = elim (Bool-cases (is_running i.state)) [
    | inr idle ↦ inr (ground arith, ground arith)
    | inl runs ↦ elim (Option-cases (find session i.players)) [
      | inl missing ↦ inr (ground arith, ground arith)
      | inr (p, found) ↦ elim (Option-cases (find p.room_id i.rooms)) [
        | inl missing ↦ inr (ground arith, ground arith)
        | inr (room, in_room) ↦
            elim (Option-cases (find_template p.room_id i.dungeon_template.rooms)) [
              | inl missing ↦ inr (ground arith, ground arith)
              | inr (t, described) ↦ elim (Option-cases (find_portal p t.portals)) [
                | inl missing ↦ inr (ground arith, ground arith)
                | inr (portal, held) ↦
                    elim (Bool-cases (portal.requires_room_clear && not (is_cleared room))) [
                      | inl closed ↦ inr (ground arith, ground arith)
                      | inr free ↦ inl (
                        record {
                          player = p;
                          room = room;
                          template_of_room = t;
                          portal = portal;
                          runs = ground arith;
                          found = found;
                          in_room = in_room;
                          described = described;
                          among = (find_portal-some p t.portals portal held).1;
                          inside = (find_portal-some p t.portals portal held).0;
                          unlocked = ground arith;
                        },
                        ground arith,
                      )
                    ]
              ]
            ]
      ]
    ]
  ]

  pub enter_target-state :
      (catalog : EnemyCatalog R) (i : DungeonInstance R) (session : ℕ) (p : PlayerState R)
      (portal : PortalTemplate R)
      → (enter_target catalog i session p portal).0.state ≡ i.state
  unfolding enter_target
  enter_target-state catalog i session p portal =
      elim (Option-cases (find portal.target_room_id i.rooms)) [
        | inl missing ↦ ground arith
        | inr (target, found) ↦ ground arith
      ]

  enter_target-success :
      (catalog : EnemyCatalog R) (i : DungeonInstance R) (session : ℕ) (p : PlayerState R)
      (portal : PortalTemplate R)
      → (enter_target catalog i session p portal).1 ≡ ok UsePortalResult.success
      → (target : RoomState R) × (find_room i portal.target_room_id ≡ some target)
        × (0 < p.current_hp)
        × (check_position target portal.target_position ≡ PositionCheckResult.valid)
        × ((s : ℕ)
            → find_player (enter_target catalog i session p portal).0 s ≡ (
                if session == s
                then some (record p {
                  room_id = target.room_template.id;
                  position = portal.target_position;
                })
                else find_player i s))
  unfolding enter_target enter_room to_move_player_result find_player find_room
  enter_target-success catalog i session p portal e =
      elim (Option-cases (find portal.target_room_id i.rooms)) [
        | inl missing ↦ absurd (ground arith)
        | inr (target, found) ↦ (
          target,
          found,
          ground arith,
          ground arith,
          λ s. ground (
            arith,
            find-assign session s
                (record p { room_id = target.room_template.id; position = portal.target_position })
                i.players,
          ),
        )
      ]

  -- A portal is used only while the dungeon runs, by a living player inside the trigger area of a
  -- portal of its room, which must be cleared if the portal wants that; then the player stands in the
  -- target room, at a valid position, and no other player moves.
  pub try_use_portal-success :
      (catalog : EnemyCatalog R) (i : DungeonInstance R) (session : ℕ)
      → (try_use_portal catalog i session).1 ≡ ok UsePortalResult.success
      → (a : AtPortal i session) × (target : RoomState R) × (find_room i a.portal.target_room_id
          ≡ some target)
        × (0 < a.player.current_hp)
        × (check_position target a.portal.target_position ≡ PositionCheckResult.valid)
        × ((s : ℕ)
            → find_player (try_use_portal catalog i session).0 s ≡ (
                if session == s
                then some (record a.player {
                  room_id = target.room_template.id;
                  position = a.portal.target_position;
                })
                else find_player i s))
  try_use_portal-success catalog i session e = elim (try_use_portal-AtPortal catalog i session) [
    | inr (_, failed) ↦ absurd (failed e)
    | inl (a, same) ↦
        let (target, found, alive, valid, players) =
          enter_target-success catalog i session a.player a.portal (sym (ap (λ t. t.1) same) ∙ e) in
        (a, target, found, alive, valid, λ s. ap (λ t. find_player t.0 s) same ∙ players s)
  ]
