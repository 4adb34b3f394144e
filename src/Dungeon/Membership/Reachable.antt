-- ===== src/Dungeon/Membership/Reachable.antt =====
-- The instances that calls can reach from the constructor.
use dnf_mock_server_client.Prelude.{
  ℕ, nat_eq, ◌+◌, ◌≤◌, ◌≡◌, refl, subst, inl, inr, true, false, ◌||◌, some, List, [], ◌∷◌, arith,
  length, Distinct, elem, List-cases,
}
use dnf_mock_server_client.Prelude.Except.{ok}
use dnf_mock_server_client.Map.{Map, find, contains, emplace, IsMap, size}
use dnf_mock_server_client.Map.Laws.{find-emplace}
use dnf_mock_server_client.Map.Size.{emplace-IsMap}
use dnf_mock_server_client.Prelude.Except.{Except-cases}
use dnf_mock_server_client.Float.{Float}
use dnf_mock_server_client.Geometry.{RoomTemplate}
use dnf_mock_server_client.Player.{PlayerState, new_player}
use dnf_mock_server_client.Dungeon.{
  DungeonInstance, DungeonTemplate, check_participants, make_rooms, make_players, new_instance,
}
use dnf_mock_server_client.Dungeon.Membership.{
  remove_expired_disconnected_participants, connected_participant_count,
}
use dnf_mock_server_client.EnemyCatalog.{EnemyCatalog}
use dnf_mock_server_client.Room.{apply_enemy_damage, apply_obstacle_damage}
use dnf_mock_server_client.Dungeon.Calls.{
  Call, bind, disconnect, reconnect, roll_back, expire, begin, advance, complete, try_complete,
  empty, portal, act, hit_enemy, hit_obstacle, step,
}
use dnf_mock_server_client.Dungeon.Membership.Others.{
  start-Inv, advance_room_waves-Inv, finish-Inv, try_finish_if_cleared-Inv, try_use_portal-Inv,
  act-Inv, change_room-Inv,
}
use dnf_mock_server_client.Dungeon.Membership.Invariant.{
  Inv, bind_participant_player-Inv, disconnect_participant-Inv, remove_expired-Inv,
  remove_all_participants-Inv,
}
use dnf_mock_server_client.Dungeon.Membership.Reconnect.{
  reconnect_participant-Inv, rollback_participant_reconnect-Inv,
}
use dnf_mock_server_client.Map.Subset.{size_mono, size_le-length}

check_participants-true :
    (seen ss : List ℕ)
    → check_participants seen ss ≡ true
    → Distinct ss × (elem 0 ss ≡ false) × ((a : ℕ) → elem a seen ≡ true → elem a ss ≡ false)
unfolding check_participants
check_participants-true seen [] h = (tt, refl, λ a k. refl)
check_participants-true seen (s ∷ ss) h =
    let (distinct, nonzero, fresh) = check_participants-true (s ∷ seen) ss (ground arith) in
    ((ground (arith, fresh s), distinct), ground arith, λ a k. ground (arith, fresh a))

module _ {R : Type 0} ⦃f : Float R⦄ (room : RoomTemplate R) where
  -- Every player of the table stands under its own session.
  abbrev Own : Map ℕ (PlayerState R) → Type 0
  Own players = (s : ℕ) (p : PlayerState R) → find s players ≡ some p → p.session_id ≡ s

  new_player-session :
      (s : ℕ) (p : PlayerState R)
      → new_player s room.id room.player_spawn 100 100 ≡ ok p
      → p.session_id ≡ s
  unfolding new_player
  new_player-session s p e = ground arith

  make_players-ok :
      (ss : List ℕ) (players m : Map ℕ (PlayerState R))
      → make_players room ss players ≡ ok m
      → IsMap players
      → Own players
      → IsMap m × Own m × ((s : ℕ) → contains s m ≡ (contains s players || elem s ss))
  unfolding make_players
  make_players-ok [] players m e d own =
      let same : players ≡ m = ground arith in
      (subst IsMap same d, λ s p h. own s p (ground arith), λ s. ground arith)
  make_players-ok (s ∷ ss) players m e d own =
      elim (Except-cases (new_player s room.id room.player_spawn 100 100)) [
        | inr (x, failed) ↦ absurd (ground arith)
        | inl (p, made) ↦
            let (d', own', found) =
              make_players-ok ss (emplace s p players) m (ground arith)
                (emplace-IsMap s p players d)
                (λ t q h.
                  ground
                    (arith, find-emplace s t p players, own t q, new_player-session s p made)) in
            (d', own', λ t. ground (arith, found t, find-emplace s t p players))
      ]

abbrev pub empty_players : {R : Type 0} → Map ℕ (PlayerState R)
empty_players = []

module _ {R : Type 0} ⦃f : Float R⦄ where
  pub new_instance-Inv :
      (dungeon_id : ℕ) (t : DungeonTemplate R) (party_id : ℕ) (participants : List ℕ) (now : ℕ)
      (i : DungeonInstance R)
      → new_instance dungeon_id t party_id participants now ≡ ok i
      → Inv i
  unfolding new_instance find
  new_instance-Inv dungeon_id t party_id participants now i e = elim (List-cases t.rooms) [
    | inl missing ↦ absurd (ground arith)
    | inr (first, others, rooms) ↦ elim (Except-cases (make_rooms (first ∷ others) [])) [
      | inr (x, failed) ↦ absurd (ground arith)
      | inl (made, made_rooms) ↦
          elim (Except-cases (make_players first participants empty_players)) [
            | inr (x, failed) ↦ absurd (ground arith)
            | inl (m, made_players) ↦
                let (d, own, found) =
                  make_players-ok first participants [] m made_players tt (λ s p h. cc) in
                let (distinct, nonzero, _) =
                  check_participants-true [] participants (ground arith) in
                record {
                  listed = λ s. ground (arith, found s);
                  distinct = ground (arith, distinct);
                  positive = ground (arith, found 0);
                  few = ground arith;
                  own = λ s p h. own s p (ground arith);
                  agree = λ s q. (λ h. absurd (ground arith), λ h. absurd (ground arith));
                  bound_here = λ s h. absurd (ground arith);
                  away_here = λ s h. absurd (ground arith);
                  players_map = ground (arith, d);
                  away_map = ground arith;
                }
          ]
    ]
  ]

module _ {R : Type 0} ⦃f : Float R⦄ (catalog : EnemyCatalog R) where
  -- A reconnect is rolled back while its session is connected; every other call is free.
  abbrev pub IsOrderly : DungeonInstance R → Call R → Type 0
  IsOrderly i (roll_back player new r) = contains new i.disconnected_since ≡ false
  IsOrderly i _ = Unit

  -- What the calls reach.
  pub data Reaches : DungeonInstance R → Type 0 where
    made :
        (dungeon_id : ℕ) (t : DungeonTemplate R) (party_id : ℕ) (participants : List ℕ) (now : ℕ)
        (i : DungeonInstance R)
        → new_instance dungeon_id t party_id participants now ≡ ok i
        → Reaches i
    called :
        (i : DungeonInstance R) (c : Call R)
        → IsOrderly i c
        → Reaches i
        → Reaches (step catalog i c)

  step-Inv : (i : DungeonInstance R) (c : Call R) → IsOrderly i c → Inv i → Inv (step catalog i c)
  unfolding step remove_expired_disconnected_participants
  step-Inv i (bind session player) o v = bind_participant_player-Inv i v session player
  step-Inv i (disconnect session at) o v = disconnect_participant-Inv i v session at
  step-Inv i (reconnect player new now grace) o v =
      reconnect_participant-Inv i v player new now grace
  step-Inv i (roll_back player new r) o v = rollback_participant_reconnect-Inv i v player new r o
  step-Inv i (expire now grace) o v =
      ground (arith, v, remove_expired-Inv now grace i.disconnected_since i v)
  step-Inv i begin o v = start-Inv catalog i v
  step-Inv i advance o v = advance_room_waves-Inv catalog i v
  step-Inv i complete o v = finish-Inv i v
  step-Inv i try_complete o v = try_finish_if_cleared-Inv i v
  step-Inv i empty o v = remove_all_participants-Inv i v
  step-Inv i (portal session) o v = try_use_portal-Inv catalog i v session
  step-Inv i (act session a) o v = act-Inv i v session a
  step-Inv i (hit_enemy room_id id amount) o v =
      change_room-Inv i v (λ r. (apply_enemy_damage r id amount).0) room_id
  step-Inv i (hit_obstacle room_id id amount) o v =
      change_room-Inv i v (λ r. (apply_obstacle_damage r id amount).0) room_id

  -- In every instance that calls on the dungeon, its players and its rooms reach from the
  -- constructor, where a reconnect is rolled back only while its session is connected: the list of
  -- participants has at most four entries, without repetition, and is the list of the sessions with
  -- a player, each of which knows its session; sessions and bound players determine each other; and
  -- only participants are bound or disconnected.
  pub Reaches-Inv : (i : DungeonInstance R) → Reaches i → Inv i
  Reaches-Inv _ (made dungeon_id t party_id participants now i e) =
      new_instance-Inv dungeon_id t party_id participants now i e
  Reaches-Inv _ (called i c o r) = step-Inv i c o (Reaches-Inv i r)

-- In an instance that satisfies the invariant, the count of the connected participants does not
-- wrap: with the disconnected ones it makes the number of the players.
pub connected_participant_count_lem :
    {R : Type 0} (i : DungeonInstance R)
    → Inv i
    → connected_participant_count i + size i.disconnected_since ≡ size i.players
unfolding connected_participant_count
connected_participant_count_lem i v =
    let fewer : size i.disconnected_since ≤ size i.players =
      size_mono i.disconnected_since i.players v.away_map v.players_map v.away_here in
    let few : size i.players ≤ length i.participants =
      size_le-length i.players i.participants v.players_map v.distinct
        (λ k h. ground (arith, v.listed k)) in
    omega (arith, v.few)
