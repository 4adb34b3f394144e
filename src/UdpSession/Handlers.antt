-- ===== src/UdpSession/Handlers.antt =====
-- Every handler and every call of the session keeps its invariant.
use dnf_mock_server_client.Prelude.{
  ℕ, nat_eq, ◌+◌, ◌<◌, ◌≡◌, refl, ap, subst, ◌≢◌, inl, inr, true, some, List, [], ◌∷◌, ◌++◌, arith,
  ltb, if◌then◌else◌, is_some, Eq, Bool-cases, Option-cases, length, All, length-append, All-append,
  List-cases,
}
use dnf_mock_server_client.Map.{Map, find, contains, assign, emplace, erase, IsMap}
use dnf_mock_server_client.Map.Laws.{find-assign, find-emplace, find-erase}
use dnf_mock_server_client.Map.Size.{emplace-IsMap, erase-IsMap}
use dnf_mock_server_client.UdpMessages.{
  PlayerMovementMessage, PlayerAttackMessage, UdpHelloMessage, UdpHeartbeatMessage,
  AuthenticatedPlayerMovement, AuthenticatedPlayerAttack, Decoders,
}
use dnf_mock_server_client.UdpSession.{
  UdpSession, max_pending_dungeon_movements, max_pending_dungeon_attacks, session_of, refresh_each,
  remove_participant_runtime_state, replace_participant, remove_participant, refresh_all_activity,
  remove_inactive, try_pop_movement, try_pop_attack, handle_hello, handle_heartbeat,
  handle_player_movement, handle_player_attack, receive_heartbeat, receive_attack, receive_movement,
  handle_receive,
}
use dnf_mock_server_client.UdpSession.Invariant.{
  Inv, All-mono, remove_participant_runtime_state-Inv, retoken,
}

module _ {E : Type 0} ⦃e : Eq E⦄ where
  -- The session that a sender is taken for has the sender's endpoint.
  pub find-session_of :
      (sender : E) (m : Map ℕ E)
      → IsMap m
      → session_of sender m ≢ 0
      → find (session_of sender m) m ≡ some sender
  unfolding session_of find
  find-session_of sender [] d h = absurd (h refl)
  find-session_of sender ((s, endpoint) ∷ m) (fresh, d) h =
      ground (arith, e.beq_iff endpoint sender, find-session_of sender m d)

find-refresh_each :
    {E : Type 0} (now j : ℕ) (m : Map ℕ E) (activity : Map ℕ ℕ)
    → find j (refresh_each now m activity) ≡ (if contains j m then some now else find j activity)
unfolding refresh_each find
find-refresh_each now j [] activity = refl
find-refresh_each now j ((s, endpoint) ∷ m) activity =
    ground (arith, find-refresh_each now j m (assign s now activity), find-assign s j now activity)

module _ {E R : Type 0} (u : UdpSession E R) (v : Inv u) where
  -- A session with an endpoint may get a new activity.
  touch :
      (s now : ℕ)
      → contains s u.endpoints ≡ true
      → Inv (record u { last_activity = assign s now u.last_activity })
  touch s now h = record {
    tokens_map = v.tokens_map;
    endpoints_map = v.endpoints_map;
    registered = v.registered;
    active = λ k. ground (arith, find-assign s k now u.last_activity, v.active k);
    moved = v.moved;
    attacked = v.attacked;
    movements_from = v.movements_from;
    attacks_from = v.attacks_from;
    movements_bounded = v.movements_bounded;
    attacks_bounded = v.attacks_bounded;
  }

  register :
      (s now : ℕ) (sender : E)
      → contains s u.tokens ≡ true
      → Inv (record u {
        endpoints = emplace s sender u.endpoints;
        last_activity = assign s now u.last_activity;
      })
  register s now sender h =
      let found : (k : ℕ)
          → contains k u.endpoints ≡ true
          → contains k (emplace s sender u.endpoints) ≡ true =
        λ k had. ground (arith, find-emplace s k sender u.endpoints) in
      record {
        tokens_map = v.tokens_map;
        endpoints_map = emplace-IsMap s sender u.endpoints v.endpoints_map;
        registered = λ k had. ground (arith, find-emplace s k sender u.endpoints, v.registered k);
        active = λ k. ground (
          arith,
          find-emplace s k sender u.endpoints,
          find-assign s k now u.last_activity,
          v.active k,
        );
        moved = λ k had. found k (v.moved k had);
        attacked = λ k had. found k (v.attacked k had);
        movements_from = All-mono u.pending_movements (λ m. found m.session_id) v.movements_from;
        attacks_from = All-mono u.pending_attacks (λ a. found a.session_id) v.attacks_from;
        movements_bounded = v.movements_bounded;
        attacks_bounded = v.attacks_bounded;
      }

  push_movement :
      (s : ℕ) (movement : PlayerMovementMessage R)
      → contains s u.endpoints ≡ true
      → length u.pending_movements < max_pending_dungeon_movements
      → Inv (record u {
        last_movement_sequences = assign s movement.sequence u.last_movement_sequences;
        pending_movements =
            u.pending_movements ++ record { session_id = s; movement = movement } ∷ [];
      })
  push_movement s movement h room =
      let entry : AuthenticatedPlayerMovement R = record { session_id = s; movement = movement } in
      record {
        tokens_map = v.tokens_map;
        endpoints_map = v.endpoints_map;
        registered = v.registered;
        active = v.active;
        moved = λ k had.
            ground (arith, find-assign s k movement.sequence u.last_movement_sequences, v.moved k);
        attacked = v.attacked;
        movements_from =
            All-append (λ m. contains m.session_id u.endpoints ≡ true) u.pending_movements
              (entry ∷ []) (v.movements_from, (h, tt));
        attacks_from = v.attacks_from;
        movements_bounded = omega (arith, length-append u.pending_movements (entry ∷ []));
        attacks_bounded = v.attacks_bounded;
      }

  push_attack :
      (s : ℕ) (attack : PlayerAttackMessage R)
      → contains s u.endpoints ≡ true
      → length u.pending_attacks < max_pending_dungeon_attacks
      → Inv (record u {
        last_attack_sequences = assign s attack.sequence u.last_attack_sequences;
        pending_attacks = u.pending_attacks ++ record { session_id = s; attack = attack } ∷ [];
      })
  push_attack s attack h room =
      let entry : AuthenticatedPlayerAttack R = record { session_id = s; attack = attack } in
      record {
        tokens_map = v.tokens_map;
        endpoints_map = v.endpoints_map;
        registered = v.registered;
        active = v.active;
        moved = v.moved;
        attacked = λ k had.
            ground (arith, find-assign s k attack.sequence u.last_attack_sequences, v.attacked k);
        movements_from = v.movements_from;
        attacks_from =
            All-append (λ a. contains a.session_id u.endpoints ≡ true) u.pending_attacks
              (entry ∷ []) (v.attacks_from, (h, tt));
        movements_bounded = v.movements_bounded;
        attacks_bounded = omega (arith, length-append u.pending_attacks (entry ∷ []));
      }

  pub replace_participant-Inv : (s t token : ℕ) → Inv (replace_participant u s t token).0
  unfolding replace_participant
  replace_participant-Inv s t token =
      let cleared = remove_participant_runtime_state u s in
      let moved : Inv (record cleared { tokens = emplace t token (erase s u.tokens) }) =
        retoken cleared (remove_participant_runtime_state-Inv u v s)
          (emplace t token (erase s u.tokens))
          (emplace-IsMap t token (erase s u.tokens) (erase-IsMap s u.tokens v.tokens_map))
          (λ k h. ground (
            arith,
            find-emplace t k token (erase s u.tokens),
            find-erase s k u.tokens,
            find-erase s k u.endpoints,
            v.registered k,
          )) in
      ground (arith, v, moved)

  pub remove_participant-Inv : (s : ℕ) → Inv (remove_participant u s).0
  unfolding remove_participant
  remove_participant-Inv s =
      let cleared = remove_participant_runtime_state u s in
      let removed : Inv (record cleared { tokens = erase s u.tokens }) =
        retoken cleared (remove_participant_runtime_state-Inv u v s) (erase s u.tokens)
          (erase-IsMap s u.tokens v.tokens_map)
          (λ k h.
            ground (arith, find-erase s k u.tokens, find-erase s k u.endpoints, v.registered k)) in
      ground (arith, v, removed)

  pub refresh_all_activity-Inv : (now : ℕ) → Inv (refresh_all_activity u now)
  unfolding refresh_all_activity
  refresh_all_activity-Inv now = record {
    tokens_map = v.tokens_map;
    endpoints_map = v.endpoints_map;
    registered = v.registered;
    active = λ k. ground (arith, find-refresh_each now k u.endpoints u.last_activity, v.active k);
    moved = v.moved;
    attacked = v.attacked;
    movements_from = v.movements_from;
    attacks_from = v.attacks_from;
    movements_bounded = v.movements_bounded;
    attacks_bounded = v.attacks_bounded;
  }

  pub try_pop_movement-Inv : Inv (try_pop_movement u).0
  unfolding try_pop_movement
  try_pop_movement-Inv = elim (List-cases u.pending_movements) [
    | inl none_left ↦ rw (none_left, try_pop_movement) v
    | inr (m, ms, front) ↦
        let popped : Inv (record u { pending_movements = ms }) = record {
          tokens_map = v.tokens_map;
          endpoints_map = v.endpoints_map;
          registered = v.registered;
          active = v.active;
          moved = v.moved;
          attacked = v.attacked;
          movements_from =
              (subst (All (λ m. contains m.session_id u.endpoints ≡ true)) front
                v.movements_from).1;
          attacks_from = v.attacks_from;
          movements_bounded = ground (arith, v.movements_bounded);
          attacks_bounded = v.attacks_bounded;
        } in
        ground (arith, popped)
  ]

  pub try_pop_attack-Inv : Inv (try_pop_attack u).0
  unfolding try_pop_attack
  try_pop_attack-Inv = elim (List-cases u.pending_attacks) [
    | inl none_left ↦ rw (none_left, try_pop_attack) v
    | inr (a, attacks, front) ↦
        let popped : Inv (record u { pending_attacks = attacks }) = record {
          tokens_map = v.tokens_map;
          endpoints_map = v.endpoints_map;
          registered = v.registered;
          active = v.active;
          moved = v.moved;
          attacked = v.attacked;
          movements_from = v.movements_from;
          attacks_from =
              (subst (All (λ a. contains a.session_id u.endpoints ≡ true)) front v.attacks_from).1;
          movements_bounded = v.movements_bounded;
          attacks_bounded = ground (arith, v.attacks_bounded);
        } in
        ground (arith, popped)
  ]

pub remove_inactive-Inv :
    {E R : Type 0} (now idle : ℕ) (m : Map ℕ ℕ) (u : UdpSession E R)
    → Inv u
    → Inv (remove_inactive now idle m u).0
unfolding remove_inactive
remove_inactive-Inv now idle [] u v = v
remove_inactive-Inv now idle ((s, at) ∷ m) u v = elim (Bool-cases (ltb now (at + idle))) [
  | inl fresh ↦ rw (fresh) (remove_inactive-Inv now idle m u v)
  | inr expired ↦ rw (expired) (
      remove_inactive-Inv now idle m (remove_participant_runtime_state u s)
        (remove_participant_runtime_state-Inv u v s))
]

module _ {E R : Type 0} ⦃e : Eq E⦄ (u : UdpSession E R) (v : Inv u) (now : ℕ) (sender : E) where
  handle_hello-Inv : (hello : UdpHelloMessage) → Inv (handle_hello u now sender hello).0
  unfolding handle_hello
  handle_hello-Inv hello =
      ground (arith, v, touch u v hello.session_id now, register u v hello.session_id now sender)

  handle_heartbeat-Inv :
      (heartbeat : UdpHeartbeatMessage) → Inv (handle_heartbeat u now sender heartbeat)
  unfolding handle_heartbeat
  handle_heartbeat-Inv heartbeat = ground (arith, v, touch u v heartbeat.session_id now)

  handle_player_movement-Inv :
      (movement : PlayerMovementMessage R) → Inv (handle_player_movement u now sender movement)
  unfolding handle_player_movement
  handle_player_movement-Inv movement =
      let s = session_of sender u.endpoints in
      let known : s ≢ 0 → contains s u.endpoints ≡ true =
        λ h. ap is_some (find-session_of sender u.endpoints v.endpoints_map h) in
      let touched : UdpSession E R = record u { last_activity = assign s now u.last_activity } in
      let pushed : s ≢ 0
          → length u.pending_movements < max_pending_dungeon_movements
          → Inv (record touched {
            last_movement_sequences = assign s movement.sequence u.last_movement_sequences;
            pending_movements =
                u.pending_movements ++ record { session_id = s; movement = movement } ∷ [];
          }) =
        λ h room. push_movement touched (touch u v s now (known h)) s movement (known h) room in
      ground (arith, v, known, touch u v s now, pushed)

  handle_player_attack-Inv :
      (attack : PlayerAttackMessage R) → Inv (handle_player_attack u now sender attack)
  unfolding handle_player_attack
  handle_player_attack-Inv attack =
      let s = session_of sender u.endpoints in
      let known : s ≢ 0 → contains s u.endpoints ≡ true =
        λ h. ap is_some (find-session_of sender u.endpoints v.endpoints_map h) in
      let touched : UdpSession E R = record u { last_activity = assign s now u.last_activity } in
      let pushed : s ≢ 0
          → length u.pending_attacks < max_pending_dungeon_attacks
          → Inv (record touched {
            last_attack_sequences = assign s attack.sequence u.last_attack_sequences;
            pending_attacks = u.pending_attacks ++ record { session_id = s; attack = attack } ∷ [];
          }) =
        λ h room. push_attack touched (touch u v s now (known h)) s attack (known h) room in
      ground (arith, v, known, touch u v s now, pushed)

  module _ (d : Decoders R) (bytes : List ℕ) where
    receive_heartbeat-Inv : Inv (receive_heartbeat d u now sender bytes)
    unfolding receive_heartbeat
    receive_heartbeat-Inv = elim (Option-cases (d.decode_udp_heartbeat bytes)) [
      | inl other ↦ ground (arith, v)
      | inr (heartbeat, decoded) ↦ ground (arith, v, handle_heartbeat-Inv heartbeat)
    ]

    receive_attack-Inv : Inv (receive_attack d u now sender bytes)
    unfolding receive_attack
    receive_attack-Inv = elim (Option-cases (d.decode_player_attack bytes)) [
      | inl other ↦ ground (arith, receive_heartbeat-Inv)
      | inr (attack, decoded) ↦
          ground (arith, receive_heartbeat-Inv, handle_player_attack-Inv attack)
    ]

    receive_movement-Inv : Inv (receive_movement d u now sender bytes)
    unfolding receive_movement
    receive_movement-Inv = elim (Option-cases (d.decode_player_movement bytes)) [
      | inl other ↦ ground (arith, receive_attack-Inv)
      | inr (movement, decoded) ↦
          ground (arith, receive_attack-Inv, handle_player_movement-Inv movement)
    ]

    -- Whatever bytes arrive.
    pub handle_receive-Inv :
        (server_tick : ℕ) → Inv (handle_receive d u server_tick now sender bytes).0
    unfolding handle_receive
    handle_receive-Inv server_tick = elim (Option-cases (d.decode_udp_hello bytes)) [
      | inl other ↦ ground (arith, v, receive_movement-Inv)
      | inr (hello, decoded) ↦ ground (arith, v, handle_hello-Inv hello)
    ]
