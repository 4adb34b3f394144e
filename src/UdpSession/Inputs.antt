-- ===== src/UdpSession/Inputs.antt =====
-- What is let into the queues of inputs, and who may register.
use dnf_mock_server_client.Prelude.{
  ℕ, nat_eq, ◌+◌, ◌-◌, ◌%◌, ◌<◌, ◌≡◌, ◌≢◌, ◌⊎◌, inl, inr, true, false, none, some, [], ◌∷◌, ◌++◌,
  arith, Eq, Option-cases, length, u32_mod, ◌↔◌, if◌then◌else◌, ◌==◌, Bool-cases, refl,
}
use dnf_mock_server_client.Map.{find, contains}
use dnf_mock_server_client.Map.Laws.{find-assign, find-emplace}
use dnf_mock_server_client.UdpMessages.{
  PlayerMovementMessage, PlayerAttackMessage, UdpHelloMessage, UdpHelloResult,
}
use dnf_mock_server_client.UdpSession.{
  UdpSession, max_pending_dungeon_movements, session_of, is_stale, is_newer_sequence, find_token,
  find_endpoint, handle_hello, handle_player_movement, handle_player_attack, emplace, assign,
}
use dnf_mock_server_client.UdpSession.Invariant.{Inv}
use dnf_mock_server_client.UdpSession.Handlers.{find-session_of}

-- A number is not newer than itself.
is_newer_sequence_same : (a : ℕ) → is_newer_sequence a a ≡ false
unfolding is_newer_sequence
is_newer_sequence_same a = let d : (a + u32_mod - a) % u32_mod ≡ 0 = omega arith in ground arith

module _ {E R : Type 0} ⦃e : Eq E⦄ (u : UdpSession E R) (now : ℕ) (sender : E) where
  -- A movement that arrives again, at any time, is not queued again.
  pub handle_player_movement_replay :
      (later : ℕ) (movement : PlayerMovementMessage R)
      → let once = handle_player_movement u now sender movement in
        let twice = handle_player_movement once later sender movement in
        (twice.pending_movements ≡ once.pending_movements)
        × (twice.last_movement_sequences ≡ once.last_movement_sequences)
  unfolding handle_player_movement
  handle_player_movement_replay later movement =
      let s = session_of sender u.endpoints in
      let stored = find-assign s s movement.sequence u.last_movement_sequences in
      let same = is_newer_sequence_same movement.sequence in
      (ground (arith, stored, same), ground (arith, stored, same))

  -- An attack that arrives again, at any time, is not queued again.
  pub handle_player_attack_replay :
      (later : ℕ) (attack : PlayerAttackMessage R)
      → let once = handle_player_attack u now sender attack in
        let twice = handle_player_attack once later sender attack in
        (twice.pending_attacks ≡ once.pending_attacks)
        × (twice.last_attack_sequences ≡ once.last_attack_sequences)
  unfolding handle_player_attack
  handle_player_attack_replay later attack =
      let s = session_of sender u.endpoints in
      let stored = find-assign s s attack.sequence u.last_attack_sequences in
      let same = is_newer_sequence_same attack.sequence in
      (ground (arith, stored, same), ground (arith, stored, same))

  -- The session after a hello that registers or renews an endpoint.
  abbrev pub Greeted : ℕ → UdpSession E R → Type 0
  Greeted id after =
      ((s : ℕ)
        → (find_endpoint after s ≡ (if id == s then some sender else find_endpoint u s))
          × (find s after.last_activity ≡ (if id == s then some now else find s u.last_activity)))
      × (after.tokens ≡ u.tokens)
      × (after.last_movement_sequences ≡ u.last_movement_sequences)
      × (after.last_attack_sequences ≡ u.last_attack_sequences)
      × (after.pending_movements ≡ u.pending_movements)
      × (after.pending_attacks ≡ u.pending_attacks)

  -- A hello succeeds exactly if it carries the session's token and the session has no other
  -- endpoint. Then the sender is the session's endpoint and the session was active now, while the
  -- endpoints and activities of the others, the tokens, the sequence numbers and the queues stay;
  -- one that fails changes nothing.
  pub handle_hello-success_iff :
      (hello : UdpHelloMessage)
      → let answer = handle_hello u now sender hello in
        ((answer.1 ≡ UdpHelloResult.success) ↔ (
          (find_token u hello.session_id ≡ some hello.token)
          × ((find_endpoint u hello.session_id ≡ none)
              ⊎ (find_endpoint u hello.session_id ≡ some sender))))
        × (((answer.1 ≡ UdpHelloResult.success) × Greeted hello.session_id answer.0)
            ⊎ ((answer.1 ≢ UdpHelloResult.success) × (answer.0 ≡ u)))
  unfolding handle_hello find_token find_endpoint
  handle_hello-success_iff hello =
      let id = hello.session_id in
      let active = λ (s : ℕ). find-assign id s now u.last_activity in
      elim (Option-cases (find id u.endpoints)) [
        | inl new ↦
            let v : UdpSession E R = record u {
              endpoints = emplace id sender u.endpoints;
              last_activity = assign id now u.last_activity;
            } in
            let greeted : Greeted id v = (
              λ s. (ground (arith, find-emplace id s sender u.endpoints), active s),
              refl,
              refl,
              refl,
              refl,
              refl,
            ) in
            ground (arith, greeted)
        | inr (endpoint, taken) ↦
            let v : UdpSession E R = record u { last_activity = assign id now u.last_activity } in
            let known = e.beq_iff endpoint sender in
            elim (Bool-cases (endpoint == sender)) [
              | inl same ↦
                  let greeted : Greeted id v =
                    (λ s. (ground (arith, known), active s), refl, refl, refl, refl, refl) in
                  ground (arith, known, greeted)
              | inr other ↦ ground (arith, known)
            ]
      ]

  -- In a session that satisfies the invariant, a movement changes the queue only if it comes from
  -- the endpoint of a participant, with a sequence number newer than the last, and while there is
  -- room; then it is the last of the queue, under that participant's session.
  pub handle_player_movement_queued :
      (movement : PlayerMovementMessage R)
      → Inv u
      → let after = handle_player_movement u now sender movement in
        after.pending_movements ≢ u.pending_movements
        → (s : ℕ) × (find_endpoint u s ≡ some sender)
          × (contains s u.tokens ≡ true)
          × (is_stale s movement.sequence u.last_movement_sequences ≡ false)
          × (length u.pending_movements < max_pending_dungeon_movements)
          × (after.pending_movements
              ≡ u.pending_movements ++ record { session_id = s; movement = movement } ∷ [])
  unfolding handle_player_movement find_endpoint
  handle_player_movement_queued movement v queued =
      let s = session_of sender u.endpoints in
      let known : s ≢ 0 → find s u.endpoints ≡ some sender =
        λ h. find-session_of sender u.endpoints v.endpoints_map h in
      (
        s,
        ground (arith, known),
        ground (arith, known, v.registered s),
        ground arith,
        ground arith,
        ground arith,
      )
