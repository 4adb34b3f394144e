-- ===== src/UdpSession/Calls.antt =====
-- Histories of datagrams and calls.
use dnf_mock_server_client.Prelude.{ℕ, nat_eq, refl, List, [], ◌∷◌, arith, Eq}
use dnf_mock_server_client.Map.{Map, find, IsMap}
use dnf_mock_server_client.UdpMessages.{Decoders}
use dnf_mock_server_client.UdpSession.{
  UdpSession, new_session, disconnect_participant, replace_participant, remove_participant,
  refresh_all_activity, remove_inactive_endpoints, try_pop_movement, try_pop_attack, handle_receive,
}
use dnf_mock_server_client.UdpSession.Invariant.{Inv, disconnect_participant-Inv}
use dnf_mock_server_client.UdpSession.Handlers.{
  handle_receive-Inv, replace_participant-Inv, remove_participant-Inv, refresh_all_activity-Inv,
  remove_inactive-Inv, try_pop_movement-Inv, try_pop_attack-Inv,
}

-- A datagram, or a call of another component. The lists carry the tick and the time.
pub data Call (E : Type 0) : Type 0 where
  receive : ℕ → ℕ → E → List ℕ → Call E
  disconnect : ℕ → Call E
  replace : ℕ → ℕ → ℕ → Call E
  remove : ℕ → Call E
  refresh : ℕ → Call E
  remove_idle : ℕ → ℕ → Call E
  pop_movement : Call E
  pop_attack : Call E

module _ {E R : Type 0} ⦃e : Eq E⦄ (d : Decoders R) where
  unfoldable pub step : UdpSession E R → Call E → UdpSession E R
  step u (receive server_tick now sender bytes) =
      (handle_receive d u server_tick now sender bytes).0
  step u (disconnect s) = (disconnect_participant u s).0
  step u (replace s t token) = (replace_participant u s t token).0
  step u (remove s) = (remove_participant u s).0
  step u (refresh now) = refresh_all_activity u now
  step u (remove_idle now idle) = (remove_inactive_endpoints u now idle).0
  step u pop_movement = (try_pop_movement u).0
  step u pop_attack = (try_pop_attack u).0

  unfoldable pub run : UdpSession E R → List (Call E) → UdpSession E R
  run u [] = u
  run u (c ∷ cs) = run (step u c) cs

  step-Inv : (u : UdpSession E R) (c : Call E) → Inv u → Inv (step u c)
  unfolding step remove_inactive_endpoints
  step-Inv u (receive server_tick now sender bytes) v =
      handle_receive-Inv u v now sender d bytes server_tick
  step-Inv u (disconnect s) v = disconnect_participant-Inv u v s
  step-Inv u (replace s t token) v = replace_participant-Inv u v s t token
  step-Inv u (remove s) v = remove_participant-Inv u v s
  step-Inv u (refresh now) v = refresh_all_activity-Inv u v now
  step-Inv u (remove_idle now idle) v =
      ground (arith, v, remove_inactive-Inv now idle u.last_activity u v)
  step-Inv u pop_movement v = try_pop_movement-Inv u v
  step-Inv u pop_attack v = try_pop_attack-Inv u v

  run-Inv : (u : UdpSession E R) (cs : List (Call E)) → Inv u → Inv (run u cs)
  unfolding run
  run-Inv u [] v = v
  run-Inv u (c ∷ cs) v = run-Inv (step u c) cs (step-Inv u c v)

new_session-Inv :
    {E R : Type 0} (dungeon_id : ℕ) (tokens : Map ℕ ℕ)
    → IsMap tokens
    → Inv (new_session {E = E} {R = R} dungeon_id tokens)
unfolding new_session find
new_session-Inv dungeon_id tokens distinct = record {
  tokens_map = distinct;
  endpoints_map = tt;
  registered = λ k h. cc;
  active = λ k. refl;
  moved = λ k h. cc;
  attacked = λ k h. cc;
  movements_from = tt;
  attacks_from = tt;
  movements_bounded = omega arith;
  attacks_bounded = omega arith;
}

-- After any datagrams and calls on a new session whose participants have distinct ids, and whatever
-- the decoders read: only participants have an endpoint, only sessions with an endpoint have an
-- activity, a last sequence number or a pending input, and each queue holds at most 256 inputs.
pub udp_run-Inv :
    {E R : Type 0} ⦃e : Eq E⦄ (d : Decoders R) (dungeon_id : ℕ) (tokens : Map ℕ ℕ)
    (cs : List (Call E))
    → IsMap tokens
    → Inv (run d (new_session dungeon_id tokens) cs)
udp_run-Inv d dungeon_id tokens cs distinct =
    run-Inv d (new_session dungeon_id tokens) cs (new_session-Inv dungeon_id tokens distinct)
