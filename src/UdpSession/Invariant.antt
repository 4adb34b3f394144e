-- ===== src/UdpSession/Invariant.antt =====
-- What holds of the session's tables after any calls.
use dnf_mock_server_client.Prelude.{
  ℕ, nat_eq, ◌≤◌, ◌≡◌, inl, inr, Bool, true, List, [], ◌∷◌, arith, ◌!=◌, Bool-cases, length,
  keep_if, All, length-keep_if-le,
}
use dnf_mock_server_client.Map.{Map, contains, IsMap}
use dnf_mock_server_client.Map.Laws.{find-erase}
use dnf_mock_server_client.Map.Size.{erase-IsMap}
use dnf_mock_server_client.UdpSession.{
  UdpSession, max_pending_dungeon_movements, max_pending_dungeon_attacks,
  remove_participant_runtime_state, disconnect_participant,
}

-- Only participants have an endpoint, and only sessions with an endpoint have an activity, a last
-- sequence number or a pending input. The queues are bounded.
pub record Inv {E R : Type 0} (u : UdpSession E R) : Type 0 where
  pub tokens_map : IsMap u.tokens
  pub endpoints_map : IsMap u.endpoints
  pub registered : (k : ℕ) → contains k u.endpoints ≡ true → contains k u.tokens ≡ true
  pub active : (k : ℕ) → contains k u.last_activity ≡ contains k u.endpoints
  pub moved : (k : ℕ) → contains k u.last_movement_sequences ≡ true → contains k u.endpoints ≡ true
  pub attacked : (k : ℕ) → contains k u.last_attack_sequences ≡ true → contains k u.endpoints ≡ true
  pub movements_from : All (λ m. contains m.session_id u.endpoints ≡ true) u.pending_movements
  pub attacks_from : All (λ a. contains a.session_id u.endpoints ≡ true) u.pending_attacks
  pub movements_bounded : length u.pending_movements ≤ max_pending_dungeon_movements
  pub attacks_bounded : length u.pending_attacks ≤ max_pending_dungeon_attacks

pub All-mono {ℓ κ μ} :
    {A : Type ℓ} {P : A → Type κ} {Q : A → Type μ} (xs : List A)
    → ((x : A) → P x → Q x)
    → All P xs
    → All Q xs
All-mono [] f h = tt
All-mono (x ∷ xs) f h = (f x h.0, All-mono xs f h.1)

-- Elements that pass a test and have a property also have what follows from both.
pub All-kept {ℓ κ μ} :
    {A : Type ℓ} {P : A → Type κ} {Q : A → Type μ} (p : A → Bool) (xs : List A)
    → ((x : A) → p x ≡ true → P x → Q x)
    → All P xs
    → All Q (keep_if p xs)
All-kept p [] f h = tt
All-kept p (x ∷ xs) f h =
    let rest = All-kept p xs f h.1 in
    elim (Bool-cases (p x)) [
      | inl kept ↦ rw (kept) (f x kept h.0, rest)
      | inr dropped ↦ rw (dropped) rest
    ]

module _ {E R : Type 0} (u : UdpSession E R) (v : Inv u) where
  pub remove_participant_runtime_state-Inv : (s : ℕ) → Inv (remove_participant_runtime_state u s)
  unfolding remove_participant_runtime_state
  remove_participant_runtime_state-Inv s = record {
    tokens_map = v.tokens_map;
    endpoints_map = erase-IsMap s u.endpoints v.endpoints_map;
    registered = λ k h. ground (arith, find-erase s k u.endpoints, v.registered k);
    active =
        λ k. ground (arith, find-erase s k u.endpoints, find-erase s k u.last_activity, v.active k);
    moved = λ k h.
        ground
          (arith, find-erase s k u.endpoints, find-erase s k u.last_movement_sequences, v.moved k);
    attacked = λ k h.
        ground
          (arith, find-erase s k u.endpoints, find-erase s k u.last_attack_sequences, v.attacked k);
    movements_from =
        All-kept (λ m. m.session_id != s) u.pending_movements
          (λ m kept from. ground (arith, find-erase s m.session_id u.endpoints)) v.movements_from;
    attacks_from =
        All-kept (λ a. a.session_id != s) u.pending_attacks
          (λ a kept from. ground (arith, find-erase s a.session_id u.endpoints)) v.attacks_from;
    movements_bounded = omega (
      arith,
      v.movements_bounded,
      length-keep_if-le (λ m. m.session_id != s) u.pending_movements,
    );
    attacks_bounded =
        omega
          (arith, v.attacks_bounded, length-keep_if-le (λ a. a.session_id != s) u.pending_attacks);
  }

  pub disconnect_participant-Inv : (s : ℕ) → Inv (disconnect_participant u s).0
  unfolding disconnect_participant
  disconnect_participant-Inv s = ground (arith, v, remove_participant_runtime_state-Inv s)

  -- The tokens may change as long as the sessions with an endpoint keep theirs.
  pub retoken :
      (tokens : Map ℕ ℕ)
      → IsMap tokens
      → ((k : ℕ) → contains k u.endpoints ≡ true → contains k tokens ≡ true)
      → Inv (record u { tokens = tokens })
  retoken tokens distinct kept = record {
    tokens_map = distinct;
    endpoints_map = v.endpoints_map;
    registered = kept;
    active = v.active;
    moved = v.moved;
    attacked = v.attacked;
    movements_from = v.movements_from;
    attacks_from = v.attacks_from;
    movements_bounded = v.movements_bounded;
    attacks_bounded = v.attacks_bounded;
  }
