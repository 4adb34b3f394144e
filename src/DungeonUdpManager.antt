-- ===== src/DungeonUdpManager.antt =====
-- The UDP sessions of all dungeons: include/DungeonUdpManager.h and src/DungeonUdpManager.cpp. What
-- the system gives is an argument: the port of the new socket, if it opens, and the tokens that
-- `GenerateToken` makes of the random device, in their order. A session that is taken out of the
-- table is stopped, and no other component keeps it.
pub mod Tokens
pub mod Replacement
use dnf_mock_server_client.Prelude.{
  ℕ, nat_eq, ◌+◌, ◌*◌, ◌%◌, Bool, true, false, ◌||◌, not, Option, none, some, List, [], ◌∷◌, ◌==◌,
  if◌then◌else◌, is_some, length, take, u64_mod,
}
use dnf_mock_server_client.Map.{Map, find, contains, assign, emplace, erase, size}
use dnf_mock_server_client.Prelude.{elem}
use dnf_mock_server_client.UdpMessages.{AuthenticatedPlayerMovement, AuthenticatedPlayerAttack}
use dnf_mock_server_client.Dungeon.{check_participants}
use dnf_mock_server_client.UdpSession.{UdpSession, new_session}
use dnf_mock_server_client.UdpSession

pub record UdpManager (E R : Type 0) : Type 0 where
  pub sessions : Map ℕ (UdpSession E R)
  pub server_tick : ℕ
  pub stopping : Bool

abbrev pub max_token_attempts : ℕ
max_token_attempts = 16

-- `(token << 8) | byte` for each output; the bits of the byte are free after the shift.
unfoldable pub shift_in : ℕ → List ℕ → ℕ
shift_in token [] = token
shift_in token (output ∷ outputs) = shift_in ((token * 256) % u64_mod + output % 256) outputs

-- From the next eight outputs of the random device.
unfoldable pub generate_token : List ℕ → ℕ
unfolding shift_in
generate_token outputs = shift_in 0 (take 8 outputs)

-- The do loop: the first token that is not 0 and not used, with the tokens after it. Without a
-- result the loop is still running when the given tokens are used up.
unfoldable pub draw_token : List ℕ → List ℕ → Option (ℕ × List ℕ)
draw_token used [] = none
draw_token used (token ∷ tokens) =
    let rest = draw_token used tokens in
    if token == 0 || elem token used then rest else some (token, tokens)

-- The loop over the participants.
unfoldable pub draw_tokens : List ℕ → List ℕ → List ℕ → Map ℕ ℕ → Option (Map ℕ ℕ)
unfolding draw_token
draw_tokens used [] drawn tokens = some tokens
draw_tokens used (session ∷ sessions) drawn tokens = elim (draw_token used drawn) [
  | none ↦ none
  | some (token, rest) ↦ draw_tokens (token ∷ used) sessions rest (emplace session token tokens)
]

module _ {E R : Type 0} where
  unfoldable pub new_udp_manager : UdpManager E R
  new_udp_manager = record { sessions = []; server_tick = 0; stopping = false }

  -- Without a result, the loop for a token is still running.
  unfoldable pub allocate :
      UdpManager E R → Option ℕ → List ℕ → ℕ → List ℕ → Option (UdpManager E R × Option ℕ)
  unfolding check_participants draw_tokens
  allocate m port drawn dungeon_id participants =
      if m.stopping || dungeon_id == 0 || length participants == 0 || contains dungeon_id m.sessions
      then some (m, none)
      else if not (check_participants [] participants)
      then some (m, none)
      else elim port [
        | none ↦ some (m, none)
        | some number ↦ elim (draw_tokens [] participants drawn []) [
          | none ↦ none
          | some tokens ↦ some (
            record m { sessions = emplace dungeon_id (new_session dungeon_id tokens) m.sessions },
            some number,
          )
        ]
      ]

  unfoldable pub find_token : UdpManager E R → ℕ → ℕ → Option ℕ
  find_token m dungeon_id session = elim (find dungeon_id m.sessions) [
    | none ↦ none
    | some u ↦ UdpSession.find_token u session
  ]

  unfoldable pub find_endpoint : UdpManager E R → ℕ → ℕ → Option E
  find_endpoint m dungeon_id session = elim (find dungeon_id m.sessions) [
    | none ↦ none
    | some u ↦ UdpSession.find_endpoint u session
  ]

  -- A call that is passed on to the session of a dungeon, and its result without a session.
  unfoldable pub pass_on :
      {A : Type 0}
      → UdpManager E R
      → ℕ
      → A
      → (UdpSession E R → UdpSession E R × A)
      → UdpManager E R × A
  pass_on m dungeon_id missing call = elim (find dungeon_id m.sessions) [
    | none ↦ (m, missing)
    | some u ↦
        let called = call u in
        (record m { sessions = assign dungeon_id called.0 m.sessions }, called.1)
  ]

  unfoldable pub disconnect_participant : UdpManager E R → ℕ → ℕ → UdpManager E R × Bool
  unfolding pass_on
  disconnect_participant m dungeon_id session =
      pass_on m dungeon_id false (λ u. UdpSession.disconnect_participant u session)

  -- The attempts with the given tokens.
  unfoldable pub try_tokens : List ℕ → UdpSession E R → ℕ → ℕ → UdpSession E R × Option ℕ
  try_tokens [] u old new = (u, none)
  try_tokens (token ∷ tokens) u old new =
      let tried =
        if token == 0 then (u, false) else UdpSession.replace_participant u old new token in
      let rest = try_tokens tokens tried.0 old new in
      if tried.1 then (tried.0, some token) else rest

  unfoldable pub replace_participant :
      UdpManager E R → List ℕ → ℕ → ℕ → ℕ → UdpManager E R × Option ℕ
  unfolding try_tokens pass_on
  replace_participant m drawn dungeon_id old new = elim (find dungeon_id m.sessions) [
    | none ↦ (m, none)
    | some u ↦
        if not (is_some (UdpSession.find_token u old)) || is_some (UdpSession.find_token u new)
        then (m, none)
        else pass_on m dungeon_id none (λ u. try_tokens (take max_token_attempts drawn) u old new)
  ]

  unfoldable pub remove_participant : UdpManager E R → ℕ → ℕ → UdpManager E R × Bool
  unfolding pass_on
  remove_participant m dungeon_id session =
      pass_on m dungeon_id false (λ u. UdpSession.remove_participant u session)

  unfoldable pub all_participants_authenticated : UdpManager E R → ℕ → Bool
  all_participants_authenticated m dungeon_id = elim (find dungeon_id m.sessions) [
    | none ↦ false
    | some u ↦ UdpSession.all_participants_authenticated u
  ]

  unfoldable pub set_server_tick : UdpManager E R → ℕ → UdpManager E R
  set_server_tick m tick = record m { server_tick = tick }

  unfoldable pub refresh_all_activity : UdpManager E R → ℕ → ℕ → UdpManager E R
  unfolding pass_on
  refresh_all_activity m dungeon_id now =
      (pass_on m dungeon_id tt (λ u. (UdpSession.refresh_all_activity u now, tt))).0

  unfoldable pub remove_inactive_endpoints : UdpManager E R → ℕ → ℕ → ℕ → UdpManager E R × List ℕ
  unfolding pass_on
  remove_inactive_endpoints m dungeon_id now idle =
      pass_on m dungeon_id [] (λ u. UdpSession.remove_inactive_endpoints u now idle)

  unfoldable pub try_pop_movement :
      UdpManager E R → ℕ → UdpManager E R × Option (AuthenticatedPlayerMovement R)
  unfolding pass_on
  try_pop_movement m dungeon_id = pass_on m dungeon_id none (λ u. UdpSession.try_pop_movement u)

  unfoldable pub try_pop_attack :
      UdpManager E R → ℕ → UdpManager E R × Option (AuthenticatedPlayerAttack R)
  unfolding pass_on
  try_pop_attack m dungeon_id = pass_on m dungeon_id none (λ u. UdpSession.try_pop_attack u)

  unfoldable pub pending_movement_count : UdpManager E R → ℕ → ℕ
  pending_movement_count m dungeon_id = elim (find dungeon_id m.sessions) [
    | none ↦ 0
    | some u ↦ length u.pending_movements
  ]

  unfoldable pub pending_attack_count : UdpManager E R → ℕ → ℕ
  pending_attack_count m dungeon_id = elim (find dungeon_id m.sessions) [
    | none ↦ 0
    | some u ↦ length u.pending_attacks
  ]

  unfoldable pub release : UdpManager E R → ℕ → UdpManager E R × Bool
  release m dungeon_id =
      if contains dungeon_id m.sessions
      then (record m { sessions = erase dungeon_id m.sessions }, true)
      else (m, false)

  unfoldable pub stop : UdpManager E R → UdpManager E R
  stop m = if m.stopping then m else record m { stopping = true; sessions = [] }

  unfoldable pub allocation_count : UdpManager E R → ℕ
  allocation_count m = size m.sessions
