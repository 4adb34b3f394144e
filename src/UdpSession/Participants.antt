-- ===== src/UdpSession/Participants.antt =====
-- The participants of a session: all of them there, one that goes, one that comes back.
use dnf_mock_server_client.Prelude.{
  ℕ, nat_eq, ◌+◌, ◌≤◌, ◌<◌, ◌≡◌, refl, inl, inr, Bool, true, false, not, none, some, [], ◌∷◌, arith,
  ltb, ◌==◌, if◌then◌else◌, Eq, Bool-cases, elem, ◌↔◌,
}
use dnf_mock_server_client.Map.{Map, find, contains, erase, IsMap, size}
use dnf_mock_server_client.Map.Laws.{find-assign, find-emplace, find-erase}
use dnf_mock_server_client.Map.Subset.{size_mono, contains_all}
use dnf_mock_server_client.UdpMessages.{UdpHelloMessage, UdpHelloResult}
use dnf_mock_server_client.UdpSession.{
  UdpSession, find_token, find_endpoint, all_participants_authenticated,
  remove_participant_runtime_state, disconnect_participant, replace_participant, remove_inactive,
  remove_inactive_endpoints, handle_hello,
}
use dnf_mock_server_client.UdpSession.Invariant.{Inv}

-- In a session that satisfies the invariant, the count that starts a dungeon is right: it is
-- reached exactly if every participant has an endpoint.
pub all_participants_authenticated_iff :
    {E R : Type 0} (u : UdpSession E R)
    → Inv u
    → (all_participants_authenticated u ≡ true)
      ↔ ((k : ℕ) → contains k u.tokens ≡ true → contains k u.endpoints ≡ true)
unfolding all_participants_authenticated
all_participants_authenticated_iff u v = (
  λ h. contains_all u.endpoints u.tokens v.endpoints_map v.tokens_map v.registered (ground arith),
  λ every.
      let fits : size u.tokens ≤ size u.endpoints =
        size_mono u.tokens u.endpoints v.tokens_map v.endpoints_map every in
      let bound : size u.endpoints ≤ size u.tokens =
        size_mono u.endpoints u.tokens v.endpoints_map v.tokens_map v.registered in
      ground (arith, fits, bound),
)

-- A participant that was disconnected may come back with its token, from any endpoint.
pub handle_hello-disconnect_participant :
    {E R : Type 0} ⦃e : Eq E⦄ (u : UdpSession E R) (now : ℕ) (sender : E) (hello : UdpHelloMessage)
    → find_token u hello.session_id ≡ some hello.token
    → let away = (disconnect_participant u hello.session_id).0 in
      let back = handle_hello away now sender hello in
      (find_endpoint away hello.session_id ≡ none)
      × (back.1 ≡ UdpHelloResult.success)
      × (find_endpoint back.0 hello.session_id ≡ some sender)
      × (find hello.session_id back.0.last_activity ≡ some now)
unfolding find_token find_endpoint disconnect_participant handle_hello
handle_hello-disconnect_participant u now sender hello known =
    let s = hello.session_id in
    let gone = find-erase s s u.endpoints in
    (
      ground (arith, gone),
      ground (arith, gone),
      ground (arith, gone, find-emplace s s sender (erase s u.endpoints)),
      ground (arith, gone, find-assign s s now (erase s u.last_activity)),
    )

-- A replacement that is accepted moves the place in the dungeon from the old session to the new
-- one, under the new token, and leaves the other participants their tokens and endpoints.
pub replace_participant_lem :
    {E R : Type 0} (u : UdpSession E R) (s t token : ℕ)
    → let after = replace_participant u s t token in
      after.1 ≡ true
      → ((j : ℕ)
          → find_token after.0 j
            ≡ (if t == j then some token else (if s == j then none else find_token u j)))
        × ((j : ℕ) → find_endpoint after.0 j ≡ (if s == j then none else find_endpoint u j))
        × (contains s u.tokens ≡ true)
        × (contains t u.tokens ≡ false)
unfolding find_token find_endpoint replace_participant
replace_participant_lem u s t token accepted = (
  λ j. ground (
    arith,
    find-emplace t j token (erase s u.tokens),
    find-erase s j u.tokens,
    find-erase s t u.tokens,
  ),
  λ j. ground (arith, find-erase s j u.endpoints),
  ground arith,
  ground arith,
)

-- Whether a session's last activity is at least the idle time ago.
abbrev pub is_expired : ℕ → ℕ → ℕ → Map ℕ ℕ → Bool
is_expired now idle k activity = elim (find k activity) [
  | none ↦ false
  | some at ↦ not (ltb now (at + idle))
]

remove_inactive_lem :
    {E R : Type 0} (now idle k : ℕ) (m : Map ℕ ℕ) (u : UdpSession E R)
    → IsMap m
    → (find k (remove_inactive now idle m u).0.endpoints
        ≡ (if is_expired now idle k m then none else find k u.endpoints))
      × (elem k (remove_inactive now idle m u).1 ≡ is_expired now idle k m)
unfolding remove_inactive find remove_participant_runtime_state
remove_inactive_lem now idle k [] u d = (refl, refl)
remove_inactive_lem now idle k ((s, at) ∷ m) u (fresh, d) =
    let kept = remove_inactive_lem now idle k m u d in
    let cut = remove_inactive_lem now idle k m (remove_participant_runtime_state u s) d in
    elim (Bool-cases (ltb now (at + idle))) [
      | inl active ↦ (ground (arith, kept.0), ground (arith, kept.1))
      | inr expired ↦ (ground (arith, cut.0, find-erase s k u.endpoints), ground (arith, cut.1))
    ]

-- With a positive idle time and one activity for each session, the sweep drops the endpoint of
-- exactly the sessions that were idle for at least that time, and lists exactly those.
pub remove_inactive_endpoints_lem :
    {E R : Type 0} (u : UdpSession E R) (now idle : ℕ)
    → IsMap u.last_activity
    → 0 < idle
    → let after = remove_inactive_endpoints u now idle in
      (k : ℕ)
      → (find_endpoint after.0 k
          ≡ (if is_expired now idle k u.last_activity then none else find_endpoint u k))
        × (elem k after.1 ≡ is_expired now idle k u.last_activity)
unfolding remove_inactive_endpoints find_endpoint
remove_inactive_endpoints_lem u now idle d positive k =
    let loop = remove_inactive_lem now idle k u.last_activity u d in
    (ground (arith, loop.0), ground (arith, loop.1))
