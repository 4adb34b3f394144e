-- ===== src/DungeonUdpManager/Tokens.antt =====
-- The loops of `DungeonUdpManager::Allocate` that draw a token for each participant.
use dnf_mock_server_client.Prelude.{
  ℕ, nat_eq, ◌≤◌, ◌<◌, ◌≡◌, refl, subst, ◌⊎◌, inl, inr, true, false, ◌||◌, Option, none, some, List,
  [], ◌∷◌, arith, leb, ◌==◌, if◌then◌else◌, is_some, Bool-cases, Option-cases, length,
}
use dnf_mock_server_client.Map.{Map, find, contains, emplace, IsMap}
use dnf_mock_server_client.Map.Laws.{find-emplace}
use dnf_mock_server_client.Map.Size.{emplace-IsMap}
use dnf_mock_server_client.Prelude.{elem}
use dnf_mock_server_client.UdpSession.{UdpSession, new_session}
use dnf_mock_server_client.DungeonUdpManager.{UdpManager, draw_token, draw_tokens, allocate}

-- The tokens that can be used: those that are not 0, each at its first occurrence.
unfoldable pub usable : List ℕ → List ℕ → List ℕ
usable used [] = []
usable used (t ∷ ts) =
    let later = usable used ts in
    let next = usable (t ∷ used) ts in if t == 0 || elem t used then later else t ∷ next

-- Each session gets the token at its place.
unfoldable pub hand_out : List ℕ → List ℕ → Map ℕ ℕ → Map ℕ ℕ
hand_out [] ts tokens = tokens
hand_out (s ∷ ss) [] tokens = tokens
hand_out (s ∷ ss) (t ∷ ts) tokens = hand_out ss ts (emplace s t tokens)

draw_token-usable :
    (used drawn : List ℕ)
    → ((draw_token used drawn ≡ none) × (usable used drawn ≡ []))
      ⊎ ((t : ℕ) × (rest : List ℕ) × (draw_token used drawn ≡ some (t, rest))
          × (usable used drawn ≡ t ∷ usable (t ∷ used) rest))
unfolding draw_token usable
draw_token-usable used [] = inl (refl, refl)
draw_token-usable used (t ∷ ts) = elim (Bool-cases (t == 0 || elem t used)) [
  | inr new ↦ inr (t, ts, ground arith, ground arith)
  | inl old ↦ elim (draw_token-usable used ts) [
    | inl none_left ↦ inl (ground arith, ground arith)
    | inr (u, rest, drawn, first) ↦ inr (u, rest, ground arith, ground arith)
  ]
]

-- The two loops of the allocation end as soon as the generator has given as many different tokens
-- other than 0 as there are participants, and not before; each participant then has the token at
-- its place among them.
pub draw_tokens-hand_out :
    (used sessions drawn : List ℕ) (tokens : Map ℕ ℕ)
    → draw_tokens used sessions drawn tokens ≡ (
        if leb (length sessions) (length (usable used drawn))
        then some (hand_out sessions (usable used drawn) tokens)
        else none)
unfolding draw_tokens hand_out
draw_tokens-hand_out used [] drawn tokens = ground arith
draw_tokens-hand_out used (s ∷ ss) drawn tokens = elim (draw_token-usable used drawn) [
  | inl (stuck, nothing) ↦ ground arith
  | inr (t, rest, drew, first) ↦
      let more = draw_tokens-hand_out (t ∷ used) ss rest (emplace s t tokens) in
      ground (arith, more)
]

-- The tokens of the table are used, not 0, and different for different sessions.
pub record AreTokens (used : List ℕ) (tokens : Map ℕ ℕ) : Type 0 where
  pub used_here : (s t : ℕ) → find s tokens ≡ some t → elem t used ≡ true
  pub positive : (s t : ℕ) → find s tokens ≡ some t → 0 < t
  pub apart : (r s t : ℕ) → find r tokens ≡ some t → find s tokens ≡ some t → r ≡ s
  pub tokens_map : IsMap tokens

draw_token-some :
    (used drawn : List ℕ) (t : ℕ) (rest : List ℕ)
    → draw_token used drawn ≡ some (t, rest)
    → (0 < t) × (elem t used ≡ false)
unfolding draw_token
draw_token-some used [] t rest h = absurd (ground arith)
draw_token-some used (u ∷ us) t rest h = elim (Bool-cases (u == 0 || elem u used)) [
  | inl old ↦ draw_token-some used us t rest (ground arith)
  | inr new ↦ ground arith
]

AreTokens-emplace :
    (used : List ℕ) (tokens : Map ℕ ℕ) (s t : ℕ)
    → AreTokens used tokens
    → 0 < t
    → elem t used ≡ false
    → AreTokens (t ∷ used) (emplace s t tokens)
AreTokens-emplace used tokens s t v positive new = record {
  used_here = λ r u h. ground (arith, find-emplace s r t tokens, v.used_here r u);
  positive = λ r u h. ground (arith, find-emplace s r t tokens, v.positive r u);
  apart = λ q r u g h. ground (
    arith,
    find-emplace s q t tokens,
    find-emplace s r t tokens,
    v.apart q r u,
    v.used_here q u,
    v.used_here r u,
  );
  tokens_map = emplace-IsMap s t tokens v.tokens_map;
}

draw_tokens-AreTokens :
    (used sessions drawn : List ℕ) (tokens after : Map ℕ ℕ)
    → draw_tokens used sessions drawn tokens ≡ some after
    → AreTokens used tokens
    → (now_used : List ℕ) × AreTokens now_used after
      × ((s : ℕ) → contains s after ≡ (contains s tokens || elem s sessions))
unfolding draw_tokens
draw_tokens-AreTokens used [] drawn tokens after h v =
    let same : tokens ≡ after = ground arith in
    (used, subst (AreTokens used) same v, λ s. ground arith)
draw_tokens-AreTokens used (s ∷ ss) drawn tokens after h v =
    elim (Option-cases (draw_token used drawn)) [
      | inl stuck ↦ absurd (ground arith)
      | inr ((t, rest), drew) ↦
          let (positive, new) = draw_token-some used drawn t rest drew in
          let (now_used, good, there) =
            draw_tokens-AreTokens (t ∷ used) ss rest (emplace s t tokens) after (ground arith)
              (AreTokens-emplace used tokens s t v positive new) in
          (now_used, good, λ r. ground (arith, there r, find-emplace s r t tokens))
    ]

module _ {E R : Type 0} (m : UdpManager E R) where
  -- An allocation that gives a port adds one session, of the dungeon: exactly the participants have
  -- a token there, none has 0, and no two have the same; nobody has an endpoint yet.
  pub allocate-some :
      (n : UdpManager E R) (port : Option ℕ) (drawn : List ℕ) (dungeon_id : ℕ)
      (participants : List ℕ) (number : ℕ)
      → allocate m port drawn dungeon_id participants ≡ some (n, some number)
      → (u : UdpSession E R) × (n.sessions ≡ emplace dungeon_id u m.sessions)
        × (contains dungeon_id m.sessions ≡ false)
        × (used : List ℕ) × AreTokens used u.tokens
        × ((s : ℕ) → contains s u.tokens ≡ elem s participants)
        × (u.endpoints ≡ [])
  unfolding allocate new_session find
  allocate-some n port drawn dungeon_id participants number h = elim (Option-cases port) [
    | inl closed ↦ absurd (ground arith)
    | inr (opened, given) ↦ elim (Option-cases (draw_tokens [] participants drawn [])) [
      | inl stuck ↦ absurd (ground arith)
      | inr (tokens, drew) ↦
          let (used, good, there) =
            draw_tokens-AreTokens [] participants drawn [] tokens drew (record {
              used_here = λ s t g. absurd (ground arith);
              positive = λ s t g. absurd (ground arith);
              apart = λ r s t g k. absurd (ground arith);
              tokens_map = tt;
            }) in
          (
            new_session dungeon_id tokens,
            ground arith,
            ground arith,
            used,
            good,
            λ s. ground (arith, there s),
            refl,
          )
    ]
  ]

  -- An allocation returns, whatever the state and the arguments, if the generator gives as many
  -- different tokens other than 0 as there are participants.
  pub allocate-returns :
      (port : Option ℕ) (drawn : List ℕ) (dungeon_id : ℕ) (participants : List ℕ)
      → length participants ≤ length (usable [] drawn)
      → is_some (allocate m port drawn dungeon_id participants) ≡ true
  unfolding allocate
  allocate-returns port drawn dungeon_id participants enough =
      ground (arith, draw_tokens-hand_out [] participants drawn [])
