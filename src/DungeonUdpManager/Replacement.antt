-- ===== src/DungeonUdpManager/Replacement.antt =====
-- `DungeonUdpManager::ReplaceParticipant`, which tries up to sixteen tokens.
use dnf_mock_server_client.Prelude.{
  ℕ, nat_eq, ◌<◌, ◌≡◌, refl, ◌⊎◌, inl, inr, Bool, true, false, ◌&&◌, ◌||◌, not, none, some, List,
  [], ◌∷◌, arith, ◌==◌, ◌!=◌, if◌then◌else◌, is_some, Bool-cases, Option-cases, take, any,
}
use dnf_mock_server_client.Map.{find, contains}
use dnf_mock_server_client.Map.Laws.{find-assign}
use dnf_mock_server_client.UdpSession.{UdpSession, replace_participant, token_in_use}
use dnf_mock_server_client.UdpSession
use dnf_mock_server_client.DungeonUdpManager.{UdpManager, max_token_attempts, try_tokens}
use dnf_mock_server_client.DungeonUdpManager

module _ {E R : Type 0} where
  -- A token with which the session can be replaced.
  abbrev is_free : UdpSession E R → ℕ → Bool
  is_free u token = token != 0 && not (token_in_use token u.tokens)

  replace_participant_iff :
      (u : UdpSession E R) (old new token : ℕ)
      → contains old u.tokens ≡ true
      → contains new u.tokens ≡ false
      → 0 < old
      → 0 < new
      → (UdpSession.replace_participant u old new token).1 ≡ is_free u token
  unfolding UdpSession.replace_participant
  replace_participant_iff u old new token known unknown old_named new_named =
      elim (Bool-cases (old == new)) [ inl same ↦ absurd (ground arith) | inr other ↦ ground arith ]

  refused :
      (u : UdpSession E R) (old new token : ℕ)
      → (UdpSession.replace_participant u old new token).1 ≡ false
      → (UdpSession.replace_participant u old new token).0 ≡ u
  unfolding UdpSession.replace_participant
  refused u old new token h = ground arith

  pub try_tokens_lem :
      (drawn : List ℕ) (u : UdpSession E R) (old new : ℕ)
      → (((try_tokens drawn u old new).1 ≡ none) × ((try_tokens drawn u old new).0 ≡ u))
        ⊎ ((token : ℕ) × ((try_tokens drawn u old new).1 ≡ some token)
            × (0 < token)
            × ((UdpSession.replace_participant u old new token).1 ≡ true)
            × ((try_tokens drawn u old new).0 ≡ (UdpSession.replace_participant u old new token).0))
  unfolding try_tokens
  try_tokens_lem [] u old new = inl (refl, refl)
  try_tokens_lem (token ∷ drawn) u old new =
      elim (Bool-cases (UdpSession.replace_participant u old new token).1) [
        | inr denied ↦
            let same = refused u old new token denied in
            elim (try_tokens_lem drawn u old new) [
              | inl (none_left, kept) ↦ inl (ground arith, ground arith)
              | inr (t, drew, positive, done, after) ↦
                  inr (t, ground arith, positive, done, ground arith)
            ]
        | inl fits ↦ elim (Bool-cases (token == 0)) [
          | inr positive ↦ inr (token, ground arith, ground arith, fits, ground arith)
          | inl zero_token ↦ elim (try_tokens_lem drawn u old new) [
            | inl (none_left, kept) ↦ inl (ground arith, ground arith)
            | inr (t, drew, positive, done, after) ↦
                inr (t, ground arith, positive, done, ground arith)
          ]
        ]
      ]

  pub try_tokens-some_iff :
      (drawn : List ℕ) (u : UdpSession E R) (old new : ℕ)
      → contains old u.tokens ≡ true
      → contains new u.tokens ≡ false
      → 0 < old
      → 0 < new
      → is_some (try_tokens drawn u old new).1 ≡ any (is_free u) drawn
  unfolding try_tokens
  try_tokens-some_iff [] u old new known unknown old_named new_named = refl
  try_tokens-some_iff (token ∷ drawn) u old new known unknown old_named new_named =
      let free = replace_participant_iff u old new token known unknown old_named new_named in
      let rest = try_tokens-some_iff drawn u old new known unknown old_named new_named in
      elim (Bool-cases (UdpSession.replace_participant u old new token).1) [
        | inl fits ↦ ground arith
        | inr denied ↦ ground (arith, refused u old new token denied)
      ]

module _ {E R : Type 0} (m : UdpManager E R) where
  -- What the manager's sessions are after a replacement: as before, or with the one session
  -- changed.
  pub replace_participant-cases :
      (drawn : List ℕ) (dungeon_id old new : ℕ)
      → let after = DungeonUdpManager.replace_participant m drawn dungeon_id old new in
        ((after.1 ≡ none) × ((k : ℕ) → find k after.0.sessions ≡ find k m.sessions))
        ⊎ ((u : UdpSession E R) × (token : ℕ) × (after.1 ≡ some token)
            × (find dungeon_id m.sessions ≡ some u)
            × ((UdpSession.replace_participant u old new token).1 ≡ true)
            × ((k : ℕ)
                → find k after.0.sessions ≡ (
                    if dungeon_id == k
                    then some (UdpSession.replace_participant u old new token).0
                    else find k m.sessions)))
  unfolding DungeonUdpManager.replace_participant DungeonUdpManager.pass_on
  replace_participant-cases drawn dungeon_id old new =
      elim (Option-cases (find dungeon_id m.sessions)) [
        | inl missing ↦ inl (ground arith, λ k. ground arith)
        | inr (u, found) ↦
            let tried = try_tokens (take max_token_attempts drawn) u old new in
            let put = λ (k : ℕ). find-assign dungeon_id k tried.0 m.sessions in
            elim (Bool-cases (
              not (is_some (UdpSession.find_token u old))
              || is_some (UdpSession.find_token u new))) [
                | inl unfit ↦ inl (ground arith, λ k. ground arith)
                | inr fit ↦ elim (try_tokens_lem (take max_token_attempts drawn) u old new) [
                  | inl (none_left, kept) ↦ inl (ground arith, λ k. ground (arith, put k))
                  | inr (token, drew, positive, done, after) ↦
                      inr (u, token, ground arith, found, done, λ k. ground (arith, put k))
                ]
              ]
      ]

  -- In a session of a dungeon where the old participant has a token and the new one has none,
  -- neither of them 0, a replacement succeeds exactly if one of the first sixteen tokens that are
  -- drawn is not 0 and not in use.
  pub replace_participant-some_iff :
      (u : UdpSession E R) (drawn : List ℕ) (dungeon_id old new : ℕ)
      → find dungeon_id m.sessions ≡ some u
      → contains old u.tokens ≡ true
      → contains new u.tokens ≡ false
      → 0 < old
      → 0 < new
      → is_some (DungeonUdpManager.replace_participant m drawn dungeon_id old new).1
        ≡ any (λ token. token != 0 && not (token_in_use token u.tokens)) (take 16 drawn)
  unfolding DungeonUdpManager.replace_participant DungeonUdpManager.pass_on UdpSession.find_token
  replace_participant-some_iff u drawn dungeon_id old new found known unknown old_named new_named =
      ground (
        arith,
        found,
        try_tokens-some_iff (take max_token_attempts drawn) u old new known unknown old_named
            new_named,
      )
