-- ===== src/Party/Calls.antt =====
-- Histories of calls of the party manager, and what its clients see.
use dnf_mock_server_client.Prelude.{
  ℕ, nat_eq, ◌+◌, ◌≤◌, ◌<◌, ◌≡◌, refl, ◌≢◌, false, none, some, List, [], ◌∷◌, ◌++◌, arith, ◌==◌,
  if◌then◌else◌, length, u64_mod, ◌↔◌, is_some, true, Bool-cases, Option, inl, inr,
}
use dnf_mock_server_client.Map.Laws.{find-assign, find-emplace}
use dnf_mock_server_client.Prelude.{elem, without}
use dnf_mock_server_client.Party.{
  PartyManager, PartyInfo, JoinPartyResult, new, create_party, join_party, leave_party, get_party,
  get_joined_party, put_back, Map, find-erase, find, inl, inr,
}
use dnf_mock_server_client.Party.Invariant.{
  Inv, new-Inv, create_party-Inv, join_party-Inv, leave_party-Inv,
}

pub data Call : Type 0 where
  create : ℕ → Call
  join : ℕ → ℕ → Call
  leave : ℕ → Call

unfoldable pub step : PartyManager → Call → PartyManager
step m (create leader) = (create_party m leader).0
step m (join party_id session) = (join_party m party_id session).0
step m (leave session) = (leave_party m session).0

unfoldable pub run : PartyManager → List Call → PartyManager
run m [] = m
run m (c ∷ cs) = run (step m c) cs

next_grows : (m : PartyManager) (c : Call) → (step m c).next_party_id ≤ m.next_party_id + 1
unfolding step create_party join_party leave_party
next_grows m (create leader) = ground arith
next_grows m (join party_id session) = ground arith
next_grows m (leave session) = ground arith

step-Inv : (m : PartyManager) (c : Call) → Inv m → m.next_party_id + 1 < u64_mod → Inv (step m c)
unfolding step
step-Inv m (create leader) v h = create_party-Inv m v leader h
step-Inv m (join party_id session) v h = join_party-Inv m v party_id session
step-Inv m (leave session) v h = leave_party-Inv m v session

run-Inv :
    (m : PartyManager) (cs : List Call)
    → Inv m
    → m.next_party_id + length cs < u64_mod
    → Inv (run m cs)
unfolding run
run-Inv m [] v h = v
run-Inv m (c ∷ cs) v h =
    run-Inv (step m c) cs (step-Inv m c v (omega arith)) (omega (arith, next_grows m c))

new_next : new.next_party_id ≡ 1
unfolding new
new_next = refl

-- After fewer than 2 ^ 64 - 1 calls on a new manager, every party has one to four distinct members,
-- its leader among them, and a session is registered in a party exactly if it is a member of it.
pub party_run-Inv : (cs : List Call) → length cs + 1 < u64_mod → Inv (run new cs)
party_run-Inv cs h = run-Inv new cs new-Inv (omega (arith, new_next))

-- A successful join.
pub join_party-success :
    (m : PartyManager) (k session : ℕ) (q : PartyInfo)
    → get_party m k ≡ some q
    → get_joined_party m session ≡ none
    → length q.members < 4
    → ((join_party m k session).1 ≡ JoinPartyResult.success)
      × ((j : ℕ)
          → get_party (join_party m k session).0 j ≡ (
              if k == j
              then some (record q { members = q.members ++ session ∷ [] })
              else get_party m j))
      × ((t : ℕ)
          → get_joined_party (join_party m k session).0 t
            ≡ (if session == t then some k else get_joined_party m t))
unfolding join_party get_party get_joined_party
join_party-success m k session q found alone room =
    let grown : PartyInfo = record q { members = q.members ++ session ∷ [] } in
    (
      ground arith,
      λ j. ground (arith, find-assign k j grown m.parties),
      λ t. ground (arith, find-emplace session t k m.joined_parties),
    )

-- A join that is refused changes nothing, and its result names the first test that fails: no such
-- party, a session that is in a party, a full party.
pub join_party_refused :
    (m : PartyManager) (k session : ℕ) {r : JoinPartyResult}
    → (join_party m k session).1 ≡ r
    → r ≢ JoinPartyResult.success
    → ((join_party m k session).0 ≡ m)
      × ((r ≡ JoinPartyResult.party_not_found) ↔ (get_party m k ≡ none))
      × ((r ≡ JoinPartyResult.already_joined)
          ↔ ((is_some (get_party m k) ≡ true) × (is_some (get_joined_party m session) ≡ true)))
unfolding join_party get_party get_joined_party
join_party_refused m k session e bad = ground arith

without-append_one : (a : ℕ) (xs : List ℕ) → elem a xs ≡ false → without a (xs ++ a ∷ []) ≡ xs
without-append_one a [] h = ground arith
without-append_one a (x ∷ xs) h = ground (arith, without-append_one a xs)

-- What is left of a party when a session leaves: nothing, or the remaining members in their order,
-- led by the old leader if he stays and by the first of them if he left.
abbrev pub heir : PartyInfo → ℕ → List ℕ → Option PartyInfo
heir q session [] = none
heir q session (first ∷ rest) = some (record q {
  members = first ∷ rest;
  leader_session_id = if q.leader_session_id == session then first else q.leader_session_id;
})

find-put_back :
    (k session j : ℕ) (q : PartyInfo) (rest : List ℕ) (parties : Map ℕ PartyInfo)
    → find j (put_back k session q rest parties)
      ≡ (if k == j then heir q session rest else find j parties)
unfolding put_back
find-put_back k session j q [] parties = find-erase k j parties
find-put_back k session j q (first ∷ rest) parties = find-assign k j _ parties

-- A session that is registered in a party of the table leaves: that party goes to its heir (the
-- members that stay, led by the first of them if the leader left, or no party if nobody stays), the
-- session is registered nowhere, and no other party and no other session changes.
pub leave_party_lem :
    (m : PartyManager) (k session : ℕ) (q : PartyInfo)
    → get_joined_party m session ≡ some k
    → get_party m k ≡ some q
    → ((leave_party m session).1 ≡ true)
      × ((j : ℕ)
          → get_party (leave_party m session).0 j
            ≡ (if k == j then heir q session (without session q.members) else get_party m j))
      × ((t : ℕ)
          → get_joined_party (leave_party m session).0 t
            ≡ (if session == t then none else get_joined_party m t))
unfolding leave_party get_party get_joined_party
leave_party_lem m k session q joined found = (
  ground arith,
  λ j. ground (arith, find-put_back k session j q (without session q.members) m.parties),
  λ t. ground (arith, find-erase session t m.joined_parties),
)

heir_same :
    (q : PartyInfo) (session : ℕ) (xs : List ℕ)
    → q.members ≡ xs
    → elem q.leader_session_id xs ≡ true
    → elem session xs ≡ false
    → heir (record q { members = q.members ++ session ∷ [] }) session xs ≡ some q
heir_same q session [] e led away = cc
heir_same q session (x ∷ xs) e led away = elim (Bool-cases (q.leader_session_id == session)) [
  | inl same ↦ absurd (ground arith)
  | inr other ↦ ground arith
]

-- In a manager that satisfies the invariant, a session in no party joins a party with room: if it
-- leaves again, every party and every registration is as before.
pub leave_party-join_party :
    (m : PartyManager) (k session : ℕ) (q : PartyInfo)
    → Inv m
    → get_party m k ≡ some q
    → get_joined_party m session ≡ none
    → length q.members < 4
    → let n = (leave_party (join_party m k session).0 session).0 in
      ((j : ℕ) → get_party n j ≡ get_party m j)
      × ((t : ℕ) → get_joined_party n t ≡ get_joined_party m t)
unfolding get_party get_joined_party
leave_party-join_party m k session q v found alone room =
    let grown : PartyInfo = record q { members = q.members ++ session ∷ [] } in
    let (_, parties, joined) = join_party-success m k session q found alone room in
    let away : elem session q.members ≡ false = ground (arith, v.agrees k session) in
    let kept = heir_same q session q.members refl (v.party_ok k q found).led away in
    let (_, parties', joined') =
      leave_party_lem (join_party m k session).0 k session grown (ground (arith, joined session))
        (ground (arith, parties k)) in
    (
      λ j. ground (arith, parties j, parties' j, kept, without-append_one session q.members away),
      λ t. ground (arith, joined t, joined' t),
    )
