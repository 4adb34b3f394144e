-- ===== src/Party/Invariant.antt =====
-- The two maps of the party manager describe the same membership.
use dnf_mock_server_client.Prelude.{
  if◌then◌else◌, ℕ, nat_eq, ◌+◌, ◌≤◌, ◌<◌, ◌≡◌, inl, inr, Bool, true, false, none, some, [], ◌∷◌,
  ◌++◌, arith, Option-cases, length, length-append, u64_mod, ◌↔◌, List, without, refl, elem-without,
  ◌==◌, Distinct-without, length-without,
}
use dnf_mock_server_client.Map.{Map, find}
use dnf_mock_server_client.Map.Laws.{find-assign, find-emplace}
use dnf_mock_server_client.Prelude.{elem, Distinct, elem-append, Distinct-append_one}
use dnf_mock_server_client.Party.{
  PartyManager, PartyInfo, new, create_party, join_party, max_party_members, leave_party, put_back,
  erase, find-erase,
}

-- A party of the table.
pub record IsParty (next party_id : ℕ) (p : PartyInfo) : Type 0 where
  pub same_id : p.id ≡ party_id
  pub old : party_id < next
  pub occupied : 0 < length p.members
  pub bounded : length p.members ≤ max_party_members
  pub distinct : Distinct p.members
  pub led : elem p.leader_session_id p.members ≡ true

-- Whether a session is among the members of a party of the table.
abbrev pub is_member : Map ℕ PartyInfo → ℕ → ℕ → Bool
is_member parties party_id session = elim (find party_id parties) [
  | none ↦ false
  | some p ↦ elem session p.members
]

pub record Inv (m : PartyManager) : Type 0 where
  pub party_ok :
      (party_id : ℕ) (p : PartyInfo)
      → find party_id m.parties ≡ some p
      → IsParty m.next_party_id party_id p
  pub agrees :
      (party_id session : ℕ)
      → (is_member m.parties party_id session ≡ true)
        ↔ (find session m.joined_parties ≡ some party_id)

pub new-Inv : Inv new
unfolding new find
new-Inv = record { party_ok = λ i p e. cc; agrees = λ i s. (λ h. cc, λ h. cc) }

abbrev founded : ℕ → ℕ → PartyInfo
founded i leader = record { id = i; leader_session_id = leader; members = leader ∷ [] }

module _ (m : PartyManager) (v : Inv m) where
  fresh : find m.next_party_id m.parties ≡ none
  fresh = elim (Option-cases (find m.next_party_id m.parties)) [
    | inl e ↦ e
    | inr (p, e) ↦ absurd (omega (arith, v.party_ok m.next_party_id p e))
  ]

  pub create_party-Inv :
      (leader : ℕ) → m.next_party_id + 1 < u64_mod → Inv (create_party m leader).0
  unfolding create_party
  create_party-Inv leader room = record {
    party_ok = λ i p e. ground (
      arith,
      fresh,
      find-emplace m.next_party_id i (founded m.next_party_id leader) m.parties,
      v.party_ok i p,
    );
    agrees = λ i s. ground (
      arith,
      fresh,
      find-emplace m.next_party_id i (founded m.next_party_id leader) m.parties,
      find-emplace leader s m.next_party_id m.joined_parties,
      v.agrees i s,
      v.agrees i leader,
    );
  }

  pub join_party-Inv : (party_id session : ℕ) → Inv (join_party m party_id session).0
  unfolding join_party
  join_party-Inv k session = elim (Option-cases (find k m.parties)) [
    | inl missing ↦ rw (missing, join_party) v
    | inr (q, found) ↦
        let grown : PartyInfo = record q { members = q.members ++ session ∷ [] } in
        record {
          party_ok = λ i p e. ground (
            arith,
            find-assign k i grown m.parties,
            v.party_ok i p,
            v.party_ok k q found,
            v.agrees k session,
            Distinct-append_one session q.members,
            length-append q.members (session ∷ []),
            elem-append q.leader_session_id q.members (session ∷ []),
          );
          agrees = λ i s. ground (
            arith,
            find-assign k i grown m.parties,
            find-emplace session s k m.joined_parties,
            v.agrees i s,
            elem-append s q.members (session ∷ []),
          );
        }
  ]

  module _ (k session : ℕ) (q : PartyInfo) (joined : find session m.joined_parties ≡ some k)
      (found : find k m.parties ≡ some q) where
    abbrev left : List ℕ → PartyManager
    left rest = record m {
      parties = put_back k session q rest m.parties;
      joined_parties = erase session m.joined_parties;
    }

    left-Inv : (rest : List ℕ) → without session q.members ≡ rest → Inv (left rest)
    unfolding put_back
    left-Inv [] e = record {
      party_ok = λ i p f. ground (arith, find-erase k i m.parties, v.party_ok i p);
      agrees = λ i s. ground (
        arith,
        find-erase k i m.parties,
        find-erase session s m.joined_parties,
        v.agrees i s,
        elem-without s session q.members,
        v.agrees k session,
      );
    }
    left-Inv (first ∷ rest) e =
        let smaller : PartyInfo = record q {
          members = first ∷ rest;
          leader_session_id = if q.leader_session_id == session then first else q.leader_session_id;
        } in
        record {
          party_ok = λ i p f. ground (
            arith,
            find-assign k i smaller m.parties,
            v.party_ok i p,
            v.party_ok k q found,
            Distinct-without session q.members (v.party_ok k q found).distinct,
            length-without session q.members (v.party_ok k q found).distinct,
            elem-without q.leader_session_id session q.members,
          );
          agrees = λ i s. ground (
            arith,
            find-assign k i smaller m.parties,
            find-erase session s m.joined_parties,
            v.agrees i s,
            elem-without s session q.members,
            v.agrees k session,
          );
        }

  pub leave_party-Inv : (session : ℕ) → Inv (leave_party m session).0
  unfolding leave_party
  leave_party-Inv session = elim (Option-cases (find session m.joined_parties)) [
    | inl alone ↦ rw (alone, leave_party) v
    | inr (k, joined) ↦ elim (Option-cases (find k m.parties)) [
      | inl missing ↦ absurd (ground (arith, v.agrees k session))
      | inr (q, found) ↦
          rw (joined, leave_party)
            (rw (found, leave_party) (left-Inv k session q joined found _ refl))
    ]
  ]
