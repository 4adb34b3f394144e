-- ===== src/Party.antt =====
-- Parties of up to four sessions: include/PartyManager.h and src/PartyManager.cpp. Each method
-- holds the mutex for its whole body, so it is one step.
pub mod Invariant
pub mod Calls
use dnf_mock_server_client.Prelude.{
  ℕ, suc, nat_eq, ◌+◌, ◌%◌, inl, inr, Bool, true, false, Option, none, some, List, [], ◌∷◌, ◌++◌,
  leb, ◌==◌, if◌then◌else◌, length, u64_mod, without,
}
use dnf_mock_server_client.Prelude.Except.{◌>>=◌, ◌>>◌}
use dnf_mock_server_client.Map.{Map, find, contains, assign, emplace, erase}
use dnf_mock_server_client.Map.Laws.{find-erase}

abbrev pub max_party_members : ℕ
max_party_members = 4

pub record PartyInfo : Type 0 where
  pub id : ℕ
  pub leader_session_id : ℕ
  pub members : List ℕ

pub data JoinPartyResult : Type 0 where
  success party_not_found party_full already_joined : JoinPartyResult

pub record PartyManager : Type 0 where
  pub next_party_id : ℕ  -- uint64
  pub parties : Map ℕ PartyInfo
  pub joined_parties : Map ℕ ℕ

unfoldable pub new : PartyManager
new = record { next_party_id = 1; parties = []; joined_parties = [] }

unfoldable pub create_party : PartyManager → ℕ → PartyManager × Option ℕ
create_party m leader = if contains leader m.joined_parties then (m, none) else (
  record {
    next_party_id = (party_id + 1) % u64_mod;
    parties =
        emplace party_id
          (record { id = party_id; leader_session_id = leader; members = leader ∷ [] }) m.parties;
    joined_parties = emplace leader party_id m.joined_parties;
  },
  some party_id,
)
  where
    party_id : ℕ
    party_id = m.next_party_id

unfoldable pub join_party : PartyManager → ℕ → ℕ → PartyManager × JoinPartyResult
join_party m party_id session = elim (find party_id m.parties) [
  | none ↦ (m, JoinPartyResult.party_not_found)
  | some party ↦
      if contains session m.joined_parties
      then (m, JoinPartyResult.already_joined)
      else if leb max_party_members (length party.members)
      then (m, JoinPartyResult.party_full)
      else (
        record m {
          parties =
              assign party_id (record party { members = party.members ++ session ∷ [] }) m.parties;
          joined_parties = emplace session party_id m.joined_parties;
        },
        JoinPartyResult.success,
      )
]

-- The party without the session: it is dropped when empty, and led by its first member when the
-- leader went.
unfoldable pub put_back : ℕ → ℕ → PartyInfo → List ℕ → Map ℕ PartyInfo → Map ℕ PartyInfo
put_back party_id session party [] parties = erase party_id parties
put_back party_id session party (first ∷ rest) parties =
    assign party_id
      (record party {
        members = first ∷ rest;
        leader_session_id =
            if party.leader_session_id == session then first else party.leader_session_id;
      })
      parties

unfoldable pub leave_party : PartyManager → ℕ → PartyManager × Bool
leave_party m session = elim (find session m.joined_parties) [
  | none ↦ (m, false)
  | some party_id ↦ elim (find party_id m.parties) [
    | none ↦ (record m { joined_parties = erase session m.joined_parties }, false)
    | some party ↦ (
      record m {
        parties = put_back party_id session party (without session party.members) m.parties;
        joined_parties = erase session m.joined_parties;
      },
      true,
    )
  ]
]

unfoldable pub get_party : PartyManager → ℕ → Option PartyInfo
get_party m party_id = find party_id m.parties

unfoldable pub get_joined_party : PartyManager → ℕ → Option ℕ
get_joined_party m session = find session m.joined_parties
