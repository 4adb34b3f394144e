-- ===== src/Dungeon/Membership/Rename.antt =====
-- A participant gets another session id: what a reconnect and its rollback have in common.
use dnf_mock_server_client.Prelude.{
  ℕ, nat_eq, ◌<◌, ◌≡◌, refl, true, false, none, some, List, [], ◌∷◌, arith, ◌==◌, if◌then◌else◌,
  length, Distinct, elem,
}
use dnf_mock_server_client.Map.{Map, find, contains, assign, emplace, erase, IsMap}
use dnf_mock_server_client.Map.Laws.{find-assign, find-emplace, find-erase}
use dnf_mock_server_client.Map.Size.{emplace-IsMap, erase-IsMap}
use dnf_mock_server_client.Player.{PlayerState, rebind_session}
use dnf_mock_server_client.Dungeon.{DungeonInstance}
use dnf_mock_server_client.Dungeon.Membership.{move_player, replace_first}
use dnf_mock_server_client.Dungeon.Membership.Invariant.{Inv}

pub elem-replace_first :
    (old new a : ℕ) (xs : List ℕ)
    → Distinct xs
    → elem old xs ≡ true
    → elem new xs ≡ false
    → elem a (replace_first old new xs)
      ≡ (if new == a then true else (if old == a then false else elem a xs))
unfolding replace_first
elem-replace_first old new a [] d h k = cc
elem-replace_first old new a (x ∷ xs) d h k = ground (arith, elem-replace_first old new a xs d.1)

pub Distinct-replace_first :
    (old new : ℕ) (xs : List ℕ)
    → Distinct xs
    → elem old xs ≡ true
    → elem new xs ≡ false
    → Distinct (replace_first old new xs)
unfolding replace_first
Distinct-replace_first old new [] d h k = tt
Distinct-replace_first old new (x ∷ xs) d h k =
    ground (arith, Distinct-replace_first old new xs d.1, elem-replace_first old new x xs d.1)

pub length-replace_first :
    (old new : ℕ) (xs : List ℕ) → length (replace_first old new xs) ≡ length xs
unfolding replace_first
length-replace_first old new [] = refl
length-replace_first old new (x ∷ xs) = ground (arith, length-replace_first old new xs)

pub replace_first_back :
    (old new : ℕ) (xs : List ℕ)
    → elem new xs ≡ false
    → replace_first new old (replace_first old new xs) ≡ xs
unfolding replace_first
replace_first_back old new [] k = refl
replace_first_back old new (x ∷ xs) k = ground (arith, replace_first_back old new xs)

module _ {R : Type 0} where
  -- A player of the table moves to a session id that is not 0.
  pub move_player_lem :
      (players : Map ℕ (PlayerState R)) (old new : ℕ) (p : PlayerState R)
      → find old players ≡ some p
      → 0 < new
      → move_player players old new
        ≡ (emplace new (record p { session_id = new }) (erase old players), true)
  unfolding move_player rebind_session
  move_player_lem players old new p found positive = ground arith

  abbrev pub renamed : DungeonInstance R → ℕ → ℕ → ℕ → PlayerState R → Map ℕ ℕ → DungeonInstance R
  renamed i player old new p away = record i {
    players = emplace new (record p { session_id = new }) (erase old i.players);
    participant_player_ids = emplace new player (erase old i.participant_player_ids);
    player_sessions = assign player new i.player_sessions;
    disconnected_since = away;
    participants = replace_first old new i.participants;
  }

  pub find-renamed :
      (i : DungeonInstance R) (old new s : ℕ) (p : PlayerState R)
      → contains new i.players ≡ false
      → find old i.players ≡ some p
      → find s (emplace new (record p { session_id = new }) (erase old i.players)) ≡ (
          if new == s
          then some (record p { session_id = new })
          else (if old == s then none else find s i.players))
  find-renamed i old new s p fresh found = ground (
    arith,
    find-emplace new s (record p { session_id = new }) (erase old i.players),
    find-erase old s i.players,
    find-erase old new i.players,
  )

  pub renamed-Inv :
      (i : DungeonInstance R) (player old new : ℕ) (p : PlayerState R) (away : Map ℕ ℕ)
      → Inv i
      → find player i.player_sessions ≡ some old
      → find old i.players ≡ some p
      → contains new i.players ≡ false
      → 0 < new
      → IsMap away
      → ((s : ℕ)
          → contains s away ≡ true
          → contains s (emplace new (record p { session_id = new }) (erase old i.players)) ≡ true)
      → Inv (renamed i player old new p away)
  renamed-Inv i player old new p away v session found fresh nonzero distinct_away here =
      let ids' = erase old i.participant_player_ids in
      record {
        listed = λ s. ground (
          arith,
          find-renamed i old new s p,
          elem-replace_first old new s i.participants v.distinct,
          v.listed s,
          v.listed old,
          v.listed new,
        );
        distinct =
            Distinct-replace_first old new i.participants v.distinct (ground (arith, v.listed old))
              (ground (arith, v.listed new));
        positive = ground (arith, find-renamed i old new 0 p, v.positive);
        few = omega (arith, v.few, length-replace_first old new i.participants);
        own = λ s q h. ground (arith, find-renamed i old new s p, v.own s q);
        agree = λ s q. ground (
          arith,
          find-emplace new s player ids',
          find-erase old s i.participant_player_ids,
          find-erase old new i.participant_player_ids,
          find-assign player q new i.player_sessions,
          v.agree s q,
          v.agree old q,
          v.agree new q,
          v.agree s player,
          v.bound_here new,
        );
        bound_here = λ s h. ground (
          arith,
          find-renamed i old new s p,
          find-emplace new s player ids',
          find-erase old s i.participant_player_ids,
          v.bound_here s,
        );
        away_here = here;
        players_map =
            emplace-IsMap new (record p { session_id = new }) (erase old i.players)
              (erase-IsMap old i.players v.players_map);
        away_map = distinct_away;
      }
