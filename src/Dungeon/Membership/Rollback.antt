-- ===== src/Dungeon/Membership/Rollback.antt =====
-- A reconnect and its rollback.
use dnf_mock_server_client.Prelude.{
  ℕ, nat_eq, ◌<◌, ◌≡◌, refl, sym, ap, inl, inr, true, false, some, arith, Option-cases,
}
use dnf_mock_server_client.Map.{find, contains, emplace, erase}
use dnf_mock_server_client.Map.Laws.{find-assign, find-emplace, find-erase}
use dnf_mock_server_client.Player.{PlayerState}
use dnf_mock_server_client.Dungeon.{DungeonInstance}
use dnf_mock_server_client.Dungeon.Membership.{
  Reconnected, reconnect_participant, rollback_participant_reconnect,
}
use dnf_mock_server_client.Dungeon.Membership.Invariant.{Inv}
use dnf_mock_server_client.Dungeon.Membership.Rename.{
  move_player_lem, renamed, find-renamed, replace_first_back,
}
use dnf_mock_server_client.Dungeon.Membership.Reconnect.{
  lost_player, reconnect_participant-some, reconnect_participant_iff,
  rollback_participant_reconnect-found, rollback_participant_reconnect-renamed,
}

-- The tables say the same of every session and every player, and the list of participants is the
-- same.
pub record Same {R : Type 0} (i k : DungeonInstance R) : Type 0 where
  pub participants : k.participants ≡ i.participants
  pub players : (s : ℕ) → find s k.players ≡ find s i.players
  pub player_ids : (s : ℕ) → find s k.participant_player_ids ≡ find s i.participant_player_ids
  pub sessions : (q : ℕ) → find q k.player_sessions ≡ find q i.player_sessions
  pub away : (s : ℕ) → find s k.disconnected_since ≡ find s i.disconnected_since

module _ {R : Type 0} (i : DungeonInstance R) (v : Inv i) (player new : ℕ) where
  renamed_back :
      (old since : ℕ) (p : PlayerState R)
      → find player i.player_sessions ≡ some old
      → find old i.players ≡ some p
      → find old i.disconnected_since ≡ some since
      → contains new i.players ≡ false
      → let j = renamed i player old new p (erase old i.disconnected_since) in
        Same i (
          renamed j player new old
            (record p { session_id = new })
            (emplace old since j.disconnected_since))
  renamed_back old since p session found lost free =
      let j = renamed i player old new p (erase old i.disconnected_since) in
      let q : PlayerState R = record p { session_id = new } in
      let mine : record q { session_id = old } ≡ p =
        ap (λ n. record p { session_id = n }) (sym (v.own old p found)) in
      record {
        participants = replace_first_back old new i.participants (ground (arith, v.listed new));
        players = λ s. ground (
          arith,
          mine,
          find-renamed i old new new p free found,
          find-renamed i old new old p free found,
          find-renamed i old new s p free found,
          find-renamed j new old s q (ground (arith, find-renamed i old new old p free found))
              (ground (arith, find-renamed i old new new p free found)),
        );
        player_ids = λ s. ground (
          arith,
          find-emplace old s player (erase new j.participant_player_ids),
          find-erase new s j.participant_player_ids,
          find-erase new old j.participant_player_ids,
          find-emplace new s player (erase old i.participant_player_ids),
          find-emplace new old player (erase old i.participant_player_ids),
          find-erase old s i.participant_player_ids,
          find-erase old old i.participant_player_ids,
          v.agree old player,
          v.bound_here new,
        );
        sessions = λ r. ground (
          arith,
          find-assign player r old j.player_sessions,
          find-assign player r new i.player_sessions,
        );
        away = λ s. ground (
          arith,
          find-emplace old s since j.disconnected_since,
          find-erase old s i.disconnected_since,
          find-erase old old i.disconnected_since,
        );
      }

  rolled_back :
      (j : DungeonInstance R) (r : Reconnected) (p : PlayerState R)
      → find player j.player_sessions ≡ some new
      → find new j.players ≡ some p
      → contains r.replaced_session_id j.players ≡ false
      → 0 < player
      → 0 < new
      → 0 < r.replaced_session_id
      → rollback_participant_reconnect j player new r ≡ (
        renamed j player new r.replaced_session_id p
            (emplace r.replaced_session_id r.disconnected_at j.disconnected_since),
        true,
      )
  unfolding rollback_participant_reconnect
  rolled_back j r p session found free named fresh positive =
      ground (arith, move_player_lem j.players new r.replaced_session_id p found positive)

  -- In an instance that satisfies the invariant, the rollback of a reconnect that just succeeded is
  -- accepted and undoes it: every player, with all of its state, every binding, every disconnection
  -- and the list of participants are as before.
  pub rollback_participant_reconnect-reconnect_participant :
      (now grace : ℕ) (r : Reconnected)
      → let back = reconnect_participant i player new now grace in
        back.1 ≡ some r
        → ((rollback_participant_reconnect back.0 player new r).1 ≡ true)
          × Same i (rollback_participant_reconnect back.0 player new r).0
  rollback_participant_reconnect-reconnect_participant now grace r e =
      let c = (reconnect_participant_iff i v player new now grace).0.0 (ground arith) in
      let (p, found) = lost_player i v player new now grace c in
      let done = reconnect_participant-some i v player new now grace p c found in
      let j = renamed i player c.old new p (erase c.old i.disconnected_since) in
      let q : PlayerState R = record p { session_id = new } in
      let undone =
        rolled_back j (record { replaced_session_id = c.old; disconnected_at = c.since }) q
          (ground (arith, find-assign player player new i.player_sessions))
          (ground (arith, find-renamed i c.old new new p c.free found))
          (ground (arith, find-renamed i c.old new c.old p c.free found, c.free)) c.named c.fresh
          (ground (arith, v.positive)) in
      let first : Reconnected = record { replaced_session_id = c.old; disconnected_at = c.since } in
      let same : r ≡ first = ground (arith, done) in
      rw (done, same, undone) (refl, renamed_back c.old c.since p c.session found c.lost c.free)

-- In an instance that satisfies the invariant, if the new session is among the disconnected ones
-- when its reconnect is rolled back, it stays among them, although it is no participant any more.
pub rollback_participant_reconnect-disconnected :
    {R : Type 0} (i : DungeonInstance R) (player new : ℕ) (r : Reconnected)
    → Inv i
    → (rollback_participant_reconnect i player new r).1 ≡ true
    → contains new i.disconnected_since ≡ true
    → let after = (rollback_participant_reconnect i player new r).0 in
      (contains new after.players ≡ false) × (contains new after.disconnected_since ≡ true)
rollback_participant_reconnect-disconnected i player new r v done away =
    let old = r.replaced_session_id in
    let (session, here, free, positive) =
      rollback_participant_reconnect-found i v player new r done in
    elim (Option-cases (find new i.players)) [
      | inl missing ↦ absurd (ground arith)
      | inr (p, found) ↦ rw (rollback_participant_reconnect-renamed i v player new r p done found) (
        ground (arith, find-renamed i new old new p free found),
        ground (arith, find-emplace old new r.disconnected_at i.disconnected_since),
      )
    ]
