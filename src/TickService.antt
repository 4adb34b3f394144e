-- ===== src/TickService.antt =====
-- The tick that drives the dungeons: include/DungeonTickService.h and src/DungeonTickService.cpp.
-- Modelled are the deadline of the next tick and the two loops of `HandleTick` that start, cancel
-- and end dungeons; times are nanoseconds, and the time of the tick is an argument. The snapshots
-- that the loops send do not change this state.
pub mod Deadline
pub mod Waiting
pub mod Cancelled
use dnf_mock_server_client.Prelude.{
  ℕ, nat_eq, ◌+◌, ◌-◌, ◌*◌, ◌/◌, ◌%◌, Bool, false, not, Option, none, some, List, [], ◌∷◌, ltb, leb,
  ◌==◌, if◌then◌else◌, keep_if, u64_mod,
}
use dnf_mock_server_client.Prelude.Except.{Except, ok, err, ◌>>=◌, ◌>>◌}
use dnf_mock_server_client.Map.{Map, find, emplace, erase, size}
use dnf_mock_server_client.EnemyCatalog.{EnemyCatalog}
use dnf_mock_server_client.Room.{RoomError}
use dnf_mock_server_client.Dungeon.{DungeonInstance}
use dnf_mock_server_client.DungeonManager.{find_dungeon, waiting_dungeon_ids, finished_dungeon_ids}
use dnf_mock_server_client.DungeonManager.Lifetime.{start_dungeon}
use dnf_mock_server_client.DungeonUdpManager.{all_participants_authenticated, refresh_all_activity}
use dnf_mock_server_client.Lifecycle.{Service, cancel_waiting, complete}
use dnf_mock_server_client.Prelude.{elem}

-- 1'000'000 / 30 microseconds.
abbrev pub tick_interval : ℕ
tick_interval = 33333000

abbrev pub max_catch_up_ticks : ℕ
max_catch_up_ticks = 2

abbrev pub finished_broadcast_duration : ℕ
finished_broadcast_duration = 1000000000

pub record TickClock : Type 0 where
  pub next_tick : ℕ
  pub missed_tick_count : ℕ  -- uint64

unfoldable pub advance_deadline : TickClock → ℕ → TickClock
advance_deadline t now =
    let next = t.next_tick + tick_interval in
    if ltb now next
    then record t { next_tick = next }
    else let overdue = (now - next) / tick_interval + 1 in
      if leb overdue max_catch_up_ticks
      then record t { next_tick = next }
      else let skipped = overdue - max_catch_up_ticks in
        record {
          next_tick = next + tick_interval * skipped;
          missed_tick_count = (t.missed_tick_count + skipped) % u64_mod;
        }

pub record TickState (E R : Type 0) : Type 0 where
  pub service : Service E R
  pub waiting_since : Map ℕ ℕ
  pub finished_since : Map ℕ ℕ

module _ {R : Type 0} where
  unfoldable pub has_disconnected_participants : DungeonInstance R → Bool
  has_disconnected_participants i = not (size i.disconnected_since == 0)

  -- `waitingDungeon != nullptr && waitingDungeon->HasDisconnectedParticipants()`.
  unfoldable pub is_suspended : Option (DungeonInstance R) → Bool
  unfolding has_disconnected_participants
  is_suspended none = false
  is_suspended (some i) = has_disconnected_participants i

module _ {E R : Type 0} where
  -- The start of a dungeon whose participants are all there; an exception of its first wave ends
  -- the tick.
  unfoldable pub start_ready :
      EnemyCatalog R → ℕ → TickState E R → ℕ → TickState E R × Except RoomError (Unit {0})
  start_ready enemies now t id =
      let started = start_dungeon enemies t.service.manager id in
      let l = record t.service { manager = started.0 } in
      elim started.1 [
        | err e ↦ (record t { service = l }, err e)
        | ok done ↦ (
          record t {
            service = if done then record l { udp = refresh_all_activity l.udp id now } else l;
            waiting_since = erase id t.waiting_since;
          },
          ok tt,
        )
      ]

  -- A dungeon that is not ready: cancelled, if it waits for the time or longer.
  unfoldable pub wait_longer : ℕ → ℕ → TickState E R → ℕ → TickState E R
  wait_longer now timeout t id = elim (find id t.waiting_since) [
    | none ↦ record t { waiting_since = emplace id now t.waiting_since }
    | some since ↦
        if leb timeout (now - since)
        then record t {
          service = (cancel_waiting t.service id).0;
          waiting_since = erase id t.waiting_since;
        }
        else t
  ]

  -- The body of the loop over the waiting dungeons.
  unfoldable pub check_waiting :
      EnemyCatalog R → ℕ → ℕ → TickState E R → ℕ → TickState E R × Except RoomError (Unit {0})
  unfolding start_ready wait_longer is_suspended
  check_waiting enemies now timeout t id =
      if is_suspended (find_dungeon t.service.manager id)
      then (record t { waiting_since = erase id t.waiting_since }, ok tt)
      else if all_participants_authenticated t.service.udp id
      then start_ready enemies now t id
      else (wait_longer now timeout t id, ok tt)

  unfoldable pub check_each :
      EnemyCatalog R → ℕ → ℕ → List ℕ → TickState E R → TickState E R × Except RoomError (Unit {0})
  unfolding check_waiting
  check_each enemies now timeout [] t = (t, ok tt)
  check_each enemies now timeout (id ∷ ids) t =
      let first = check_waiting enemies now timeout t id in
      let rest = check_each enemies now timeout ids first.0 in
      elim first.1 [ err e ↦ (first.0, err e) | ok _ ↦ rest ]

  -- The loop, and the one that forgets the dungeons that do not wait any more.
  unfoldable pub tick_waiting :
      EnemyCatalog R → ℕ → ℕ → TickState E R → TickState E R × Except RoomError (Unit {0})
  unfolding check_each
  tick_waiting enemies now timeout t =
      let ids = waiting_dungeon_ids t.service.manager in
      let checked = check_each enemies now timeout ids t in
      elim checked.1 [
        | err e ↦ (checked.0, err e)
        | ok _ ↦ (
          record checked.0 { waiting_since = keep_if (λ e. elem e.0 ids) checked.0.waiting_since },
          ok tt,
        )
      ]

  -- The body of the loop over the finished dungeons.
  unfoldable pub check_finished : ℕ → TickState E R → ℕ → TickState E R
  check_finished now t id = elim (find_dungeon t.service.manager id) [
    | none ↦ record t { finished_since = erase id t.finished_since }
    | some i ↦
        let since = emplace id now t.finished_since in
        let first : ℕ = elim (find id t.finished_since) [ none ↦ now | some at ↦ at ] in
        if leb finished_broadcast_duration (now - first)
        then record t { service = (complete t.service id).0; finished_since = erase id since }
        else record t { finished_since = since }
  ]

  unfoldable pub finish_each : ℕ → List ℕ → TickState E R → TickState E R
  unfolding check_finished
  finish_each now [] t = t
  finish_each now (id ∷ ids) t = finish_each now ids (check_finished now t id)

  unfoldable pub tick_finished : ℕ → TickState E R → TickState E R
  unfolding finish_each
  tick_finished now t = finish_each now (finished_dungeon_ids t.service.manager) t
