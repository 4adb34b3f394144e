-- ===== src/TickService/Deadline.antt =====
-- The deadlines of `AdvanceDeadline`.
use dnf_mock_server_client.Prelude.{
  ℕ, nat_eq, ◌+◌, ◌-◌, ◌*◌, ◌/◌, ◌%◌, ◌≤◌, ◌<◌, ◌≡◌, ◌⊎◌, arith, u64_mod,
}
use dnf_mock_server_client.TickService.{
  TickClock, tick_interval, max_catch_up_ticks, advance_deadline,
}

-- A deadline moves on by whole intervals, one and those that are skipped; the skipped ones are
-- counted as missed. Afterwards at most two intervals have begun that are not processed, and none
-- is skipped that could have been caught up.
pub advance_deadline_lem :
    (t : TickClock) (now : ℕ)
    → let after = advance_deadline t now in
      let skipped = (after.next_tick - t.next_tick) / tick_interval - 1 in
      (after.next_tick ≡ t.next_tick + tick_interval * (1 + skipped))
      × ((after.missed_tick_count ≡ (t.missed_tick_count + skipped) % u64_mod)
          ⊎ ((after.missed_tick_count ≡ t.missed_tick_count) × (skipped ≡ 0)))
      × (now < after.next_tick + tick_interval * max_catch_up_ticks)
      × ((skipped ≡ 0) ⊎ (after.next_tick + tick_interval ≤ now))
unfolding advance_deadline
advance_deadline_lem t now = ground arith
