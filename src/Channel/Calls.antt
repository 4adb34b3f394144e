-- ===== src/Channel/Calls.antt =====
-- What the clients of the channel manager see.
use dnf_mock_server_client.Prelude.{
  ℕ, nat_eq, ◌+◌, ◌<◌, ◌≡◌, inl, inr, none, some, map, arith, Option-cases, ◌↔◌,
}
use dnf_mock_server_client.Map.{find, assign, emplace}
use dnf_mock_server_client.Map.Laws.{find-assign, find-emplace, find-erase}
use mathlib.Core.List.{Perm}
use dnf_mock_server_client.Sort.{IsSorted, sort_by-IsSorted, sort_by-perm}
use dnf_mock_server_client.Channel.{
  ChannelManager, ChannelInfo, JoinChannelResult, join_channel, leave_channel, one_less,
  get_channel_list, get_joined_channel,
}
use dnf_mock_server_client.Channel.Invariant.{Inv, occupants}

-- In a manager that satisfies the invariant, a session gets into a channel of the table exactly
-- when it is in no channel and fewer sessions are in this one than it admits.
pub join_channel-success_iff :
    (m : ChannelManager) (session id : ℕ) (c : ChannelInfo)
    → Inv m
    → find id m.channels ≡ some c
    → ((join_channel m session id).1 ≡ JoinChannelResult.success)
      ↔ ((get_joined_channel m session ≡ none) × (occupants id m.joined_channels < c.max_players))
unfolding join_channel get_joined_channel
join_channel-success_iff m session id c v found = ground (arith, v.counted id)

-- In a manager that satisfies the invariant, if a session joins a channel and leaves again, every
-- channel and every membership is as before.
pub leave_channel-join_channel :
    (m : ChannelManager) (session id : ℕ)
    → Inv m
    → (join_channel m session id).1 ≡ JoinChannelResult.success
    → let n = (leave_channel (join_channel m session id).0 session).0 in
      ((j : ℕ) → find j n.channels ≡ find j m.channels)
      × ((t : ℕ) → get_joined_channel n t ≡ get_joined_channel m t)
unfolding join_channel leave_channel one_less get_joined_channel
leave_channel-join_channel m session id v done = elim (Option-cases (find id m.channels)) [
  | inl missing ↦ absurd (ground arith)
  | inr (c, found) ↦
      let more : ChannelInfo = record c { current_players = c.current_players + 1 } in
      let channels' = assign id more m.channels in
      (
        λ j. ground (
          arith,
          find-assign id j more m.channels,
          find-assign id id more m.channels,
          find-assign id j c channels',
          find-emplace session session id m.joined_channels,
        ),
        λ t. ground (
          arith,
          find-emplace session t id m.joined_channels,
          find-emplace session session id m.joined_channels,
          find-erase session t (emplace session id m.joined_channels),
        ),
      )
]

-- The list shows each channel of the table once, by rising id.
pub get_channel_list-IsSorted :
    (m : ChannelManager)
    → IsSorted (λ c. c.id) (get_channel_list m)
      × Perm (get_channel_list m) (map (λ e. e.1) m.channels)
unfolding get_channel_list
get_channel_list-IsSorted m = (sort_by-IsSorted _ _, sort_by-perm _ _)
