-- ===== src/Channel.antt =====
-- Channels with a limit on players: include/ChannelManager.h and src/ChannelManager.cpp. Each
-- method holds the mutex for its whole body, so it is one step.
pub mod Invariant
pub mod Calls
use Prim.Native.String.{String}
use dnf_mock_server_client.Prelude.{string_eq}
use dnf_mock_server_client.Prelude.{
  ℕ, suc, nat_eq, ◌+◌, ◌-◌, Bool, true, false, ◌||◌, Option, none, some, List, [], map, ltb, leb,
  ◌==◌, if◌then◌else◌,
}
use dnf_mock_server_client.Prelude.Except.{◌>>=◌, ◌>>◌}
use dnf_mock_server_client.Map.{Map, find, contains, assign, emplace, erase}
use dnf_mock_server_client.Sort.{sort_by}

pub record ChannelInfo : Type 0 where
  pub id : ℕ
  pub name : String
  pub current_players : ℕ
  pub max_players : ℕ

pub data JoinChannelResult : Type 0 where
  success channel_not_found channel_full already_joined : JoinChannelResult

pub record ChannelManager : Type 0 where
  pub channels : Map ℕ ChannelInfo
  pub joined_channels : Map ℕ ℕ

unfoldable pub new : ChannelManager
new = record { channels = []; joined_channels = [] }

unfoldable pub add_channel : ChannelManager → ℕ → String → ℕ → ChannelManager × Bool
add_channel m channel_id name max_players =
    if channel_id == 0 || name == "" || max_players == 0 || contains channel_id m.channels
    then (m, false)
    else (
      record m {
        channels =
            emplace channel_id
              (record {
                id = channel_id;
                name = name;
                current_players = 0;
                max_players = max_players;
              })
              m.channels;
      },
      true,
    )

unfoldable pub get_channel_list : ChannelManager → List ChannelInfo
get_channel_list m = sort_by (λ c. c.id) (map (λ e. e.1) m.channels)

unfoldable pub join_channel : ChannelManager → ℕ → ℕ → ChannelManager × JoinChannelResult
join_channel m session channel_id = elim (find channel_id m.channels) [
  | none ↦ (m, JoinChannelResult.channel_not_found)
  | some channel ↦
      if contains session m.joined_channels
      then (m, JoinChannelResult.already_joined)
      else if leb channel.max_players channel.current_players
      then (m, JoinChannelResult.channel_full)
      else (
        record {
          channels =
              assign channel_id (record channel { current_players = channel.current_players + 1 })
                m.channels;
          joined_channels = emplace session channel_id m.joined_channels;
        },
        JoinChannelResult.success,
      )
]

-- The guarded `--channel.currentPlayers`.
unfoldable pub one_less : ℕ → Map ℕ ChannelInfo → Map ℕ ChannelInfo
one_less channel_id channels = elim (find channel_id channels) [
  | none ↦ channels
  | some channel ↦
      if ltb 0 channel.current_players
      then assign channel_id (record channel { current_players = channel.current_players - 1 })
          channels
      else channels
]

unfoldable pub leave_channel : ChannelManager → ℕ → ChannelManager × Bool
leave_channel m session = elim (find session m.joined_channels) [
  | none ↦ (m, false)
  | some channel_id ↦ (
    record {
      channels = one_less channel_id m.channels;
      joined_channels = erase session m.joined_channels;
    },
    true,
  )
]

unfoldable pub get_joined_channel : ChannelManager → ℕ → Option ℕ
get_joined_channel m session = find session m.joined_channels
