-- ===== src/Channel/Invariant.antt =====
-- The number of players of each channel is the number of sessions that joined it.
use Prim.Native.String.{String}
use dnf_mock_server_client.Prelude.{
  ℕ, suc, nat_eq, ◌+◌, ◌-◌, ◌≤◌, ◌<◌, ◌≡◌, refl, inl, inr, false, none, some, List, [], ◌∷◌, arith,
  ◌==◌, if◌then◌else◌, Option-cases,
}
use dnf_mock_server_client.Map.{Map, find, contains, emplace, erase, IsMap}
use dnf_mock_server_client.Map.Laws.{find-assign, find-emplace}
use dnf_mock_server_client.Map.Size.{emplace-IsMap, erase-IsMap, erase_missing}
use dnf_mock_server_client.Channel.{
  ChannelManager, ChannelInfo, new, add_channel, join_channel, leave_channel, one_less,
}

-- The sessions that are in a channel.
abbrev pub occupants : ℕ → Map ℕ ℕ → ℕ
occupants c [] = 0
occupants c ((s, k) ∷ m) = if k == c then suc (occupants c m) else occupants c m

occupants-emplace :
    (c s k : ℕ) (m : Map ℕ ℕ)
    → contains s m ≡ false
    → occupants c (emplace s k m) ≡ occupants c m + (if k == c then 1 else 0)
unfolding find emplace
occupants-emplace c s k [] h = ground arith
occupants-emplace c s k ((t, j) ∷ m) h = ground (arith, occupants-emplace c s k m)

occupants-erase :
    (c s k : ℕ) (m : Map ℕ ℕ)
    → IsMap m
    → find s m ≡ some k
    → occupants c (erase s m) + (if k == c then 1 else 0) ≡ occupants c m
unfolding find erase
occupants-erase c s k [] u h = cc
occupants-erase c s k ((t, j) ∷ m) u h =
    ground (arith, occupants-erase c s k m u.1, erase_missing s m)

occupants_found : (s k : ℕ) (m : Map ℕ ℕ) → find s m ≡ some k → 0 < occupants k m
unfolding find
occupants_found s k [] h = cc
occupants_found s k ((t, j) ∷ m) h = ground (arith, occupants_found s k m)

-- The players that the table counts in a channel; none, if there is no such channel.
abbrev pub players : ℕ → Map ℕ ChannelInfo → ℕ
players i channels = elim (find i channels) [ none ↦ 0 | some c ↦ c.current_players ]

pub record IsChannel (channel_id : ℕ) (c : ChannelInfo) : Type 0 where
  pub same_id : c.id ≡ channel_id
  pub nonzero : 0 < channel_id
  pub roomy : 0 < c.max_players
  pub bounded : c.current_players ≤ c.max_players

pub record Inv (m : ChannelManager) : Type 0 where
  pub channel_ok : (i : ℕ) (c : ChannelInfo) → find i m.channels ≡ some c → IsChannel i c
  pub counted : (i : ℕ) → players i m.channels ≡ occupants i m.joined_channels
  pub joined_map : IsMap m.joined_channels

pub new-Inv : Inv new
unfolding new find
new-Inv = record { channel_ok = λ i c e. cc; counted = λ i. refl; joined_map = tt }

module _ (m : ChannelManager) (v : Inv m) where
  pub add_channel-Inv :
      (id : ℕ) (name : String) (max_players : ℕ) → Inv (add_channel m id name max_players).0
  unfolding add_channel
  add_channel-Inv id name max_players =
      let c : ChannelInfo = record {
        id = id;
        name = name;
        current_players = 0;
        max_players = max_players;
      } in
      record {
        channel_ok = λ i d e. ground (arith, find-emplace id i c m.channels, v.channel_ok i d);
        counted = λ i. ground (arith, find-emplace id i c m.channels, v.counted i);
        joined_map = ground (arith, v.joined_map);
      }

  pub join_channel-Inv : (session id : ℕ) → Inv (join_channel m session id).0
  unfolding join_channel
  join_channel-Inv session id = elim (Option-cases (find id m.channels)) [
    | inl missing ↦ rw (missing, join_channel) v
    | inr (c, found) ↦
        let more : ChannelInfo = record c { current_players = c.current_players + 1 } in
        record {
          channel_ok = λ i d e.
              ground (
                arith,
                find-assign id i more m.channels,
                v.channel_ok i d,
                v.channel_ok id c found,
              );
          counted = λ i. ground (
            arith,
            find-assign id i more m.channels,
            v.counted i,
            occupants-emplace i session id m.joined_channels,
          );
          joined_map =
              ground (arith, v.joined_map, emplace-IsMap session id m.joined_channels v.joined_map);
        }
  ]

  pub leave_channel-Inv : (session : ℕ) → Inv (leave_channel m session).0
  unfolding leave_channel one_less
  leave_channel-Inv session = elim (Option-cases (find session m.joined_channels)) [
    | inl away ↦ rw (away, leave_channel) v
    | inr (id, joined) ↦ elim (Option-cases (find id m.channels)) [
      | inl missing ↦
          absurd (ground (arith, v.counted id, occupants_found session id m.joined_channels joined))
      | inr (c, found) ↦
          let fewer : ChannelInfo = record c { current_players = c.current_players - 1 } in
          record {
            channel_ok = λ i d e. ground (
              arith,
              find-assign id i fewer m.channels,
              v.channel_ok i d,
              v.channel_ok id c found,
            );
            counted = λ i. ground (
              arith,
              find-assign id i fewer m.channels,
              v.counted i,
              v.counted id,
              occupants_found session id m.joined_channels joined,
              occupants-erase i session id m.joined_channels v.joined_map joined,
            );
            joined_map = ground (arith, erase-IsMap session m.joined_channels v.joined_map);
          }
    ]
  ]

pub data Call : Type 0 where
  add : ℕ → String → ℕ → Call
  join : ℕ → ℕ → Call
  leave : ℕ → Call

unfoldable pub step : ChannelManager → Call → ChannelManager
step m (add id name max_players) = (add_channel m id name max_players).0
step m (join session id) = (join_channel m session id).0
step m (leave session) = (leave_channel m session).0

step-Inv : (m : ChannelManager) (c : Call) → Inv m → Inv (step m c)
unfolding step
step-Inv m (add id name max_players) v = add_channel-Inv m v id name max_players
step-Inv m (join session id) v = join_channel-Inv m v session id
step-Inv m (leave session) v = leave_channel-Inv m v session

unfoldable pub run : ChannelManager → List Call → ChannelManager
run m [] = m
run m (c ∷ cs) = run (step m c) cs

run-Inv : (m : ChannelManager) (cs : List Call) → Inv m → Inv (run m cs)
unfolding run
run-Inv m [] v = v
run-Inv m (c ∷ cs) v = run-Inv (step m c) cs (step-Inv m c v)

-- After any calls on a new manager, each channel counts exactly the sessions that joined it and
-- have not left, and never more than its limit.
pub channel_run-Inv : (cs : List Call) → Inv (run new cs)
channel_run-Inv cs = run-Inv new cs new-Inv
