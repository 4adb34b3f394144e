-- ===== src/Examples/Sessions.antt =====
-- Two sessions in a party, and in a channel.
use dnf_mock_server_client.Prelude.{nat_eq, ◌≡◌, refl, subst, none, some, List, [], ◌∷◌, arith}
use dnf_mock_server_client.Map.{find, assign, emplace}
use dnf_mock_server_client.Prelude.{string_eq}
use dnf_mock_server_client.Party
use dnf_mock_server_client.Party.{
  PartyManager, PartyInfo, JoinPartyResult, create_party, join_party, leave_party, get_party,
  get_joined_party,
}
use dnf_mock_server_client.Party.Invariant as PartyInvariant
use dnf_mock_server_client.Party.Calls as PartyCalls
use dnf_mock_server_client.Party.Calls.{
  party_run-Inv, join_party-success, join_party_refused, leave_party_lem, leave_party-join_party,
  heir,
}
use dnf_mock_server_client.Channel
use dnf_mock_server_client.Channel.{
  ChannelManager, ChannelInfo, JoinChannelResult, add_channel, join_channel, leave_channel,
  get_channel_list, get_joined_channel,
}
use dnf_mock_server_client.Channel.Invariant as ChannelInvariant
use dnf_mock_server_client.Channel.Invariant.{channel_run-Inv, occupants}

abbrev party_calls : List PartyCalls.Call
party_calls = PartyCalls.create 5 ∷ PartyCalls.join 1 6 ∷ []

abbrev pub pair : PartyInfo
pair = record { id = 1; leader_session_id = 5; members = 5 ∷ 6 ∷ [] }

abbrev pub parties : PartyManager
parties = record {
  next_party_id = 2;
  parties = (1, pair) ∷ [];
  joined_parties = (5, 1) ∷ (6, 1) ∷ [];
}

ran_party : PartyCalls.run Party.new party_calls ≡ parties
unfolding PartyCalls.run PartyCalls.step Party.new create_party join_party find assign emplace
ran_party = refl

party_run-Inv_example : PartyInvariant.Inv (PartyCalls.run Party.new party_calls)
party_run-Inv_example = party_run-Inv party_calls (omega arith)

pub parties-Inv : PartyInvariant.Inv parties
parties-Inv = subst PartyInvariant.Inv ran_party (party_run-Inv party_calls (omega arith))

found_pair : get_party parties 1 ≡ some pair
unfolding get_party find
found_pair = refl

seven_alone : get_joined_party parties 7 ≡ none
unfolding get_joined_party find
seven_alone = refl

five_joined : get_joined_party parties 5 ≡ some 1
unfolding get_joined_party find
five_joined = refl

abbrev channel_calls : List ChannelInvariant.Call
channel_calls = ChannelInvariant.add 3 "town" 2 ∷ ChannelInvariant.join 5 3 ∷ []

abbrev town : ChannelInfo
town = record { id = 3; name = "town"; current_players = 1; max_players = 2 }

abbrev channels : ChannelManager
channels = record { channels = (3, town) ∷ []; joined_channels = (5, 3) ∷ [] }

ran_channel : ChannelInvariant.run Channel.new channel_calls ≡ channels
unfolding ChannelInvariant.run ChannelInvariant.step Channel.new add_channel join_channel find
    assign emplace
ran_channel = refl

channel_run-Inv_example : ChannelInvariant.Inv (ChannelInvariant.run Channel.new channel_calls)
channel_run-Inv_example = channel_run-Inv channel_calls

channels-Inv : ChannelInvariant.Inv channels
channels-Inv = subst ChannelInvariant.Inv ran_channel (channel_run-Inv channel_calls)

found_town : find 3 channels.channels ≡ some town
unfolding find
found_town = refl

six_joins : (join_channel channels 6 3).1 ≡ JoinChannelResult.success
unfolding join_channel find
six_joins = refl
