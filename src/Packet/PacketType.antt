-- ===== src/Packet/PacketType.antt =====
-- The values of `enum PacketType : std::uint16_t` of include/Packet.h.
use dnf_mock_server_client.Prelude.{ℕ}

abbrev pub login_request : ℕ
login_request = 1

abbrev pub channel_list_request : ℕ
channel_list_request = 2

abbrev pub join_channel_request : ℕ
join_channel_request = 3

abbrev pub enter_dungeon_request : ℕ
enter_dungeon_request = 4

abbrev pub dungeon_connection_info_request : ℕ
dungeon_connection_info_request = 5

abbrev pub create_party_request : ℕ
create_party_request = 6

abbrev pub join_party_request : ℕ
join_party_request = 7

abbrev pub leave_party_request : ℕ
leave_party_request = 8

abbrev pub party_snapshot_request : ℕ
party_snapshot_request = 9

abbrev pub dungeon_catalog_request : ℕ
dungeon_catalog_request = 10

abbrev pub dungeon_static_data_request : ℕ
dungeon_static_data_request = 11

abbrev pub auth_login_request : ℕ
auth_login_request = 201

abbrev pub auth_character_list_request : ℕ
auth_character_list_request = 202

abbrev pub auth_character_selection_request : ℕ
auth_character_selection_request = 203

abbrev pub login_response : ℕ
login_response = 101

abbrev pub channel_list_response : ℕ
channel_list_response = 102

abbrev pub join_channel_response : ℕ
join_channel_response = 103

abbrev pub enter_dungeon_response : ℕ
enter_dungeon_response = 104

abbrev pub dungeon_connection_info_response : ℕ
dungeon_connection_info_response = 105

abbrev pub create_party_response : ℕ
create_party_response = 106

abbrev pub join_party_response : ℕ
join_party_response = 107

abbrev pub leave_party_response : ℕ
leave_party_response = 108

abbrev pub party_snapshot_response : ℕ
party_snapshot_response = 109

abbrev pub dungeon_catalog_response : ℕ
dungeon_catalog_response = 110

abbrev pub dungeon_static_data_response : ℕ
dungeon_static_data_response = 111

abbrev pub auth_login_response : ℕ
auth_login_response = 301

abbrev pub auth_character_list_response : ℕ
auth_character_list_response = 302

abbrev pub auth_character_selection_response : ℕ
auth_character_selection_response = 303
