-- ===== src/Packet.antt =====
-- The TCP framing: include/Packet.h and src/Packet.cpp. Bytes are numbers below 256; an exception
-- is the `err` case.
pub mod PacketType
pub mod RoundTrip
use Prim.Native.Nat.{bit_or}
use dnf_mock_server_client.Prelude.{
  ℕ, nat_eq, ◌+◌, ◌*◌, ◌/◌, ◌%◌, Bool, ◌||◌, List, [], ◌∷◌, ◌++◌, ltb, ◌==◌, if◌then◌else◌, length,
  get_or, u8_mod, u16_mod, u32_mod,
}
use dnf_mock_server_client.Prelude.Except.{Except, ok, err, ◌>>=◌, ◌>>◌}

abbrev pub packet_header_size : ℕ
packet_header_size = 8

abbrev pub max_packet_size : ℕ
max_packet_size = 16384

pub record PacketHeader : Type 0 where
  pub packet_size : ℕ  -- uint16
  pub packet_type : ℕ  -- uint16
  pub request_id : ℕ  -- uint32

pub record Packet : Type 0 where
  pub header : PacketHeader
  pub payload : List ℕ

pub data PacketError : Type 0 where
  invalid_packet_size invalid_packet_type packet_too_large : PacketError

unfoldable pub is_valid_packet_type : ℕ → Bool
is_valid_packet_type t =
    t == PacketType.login_request
    || t == PacketType.channel_list_request
    || t == PacketType.join_channel_request
    || t == PacketType.enter_dungeon_request
    || t == PacketType.dungeon_connection_info_request
    || t == PacketType.create_party_request
    || t == PacketType.join_party_request
    || t == PacketType.leave_party_request
    || t == PacketType.party_snapshot_request
    || t == PacketType.dungeon_catalog_request
    || t == PacketType.dungeon_static_data_request
    || t == PacketType.auth_login_request
    || t == PacketType.auth_character_list_request
    || t == PacketType.auth_character_selection_request
    || t == PacketType.login_response
    || t == PacketType.channel_list_response
    || t == PacketType.join_channel_response
    || t == PacketType.enter_dungeon_response
    || t == PacketType.dungeon_connection_info_response
    || t == PacketType.create_party_response
    || t == PacketType.join_party_response
    || t == PacketType.leave_party_response
    || t == PacketType.party_snapshot_response
    || t == PacketType.dungeon_catalog_response
    || t == PacketType.dungeon_static_data_response
    || t == PacketType.auth_login_response
    || t == PacketType.auth_character_list_response
    || t == PacketType.auth_character_selection_response

unfoldable pub validate_header : ℕ → ℕ → Except PacketError (Unit {0})
validate_header packet_size t =
    if ltb packet_size packet_header_size || ltb max_packet_size packet_size
    then err PacketError.invalid_packet_size
    else if is_valid_packet_type t
    then ok tt
    else err PacketError.invalid_packet_type

-- x >> k, as the low byte of the result.
abbrev byte_of : ℕ → ℕ
byte_of n = n % u8_mod

unfoldable pub encode_header : PacketHeader → Except PacketError (List ℕ)
unfolding validate_header
encode_header h = do
  validate_header h.packet_size h.packet_type
  ok (
      byte_of (h.packet_size / 256)
      ∷ byte_of h.packet_size
      ∷ byte_of (h.packet_type / 256)
      ∷ byte_of h.packet_type
      ∷ byte_of (h.request_id / 16777216)
      ∷ byte_of (h.request_id / 65536)
      ∷ byte_of (h.request_id / 256)
      ∷ byte_of h.request_id
      ∷ [])

-- The two 16-bit fields and the 32-bit field, most significant byte first.
pub read_u16 : ℕ → ℕ → ℕ
read_u16 hi lo = bit_or (hi * 256) lo % u16_mod

pub read_u32 : ℕ → ℕ → ℕ → ℕ → ℕ
read_u32 a b c d =
    bit_or (bit_or (bit_or (a * 16777216 % u32_mod) (b * 65536 % u32_mod)) (c * 256 % u32_mod)) d

unfoldable pub decode_header : List ℕ → Except PacketError PacketHeader
unfolding validate_header
decode_header bytes = do
  let packet_size = read_u16 (get_or bytes 0 0) (get_or bytes 1 0)
  let packet_type = read_u16 (get_or bytes 2 0) (get_or bytes 3 0)
  let request_id =
      read_u32 (get_or bytes 4 0) (get_or bytes 5 0) (get_or bytes 6 0) (get_or bytes 7 0)
  validate_header packet_size packet_type
  ok (record { packet_size = packet_size; packet_type = packet_type; request_id = request_id })

unfoldable pub encode_packet : ℕ → ℕ → List ℕ → Except PacketError (List ℕ)
encode_packet packet_type request_id payload =
    let packet_size = packet_header_size + length payload in
    if ltb max_packet_size packet_size then err PacketError.packet_too_large else (do
      header_bytes ← encode_header (record {
        packet_size = packet_size % u16_mod;
        packet_type = packet_type;
        request_id = request_id;
      })
      ok (header_bytes ++ payload))
