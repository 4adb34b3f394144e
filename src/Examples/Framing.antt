-- ===== src/Examples/Framing.antt =====
-- Two packets that arrive in three reads.
use dnf_mock_server_client.Prelude.{ℕ, nat_eq, ◌≡◌, refl, List, [], ◌∷◌, ◌++◌, arith, take, flatten}
use dnf_mock_server_client.Prelude.Except.{ok}
use dnf_mock_server_client.Packet.{
  Packet, encode_packet, encode_header, decode_header, validate_header, is_valid_packet_type,
}
use dnf_mock_server_client.Packet.RoundTrip.{InRange, decode_header-encode_header}
use dnf_mock_server_client.ReceiveBuffer.{ReceiveBuffer, empty, try_pop}
use dnf_mock_server_client.ReceiveBuffer.View.{unread, outcome, split_packet, try_pop-split_packet}
use dnf_mock_server_client.ReceiveBuffer.Whole.{Encodes}
use dnf_mock_server_client.ReceiveBuffer.Stream.{receive, receive-Encodes}

abbrev login : Packet
login = record {
  header = record { packet_size = 10; packet_type = 1; request_id = 259 };
  payload = 7 ∷ 8 ∷ [];
}

abbrev leave : Packet
leave = record {
  header = record { packet_size = 8; packet_type = 8; request_id = 1 };
  payload = [];
}

abbrev login_bytes : List ℕ
login_bytes = 0 ∷ 10 ∷ 0 ∷ 1 ∷ 0 ∷ 0 ∷ 1 ∷ 3 ∷ 7 ∷ 8 ∷ []

abbrev leave_bytes : List ℕ
leave_bytes = 0 ∷ 8 ∷ 0 ∷ 8 ∷ 0 ∷ 0 ∷ 0 ∷ 1 ∷ []

-- The first read ends inside the first header, the second inside the second.
abbrev reads : List (List ℕ)
reads =
    (0 ∷ 10 ∷ 0 ∷ []) ∷ (1 ∷ 0 ∷ 0 ∷ 1 ∷ 3 ∷ 7 ∷ 8 ∷ 0 ∷ 8 ∷ []) ∷ (0 ∷ 8 ∷ 0 ∷ 0 ∷ 0 ∷ 1 ∷ []) ∷ []

login_encoded : encode_packet 1 259 (7 ∷ 8 ∷ []) ≡ ok login_bytes
unfolding encode_packet encode_header validate_header is_valid_packet_type
login_encoded = refl

leave_encoded : encode_packet 8 1 [] ≡ ok leave_bytes
unfolding encode_packet encode_header validate_header is_valid_packet_type
leave_encoded = refl

login-InRange : InRange login.header
login-InRange = record { size_fits = omega arith; type_fits = omega arith; id_fits = omega arith }

leave-InRange : InRange leave.header
leave-InRange = record { size_fits = omega arith; type_fits = omega arith; id_fits = omega arith }

reads-Encodes : Encodes (login ∷ leave ∷ []) (flatten reads)
reads-Encodes = (
  login_bytes,
  leave_bytes,
  login_encoded,
  refl,
  login-InRange,
  refl,
  (leave_bytes, [], leave_encoded, refl, leave-InRange, refl, refl),
)

receive-Encodes_example :
    (c : ReceiveBuffer) × (receive empty reads ≡ ok (login ∷ leave ∷ [], c)) × (unread c ≡ [])
receive-Encodes_example = receive-Encodes (login ∷ leave ∷ []) reads reads-Encodes

-- A login and the start of another packet.
abbrev half_full : ReceiveBuffer
half_full = record { buffer = 9 ∷ login_bytes ++ 0 ∷ 8 ∷ []; read_offset = 1 }

try_pop-split_packet_example :
    outcome (try_pop half_full) ≡ split_packet (login_bytes ++ 0 ∷ 8 ∷ [])
try_pop-split_packet_example = try_pop-split_packet half_full

login_header : encode_header login.header ≡ ok (take 8 login_bytes)
unfolding encode_header validate_header is_valid_packet_type
login_header = refl

decode_header-encode_header_example : decode_header (take 8 login_bytes) ≡ ok login.header
decode_header-encode_header_example =
    decode_header-encode_header login.header (take 8 login_bytes) login-InRange login_header
