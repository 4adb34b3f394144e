-- ===== src/Packet/RoundTrip.antt =====
-- Headers survive the wire in both directions.
use dnf_mock_server_client.Prelude.{
  ℕ, ◌+◌, ◌*◌, ◌/◌, ◌%◌, ◌<◌, ◌≡◌, List, [], ◌∷◌, arith, u16_mod, u32_mod, length, ◌++◌, ◌≤◌, refl,
}
use Prim.Native.Nat.{bit_or}
use dnf_mock_server_client.Prelude.Bits.{bit_or-shift8, bit_or-shift16, bit_or-shift24}
use dnf_mock_server_client.Prelude.Except.{ok, Except}
use dnf_mock_server_client.Packet.{
  PacketHeader, read_u16, read_u32, encode_header, decode_header, encode_packet, packet_header_size,
  max_packet_size, PacketError, err,
}

-- The numeric ranges of the three fields.
pub record InRange (h : PacketHeader) : Type 0 where
  pub size_fits : h.packet_size < u16_mod
  pub type_fits : h.packet_type < u16_mod
  pub id_fits : h.request_id < u32_mod

read_u16-bytes : (n : ℕ) → n < 65536 → read_u16 (n / 256 % 256) (n % 256) ≡ n
unfolding read_u16
read_u16-bytes n h = omega (arith, bit_or-shift8 (n / 256 % 256) (n % 256) (omega arith))

read_u16-eq : (a b : ℕ) → a < 256 → b < 256 → read_u16 a b ≡ a * 256 + b
unfolding read_u16
read_u16-eq a b ha hb = omega (arith, bit_or-shift8 a b hb)

mod_id : (n : ℕ) → n < u32_mod → n % u32_mod ≡ n
mod_id n h = omega arith

-- Each `|` adds a field below those that are there.
or_fields :
    (a b c d : ℕ)
    → b < 256
    → c < 256
    → d < 256
    → bit_or (bit_or (bit_or (a * 16777216) (b * 65536)) (c * 256)) d
      ≡ (a * 65536 + b * 256 + c) * 256 + d
or_fields a b c d hb hc hd =
    rw
      (
        bit_or-shift24 a (b * 65536) (omega arith),
        regroup16,
        bit_or-shift16 (a * 256 + b) (c * 256) (omega arith),
        regroup8,
      )
      (bit_or-shift8 (a * 65536 + b * 256 + c) d hd)
  where
    regroup16 : a * 16777216 + b * 65536 ≡ (a * 256 + b) * 65536
    regroup16 = omega arith

    regroup8 : (a * 256 + b) * 65536 + c * 256 ≡ (a * 65536 + b * 256 + c) * 256
    regroup8 = omega arith

read_u32-eq :
    (a b c d : ℕ)
    → a < 256
    → b < 256
    → c < 256
    → d < 256
    → read_u32 a b c d ≡ (a * 65536 + b * 256 + c) * 256 + d
unfolding read_u32
read_u32-eq a b c d ha hb hc hd =
    rw
      (
        mod_id (a * 16777216) (omega arith),
        mod_id (b * 65536) (omega arith),
        mod_id (c * 256) (omega arith),
      )
      (or_fields a b c d hb hc hd)

read_u32-bytes :
    (n : ℕ)
    → n < 4294967296
    → read_u32 (n / 16777216 % 256) (n / 65536 % 256) (n / 256 % 256) (n % 256) ≡ n
read_u32-bytes n h = omega (
  arith,
  read_u32-eq (n / 16777216 % 256) (n / 65536 % 256) (n / 256 % 256) (n % 256) (omega arith)
      (omega arith) (omega arith) (omega arith),
)

-- A header whose fields fit their widths and which the encoder accepts is read back unchanged.
pub decode_header-encode_header :
    (h : PacketHeader) (bytes : List ℕ)
    → InRange h
    → encode_header h ≡ ok bytes
    → decode_header bytes ≡ ok h
unfolding encode_header decode_header
decode_header-encode_header h bytes r e = ground (
  arith,
  read_u16-bytes h.packet_size r.size_fits,
  read_u16-bytes h.packet_type r.type_fits,
  read_u32-bytes h.request_id r.id_fits,
)

-- If the decoder accepts eight bytes, they are the encoding of the header that it returns.
pub encode_header-decode_header :
    (a b c d e f g i : ℕ) (h : PacketHeader)
    → a < 256
    → b < 256
    → c < 256
    → d < 256
    → e < 256
    → f < 256
    → g < 256
    → i < 256
    → decode_header (a ∷ b ∷ c ∷ d ∷ e ∷ f ∷ g ∷ i ∷ []) ≡ ok h
    → encode_header h ≡ ok (a ∷ b ∷ c ∷ d ∷ e ∷ f ∷ g ∷ i ∷ [])
unfolding encode_header decode_header
encode_header-decode_header a b c d e f g i h ha hb hc hd he hf hg hi eq =
    ground (arith, read_u16-eq a b ha hb, read_u16-eq c d hc hd, read_u32-eq e f g i he hf hg hi)

abbrev pub header_of : ℕ → ℕ → List ℕ → PacketHeader
header_of t id payload = record {
  packet_size = (packet_header_size + length payload) % u16_mod;
  packet_type = t;
  request_id = id;
}

pub length-encode_header :
    (h : PacketHeader) (bytes : List ℕ) → encode_header h ≡ ok bytes → length bytes ≡ 8
unfolding encode_header
length-encode_header h bytes e = ground arith

-- What an encoded packet is made of.
pub encode_packet_parts :
    (t id : ℕ) (payload bytes : List ℕ)
    → encode_packet t id payload ≡ ok bytes
    → (front : List ℕ) × (encode_header (header_of t id payload) ≡ ok front)
      × (bytes ≡ front ++ payload)
      × (packet_header_size + length payload ≤ max_packet_size)
unfolding encode_packet
encode_packet_parts t id payload bytes e = split_cases (encode_header (header_of t id payload)) refl
  where
    split_cases :
        (d : Except PacketError (List ℕ))
        → encode_header (header_of t id payload) ≡ d
        → (front : List ℕ) × (encode_header (header_of t id payload) ≡ ok front)
          × (bytes ≡ front ++ payload)
          × (packet_header_size + length payload ≤ max_packet_size)
    split_cases (ok front) q = (front, q, ground arith, ground arith)
    split_cases (err x) q = absurd (ground arith)
