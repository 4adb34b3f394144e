-- ===== src/ReceiveBuffer.antt =====
-- The receive buffer of a TCP session: include/ReceiveBuffer.h and src/ReceiveBuffer.cpp. An
-- exception thrown by the header's decoder leaves the buffer as it was.
pub mod View
pub mod Whole
pub mod Drain
pub mod Stream
use dnf_mock_server_client.Prelude.{
  ℕ, nat_eq, ◌+◌, ◌-◌, ◌*◌, ◌||◌, List, [], ◌++◌, Option, none, some, ltb, ◌==◌, if◌then◌else◌,
  length, take, drop,
}
use dnf_mock_server_client.Prelude.Except.{Except, ok, ◌>>=◌}
use dnf_mock_server_client.Packet.{
  Packet, PacketHeader, PacketError, packet_header_size, decode_header,
}

abbrev pub compact_threshold : ℕ
compact_threshold = 4096

pub record ReceiveBuffer : Type 0 where
  pub buffer : List ℕ
  pub read_offset : ℕ

unfoldable pub empty : ReceiveBuffer
empty = record { buffer = []; read_offset = 0 }

-- `read_offset` never passes the end, so the unsigned difference does not wrap.
unfoldable pub size : ReceiveBuffer → ℕ
size b = length b.buffer - b.read_offset

unfoldable pub compact_if_needed : ReceiveBuffer → ReceiveBuffer
compact_if_needed b =
    if ltb b.read_offset compact_threshold || ltb (b.read_offset * 2) (length b.buffer)
    then b
    else record { buffer = drop b.read_offset b.buffer; read_offset = 0 }

unfoldable pub append : ReceiveBuffer → List ℕ → ReceiveBuffer
unfolding compact_if_needed
append b bytes = let c = compact_if_needed b in record c { buffer = c.buffer ++ bytes }

-- readOffset_ += packetSize, and the reset of a buffer that is used up.
unfoldable pub advance : ReceiveBuffer → ℕ → ReceiveBuffer
advance b n =
    if b.read_offset + n == length b.buffer
    then record { buffer = []; read_offset = 0 }
    else record b { read_offset = b.read_offset + n }

-- The part of `TryPop` behind the header: wait for the payload, or take the packet out.
unfoldable pub take_packet : ReceiveBuffer → PacketHeader → Option Packet × ReceiveBuffer
unfolding advance size
take_packet b header = if ltb (size b) header.packet_size then (none, b) else (
  some (record {
    header = header;
    payload =
        take (header.packet_size - packet_header_size)
          (drop (b.read_offset + packet_header_size) b.buffer);
  }),
  advance b header.packet_size,
)

-- The packet, if one is complete, and the buffer after the call.
unfoldable pub try_pop : ReceiveBuffer → Except PacketError (Option Packet × ReceiveBuffer)
unfolding size
try_pop b = if ltb (size b) packet_header_size then ok (none, b) else (do
  header ← decode_header (take packet_header_size (drop b.read_offset b.buffer))
  ok (take_packet b header))
