-- ===== src/ReceiveBuffer/Whole.antt =====
-- A packet at the front of a stream, seen through the framing: whole, or cut short.
use dnf_mock_server_client.Prelude.{
  ℕ, nat_eq, ◌+◌, ◌≤◌, ◌≡◌, ap, subst, none, some, List, [], ◌∷◌, ◌++◌, arith, length,
  length-append, drop, take, ◌<◌, append_assoc, drop_exact, take_exact, dec_le, ◌-◌, sym,
  take-append_le, ◌∙◌,
}
use dnf_mock_server_client.Prelude.Except.{ok}
use dnf_mock_server_client.Packet.{Packet, encode_packet, max_packet_size, encode_header}
use dnf_mock_server_client.Packet.RoundTrip.{
  InRange, length-encode_header, encode_packet_parts, decode_header-encode_header, header_of,
}
use dnf_mock_server_client.ReceiveBuffer.{packet_header_size, decode_header}
use dnf_mock_server_client.ReceiveBuffer.View.{split_at, split_packet}

-- A stream that holds these packets: each was made by the encoder, and its header says so.
abbrev pub Encodes : List Packet → List ℕ → Type 0
Encodes [] s = s ≡ []
Encodes (p ∷ ps) s =
    (bytes : List ℕ) × (rest : List ℕ) × (encode_packet p.header.packet_type p.header.request_id
        p.payload
      ≡ ok bytes)
    × (p.header.packet_size ≡ packet_header_size + length p.payload)
    × InRange p.header
    × (s ≡ bytes ++ rest)
    × Encodes ps rest

module _ (p : Packet) (bytes rest : List ℕ)
    (made : encode_packet p.header.packet_type p.header.request_id p.payload ≡ ok bytes)
    (sized : p.header.packet_size ≡ packet_header_size + length p.payload)
    (fits : InRange p.header) where
  parts :
      (front : List ℕ) × (decode_header front ≡ ok p.header)
      × (length front ≡ 8)
      × (bytes ≡ front ++ p.payload)
      × (packet_header_size + length p.payload ≤ max_packet_size)
  parts =
      let (front, e, split, small) = encode_packet_parts _ _ p.payload bytes made in
      let same : header_of p.header.packet_type p.header.request_id p.payload ≡ p.header =
        ground arith in
      let e' : encode_header p.header ≡ ok front = subst (λ h. encode_header h ≡ ok front) same e in
      (
        front,
        decode_header-encode_header p.header front fits e',
        length-encode_header _ front e,
        split,
        small,
      )

  pub length_bytes : length bytes ≡ 8 + length p.payload
  length_bytes =
      let (front, _, l, split, _) = parts in
      omega (arith, ap length split, length-append front p.payload)

  whole_at : split_at p.header (bytes ++ rest) ≡ some (p, rest)
  unfolding split_at
  whole_at =
      let (front, d, l, split, small) = parts in
      let lb : length (bytes ++ rest) ≡ length bytes + length rest = length-append bytes rest in
      let d1 : drop 8 (bytes ++ rest) ≡ p.payload ++ rest =
        rw (split, append_assoc) (drop_exact 8 front (p.payload ++ rest) l) in
      let t2 : take (p.header.packet_size - 8) (p.payload ++ rest) ≡ p.payload =
        take_exact _ p.payload rest (omega arith) in
      let d2 : drop p.header.packet_size (bytes ++ rest) ≡ rest =
        drop_exact _ bytes rest (omega (arith, length_bytes)) in
      ground (arith, length_bytes)

  -- The packet at the front of a stream is split off, whatever follows it.
  pub whole : split_packet (bytes ++ rest) ≡ ok (some (p, rest))
  unfolding split_packet
  whole =
      let (front, d, l, split, small) = parts in
      let t1 : take 8 (bytes ++ rest) ≡ front =
        rw (split, append_assoc) (take_exact 8 front (p.payload ++ rest) l) in
      ground (arith, length_bytes, length-append bytes rest, whole_at)

  -- A proper prefix of it is left alone.
  pub short :
      (u r : List ℕ) → u ++ r ≡ bytes ++ rest → length u < length bytes → split_packet u ≡ ok none
  unfolding split_packet split_at
  short u r e less =
      let (front, d, l, split, small) = parts in
      let t1 : take 8 (bytes ++ rest) ≡ front =
        rw (split, append_assoc) (take_exact 8 front (p.payload ++ rest) l) in
      elim (dec_le 8 (length u)) [
        | yes long ↦
            let t : take 8 u ≡ front = sym (take-append_le 8 u r long) ∙ ap (take 8) e ∙ t1 in
            ground (arith, length_bytes)
        | no stub ↦ ground arith
      ]
