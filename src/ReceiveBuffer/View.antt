-- ===== src/ReceiveBuffer/View.antt =====
-- The buffer seen as the bytes that are not consumed yet: compaction and the offset are invisible.
use dnf_mock_server_client.Prelude.{
  ℕ, zero, suc, ◌+◌, ◌-◌, ◌≤◌, ◌≡◌, refl, sym, ap, ◌∙◌, List, [], ◌∷◌, ◌++◌, arith, length,
  length-append, take, drop, length-drop, drop-length, drop-append_le, Option, none, some, ltb,
  if◌then◌else◌,
}
use dnf_mock_server_client.Prelude.Except.{Except, ok, err, ◌>>=◌}
use dnf_mock_server_client.Packet.{
  Packet, PacketHeader, PacketError, packet_header_size, decode_header,
}
use dnf_mock_server_client.ReceiveBuffer.{
  ReceiveBuffer, size, compact_if_needed, append, advance, take_packet, try_pop,
}

abbrev pub IsValid : ReceiveBuffer → Type 0
IsValid b = b.read_offset ≤ length b.buffer

abbrev pub unread : ReceiveBuffer → List ℕ
unread b = drop b.read_offset b.buffer

-- The framing of a stream of bytes, with no buffer: split off one packet, or wait for more.
unfoldable pub split_at : PacketHeader → List ℕ → Option (Packet × List ℕ)
split_at header bytes =
    if ltb (length bytes) header.packet_size
    then none
    else some (
      record {
        header = header;
        payload = take (header.packet_size - packet_header_size) (drop packet_header_size bytes);
      },
      drop header.packet_size bytes,
    )

unfoldable pub split_packet : List ℕ → Except PacketError (Option (Packet × List ℕ))
split_packet bytes =
    if ltb (length bytes) packet_header_size
    then ok none
    else (do header ← decode_header (take packet_header_size bytes); ok (split_at header bytes))

drop-nil : (k : ℕ) → drop {A = ℕ} k [] ≡ []
drop-nil zero = refl
drop-nil (suc k) = refl

pub drop-drop : (n m : ℕ) (xs : List ℕ) → drop m (drop n xs) ≡ drop (n + m) xs
drop-drop zero m xs = let e : m ≡ 0 + m = omega arith in ap (λ k. drop k xs) e
drop-drop (suc n) m [] = drop-nil m ∙ sym (drop-nil (suc n + m))
drop-drop (suc n) m (x ∷ xs) =
    let e : suc (n + m) ≡ suc n + m = omega arith in drop-drop n m xs ∙ ap (λ k. drop k (x ∷ xs)) e

pub size-unread : (b : ReceiveBuffer) → size b ≡ length (unread b)
unfolding size
size-unread b = sym (length-drop b.read_offset b.buffer)

compact_if_needed-unread : (b : ReceiveBuffer) → unread (compact_if_needed b) ≡ unread b
unfolding compact_if_needed
compact_if_needed-unread b = ground arith

compact_if_needed-IsValid : (b : ReceiveBuffer) → IsValid b → IsValid (compact_if_needed b)
unfolding compact_if_needed
compact_if_needed-IsValid b h = ground arith

pub append-IsValid : (b : ReceiveBuffer) (bytes : List ℕ) → IsValid b → IsValid (append b bytes)
unfolding append
append-IsValid b bytes h =
    omega (arith, compact_if_needed-IsValid b h, length-append (compact_if_needed b).buffer bytes)

-- Appending adds the bytes at the end of what is unread, whether or not the buffer is compacted.
pub append-unread :
    (b : ReceiveBuffer) (bytes : List ℕ) → IsValid b → unread (append b bytes) ≡ unread b ++ bytes
unfolding append
append-unread b bytes h =
    drop-append_le _ _ bytes (compact_if_needed-IsValid b h)
    ∙ ap (λ xs. xs ++ bytes) (compact_if_needed-unread b)

advance-unread : (b : ReceiveBuffer) (n : ℕ) → unread (advance b n) ≡ drop n (unread b)
unfolding advance
advance-unread b n = ground (arith, drop-drop b.read_offset n b.buffer, drop-length b.buffer)

advance-IsValid :
    (b : ReceiveBuffer) (n : ℕ) → b.read_offset + n ≤ length b.buffer → IsValid (advance b n)
unfolding advance
advance-IsValid b n h = ground arith

-- What a caller sees of a call: the packet, and the bytes that stay.
abbrev pub outcome :
    Except PacketError (Option Packet × ReceiveBuffer)
    → Except PacketError (Option (Packet × List ℕ))
outcome (err e) = err e
outcome (ok (none, b)) = ok none
outcome (ok (some p, b)) = ok (some (p, unread b))

take_packet-split_at :
    (b : ReceiveBuffer) (h : PacketHeader)
    → outcome (ok (take_packet b h)) ≡ ok (split_at h (unread b))
unfolding take_packet split_at
take_packet-split_at b h =
    ground
      (arith, size-unread b, drop-drop b.read_offset 8 b.buffer, advance-unread b h.packet_size)

after_header :
    (b : ReceiveBuffer) (d : Except PacketError PacketHeader)
    → outcome (d >>= λ h. ok (take_packet b h)) ≡ (d >>= λ h. ok (split_at h (unread b)))
after_header b (ok h) = take_packet-split_at b h
after_header b (err e) = refl

-- A pop is the framing of the unread bytes: the same packet, the same rest, the same exception.
pub try_pop-split_packet : (b : ReceiveBuffer) → outcome (try_pop b) ≡ split_packet (unread b)
unfolding try_pop split_packet
try_pop-split_packet b =
    ground (arith, size-unread b, after_header b (decode_header (take 8 (unread b))))

take_packet-IsValid :
    (b : ReceiveBuffer) (h : PacketHeader) → IsValid b → IsValid (take_packet b h).1
unfolding take_packet
take_packet-IsValid b h v = ground (arith, advance-IsValid b h.packet_size)

abbrev pub buffer_after :
    ReceiveBuffer → Except PacketError (Option Packet × ReceiveBuffer) → ReceiveBuffer
buffer_after b (err e) = b
buffer_after b (ok (o, c)) = c

after_header-IsValid :
    (b : ReceiveBuffer) (d : Except PacketError PacketHeader)
    → IsValid b
    → IsValid (buffer_after b (d >>= λ h. ok (take_packet b h)))
after_header-IsValid b (ok h) v = take_packet-IsValid b h v
after_header-IsValid b (err e) v = v

-- The offset stays inside the buffer, whatever the call returns.
pub try_pop-IsValid : (b : ReceiveBuffer) → IsValid b → IsValid (buffer_after b (try_pop b))
unfolding try_pop
try_pop-IsValid b v = ground (arith, after_header-IsValid b (decode_header (take 8 (unread b))) v)

-- A pop that finds no packet leaves the buffer as it was.
pub try_pop-none :
    (b : ReceiveBuffer) → split_packet (unread b) ≡ ok none → try_pop b ≡ ok (none, b)
unfolding try_pop take_packet
try_pop-none b e = none_of (try_pop b) refl
  where
    stays :
        (d : Except PacketError PacketHeader) (c : ReceiveBuffer)
        → (d >>= λ h. ok (take_packet b h)) ≡ ok (none, c)
        → b ≡ c
    stays (ok h) c q = ground arith
    stays (err x) c q = cc

    none_of :
        (o : Except PacketError (Option Packet × ReceiveBuffer))
        → try_pop b ≡ o
        → try_pop b ≡ ok (none, b)
    none_of (ok (none, c)) q = ground (arith, stays (decode_header (take 8 (unread b))) c)
    none_of (ok (some p, c)) q = absurd (ground (arith, try_pop-split_packet b))
    none_of (err x) q = absurd (ground (arith, try_pop-split_packet b))

pub try_pop-some :
    (b : ReceiveBuffer) (p : Packet) (rest : List ℕ)
    → split_packet (unread b) ≡ ok (some (p, rest))
    → (c : ReceiveBuffer) × (try_pop b ≡ ok (some p, c)) × (unread c ≡ rest)
try_pop-some b p rest e = of_outcome (try_pop b) (try_pop-split_packet b ∙ e)
  where
    of_outcome :
        (o : Except PacketError (Option Packet × ReceiveBuffer))
        → outcome o ≡ ok (some (p, rest))
        → (c : ReceiveBuffer) × (o ≡ ok (some p, c)) × (unread c ≡ rest)
    of_outcome (ok (some q, c)) h = (c, ground arith, ground arith)
    of_outcome (ok (none, c)) h = absurd (ground arith)
    of_outcome (err x) h = absurd (ground arith)
