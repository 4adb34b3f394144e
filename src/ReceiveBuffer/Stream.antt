-- ===== src/ReceiveBuffer/Stream.antt =====
-- Packets that arrive in pieces. The calls are those of src/TcpSession.cpp: each read is appended,
-- and then packets are popped one by one (`HandleRead`, `DispatchNextPacket`, `HandleResponse`).
use dnf_mock_server_client.Prelude.{
  ℕ, suc, nat_eq, ◌≡◌, ap, List, [], ◌∷◌, ◌++◌, arith, length, length-append, append_assoc, sym,
  ◌∙◌, refl, flatten, append-nil,
}
use dnf_mock_server_client.Prelude.Except.{ok, err}
use dnf_mock_server_client.Packet.{Packet}
use dnf_mock_server_client.ReceiveBuffer.{ReceiveBuffer, append, empty}
use dnf_mock_server_client.ReceiveBuffer.View.{unread, IsValid, append-unread, append-IsValid}
use dnf_mock_server_client.ReceiveBuffer.Whole.{Encodes, length_bytes}
use dnf_mock_server_client.ReceiveBuffer.Drain.{Popped, in_front, pop_all, Waits, pop_all-Drained}

-- The unread bytes bound the number of calls, since no packet is empty.
pub receive : ReceiveBuffer → List (List ℕ) → Popped
receive b [] = ok ([], b)
receive b (bytes ∷ more) =
    let c = append b bytes in
    elim (pop_all (suc (length (unread c))) c) [
      | err e ↦ err e
      | ok (ps, d) ↦ in_front ps (receive d more)
    ]

Waits-nil :
    (ps : List Packet) (u s : List ℕ) → Encodes ps s → u ≡ s → Waits ps u → (ps ≡ []) × (u ≡ [])
Waits-nil [] u s enc e w = (refl, e ∙ enc)
Waits-nil (p ∷ ps) u s (bytes, rest, made, sized, fits, cut, enc) e w = absurd (
    omega (
      arith,
      length_bytes p bytes rest made sized fits,
      ap (length {A = ℕ}) (e ∙ cut),
      length-append bytes rest,
    ))

receive-step :
    (b d : ReceiveBuffer) (bytes : List ℕ) (more : List (List ℕ)) (ps : List Packet)
    → pop_all (suc (length (unread (append b bytes)))) (append b bytes) ≡ ok (ps, d)
    → receive b (bytes ∷ more) ≡ in_front ps (receive d more)
unfolding receive
receive-step b d bytes more ps e = rw (e, receive) refl

receive-lem :
    (chunks : List (List ℕ)) (ps : List Packet) (b : ReceiveBuffer) (s : List ℕ)
    → Encodes ps s
    → unread b ++ flatten chunks ≡ s
    → IsValid b
    → Waits ps (unread b)
    → (c : ReceiveBuffer) × (receive b chunks ≡ ok (ps, c)) × (unread c ≡ [])
unfolding receive
receive-lem [] ps b s enc e v w =
    let (none_left, empty_now) =
      Waits-nil ps (unread b) s enc (sym (append-nil (unread b)) ∙ e) w in
    (b, ap (λ t. ok (t, b)) (sym none_left), empty_now)
receive-lem (bytes ∷ more) ps b s enc e v w =
    let c = append b bytes in
    let joined : unread c ++ flatten more ≡ s =
      ap (λ t. t ++ flatten more) (append-unread b bytes v)
      ∙ append_assoc (unread b) bytes (flatten more)
      ∙ e in
    let d =
      pop_all-Drained ps (suc (length (unread c))) c (flatten more) s enc joined
        (append-IsValid b bytes v) (omega arith) in
    let (final, got, empty_now) =
      receive-lem more d.left d.after d.remaining d.encoded d.joined d.valid d.waiting in
    (
      final,
      receive-step b d.after bytes more d.taken d.returned
          ∙ ap (in_front d.taken) got
          ∙ ap (λ t. ok (t, final)) d.split,
      empty_now,
    )

-- However the bytes of a stream of encoded packets are cut into reads, the packets come out in
-- order and unchanged, no read fails, and nothing is left in the buffer.
pub receive-Encodes :
    (ps : List Packet) (chunks : List (List ℕ))
    → Encodes ps (flatten chunks)
    → (c : ReceiveBuffer) × (receive empty chunks ≡ ok (ps, c)) × (unread c ≡ [])
unfolding empty
receive-Encodes ps chunks enc =
    receive-lem chunks ps empty (flatten chunks) enc refl (omega arith) (waits ps)
  where
    waits : (ps : List Packet) → Waits ps []
    waits [] = tt
    waits (p ∷ ps) = omega arith
