-- ===== src/ReceiveBuffer/Drain.antt =====
-- Popping until no packet is complete takes the packets that have arrived, and no others.
use dnf_mock_server_client.Prelude.{
  ℕ, zero, suc, nat_eq, ◌+◌, ◌≤◌, ◌≡◌, ap, subst, none, some, List, [], ◌∷◌, ◌++◌, arith, length,
  drop, take, ◌<◌, sym, take-append_le, ◌∙◌, Option, refl, take-append, take-append-drop, dec_lt,
  drop-append_le, drop-append, length-drop,
}
use dnf_mock_server_client.Prelude.Except.{Except, ok, err}
use dnf_mock_server_client.Packet.{Packet}
use dnf_mock_server_client.ReceiveBuffer.{ReceiveBuffer, try_pop, PacketError}
use dnf_mock_server_client.ReceiveBuffer.View.{
  unread, split_packet, IsValid, buffer_after, try_pop-none, try_pop-IsValid, try_pop-some,
}
use dnf_mock_server_client.ReceiveBuffer.Whole.{Encodes, whole, short, length_bytes}

abbrev pub Popped : Type 0
Popped = Except PacketError (List Packet × ReceiveBuffer)

-- Put what was popped before in front of what is popped later.
abbrev pub in_front : List Packet → Popped → Popped
in_front ps (ok (qs, b)) = ok (ps ++ qs, b)
in_front ps (err e) = err e

-- Pop until no packet is complete. One unit of fuel is spent for each call.
pub pop_all : ℕ → ReceiveBuffer → Popped
pop_all zero b = ok ([], b)
pop_all (suc fuel) b = elim (try_pop b) [
  | err e ↦ err e
  | ok (none, c) ↦ ok ([], c)
  | ok (some p, c) ↦ in_front (p ∷ []) (pop_all fuel c)
]

-- The packets of a stream that begins with what is unread and goes on with `r`, after the calls:
-- those taken, those left, and the buffer, in which no packet is complete.
abbrev pub Waits : List Packet → List ℕ → Type 0
Waits [] u = Unit
Waits (p ∷ ps) u = length u < 8 + length p.payload

pub record Drained (ps : List Packet) (r : List ℕ) (o : Popped) : Type 0 where
  pub taken : List Packet
  pub left : List Packet
  pub after : ReceiveBuffer
  pub remaining : List ℕ
  pub returned : o ≡ ok (taken, after)
  pub split : taken ++ left ≡ ps
  pub valid : IsValid after
  pub encoded : Encodes left remaining
  pub joined : unread after ++ r ≡ remaining
  pub waiting : Waits left (unread after)

split_packet-nil : (u : List ℕ) → u ≡ [] → split_packet u ≡ ok none
unfolding split_packet
split_packet-nil u e = rw e refl

append-eq-nil : (u r : List ℕ) → u ++ r ≡ [] → u ≡ []
append-eq-nil [] r e = refl
append-eq-nil (x ∷ u) r e = cc

pop_all-none :
    (f : ℕ) (b : ReceiveBuffer) → try_pop b ≡ ok (none, b) → pop_all (suc f) b ≡ ok ([], b)
unfolding pop_all
pop_all-none f b e = rw (e, pop_all) refl

pop_all-some :
    (f : ℕ) (b c : ReceiveBuffer) (p : Packet)
    → try_pop b ≡ ok (some p, c)
    → pop_all (suc f) b ≡ in_front (p ∷ []) (pop_all f c)
unfolding pop_all
pop_all-some f b c p e = rw (e, pop_all) refl

pop_all_next :
    (b c : ReceiveBuffer) (o : Option Packet) → IsValid b → try_pop b ≡ ok (o, c) → IsValid c
pop_all_next b c o v e = subst (λ t. IsValid (buffer_after b t)) e (try_pop-IsValid b v)

-- A prefix that is long enough holds the first packet whole.
prefix_rest :
    (u r bytes rest : List ℕ)
    → u ++ r ≡ bytes ++ rest
    → length bytes ≤ length u
    → (u ≡ bytes ++ drop (length bytes) u) × (drop (length bytes) u ++ r ≡ rest)
prefix_rest u r bytes rest e h = (
  sym (take-append-drop (length bytes) u) ∙ ap (λ t. t ++ drop (length bytes) u) front,
  sym (drop-append_le (length bytes) u r h) ∙ ap (drop (length bytes)) e ∙ drop-append bytes rest,
)
  where
    front : take (length bytes) u ≡ bytes
    front =
        sym (take-append_le (length bytes) u r h)
        ∙ ap (take (length bytes)) e
        ∙ take-append bytes rest

pub pop_all-Drained :
    (ps : List Packet) (f : ℕ) (b : ReceiveBuffer) (r s : List ℕ)
    → Encodes ps s
    → unread b ++ r ≡ s
    → IsValid b
    → length (unread b) < f
    → Drained ps r (pop_all f b)
pop_all-Drained ps zero b r s enc e v h = absurd (omega arith)
pop_all-Drained [] (suc f) b r s enc e v h = record {
  taken = [];
  left = [];
  after = b;
  remaining = s;
  returned =
      pop_all-none f b (try_pop-none b (split_packet-nil _ (append-eq-nil (unread b) r (e ∙ enc))));
  split = refl;
  valid = v;
  encoded = enc;
  joined = e;
  waiting = tt;
}
pop_all-Drained (p ∷ ps) (suc f) b r s (bytes, rest, made, sized, fits, cut, enc) e v h =
    elim (dec_lt (length (unread b)) (length bytes)) [
      | yes less ↦ record {
        taken = [];
        left = p ∷ ps;
        after = b;
        remaining = s;
        returned =
            pop_all-none f b
              (try_pop-none b (short p bytes rest made sized fits (unread b) r (e ∙ cut) less));
        split = refl;
        valid = v;
        encoded = (bytes, rest, made, sized, fits, cut, enc);
        joined = e;
        waiting = omega (arith, length_bytes p bytes rest made sized fits);
      }
      | no enough ↦
          let (front, back) = prefix_rest (unread b) r bytes rest (e ∙ cut) (omega arith) in
          let (c, popped, unread_c) =
            try_pop-some b p (drop (length bytes) (unread b))
              (ap split_packet front ∙ whole p bytes _ made sized fits) in
          step c popped (ap (λ t. t ++ r) unread_c ∙ back) (
            pop_all-Drained ps f c r rest enc (ap (λ t. t ++ r) unread_c ∙ back)
              (pop_all_next b c (some p) v popped)
              (omega (
                arith,
                ap (length {A = ℕ}) unread_c,
                length-drop (length bytes) (unread b),
                length_bytes p bytes rest made sized fits,
              )))
    ]
  where
    step :
        (c : ReceiveBuffer)
        → try_pop b ≡ ok (some p, c)
        → unread c ++ r ≡ rest
        → Drained ps r (pop_all f c)
        → Drained (p ∷ ps) r (pop_all (suc f) b)
    step c popped j d = record {
      taken = p ∷ d.taken;
      left = d.left;
      after = d.after;
      remaining = d.remaining;
      returned = pop_all-some f b c p popped ∙ ap (in_front (p ∷ [])) d.returned;
      split = ap (λ t. p ∷ t) d.split;
      valid = d.valid;
      encoded = d.encoded;
      joined = d.joined;
      waiting = d.waiting;
    }
