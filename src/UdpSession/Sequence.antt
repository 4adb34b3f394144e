-- ===== src/UdpSession/Sequence.antt =====
-- The order of sequence numbers, which wraps at 32 bits.
use dnf_mock_server_client.Prelude.{
  ℕ, nat_eq, ◌+◌, ◌-◌, ◌%◌, ◌<◌, ◌≡◌, ◌≢◌, true, false, arith, ◌↔◌, u32_mod,
}
use dnf_mock_server_client.UdpSession.{is_newer_sequence, sequence_half_range}

-- A number is newer than the 2 ^ 31 - 1 numbers before it, also across the wrap, and than no other.
pub is_newer_sequence_iff :
    (previous k : ℕ)
    → previous < u32_mod
    → k < u32_mod
    → (is_newer_sequence ((previous + k) % u32_mod) previous ≡ true)
      ↔ ((0 < k) × (k < sequence_half_range))
unfolding is_newer_sequence
is_newer_sequence_iff previous k hp hk =
    let d : ((previous + k) % u32_mod + u32_mod - previous) % u32_mod ≡ k = omega arith in
    ground arith

-- No number is newer than itself, and of two numbers at most one is newer.
pub is_newer_sequence_asymm :
    (a b : ℕ)
    → a < u32_mod
    → b < u32_mod
    → is_newer_sequence a b ≡ true
    → (is_newer_sequence b a ≡ false) × (a ≢ b)
unfolding is_newer_sequence
is_newer_sequence_asymm a b ha hb h = ground arith
