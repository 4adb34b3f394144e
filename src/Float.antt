-- ===== src/Float.antt =====
-- `float`, as a type with the operations that the program uses. No law is assumed: a comparison
-- with a NaN is whatever `lt` and `le` say, and rounding is whatever the operations do.
use dnf_mock_server_client.Prelude.{Bool}

pub record Float (R : Type 0) : Type 0 where
  pub zero_f : R
  pub lt : R → R → Bool
  pub le : R → R → Bool
  pub add : R → R → R
  pub sub : R → R → R
  pub mul : R → R → R
  pub div : R → R → R
  pub neg : R → R
  pub abs : R → R
  pub sqrt : R → R
  pub is_finite : R → Bool

infix 50 ◌<f◌ ◌≤f◌
abbrev pub ◌<f◌ : {R : Type 0} ⦃f : Float R⦄ → R → R → Bool
◌<f◌ ⦃f⦄ = f.lt

abbrev pub ◌≤f◌ : {R : Type 0} ⦃f : Float R⦄ → R → R → Bool
◌≤f◌ ⦃f⦄ = f.le

abbrev pub zero_float : {R : Type 0} ⦃f : Float R⦄ → R
zero_float ⦃f⦄ = f.zero_f
