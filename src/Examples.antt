-- ===== src/Examples.antt =====
-- Concrete data on which the theorems of this library are used. Floats are natural numbers here.
mod Framing
mod Sessions
mod Rooms
mod Players
mod Udp
mod Dungeons
mod Services
mod Ticks
mod Logins
use dnf_mock_server_client.Prelude.{ℕ, true, ◌+◌, ◌-◌, ◌*◌, ◌/◌, ltb, leb}
use dnf_mock_server_client.Float.{Float}
use dnf_mock_server_client.Geometry.{Position}

instance abbrev pub nat_float : Float ℕ
nat_float = record {
  zero_f = 0;
  lt = ltb;
  le = leb;
  add = λ a b. a + b;
  sub = λ a b. a - b;
  mul = λ a b. a * b;
  div = λ a b. a / b;
  neg = λ a. 0 - a;
  abs = λ a. a;
  sqrt = λ a. a;
  is_finite = λ a. true;
}

abbrev pub at_point : ℕ → ℕ → ℕ → Position ℕ
at_point x y z = record { x = x; y = y; z = z }
