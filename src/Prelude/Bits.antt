-- ===== src/Prelude/Bits.antt =====
-- `|` of byte fields that do not overlap is a sum.
use Prim.Native.Nat.{
  ℕ, zero, suc, ◌+◌, ◌*◌, ◌/◌, ◌%◌, ◌≤◌, ◌<◌, max, bit_or, digits, bit_or-bitwise,
}
use mathlib.Core.Path.{◌≡◌, refl, ap}
use native.Mathlib.Omega.{arith}

abbrev or_digits : ℕ → ℕ → ℕ → ℕ
or_digits n a b = digits (λ b. b) max n a b

or_digits-zero : (n b : ℕ) → or_digits n 0 b ≡ b
or_digits-zero zero b = refl
or_digits-zero (suc n) b = refl

or_digits_fuel : (n m a b : ℕ) → a ≤ n → a ≤ m → or_digits n a b ≡ or_digits m a b
or_digits_fuel zero zero a b p q = refl
or_digits_fuel zero (suc m) zero b p q = refl
or_digits_fuel zero (suc m) (suc a) b p q = absurd (omega arith)
or_digits_fuel (suc n) zero zero b p q = refl
or_digits_fuel (suc n) zero (suc a) b p q = absurd (omega arith)
or_digits_fuel (suc n) (suc m) zero b p q = refl
or_digits_fuel (suc n) (suc m) (suc a) b p q =
    omega (arith, or_digits_fuel n m (suc a / 2) (b / 2) (omega arith) (omega arith))

pub zero-bit_or : (b : ℕ) → bit_or 0 b ≡ b
zero-bit_or b = bit_or-bitwise 0 b

-- The law for the lowest digit.
bit_or_lowest : (b a : ℕ) → bit_or a b ≡ max (a % 2) (b % 2) + 2 * bit_or (a / 2) (b / 2)
bit_or_lowest b zero = omega (arith, zero-bit_or b, zero-bit_or (b / 2))
bit_or_lowest b (suc a) = omega (
  arith,
  bit_or-bitwise (suc a) b,
  bit_or-bitwise (suc a / 2) (b / 2),
  or_digits_fuel a (suc a / 2) (suc a / 2) (b / 2) (omega arith) (omega arith),
)

bit_or-zero_fuel : (n a : ℕ) → a ≤ n → bit_or a 0 ≡ a
bit_or-zero_fuel n zero h = refl
bit_or-zero_fuel zero (suc a) h = absurd (omega arith)
bit_or-zero_fuel (suc n) (suc a) h =
    omega (arith, bit_or_lowest 0 (suc a), bit_or-zero_fuel n (suc a / 2) (omega arith))

abbrev pow2 : ℕ → ℕ
pow2 zero = 1
pow2 (suc k) = pow2 k * 2

bit_or-shift_pow : (k h l : ℕ) → l < pow2 k → bit_or (h * pow2 k) l ≡ h * pow2 k + l
bit_or-shift_pow zero h zero p = omega (arith, bit_or-zero_fuel (h * 1) (h * 1) (omega arith))
bit_or-shift_pow zero h (suc l) p = absurd (omega arith)
bit_or-shift_pow (suc k) h l p = omega (
  arith,
  bit_or_lowest l (h * (pow2 k * 2)),
  halves h (pow2 k),
  bit_or-shift_pow k h (l / 2) (omega arith),
  ap (λ (t : ℕ). bit_or t (l / 2)) (halves h (pow2 k)),
)
  where
    halves : (h p : ℕ) → h * (p * 2) / 2 ≡ h * p
    halves h p = omega arith

-- A byte below a shifted field.
pub bit_or-shift8 : (h l : ℕ) → l < 256 → bit_or (h * 256) l ≡ h * 256 + l
bit_or-shift8 h l p = bit_or-shift_pow 8 h l p

pub bit_or-shift16 : (h l : ℕ) → l < 65536 → bit_or (h * 65536) l ≡ h * 65536 + l
bit_or-shift16 h l p = bit_or-shift_pow 16 h l p

pub bit_or-shift24 : (h l : ℕ) → l < 16777216 → bit_or (h * 16777216) l ≡ h * 16777216 + l
bit_or-shift24 h l p = bit_or-shift_pow 24 h l p

pub bit_or-shift32 : (h l : ℕ) → l < 4294967296 → bit_or (h * 4294967296) l ≡ h * 4294967296 + l
bit_or-shift32 h l p = bit_or-shift_pow 32 h l p
