-- ===== src/Prelude/Bits.antt =====
-- Facts about `bit_or` at variables: a value below a power of two and a multiple of that power
-- have no bit in common, so their `or` is their sum.
use Prim.Native.Nat.{ℕ, zero, suc, ◌+◌, ◌*◌, ◌/◌, ◌%◌, ◌^◌, ◌≤◌, ◌<◌, max, bit_or, digits}
use Prim.Native.Nat.{bit_or-bitwise}
use mathlib.Core.Path.{◌≡◌, refl, ap}
use native.Mathlib.Omega.{arith}
use native.Mathlib.Nat.{pow-suc, pow-zero}

abbrev or_digits : ℕ → ℕ → ℕ → ℕ
or_digits n a b = digits (λ b. b) max n a b

or_digits_fuel : (n m a b : ℕ) → a ≤ n → a ≤ m → or_digits n a b ≡ or_digits m a b
or_digits_fuel zero zero a b p q = refl
or_digits_fuel zero (suc m) zero b p q = refl
or_digits_fuel zero (suc m) (suc a) b p q = absurd (omega arith)
or_digits_fuel (suc n) zero zero b p q = refl
or_digits_fuel (suc n) zero (suc a) b p q = absurd (omega arith)
or_digits_fuel (suc n) (suc m) zero b p q = refl
or_digits_fuel (suc n) (suc m) (suc a) b p q =
    omega (arith, or_digits_fuel n m (suc a / 2) (b / 2) (omega arith) (omega arith))

zero-bit_or : (b : ℕ) → bit_or 0 b ≡ b
zero-bit_or b = bit_or-bitwise 0 b

bit_or_step : (a b : ℕ) → bit_or a b ≡ bit_or (a / 2) (b / 2) * 2 + max (a % 2) (b % 2)
bit_or_step zero b = omega (arith, zero-bit_or b, zero-bit_or (b / 2))
bit_or_step (suc a) b = omega (
  arith,
  bit_or-bitwise (suc a) b,
  bit_or-bitwise (suc a / 2) (b / 2),
  or_digits_fuel a (suc a / 2) (suc a / 2) (b / 2) (omega arith) (omega arith),
)

div-two : (n : ℕ) → n * 2 / 2 ≡ n
div-two n = omega arith

pub bit_or-eq-add : (k x t : ℕ) → x < 2 ^ k → bit_or x (t * 2 ^ k) ≡ x + t * 2 ^ k
bit_or-eq-add zero zero t h = omega (arith, zero-bit_or (t * 2 ^ 0))
bit_or-eq-add zero (suc x) t h = absurd (omega (arith, pow-zero 2))
bit_or-eq-add (suc k) x t h = rw (half_eq) (
    omega (
      arith,
      pow-suc 2 k,
      bit_or_step x (t * 2 ^ k * 2),
      bit_or-eq-add k (x / 2) t (omega (arith, pow-suc 2 k)),
      halves,
    ))
  where
    half_eq : t * 2 ^ suc k ≡ t * 2 ^ k * 2
    half_eq = omega (arith, ap (λ (u : ℕ). t * u) (pow-suc 2 k))

    halves : bit_or (x / 2) (t * 2 ^ k * 2 / 2) ≡ bit_or (x / 2) (t * 2 ^ k)
    halves = ap (λ (u : ℕ). bit_or (x / 2) u) (div-two (t * 2 ^ k))
