-- ===== src/Prelude/Bits/Digit.antt =====
-- The lowest digit of `&` and `|`, with the fuel of their definition taken away.
use Prim.Native.Nat.{
  ℕ, zero, suc, ◌+◌, ◌*◌, ◌/◌, ◌%◌, ◌≤◌, min, max, bit_and, bit_or, digits, bit_and-bitwise,
  bit_or-bitwise,
}
use mathlib.Core.Path.{◌≡◌, refl}
use native.Mathlib.Omega.{arith}

-- Any fuel that covers the first number reads all of its digits.
enough_fuel :
    (left : ℕ → ℕ) (op : ℕ → ℕ → ℕ) (fuel more a b : ℕ)
    → a ≤ fuel
    → a ≤ more
    → digits left op fuel a b ≡ digits left op more a b
enough_fuel left op zero zero a b h k = refl
enough_fuel left op zero (suc more) zero b h k = refl
enough_fuel left op zero (suc more) (suc a) b h k = absurd (omega arith)
enough_fuel left op (suc fuel) zero zero b h k = refl
enough_fuel left op (suc fuel) zero (suc a) b h k = absurd (omega arith)
enough_fuel left op (suc fuel) (suc more) zero b h k = refl
enough_fuel left op (suc fuel) (suc more) (suc a) b h k =
    rw (enough_fuel left op fuel more (suc a / 2) (b / 2) (omega arith) (omega arith))

pub bit_and_low : (a b : ℕ) → bit_and a b ≡ bit_and (a / 2) (b / 2) * 2 + min (a % 2) (b % 2)
bit_and_low zero b = omega (arith, bit_and-bitwise 0 b, bit_and-bitwise 0 (b / 2))
bit_and_low (suc a) b = omega (
  arith,
  bit_and-bitwise (suc a) b,
  bit_and-bitwise (suc a / 2) (b / 2),
  enough_fuel (λ y. 0) min a (suc a / 2) (suc a / 2) (b / 2) (omega arith) (omega arith),
)

pub bit_or_low : (a b : ℕ) → bit_or a b ≡ bit_or (a / 2) (b / 2) * 2 + max (a % 2) (b % 2)
bit_or_low zero b = omega (arith, bit_or-bitwise 0 b, bit_or-bitwise 0 (b / 2))
bit_or_low (suc a) b = omega (
  arith,
  bit_or-bitwise (suc a) b,
  bit_or-bitwise (suc a / 2) (b / 2),
  enough_fuel (λ y. y) max a (suc a / 2) (suc a / 2) (b / 2) (omega arith) (omega arith),
)

pub zero-bit_and : (b : ℕ) → bit_and 0 b ≡ 0
zero-bit_and b = bit_and-bitwise 0 b
