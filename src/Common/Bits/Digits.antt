-- ===== src/Common/Bits/Digits.antt =====
-- The lowest digit of `|` and `&`: the recursion behind the native operations, without its fuel.
use Prim.Native.Nat.{
  ℕ, zero, suc, ◌+◌, ◌*◌, ◌/◌, ◌%◌, ◌≤◌, min, max, bit_and, bit_or, digits, bit_and-bitwise,
  bit_or-bitwise,
}
use mathlib.Core.Path.{◌≡◌, refl}
use native.Mathlib.Omega.{arith}

module _ (last : ℕ → ℕ) (f : ℕ → ℕ → ℕ) where
  -- Any two amounts of fuel from the first number on give one result.
  same_fuel : (n m a b : ℕ) → a ≤ n → a ≤ m → digits last f n a b ≡ digits last f m a b
  same_fuel zero zero a b h k = refl
  same_fuel zero (suc m) zero b h k = refl
  same_fuel (suc n) zero zero b h k = refl
  same_fuel (suc n) (suc m) zero b h k = refl
  same_fuel zero m (suc a) b h k = absurd (omega arith)
  same_fuel (suc n) zero (suc a) b h k = absurd (omega arith)
  same_fuel (suc n) (suc m) (suc a) b h k =
      omega (arith, same_fuel n m (suc a / 2) (b / 2) (omega arith) (omega arith))

  digit_suc :
      (a b : ℕ)
      → digits last f (suc a) (suc a) b
        ≡ digits last f (suc a / 2) (suc a / 2) (b / 2) * 2 + f (suc a % 2) (b % 2)
  digit_suc a b =
      omega (arith, same_fuel a (suc a / 2) (suc a / 2) (b / 2) (omega arith) (omega arith))

pub or_digit : (a b : ℕ) → bit_or a b ≡ bit_or (a / 2) (b / 2) * 2 + max (a % 2) (b % 2)
or_digit zero b = rw (bit_or-bitwise 0 b, bit_or-bitwise 0 (b / 2)) (omega arith)
or_digit (suc a) b =
    rw (bit_or-bitwise (suc a) b, bit_or-bitwise (suc a / 2) (b / 2)) (digit_suc (λ y. y) max a b)

pub and_digit : (a b : ℕ) → bit_and a b ≡ bit_and (a / 2) (b / 2) * 2 + min (a % 2) (b % 2)
and_digit zero b = rw (bit_and-bitwise 0 b, bit_and-bitwise 0 (b / 2)) (omega arith)
and_digit (suc a) b =
    rw (bit_and-bitwise (suc a) b, bit_and-bitwise (suc a / 2) (b / 2)) (digit_suc (λ y. 0) min a b)
