-- ===== src/Common/Bits.antt =====
-- Single bits of a word, and what `|`, `&`, `~` and `1 << n` do to each of them.
mod Digits
use Digits.{or_digit, and_digit}
use linux.Common.Tests.{◌==◌}
use Prim.Native.Nat.{
  ℕ, zero, suc, ◌+◌, ◌-◌, ◌*◌, ◌/◌, ◌%◌, ◌^◌, ◌<◌, min, max, bit_and, bit_or, bit_and-bitwise, ◌≤◌,
}
use mathlib.Core.Path.{◌≡◌, refl, ◌∙◌}
use mathlib.Core.Bool.{Bool, true, false, not, ◌&&◌, ◌||◌}
use native.Mathlib.Omega.{arith}
use native.Mathlib.Nat.{pow-suc, one-le-pow}

-- Bit `k` of `w`.
abbrev pub bit : ℕ → ℕ → Bool
bit w zero = w % 2 == 1
bit w (suc k) = bit (w / 2) k

-- `1 << k` in a 32-bit word.
abbrev pub shl1 : ℕ → ℕ
shl1 k = 2 ^ k % 2 ^ 32

-- `~w` on 32 bits.
abbrev pub not32 : ℕ → ℕ
not32 w = 2 ^ 32 - 1 - w

pub zero-bit : (k : ℕ) → bit 0 k ≡ false
zero-bit zero = refl
zero-bit (suc k) = zero-bit k

pub bit-bit_or : (a b k : ℕ) → bit (bit_or a b) k ≡ (bit a k || bit b k)
bit-bit_or a b zero = ground (arith, or_digit a b)
bit-bit_or a b (suc k) =
    let half : bit_or a b / 2 ≡ bit_or (a / 2) (b / 2) = omega (arith, or_digit a b) in
    rw half (bit-bit_or (a / 2) (b / 2) k)

pub bit-bit_and : (a b k : ℕ) → bit (bit_and a b) k ≡ (bit a k && bit b k)
bit-bit_and a b zero = ground (arith, and_digit a b)
bit-bit_and a b (suc k) =
    let half : bit_and a b / 2 ≡ bit_and (a / 2) (b / 2) = omega (arith, and_digit a b) in
    rw half (bit-bit_and (a / 2) (b / 2) k)

pub bit-pow : (j k : ℕ) → bit (2 ^ j) k ≡ (j == k)
bit-pow zero zero = refl
bit-pow zero (suc k) = zero-bit k ∙ ground arith
bit-pow (suc j) zero = ground (arith, pow-suc 2 j)
bit-pow (suc j) (suc k) =
    let half : 2 ^ suc j / 2 ≡ 2 ^ j = omega (arith, pow-suc 2 j) in
    rw half (bit-pow j k ∙ ground arith)

bit-complement : (n w k : ℕ) → w < 2 ^ n → k < n → bit (2 ^ n - 1 - w) k ≡ not (bit w k)
bit-complement zero w k h l = absurd (omega arith)
bit-complement (suc n) w zero h l = ground (arith, pow-suc 2 n, one-le-pow n 2)
bit-complement (suc n) w (suc k) h l =
    let half : (2 ^ suc n - 1 - w) / 2 ≡ 2 ^ n - 1 - w / 2 =
      omega (arith, pow-suc 2 n, one-le-pow n 2) in
    rw half (bit-complement n (w / 2) k (omega (arith, pow-suc 2 n)) (omega arith))

pub bit-not32 : (w k : ℕ) → w < 2 ^ 32 → k < 32 → bit (not32 w) k ≡ not (bit w k)
bit-not32 w k h l = bit-complement 32 w k h l

zero_of_lt_one : (a : ℕ) → a < 2 ^ 0 → a ≡ 0
zero_of_lt_one a h = omega arith

pub bit_and-zero_left : (b : ℕ) → bit_and 0 b ≡ 0
bit_and-zero_left b = bit_and-bitwise 0 b

-- Words with the same bits are equal.
pub eq_of_bits : (n a b : ℕ) → a < 2 ^ n → b < 2 ^ n → ((k : ℕ) → bit a k ≡ bit b k) → a ≡ b
eq_of_bits zero a b h l same = omega arith
eq_of_bits (suc n) a b h l same =
    let halves : a / 2 ≡ b / 2 =
      eq_of_bits n (a / 2) (b / 2) (omega (arith, pow-suc 2 n)) (omega (arith, pow-suc 2 n))
        (λ k. same (suc k)) in
    ground (arith, same 0)

-- The bits of a union fit the same width.
pub bit_or-lt_pow : (n a b : ℕ) → a < 2 ^ n → b < 2 ^ n → bit_or a b < 2 ^ n
bit_or-lt_pow zero a b h l = rw (zero_of_lt_one a h, zero_of_lt_one b l) (omega arith)
bit_or-lt_pow (suc n) a b h l = omega (
  arith,
  or_digit a b,
  pow-suc 2 n,
  bit_or-lt_pow n (a / 2) (b / 2) (omega (arith, pow-suc 2 n)) (omega (arith, pow-suc 2 n)),
)

pub bit_and-le : (n a b : ℕ) → a ≤ n → bit_and a b ≤ a
bit_and-le n zero b h = rw bit_and-zero_left (omega arith)
bit_and-le zero (suc a) b h = absurd (omega arith)
bit_and-le (suc n) (suc a) b h =
    omega (arith, and_digit (suc a) b, bit_and-le n (suc a / 2) (b / 2) (omega arith))

pow-lt : (n k : ℕ) → k < n → 2 ^ k < 2 ^ n
pow-lt zero k h = absurd (omega arith)
pow-lt (suc n) zero h = omega (arith, pow-suc 2 n, one-le-pow n 2)
pow-lt (suc n) (suc k) h = omega (arith, pow-suc 2 n, pow-suc 2 k, pow-lt n k (omega arith))

shl1-pow : (k : ℕ) → k < 32 → shl1 k ≡ 2 ^ k
shl1-pow k h = omega (arith, pow-lt 32 k h)

pub bit-shl1 : (j k : ℕ) → j < 32 → bit (shl1 j) k ≡ (j == k)
bit-shl1 j k h = rw (shl1-pow j h) (bit-pow j k)

pub shl1-lt : (k : ℕ) → shl1 k < 2 ^ 32
shl1-lt k = omega arith

-- Bit `k` after `w |= 1<<j` and after `w &= ~(1<<j)`.
pub bit_or-shl1 : (w j k : ℕ) → j < 32 → bit (bit_or w (shl1 j)) k ≡ (bit w k || (j == k))
bit_or-shl1 w j k h = rw (bit-bit_or w (shl1 j) k, bit-shl1 j k h)

pub bit_and-not-shl1 :
    (w j k : ℕ) → j < 32 → k < 32 → bit (bit_and w (not32 (shl1 j))) k ≡ (bit w k && not (j == k))
bit_and-not-shl1 w j k h l =
    rw (bit-bit_and w (not32 (shl1 j)) k, bit-not32 (shl1 j) k (shl1-lt j) l, bit-shl1 j k h)

pub bit-high : (n w k : ℕ) → w < 2 ^ n → n ≤ k → bit w k ≡ false
bit-high zero w k h l = rw (zero_of_lt_one w h) (zero-bit k)
bit-high (suc n) w zero h l = absurd (omega arith)
bit-high (suc n) w (suc k) h l = bit-high n (w / 2) k (omega (arith, pow-suc 2 n)) (omega arith)
