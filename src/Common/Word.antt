-- ===== src/Common/Word.antt =====
-- 32-bit `int` and `long` as bit patterns below 2 ^ 32, in two's complement.
use linux.Common.Tests.{ltb, leb, if◌then◌else◌}
use Prim.Native.Nat.{ℕ, ◌+◌, ◌-◌, ◌*◌, ◌/◌, ◌%◌, ◌^◌}
use mathlib.Core.Bool.{Bool}

abbrev pub word : ℕ
word = 2 ^ 32

abbrev pub add32 : ℕ → ℕ → ℕ
add32 a b = (a + b) % 2 ^ 32

abbrev pub sub32 : ℕ → ℕ → ℕ
sub32 a b = (a + 2 ^ 32 - b) % 2 ^ 32

abbrev pub mul32 : ℕ → ℕ → ℕ
mul32 a b = (a * b) % 2 ^ 32

abbrev pub is_neg : ℕ → Bool
is_neg w = leb (2 ^ 31) w

-- `a < b` on signed words.
abbrev pub slt : ℕ → ℕ → Bool
slt a b = ltb ((a + 2 ^ 31) % 2 ^ 32) ((b + 2 ^ 31) % 2 ^ 32)

-- `w / k` and `w % k` at a positive constant: both round towards zero.
abbrev pub sdiv : ℕ → ℕ → ℕ
sdiv w k = if is_neg w then sub32 0 ((2 ^ 32 - w) / k) else w / k

abbrev pub smod : ℕ → ℕ → ℕ
smod w k = if is_neg w then sub32 0 ((2 ^ 32 - w) % k) else w % k
