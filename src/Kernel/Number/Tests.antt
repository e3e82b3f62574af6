-- ===== src/Kernel/Number/Tests.antt =====
-- Tests of number and skip_atoi.
use linux.Common.{
  true, false, ℕ, ◌+◌, ◌≡◌, refl, inl, inr, some, [], ◌∷◌, List, ◌++◌, arith, length,
}
use linux.Kernel.Number.{Flags, no_flags, is_digit, number, skip_atoi}
use linux.Kernel.Number.Digits.{skip_atoi-number, zeropad_flags}
use linux.Kernel.Number.Length.{number-length, HasDigits, larger, count}

abbrev hex_flags : Flags
hex_flags = record no_flags { special = true; small = true }

number-length_example :
    (out : List ℕ) × (k : ℕ) × (number 255 16 8 0xffffffff hex_flags ≡ some out)
    × HasDigits 16 255 k
    × (length out ≡ larger (count 8) (2 + larger (count 0xffffffff) k))
number-length_example =
    number-length 255 16 8 0xffffffff hex_flags (omega arith) (omega arith) (omega arith)
      (inl (omega arith)) (inr refl)

colon : is_digit 58 ≡ false
unfolding is_digit
colon = refl

skip_atoi-number_example :
    (out : List ℕ) × (number 1991 10 6 0xffffffff zeropad_flags ≡ some out)
    × (skip_atoi (out ++ (58 ∷ [])) ≡ (1991, 58 ∷ []))
skip_atoi-number_example =
    skip_atoi-number 1991 6 0xffffffff (58 ∷ []) (omega arith) (inl (omega arith)) (inr refl) colon
