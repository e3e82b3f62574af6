-- ===== src/Kernel/Number/Digits.antt =====
-- What skip_atoi reads in the digits that number writes.
use linux.Common.{
  ℕ, zero, suc, ◌+◌, ◌/◌, ◌%◌, ◌^◌, ◌≤◌, ◌<◌, ◌≡◌, refl, inl, inr, Bool, true, false, some, List,
  [], ◌∷◌, ◌++◌, ◌&&◌, ltb, leb, ◌==◌, ==_iff, if◌then◌else◌, Bool-cases, arith, length, replicate,
  sym, ap, ◌∙◌,
}
use linux.Common.Word.{add32, sub32, mul32, slt}
use linux.Kernel.Number.Length.{IsWidth, IsLeft, pad-again, tmp_of-length}
use linux.Kernel.Number.{
  char_at, is_digit, atoi_loop, skip_atoi, Flags, no_flags, digit, digits_of, padding,
  after_padding, backwards, tmp_of, layout, number,
}

append_assoc : (xs ys zs : List ℕ) → (xs ++ ys) ++ zs ≡ xs ++ (ys ++ zs)
append_assoc [] ys zs = refl
append_assoc (x ∷ xs) ys zs = ap (λ r. x ∷ r) (append_assoc xs ys zs)

append-nil : (xs : List ℕ) → xs ++ [] ≡ xs
append-nil [] = refl
append-nil (x ∷ xs) = ap (λ r. x ∷ r) (append-nil xs)

-- The next digit of a number below 2 ^ 32.
atoi_loop-digit :
    (n : ℕ) (small : Bool) (rest : List ℕ)
    → n < 2 ^ 32
    → atoi_loop (digit small (n % 10) ∷ rest) (n / 10) ≡ atoi_loop rest n
unfolding atoi_loop is_digit
atoi_loop-digit n small rest h =
    let low : ltb (n % 10) 10 ≡ true = ground arith in
    let yes : (leb 48 (48 + n % 10) && leb (48 + n % 10) 57) ≡ true = ground arith in
    let value : sub32 (add32 (mul32 (n / 10) 10) (48 + n % 10)) 48 ≡ n = omega arith in
    rw (low, yes, value) refl

pub atoi_loop-digits_of :
    (small : Bool) (k n : ℕ) (rest : List ℕ)
    → n < 2 ^ 32
    → n < 2 ^ k
    → atoi_loop (backwards (digits_of small 10 k n) ++ rest) 0 ≡ atoi_loop rest n
unfolding digits_of backwards
atoi_loop-digits_of small zero n rest h l = ap (atoi_loop rest) (omega arith)
atoi_loop-digits_of small (suc k) n rest h l = elim (Bool-cases (n == 0)) [
  | inl e ↦ rw e (ap (atoi_loop rest) (sym ((==_iff n 0).0 e)))
  | inr e ↦ rw e (
      ap (λ s. atoi_loop s 0)
        (append_assoc (backwards (digits_of small 10 k (n / 10))) (digit small (n % 10) ∷ []) rest)
      ∙ atoi_loop-digits_of small k (n / 10) (digit small (n % 10) ∷ rest) (omega arith) (half k l)
      ∙ atoi_loop-digit n small rest h)
]
  where
    half : (k : ℕ) → n < 2 ^ suc k → n / 10 < 2 ^ k
    half k l = omega arith

pub atoi_loop-zeros :
    (k : ℕ) (rest : List ℕ) → atoi_loop (replicate k 48 ++ rest) 0 ≡ atoi_loop rest 0
unfolding atoi_loop is_digit
atoi_loop-zeros zero rest = refl
atoi_loop-zeros (suc k) rest = atoi_loop-zeros k rest

atoi_loop-padding :
    (low n : ℕ) (rest : List ℕ) → atoi_loop (padding low n 48 ++ rest) 0 ≡ atoi_loop rest 0
atoi_loop-padding low n rest = elim (Bool-cases (slt low n)) [
  | inl e ↦ rw e (atoi_loop-zeros (sub32 n low) rest)
  | inr e ↦ rw e refl
]

atoi_loop-end :
    (rest : List ℕ) (n : ℕ) → is_digit (char_at rest) ≡ false → atoi_loop rest n ≡ (n, rest)
unfolding atoi_loop
atoi_loop-end [] n h = refl
atoi_loop-end (c ∷ rest) n h = rw h refl

abbrev pub zeropad_flags : Flags
zeropad_flags = record no_flags { zeropad = true }

atoi_loop-tmp_of :
    (n : ℕ) (rest : List ℕ)
    → n < 2 ^ 32
    → atoi_loop (backwards (tmp_of n 10 zeropad_flags) ++ rest) 0 ≡ atoi_loop rest n
unfolding tmp_of atoi_loop is_digit backwards
atoi_loop-tmp_of n rest h =
    either (n == 0) (digits_of false 10 36 n) refl
      (atoi_loop-digits_of false 36 n rest h (omega arith))
  where
    either :
        (c : Bool) (ds : List ℕ)
        → (n == 0) ≡ c
        → atoi_loop (backwards ds ++ rest) 0 ≡ atoi_loop rest n
        → atoi_loop (backwards (if c then 48 ∷ [] else ds) ++ rest) 0 ≡ atoi_loop rest n
    either false ds e p = p
    either true ds e p = ap (atoi_loop rest) (sym ((==_iff n 0).0 e))

atoi_loop-layout :
    (n₁ low n₂ : ℕ) (digits trail rest : List ℕ)
    → trail ≡ []
    → atoi_loop ((padding 0 n₁ 48 ++ (padding low n₂ 48 ++ (digits ++ trail))) ++ rest) 0
      ≡ atoi_loop (digits ++ rest) 0
atoi_loop-layout n₁ low n₂ digits trail rest e =
    ap (λ s. atoi_loop s 0)
      (append_assoc (padding 0 n₁ 48) (padding low n₂ 48 ++ (digits ++ trail)) rest
        ∙ ap (λ s. padding 0 n₁ 48 ++ s)
            (append_assoc (padding low n₂ 48) (digits ++ trail) rest
              ∙ ap (λ s. padding low n₂ 48 ++ (s ++ rest)) (rw e (append-nil digits))))
    ∙ atoi_loop-padding 0 n₁ (padding low n₂ 48 ++ (digits ++ rest))
    ∙ atoi_loop-padding low n₂ (digits ++ rest)

-- Printing a word in base 10 with zeros up to a width or a precision that is below 2 ^ 30 or -1, and
-- then reading it with skip_atoi, gives the word back, if no digit comes behind it.
pub skip_atoi-number :
    (n size precision : ℕ) (rest : List ℕ)
    → n < 2 ^ 32
    → IsWidth size
    → IsWidth precision
    → is_digit (char_at rest) ≡ false
    → (out : List ℕ) × (number n 10 size precision zeropad_flags ≡ some out)
      × (skip_atoi (out ++ rest) ≡ (n, rest))
unfolding number skip_atoi layout
skip_atoi-number n size precision rest h is_size is_precision end =
    let tmp = tmp_of n 10 zeropad_flags in
    let precision₁ = if slt precision (length tmp) then length tmp else precision in
    let size₁ = sub32 (sub32 (sub32 size 0) 0) precision₁ in
    let few = (tmp_of-length n 10 zeropad_flags h (omega arith)).1 in
    (
      _,
      refl,
      atoi_loop-layout size₁ (length tmp) precision₁ (backwards tmp)
            (padding 0 (after_padding 0 size₁) 32) rest
            ((pad-again size₁ 32 (in_range (length tmp) few)).0)
          ∙ atoi_loop-tmp_of n rest h
          ∙ atoi_loop-end rest n end,
    )
  where
    in_range :
        (i : ℕ)
        → i ≤ 32
        → IsLeft (sub32 (sub32 (sub32 size 0) 0) (if slt precision i then i else precision))
    in_range i l = ground arith
