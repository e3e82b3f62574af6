-- ===== src/Kernel/Vsprintf/Total.antt =====
-- vsprintf comes to an end without an over-read: each round of its loop takes a character of the format,
-- and none goes past its final 0.
use linux.Common.{
  ℕ, zero, suc, ◌≤◌, ◌<◌, ◌≡◌, ◌≢◌, refl, ◌⊎◌, ◌||◌, ◌++◌, inl, inr, Bool, true, false, Option,
  some, none, List, [], ◌∷◌, ◌==◌, if◌then◌else◌, Option-cases, Bool-cases, arith, length,
  length-append,
}
use linux.Common.Word.{add32, sub32, mul32, is_neg}
use linux.Kernel.Number.{is_digit, atoi_loop, skip_atoi, Flags, no_flags, char_at}
use linux.Kernel.Vsprintf.{
  set_flag, get_flags, next_char, Spec, get_width, get_digits, get_precision, skip_qualifier,
  convert, end_conversion, one_conversion, Printed, print, Arg, Result, printed, fault, over_read,
  no_fuel, print_loop, vsprintf, next_word, is_conversion,
}

-- The final 0 of a format is still to be read.
pub HasNul : List ℕ → Type 0
HasNul [] = ⊥
HasNul (c ∷ fmt) = (c ≡ 0) ⊎ HasNul fmt

-- What is left of a format is no longer, and has its final 0 if that has.
record Rest (fmt fmt' : List ℕ) : Type 0 where
  short : length fmt' ≤ length fmt
  has_nul : HasNul fmt → HasNul fmt'

Rest-refl : (fmt : List ℕ) → Rest fmt fmt
Rest-refl fmt = record { short = omega arith; has_nul = λ h. h }

Rest-trans : {a b c : List ℕ} → Rest a b → Rest b c → Rest a c
Rest-trans r t = record {
  short = omega (arith, r.short, t.short);
  has_nul = λ h. t.has_nul (r.has_nul h);
}

behind : (c : ℕ) (fmt : List ℕ) → c ≢ 0 → Rest (c ∷ fmt) fmt
unfolding HasNul
behind c fmt h = record {
  short = omega arith;
  has_nul = λ z. elim z [ inl e ↦ absurd (h e) | inr r ↦ r ];
}

next_char-Rest : (fmt : List ℕ) → char_at fmt ≢ 0 → Rest fmt (next_char fmt)
next_char-Rest [] h = Rest-refl []
next_char-Rest (c ∷ fmt) h = behind c fmt h

no_digit_zero : (c : ℕ) → is_digit c ≡ true → c ≢ 0
unfolding is_digit
no_digit_zero c e z = ground (arith, e, z)

atoi_loop-Rest : (s : List ℕ) (i : ℕ) → Rest s (atoi_loop s i).1
unfolding atoi_loop
atoi_loop-Rest [] i = Rest-refl []
atoi_loop-Rest (c ∷ s) i = elim (Bool-cases (is_digit c)) [
  | inl e ↦ rw e (
      Rest-trans (behind c s (no_digit_zero c e))
        (atoi_loop-Rest s (sub32 (add32 (mul32 i 10) c) 48)))
  | inr e ↦ rw e (Rest-refl (c ∷ s))
]

set_flag-zero : (c : ℕ) (f f' : Flags) → set_flag c f ≡ some f' → c ≢ 0
unfolding set_flag
set_flag-zero c f f' e z = no (rw z at e)
  where
    no : none ≡ some f' → ⊥
    no q = cc

get_flags-Rest : (fmt : List ℕ) (f : Flags) → Rest fmt (get_flags fmt f).1
unfolding get_flags
get_flags-Rest [] f = Rest-refl []
get_flags-Rest (c ∷ fmt) f = elim (Option-cases (set_flag c f)) [
  | inl e ↦ rw (get_flags, e) (Rest-refl (c ∷ fmt))
  | inr (f', e) ↦
      rw (get_flags, e) (Rest-trans (behind c fmt (set_flag-zero c f f' e)) (get_flags-Rest fmt f'))
]

-- The step has read a part of the format.
abbrev Shorter : Spec → Option Spec → Type 0
Shorter s none = Unit {0}
Shorter s (some s') = Rest s.fmt s'.fmt

module _ (s : Spec) where
  Shorter-if :
      (b : Bool) (x y : Option Spec)
      → (b ≡ true → Shorter s x)
      → Shorter s y
      → Shorter s (if b then x else y)
  Shorter-if true x y h k = h refl
  Shorter-if false x y h k = k

  Shorter-some_if :
      (b : Bool) (x y : Spec)
      → Rest s.fmt x.fmt
      → Rest s.fmt y.fmt
      → Shorter s (some (if b then x else y))
  Shorter-some_if true x y h k = h
  Shorter-some_if false x y h k = k

  Shorter-elim :
      {A : Type 0} (o : Option A) (f : A → Option Spec)
      → ((a : A) → Shorter s (f a))
      → Shorter s (elim o [ none ↦ none | some a ↦ f a ])
  Shorter-elim none f h = tt
  Shorter-elim (some a) f h = h a

get_width-Shorter : (s : Spec) → Shorter s (get_width s)
unfolding get_width skip_atoi
get_width-Shorter s =
    Shorter-if s (is_digit (char_at s.fmt)) _ _ (λ e. atoi_loop-Rest s.fmt 0)
      (Shorter-if s (char_at s.fmt == 42) _ _
        (λ e.
          Shorter-elim s (next_word s.args) _
            (λ va. Shorter-some_if s (is_neg va.0) _ _ (Rest-refl s.fmt) (Rest-refl s.fmt)))
        (Rest-refl s.fmt))

get_digits-Shorter : (s : Spec) → Shorter s (get_digits s)
unfolding get_digits skip_atoi
get_digits-Shorter s =
    Shorter-if s (is_digit (char_at s.fmt)) _ _ (λ e. atoi_loop-Rest s.fmt 0)
      (Shorter-if s (char_at s.fmt == 42) _ _
        (λ e. Shorter-elim s (next_word s.args) _ (λ va. Rest-refl s.fmt)) (Rest-refl s.fmt))

is_dot : (c : ℕ) → (c == 46) ≡ true → c ≢ 0
is_dot c e z = ground (arith, e, z)

get_precision-Shorter : (s : Spec) → Shorter s (get_precision s)
unfolding get_precision
get_precision-Shorter s =
    Shorter-if s (char_at s.fmt == 46) _ _
      (λ e.
        trans (next_char-Rest s.fmt (is_dot (char_at s.fmt) e))
          (get_digits (record s { fmt = next_char s.fmt }))
          (get_digits-Shorter (record s { fmt = next_char s.fmt })))
      (Rest-refl s.fmt)
  where
    trans :
        Rest s.fmt (next_char s.fmt)
        → (o : Option Spec) → Shorter (record s { fmt = next_char s.fmt }) o
        → Shorter s o
    trans r none h = tt
    trans r (some s') h = Rest-trans r h

is_qualifier : (c : ℕ) → (c == 104 || c == 108 || c == 76) ≡ true → c ≢ 0
is_qualifier c e z = ground (arith, e, z)

skip_qualifier-Rest : (fmt : List ℕ) → Rest fmt (skip_qualifier fmt)
unfolding skip_qualifier
skip_qualifier-Rest fmt =
    let c = char_at fmt in
    elim (Bool-cases (c == 104 || c == 108 || c == 76)) [
      | inl e ↦ rw e (next_char-Rest fmt (is_qualifier c e))
      | inr e ↦ rw e (Rest-refl fmt)
    ]

-- What has been read of a format.
abbrev Reads : List ℕ → Option (Printed × List ℕ × List Arg) → Type 0
Reads fmt none = Unit {0}
Reads fmt (some (p, fmt', args)) = Rest fmt fmt'

Reads-elim :
    (fmt : List ℕ) (s : Spec) (o : Option Spec) (f : Spec → Option (Printed × List ℕ × List Arg))
    → Shorter s o
    → ((s' : Spec) → Rest s.fmt s'.fmt → Reads fmt (f s'))
    → Reads fmt (elim o [ none ↦ none | some s' ↦ f s' ])
Reads-elim fmt s none f h k = tt
Reads-elim fmt s (some s') f h k = k s' h

conversion_char : (c : ℕ) → is_conversion c ≡ true → c ≢ 0
conversion_char c e z = no (rw z at e)
  where
    no : false ≡ true → ⊥
    no q = cc

end_conversion-Reads : (p : Printed) (s : Spec) → Reads s.fmt (end_conversion p s)
unfolding end_conversion
end_conversion-Reads p s =
    either (is_conversion (char_at fmt)) (char_at fmt == 0) (convert (char_at fmt) s p) _
      (λ e. Rest-trans skipped (next_char-Rest fmt (conversion_char (char_at fmt) e)))
      (λ e. Rest-trans skipped (next_char-Rest fmt (not_zero (char_at fmt) e)))
  where
    fmt : List ℕ
    fmt = skip_qualifier s.fmt

    skipped : Rest s.fmt fmt
    skipped = skip_qualifier-Rest s.fmt

    not_zero : (c : ℕ) → (c == 0) ≡ false → c ≢ 0
    not_zero c e z = ground (arith, e, z)

    either :
        (b z : Bool) (r : Option (Printed × List Arg)) (other : Printed)
        → (b ≡ true → Rest s.fmt (next_char fmt))
        → (z ≡ false → Rest s.fmt (next_char fmt))
        → Reads s.fmt (
            if b
            then (elim r [ none ↦ none | some (p', args) ↦ some (p', next_char fmt, args) ])
            else some (other, if z then fmt else next_char fmt, s.args))
    either true z none other h k = tt
    either true z (some (p', args)) other h k = h refl
    either false true r other h k = skipped
    either false false r other h k = k refl

one_conversion-Reads :
    (fmt : List ℕ) (args : List Arg) (p : Printed) → Reads fmt (one_conversion fmt args p)
unfolding one_conversion
one_conversion-Reads fmt args p =
    let (flags, fmt₁) = get_flags fmt no_flags in
    let start : Spec = record {
      flags = flags;
      field_width = 0xffffffff;
      precision = 0xffffffff;
      fmt = fmt₁;
      args = args;
    } in
    Reads-elim fmt start (get_width start) _ (get_width-Shorter start) (λ s₁ h₁.
      Reads-elim fmt s₁ (get_precision s₁) _ (get_precision-Shorter s₁) (λ s₂ h₂.
        after (end_conversion p s₂) (Rest-trans (get_flags-Rest fmt no_flags) (Rest-trans h₁ h₂))
          (end_conversion-Reads p s₂)))
  where
    after :
        (r : Option (Printed × List ℕ × List Arg)) {fmt₂ : List ℕ}
        → Rest fmt fmt₂
        → Reads fmt₂ r
        → Reads fmt r
    after none h k = tt
    after (some (p', fmt', args')) h k = Rest-trans h k

-- The rest of the loop.
abbrev go_on : ℕ → Option (Printed × List ℕ × List Arg) → Result
go_on k none = fault
go_on k (some (p, fmt, args)) = print_loop k fmt args p

-- The loop has come to its end, and not behind the format.
abbrev pub Ends : Result → Type 0
Ends r = (r ≢ no_fuel) × (r ≢ over_read)

printed-Ends : (p : Printed) → Ends (printed p)
printed-Ends p = (λ q. cc, λ q. cc)

fault-Ends : Ends fault
fault-Ends = (λ q. cc, λ q. cc)

print_loop-Ends :
    (k : ℕ) (fmt : List ℕ) (args : List Arg) (p : Printed)
    → length fmt < k
    → HasNul fmt
    → Ends (print_loop k fmt args p)
unfolding print_loop HasNul
print_loop-Ends zero fmt args p h n = absurd (omega arith)
print_loop-Ends (suc k) [] args p h n = absurd n
print_loop-Ends (suc k) (c ∷ fmt) args p h n =
    either (c == 0) (c == 37) (one_conversion fmt args p) (one_conversion-Reads fmt args p)
      (λ e fmt' args' p' r.
        print_loop-Ends k fmt' args' p' (omega (arith, h, r.short)) (r.has_nul (further e)))
  where
    further : (c == 0) ≡ false → HasNul fmt
    further e = elim n [ inl z ↦ absurd (ground (arith, e, z)) | inr r ↦ r ]

    either :
        (z b : Bool) (r : Option (Printed × List ℕ × List Arg))
        → Reads fmt r
        → (z ≡ false
            → (fmt' : List ℕ) (args' : List Arg) (p' : Printed) → Rest fmt fmt'
            → Ends (print_loop k fmt' args' p'))
        → Ends (
            if z
            then printed p
            else if b
            then go_on k r
            else print_loop k fmt args (print (c ∷ []) p))
    either true b r read rest = printed-Ends p
    either false false r read rest = rest refl fmt args (print (c ∷ []) p) (Rest-refl fmt)
    either false true none read rest = fault-Ends
    either false true (some (p', fmt', args')) read rest = rest refl fmt' args' p' read

append-HasNul : (fmt : List ℕ) → HasNul (fmt ++ (0 ∷ []))
unfolding HasNul
append-HasNul [] = inl refl
append-HasNul (c ∷ fmt) = inr (append-HasNul fmt)

-- Whatever the format and the arguments are, vsprintf comes to an end, and does not read behind the final
-- 0 of the format, also where a conversion stands at the end of the format without its letter: it reaches
-- the 0, or a conversion finds no argument that it can take.
pub vsprintf-total : (fmt : List ℕ) (args : List Arg) → Ends (vsprintf fmt args)
unfolding vsprintf
vsprintf-total fmt args =
    print_loop-Ends (suc (suc (length fmt))) (fmt ++ (0 ∷ [])) args _
      (omega (arith, length-append fmt (0 ∷ []))) (append-HasNul fmt)
