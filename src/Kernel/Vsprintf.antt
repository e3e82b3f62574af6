-- ===== src/Kernel/Vsprintf.antt =====
-- vsprintf of kernel/vsprintf.c. Strings are lists of characters without the final 0, but the format that
-- the loop reads has its 0, and a loop that goes on behind it is an over-read. An `int` is its 32-bit word; what is read from a `va_list` of the wrong shape, and a null `str`, are a fault.
pub mod Total
mod Tests
use linux.Common.{
  ℕ, zero, suc, ◌+◌, ◌-◌, ◌*◌, ◌/◌, ◌%◌, Bool, true, false, Option, none, some, List, [], ◌∷◌, ◌++◌,
  not, ◌&&◌, ◌||◌, ltb, leb, ◌==◌, if◌then◌else◌, length, get_or, replicate, take,
}
use linux.Common.Word.{add32, sub32, mul32, is_neg, slt}
use linux.Kernel.Number.{
  is_digit, skip_atoi, Flags, no_flags, padding, after_padding, number, char_at,
}

-- What va_arg can read: an `int`, `long` or pointer, or the characters of a string.
pub data Arg : Type 0 where
  word_arg : ℕ → Arg
  string_arg : List ℕ → Arg

abbrev pub next_word : List Arg → Option (ℕ × List Arg)
next_word (word_arg n ∷ args) = some (n, args)
next_word _ = none

-- `++fmt`; there is nothing to read behind the final 0.
abbrev pub next_char : List ℕ → List ℕ
next_char [] = []
next_char (c ∷ fmt) = fmt

-- A flag character.
pub set_flag : ℕ → Flags → Option Flags
set_flag c f =
    if c == 45
    then some (record f { left = true })
    else if c == 43
    then some (record f { plus = true })
    else if c == 32
    then some (record f { space = true })
    else if c == 35
    then some (record f { special = true })
    else if c == 48
    then some (record f { zeropad = true })
    else none

pub get_flags : List ℕ → Flags → Flags × List ℕ
unfolding set_flag
get_flags [] f = (f, [])
get_flags (c ∷ fmt) f = elim (set_flag c f) [ none ↦ (f, c ∷ fmt) | some f' ↦ get_flags fmt f' ]

-- A conversion while it is read; a field width or precision of -1 is none.
pub record Spec : Type 0 where
  pub flags : Flags
  pub field_width : ℕ
  pub precision : ℕ
  pub fmt : List ℕ
  pub args : List Arg

-- Like the source, it stays on a `*`.
pub get_width : Spec → Option Spec
unfolding skip_atoi is_digit
get_width s =
    let (w, fmt) = skip_atoi s.fmt in
    if is_digit (char_at s.fmt)
    then some (record s { field_width = w; fmt = fmt })
    else if char_at s.fmt == 42
    then (elim (next_word s.args) [
      | none ↦ none
      | some (v, args) ↦ some (
          if is_neg v
          then record s {
            field_width = sub32 0 v;
            flags = record s.flags { left = true };
            args = args;
          }
          else record s { field_width = v; args = args })
    ])
    else some s

abbrev pub not_negative : Spec → Spec
not_negative s = record s { precision = if is_neg s.precision then 0 else s.precision }

-- After a `.`; here too it stays on a `*`.
pub get_digits : Spec → Option Spec
unfolding skip_atoi is_digit
get_digits s =
    let (p, fmt) = skip_atoi s.fmt in
    if is_digit (char_at s.fmt)
    then some (not_negative (record s { precision = p; fmt = fmt }))
    else if char_at s.fmt == 42
    then (elim (next_word s.args) [
      | none ↦ none
      | some (v, args) ↦ some (not_negative (record s { precision = v; args = args }))
    ])
    else some (not_negative s)

pub get_precision : Spec → Option Spec
unfolding get_digits
get_precision s =
    if char_at s.fmt == 46 then get_digits (record s { fmt = next_char s.fmt }) else some s

-- `h`, `l` and `L` are read and have no effect.
pub skip_qualifier : List ℕ → List ℕ
skip_qualifier fmt =
    let c = char_at fmt in if c == 104 || c == 108 || c == 76 then next_char fmt else fmt

-- `str` up to now, and what `%n` has written: the address and the value.
pub record Printed : Type 0 where
  pub str : List ℕ
  pub counts : List (ℕ × ℕ)

abbrev pub print : List ℕ → Printed → Printed
print s p = record p { str = p.str ++ s }

-- `while (--n > 0)` is `while (1 < n--)`.
pub print_char : Spec → ℕ → List ℕ
print_char s c =
    let before = if s.flags.left then [] else padding 1 s.field_width 32 in
    let width = if s.flags.left then s.field_width else after_padding 1 s.field_width in
    before ++ (c % 256 ∷ padding 1 width 32)

pub print_string : Spec → List ℕ → List ℕ
print_string s string =
    let len =
      if is_neg s.precision
      then length string
      else if slt s.precision (length string)
      then s.precision
      else length string in
    let before = if s.flags.left then [] else padding len s.field_width 32 in
    let width = if s.flags.left then s.field_width else after_padding len s.field_width in
    before ++ (take len string ++ padding len width 32)

-- The base of a conversion of a number, and its flags and width.
pub number_spec : ℕ → Spec → Option (ℕ × Spec)
number_spec c s =
    if c == 111
    then some (8, s)
    else if c == 112
    then some (
      16,
      if s.field_width == 0xffffffff
          then record s { field_width = 8; flags = record s.flags { zeropad = true } }
          else s,
    )
    else if c == 120
    then some (16, record s { flags = record s.flags { small = true } })
    else if c == 88
    then some (16, s)
    else if c == 100 || c == 105
    then some (10, record s { flags = record s.flags { sign = true } })
    else if c == 117
    then some (10, s)
    else none

abbrev pub print_number : ℕ → Spec → Printed → Option (Printed × List Arg)
print_number base s p = elim (next_word s.args) [
  | none ↦ none
  | some (v, args) ↦ elim (number v base s.field_width s.precision s.flags) [
    | none ↦ none
    | some digits ↦ some (print digits p, args)
  ]
]

-- The switch on the conversion, without its default.
pub convert : ℕ → Spec → Printed → Option (Printed × List Arg)
unfolding number_spec number print_char print_string
convert c s p = elim (number_spec c s) [
  | some (base, s') ↦ print_number base s' p
  | none ↦
      if c == 99
      then (elim (next_word s.args) [
        | none ↦ none
        | some (v, args) ↦ some (print (print_char s v) p, args)
      ])
      else if c == 115
      then (elim s.args [
        | string_arg string ∷ args ↦ some (print (print_string s string) p, args)
        | _ ↦ none
      ])
      else (elim (next_word s.args) [
        | none ↦ none
        | some (ip, args) ↦ some (record p { counts = p.counts ++ ((ip, length p.str) ∷ []) }, args)
      ])
]

abbrev pub is_conversion : ℕ → Bool
is_conversion c =
    c == 99
    || c == 115
    || c == 111
    || c == 112
    || c == 120
    || c == 88
    || c == 100
    || c == 105
    || c == 117
    || c == 110

-- What the switch's default writes.
abbrev pub print_other : ℕ → List ℕ
print_other c = (if c == 37 then [] else 37 ∷ []) ++ (if c == 0 then [] else c ∷ [])

-- The qualifier and the switch, and the `++fmt` of the loop; the default of the switch undoes that `++fmt`
-- at the end of the format.
pub end_conversion : Printed → Spec → Option (Printed × List ℕ × List Arg)
unfolding skip_qualifier convert
end_conversion p s =
    let fmt = skip_qualifier s.fmt in
    let c = char_at fmt in
    if is_conversion c
    then (elim (convert c s p) [ none ↦ none | some (p', args) ↦ some (p', next_char fmt, args) ])
    else some (print (print_other c) p, if c == 0 then fmt else next_char fmt, s.args)

-- A conversion; `fmt` begins behind the `%`.
pub one_conversion : List ℕ → List Arg → Printed → Option (Printed × List ℕ × List Arg)
unfolding get_flags get_width get_precision end_conversion
one_conversion fmt₀ args₀ p =
    let (flags, fmt₁) = get_flags fmt₀ no_flags in
    let start : Spec = record {
      flags = flags;
      field_width = 0xffffffff;
      precision = 0xffffffff;
      fmt = fmt₁;
      args = args₀;
    } in
    elim (get_width start) [
      | none ↦ none
      | some s₁ ↦ elim (get_precision s₁) [ none ↦ none | some s₂ ↦ end_conversion p s₂ ]
    ]

pub data Result : Type 0 where
  printed : Printed → Result
  fault : Result
  over_read : Result
  no_fuel : Result

-- The loop over the format.
pub print_loop : ℕ → List ℕ → List Arg → Printed → Result
unfolding one_conversion
print_loop zero fmt args p = no_fuel
print_loop (suc k) [] args p = over_read
print_loop (suc k) (c ∷ fmt) args p =
    let plain = print_loop k fmt args (print (c ∷ []) p) in
    if c == 0
    then printed p
    else if c == 37
    then (elim (one_conversion fmt args p) [
      | none ↦ fault
      | some (p', fmt', args') ↦ print_loop k fmt' args' p'
    ])
    else plain

-- The return value is the length of the string.
pub vsprintf : List ℕ → List Arg → Result
unfolding print_loop
vsprintf fmt args =
    print_loop (suc (suc (length fmt))) (fmt ++ (0 ∷ [])) args (record { str = []; counts = [] })
