-- ===== src/Kernel/Number.antt =====
-- number and skip_atoi of kernel/vsprintf.c. Strings are lists of characters without the final 0, and an
-- `int` is its 32-bit word.
pub mod Digits
pub mod Length
mod Tests
use linux.Common.{
  ℕ, zero, suc, ◌+◌, ◌-◌, ◌*◌, ◌/◌, ◌%◌, Bool, true, false, Option, none, some, List, [], ◌∷◌, ◌++◌,
  not, ◌&&◌, ◌||◌, ltb, leb, ◌==◌, if◌then◌else◌, length, get_or, replicate, take,
}
use linux.Common.Word.{add32, sub32, mul32, is_neg, slt}

-- `*s`, which is 0 at the end
abbrev pub char_at : List ℕ → ℕ
char_at [] = 0
char_at (c ∷ s) = c

unfoldable pub is_digit : ℕ → Bool
is_digit c = leb 48 c && leb c 57

-- The loop of skip_atoi, from `i` on.
unfoldable pub atoi_loop : List ℕ → ℕ → ℕ × List ℕ
unfolding is_digit
atoi_loop [] i = (i, [])
atoi_loop (c ∷ s) i =
    let rest = atoi_loop s (sub32 (add32 (mul32 i 10) c) 48) in
    if is_digit c then rest else (i, c ∷ s)

unfoldable pub skip_atoi : List ℕ → ℕ × List ℕ
unfolding atoi_loop
skip_atoi s = atoi_loop s 0

-- The bits of `flags`.
pub record Flags : Type 0 where
  pub zeropad : Bool
  pub sign : Bool
  pub plus : Bool
  pub space : Bool
  pub left : Bool
  pub special : Bool
  pub small : Bool

abbrev pub no_flags : Flags
no_flags = record {
  zeropad = false;
  sign = false;
  plus = false;
  space = false;
  left = false;
  special = false;
  small = false;
}

-- `digits[d]`
abbrev pub digit : Bool → ℕ → ℕ
digit small d = if ltb d 10 then 48 + d else if small then 87 + d else 55 + d

-- The loop that fills `tmp`, which has 36 places.
pub digits_of : Bool → ℕ → ℕ → ℕ → List ℕ
digits_of small base zero num = []
digits_of small base (suc k) num =
    let rest = digits_of small base k (num / base) in
    if num == 0 then [] else digit small (num % base) ∷ rest

-- `while (low < n--) *str++ = c;`: what it writes, and `n` after it.
abbrev pub padding : ℕ → ℕ → ℕ → List ℕ
padding low n c = if slt low n then replicate (sub32 n low) c else []

abbrev pub after_padding : ℕ → ℕ → ℕ
after_padding low n = if slt low n then sub32 low 1 else sub32 n 1

-- `while(i-->0) *str++ = tmp[i];`
pub backwards : List ℕ → List ℕ
backwards [] = []
backwards (d ∷ tmp) = backwards tmp ++ (d ∷ [])

abbrev pub is_zeropad : Flags → Bool
is_zeropad type = type.zeropad && not type.left

abbrev pub is_minus : ℕ → Flags → Bool
is_minus num type = type.sign && is_neg num

pub sign_of : ℕ → Flags → List ℕ
sign_of num type =
    if is_minus num type
    then 45 ∷ []
    else if type.plus
    then 43 ∷ []
    else if type.space
    then 32 ∷ []
    else []

pub prefix_of : ℕ → Flags → List ℕ
prefix_of base type =
    if type.special && base == 8
    then 48 ∷ []
    else if type.special && base == 16
    then 48 ∷ digit type.small 33 ∷ []
    else []

pub tmp_of : ℕ → ℕ → Flags → List ℕ
unfolding digits_of
tmp_of num base type =
    let n = if is_minus num type then sub32 0 num else num in
    if n == 0 then 48 ∷ [] else digits_of type.small base 36 n

-- What is written once `size` is left for padding and the digits.
pub layout : Flags → ℕ → ℕ → List ℕ → List ℕ → List ℕ → List ℕ
unfolding backwards
layout type size precision sign prefix tmp =
    let c = if is_zeropad type then 48 else 32 in
    let i = length tmp in
    let precision₁ = if slt precision i then i else precision in
    let size₁ = sub32 size precision₁ in
    let spaces = if type.zeropad || type.left then [] else padding 0 size₁ 32 in
    let size₂ = if type.zeropad || type.left then size₁ else after_padding 0 size₁ in
    let fill = if type.left then [] else padding 0 size₂ c in
    let size₃ = if type.left then size₂ else after_padding 0 size₂ in
    spaces
    ++ (sign
        ++ (prefix ++ (fill ++ (padding i precision₁ 48 ++ (backwards tmp ++ padding 0 size₃ 32)))))

-- What number writes; `none` is its return of 0.
unfoldable pub number : ℕ → ℕ → ℕ → ℕ → Flags → Option (List ℕ)
unfolding sign_of prefix_of tmp_of layout
number num base size precision type =
    let sign = sign_of num type in
    let prefix = prefix_of base type in
    let left = sub32 (sub32 size (length sign)) (length prefix) in
    if ltb base 2 || ltb 36 base
    then none
    else some (layout type left precision sign prefix (tmp_of num base type))
