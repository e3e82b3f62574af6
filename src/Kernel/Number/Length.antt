-- ===== src/Kernel/Number/Length.antt =====
-- How long the string is that number writes.
use linux.Common.{
  ℕ, zero, suc, ◌+◌, ◌-◌, ◌*◌, ◌/◌, ◌^◌, ◌≤◌, ◌<◌, ◌≡◌, refl, ◌⊎◌, inl, inr, Bool, true, false,
  some, List, [], ◌∷◌, ◌++◌, ◌||◌, ◌&&◌, not, ltb, leb, ◌==◌, if◌then◌else◌, Bool-cases, arith,
  length, length-append, length-replicate, ◌∙◌,
}
use linux.Common.Word.{sub32, is_neg, slt}
use native.Mathlib.Nat.{div-lt_iff_lt-mul, mul-le-mul_left, pow-succ', pow-zero, le-div_iff_mul-le}
use linux.Kernel.Number.{
  Flags, digits_of, padding, after_padding, backwards, is_zeropad, is_minus, sign_of, prefix_of,
  tmp_of, layout, number,
}

pub length-digits_of :
    (small : Bool) (base k j n : ℕ) → 2 ≤ base → n < 2 ^ j → length (digits_of small base k n) ≤ j
unfolding digits_of
length-digits_of small base zero j n b h = omega arith
length-digits_of small base (suc k) zero n b h =
    let e : (n == 0) ≡ true = ground arith in rw e (omega arith)
length-digits_of small base (suc k) (suc j) n b h = elim (Bool-cases (n == 0)) [
  | inl e ↦ rw e (omega arith)
  | inr e ↦
      let less : n / base < 2 ^ j =
        (div-lt_iff_lt-mul (omega arith)).1 (omega (arith, h, mul-le-mul_left (2 ^ j) b)) in
      rw e ((one_more (length-digits_of small base k j (n / base) b less)))
]
  where
    one_more : {l : ℕ} → l ≤ j → suc l ≤ suc j
    one_more h = omega arith

some_digit :
    (small : Bool) (base k n : ℕ) → (n == 0) ≡ false → 1 ≤ length (digits_of small base (suc k) n)
unfolding digits_of
some_digit small base k n e = rw e (omega arith)

length-backwards : (ds : List ℕ) → length (backwards ds) ≡ length ds
unfolding backwards
length-backwards [] = refl
length-backwards (d ∷ ds) =
    length-append (backwards ds) (d ∷ []) ∙ omega (arith, length-backwards ds)

length-padding : (low n c : ℕ) → length (padding low n c) ≡ (if slt low n then sub32 n low else 0)
length-padding low n c = elim (Bool-cases (slt low n)) [
  | inl e ↦ rw e (length-replicate (sub32 n low) c)
  | inr e ↦ rw e refl
]

-- What va_list has for no width or no precision is -1.
abbrev pub count : ℕ → ℕ
count w = if is_neg w then 0 else w

abbrev pub larger : ℕ → ℕ → ℕ
larger a b = if leb a b then b else a

-- A width or precision that is given, or -1.
abbrev pub IsWidth : ℕ → Type 0
IsWidth w = (w < 2 ^ 30) ⊎ (w ≡ 0xffffffff)

seven :
    (a b c d e f g : List ℕ)
    → length (a ++ (b ++ (c ++ (d ++ (e ++ (f ++ g))))))
      ≡ length a + (length b + (length c + (length d + (length e + (length f + length g)))))
seven a b c d e f g = omega (
  arith,
  length-append a (b ++ (c ++ (d ++ (e ++ (f ++ g))))),
  length-append b (c ++ (d ++ (e ++ (f ++ g)))),
  length-append c (d ++ (e ++ (f ++ g))),
  length-append d (e ++ (f ++ g)),
  length-append e (f ++ g),
  length-append f g,
)

-- The words that `size` can have.
abbrev pub IsLeft : ℕ → Type 0
IsLeft size = (size < 2 ^ 30) ⊎ ((2 ^ 31 + 2 ^ 29 ≤ size) × (size < 2 ^ 32))

pad-once : (size c : ℕ) → IsLeft size → length (padding 0 size c) ≡ (if slt 0 size then size else 0)
pad-once size c h = length-padding 0 size c ∙ ground arith

pub pad-again :
    (size c : ℕ)
    → IsLeft size
    → (padding 0 (after_padding 0 size) c ≡ [])
      × (padding 0 (after_padding 0 (after_padding 0 size)) c ≡ [])
pad-again size c h =
    let one : slt 0 (after_padding 0 size) ≡ false = ground arith in
    let two : slt 0 (after_padding 0 (after_padding 0 size)) ≡ false = ground arith in
    (rw one refl, rw two refl)

-- The padding is written in one of three places.
pads :
    (zeropad left : Bool) (size c : ℕ)
    → IsLeft size
    → let size₂ = if zeropad || left then size else after_padding 0 size in
      let size₃ = if left then size₂ else after_padding 0 size₂ in
      length (if zeropad || left then [] else padding 0 size 32)
        + (length (if left then [] else padding 0 size₂ c) + length (padding 0 size₃ 32))
      ≡ (if slt 0 size then size else 0)
pads true true size c h = omega (arith, pad-once size 32 h)
pads false true size c h = omega (arith, pad-once size 32 h)
pads true false size c h = rw ((pad-again size 32 h).0) (omega (arith, pad-once size c h))
pads false false size c h =
    rw ((pad-again size 32 h).1, (pad-again size c h).0) (omega (arith, pad-once size 32 h))

sums :
    (size precision i s p a f t : ℕ) {z b m : ℕ}
    → IsWidth precision
    → (size < 2 ^ 30) ⊎ ((2 ^ 32 - 4 ≤ size) × (size < 2 ^ 32))
    → i ≤ 32
    → m ≡ larger (count precision) i
    → a + (f + t) ≡ (if slt 0 (sub32 size m) then sub32 size m else 0)
    → z ≡ (if slt i m then sub32 m i else 0)
    → b ≡ i
    → a + (s + (p + (f + (z + (b + t)))))
      ≡ s + (p + larger (count size) (larger (count precision) i))
sums size precision i s p a f t {z} {b} {m} is_precision is_size low max padded zeros digits =
    let bound : (i ≤ m) × (m < 2 ^ 30) = ground arith in
    let zeros' : z ≡ m - i = zeros ∙ given i m (bound.0) (bound.1) in
    let padded' : a + (f + t) ≡ larger (count size) m - m =
      padded ∙ left size m is_size (bound.1) in
    let more : m ≤ larger (count size) m = ground arith in
    rw (← max) (omega (arith, zeros', padded', digits, bound.0))
  where
    given : (i m : ℕ) → i ≤ m → m < 2 ^ 30 → (if slt i m then sub32 m i else 0) ≡ m - i
    given i m h l = ground arith

    left :
        (size m : ℕ)
        → (size < 2 ^ 30) ⊎ ((2 ^ 32 - 4 ≤ size) × (size < 2 ^ 32))
        → m < 2 ^ 30
        → (if slt 0 (sub32 size m) then sub32 size m else 0) ≡ larger (count size) m - m
    left size m w h = ground arith

-- The digits and the zeros before them.
layout-length :
    (type : Flags) (size precision : ℕ) (sign prefix tmp : List ℕ)
    → IsWidth precision
    → (size < 2 ^ 30) ⊎ ((2 ^ 32 - 4 ≤ size) × (size < 2 ^ 32))
    → length tmp ≤ 32
    → length (layout type size precision sign prefix tmp)
      ≡ length sign + (length prefix + larger (count size) (larger (count precision) (length tmp)))
unfolding layout
layout-length type size precision sign prefix tmp is_precision is_size low =
    let c = if is_zeropad type then 48 else 32 in
    let i = length tmp in
    let precision₁ = if slt precision i then i else precision in
    let size₁ = sub32 size precision₁ in
    let spaces = if type.zeropad || type.left then [] else padding 0 size₁ 32 in
    let size₂ = if type.zeropad || type.left then size₁ else after_padding 0 size₁ in
    let fill = if type.left then [] else padding 0 size₂ c in
    let size₃ = if type.left then size₂ else after_padding 0 size₂ in
    let padded = pads type.zeropad type.left size₁ c (in_range precision₁ (below i low)) in
    seven spaces sign prefix fill (padding i precision₁ 48) (backwards tmp) (padding 0 size₃ 32)
    ∙ sums size precision i (length sign) (length prefix) (length spaces) (length fill)
        (length (padding 0 size₃ 32)) is_precision is_size low (most i low) padded
        (length-padding i precision₁ 48) (length-backwards tmp)
  where
    most :
        (i : ℕ) → i ≤ 32 → (if slt precision i then i else precision) ≡ larger (count precision) i
    most i h = ground arith

    below : (i : ℕ) → i ≤ 32 → (if slt precision i then i else precision) < 2 ^ 30
    below i h = ground arith

    in_range : (m : ℕ) → m < 2 ^ 30 → IsLeft (sub32 size m)
    in_range m h = ground arith

-- The characters that the flags ask for before the number.
abbrev pub sign_chars : ℕ → Flags → ℕ
sign_chars num type = if (type.sign && leb (2 ^ 31) num) || type.plus || type.space then 1 else 0

abbrev pub prefix_chars : ℕ → Flags → ℕ
prefix_chars base type =
    if not type.special then 0 else if base == 8 then 1 else if base == 16 then 2 else 0

-- What is written in digits: a signed word that is negative is negated.
abbrev pub magnitude : ℕ → Flags → ℕ
magnitude num type = if type.sign && leb (2 ^ 31) num then 2 ^ 32 - num else num

-- `n` has `k` digits; 0 has one.
pub record HasDigits (base n k : ℕ) : Type 0 where
  pub digits : ℕ
  pub count : k ≡ suc digits
  pub below : n < base ^ k
  pub from : (k ≡ 1) ⊎ (base ^ digits ≤ n)

sign_of-length :
    (num : ℕ) (type : Flags) → num < 2 ^ 32 → length (sign_of num type) ≡ sign_chars num type
unfolding sign_of
sign_of-length num type h = ground arith

prefix_of-length : (base : ℕ) (type : Flags) → length (prefix_of base type) ≡ prefix_chars base type
unfolding prefix_of
prefix_of-length base type = ground arith

sign_chars-le : (num : ℕ) (type : Flags) → sign_chars num type ≤ 1
sign_chars-le num type = ground arith

prefix_chars-le : (base : ℕ) (type : Flags) → prefix_chars base type ≤ 2
prefix_chars-le base type = ground arith

digits_of-below :
    (small : Bool) (base k n : ℕ)
    → 2 ≤ base
    → n < 2 ^ k
    → n < base ^ length (digits_of small base k n)
unfolding digits_of
digits_of-below small base zero n b h = rw (pow-zero base) (omega (arith, h))
digits_of-below small base (suc k) n b h = elim (Bool-cases (n == 0)) [
  | inl e ↦ rw (e, pow-zero base) (ground (arith, e))
  | inr e ↦
      let less : n / base < 2 ^ k =
        (div-lt_iff_lt-mul (omega arith)).1 (omega (arith, h, mul-le-mul_left (2 ^ k) b)) in
      let rest =
        (div-lt_iff_lt-mul (omega arith)).0 (digits_of-below small base k (n / base) b less) in
      rw (e, pow-succ') (omega (arith, rest))
]

digits_of-from :
    (small : Bool) (base k n m : ℕ)
    → 2 ≤ base
    → length (digits_of small base k n) ≡ suc m
    → base ^ m ≤ n
unfolding digits_of
digits_of-from small base zero n m b h = absurd (omega arith)
digits_of-from small base (suc k) n m b h = elim (Bool-cases (n == 0)) [
  | inl e ↦ absurd (no_digit (rw e at h))
  | inr e ↦ from m (λ j. digits_of-from small base k (n / base) j b) (rw e at h) e
]
  where
    no_digit : zero ≡ suc m → ⊥
    no_digit q = omega arith

    from :
        (m : ℕ)
        → ((j : ℕ) → length (digits_of small base k (n / base)) ≡ suc j → base ^ j ≤ n / base)
        → suc (length (digits_of small base k (n / base))) ≡ suc m
        → (n == 0) ≡ false
        → base ^ m ≤ n
    from zero more q e = rw (pow-zero base) (ground (arith, e))
    from (suc m) more q e =
        let rest = more m (omega (arith, q)) in
        let up = (le-div_iff_mul-le (omega arith)).0 rest in rw pow-succ' (omega (arith, up))

either :
    (c : Bool) (ds : List ℕ)
    → (c ≡ false → 1 ≤ length ds)
    → length ds ≤ 32
    → (1 ≤ length (if c then 48 ∷ [] else ds)) × (length (if c then 48 ∷ [] else ds) ≤ 32)
either true ds p q = (omega arith, omega arith)
either false ds p q = (p refl, q)

pub tmp_of-length :
    (num base : ℕ) (type : Flags)
    → num < 2 ^ 32
    → 2 ≤ base
    → (1 ≤ length (tmp_of num base type)) × (length (tmp_of num base type) ≤ 32)
unfolding tmp_of
tmp_of-length num base type h low =
    bound (if is_minus num type then sub32 0 num else num) (ground arith)
  where
    bound :
        (n : ℕ)
        → n < 2 ^ 32
        → let tmp = if n == 0 then 48 ∷ [] else digits_of type.small base 36 n in
          (1 ≤ length tmp) × (length tmp ≤ 32)
    bound n l =
        either (n == 0) (digits_of type.small base 36 n) (some_digit type.small base 35 n)
          (length-digits_of type.small base 36 32 n low l)

counted :
    (small : Bool) (base n : ℕ)
    → 2 ≤ base
    → n < 2 ^ 32
    → HasDigits base n (length (if n == 0 then 48 ∷ [] else digits_of small base 36 n))
counted small base n b l =
    one_of (n == 0) (digits_of small base 36 n) (λ e. rw (pow-succ', pow-zero base) (zero_below e))
      (some_digit small base 35 n) (digits_of-below small base 36 n b (omega arith))
      (λ m. digits_of-from small base 36 n m b)
  where
    zero_below : (n == 0) ≡ true → n < base * 1
    zero_below e = ground (arith, e, b)

    one_of :
        (c : Bool) (ds : List ℕ)
        → (c ≡ true → n < base ^ 1)
        → (c ≡ false → 1 ≤ length ds)
        → n < base ^ length ds
        → ((m : ℕ) → length ds ≡ suc m → base ^ m ≤ n)
        → HasDigits base n (length (if c then 48 ∷ [] else ds))
    one_of true ds p q r t = record { digits = 0; count = refl; below = p refl; from = inl refl }
    one_of false [] p q r t = absurd (omega (arith, q refl))
    one_of false (d ∷ ds) p q r t = record {
      digits = length ds;
      count = refl;
      below = r;
      from = inr (t (length ds) refl);
    }

tmp_of-HasDigits :
    (num base : ℕ) (type : Flags)
    → num < 2 ^ 32
    → 2 ≤ base
    → HasDigits base (magnitude num type) (length (tmp_of num base type))
unfolding tmp_of
tmp_of-HasDigits num base type h low =
    rw (same num type h) (counted type.small base (magnitude num type) low (bound num type h))
  where
    same :
        (num : ℕ) (type : Flags)
        → num < 2 ^ 32
        → (if is_minus num type then sub32 0 num else num) ≡ magnitude num type
    same num type h = ground arith

    bound : (num : ℕ) (type : Flags) → num < 2 ^ 32 → magnitude num type < 2 ^ 32
    bound num type h = ground arith

-- If the base is one of 2 to 36, and the width and the precision are below 2 ^ 30 or -1, then number
-- returns a string that is as long as the width, or, if that is more, as these together: the sign, which
-- is one character if the number is signed and negative or if a plus or a space is asked for; the prefix
-- of the special form, which is one character in base 8 and two in base 16; and the digits of the number
-- without its sign, or as many characters as the precision if it has fewer digits.
pub number-length :
    (num base size precision : ℕ) (type : Flags)
    → num < 2 ^ 32
    → 2 ≤ base
    → base ≤ 36
    → IsWidth size
    → IsWidth precision
    → (out : List ℕ) × (k : ℕ) × (number num base size precision type ≡ some out)
      × HasDigits base (magnitude num type) k
      × (length out
          ≡ larger
              (count size)
              ((sign_chars num type + prefix_chars base type) + larger (count precision) k))
unfolding number
number-length num base size precision type h low high is_size is_precision =
    let sign = sign_of num type in
    let prefix = prefix_of base type in
    let tmp = tmp_of num base type in
    let left = sub32 (sub32 size (length sign)) (length prefix) in
    let base_ok : (ltb base 2 || ltb 36 base) ≡ false = ground arith in
    let few = (tmp_of-length num base type h low).1 in
    let sign_size = sign_of-length num type h in
    let prefix_size = prefix_of-length base type in
    let small_sign = sign_chars-le num type in
    let small_prefix = prefix_chars-le base type in
    let laid =
      layout-length type left precision sign prefix tmp is_precision
        (left_ok is_size (omega (arith, sign_size, small_sign))
          (omega (arith, prefix_size, small_prefix)))
        few in
    (
      layout type left precision sign prefix tmp,
      length tmp,
      rw base_ok refl,
      tmp_of-HasDigits num base type h low,
      rw (← sign_size, ← prefix_size)
          (laid
            ∙ total (larger (count precision) (length tmp)) is_size
                (omega (arith, sign_size, small_sign)) (omega (arith, prefix_size, small_prefix))),
    )
  where
    left_ok :
        {a b : ℕ}
        → IsWidth size
        → a ≤ 1
        → b ≤ 2
        → (sub32 (sub32 size a) b < 2 ^ 30)
          ⊎ ((2 ^ 32 - 4 ≤ sub32 (sub32 size a) b) × (sub32 (sub32 size a) b < 2 ^ 32))
    left_ok w p q = ground arith

    total :
        {a b : ℕ} (m : ℕ)
        → IsWidth size
        → a ≤ 1
        → b ≤ 2
        → a + (b + larger (count (sub32 (sub32 size a) b)) m) ≡ larger (count size) ((a + b) + m)
    total m w p q = ground arith
