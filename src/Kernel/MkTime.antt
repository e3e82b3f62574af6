-- ===== src/Kernel/MkTime.antt =====
-- kernel/mktime.c: the start-up time in seconds since 1970, from broken-down time.
mod Calendar
mod Tests
use linux.Common.{
  ℕ, ◌+◌, ◌-◌, ◌*◌, ◌%◌, ◌^◌, ◌≡◌, Bool, Option, none, some, List, [], ◌∷◌, not, ◌&&◌, ◌==◌,
  if◌then◌else◌, get_elem?,
}
use linux.Common.Word.{is_neg, add32, sub32, mul32, slt, sdiv, smod}

-- The fields of `struct tm` that the code reads, each an `int`.
pub record Tm : Type 0 where
  pub tm_sec : ℕ
  pub tm_min : ℕ
  pub tm_hour : ℕ
  pub tm_mday : ℕ
  pub tm_mon : ℕ
  pub tm_year : ℕ

abbrev pub minute : ℕ
minute = 60

abbrev pub hour : ℕ
hour = 60 * minute

abbrev pub day : ℕ
day = 24 * hour

abbrev pub year_secs : ℕ
year_secs = 365 * day

-- `month[12]`: the seconds of a leap year before each month.
abbrev pub month : List ℕ
month =
    0
    ∷ day * 31
    ∷ day * (31 + 29)
    ∷ day * (31 + 29 + 31)
    ∷ day * (31 + 29 + 31 + 30)
    ∷ day * (31 + 29 + 31 + 30 + 31)
    ∷ day * (31 + 29 + 31 + 30 + 31 + 30)
    ∷ day * (31 + 29 + 31 + 30 + 31 + 30 + 31)
    ∷ day * (31 + 29 + 31 + 30 + 31 + 30 + 31 + 31)
    ∷ day * (31 + 29 + 31 + 30 + 31 + 30 + 31 + 31 + 30)
    ∷ day * (31 + 29 + 31 + 30 + 31 + 30 + 31 + 31 + 30 + 31)
    ∷ day * (31 + 29 + 31 + 30 + 31 + 30 + 31 + 31 + 30 + 31 + 30)
    ∷ []

-- The `long` that a word stands for.
pub data Long : Type 0 where
  nonneg : ℕ → Long
  negative : ℕ → Long

abbrev pub to_long : ℕ → Long
to_long w = if is_neg w then negative (2 ^ 32 - w) else nonneg w

-- The sum as a word; `none` is a read of `month` out of its bounds.
pub mktime_word : Tm → Option ℕ
mktime_word tm =
    let year = sub32 tm.tm_year 70 in
    let res₁ = add32 (mul32 year_secs year) (mul32 day (sdiv (add32 year 1) 4)) in
    elim (get_elem? month tm.tm_mon) [
      | none ↦ none
      | some m ↦
          let res₂ = add32 res₁ m in
          let late = slt 1 tm.tm_mon && not (smod (add32 year 2) 4 == 0) in
          let res₃ = if late then sub32 res₂ day else res₂ in
          let res₄ = add32 res₃ (mul32 day (sub32 tm.tm_mday 1)) in
          let res₅ = add32 res₄ (mul32 hour tm.tm_hour) in
          let res₆ = add32 res₅ (mul32 minute tm.tm_min) in some (add32 res₆ tm.tm_sec)
    ]

pub kernel_mktime : Tm → Option Long
unfolding mktime_word
kernel_mktime tm = elim (mktime_word tm) [ none ↦ none | some w ↦ some (to_long w) ]
