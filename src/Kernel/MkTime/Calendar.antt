-- ===== src/Kernel/MkTime/Calendar.antt =====
-- kernel_mktime against the Gregorian calendar, counted day by day.
use linux.Common.{
  ℕ, zero, suc, ◌+◌, ◌-◌, ◌*◌, ◌/◌, ◌%◌, ◌^◌, ◌≤◌, ◌<◌, ◌≡◌, refl, ap, Bool, true, false, some,
  List, [], ◌∷◌, not, ◌&&◌, ◌||◌, inl, inr, arith, ltb, ◌==◌, if◌then◌else◌, Bool-cases, get_elem?,
  take,
}
use linux.Common.Word.{is_neg, add32, sub32, slt, sdiv, smod}
use linux.Kernel.MkTime.{Tm, nonneg, negative, to_long, mktime_word, kernel_mktime, month}

-- The calendar's rule for leap years.
abbrev pub is_leap : ℕ → Bool
is_leap y = (y % 4 == 0 && not (y % 100 == 0)) || (y % 400 == 0)

-- The days of the `n` years from 1970 on.
pub days_of_years : ℕ → ℕ
days_of_years zero = 0
days_of_years (suc n) = days_of_years n + (if is_leap (1970 + n) then 366 else 365)

-- The lengths of the months.
abbrev pub month_days : Bool → List ℕ
month_days leap =
    31 ∷ (if leap then 29 else 28) ∷ 31 ∷ 30 ∷ 31 ∷ 30 ∷ 31 ∷ 31 ∷ 30 ∷ 31 ∷ 30 ∷ 31 ∷ []

abbrev pub sum : List ℕ → ℕ
sum [] = 0
sum (x ∷ xs) = x + sum xs

-- The days of the year before a month.
pub days_before_month : Bool → ℕ → ℕ
days_before_month leap m = sum (take m (month_days leap))

-- A date from 1970 to 2099 with the month counted from 0; the time of day is not split.
pub record IsDate (tm : Tm) : Type 0 where
  pub since_1970 : 70 ≤ tm.tm_year
  pub before_2100 : tm.tm_year < 200
  pub mon : tm.tm_mon < 12
  pub mday_pos : 1 ≤ tm.tm_mday
  pub mday : tm.tm_mday ≤ 31
  pub hours : tm.tm_hour < 24
  pub mins : tm.tm_min < 60
  pub secs : tm.tm_sec < 62

pub seconds : Tm → ℕ
seconds tm =
    86400
      * (days_of_years (tm.tm_year - 70)
          + days_before_month (is_leap (1900 + tm.tm_year)) tm.tm_mon
          + (tm.tm_mday - 1))
    + 3600 * tm.tm_hour
    + 60 * tm.tm_min
    + tm.tm_sec

leap_rule : (n : ℕ) → n < 130 → is_leap (1970 + n) ≡ ((n + 2) % 4 == 0)
leap_rule n h = ground arith

days_closed : (n : ℕ) → n ≤ 130 → days_of_years n ≡ 365 * n + (n + 1) / 4
unfolding days_of_years
days_closed zero h = refl
days_closed (suc n) h = ground (arith, days_closed n, leap_rule n)

-- The table and the lengths of the months agree; a leap day counts from March on.
record MonthFacts (m : ℕ) : Type 0 where
  entry : get_elem? month m ≡ some (86400 * days_before_month true m)
  common : days_before_month false m + (if ltb 1 m then 1 else 0) ≡ days_before_month true m
  small : days_before_month true m ≤ 335

month_facts : (m : ℕ) → m < 12 → MonthFacts m
unfolding days_before_month
month_facts zero h = record { entry = refl; common = refl; small = omega arith }
month_facts (suc zero) h = record { entry = refl; common = refl; small = omega arith }
month_facts (suc (suc zero)) h = record { entry = refl; common = refl; small = omega arith }
month_facts (suc (suc (suc zero))) h = record { entry = refl; common = refl; small = omega arith }
month_facts (suc (suc (suc (suc zero)))) h = record {
  entry = refl;
  common = refl;
  small = omega arith;
}
month_facts (suc (suc (suc (suc (suc zero))))) h = record {
  entry = refl;
  common = refl;
  small = omega arith;
}
month_facts (suc (suc (suc (suc (suc (suc zero)))))) h = record {
  entry = refl;
  common = refl;
  small = omega arith;
}
month_facts (suc (suc (suc (suc (suc (suc (suc zero))))))) h = record {
  entry = refl;
  common = refl;
  small = omega arith;
}
month_facts (suc (suc (suc (suc (suc (suc (suc (suc zero)))))))) h = record {
  entry = refl;
  common = refl;
  small = omega arith;
}
month_facts (suc (suc (suc (suc (suc (suc (suc (suc (suc zero))))))))) h = record {
  entry = refl;
  common = refl;
  small = omega arith;
}
month_facts (suc (suc (suc (suc (suc (suc (suc (suc (suc (suc zero)))))))))) h = record {
  entry = refl;
  common = refl;
  small = omega arith;
}
month_facts (suc (suc (suc (suc (suc (suc (suc (suc (suc (suc (suc zero))))))))))) h = record {
  entry = refl;
  common = refl;
  small = omega arith;
}
month_facts (suc (suc (suc (suc (suc (suc (suc (suc (suc (suc (suc (suc m)))))))))))) h =
    absurd (omega arith)

-- The word arithmetic on the year does not wrap.
record YearFacts (y m : ℕ) : Type 0 where
  offset : sub32 y 70 ≡ y - 70
  quarter : sdiv (add32 (y - 70) 1) 4 ≡ (y - 70 + 1) / 4
  rest : (smod (add32 (y - 70) 2) 4 == 0) ≡ is_leap (1900 + y)
  late : slt 1 m ≡ ltb 1 m
  days : days_of_years (y - 70) ≡ 365 * (y - 70) + (y - 70 + 1) / 4

year_facts : (y m : ℕ) → 70 ≤ y → y < 200 → m < 12 → YearFacts y m
year_facts y m h k l = record {
  offset = ground arith;
  quarter = ground arith;
  rest = ground arith;
  late = ground arith;
  days = days_closed (y - 70) (omega arith);
}

mktime_word_lem : (tm : Tm) → IsDate tm → mktime_word tm ≡ some (seconds tm)
unfolding mktime_word seconds
mktime_word_lem tm d =
    let facts = month_facts tm.tm_mon d.mon in
    let years = year_facts tm.tm_year tm.tm_mon d.since_1970 d.before_2100 d.mon in
    let before = facts.common in
    rw (facts.entry, years.offset, years.quarter, years.rest, years.late, years.days)
      (elim (Bool-cases (is_leap (1900 + tm.tm_year))) [
        | inl leap ↦ rw leap (ground arith)
        | inr common ↦ rw common (ground arith)
      ])

-- For every date from 1970 to 2099, let `s` be the seconds since 1970 of the Gregorian calendar. The result
-- is `s` if that is below 2 ^ 31, as it is until 19 January 2038, and the negative number s - 2 ^ 32 from
-- then on.
pub kernel_mktime_lem :
    (tm : Tm)
    → IsDate tm
    → kernel_mktime tm
      ≡ some (
          if ltb (seconds tm) (2 ^ 31) then nonneg (seconds tm) else negative (2 ^ 32 - seconds tm))
unfolding kernel_mktime
kernel_mktime_lem tm d = rw (mktime_word_lem tm d) (ap some (signed (seconds tm)))
  where
    signed : (w : ℕ) → to_long w ≡ (if ltb w (2 ^ 31) then nonneg w else negative (2 ^ 32 - w))
    signed w = elim (Bool-cases (ltb w (2 ^ 31))) [
      | inl early ↦ let sign : is_neg w ≡ false = ground (arith, early) in rw (early, sign) refl
      | inr late ↦ let sign : is_neg w ≡ true = ground (arith, late) in rw (late, sign) refl
    ]
