-- ===== src/Kernel/MkTime/Tests.antt =====
-- A test of kernel_mktime.
use linux.Common.{◌≡◌, refl, some, arith, ◌-◌, ◌^◌, ltb, if◌then◌else◌}
use linux.Kernel.MkTime.{Tm, nonneg, negative, kernel_mktime}
use linux.Kernel.MkTime.Calendar.{IsDate, seconds, kernel_mktime_lem}

abbrev tm : Tm
tm = record { tm_sec = 5; tm_min = 4; tm_hour = 3; tm_mday = 1; tm_mon = 2; tm_year = 91 }

run : kernel_mktime tm ≡ some (nonneg 667796645)
unfolding kernel_mktime
run = refl

tm-IsDate : IsDate tm
tm-IsDate = record {
  since_1970 = omega arith;
  before_2100 = omega arith;
  mon = omega arith;
  mday_pos = omega arith;
  mday = omega arith;
  hours = omega arith;
  mins = omega arith;
  secs = omega arith;
}

kernel_mktime_lem_example :
    kernel_mktime tm
    ≡ some
        (if ltb (seconds tm) (2 ^ 31) then nonneg (seconds tm) else negative (2 ^ 32 - seconds tm))
kernel_mktime_lem_example = kernel_mktime_lem tm tm-IsDate
