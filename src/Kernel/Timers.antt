-- ===== src/Kernel/Timers.antt =====
-- The timer list of kernel/sched.c: add_timer, and the part of do_timer that runs the timers whose time
-- has come. A timer's function is named by a number. The functions that are run are listed in order;
-- that such a function may itself add a timer is left out.
pub mod Due
mod Tests
use linux.Common.{
  ℕ, zero, suc, ◌+◌, ◌-◌, Bool, Option, none, some, List, [], ◌∷◌, not, ◌||◌, ltb, leb, ◌==◌,
  if◌then◌else◌, length,
}
use linux.Common.Word.{is_neg}

-- `struct timer_list`: `jiffies` counts from the timer before. On the list it is positive.
pub record Timer : Type 0 where
  pub jiffies : ℕ
  pub fn : ℕ

abbrev pub time_requests : ℕ
time_requests = 64

-- The `while` loop of add_timer: the new timer changes places with each one that is due before it.
pub insert_timer : Timer → List Timer → List Timer
insert_timer p [] = p ∷ []
insert_timer p (next ∷ rest) =
    let later = insert_timer (record p { jiffies = p.jiffies - next.jiffies }) rest in
    if ltb next.jiffies p.jiffies then next ∷ later else p ∷ next ∷ rest

pub data Added : Type 0 where
  -- the list, and the function that is run at once
  added : List Timer → Option ℕ → Added
  panic : Added

-- `jiffies` is a 32-bit word; the entries of `timer_list` with a function are those of the list.
pub add_timer : ℕ → Option ℕ → List Timer → Added
unfolding insert_timer
add_timer jiffies none timers = added timers none
add_timer jiffies (some fn) timers =
    if jiffies == 0 || is_neg jiffies
    then added timers (some fn)
    else if leb time_requests (length timers)
    then panic
    else added (insert_timer (record { jiffies = jiffies; fn = fn }) timers) none

-- `while (next_timer && next_timer->jiffies <= 0)`
pub expire : List Timer → List ℕ × List Timer
expire [] = ([], [])
expire (t ∷ rest) =
    let (fired, left) = expire rest in
    if t.jiffies == 0 then (t.fn ∷ fired, left) else ([], t ∷ rest)

pub run_timers : List Timer → List ℕ × List Timer
unfolding expire
run_timers [] = ([], [])
run_timers (t ∷ rest) = expire (record t { jiffies = t.jiffies - 1 } ∷ rest)
