-- ===== src/Kernel/Timers/Tests.antt =====
-- Tests of the timer list.
use linux.Common.{◌≡◌, refl, some, none, List, [], ◌∷◌, ◌++◌, arith, map}
use linux.Kernel.Timers.{Timer, added, add_timer, run_timers}
use linux.Kernel.Timers.Due.{dues, AllPositive, Inserted, add_timer-Inserted, run_timers-dues}

-- Functions 7 and 8, due in 3 and in 8 ticks.
abbrev timers : List Timer
timers = record { jiffies = 3; fn = 7 } ∷ record { jiffies = 5; fn = 8 } ∷ []

timers-AllPositive : AllPositive timers
timers-AllPositive = (omega arith, (omega arith, tt))

add_timer-Inserted_example :
    (timers' : List Timer) × (add_timer 4 (some 9) timers ≡ added timers' none)
    × Inserted 4 9 timers timers'
    × AllPositive timers'
add_timer-Inserted_example =
    add_timer-Inserted 4 9 timers (omega arith) (omega arith) (omega arith) timers-AllPositive

run_timers-dues_example :
    let (fired, left) = run_timers timers in
    (dues 0 timers ≡ map (λ fn. (1, fn)) fired ++ dues 1 left) × AllPositive left
run_timers-dues_example = run_timers-dues timers timers-AllPositive

-- Function 8, which was due in 8 ticks, is put off to 9 by a timer that is due in 4.
put_off :
    add_timer 4 (some 9) timers
    ≡ added
        (record { jiffies = 3; fn = 7 }
          ∷ record { jiffies = 1; fn = 9 }
          ∷ record { jiffies = 5; fn = 8 }
          ∷ [])
        none
unfolding add_timer
put_off = refl
