-- ===== src/Kernel/Sched/Tests.antt =====
-- Tests of schedule: a task that has used up its time, one that has not, and a sleeper.
use linux.Common.{ℕ, zero, suc, ◌<◌, ◌≡◌, refl, ◌⊎◌, false, some, none, [], ◌∷◌, arith}
use linux.Common.Bits.{shl1}
use linux.Kernel.Task.{Task, Tasks, running, interruptible, nr_tasks}
use linux.Kernel.Sched.{schedule, check_signals, wake_signalled, each_task, recharge, has_signal}
use linux.Kernel.Sched.Choice.{HasPriorities, Chosen, schedule_lem}
use linux.Kernel.Sched.Best.{RunsWith}

abbrev tired : Task
tired = record {
  state = running;
  counter = 0;
  priority = 15;
  signal = 0;
  blocked = 0;
  pid = 1;
  pgrp = 1;
  session = 1;
  leader = false;
  uid = 0;
  euid = 0;
  gid = 0;
  egid = 0;
  sgid = 0;
  alarm = 0;
  tty = none;
  umask = 0;
  father = 0;
  exit_code = 0;
  utime = 0;
  stime = 0;
  cutime = 0;
  cstime = 0;
}

abbrev ready : Task
ready = record tired { counter = 3; pid = 2 }

-- It is to be killed and blocks every signal.
abbrev sleeper : Task
sleeper = record tired { state = interruptible; signal = shl1 8; blocked = 0xffffffff; pid = 3 }

abbrev tasks : Tasks
tasks = some tired ∷ some tired ∷ some ready ∷ []

same_priority : (t p : Task) → some t ≡ some p → t.priority ≡ p.priority
same_priority t p e = cc

tasks-HasPriorities : HasPriorities tasks
tasks-HasPriorities zero p h e = absurd (omega arith)
tasks-HasPriorities (suc zero) p h e = omega (arith, same_priority tired p e)
tasks-HasPriorities (suc (suc zero)) p h e = omega (arith, same_priority ready p e)
tasks-HasPriorities (suc (suc (suc j))) p h e = absurd (empty e)
  where
    empty : none ≡ some p → ⊥
    empty e' = cc

schedule_lem_example :
    (tasks' : Tasks) × (next : ℕ) × (schedule 100 tasks ≡ some (tasks', next))
    × Chosen tasks' next
    × ((tasks' ≡ check_signals 100 tasks)
        ⊎ ((tasks' ≡ each_task recharge (check_signals 100 tasks))
            × ((j k : ℕ) → 0 < j → j < nr_tasks → RunsWith (check_signals 100 tasks) j k → k ≡ 0)))
schedule_lem_example = schedule_lem 100 tasks tasks-HasPriorities

killed : wake_signalled sleeper ≡ record sleeper { state = running }
unfolding wake_signalled has_signal
killed = refl
