-- ===== src/Kernel/Sched/Choice.antt =====
-- The scheduler proper: it ends, and switches to a running task with the most time left.
use linux.Common.{
  ℕ, zero, suc, ◌+◌, ◌-◌, ◌/◌, ◌<◌, ◌≡◌, refl, ◌≢◌, ◌⊎◌, inl, inr, false, Option, none, some, [],
  ◌∷◌, arith, ◌==◌, Option-cases, map, ◌∙◌,
}
use linux.Kernel.Task.{Task, Tasks, nr_tasks, task_at}
use linux.Kernel.Sched.{
  choose, recharge, each_task, schedule_loop, check_signals, schedule, check_alarm, wake_signalled,
}
use linux.Kernel.Sched.Best.{RunsWith, Best, choose-Best, no_task_above, zero_cases}

loop_done :
    (rounds : ℕ) (tasks : Tasks)
    → (choose tasks (nr_tasks - 1) none 0).0 ≢ some 0
    → schedule_loop (suc rounds) tasks ≡ some (tasks, (choose tasks (nr_tasks - 1) none 0).1)
unfolding schedule_loop
loop_done rounds tasks h = elim (Option-cases (choose tasks (nr_tasks - 1) none 0).0) [
  | inl idle ↦ rw (schedule_loop, idle)
  | inr (k, e) ↦ let left : (k == 0) ≡ false = ground (arith, h, e) in rw (schedule_loop, e, left)
]

loop_again :
    (rounds : ℕ) (tasks : Tasks)
    → (choose tasks (nr_tasks - 1) none 0).0 ≡ some 0
    → schedule_loop (suc rounds) tasks ≡ schedule_loop rounds (each_task recharge tasks)
unfolding schedule_loop
loop_again rounds tasks e = rw (schedule_loop, e)

-- Every task has a positive priority.
abbrev pub HasPriorities : Tasks → Type 0
HasPriorities tasks = (j : ℕ) (p : Task) → 0 < j → task_at tasks j ≡ some p → 0 < p.priority

-- What the scheduler switches to: task 0 if no other task is running, else a running task with time
-- left, no running task having more.
abbrev pub Chosen : Tasks → ℕ → Type 0
Chosen tasks next = (c : Option ℕ) × (c ≢ some 0) × Best tasks 0 c next

task_at-map :
    (f : Task → Task) (tasks : Tasks) (j : ℕ)
    → task_at (map (λ t. elim t [ none ↦ none | some p ↦ some (f p) ]) tasks) j
      ≡ elim (task_at tasks j) [ none ↦ none | some p ↦ some (f p) ]
task_at-map f [] j = refl
task_at-map f (t ∷ tasks) zero = refl
task_at-map f (t ∷ tasks) (suc j) = task_at-map f tasks j

task_at-each_task :
    (f : Task → Task) (tasks : Tasks) (j : ℕ)
    → 0 < j
    → task_at (each_task f tasks) j ≡ elim (task_at tasks j) [ none ↦ none | some p ↦ some (f p) ]
task_at-each_task f tasks zero h = absurd (omega arith)
task_at-each_task f [] (suc j) h = refl
task_at-each_task f (t ∷ tasks) (suc j) h = task_at-map f tasks j

module _ (tasks : Tasks) (pos : HasPriorities tasks) where
  -- A task with no time left has some after the recharge.
  RunsWith-recharge :
      (j : ℕ)
      → 0 < j
      → RunsWith tasks j 0
      → (k : ℕ) × (0 < k) × RunsWith (each_task recharge tasks) j k
  unfolding recharge
  RunsWith-recharge j h r =
      let p = r.task in
      (
        p.counter / 2 + p.priority,
        omega (arith, pos j p h r.there),
        record {
          task = recharge p;
          there = task_at-each_task recharge tasks j h ∙ rw r.there;
          running = r.running;
          counter = refl;
        },
      )

  Chosen-again :
      (next : ℕ)
      → Best tasks 0 (some 0) next
      → let (c', next') = choose (each_task recharge tasks) (nr_tasks - 1) none 0 in
        (c' ≢ some 0) × Best (each_task recharge tasks) 0 c' next'
  Chosen-again next (low, high, r, most) =
      let tasks' = each_task recharge tasks in
      let (k, h, r') = RunsWith-recharge next low r in
      let start : Best tasks' (nr_tasks - 1) none 0 = (refl, λ j k p q r. absurd (omega arith)) in
      let b = choose-Best tasks' (nr_tasks - 1) none 0 (omega arith) start in
      (positive (choose tasks' (nr_tasks - 1) none 0).0 _ k h low high r' b, b)
    where
      positive :
          {tasks' : Tasks} (c : Option ℕ) (next' k : ℕ)
          → 0 < k
          → 0 < next
          → next < nr_tasks
          → RunsWith tasks' next k
          → Best tasks' 0 c next'
          → c ≢ some 0
      positive none next' k h low high r b e = cc
      positive (some c) next' k h low high r (low', high', r', most) e =
          let bound = most next k low high r in ground (arith, bound.0)

  schedule_loop-Chosen :
      (tasks' : Tasks) × (next : ℕ) × (schedule_loop 2 tasks ≡ some (tasks', next))
      × Chosen tasks' next
      × ((tasks' ≡ tasks)
          ⊎ ((tasks' ≡ each_task recharge tasks)
              × ((j k : ℕ) → 0 < j → j < nr_tasks → RunsWith tasks j k → k ≡ 0)))
  schedule_loop-Chosen =
      let first = choose-Best tasks (nr_tasks - 1) none 0 (omega arith) (no_task_above tasks) in
      elim (zero_cases (choose tasks (nr_tasks - 1) none 0).0) [
        | inr done ↦ (
          tasks,
          _,
          loop_done 1 tasks done,
          ((choose tasks (nr_tasks - 1) none 0).0, done, first),
          inl refl,
        )
        | inl spent ↦
            let b = rw spent at first in
            let (positive, best) = Chosen-again (choose tasks (nr_tasks - 1) none 0).1 b in
            (
              each_task recharge tasks,
              _,
              loop_again 1 tasks spent ∙ loop_done 0 (each_task recharge tasks) positive,
              (_, positive, best),
              inr (refl, λ j k p q r. omega (arith, (b.3 j k p q r).0)),
            )
      ]

check_signals-HasPriorities :
    (jiffies : ℕ) (tasks : Tasks)
    → HasPriorities tasks
    → HasPriorities (check_signals jiffies tasks)
unfolding check_signals
check_signals-HasPriorities jiffies tasks pos j p h e =
    kept (task_at tasks j) refl
      (rw (task_at-each_task (λ p. wake_signalled (check_alarm jiffies p)) tasks j h) at e)
  where
    kept :
        (t : Option Task)
        → task_at tasks j ≡ t
        → elim t [ none ↦ none | some q ↦ some (wake_signalled (check_alarm jiffies q)) ] ≡ some p
        → 0 < p.priority
    kept none there e = cc
    kept (some q) there e = ground (arith, pos j q h there, e)

-- If every task has a positive priority, schedule ends after at most one recharge of the counters. It
-- switches to a running task with time left, no running task having more and none of a higher index as
-- much, or to task 0 if no other task is running; and it recharges only if every running task has used
-- up its time.
pub schedule_lem :
    (jiffies : ℕ) (tasks : Tasks)
    → HasPriorities tasks
    → (tasks' : Tasks) × (next : ℕ) × (schedule jiffies tasks ≡ some (tasks', next))
      × Chosen tasks' next
      × ((tasks' ≡ check_signals jiffies tasks)
          ⊎ ((tasks' ≡ each_task recharge (check_signals jiffies tasks))
              × ((j k : ℕ)
                  → 0 < j
                  → j < nr_tasks
                  → RunsWith (check_signals jiffies tasks) j k
                  → k ≡ 0)))
unfolding schedule
schedule_lem jiffies tasks pos =
    schedule_loop-Chosen (check_signals jiffies tasks)
      (check_signals-HasPriorities jiffies tasks pos)
