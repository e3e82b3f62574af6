-- ===== src/Kernel/Sleep.antt =====
-- The waking of a task that sleeps: wake_up of kernel/sched.c.
use linux.Common.{ℕ, Option, none, some, set}
use linux.Kernel.Task.{running, Tasks, task_at}

-- `wake_up(&queue)` for a queue that names the task `sleeper`, or none.
pub wake_up : Option ℕ → Tasks → Tasks
wake_up none tasks = tasks
wake_up (some i) tasks = elim (task_at tasks i) [
  | none ↦ tasks
  | some p ↦ set tasks i (some (record p { state = running }))
]
