-- ===== src/Kernel/Fork.antt =====
-- find_empty_process of kernel/fork.c. The loop that looks for a task with the process number is that
-- of tell_father.
pub mod Pigeons
pub mod Free
mod Tests
use linux.Common.{ℕ, zero, suc, ◌+◌, ◌-◌, ◌==◌, Option, none, some, if◌then◌else◌}
use linux.Common.Word.{add32, is_neg}
use linux.Common.Errno.{Ret, ret, err, eagain}
use linux.Kernel.Task.{Task, Tasks, task_at, nr_tasks}
use linux.Kernel.Exit.{find_pid}

-- `if ((++last_pid)<0) last_pid=1;`
pub next_pid : ℕ → ℕ
next_pid last_pid = let p = add32 last_pid 1 in if is_neg p then 1 else p

-- The new `last_pid`; `none` if the rounds run out.
pub choose_pid : ℕ → ℕ → Tasks → Option ℕ
unfolding next_pid
choose_pid zero last_pid tasks = none
choose_pid (suc rounds) last_pid tasks = elim (find_pid (next_pid last_pid) nr_tasks 0 tasks) [
  | none ↦ some (next_pid last_pid)
  | some i ↦ choose_pid rounds (next_pid last_pid) tasks
]

-- The first empty slot from `i` on, `k` being left.
pub empty_slot : ℕ → ℕ → Tasks → Ret
empty_slot zero i tasks = err eagain
empty_slot (suc k) i tasks = elim (task_at tasks i) [
  | none ↦ ret i
  | some p ↦ empty_slot k (i + 1) tasks
]

-- The new `last_pid` and the return value.
pub find_empty_process : ℕ → Tasks → Option (ℕ × Ret)
unfolding choose_pid empty_slot
find_empty_process last_pid tasks = elim (choose_pid (nr_tasks + 1) last_pid tasks) [
  | none ↦ none
  | some pid ↦ some (pid, empty_slot (nr_tasks - 1) 1 tasks)
]
