-- ===== src/Kernel/Fork/Tests.antt =====
-- Tests of find_empty_process: a table with one task.
use linux.Common.{ℕ, ◌≤◌, ◌<◌, ◌^◌, ◌≡◌, refl, ◌≢◌, ◌⊎◌, none, some, ◌∷◌, arith, replicate}
use linux.Common.Errno.{Ret, ret, err, eagain}
use linux.Kernel.Task.{Task, Tasks, task_at, nr_tasks}
use linux.Kernel.Exit.{find_pid}
use linux.Kernel.Exit.Tests.{init}
use linux.Kernel.Fork.{find_empty_process}
use linux.Kernel.Fork.Free.{find_empty_process_lem}

abbrev tasks : Tasks
tasks = none ∷ some init ∷ replicate 62 none

-- The number 1 is that of a task, and after the largest number comes 1 again.
wraps : find_empty_process 0x7fffffff tasks ≡ some (2, ret 2)
unfolding find_empty_process find_pid
wraps = refl

find_empty_process_lem_example :
    (pid : ℕ) × (r : Ret) × (find_empty_process 0x7fffffff tasks ≡ some (pid, r))
    × (1 ≤ pid)
    × (pid < 2 ^ 31)
    × ((i : ℕ) (q : Task) → i < nr_tasks → task_at tasks i ≡ some q → q.pid ≢ pid)
    × (((i : ℕ) × (r ≡ ret i) × (1 ≤ i) × (i < nr_tasks) × (task_at tasks i ≡ none))
        ⊎ ((r ≡ err eagain) × ((i : ℕ) → 1 ≤ i → i < nr_tasks → task_at tasks i ≢ none)))
find_empty_process_lem_example = find_empty_process_lem 0x7fffffff tasks refl (omega arith)
