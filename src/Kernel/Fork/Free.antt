-- ===== src/Kernel/Fork/Free.antt =====
-- find_empty_process: its loop comes to an end, with a number that no task has.
use linux.Common.{
  ℕ, zero, suc, ◌+◌, ◌%◌, ◌^◌, ◌-◌, ◌≤◌, ◌<◌, ◌≡◌, refl, ◌≢◌, ◌⊎◌, inl, inr, true, false, none,
  some, ◌==◌, ==_iff, arith, Bool-cases, Option-cases, length, sym, ap, ◌∙◌,
}
use linux.Common.Errno.{Ret, ret, err, eagain}
use linux.Kernel.Task.{Task, Tasks, task_at, nr_tasks}
use linux.Kernel.Exit.{find_pid}
use linux.Kernel.Exit.Find.{find_pid-finds, find_pid-some}
use linux.Kernel.Fork.{next_pid, choose_pid, empty_slot, find_empty_process}
use linux.Kernel.Fork.Pigeons.{has, pids, pigeons, length-pids, has-pids}

-- The numbers that are tried, in order.
abbrev candidate : ℕ → ℕ → ℕ
candidate last_pid j = (last_pid + j) % (2 ^ 31 - 1) + 1

next_pid-candidate : (last_pid : ℕ) → last_pid < 2 ^ 31 → next_pid last_pid ≡ candidate last_pid 0
unfolding next_pid
next_pid-candidate last_pid h = ground arith

candidate-next :
    (last_pid j : ℕ)
    → last_pid < 2 ^ 31
    → candidate (next_pid last_pid) j ≡ candidate last_pid (suc j)
candidate-next last_pid j h = ap (λ n. candidate n j) (next_pid-candidate last_pid h) ∙ omega arith

candidate-apart : (last_pid i j : ℕ) → i < j → j < 65 → candidate last_pid i ≢ candidate last_pid j
candidate-apart last_pid i j h k = ground arith

-- The rounds end with a number that no task has, or each number tried is that of a task.
choose_pid-lem :
    (rounds last_pid : ℕ) (tasks : Tasks)
    → last_pid < 2 ^ 31
    → ((pid : ℕ) × (choose_pid rounds last_pid tasks ≡ some pid)
        × (find_pid pid nr_tasks 0 tasks ≡ none)
        × (1 ≤ pid)
        × (pid < 2 ^ 31))
      ⊎ ((j : ℕ) → j < rounds → has (candidate last_pid j) (pids tasks) ≡ true)
unfolding choose_pid
choose_pid-lem zero last_pid tasks h = inr (λ j k. absurd (omega arith))
choose_pid-lem (suc rounds) last_pid tasks h =
    let p = next_pid last_pid in
    let e = next_pid-candidate last_pid h in
    elim (Option-cases (find_pid p nr_tasks 0 tasks)) [
      | inl free ↦ inl (p, rw (choose_pid, free) refl, free, omega (arith, e), omega (arith, e))
      | inr (i, taken) ↦ elim (choose_pid-lem rounds p tasks (omega (arith, e))) [
        | inl (pid, run, fresh, low, high) ↦ inl (pid, rw (choose_pid, taken) run, fresh, low, high)
        | inr used ↦
            let (q, there, same) = find_pid-some p nr_tasks 0 tasks i taken in
            inr (both i q there same used)
      ]
    ]
  where
    both :
        (i : ℕ) (q : Task)
        → task_at tasks i ≡ some q
        → q.pid ≡ next_pid last_pid
        → ((j : ℕ) → j < rounds → has (candidate (next_pid last_pid) j) (pids tasks) ≡ true)
        → (j : ℕ) → j < suc rounds
        → has (candidate last_pid j) (pids tasks) ≡ true
    both i q there same used zero k =
        ap (λ n. has n (pids tasks)) (sym (same ∙ next_pid-candidate last_pid h))
        ∙ has-pids tasks i q there
    both i q there same used (suc j) k =
        ap (λ n. has n (pids tasks)) (sym (candidate-next last_pid j h)) ∙ used j (omega arith)

empty_slot-lem :
    (k i : ℕ) (tasks : Tasks)
    → ((m : ℕ) × (empty_slot k i tasks ≡ ret m) × (i ≤ m) × (m < i + k) × (task_at tasks m ≡ none))
      ⊎ ((empty_slot k i tasks ≡ err eagain)
          × ((m : ℕ) → i ≤ m → m < i + k → task_at tasks m ≢ none))
unfolding empty_slot
empty_slot-lem zero i tasks = inr (refl, λ m l h. absurd (omega arith))
empty_slot-lem (suc k) i tasks = elim (Option-cases (task_at tasks i)) [
  | inl free ↦ inl (i, rw (empty_slot, free) refl, omega arith, omega arith, free)
  | inr (p, taken) ↦ elim (empty_slot-lem k (i + 1) tasks) [
    | inl (m, run, low, high, free) ↦
        inl (m, rw (empty_slot, taken) run, omega (arith, low), omega (arith, high), free)
    | inr (run, full) ↦
        inr (rw (empty_slot, taken) run, λ m l h. at p taken full m l h (Bool-cases (i == m)))
  ]
]
  where
    at :
        (p : Task)
        → task_at tasks i ≡ some p
        → ((m : ℕ) → i + 1 ≤ m → m < i + 1 + k → task_at tasks m ≢ none)
        → (m : ℕ) → i ≤ m
        → m < i + suc k
        → ((i == m) ≡ true) ⊎ ((i == m) ≡ false)
        → task_at tasks m ≢ none
    at p taken full m l h (inl here) =
        λ e. no (sym taken ∙ ap (task_at tasks) ((==_iff i m).0 here) ∙ e)
      where
        no : some p ≡ none → ⊥
        no q = cc
    at p taken full m l h (inr apart) = full m (ground arith) (omega arith)

-- If the table has its 64 slots and the last process number is not negative, find_empty_process comes to
-- an end: the new number is positive and that of no task, and the call returns a slot other than 0 that
-- is empty, or -EAGAIN if there is none.
pub find_empty_process_lem :
    (last_pid : ℕ) (tasks : Tasks)
    → length tasks ≡ nr_tasks
    → last_pid < 2 ^ 31
    → (pid : ℕ) × (r : Ret) × (find_empty_process last_pid tasks ≡ some (pid, r))
      × (1 ≤ pid)
      × (pid < 2 ^ 31)
      × ((i : ℕ) (q : Task) → i < nr_tasks → task_at tasks i ≡ some q → q.pid ≢ pid)
      × (((i : ℕ) × (r ≡ ret i) × (1 ≤ i) × (i < nr_tasks) × (task_at tasks i ≡ none))
          ⊎ ((r ≡ err eagain) × ((i : ℕ) → 1 ≤ i → i < nr_tasks → task_at tasks i ≢ none)))
unfolding find_empty_process
find_empty_process_lem last_pid tasks size h = elim (choose_pid-lem 65 last_pid tasks h) [
  | inr used ↦
      absurd (crowd (pigeons (candidate last_pid) 65 (pids tasks) (candidate-apart last_pid) used))
  | inl (pid, run, fresh, low, high) ↦ (
    pid,
    empty_slot 63 1 tasks,
    rw (find_empty_process, run) refl,
    low,
    high,
    unused pid fresh,
    empty_slot-lem 63 1 tasks,
  )
]
  where
    crowd : 65 ≤ length (pids tasks) → ⊥
    crowd l = omega (arith, l, length-pids tasks, size)

    unused :
        (pid : ℕ)
        → find_pid pid nr_tasks 0 tasks ≡ none
        → (i : ℕ) (q : Task) → i < nr_tasks
        → task_at tasks i ≡ some q
        → q.pid ≢ pid
    unused pid fresh i q k there same =
        let (m, p, found, _, _, _) =
          find_pid-finds pid nr_tasks 0 tasks i q (omega arith) k there same in
        no m (sym found ∙ fresh)
      where
        no : (m : ℕ) → some m ≡ none → ⊥
        no m q = cc
