-- ===== src/Kernel/Exit/Find.antt =====
-- The search of tell_father for a task.
use linux.Common.{
  ℕ, zero, suc, ◌+◌, ◌≤◌, ◌<◌, ◌≡◌, refl, ◌⊎◌, inl, inr, true, false, Option, none, some, arith,
  ◌==◌, ==_iff, Bool-cases, Option-cases, sym, ap, ◌∙◌,
}
use linux.Kernel.Task.{Task, Tasks, task_at}
use linux.Kernel.Exit.{find_pid}

abbrev pub pid_of : Option Task → ℕ
pid_of none = 0
pid_of (some p) = p.pid

differ : true ≡ false → ⊥
differ q = cc

pub find_pid-finds :
    (pid k i : ℕ) (tasks : Tasks) (j : ℕ) (q : Task)
    → i ≤ j
    → j < i + k
    → task_at tasks j ≡ some q
    → q.pid ≡ pid
    → (m : ℕ) × (p : Task) × (find_pid pid k i tasks ≡ some m)
      × (task_at tasks m ≡ some p)
      × (p.pid ≡ pid)
      × (m < i + k)
unfolding find_pid
find_pid-finds pid zero i tasks j q low high there e = absurd (omega arith)
find_pid-finds pid (suc k) i tasks j q low high there e = elim (Option-cases (task_at tasks i)) [
  | inl empty ↦
      let later : i + 1 ≤ j = next (Bool-cases (i == j)) empty in
      let (m, p, found, at, here, bound) =
        find_pid-finds pid k (i + 1) tasks j q later (omega arith) there e in
      (m, p, rw (find_pid, empty) found, at, here, omega (arith, bound))
  | inr (p, full) ↦ elim (Bool-cases (p.pid == pid)) [
    | inl here ↦ (i, p, rw (find_pid, full) (rw here refl), full, (==_iff _ _).0 here, omega arith)
    | inr other ↦
        let later : i + 1 ≤ j = past (Bool-cases (i == j)) p full other in
        let (m, p', found, at, here, bound) =
          find_pid-finds pid k (i + 1) tasks j q later (omega arith) there e in
        (m, p', rw (find_pid, full) (rw other found), at, here, omega (arith, bound))
  ]
]
  where
    next : ((i == j) ≡ true) ⊎ ((i == j) ≡ false) → task_at tasks i ≡ none → i + 1 ≤ j
    next (inr apart) empty = ground arith
    next (inl same) empty =
        absurd (no (sym (ap (task_at tasks) ((==_iff i j).0 same) ∙ there) ∙ empty))
      where
        no : some q ≡ none → ⊥
        no p = cc

    past :
        ((i == j) ≡ true) ⊎ ((i == j) ≡ false)
        → (p : Task) → task_at tasks i ≡ some p
        → (p.pid == pid) ≡ false
        → i + 1 ≤ j
    past (inr apart) p full other = ground arith
    past (inl same) p full other =
        absurd (no (sym full ∙ ap (task_at tasks) ((==_iff i j).0 same) ∙ there))
      where
        no : some p ≡ some q → ⊥
        no r = differ (sym ((==_iff _ _).1 (ap pid_of r ∙ e)) ∙ other)

pub find_pid-some :
    (pid k i : ℕ) (tasks : Tasks) (m : ℕ)
    → find_pid pid k i tasks ≡ some m
    → (q : Task) × (task_at tasks m ≡ some q) × (q.pid ≡ pid)
unfolding find_pid
find_pid-some pid zero i tasks m e = absurd (no e)
  where
    no : none ≡ some m → ⊥
    no q = cc
find_pid-some pid (suc k) i tasks m e = elim (Option-cases (task_at tasks i)) [
  | inl empty ↦ find_pid-some pid k (i + 1) tasks m (rw (find_pid, empty) at e)
  | inr (p, full) ↦ elim (Bool-cases (p.pid == pid)) [
    | inl here ↦ (
      p,
      ap (task_at tasks) (sym (found (rw here at (rw (find_pid, full) at e)))) ∙ full,
      (==_iff _ _).0 here,
    )
    | inr other ↦ find_pid-some pid k (i + 1) tasks m (rw other at (rw (find_pid, full) at e))
  ]
]
  where
    found : some i ≡ some m → i ≡ m
    found q = cc
