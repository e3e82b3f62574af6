-- ===== src/Kernel/Ids/Groups.antt =====
-- sys_setpgid: which task changes its process group, and when none does.
use linux.Common.{
  ℕ, zero, suc, ◌<◌, ◌≡◌, refl, ◌≢◌, ◌⊎◌, inl, inr, true, false, ap, sym, Option, none, some, [],
  ◌∷◌, arith, ◌==◌, ==_iff, if◌then◌else◌, Bool-cases, set,
}
use linux.Common.Errno.{Ret, ret, err, eperm, esrch}
use linux.Kernel.Task.{Task, Tasks, task_at}
use linux.Kernel.Ids.{setpgid_loop, sys_setpgid}

-- The first task with the process number is at `i`.
pub record Found (pid i : ℕ) (t : Task) (tasks : Tasks) : Type 0 where
  pub there : task_at tasks i ≡ some t
  pub has_pid : t.pid ≡ pid
  pub first : (j : ℕ) (u : Task) → j < i → task_at tasks j ≡ some u → u.pid ≢ pid

-- What the call does for the task that it finds, or without one.
pub data Regrouped (session pid pgid : ℕ) (tasks : Tasks) : Ret → Tasks → Type 0 where
  moved :
      (i : ℕ) (t : Task) {tasks' : Tasks}
      → Found pid i t tasks
      → t.leader ≡ false
      → t.session ≡ session
      → tasks' ≡ set tasks i (some (record t { pgrp = pgid }))
      → Regrouped session pid pgid tasks (ret 0) tasks'
  refused :
      (i : ℕ) (t : Task) {tasks' : Tasks}
      → Found pid i t tasks
      → (t.leader ≡ true) ⊎ (t.session ≢ session)
      → tasks' ≡ tasks
      → Regrouped session pid pgid tasks (err eperm) tasks'
  missing :
      {tasks' : Tasks}
      → ((i : ℕ) (t : Task) → task_at tasks i ≡ some t → t.pid ≢ pid)
      → tasks' ≡ tasks
      → Regrouped session pid pgid tasks (err esrch) tasks'

module _ {pid : ℕ} (slot : Option Task) (other : (t : Task) → slot ≡ some t → t.pid ≢ pid) where
  Found-cons :
      {i : ℕ} {t : Task} {tasks : Tasks} → Found pid i t tasks → Found pid (suc i) t (slot ∷ tasks)
  Found-cons {i} {t} {tasks} f = record { there = f.there; has_pid = f.has_pid; first = before }
    where
      before : (j : ℕ) (u : Task) → j < suc i → task_at (slot ∷ tasks) j ≡ some u → u.pid ≢ pid
      before zero u h e = other u e
      before (suc j) u h e = f.first j u (omega arith) e

  Regrouped-cons :
      {session pgid : ℕ} {tasks tasks' : Tasks} {r : Ret}
      → Regrouped session pid pgid tasks r tasks'
      → Regrouped session pid pgid (slot ∷ tasks) r (slot ∷ tasks')
  Regrouped-cons (moved i t f free same e) =
      moved (suc i) t (Found-cons f) free same (ap (λ l. slot ∷ l) e)
  Regrouped-cons (refused i t f why e) = refused (suc i) t (Found-cons f) why (ap (λ l. slot ∷ l) e)
  Regrouped-cons {tasks} (missing nowhere e) = missing everywhere (ap (λ l. slot ∷ l) e)
    where
      everywhere : (i : ℕ) (t : Task) → task_at (slot ∷ tasks) i ≡ some t → t.pid ≢ pid
      everywhere zero t e = other t e
      everywhere (suc i) t e = nowhere i t e

Found-here : {pid : ℕ} (t : Task) (tasks : Tasks) → t.pid ≡ pid → Found pid 0 t (some t ∷ tasks)
Found-here t tasks e = record {
  there = refl;
  has_pid = e;
  first = λ j u h e'. absurd (omega arith);
}

setpgid_loop-Regrouped :
    (session pid pgid : ℕ) (tasks : Tasks)
    → let (r, tasks') = setpgid_loop session pid pgid tasks in
      Regrouped session pid pgid tasks r tasks'
unfolding setpgid_loop
setpgid_loop-Regrouped session pid pgid [] = missing (λ i t e. cc) refl
setpgid_loop-Regrouped session pid pgid (none ∷ tasks) =
    Regrouped-cons none (λ t e. cc) (setpgid_loop-Regrouped session pid pgid tasks)
setpgid_loop-Regrouped session pid pgid (some t ∷ tasks) = elim (Bool-cases (t.pid == pid)) [
  | inr other ↦ rw other (
      Regrouped-cons (some t) (λ u e. ground (arith, other, e))
        (setpgid_loop-Regrouped session pid pgid tasks))
  | inl same ↦
      let e : t.pid ≡ pid = (==_iff t.pid pid).0 same in
      let found : Found pid 0 t (some t ∷ tasks) = Found-here t tasks e in
      elim (Bool-cases t.leader) [
        | inl leader ↦ simp (same, leader) (refused 0 t found (inl leader) refl)
        | inr free ↦ elim (Bool-cases (t.session == session)) [
          | inl member ↦
              simp (same, free, member)
                (moved 0 t found free ((==_iff t.session session).0 member)
                  (ap (λ b. some (record t { pgrp = pgid; leader = b }) ∷ tasks) (sym free)))
          | inr alien ↦ simp (same, free, alien) (refused 0 t found (inr (ground arith)) refl)
        ]
      ]
]

-- sys_setpgid changes the process group of the first task with the process number, if it is no session
-- leader and of the caller's session; it refuses with -EPERM if it is not so, gives -ESRCH if no task
-- has the number, and an error changes nothing. A 0 stands for the caller's own number.
pub sys_setpgid-Regrouped :
    (current : Task) (pid pgid : ℕ) (tasks : Tasks)
    → let (r, tasks') = sys_setpgid current pid pgid tasks in
      Regrouped current.session
        (if pid == 0 then current.pid else pid)
        (if pgid == 0 then current.pid else pgid)
        tasks
        r
        tasks'
unfolding sys_setpgid
sys_setpgid-Regrouped current pid pgid tasks = setpgid_loop-Regrouped current.session _ _ tasks
