-- ===== src/Kernel/Sched/Best.antt =====
-- The inner loop of schedule finds a running task with the highest counter.
use linux.Common.{
  ℕ, zero, suc, ◌-◌, ◌≤◌, ◌<◌, ◌≡◌, refl, ◌≢◌, ◌⊎◌, inl, inr, true, false, Option, none, some,
  arith, Bool-cases, Option-cases,
}
use linux.Kernel.Task.{Task, Tasks, nr_tasks, task_at}
use linux.Kernel.Sched.{is_running, better, choose}

-- Task `j` is running with counter `k`.
pub record RunsWith (tasks : Tasks) (j k : ℕ) : Type 0 where
  pub task : Task
  pub there : task_at tasks j ≡ some task
  pub running : is_running task.state ≡ true
  pub counter : task.counter ≡ k

-- `c` and `next` are right for the tasks above `n`: the highest counter of a running one, and the
-- last of those that have it.
abbrev pub Best : Tasks → ℕ → Option ℕ → ℕ → Type 0
Best tasks n none next = (next ≡ 0) × ((j k : ℕ) → n < j → j < nr_tasks → RunsWith tasks j k → ⊥)
Best tasks n (some c) next =
    (n < next)
    × (next < nr_tasks)
    × RunsWith tasks next c
    × ((j k : ℕ) → n < j → j < nr_tasks → RunsWith tasks j k → (k ≤ c) × (k ≡ c → j ≤ next))

-- The same task gives the same counter.
RunsWith-some :
    {tasks : Tasks} {j k : ℕ} {p : Task}
    → task_at tasks j ≡ some p
    → RunsWith tasks j k
    → (is_running p.state ≡ true) × (p.counter ≡ k)
RunsWith-some e r = ground (arith, e, r.there, r.running, r.counter)

RunsWith-none : {tasks : Tasks} {j k : ℕ} → task_at tasks j ≡ none → RunsWith tasks j k → ⊥
RunsWith-none e r = ground (arith, e, r.there)

split : (n j : ℕ) → n < j → (j ≡ suc n) ⊎ (suc n < j)
split n j h = ground arith

module _ (tasks : Tasks) (n : ℕ) (h : suc n < nr_tasks) where
  -- No running task at `suc n`.
  Best-skip :
      (c : Option ℕ) (next : ℕ)
      → ((k : ℕ) → RunsWith tasks (suc n) k → ⊥)
      → Best tasks (suc n) c next
      → Best tasks n c next
  Best-skip none next idle (e, above) = (
    e,
    λ j k p q r. elim (split n j p) [
      | inl here ↦ idle k (rw here at r)
      | inr later ↦ above j k later q r
    ],
  )
  Best-skip (some c) next idle (low, high, r, above) = (
    omega arith,
    high,
    r,
    λ j k p q r'. elim (split n j p) [
      | inl here ↦ absurd (idle k (rw here at r'))
      | inr later ↦ above j k later q r'
    ],
  )

  -- A running task at `suc n` that is not better.
  Best-keep :
      (c : Option ℕ) (next : ℕ) (p : Task)
      → task_at tasks (suc n) ≡ some p
      → better c p.counter ≡ false
      → Best tasks (suc n) c next
      → Best tasks n c next
  unfolding better
  Best-keep none next p there worse b = cc
  Best-keep (some c) next p there worse (low, high, r, above) = (
    omega arith,
    high,
    r,
    λ j k a q r'. elim (split n j a) [
      | inl here ↦
          let same = RunsWith-some there (rw here at r') in
          (ground (arith, worse, same), λ e. omega arith)
      | inr later ↦ above j k later q r'
    ],
  )

  -- A running task at `suc n` that is better.
  Best-take :
      (c : Option ℕ) (next : ℕ) (p : Task)
      → task_at tasks (suc n) ≡ some p
      → is_running p.state ≡ true
      → better c p.counter ≡ true
      → Best tasks (suc n) c next
      → Best tasks n (some p.counter) (suc n)
  unfolding better
  Best-take c next p there run wins b = (
    omega arith,
    h,
    record { task = p; there = there; running = run; counter = refl },
    λ j k a q r. elim (split n j a) [
      | inl here ↦
          let same = RunsWith-some there (rw here at r) in (omega (arith, same), λ e. omega arith)
      | inr later ↦ above c wins b j k later q r
    ],
  )
    where
      above :
          (c : Option ℕ)
          → better c p.counter ≡ true
          → Best tasks (suc n) c next
          → (j k : ℕ) → suc n < j
          → j < nr_tasks
          → RunsWith tasks j k
          → (k ≤ p.counter) × (k ≡ p.counter → j ≤ suc n)
      above none wins (e, none_above) j k a q r = absurd (none_above j k a q r)
      above (some c) wins (low, high, r₀, most) j k a q r =
          let bound = most j k a q r in
          let less : c < p.counter = ground (arith, wins) in
          (omega (arith, bound), λ e. absurd (omega (arith, bound)))

pub choose-Best :
    (tasks : Tasks) (n : ℕ) (c : Option ℕ) (next : ℕ)
    → n < nr_tasks
    → Best tasks n c next
    → Best tasks 0 (choose tasks n c next).0 (choose tasks n c next).1
unfolding choose
choose-Best tasks zero c next h b = b
choose-Best tasks (suc n) c next h b = elim (Option-cases (task_at tasks (suc n))) [
  | inl empty ↦
      rw (choose, empty)
        (choose-Best tasks n c next (omega arith)
          (Best-skip tasks n h c next (λ k r. RunsWith-none empty r) b))
  | inr (p, there) ↦ elim (Bool-cases (is_running p.state)) [
    | inr idle ↦
        rw (choose, there, idle)
          (choose-Best tasks n c next (omega arith)
            (Best-skip tasks n h c next (λ k r. ground (arith, RunsWith-some there r, idle)) b))
    | inl run ↦ elim (Bool-cases (better c p.counter)) [
      | inl wins ↦
          rw (choose, there, run, wins)
            (choose-Best tasks n (some p.counter) (suc n) (omega arith)
              (Best-take tasks n h c next p there run wins b))
      | inr worse ↦
          rw (choose, there, run, worse)
            (choose-Best tasks n c next (omega arith) (Best-keep tasks n h c next p there worse b))
    ]
  ]
]

pub no_task_above : (tasks : Tasks) → Best tasks (nr_tasks - 1) none 0
no_task_above tasks = (refl, λ j k p q r. absurd (omega arith))

pub zero_cases : (c : Option ℕ) → (c ≡ some 0) ⊎ (c ≢ some 0)
zero_cases none = inr (λ e. cc)
zero_cases (some zero) = inl refl
zero_cases (some (suc k)) = inr (λ e. cc)
