-- ===== src/Kernel/Exit/Reaped.antt =====
-- A process that exits is found by its father's waitpid.
use linux.Common.{
  ℕ, zero, suc, ◌+◌, ◌≤◌, ◌<◌, ◌^◌, ◌≡◌, refl, ◌≢◌, ◌⊎◌, inl, inr, Bool, true, false, none, some,
  [], ◌∷◌, ◌||◌, ◌&&◌, arith, ◌==◌, ==_iff, if◌then◌else◌, Bool-cases, Option-cases, length,
  length-set, set, get_or-set_self, get_or-set_ne, sym, ap, ◌∙◌,
}
use linux.Common.Errno.{ret}
use linux.Common.Word.{slt, add32}
use linux.Kernel.Task.{Task, task_at, nr_tasks, zombie}
use linux.Kernel.Exit.{
  System, set_task, release, on_task, end_task, is_child, see, look, passed, exited, returns, reap,
  wait_loop, sys_waitpid,
}
use linux.Kernel.Exit.Find.{pid_of}
use linux.Mm.{Mm, ok}
use linux.Fs.Files.{Files, nr_open}
use linux.Kernel.Exit.Leave.{
  Iput, Process, free_segments, close_files, put_inodes, after_exit, do_exit,
}
use linux.Kernel.Exit.Left.{IsFamily, Exited, adopted, end_task-Exited}

release-some :
    (i : ℕ) (s : System) (p : Task)
    → task_at s.tasks i ≡ some p
    → (i == 0) ≡ false
    → release i s
      ≡ some (record s {
        tasks = set s.tasks i none;
        freed = i ∷ s.freed;
        scheduled = s.scheduled + 1;
      })
unfolding release
release-some i s p there nonzero = rw (release, there) (rw nonzero refl)

-- The father's times after a child with the times of `p`.
abbrev add_times : Task → Task → Task
add_times p q = record q { cutime = add32 q.cutime p.utime; cstime = add32 q.cstime p.stime }

reap-run :
    (f c : ℕ) (p : Task) (s s' : System)
    → release c (set_task f (on_task (add_times p) (task_at s.tasks f)) s) ≡ some s'
    → reap f c p s ≡ returns (ret p.pid) (some p.exit_code) s'
unfolding reap
reap-run f c p s s' e = rw (reap, e) refl

is_child-other :
    (current : Task) (pid : ℕ) (q : Task)
    → slt 0 pid ≡ true
    → (q.pid == pid) ≡ false
    → is_child current pid q ≡ false
unfolding is_child
is_child-other current pid q positive other =
    rw (positive, other) (and_false (q.father == current.pid))
  where
    and_false : (b : Bool) → (b && false) ≡ false
    and_false true = refl
    and_false false = refl

is_child-same :
    (current : Task) (pid : ℕ) (q : Task)
    → slt 0 pid ≡ true
    → q.pid ≡ pid
    → q.father ≡ current.pid
    → is_child current pid q ≡ true
unfolding is_child
is_child-same current pid q positive same father =
    rw (positive, (==_iff q.pid pid).1 same, (==_iff q.father current.pid).1 father) refl

look-other :
    (f : ℕ) (current : Task) (pid options i : ℕ) (q : Task)
    → is_child current pid q ≡ false
    → look f current pid options i (some q) ≡ passed
unfolding look
look-other f current pid options i q h = rw h (either (i == f))
  where
    either : (b : Bool) → (if b || true then passed else see options q.state q) ≡ passed
    either true = refl
    either false = refl

look-exited :
    (f : ℕ) (current : Task) (pid options i : ℕ) (q : Task)
    → (i == f) ≡ false
    → is_child current pid q ≡ true
    → q.state ≡ zombie
    → look f current pid options i (some q) ≡ exited q
unfolding look
look-exited f current pid options i q apart child dead =
    rw (apart, child) (ap (λ st. see options st q) dead)

module _ {s : System} {c f code : ℕ} {child father : Task} (e : Exited s c f code child father)
    (positive : slt 0 child.pid ≡ true) (ic : 1 ≤ c) (apart : (c == f) ≡ false) (options : ℕ)
    (current : Task) (here : current.pid ≡ father.pid) where
  look-passed : (i : ℕ) → i ≢ c → look f current child.pid options i (task_at s.tasks i) ≡ passed
  unfolding look
  look-passed i other = elim (Option-cases (task_at s.tasks i)) [
    | inl none_there ↦ rw none_there refl
    | inr (q, there) ↦
        ap (look f current child.pid options i) there
        ∙ look-other f current child.pid options i q (
            is_child-other current child.pid q positive
              (not_it q there (Bool-cases (q.pid == child.pid))))
  ]
    where
      not_it :
          (q : Task)
          → task_at s.tasks i ≡ some q
          → ((q.pid == child.pid) ≡ true) ⊎ ((q.pid == child.pid) ≡ false)
          → (q.pid == child.pid) ≡ false
      not_it q there (inr d) = d
      not_it q there (inl same) = absurd (other (e.alone i q there ((==_iff _ _).0 same)))

  wait_loop-reap :
      (n : ℕ) (flag : Bool)
      → c ≤ n
      → wait_loop f current child.pid options n flag s ≡ reap f c e.corpse s
  unfolding wait_loop
  wait_loop-reap zero flag h = absurd (omega arith)
  wait_loop-reap (suc n) flag h = elim (Bool-cases (c == suc n)) [
    | inl found ↦
        let eq : c ≡ suc n = (==_iff _ _).0 found in
        let there = ap (task_at s.tasks) (sym eq) ∙ e.there in
        let not_self : (suc n == f) ≡ false = ap (λ i. i == f) (sym eq) ∙ apart in
        let is_its =
          is_child-same current child.pid e.corpse positive e.same_pid (e.parent ∙ sym here) in
        let seen : look f current child.pid options (suc n) (task_at s.tasks (suc n))
            ≡ exited e.corpse =
          ap (look f current child.pid options (suc n)) there
          ∙ look-exited f current child.pid options (suc n) e.corpse not_self is_its e.dead in
        rw (wait_loop, seen) (ap (λ i. reap f i e.corpse s) (sym eq))
    | inr other ↦
        let ne : suc n ≢ c = ground arith in
        rw (wait_loop, look-passed (suc n) ne) (wait_loop-reap n flag (ground arith))
  ]

  reap-frees :
      c < nr_tasks
      → (s' : System) × (reap f c e.corpse s ≡ returns (ret child.pid) (some code) s')
        × (task_at s'.tasks c ≡ none)
        × (s'.freed ≡ c ∷ s.freed)
  reap-frees h =
      let times = on_task (add_times e.corpse) (task_at s.tasks f) in
      let s₁ = set_task f times s in
      let ne : f ≢ c = ground arith in
      let nonzero : (c == 0) ≡ false = ground arith in
      let there : task_at s₁.tasks c ≡ some e.corpse =
        get_or-set_ne s.tasks {i = f} {j = c} times none ne ∙ e.there in
      let s₂ : System = record s₁ {
        tasks = set s₁.tasks c none;
        freed = c ∷ s.freed;
        scheduled = s.scheduled + 1;
      } in
      let inside : c < length s₁.tasks = omega (arith, length-set s.tasks f times, e.size) in
      (
        s₂,
        reap-run f c e.corpse s s₂ (release-some c s₁ e.corpse there nonzero)
            ∙ ap (λ n. returns (ret n) (some e.corpse.exit_code) s₂) e.same_pid
            ∙ ap (λ k. returns (ret child.pid) (some k) s₂) e.status,
        get_or-set_self s₁.tasks c none none inside,
        refl,
      )

pid_positive : (pid : ℕ) → 1 ≤ pid → pid < 2 ^ 31 → slt 0 pid ≡ true
pid_positive pid h l = ground arith

slots_apart :
    {s : System} {c f : ℕ} {child father : Task} → IsFamily s c f child father → (c == f) ≡ false
slots_apart {s} {c} {f} {child} {father} v = elim (Bool-cases (c == f)) [
  | inr d ↦ d
  | inl same ↦ absurd (
      v.numbers.3 (
        ap pid_of
          (sym v.father_there ∙ ap (task_at s.tasks) (sym ((==_iff c f).0 same)) ∙ v.child_there)))
]

-- Let a process give up what it has without a panic: the calls of free_page_tables on its two segments
-- leave memory `mm`, those of sys_close on its open descriptors the files `closed`, and those of iput on
-- its three inodes the files `files`.
pub record GivesUp (iput : Iput) (x : Process) : Type 0 where
  pub mm : Mm
  pub closed : Files
  pub files : Files
  pub freed : free_segments x ≡ ok tt mm
  pub closes : close_files nr_open 0 x.files ≡ some closed
  pub puts : put_inodes iput (x.pwd ∷ x.root ∷ x.executable ∷ []) closed ≡ some files

do_exit-run :
    (iput : Iput) (x : Process) (c code : ℕ) (child : Task) (g : GivesUp iput x) (s : System)
    → task_at x.system.tasks c ≡ some child
    → end_task c code child (adopted child x.system) ≡ some s
    → do_exit iput c code x ≡ some (after_exit c child s g.mm g.files x)
unfolding do_exit
do_exit-run iput x c code child g s there run =
    rw (do_exit, there, g.freed, g.closes, g.puts, run) refl

-- In a table of 64 slots, a process with a positive number in slot `c`, not task 0, whose father is in
-- slot `f` and has a number other than 0, and whose number no other task has, exits with a code, and the
-- calls of free_page_tables, sys_close and iput that do_exit makes come to an end without a panic. Then
-- do_exit does not panic, and leaves memory and files as these calls have left them. If then its father
-- calls waitpid with its number, whatever the options are, the call does not sleep: it returns the number
-- and stores the code, and the slot of the process is free again and its page freed.
pub sys_waitpid-do_exit :
    (iput : Iput) (x : Process) (c f code options : ℕ) (child father : Task)
    → IsFamily x.system c f child father
    → (g : GivesUp iput x)
    → (x' : Process) × (s'' : System) × (do_exit iput c code x ≡ some x')
      × (x'.mm ≡ g.mm)
      × (x'.files ≡ g.files)
      × (sys_waitpid f child.pid options x'.system ≡ returns (ret child.pid) (some code) s'')
      × (task_at s''.tasks c ≡ none)
      × (s''.freed ≡ c ∷ x'.system.freed)
unfolding sys_waitpid after_exit
sys_waitpid-do_exit iput x c f code options child father v g =
    let (s', run, e) = end_task-Exited x.system c f code child father v in
    let (current, there, here) = e.father_there in
    let positive = pid_positive child.pid v.numbers.0 v.numbers.1 in
    let apart = slots_apart v in
    let (s'', reaped, empty, page) =
      reap-frees e positive v.slots.0 apart options current here v.slots.1 in
    (
      after_exit c child s' g.mm g.files x,
      s'',
      do_exit-run iput x c code child g s' v.child_there run,
      refl,
      refl,
      rw (sys_waitpid, there)
          (wait_loop-reap e positive v.slots.0 apart options current here 63 false
              (omega (arith, v.slots.1))
            ∙ reaped),
      empty,
      page,
    )
