-- ===== src/Kernel/Exit.antt =====
-- kernel/exit.c: release, the parts of do_exit on the task table, and waitpid. A task is named by its index, and
-- `freed` has the slots whose page has gone to free_page, and `scheduled` counts the calls of schedule in
-- release. What other tasks do while a call of schedule
-- switches to them is left out.
pub mod Find
pub mod Kin
pub mod Leave
pub mod Left
pub mod Reaped
pub mod Tests
use linux.Common.{
  ℕ, zero, suc, ◌+◌, ◌-◌, ◌*◌, ◌/◌, ◌%◌, ◌^◌, bit_and, Bool, true, false, Option, none, some, List,
  [], ◌∷◌, not, ◌&&◌, ◌||◌, ltb, leb, ◌==◌, if◌then◌else◌, get_or, set,
}
use linux.Common.Bits.{not32}
use linux.Common.Word.{add32, sub32, slt}
use linux.Common.Errno.{Ret, ret, err, echild, eintr}
use linux.Kernel.Task.{
  Task, TaskState, running, interruptible, uninterruptible, zombie, stopped, Tasks, task_at,
  nr_tasks, sig_bit, sighup, sigchld,
}
use linux.Kernel.Sched.{each_task}
use linux.Kernel.Signals.{raise, send_sig}

pub record System : Type 0 where
  pub tasks : Tasks
  pub freed : List ℕ
  pub scheduled : ℕ

abbrev pub set_task : ℕ → Option Task → System → System
set_task i o s = record s { tasks = set s.tasks i o }

-- `none` is a panic.
pub release : ℕ → System → Option System
release i s = elim (task_at s.tasks i) [
  | none ↦ some s
  | some p ↦
      if i == 0
      then none
      else some (record s {
        tasks = set s.tasks i none;
        freed = i ∷ s.freed;
        scheduled = s.scheduled + 1;
      })
]

pub kill_session : Task → Tasks → Tasks
kill_session current tasks =
    each_task (λ p. if p.session == current.session then raise sighup p else p) tasks

abbrev pub is_zombie : TaskState → Bool
is_zombie zombie = true
is_zombie _ = false

-- A round of the loop that gives the children of the task to init.
pub adopt_slot : Task → ℕ → Tasks → Tasks
unfolding send_sig
adopt_slot current i tasks = elim (task_at tasks i) [
  | none ↦ tasks
  | some p ↦
      let tasks₁ = set tasks i (some (record p { father = 1 })) in
      let told = set tasks₁ 1 (send_sig current sigchld true (task_at tasks₁ 1)).1 in
      if p.father == current.pid then (if is_zombie p.state then told else tasks₁) else tasks
]

-- The loop from `i` on, `k` slots being left.
pub adopt : Task → ℕ → ℕ → Tasks → Tasks
unfolding adopt_slot
adopt current zero i tasks = tasks
adopt current (suc k) i tasks = adopt current k (i + 1) (adopt_slot current i tasks)

-- The first slot from `i` on whose task has the number, `k` being left.
unfoldable pub find_pid : ℕ → ℕ → ℕ → Tasks → Option ℕ
find_pid pid zero i tasks = none
find_pid pid (suc k) i tasks = elim (task_at tasks i) [
  | none ↦ find_pid pid k (i + 1) tasks
  | some p ↦ let rest = find_pid pid k (i + 1) tasks in if p.pid == pid then some i else rest
]

abbrev pub on_task : (Task → Task) → Option Task → Option Task
on_task f none = none
on_task f (some p) = some (f p)

-- `current` is the task in slot `c`.
pub tell_father : ℕ → ℕ → System → Option System
unfolding find_pid release
tell_father pid c s =
    let father = if pid == 0 then none else find_pid pid nr_tasks 0 s.tasks in
    elim father [
      | none ↦ release c s
      | some i ↦ some (set_task i (on_task (raise sigchld) (task_at s.tasks i)) s)
    ]

-- do_exit from its call of kill_session on; the loop over the children has run on `s`.
pub end_task : ℕ → ℕ → Task → System → Option System
unfolding kill_session tell_father
end_task c code current s =
    let tasks = if current.leader then kill_session current s.tasks else s.tasks in
    elim (task_at tasks c) [
      | none ↦ none
      | some p ↦
          let p' = record p { state = zombie; exit_code = code } in
          tell_father p'.father c (record s { tasks = set tasks c (some p') })
    ]

-- The conditions of waitpid on a task.
pub is_child : Task → ℕ → Task → Bool
is_child current pid p =
    (p.father == current.pid)
    && (if slt 0 pid
        then p.pid == pid
        else if pid == 0
        then p.pgrp == current.pgrp
        else if pid == 0xffffffff
        then true
        else p.pgrp == sub32 0 pid)

-- What a slot is to waitpid.
pub data Seen : Type 0 where
  passed : Seen
  alive : Seen
  halted : Task → Seen
  exited : Task → Seen

abbrev pub see : ℕ → TaskState → Task → Seen
see options stopped p = if options / 2 % 2 == 0 then passed else halted p
see options zombie p = exited p
see options running p = alive
see options interruptible p = alive
see options uninterruptible p = alive

pub look : ℕ → Task → ℕ → ℕ → ℕ → Option Task → Seen
unfolding is_child
look c current pid options i none = passed
look c current pid options i (some p) =
    if i == c || not (is_child current pid p) then passed else see options p.state p

-- A call returns its value and what it has written to `stat_addr`, or sleeps, or panics.
pub data Wait : Type 0 where
  returns : Ret → Option ℕ → System → Wait
  sleeps : System → Wait
  panic : Wait

-- A task that has exited: its times go to its father, which is in slot `c`, and its slot is free.
pub reap : ℕ → ℕ → Task → System → Wait
unfolding release
reap c i p s =
    let times : Task → Task =
      λ q. record q { cutime = add32 q.cutime p.utime; cstime = add32 q.cstime p.stime } in
    elim (release i (set_task c (on_task times (task_at s.tasks c)) s)) [
      | none ↦ panic
      | some s' ↦ returns (ret p.pid) (some p.exit_code) s'
    ]

-- The end of the loop, with its flag.
pub end_wait : ℕ → ℕ → Bool → System → Wait
end_wait c options flag s =
    let asleep =
      set_task c (on_task (λ p. record p { state = interruptible }) (task_at s.tasks c)) s in
    if flag
    then (if options % 2 == 1 then returns (ret 0) none s else sleeps asleep)
    else returns (err echild) none s

-- The loop over the slots from `n` down to 1.
pub wait_loop : ℕ → Task → ℕ → ℕ → ℕ → Bool → System → Wait
unfolding look reap end_wait
wait_loop c current pid options zero flag s = end_wait c options flag s
wait_loop c current pid options (suc n) flag s =
    elim (look c current pid options (suc n) (task_at s.tasks (suc n))) [
      | passed ↦ wait_loop c current pid options n flag s
      | alive ↦ wait_loop c current pid options n true s
      | halted p ↦ returns (ret p.pid) (some 0x7f) s
      | exited p ↦ reap c (suc n) p s
    ]

-- Up to its return or sleep.
pub sys_waitpid : ℕ → ℕ → ℕ → System → Wait
unfolding wait_loop
sys_waitpid c pid options s = elim (task_at s.tasks c) [
  | none ↦ panic
  | some current ↦ wait_loop c current pid options (nr_tasks - 1) false s
]

-- After the sleep: SIGCHLD is taken away, and any other signal ends the call with -EINTR.
pub wake_wait : ℕ → ℕ → ℕ → System → Wait
unfolding sys_waitpid
wake_wait c pid options s = elim (task_at s.tasks c) [
  | none ↦ panic
  | some p ↦
      let signal = bit_and p.signal (not32 (sig_bit sigchld)) in
      let s' = set_task c (some (record p { signal = signal })) s in
      if signal == 0 then sys_waitpid c pid options s' else returns (err eintr) none s'
]
