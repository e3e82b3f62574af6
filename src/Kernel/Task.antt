-- ===== src/Kernel/Task.antt =====
-- The table of tasks: kernel/sched.c and include/linux/sched.h.
use linux.Common.{ℕ, zero, suc, Option, none, List, get_or, Bool}
use linux.Common.Bits.{shl1}

pub data TaskState : Type 0 where
  running : TaskState
  interruptible : TaskState
  uninterruptible : TaskState
  zombie : TaskState
  stopped : TaskState

-- The fields of `struct task_struct` that the modelled calls use; `counter`, `priority`, `alarm` and the
-- process numbers are longs that are not negative, the user and group identifiers are unsigned shorts,
-- `signal` and `blocked` are bit masks, the times are longs with wrap-around, and `none` is a `tty` of -1.
pub record Task : Type 0 where
  pub state : TaskState
  pub counter : ℕ
  pub priority : ℕ
  pub signal : ℕ
  pub blocked : ℕ
  pub pid : ℕ
  pub pgrp : ℕ
  pub session : ℕ
  pub leader : Bool
  pub uid : ℕ
  pub euid : ℕ
  pub gid : ℕ
  pub egid : ℕ
  pub sgid : ℕ
  pub alarm : ℕ
  pub tty : Option ℕ
  pub umask : ℕ
  pub father : ℕ
  pub exit_code : ℕ
  pub utime : ℕ
  pub stime : ℕ
  pub cutime : ℕ
  pub cstime : ℕ

-- `task[NR_TASKS]`; a task is named by its index, and an empty slot is `none`.
abbrev pub Tasks : Type 0
Tasks = List (Option Task)

abbrev pub nr_tasks : ℕ
nr_tasks = 64

abbrev pub task_at : Tasks → ℕ → Option Task
task_at tasks i = get_or tasks i none

-- The bits of the signals that are used by name.
abbrev pub sighup : ℕ
sighup = 1

abbrev pub sigint : ℕ
sigint = 2

abbrev pub sigkill : ℕ
sigkill = 9

abbrev pub sigpipe : ℕ
sigpipe = 13

abbrev pub sigalrm : ℕ
sigalrm = 14

abbrev pub sigchld : ℕ
sigchld = 17

-- `1<<(sig-1)`
abbrev pub sig_bit : ℕ → ℕ
sig_bit zero = 0
sig_bit (suc n) = shl1 n
