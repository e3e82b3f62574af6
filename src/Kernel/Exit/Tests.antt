-- ===== src/Kernel/Exit/Tests.antt =====
-- Tests of kernel/exit.c: init and one child of it.
use linux.Common.{
  ap, ℕ, zero, suc, ◌≡◌, refl, none, some, [], ◌∷◌, false, arith, replicate, get_or-replicate_self,
  Option,
}
use linux.Common.Errno.{ret, err, echild}
use linux.Kernel.Task.{Task, task_at, running, interruptible}
use linux.Kernel.Exit.{System, sys_waitpid, returns}
use linux.Kernel.Exit.Find.{pid_of}
use linux.Kernel.Exit.Left.{IsFamily}
use linux.Fs.Files.{Files}
use linux.Kernel.Exit.Leave.{Process, Iput, free_segments, close_files, put_inodes, do_exit}
use linux.Kernel.Exit.Reaped.{GivesUp, sys_waitpid-do_exit}

abbrev pub init : Task
init = record {
  state = interruptible;
  counter = 15;
  priority = 15;
  signal = 0;
  blocked = 0;
  pid = 1;
  pgrp = 0;
  session = 0;
  leader = false;
  uid = 0;
  euid = 0;
  gid = 0;
  egid = 0;
  sgid = 0;
  alarm = 0;
  tty = none;
  umask = 0o22;
  father = 0;
  exit_code = 0;
  utime = 0;
  stime = 0;
  cutime = 0;
  cstime = 0;
}

abbrev child : Task
child = record init { state = running; pid = 5; father = 1; utime = 7; stime = 3 }

abbrev system : System
system = record {
  tasks = none ∷ some init ∷ some child ∷ replicate 61 none;
  freed = [];
  scheduled = 0;
}

no_child : sys_waitpid 2 0xffffffff 0 system ≡ returns (err echild) none system
unfolding sys_waitpid
no_child = refl

only_child : (i : ℕ) (q : Task) → task_at system.tasks i ≡ some q → q.pid ≡ 5 → i ≡ 2
only_child zero q e p = absurd (no e)
  where
    no : none ≡ some q → ⊥
    no h = cc
only_child (suc zero) q e p = absurd (omega (arith, number e, p))
  where
    number : some init ≡ some q → 1 ≡ q.pid
    number h = ap pid_of h
only_child (suc (suc zero)) q e p = refl
only_child (suc (suc (suc i))) q e p =
    absurd (no (rw (get_or-replicate_self {A = Option Task} 61 none i) at e))
  where
    no : none ≡ some q → ⊥
    no h = cc

system-IsFamily : IsFamily system 2 1 child init
system-IsFamily = record {
  size = refl;
  slots = (omega arith, omega arith, omega arith);
  child_there = refl;
  father_there = refl;
  parent = refl;
  numbers = (omega arith, omega arith, ground arith, ground arith);
  alone = only_child;
}

-- A process with one open file, whose pages are not there.
abbrev files : Files
files = record {
  file_table = record { f_mode = 0; f_flags = 0; f_count = 1; f_inode = some 4; f_pos = 0 } ∷ [];
  filp = some 0 ∷ replicate 19 none;
  close_on_exec = 0;
  iputs = [];
}

abbrev process : Process
process = record {
  system = system;
  mm = record { mem_map = []; mem = λ a. 0; high_memory = 0x1000000 };
  code_segment = record { base = 0x8000000; limit = 0x1000 };
  data_segment = record { base = 0x8000000; limit = 0x4000 };
  files = files;
  pwd = some 1;
  root = some 2;
  executable = some 3;
  pgrps = 0 ∷ 0 ∷ 0 ∷ [];
  last_task_used_math = some 2;
}

-- The calls are recorded.
abbrev iput : Iput
iput inode s = some (record s { iputs = inode ∷ s.iputs })

abbrev closed : Files
closed = record {
  file_table = record { f_mode = 0; f_flags = 0; f_count = 0; f_inode = some 4; f_pos = 0 } ∷ [];
  filp = replicate 20 none;
  close_on_exec = 0;
  iputs = some 4 ∷ [];
}

process-GivesUp : GivesUp iput process
unfolding linux.Mm.Space.free_page_tables linux.Mm.Space.free_dirs linux.Fs.Files.sys_close
    free_segments close_files put_inodes
process-GivesUp = record {
  mm = process.mm;
  closed = closed;
  files = record closed { iputs = some 3 ∷ some 2 ∷ some 1 ∷ some 4 ∷ [] };
  freed = refl;
  closes = refl;
  puts = refl;
}

sys_waitpid-do_exit_example :
    (x' : Process) × (s'' : System) × (do_exit iput 2 256 process ≡ some x')
    × (x'.mm ≡ process-GivesUp.mm)
    × (x'.files ≡ process-GivesUp.files)
    × (sys_waitpid 1 5 0 x'.system ≡ returns (ret 5) (some 256) s'')
    × (task_at s''.tasks 2 ≡ none)
    × (s''.freed ≡ 2 ∷ x'.system.freed)
sys_waitpid-do_exit_example =
    sys_waitpid-do_exit iput process 2 1 256 0 child init system-IsFamily process-GivesUp
