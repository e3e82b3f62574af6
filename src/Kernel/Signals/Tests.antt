-- ===== src/Kernel/Signals/Tests.antt =====
-- Tests of the signal calls: a process without handlers, and a table with two tasks of one group.
use linux.Common.{
  ◌-◌, ◌^◌, ◌≡◌, refl, true, some, none, [], ◌∷◌, arith, ◌&&◌, leb, ◌==◌, if◌then◌else◌, replicate,
  bit_or,
}
use linux.Common.Bits.{shl1}
use linux.Common.Word.{sub32}
use linux.Common.Errno.{ret, err, einval}
use linux.Kernel.Task.{Task, Tasks, task_at, running, sigchld}
use linux.Kernel.Signals.{
  Sigaction, Signals, Registers, ignored, exits, handled, no_action, sys_signal, do_signal, raise,
  sys_kill,
}
use linux.Kernel.Signals.Delivery.{do_signal-sys_signal}
use linux.Kernel.Signals.Kill.{signalled, is_target, sys_kill-targets}

abbrev signals : Signals
signals = record { sigaction = replicate 32 no_action; blocked = 1 }

abbrev registers : Registers
registers = record { eax = 1; ecx = 2; edx = 3; eflags = 0x246; eip = 0x1000; esp = 0x8000 }

abbrev catch : Sigaction
catch = record { sa_handler = 0x2000; sa_mask = 4; sa_flags = 0; sa_restorer = 0x3000 }

do_signal-sys_signal_example :
    (s' : Signals) × (do_signal 2 registers (sys_signal 2 0x2000 0x3000 signals).1
      ≡ handled s' 0x2000 (sub32 0x8000 28) (0x3000 ∷ 2 ∷ 1 ∷ 2 ∷ 3 ∷ 0x246 ∷ 0x1000 ∷ []))
    × (s'.blocked ≡ bit_or 1 0)
    × (do_signal 2 registers s' ≡ (if 2 == sigchld then ignored else exits (shl1 (2 - 1))))
do_signal-sys_signal_example =
    do_signal-sys_signal signals 2 0x2000 0x3000 registers registers refl (omega arith)
      (omega arith) (omega arith) (omega arith)

abbrev user : Task
user = record {
  state = running;
  counter = 15;
  priority = 15;
  signal = 0;
  blocked = 0;
  pid = 7;
  pgrp = 7;
  session = 7;
  leader = true;
  uid = 100;
  euid = 100;
  gid = 10;
  egid = 10;
  sgid = 10;
  alarm = 0;
  tty = none;
  umask = 0;
  father = 0;
  exit_code = 0;
  utime = 0;
  stime = 0;
  cutime = 0;
  cstime = 0;
}

abbrev tasks : Tasks
tasks = none ∷ some user ∷ some (record user { pid = 8 }) ∷ replicate 61 none

sys_kill-targets_example : task_at (sys_kill user 8 15 tasks).1 2 ≡ (
    if leb 1 2 && leb 2 63
    then signalled 15 (is_target user 8) (task_at tasks 2)
    else task_at tasks 2)
sys_kill-targets_example =
    sys_kill-targets user 8 15 tasks refl (omega arith) (omega arith) (omega arith) (omega arith) 2

-- kill(-7, SIGTERM) on the group of both tasks.
no_group : sys_kill user (2 ^ 32 - 7) 15 tasks ≡ (ret 0, tasks)
unfolding sys_kill
no_group = refl

-- kill(-1, SIGTERM): only the last task, which is the first one tried; the empty slots leave -EINVAL.
only_one :
    sys_kill user 0xffffffff 15 (none ∷ some user ∷ some (record user { pid = 8 }) ∷ [])
    ≡ (err einval, none ∷ some user ∷ some (raise 15 (record user { pid = 8 })) ∷ [])
unfolding sys_kill
only_one = refl
