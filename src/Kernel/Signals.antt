-- ===== src/Kernel/Signals.antt =====
-- Signals: kernel/signal.c, and send_sig and sys_kill of kernel/exit.c. User memory is written only by
-- do_signal, and sys_sigaction takes the new action that it reads from there as an argument.
pub mod Delivery
pub mod Kill
mod Tests
use linux.Common.{
  ℕ, zero, suc, ◌+◌, ◌-◌, ◌*◌, ◌/◌, ◌%◌, ◌^◌, bit_and, bit_or, Bool, true, false, Option, none,
  some, List, [], ◌∷◌, ◌++◌, not, ◌&&◌, ◌||◌, ltb, leb, ◌==◌, if◌then◌else◌, get_or, set,
}
use linux.Common.Bits.{shl1, not32}
use linux.Common.Word.{sub32, slt}
use linux.Common.Errno.{Ret, ret, err, eperm, einval}
use linux.Kernel.Task.{Task, Tasks, task_at, nr_tasks, sig_bit, sigkill, sigchld}
use linux.Kernel.Ids.{suser}

-- `struct sigaction`; the handlers 0 and 1 are SIG_DFL and SIG_IGN.
pub record Sigaction : Type 0 where
  pub sa_handler : ℕ
  pub sa_mask : ℕ
  pub sa_flags : ℕ
  pub sa_restorer : ℕ

abbrev pub no_action : Sigaction
no_action = record { sa_handler = 0; sa_mask = 0; sa_flags = 0; sa_restorer = 0 }

-- What signal calls use of a process: `sigaction[32]` and `blocked`.
pub record Signals : Type 0 where
  pub sigaction : List Sigaction
  pub blocked : ℕ

abbrev pub action : Signals → ℕ → Sigaction
action s signr = get_or s.sigaction (signr - 1) no_action

unfoldable pub set_action : ℕ → Sigaction → Signals → Signals
set_action signr sa s = record s { sigaction = set s.sigaction (signr - 1) sa }

abbrev pub sa_nomask : ℕ
sa_nomask = 0x40000000

abbrev pub sa_oneshot : ℕ
sa_oneshot = 0x80000000

-- `sa_flags & SA_NOMASK` and `sa_flags & SA_ONESHOT`
abbrev pub is_nomask : Sigaction → Bool
is_nomask sa = sa.sa_flags / 2 ^ 30 % 2 == 1

abbrev pub is_oneshot : Sigaction → Bool
is_oneshot sa = sa.sa_flags / 2 ^ 31 % 2 == 1

pub sys_sgetmask : Signals → Ret × Signals
sys_sgetmask s = (ret s.blocked, s)

pub sys_ssetmask : ℕ → Signals → Ret × Signals
sys_ssetmask newmask s =
    (ret s.blocked, record s { blocked = bit_and newmask (not32 (shl1 (sigkill - 1))) })

-- `signum<1 || signum>32 || signum==SIGKILL`
abbrev pub bad_signum : ℕ → Bool
bad_signum signum = slt signum 1 || slt 32 signum || signum == sigkill

pub sys_signal : ℕ → ℕ → ℕ → Signals → Ret × Signals
unfolding set_action
sys_signal signum handler restorer s =
    let tmp : Sigaction = record {
      sa_handler = handler;
      sa_mask = 0;
      sa_flags = sa_oneshot + sa_nomask;
      sa_restorer = restorer;
    } in
    if bad_signum signum
    then (err 1, s)
    else (ret (action s signum).sa_handler, set_action signum tmp s)

-- The old action, which goes to `oldaction` if that is not null, stands in the middle.
pub sys_sigaction : ℕ → Sigaction → Signals → Ret × Option Sigaction × Signals
unfolding set_action
sys_sigaction signum new s =
    let mask = if is_nomask new then 0 else bit_or new.sa_mask (shl1 (signum - 1)) in
    if bad_signum signum
    then (err 1, none, s)
    else (ret 0, some (action s signum), set_action signum (record new { sa_mask = mask }) s)

-- The registers that do_signal saves.
pub record Registers : Type 0 where
  pub eax : ℕ
  pub ecx : ℕ
  pub edx : ℕ
  pub eflags : ℕ
  pub eip : ℕ
  pub esp : ℕ

-- How a signal ends: `frame` is what is written to the user stack from the new `esp` up.
pub data Delivered : Type 0 where
  ignored : Delivered
  exits : ℕ → Delivered
  handled : (s : Signals) (eip esp : ℕ) (frame : List ℕ) → Delivered

pub saved_mask : Sigaction → ℕ → List ℕ
saved_mask sa blocked = if is_nomask sa then [] else blocked ∷ []

pub do_signal : ℕ → Registers → Signals → Delivered
unfolding set_action saved_mask
do_signal signr r s =
    let sa = action s signr in
    let longs : ℕ = if is_nomask sa then 7 else 8 in
    let s₁ = if is_oneshot sa then set_action signr (record sa { sa_handler = 0 }) s else s in
    if sa.sa_handler == 1
    then ignored
    else if sa.sa_handler == 0
    then (if signr == sigchld then ignored else exits (shl1 (signr - 1)))
    else handled (record s₁ { blocked = bit_or s.blocked sa.sa_mask }) sa.sa_handler
        (sub32 r.esp (longs * 4))
        (sa.sa_restorer
          ∷ signr
          ∷ (saved_mask sa s.blocked ++ (r.eax ∷ r.ecx ∷ r.edx ∷ r.eflags ∷ r.eip ∷ [])))

-- `p->signal |= (1<<(sig-1))`
abbrev pub raise : ℕ → Task → Task
raise sig p = record p { signal = bit_or p.signal (shl1 (sig - 1)) }

unfoldable pub send_sig : Task → ℕ → Bool → Option Task → Ret × Option Task
send_sig current sig priv none = (err einval, none)
send_sig current sig priv (some p) =
    if slt sig 1 || slt 32 sig
    then (err einval, some p)
    else if priv || current.euid == p.euid || suser current
    then (ret 0, some (raise sig p))
    else (err eperm, some p)

-- `if (err=send_sig(...)) retval = err;`
abbrev pub keep_error : Ret → Ret → Ret
keep_error (ret k) retval = retval
keep_error (err e) retval = err e

-- A round of a loop of sys_kill, for the tasks that its condition selects.
pub kill_slot : Task → ℕ → Bool → (Task → Bool) → Ret → Option Task → Ret × Option Task
unfolding send_sig
kill_slot current sig priv selects retval none = (retval, none)
kill_slot current sig priv selects retval (some p) =
    let (r, slot) = send_sig current sig priv (some p) in
    if selects p then (keep_error r retval, slot) else (retval, some p)

-- A loop over the tasks from `n` down to 1.
pub kill_each : Task → ℕ → Bool → (Task → Bool) → ℕ → Ret → Tasks → Ret × Tasks
unfolding kill_slot
kill_each current sig priv selects zero retval tasks = (retval, tasks)
kill_each current sig priv selects (suc n) retval tasks =
    let (retval', slot) = kill_slot current sig priv selects retval (task_at tasks (suc n)) in
    kill_each current sig priv selects n retval' (set tasks (suc n) slot)

-- The loop for -1. Its `else` belongs to the test of send_sig: after the first task that gets the
-- signal, the loop over the process group takes the rest of the tasks.
pub kill_all : Task → ℕ → ℕ → ℕ → Ret → Tasks → Ret × Tasks
unfolding send_sig kill_each
kill_all current pid sig zero retval tasks = (retval, tasks)
kill_all current pid sig (suc n) retval tasks =
    let (r, slot') = send_sig current sig false (task_at tasks (suc n)) in
    let group =
      kill_each current sig false (λ p. p.pgrp == sub32 0 pid) n retval (set tasks (suc n) slot') in
    let others = kill_all current pid sig n r tasks in elim r [ ret k ↦ group | err e ↦ others ]

-- For the same reason no loop runs for a process number below -1.
pub sys_kill : Task → ℕ → ℕ → Tasks → Ret × Tasks
unfolding kill_each kill_all
sys_kill current pid sig tasks =
    if pid == 0
    then kill_each current sig true (λ p. p.pgrp == current.pid) (nr_tasks - 1) (ret 0) tasks
    else if slt 0 pid
    then kill_each current sig false (λ p. p.pid == pid) (nr_tasks - 1) (ret 0) tasks
    else if pid == 0xffffffff
    then kill_all current pid sig (nr_tasks - 1) (ret 0) tasks
    else (ret 0, tasks)
