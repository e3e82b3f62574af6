-- ===== src/Kernel/Ids.antt =====
-- kernel/sys.c: user and group identifiers, process groups and sessions, and the file creation mask.
pub mod Users
pub mod Groups
mod Tests
use linux.Common.{
  ℕ, zero, suc, ◌%◌, ◌^◌, bit_and, Bool, true, false, Option, none, some, List, [], ◌∷◌, not, ◌&&◌,
  ◌||◌, ◌==◌, if◌then◌else◌, get_or, set,
}
use linux.Common.Word.{slt}
use linux.Common.Errno.{Ret, ret, err, eperm, esrch}
use linux.Kernel.Task.{Task, Tasks, task_at}

-- `suser()`
abbrev pub suser : Task → Bool
suser t = t.euid == 0

-- An `int` argument is a 32-bit word; the identifiers are unsigned shorts, so a store truncates.
abbrev pub ushort : ℕ → ℕ
ushort w = w % 2 ^ 16

-- The second part of sys_setreuid, for the process `t₀` whose real identifier may have been set.
pub set_euid : ℕ → Task → Task → Ret × Task
set_euid euid t₀ t =
    if slt 0 euid
    then (if t₀.uid == euid || t.euid == euid || suser t
        then (ret 0, record t { euid = ushort euid })
        else (err eperm, record t { uid = t₀.uid }))
    else (ret 0, t)

pub sys_setreuid : ℕ → ℕ → Task → Ret × Task
unfolding set_euid
sys_setreuid ruid euid t =
    if slt 0 ruid
    then (if t.euid == ruid || t.uid == ruid || suser t
        then set_euid euid t (record t { uid = ushort ruid })
        else (err eperm, t))
    else set_euid euid t t

pub sys_setuid : ℕ → Task → Ret × Task
unfolding sys_setreuid
sys_setuid uid t = sys_setreuid uid uid t

pub set_egid : ℕ → Task → Ret × Task
set_egid egid t =
    if slt 0 egid
    then (if t.gid == egid || t.egid == egid || t.sgid == egid || suser t
        then (ret 0, record t { egid = ushort egid })
        else (err eperm, t))
    else (ret 0, t)

pub sys_setregid : ℕ → ℕ → Task → Ret × Task
unfolding set_egid
sys_setregid rgid egid t =
    if slt 0 rgid
    then (if t.gid == rgid || suser t
        then set_egid egid (record t { gid = ushort rgid })
        else (err eperm, t))
    else set_egid egid t

pub sys_setgid : ℕ → Task → Ret × Task
unfolding sys_setregid
sys_setgid gid t = sys_setregid gid gid t

-- The loop of sys_setpgid over the tasks, for a caller of session `session`.
pub setpgid_loop : ℕ → ℕ → ℕ → Tasks → Ret × Tasks
setpgid_loop session pid pgid [] = (err esrch, [])
setpgid_loop session pid pgid (none ∷ tasks) =
    let (r, rest) = setpgid_loop session pid pgid tasks in (r, none ∷ rest)
setpgid_loop session pid pgid (some t ∷ tasks) =
    let (r, rest) = setpgid_loop session pid pgid tasks in
    if not (t.pid == pid)
    then (r, some t ∷ rest)
    else if t.leader
    then (err eperm, some t ∷ tasks)
    else if not (t.session == session)
    then (err eperm, some t ∷ tasks)
    else (ret 0, some (record t { pgrp = pgid }) ∷ tasks)

pub sys_setpgid : Task → ℕ → ℕ → Tasks → Ret × Tasks
unfolding setpgid_loop
sys_setpgid current pid pgid tasks =
    setpgid_loop current.session (if pid == 0 then current.pid else pid)
      (if pgid == 0 then current.pid else pgid) tasks

pub sys_setsid : Task → Ret × Task
sys_setsid t =
    if t.leader && not (suser t)
    then (err eperm, t)
    else (ret t.pid, record t { leader = true; session = t.pid; pgrp = t.pid; tty = none })

-- `mask & 0777`
pub sys_umask : ℕ → Task → Ret × Task
sys_umask mask t = (ret t.umask, record t { umask = bit_and mask 0o777 })
