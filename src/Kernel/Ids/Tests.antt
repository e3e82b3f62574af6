-- ===== src/Kernel/Ids/Tests.antt =====
-- Tests of the calls on identifiers: a user's process and its child.
use linux.Common.{◌≡◌, refl, ◌⊎◌, true, false, some, none, [], ◌∷◌, arith}
use linux.Common.Errno.{ret, err, eperm}
use linux.Kernel.Task.{Task, running}
use linux.Kernel.Ids.{sys_setreuid, sys_setpgid}
use linux.Kernel.Ids.Users.{AreShort, sys_setreuid-confined}
use linux.Kernel.Ids.Groups.{Regrouped, sys_setpgid-Regrouped}

abbrev user : Task
user = record {
  state = running;
  counter = 15;
  priority = 15;
  signal = 0;
  blocked = 0;
  pid = 7;
  pgrp = 7;
  session = 7;
  leader = true;
  uid = 100;
  euid = 200;
  gid = 10;
  egid = 20;
  sgid = 30;
  alarm = 0;
  tty = some 1;
  umask = 0o22;
  father = 0;
  exit_code = 0;
  utime = 0;
  stime = 0;
  cutime = 0;
  cstime = 0;
}

abbrev child : Task
child = record user { pid = 8; leader = false }

user-AreShort : AreShort user
user-AreShort = record {
  uid = omega arith;
  euid = omega arith;
  gid = omega arith;
  egid = omega arith;
  sgid = omega arith;
}

sys_setreuid-confined_example :
    let (r, t') = sys_setreuid 200 100 user in
    ((t'.uid ≡ user.uid) ⊎ (t'.uid ≡ user.euid))
    × ((t'.euid ≡ user.uid) ⊎ (t'.euid ≡ user.euid))
    × (t' ≡ record user { uid = t'.uid; euid = t'.euid })
    × ((r ≡ ret 0) ⊎ ((r ≡ err eperm) × (t'.uid ≡ user.uid) × (t'.euid ≡ user.euid)))
sys_setreuid-confined_example = sys_setreuid-confined user 200 100 user-AreShort (omega arith)

sys_setpgid-Regrouped_example :
    let (r, tasks') = sys_setpgid user 8 0 (none ∷ some user ∷ some child ∷ []) in
    Regrouped 7 8 7 (none ∷ some user ∷ some child ∷ []) r tasks'
sys_setpgid-Regrouped_example = sys_setpgid-Regrouped user 8 0 (none ∷ some user ∷ some child ∷ [])

-- The two user identifiers change places.
swap : sys_setreuid 200 100 user ≡ (ret 0, record user { uid = 200; euid = 100 })
unfolding sys_setreuid
swap = refl
