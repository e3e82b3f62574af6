-- ===== src/Kernel/Ids/Users.antt =====
-- What the calls that set user and group identifiers let a process become.
use linux.Common.{ℕ, ◌^◌, ◌<◌, ◌≡◌, ◌≢◌, ◌⊎◌, arith}
use linux.Common.Errno.{ret, err, eperm}
use linux.Kernel.Task.{Task}
use linux.Kernel.Ids.{sys_setreuid, sys_setregid}

-- The identifiers are unsigned shorts.
pub record AreShort (t : Task) : Type 0 where
  pub uid : t.uid < 2 ^ 16
  pub euid : t.euid < 2 ^ 16
  pub gid : t.gid < 2 ^ 16
  pub egid : t.egid < 2 ^ 16
  pub sgid : t.sgid < 2 ^ 16

-- A process that is not privileged comes out of sys_setreuid with user identifiers that it had, real or
-- effective; an error is -EPERM and changes nothing; nothing else ever changes.
pub sys_setreuid-confined :
    (t : Task) (ruid euid : ℕ)
    → AreShort t
    → t.euid ≢ 0
    → let (r, t') = sys_setreuid ruid euid t in
      ((t'.uid ≡ t.uid) ⊎ (t'.uid ≡ t.euid))
      × ((t'.euid ≡ t.uid) ⊎ (t'.euid ≡ t.euid))
      × (t' ≡ record t { uid = t'.uid; euid = t'.euid })
      × ((r ≡ ret 0) ⊎ ((r ≡ err eperm) × (t'.uid ≡ t.uid) × (t'.euid ≡ t.euid)))
unfolding sys_setreuid
sys_setreuid-confined t ruid euid s user = ground arith

-- A process that is not privileged keeps its group identifier, and its effective one comes out of
-- sys_setregid as one of its real, effective and saved ones; an error is -EPERM and changes nothing;
-- nothing else ever changes.
pub sys_setregid-confined :
    (t : Task) (rgid egid : ℕ)
    → AreShort t
    → t.euid ≢ 0
    → let (r, t') = sys_setregid rgid egid t in
      ((t'.egid ≡ t.gid) ⊎ (t'.egid ≡ t.egid) ⊎ (t'.egid ≡ t.sgid))
      × (t' ≡ record t { egid = t'.egid })
      × ((r ≡ ret 0) ⊎ ((r ≡ err eperm) × (t' ≡ t)))
unfolding sys_setregid
sys_setregid-confined t rgid egid s user = ground arith
