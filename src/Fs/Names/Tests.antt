-- ===== src/Fs/Names/Tests.antt =====
-- Tests of path names: a tree with the directory /etc and the file /etc/rc.
use linux.Common.{
  ℕ, ◌+◌, ◌≡◌, ◌↔◌, ◌⊎◌, refl, true, false, not, ◌&&◌, none, some, List, [], ◌∷◌, ◌==◌,
  if◌then◌else◌, arith, replicate,
}
use linux.Kernel.Task.{Task}
use linux.Kernel.Ids.{suser}
use linux.Kernel.Exit.Tests.{init}
use linux.Fs.Dirs.{DirEntry, Dir, no_entry, search}
use linux.Fs.Names.{InodeInfo, InodeTable, Walker, found, permission, namei}
use linux.Fs.Names.Access.{Grants, shift_for, permission_iff}
use linux.Fs.Names.Walk.{resolve, namei-resolve}

abbrev dir_of : List DirEntry → Dir
dir_of b = record { i_size = 1024; block = λ k. if k == 0 then some b else none }

abbrev root_dir : Dir
root_dir =
    dir_of (record { inode = 7; name = 101 ∷ 116 ∷ 99 ∷ replicate 11 0 } ∷ replicate 63 no_entry)

abbrev etc_dir : Dir
etc_dir = dir_of (record { inode = 9; name = 114 ∷ 99 ∷ replicate 12 0 } ∷ replicate 63 no_entry)

-- Mode 755, a directory but for number 9.
abbrev inode_of : ℕ → InodeInfo
inode_of n = record {
  i_dev = 0x301;
  i_num = n;
  i_mode = (if n == 9 then 0o100000 else 0o40000) + 0o755;
  i_uid = 0;
  i_gid = 0;
  i_nlinks = 1;
  i_count = 1;
  dir = if n == 1 then root_dir else etc_dir;
}

-- A table that never changes and names an inode by its number.
abbrev table : InodeTable
table = record {
  State = Unit {0};
  inode = λ s. inode_of;
  iget = λ dev nr s. (some nr, s);
  iput = λ i s. s;
  hold = λ i s. s;
  touch = λ i s. s;
  mounted_on = λ s dev. none;
}

abbrev user : Task
user = record init { euid = 5; egid = 5 }

abbrev walker : Walker table
walker = record { current = user; root = some 1; pwd = some 1 }

-- "/etc/rc"
abbrev rc : List ℕ
rc = 47 ∷ 101 ∷ 116 ∷ 99 ∷ 47 ∷ 114 ∷ 99 ∷ []

rc_found : namei walker rc tt ≡ found 9 tt
unfolding namei search
rc_found = refl

namei-resolve_example : namei walker rc tt ≡ resolve walker rc tt
namei-resolve_example = namei-resolve walker rc tt

permission_iff_example : (permission user (inode_of 7) 5 ≡ true) ↔ (
    ((not ((inode_of 7).i_dev == 0) && (inode_of 7).i_nlinks == 0) ≡ false)
    × ((suser user ≡ true) ⊎ Grants (inode_of 7).i_mode (shift_for user (inode_of 7)) 5))
permission_iff_example = permission_iff user (inode_of 7) 5 (omega arith) (omega arith)
