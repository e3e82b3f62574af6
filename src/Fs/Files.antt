-- ===== src/Fs/Files.antt =====
-- The open files of a process: dupfd, sys_dup, sys_dup2 and sys_fcntl of fs/fcntl.c, sys_close of
-- fs/open.c, sys_lseek of fs/read_write.c and sys_pipe of fs/pipe.c.
pub mod Counts
pub mod Dup
pub mod Close
pub mod Control
pub mod Seek
pub mod PipeEnds
mod Tests
use linux.Common.{
  ℕ, zero, suc, ◌+◌, ◌-◌, ◌*◌, ◌/◌, ◌%◌, ◌^◌, bit_and, bit_or, Bool, true, false, Option, none,
  some, List, [], ◌∷◌, not, ◌&&◌, ◌||◌, ltb, leb, ◌==◌, if◌then◌else◌, length, get_elem?, get_or,
  set,
}
use linux.Common.Bits.{shl1, not32}
use linux.Common.Errno.{Ret, ret, err, ebadf, einval, emfile, espipe}

abbrev pub nr_open : ℕ
nr_open = 20

abbrev pub nr_file : ℕ
nr_file = 64

-- `struct file`; an inode is named by its index in `inode_table`, and a null pointer is `none`.
pub record File : Type 0 where
  pub f_mode : ℕ
  pub f_flags : ℕ
  pub f_count : ℕ
  pub f_inode : Option ℕ
  pub f_pos : ℕ

abbrev pub no_file : File
no_file = record { f_mode = 0; f_flags = 0; f_count = 0; f_inode = none; f_pos = 0 }

-- `current->filp` holds indices of `file_table`. `iputs` lists the inodes that have been given to
-- `iput`, newest first.
pub record Files : Type 0 where
  pub file_table : List File
  pub filp : List (Option ℕ)
  pub close_on_exec : ℕ
  pub iputs : List (Option ℕ)

-- What a call that may panic ends in.
pub data Call : Type 0 where
  returns : Ret → Files → Call
  panic : Call

abbrev pub is_some {ℓ} : {A : Type ℓ} → Option A → Bool
is_some none = false
is_some (some x) = true

-- `current->filp[fd]`
abbrev pub file_at : Files → ℕ → Option ℕ
file_at s fd = get_or s.filp fd none

abbrev pub file : Files → ℕ → File
file s i = get_or s.file_table i no_file

unfoldable pub set_file : ℕ → File → Files → Files
set_file i f s = record s { file_table = set s.file_table i f }

unfoldable pub set_filp : ℕ → Option ℕ → Files → Files
set_filp fd v s = record s { filp = set s.filp fd v }

-- `current->close_on_exec &= ~(1<<fd)`
unfoldable pub keep_on_exec : ℕ → Files → Files
keep_on_exec fd s = record s { close_on_exec = bit_and s.close_on_exec (not32 (shl1 fd)) }

-- The `while` loop of dupfd: the first free slot from `arg` on, or NR_OPEN; `n` slots are left.
unfoldable pub next_slot : ℕ → List (Option ℕ) → ℕ → ℕ
next_slot zero filp arg = arg
next_slot (suc n) filp arg =
    let rest = next_slot n filp (arg + 1) in if is_some (get_or filp arg none) then rest else arg

-- `f_count++` and `f_count--` on an unsigned short.
abbrev pub more_count : File → File
more_count f = record f { f_count = (f.f_count + 1) % 2 ^ 16 }

abbrev pub less_count : File → File
less_count f = record f { f_count = (f.f_count + 2 ^ 16 - 1) % 2 ^ 16 }

-- The step that dupfd ends with, at the slot that it has found.
pub share_file : ℕ → ℕ → Files → Files
unfolding keep_on_exec set_filp set_file
share_file i slot s =
    let s₁ = keep_on_exec slot s in
    let s₂ = set_filp slot (some i) s₁ in set_file i (more_count (file s₂ i)) s₂

pub dupfd : ℕ → ℕ → Files → Ret × Files
unfolding next_slot share_file
dupfd fd arg s = elim (if leb nr_open fd then none else file_at s fd) [
  | none ↦ (err ebadf, s)
  | some i ↦
      let slot = next_slot (nr_open - arg) s.filp arg in
      if leb nr_open arg
      then (err einval, s)
      else if leb nr_open slot
      then (err emfile, s)
      else (ret slot, share_file i slot s)
]

pub sys_dup : ℕ → Files → Ret × Files
unfolding dupfd
sys_dup fildes s = dupfd fildes 0 s

-- From the line that has found the file on.
pub drop_file : ℕ → ℕ → Files → Call
unfolding set_filp set_file
drop_file fd i s =
    let s₁ = set_filp fd none s in
    let f = less_count (file s₁ i) in
    let s₂ = set_file i f s₁ in
    if (file s i).f_count == 0
    then panic
    else if f.f_count == 0
    then returns (ret 0) (record s₂ { iputs = f.f_inode ∷ s₂.iputs })
    else returns (ret 0) s₂

unfoldable pub sys_close : ℕ → Files → Call
unfolding keep_on_exec drop_file
sys_close fd s =
    let s₁ = keep_on_exec fd s in
    if leb nr_open fd
    then returns (err einval) s
    else elim (file_at s fd) [ none ↦ returns (err einval) s₁ | some i ↦ drop_file fd i s₁ ]

-- What sys_close returns is not looked at.
pub sys_dup2 : ℕ → ℕ → Files → Call
unfolding sys_close dupfd
sys_dup2 oldfd newfd s = elim (sys_close newfd s) [
  | panic ↦ panic
  | returns r s₁ ↦ let (r', s₂) = dupfd oldfd newfd s₁ in returns r' s₂
]
