-- ===== src/Fs/Files/Tests.antt =====
-- Tests of the descriptor calls: one descriptor, which another process shares.
use linux.Common.{
  ℕ, zero, suc, ◌+◌, ◌<◌, ◌≤◌, ◌≡◌, refl, ◌⊎◌, true, false, Option, some, none, [], ◌∷◌, arith,
  ◌==◌, if◌then◌else◌, replicate, get_or-replicate, get_or-replicate_self,
}
use linux.Common.Errno.{ret, err, einval, ebadf, emfile}
use linux.Fs.Files.{
  File, Files, returns, nr_open, nr_file, no_file, file, file_at, is_some, sys_close, dupfd,
}
use linux.Fs.Files.Counts.{IsCounted, count_refs}
use linux.Fs.Files.Close.{Closed, sys_close_lem}
use linux.Fs.Files.Dup.{Shared, dupfd_lem}
use linux.Fs.Files.Seek.{sys_lseek, Inode, Sought, Refused, sys_lseek_lem}

abbrev tty : File
tty = record { f_mode = 3; f_flags = 0; f_count = 2; f_inode = some 4; f_pos = 10 }

abbrev files : Files
files = record {
  file_table = tty ∷ replicate 63 no_file;
  filp = some 0 ∷ replicate 19 none;
  close_on_exec = 1;
  iputs = [];
}

-- The other process holds one descriptor for the first file.
abbrev others : ℕ → ℕ
others i = if i == 0 then 1 else 0

files-counts : (i : ℕ) → i < nr_file → (file files i).f_count ≡ count_refs i files.filp + others i
unfolding count_refs
files-counts zero h = refl
files-counts (suc i) h = rw (get_or-replicate 63 no_file i no_file (omega arith)) (ground arith)

files-named : (fd i : ℕ) → file_at files fd ≡ some i → i < nr_file
files-named zero i e = omega (arith, index e)
  where
    index : some 0 ≡ some i → 0 ≡ i
    index p = cc
files-named (suc fd) i e =
    absurd (apart (rw (get_or-replicate_self {A = Option ℕ} 19 none fd) at e))
  where
    apart : none ≡ some i → ⊥
    apart p = cc

files-IsCounted : IsCounted others files
files-IsCounted = record {
  slots = refl;
  files = refl;
  counts = files-counts;
  named = files-named;
  small = λ i. ground arith;
}

sys_close_lem_example :
    ((i : ℕ) × (s' : Files) × (file_at files 0 ≡ some i)
      × (sys_close 0 files ≡ returns (ret 0) s')
      × Closed others 0 i files s')
    ⊎ ((s' : Files) × (sys_close 0 files ≡ returns (err einval) s')
        × ((nr_open ≤ 0) ⊎ (file_at files 0 ≡ none))
        × (s'.filp ≡ files.filp)
        × (s'.file_table ≡ files.file_table)
        × (s'.iputs ≡ files.iputs))
sys_close_lem_example = sys_close_lem 0 files-IsCounted

abbrev inodes : ℕ → Inode
inodes n = record { i_dev = 0x301; i_pipe = false; i_size = 100 }

sys_lseek_lem_example :
    ((pos : ℕ) × (s' : Files) × (sys_lseek inodes 0 5 2 files ≡ (ret pos, s'))
      × Sought inodes 0 5 2 pos files s')
    ⊎ ((e : ℕ) × (sys_lseek inodes 0 5 2 files ≡ (err e, files)) × Refused inodes 0 5 2 files e)
sys_lseek_lem_example = sys_lseek_lem inodes 0 5 2 files

dupfd_lem_example :
    ((i slot : ℕ) × (s' : Files) × (file_at files 0 ≡ some i)
      × (dupfd 0 3 files ≡ (ret slot, s'))
      × Shared others 3 i slot files s')
    ⊎ ((dupfd 0 3 files ≡ (err emfile, files))
        × ((k : ℕ) → 3 ≤ k → k < nr_open → is_some (file_at files k) ≡ true))
    ⊎ ((dupfd 0 3 files ≡ (err einval, files)) × (nr_open ≤ 3))
    ⊎ ((dupfd 0 3 files ≡ (err ebadf, files)) × ((nr_open ≤ 0) ⊎ (file_at files 0 ≡ none)))
dupfd_lem_example = dupfd_lem 0 3 files-IsCounted
