-- ===== src/Fs/Files/PipeEnds.antt =====
-- sys_pipe of fs/pipe.c: two files and two descriptors, or nothing.
use linux.Common.{
  ℕ, zero, suc, ◌+◌, ◌-◌, Option, none, some, List, [], ◌∷◌, ◌==◌, if◌then◌else◌, get_or, leb,
}
use linux.Common.Errno.{Ret, ret, err}
use linux.Fs.Files.{
  File, no_file, Files, file, set_file, set_filp, nr_open, nr_file, more_count, next_slot,
}

-- The search for a free file, `n` files of the table being left; NR_FILE if there is none.
unfoldable pub next_file : ℕ → List File → ℕ → ℕ
next_file zero table i = i
next_file (suc n) table i =
    let rest = next_file n table (i + 1) in
    if (get_or table i no_file).f_count == 0 then i else rest

-- `f_count++` and `f_count=0`
unfoldable pub claim_file : ℕ → Files → Files
unfolding set_file
claim_file i s = set_file i (more_count (file s i)) s

unfoldable pub unclaim_file : ℕ → Files → Files
unfolding set_file
unclaim_file i s = set_file i (record (file s i) { f_count = 0 }) s

-- An end of the pipe on `inode`.
unfoldable pub set_end : ℕ → ℕ → ℕ → Files → Files
unfolding set_file
set_end i mode inode s =
    set_file i (record (file s i) { f_inode = some inode; f_pos = 0; f_mode = mode }) s

-- With both files claimed: the descriptors, then the inode that get_pipe_inode has returned. The list
-- holds the words that are stored at `fildes`.
pub pipe_fds : Option ℕ → ℕ → ℕ → Files → Ret × List ℕ × Files
unfolding next_slot set_filp unclaim_file set_end
pipe_fds inode a b s =
    let c = next_slot nr_open s.filp 0 in
    let s₁ = set_filp c (some a) s in
    let d = next_slot (nr_open - (c + 1)) s₁.filp (c + 1) in
    let s₂ = set_filp d (some b) s₁ in
    if leb nr_open c
    then (err 1, [], unclaim_file b (unclaim_file a s))
    else if leb nr_open d
    then (err 1, [], unclaim_file b (unclaim_file a (set_filp c none s₁)))
    else elim inode [
      | none ↦ (err 1, [], unclaim_file b (unclaim_file a (set_filp c none (set_filp d none s₂))))
      | some n ↦ (ret 0, c ∷ d ∷ [], set_end b 2 n (set_end a 1 n s₂))
    ]

pub sys_pipe : Option ℕ → Files → Ret × List ℕ × Files
unfolding next_file claim_file unclaim_file pipe_fds
sys_pipe inode s =
    let a = next_file nr_file s.file_table 0 in
    let s₁ = claim_file a s in
    let b = next_file (nr_file - (a + 1)) s₁.file_table (a + 1) in
    if leb nr_file a
    then (err 1, [], s)
    else if leb nr_file b
    then (err 1, [], unclaim_file a s₁)
    else pipe_fds inode a b (claim_file b s₁)
