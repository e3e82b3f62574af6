-- ===== src/Fs/Files/Close.antt =====
-- sys_close: the descriptor goes, and the inode with the last reference to its file.
use linux.Common.{
  ℕ, ◌+◌, ◌≤◌, ◌<◌, ◌≡◌, refl, ◌≢◌, ◌⊎◌, true, false, none, some, ◌∷◌, arith, ◌==◌, if◌then◌else◌,
  Bool-cases, Option-cases, inl, inr, sym, get_or, set, leb, get_or-set_self, get_or-set_ne,
}
use linux.Common.Errno.{ret, err, einval}
use linux.Fs.Files.{
  Files, returns, file, file_at, set_file, set_filp, keep_on_exec, nr_open, nr_file, less_count,
  drop_file, sys_close,
}
use linux.Fs.Files.Counts.{
  IsCounted, count_refs, remove-IsCounted, count-pos, exec-IsCounted, iput-IsCounted, file-set_file,
}

-- Descriptor `fd` named file `i` and is closed.
pub record Closed (others : ℕ → ℕ) (fd i : ℕ) (s s' : Files) : Type 0 where
  pub counted : IsCounted others s'
  pub gone : file_at s' fd ≡ none
  pub rest : (k : ℕ) → k ≢ fd → file_at s' k ≡ file_at s k
  pub last :
      s'.iputs
      ≡ (if count_refs i s'.filp + others i == 0 then (file s i).f_inode ∷ s.iputs else s.iputs)

module _ {others : ℕ → ℕ} {s : Files} (v : IsCounted others s) (fd i : ℕ) (hf : fd < nr_open)
    (named : file_at s fd ≡ some i) where
  drop_file-Closed :
      (s' : Files) × (drop_file fd i s ≡ returns (ret 0) s') × Closed others fd i s s'
  unfolding drop_file
  drop_file-Closed =
      let s₂ = set_file i (less_count (file s i)) (set_filp fd none s) in
      let counted = remove-IsCounted v i fd hf named in
      let pos : ((file s i).f_count == 0) ≡ false = ground (arith, count-pos v i fd named) in
      let hi : i < nr_file = v.named fd i named in
      let self : (i == i) ≡ true = ground arith in
      let read =
        rw self at (
          file-set_file (set_filp fd none s) i i (less_count (file s i))
            (omega (arith, v.files))) in
      let total : (less_count (file s i)).f_count ≡ count_refs i (set s.filp fd none) + others i =
        rw read at (counted.counts i hi) in
      let gone : get_or (set s.filp fd none) fd none ≡ none =
        get_or-set_self s.filp fd none none (omega (arith, v.slots)) in
      elim (Bool-cases ((less_count (file s i)).f_count == 0)) [
        | inl last ↦ (
          record s₂ { iputs = (file s i).f_inode ∷ s.iputs },
          rw pos (rw last refl),
          record {
            counted = iput-IsCounted counted _;
            gone = gone;
            rest = λ k ne. get_or-set_ne s.filp {i = fd} {j = k} none none (λ e. ne (sym e));
            last = ground arith;
          },
        )
        | inr others_left ↦ (
          s₂,
          rw pos (rw others_left refl),
          record {
            counted = counted;
            gone = gone;
            rest = λ k ne. get_or-set_ne s.filp {i = fd} {j = k} none none (λ e. ne (sym e));
            last = ground arith;
          },
        )
      ]

-- With correct reference counts sys_close never panics and keeps them correct. An open descriptor is
-- closed with return 0, the others stay, and the inode is put exactly when no descriptor of any process
-- is left for the file; a descriptor that is out of range or not open gives -EINVAL, and the
-- descriptors, the files and the inodes stay as they are.
pub sys_close_lem :
    {others : ℕ → ℕ} {s : Files} (fd : ℕ)
    → IsCounted others s
    → ((i : ℕ) × (s' : Files) × (file_at s fd ≡ some i)
        × (sys_close fd s ≡ returns (ret 0) s')
        × Closed others fd i s s')
      ⊎ ((s' : Files) × (sys_close fd s ≡ returns (err einval) s')
          × ((nr_open ≤ fd) ⊎ (file_at s fd ≡ none))
          × (s'.filp ≡ s.filp)
          × (s'.file_table ≡ s.file_table)
          × (s'.iputs ≡ s.iputs))
unfolding sys_close
sys_close_lem {others} {s} fd v = elim (Bool-cases (leb nr_open fd)) [
  | inl far ↦ inr (s, rw far refl, inl (ground arith), refl, refl, refl)
  | inr near ↦ elim (Option-cases (file_at s fd)) [
    | inl closed ↦
        inr (keep_on_exec fd s, rw (sys_close, near, closed) refl, inr closed, refl, refl, refl)
    | inr (i, open_file) ↦
        let s₁ = keep_on_exec fd s in
        let (s', e, done) =
          drop_file-Closed (exec-IsCounted v s₁.close_on_exec) fd i (ground arith) open_file in
        inl (
          i,
          s',
          open_file,
          rw (sys_close, near, open_file) e,
          record { counted = done.counted; gone = done.gone; rest = done.rest; last = done.last },
        )
  ]
]
