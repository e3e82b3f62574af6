-- ===== src/Fs/Files/Seek.antt =====
-- sys_lseek of fs/read_write.c.
use linux.Common.{
  ℕ, zero, suc, ◌+◌, ◌/◌, ◌%◌, ◌^◌, ◌≤◌, ◌<◌, ◌≡◌, refl, ◌⊎◌, Bool, true, false, not, Option, none,
  some, arith, ◌==◌, if◌then◌else◌, Bool-cases, Option-cases, inl, inr, ◌∙◌, subst, leb, ◌&&◌,
}
use linux.Common.Word.{add32, is_neg}
use linux.Common.Errno.{Ret, ret, err, ebadf, einval, espipe}
use linux.Fs.Files.{Files, file, file_at, set_file, nr_open}

-- The fields of an inode that sys_lseek reads.
pub record Inode : Type 0 where
  pub i_dev : ℕ
  pub i_pipe : Bool
  pub i_size : ℕ

-- `IS_SEEKABLE(MAJOR(dev))`
abbrev pub is_seekable : ℕ → Bool
is_seekable dev = leb 1 (dev / 256) && leb (dev / 256) 3

pub set_pos : ℕ → ℕ → Files → Files
unfolding set_file
set_pos i pos s = set_file i (record (file s i) { f_pos = pos }) s

-- From the point where the new position is known; positions are 32-bit words.
pub seek_to : ℕ → ℕ → Files → Ret × Files
unfolding set_pos
seek_to i pos s = if is_neg pos then (err einval, s) else (ret pos, set_pos i pos s)

abbrev pub seek_base : ℕ → ℕ → ℕ → Option ℕ
seek_base origin f_pos i_size =
    if origin == 0
    then some 0
    else if origin == 1
    then some f_pos
    else if origin == 2
    then some i_size
    else none

-- `inode_table` gives the inode that an index stands for.
pub sys_lseek : (ℕ → Inode) → ℕ → ℕ → ℕ → Files → Ret × Files
sys_lseek inode_table fd offset origin s = elim (if leb nr_open fd then none else file_at s fd) [
  | none ↦ (err ebadf, s)
  | some i ↦ elim ((file s i).f_inode) [
    | none ↦ (err ebadf, s)
    | some n ↦
        let inode = inode_table n in
        if not (is_seekable inode.i_dev)
        then (err ebadf, s)
        else if inode.i_pipe
        then (err espipe, s)
        else elim (seek_base origin (file s i).f_pos inode.i_size) [
          | none ↦ (err einval, s)
          | some base ↦ seek_to i (add32 base offset) s
        ]
  ]
]

-- Where a seek with `origin` counts from: the start of the file, the position, or the size.
pub data IsBase (f_pos i_size : ℕ) : ℕ → ℕ → Type 0 where
  from_start : IsBase f_pos i_size 0 0
  from_pos : IsBase f_pos i_size 1 f_pos
  from_end : IsBase f_pos i_size 2 i_size

-- The descriptor is open, on the file `i` that has the inode `n`.
pub record IsOpen (fd i n : ℕ) (s : Files) : Type 0 where
  pub in_table : fd < nr_open
  pub named : file_at s fd ≡ some i
  pub has_inode : (file s i).f_inode ≡ some n

-- A file that can be sought: on the memory, floppy or hard disk, of major number 1 to 3, and no pipe.
pub record CanSeek (inode : Inode) : Type 0 where
  pub major : (1 ≤ inode.i_dev / 256) × (inode.i_dev / 256 ≤ 3)
  pub no_pipe : inode.i_pipe ≡ false

-- What a seek that succeeds has done: the position is the base of its origin plus the offset, as a word
-- that is not negative, it is returned and stored, and every other part of the state is as before.
pub record Sought (inode_table : ℕ → Inode) (fd offset origin pos : ℕ) (s s' : Files) : Type 0 where
  pub file_index : ℕ
  pub inode : ℕ
  pub base : ℕ
  pub open_file : IsOpen fd file_index inode s
  pub can_seek : CanSeek (inode_table inode)
  pub from : IsBase (file s file_index).f_pos (inode_table inode).i_size origin base
  pub moved : pos ≡ (base + offset) % 2 ^ 32
  pub positive : pos < 2 ^ 31
  pub stored : s' ≡ set_pos file_index pos s

-- The causes of each error.
pub data Refused (inode_table : ℕ → Inode) (fd offset origin : ℕ) (s : Files) : ℕ → Type 0 where
  too_large : nr_open ≤ fd → Refused inode_table fd offset origin s ebadf
  closed : file_at s fd ≡ none → Refused inode_table fd offset origin s ebadf
  no_inode :
      {i : ℕ}
      → file_at s fd ≡ some i
      → (file s i).f_inode ≡ none
      → Refused inode_table fd offset origin s ebadf
  not_seekable :
      {i n : ℕ}
      → IsOpen fd i n s
      → ((inode_table n).i_dev / 256 ≡ 0) ⊎ (4 ≤ (inode_table n).i_dev / 256)
      → Refused inode_table fd offset origin s ebadf
  a_pipe :
      {i n : ℕ}
      → IsOpen fd i n s
      → (inode_table n).i_pipe ≡ true
      → Refused inode_table fd offset origin s espipe
  bad_origin :
      {i n : ℕ}
      → IsOpen fd i n s
      → CanSeek (inode_table n)
      → 3 ≤ origin
      → Refused inode_table fd offset origin s einval
  before_start :
      {i n base : ℕ}
      → IsOpen fd i n s
      → CanSeek (inode_table n)
      → IsBase (file s i).f_pos (inode_table n).i_size origin base
      → 2 ^ 31 ≤ (base + offset) % 2 ^ 32
      → Refused inode_table fd offset origin s einval

seek_base-some :
    (origin f_pos i_size : ℕ) {base : ℕ}
    → seek_base origin f_pos i_size ≡ some base
    → IsBase f_pos i_size origin base
seek_base-some zero f_pos i_size e = subst (λ b. IsBase f_pos i_size 0 b) (some_inj e) from_start
  where
    some_inj : {a b : ℕ} → some a ≡ some b → a ≡ b
    some_inj q = cc
seek_base-some (suc zero) f_pos i_size e =
    subst (λ b. IsBase f_pos i_size 1 b) (some_inj e) from_pos
  where
    some_inj : {a b : ℕ} → some a ≡ some b → a ≡ b
    some_inj q = cc
seek_base-some (suc (suc zero)) f_pos i_size e =
    subst (λ b. IsBase f_pos i_size 2 b) (some_inj e) from_end
  where
    some_inj : {a b : ℕ} → some a ≡ some b → a ≡ b
    some_inj q = cc
seek_base-some (suc (suc (suc n))) f_pos i_size {base} e =
    let zeroth : (suc (suc (suc n)) == 0) ≡ false = ground arith in
    let first : (suc (suc (suc n)) == 1) ≡ false = ground arith in
    let second : (suc (suc (suc n)) == 2) ≡ false = ground arith in
    absurd (none_ne_some (rw (zeroth, first, second) at e))
  where
    none_ne_some : none ≡ some base → ⊥
    none_ne_some q = cc

seek_base-none : (origin f_pos i_size : ℕ) → seek_base origin f_pos i_size ≡ none → 3 ≤ origin
seek_base-none zero f_pos i_size e = absurd cc
seek_base-none (suc zero) f_pos i_size e = absurd cc
seek_base-none (suc (suc zero)) f_pos i_size e = absurd cc
seek_base-none (suc (suc (suc origin))) f_pos i_size e = omega arith

seek_to-neg : (i pos : ℕ) (s : Files) → is_neg pos ≡ true → seek_to i pos s ≡ (err einval, s)
unfolding seek_to
seek_to-neg i pos s h = rw h

seek_to-pos :
    (i pos : ℕ) (s : Files) → is_neg pos ≡ false → seek_to i pos s ≡ (ret pos, set_pos i pos s)
unfolding seek_to
seek_to-pos i pos s h = rw h

lseek-step :
    (inode_table : ℕ → Inode) (fd offset origin : ℕ) (s : Files) (i n base : ℕ)
    → (if leb nr_open fd then none else file_at s fd) ≡ some i
    → (file s i).f_inode ≡ some n
    → is_seekable (inode_table n).i_dev ≡ true
    → (inode_table n).i_pipe ≡ false
    → seek_base origin (file s i).f_pos (inode_table n).i_size ≡ some base
    → sys_lseek inode_table fd offset origin s ≡ seek_to i (add32 base offset) s
unfolding sys_lseek
lseek-step inode_table fd offset origin s i n base open_file inode seekable no_pipe from =
    rw (sys_lseek, open_file, inode, seekable, no_pipe, from)

-- From the tests of the device on.
seek_open :
    (inode_table : ℕ → Inode) (fd offset origin : ℕ) (s : Files) (i n : ℕ)
    → (if leb nr_open fd then none else file_at s fd) ≡ some i
    → (file s i).f_inode ≡ some n
    → IsOpen fd i n s
    → ((pos : ℕ) × (s' : Files) × (sys_lseek inode_table fd offset origin s ≡ (ret pos, s'))
        × Sought inode_table fd offset origin pos s s')
      ⊎ ((e : ℕ) × (sys_lseek inode_table fd offset origin s ≡ (err e, s))
          × Refused inode_table fd offset origin s e)
seek_open inode_table fd offset origin s i n open_file inode is_open =
    elim (Bool-cases (is_seekable (inode_table n).i_dev)) [
      | inr fixed ↦ inr (
        ebadf,
        unfold sys_lseek in rw (sys_lseek, open_file, inode, fixed),
        not_seekable is_open (majors ((inode_table n).i_dev / 256) fixed),
      )
      | inl seekable ↦ elim (Bool-cases ((inode_table n).i_pipe)) [
        | inl pipe ↦ inr (
          espipe,
          unfold sys_lseek in rw (sys_lseek, open_file, inode, seekable, pipe),
          a_pipe is_open pipe,
        )
        | inr no_pipe ↦
            let can : CanSeek (inode_table n) = record {
              major = (ground arith, ground arith);
              no_pipe = no_pipe;
            } in
            elim (Option-cases (seek_base origin (file s i).f_pos (inode_table n).i_size)) [
              | inl no_base ↦ inr (
                einval,
                unfold sys_lseek in rw (sys_lseek, open_file, inode, seekable, no_pipe, no_base),
                bad_origin is_open can (seek_base-none origin _ _ no_base),
              )
              | inr (base, from) ↦
                  let step =
                    lseek-step inode_table fd offset origin s i n base open_file inode seekable
                      no_pipe from in
                  let pos = add32 base offset in
                  let is_base = seek_base-some origin _ _ from in
                  elim (Bool-cases (is_neg pos)) [
                    | inl negative ↦ inr (
                      einval,
                      step ∙ seek_to-neg i pos s negative,
                      before_start is_open can is_base (ground (arith, negative)),
                    )
                    | inr positive ↦ inl (
                      pos,
                      set_pos i pos s,
                      step ∙ seek_to-pos i pos s positive,
                      record {
                        file_index = i;
                        inode = n;
                        base = base;
                        open_file = is_open;
                        can_seek = can;
                        from = is_base;
                        moved = refl;
                        positive = ground arith;
                        stored = refl;
                      },
                    )
                  ]
            ]
      ]
    ]
  where
    majors : (m : ℕ) → (leb 1 m && leb m 3) ≡ false → (m ≡ 0) ⊎ (4 ≤ m)
    majors zero e = inl refl
    majors (suc m) e = inr (ground (arith, e))

-- sys_lseek either succeeds, with the position, returned and stored, at the sum of the base of its origin
-- and the offset, which is not negative; or it changes nothing and returns an error with its cause:
-- -EBADF for a descriptor that is past the table or closed, a file without an inode or one on a device
-- that cannot be sought, -ESPIPE for a pipe, -EINVAL for an origin past 2 or a negative sum.
pub sys_lseek_lem :
    (inode_table : ℕ → Inode) (fd offset origin : ℕ) (s : Files)
    → ((pos : ℕ) × (s' : Files) × (sys_lseek inode_table fd offset origin s ≡ (ret pos, s'))
        × Sought inode_table fd offset origin pos s s')
      ⊎ ((e : ℕ) × (sys_lseek inode_table fd offset origin s ≡ (err e, s))
          × Refused inode_table fd offset origin s e)
sys_lseek_lem inode_table fd offset origin s =
    elim (Option-cases (if leb nr_open fd then none else file_at s fd)) [
      | inl no_file ↦
          inr (ebadf, unfold sys_lseek in rw (sys_lseek, no_file), no_file_cause no_file)
      | inr (i, open_file) ↦ elim (Option-cases ((file s i).f_inode)) [
        | inl no_inode_there ↦ inr (
          ebadf,
          unfold sys_lseek in rw (sys_lseek, open_file, no_inode_there),
          no_inode (ground arith) no_inode_there,
        )
        | inr (n, inode) ↦
            seek_open inode_table fd offset origin s i n open_file inode
              (record { in_table = ground arith; named = ground arith; has_inode = inode })
      ]
    ]
  where
    no_file_cause :
        (if leb nr_open fd then none else file_at s fd) ≡ none
        → Refused inode_table fd offset origin s ebadf
    no_file_cause e = elim (Bool-cases (leb nr_open fd)) [
      | inl large ↦ too_large (ground (arith, large))
      | inr inside ↦ closed (rw inside at e)
    ]
