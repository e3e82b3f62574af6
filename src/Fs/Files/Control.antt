-- ===== src/Fs/Files/Control.antt =====
-- sys_fcntl of fs/fcntl.c.
use native.Mathlib.Nat.{div-div-eq-div-mul, pow-succ'}
use linux.Common.{
  ℕ, zero, suc, ◌+◌, ◌/◌, ◌%◌, ◌^◌, ◌<◌, ◌≡◌, refl, false, none, some, arith, ◌==◌, if◌then◌else◌,
  Bool-cases, inl, inr, ap, ◌∙◌, sym, leb, bit_and, bit_or,
}
use linux.Common.Bits.{bit, shl1, not32, bit_and-not-shl1, bit_or-shl1}
use linux.Common.Errno.{Ret, ret, err, ebadf}
use linux.Fs.Files.{Files, file, file_at, set_file, keep_on_exec, nr_open, dupfd}

-- `O_APPEND | O_NONBLOCK`
abbrev pub settable : ℕ
settable = 0x400 + 0x800

pub sys_fcntl : ℕ → ℕ → ℕ → Files → Ret × Files
unfolding dupfd keep_on_exec set_file
sys_fcntl fd cmd arg s = elim (if leb nr_open fd then none else file_at s fd) [
  | none ↦ (err ebadf, s)
  | some i ↦
      let f = file s i in
      let set_exec = record s { close_on_exec = bit_or s.close_on_exec (shl1 fd) } in
      let flags = bit_or (bit_and f.f_flags (not32 settable)) (bit_and arg settable) in
      if cmd == 0
      then dupfd fd arg s
      else if cmd == 1
      then (ret (s.close_on_exec / 2 ^ fd % 2), s)
      else if cmd == 2
      then (ret 0, if arg % 2 == 1 then set_exec else keep_on_exec fd s)
      else if cmd == 3
      then (ret f.f_flags, s)
      else if cmd == 4
      then (ret 0, set_file i (record f { f_flags = flags }) s)
      else (err 1, s)
]

div-pow-suc : (w k : ℕ) → w / 2 ^ suc k ≡ w / 2 / 2 ^ k
div-pow-suc w k = rw pow-succ' (sym (div-div-eq-div-mul w 2 (2 ^ k)))

bit-div : (w k : ℕ) → w / 2 ^ k % 2 ≡ (if bit w k then 1 else 0)
bit-div w zero = ground arith
bit-div w (suc k) = rw (div-pow-suc w k) (bit-div (w / 2) k)

setfd-state :
    (s : Files) {i : ℕ} (fd arg : ℕ)
    → fd < nr_open
    → file_at s fd ≡ some i
    → (k : ℕ) → k < nr_open
    → ((sys_fcntl fd 2 arg s).1.filp ≡ s.filp)
      × ((if bit (sys_fcntl fd 2 arg s).1.close_on_exec k then 1 else 0)
          ≡ (if fd == k then arg % 2 else s.close_on_exec / 2 ^ k % 2))
unfolding sys_fcntl
setfd-state s fd arg hf here k hk =
    let near : leb nr_open fd ≡ false = ground arith in
    let set_bit = bit_or-shl1 s.close_on_exec fd k (omega arith) in
    let clear_bit = bit_and-not-shl1 s.close_on_exec fd k (omega arith) (omega arith) in
    let old = bit-div s.close_on_exec k in
    elim (Bool-cases (arg % 2 == 1)) [
      | inl on ↦ rw (sys_fcntl, near, here, on) (refl, rw set_bit (ground arith))
      | inr off ↦ rw (sys_fcntl, near, here, off) (refl, rw clear_bit (ground arith))
    ]

-- F_SETFD on an open descriptor sets its close-on-exec flag to the low bit of the argument: F_GETFD
-- afterwards returns that bit for the descriptor, and what it returned before for every other open one.
pub getfd-setfd :
    (s : Files) {i j : ℕ} (fd k arg arg' : ℕ)
    → fd < nr_open
    → k < nr_open
    → file_at s fd ≡ some i
    → file_at s k ≡ some j
    → (sys_fcntl k 1 arg' (sys_fcntl fd 2 arg s).1).0
      ≡ ret (if fd == k then arg % 2 else s.close_on_exec / 2 ^ k % 2)
getfd-setfd s {j} fd k arg arg' hf hk here there =
    let (same, flag) = setfd-state s fd arg hf here k hk in
    getfd {j = j} (sys_fcntl fd 2 arg s).1 (rw same there)
    ∙ ap ret (bit-div (sys_fcntl fd 2 arg s).1.close_on_exec k ∙ flag)
  where
    getfd :
        {j : ℕ} (s' : Files)
        → file_at s' k ≡ some j
        → (sys_fcntl k 1 arg' s').0 ≡ ret (s'.close_on_exec / 2 ^ k % 2)
    getfd s' e =
        unfold sys_fcntl in
        let near : leb nr_open k ≡ false = ground arith in rw (sys_fcntl, near, e)
