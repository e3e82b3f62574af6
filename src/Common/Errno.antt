-- ===== src/Common/Errno.antt =====
-- What a system call returns: a value, or the negative of an error number of include/errno.h.
use Prim.Native.Nat.{ℕ}

-- `err e` is the return of -e, so `err 1` is also the bare return of -1.
pub data Ret : Type 0 where
  ret : ℕ → Ret
  err : ℕ → Ret

abbrev pub eperm : ℕ
eperm = 1

abbrev pub esrch : ℕ
esrch = 3

abbrev pub eintr : ℕ
eintr = 4

abbrev pub ebadf : ℕ
ebadf = 9

abbrev pub echild : ℕ
echild = 10

abbrev pub eagain : ℕ
eagain = 11

abbrev pub einval : ℕ
einval = 22

abbrev pub emfile : ℕ
emfile = 24

abbrev pub espipe : ℕ
espipe = 29
