-- ===== src/Kernel/Tty.antt =====
-- Terminals: the structures of include/linux/tty.h and include/termios.h, and the helpers of
-- kernel/chr_drv/tty_io.c. A character is a byte below 256; as a signed char it is negative from 128 on.
pub mod Cook
pub mod Ioctl
pub mod Read
pub mod Table
pub mod Write
use linux.Common.{
  ℕ, ◌+◌, ◌%◌, bit_and, bit_or, Bool, true, false, Option, none, some, List, map, not, ◌&&◌, ◌||◌,
  ltb, leb, ◌==◌, if◌then◌else◌, get_or,
}
use linux.Common.Word.{is_neg, add32, sub32}
use linux.Kernel.Task.{Task, Tasks}
use linux.Kernel.TtyQueue.{TtyQueue, putch}

-- `struct termios`
pub record Termios : Type 0 where
  pub c_iflag : ℕ
  pub c_oflag : ℕ
  pub c_cflag : ℕ
  pub c_lflag : ℕ
  pub c_line : ℕ
  pub c_cc : List ℕ

-- `struct tty_struct` without the pointer `write`, which is a parameter of the calls that follow it.
pub record Tty : Type 0 where
  pub termios : Termios
  pub pgrp : ℕ
  pub stopped : ℕ
  pub read_q : TtyQueue
  pub write_q : TtyQueue
  pub secondary : TtyQueue

-- `_L_FLAG(tty,f)` and its like on the word of flags.
abbrev pub flag : ℕ → ℕ → Bool
flag flags f = not (bit_and flags f == 0)

abbrev pub inlcr : ℕ
inlcr = 64

abbrev pub igncr : ℕ
igncr = 128

abbrev pub icrnl : ℕ
icrnl = 256

abbrev pub iuclc : ℕ
iuclc = 512

abbrev pub isig : ℕ
isig = 1

abbrev pub icanon : ℕ
icanon = 2

abbrev pub echo : ℕ
echo = 8

abbrev pub echoctl : ℕ
echoctl = 512

abbrev pub echoke : ℕ
echoke = 2048

abbrev pub opost : ℕ
opost = 1

abbrev pub olcuc : ℕ
olcuc = 2

abbrev pub onlcr : ℕ
onlcr = 4

abbrev pub ocrnl : ℕ
ocrnl = 8

abbrev pub onlret : ℕ
onlret = 32

-- `L_CANON(tty)`
unfoldable pub l_canon : Termios → Bool
l_canon tm = flag tm.c_lflag icanon

-- The indices of `c_cc`.
abbrev pub vintr : ℕ
vintr = 0

abbrev pub vquit : ℕ
vquit = 1

abbrev pub verase : ℕ
verase = 2

abbrev pub vkill : ℕ
vkill = 3

abbrev pub veof : ℕ
veof = 4

abbrev pub vtime : ℕ
vtime = 5

abbrev pub vmin : ℕ
vmin = 6

abbrev pub vstart : ℕ
vstart = 8

abbrev pub vstop : ℕ
vstop = 9

-- `c==EOF_CHAR(tty)` and its like: `c` is a signed char and `c_cc` holds unsigned ones, so that a byte
-- from 128 on is equal to none.
pub is_cc : ℕ → Termios → ℕ → Bool
is_cc i tm c = ltb c 128 && c == get_or tm.c_cc i 0

-- `c==10 || c==EOF_CHAR(tty)`: the character ends a line.
pub is_end : Termios → ℕ → Bool
unfolding is_cc
is_end tm c = c == 10 || is_cc veof tm c

-- `c<32` on a signed char.
pub is_control : ℕ → Bool
is_control c = ltb c 32 || leb 128 c

-- What the calls of this file take from elsewhere: the function that `write` points to, and for
-- the negative characters the bits `_U` and `_L` of the bytes that isupper and islower find in front of
-- the table `_ctype`.
pub record Driver : Type 0 where
  pub write : Tty → Tty
  pub before_upper : ℕ → Bool
  pub before_lower : ℕ → Bool

pub tolower : Driver → ℕ → ℕ
tolower d c =
    if if leb 128 c then d.before_upper c else leb 65 c && leb c 90 then (c + 32) % 256 else c

pub toupper : Driver → ℕ → ℕ
toupper d c =
    if if leb 128 c then d.before_lower c else leb 97 c && leb c 122 then (c + 224) % 256 else c

-- `PUTCH(c,tty->write_q)`
unfoldable pub put_write : ℕ → Tty → Tty
put_write c t = record t { write_q = putch c t.write_q }

-- tty_intr: the signals in `mask` go to the tasks of the terminal's group.
pub tty_intr : ℕ → ℕ → Tasks → Tasks
tty_intr pgrp mask tasks =
    if is_neg pgrp || pgrp == 0
    then tasks
    else map
        (λ slot. elim slot [
          | none ↦ none
          | some p ↦ some (if p.pgrp == pgrp then record p { signal = bit_or p.signal mask } else p)
        ])
        tasks
