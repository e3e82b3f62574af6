-- ===== src/Kernel/TtyQueue.antt =====
-- The queues of characters of include/linux/tty.h.
pub mod Items
pub mod Newest
mod Tests
use linux.Common.{ℕ, ◌+◌, ◌-◌, ◌*◌, ◌%◌, Bool, Option, List, ◌==◌, get_or, set}
use linux.Common.Word.{add32, sub32}

-- `struct tty_queue`; `buf` has 1024 characters, `line_data` is the word `data`, and `proc_list` the task
-- that the queue names, if any.
pub record TtyQueue : Type 0 where
  pub line_data : ℕ
  pub head : ℕ
  pub tail : ℕ
  pub proc_list : Option ℕ
  pub buf : List ℕ

abbrev pub tty_buf_size : ℕ
tty_buf_size = 1024

abbrev pub is_empty : TtyQueue → Bool
is_empty q = q.head == q.tail

-- `x & (TTY_BUF_SIZE-1)` is written as a remainder.
unfoldable pub left_of : TtyQueue → ℕ
left_of q = sub32 (sub32 q.tail q.head) 1 % tty_buf_size

unfoldable pub chars : TtyQueue → ℕ
chars q = sub32 q.head q.tail % tty_buf_size

abbrev pub is_full : TtyQueue → Bool
is_full q = left_of q == 0

unfoldable pub last_char : TtyQueue → ℕ
last_char q = get_or q.buf (sub32 q.head 1 % tty_buf_size) 0

-- `DEC(q.head)`
unfoldable pub dec_head : TtyQueue → TtyQueue
dec_head q = record q { head = sub32 q.head 1 % tty_buf_size }

unfoldable pub getch : TtyQueue → ℕ × TtyQueue
getch q = (get_or q.buf q.tail 0, record q { tail = add32 q.tail 1 % tty_buf_size })

unfoldable pub putch : ℕ → TtyQueue → TtyQueue
putch c q = record q { buf = set q.buf q.head c; head = add32 q.head 1 % tty_buf_size }
