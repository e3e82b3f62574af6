-- ===== src/Kernel/Tty/Write.antt =====
-- tty_write of kernel/chr_drv/tty_io.c. What other code does while the call sleeps or is scheduled away
-- is a list of functions, one for each round of the outer loop.
pub mod Output
mod Tests
use linux.Common.{
  ℕ, zero, suc, ◌+◌, ◌-◌, ◌%◌, Bool, true, false, Option, none, some, List, [], ◌∷◌, ◌&&◌, ◌||◌,
  not, ltb, ◌==◌, if◌then◌else◌, length, take,
}
use linux.Common.Word.{is_neg}
use linux.Common.Errno.{Ret, ret, err}
use linux.Kernel.TtyQueue.{TtyQueue, is_full, tty_buf_size}
use linux.Kernel.Tty.{
  Termios, Tty, Driver, flag, toupper, put_write, opost, olcuc, onlcr, ocrnl, onlret,
}

-- The terminal, the static `cr_flag` and the signals of the current task.
pub record TtyWriting : Type 0 where
  pub tty : Tty
  pub cr_flag : ℕ
  pub signal : ℕ

-- `c=='\\r' && O_CRNL(tty)` and `c=='\\n' && O_NLRET(tty)`
pub swap_ends : Termios → ℕ → ℕ
swap_ends tm c =
    if c == 13 && flag tm.c_oflag ocrnl
    then 10
    else if c == 10 && flag tm.c_oflag onlret
    then 13
    else c

-- `c=='\\n' && !cr_flag && O_NLCR(tty)`, for the character `c` that swap_ends left.
pub wants_return : Termios → ℕ → ℕ → Bool
unfolding swap_ends
wants_return tm cr_flag c =
    flag tm.c_oflag opost && swap_ends tm c == 10 && cr_flag == 0 && flag tm.c_oflag onlcr

-- The character that is put into the queue for `c`.
pub final_char : Driver → Termios → ℕ → ℕ
unfolding swap_ends
final_char d tm c =
    if flag tm.c_oflag opost
    then if flag tm.c_oflag olcuc then toupper d (swap_ends tm c) else swap_ends tm c
    else c

-- The inner loop, on fuel, and the characters that are left to write.
pub fill_loop : ℕ → Driver → List ℕ → TtyWriting → List ℕ × TtyWriting
unfolding wants_return final_char put_write
fill_loop zero d buf s = (buf, s)
fill_loop (suc n) d [] s = ([], s)
fill_loop (suc n) d (c ∷ buf) s = elim (is_full s.tty.write_q) [
  | true ↦ (c ∷ buf, s)
  | false ↦ elim (wants_return s.tty.termios s.cr_flag c) [
    | true ↦ fill_loop n d (c ∷ buf) (record s { tty = put_write 13 s.tty; cr_flag = 1 })
    | false ↦
        fill_loop n d buf
          (record s { tty = put_write (final_char d s.tty.termios c) s.tty; cr_flag = 0 })
  ]
]

pub data Wrote : Type 0 where
  wrote : Ret → TtyWriting → Wrote
  waiting : Wrote

abbrev pub Turns : Type 0
Turns = List (TtyWriting → TtyWriting)

-- The outer loop for the characters `buf`, with `done` of them written before. A turn stands for the
-- schedule at the end of the last round and for sleep_if_full.
pub write_tty_loop : Turns → Driver → ℕ → List ℕ → TtyWriting → Wrote
unfolding fill_loop
write_tty_loop turns d done [] s = wrote (ret done) s
write_tty_loop [] d done (c ∷ buf) s = waiting
write_tty_loop (turn ∷ turns) d done (c ∷ buf) s =
    let s1 = turn s in
    elim (s1.signal == 0) [
      | false ↦ wrote (ret done) s1
      | true ↦
          let (rest, s2) = fill_loop tty_buf_size d (c ∷ buf) s1 in
          write_tty_loop turns d (done + (length (c ∷ buf) - length rest)) rest
            (record s2 { tty = d.write s2.tty })
    ]

-- `channel>2 || nr<0` and the loop; `buf` is what the memory of the user holds.
pub tty_write : Turns → Driver → ℕ → List ℕ → ℕ → TtyWriting → Wrote
unfolding write_tty_loop
tty_write turns d channel buf nr s =
    if ltb 2 channel || is_neg nr then wrote (err 1) s else write_tty_loop turns d 0 (take nr buf) s
