-- ===== src/Kernel/Tty/Cook.antt =====
-- copy_to_cooked of kernel/chr_drv/tty_io.c: characters go from the read queue to the secondary one.
pub mod Editor
pub mod Keys
pub mod Store
pub mod Refines
pub mod Run
mod Tests
use linux.Common.{
  ℕ, zero, suc, ◌+◌, ◌%◌, Bool, true, false, Option, none, some, ◌&&◌, ◌||◌, ◌==◌, if◌then◌else◌,
}
use linux.Common.Word.{add32}
use linux.Kernel.Task.{Tasks, sig_bit, sigint}
use linux.Kernel.Sleep.{wake_up}
use linux.Kernel.TtyQueue.{is_empty, is_full, last_char, dec_head, getch, putch, tty_buf_size}
use linux.Kernel.Tty.{
  Termios, Tty, Driver, flag, l_canon, is_cc, is_end, is_control, tolower, put_write, tty_intr,
  inlcr, igncr, icrnl, iuclc, isig, echo, echoctl, vintr, vquit, verase, vkill, vstart, vstop,
}

-- The terminal, and the table of tasks to which its signals go.
pub record Cooking : Type 0 where
  pub tty : Tty
  pub tasks : Tasks

abbrev pub sigquit : ℕ
sigquit = 3

lower : Driver → Termios → ℕ → ℕ
lower d tm c = if flag tm.c_iflag iuclc then tolower d c else c

-- The character that the input flags make of `c`; `none` is one that is ignored.
pub translate : Driver → Termios → ℕ → Option ℕ
unfolding lower
translate d tm c =
    if c == 13
    then if flag tm.c_iflag icrnl
      then some (lower d tm 10)
      else if flag tm.c_iflag igncr
      then none
      else some (lower d tm 13)
    else if c == 10 && flag tm.c_iflag inlcr
    then some (lower d tm 13)
    else some (lower d tm c)

-- The echo of the removal of `c`: one 127 for each place that it took on the screen.
pub echo_removal : Driver → ℕ → Tty → Tty
unfolding put_write
echo_removal d c t =
    if flag t.termios.c_lflag echo
    then d.write (put_write 127 (if is_control c then put_write 127 t else t))
    else t

-- `EMPTY(tty->secondary) || (c=LAST(tty->secondary))==10 || c==EOF_CHAR(tty)`
pub at_line_start : Tty → Bool
at_line_start t = is_empty t.secondary || is_end t.termios (last_char t.secondary)

-- The last character of the secondary queue is taken back, with its echo.
pub remove_last : Driver → Tty → Tty
unfolding echo_removal
remove_last d t =
    let t' = echo_removal d (last_char t.secondary) t in
    record t' { secondary = dec_head t'.secondary }

-- The loop of the kill character, on fuel.
pub kill_loop : ℕ → Driver → Tty → Tty
unfolding at_line_start remove_last
kill_loop zero d t = t
kill_loop (suc n) d t = elim (at_line_start t) [
  | true ↦ t
  | false ↦ kill_loop n d (remove_last d t)
]

-- The echo of a character that is typed.
pub echo_char : Driver → ℕ → Tty → Tty
unfolding put_write
echo_char d c t =
    if flag t.termios.c_lflag echo
    then d.write (
        if c == 10
        then put_write 13 (put_write 10 t)
        else if is_control c
        then if flag t.termios.c_lflag echoctl
          then put_write ((c + 64) % 256) (put_write 94 t)
          else t
        else put_write c t)
    else t

-- The end of the loop: the character is counted if it ends a line, echoed and stored.
pub store_char : Driver → ℕ → Tty → Tty
unfolding echo_char
store_char d c t =
    let t1 : Tty =
      if is_end t.termios c
      then record t { secondary = record t.secondary { line_data = add32 t.secondary.line_data 1 } }
      else t in
    let t2 = echo_char d c t1 in record t2 { secondary = putch c t2.secondary }

abbrev pub on_tty : (Tty → Tty) → Cooking → Cooking
on_tty f s = record s { tty = f s.tty }

abbrev pub signal_group : ℕ → Cooking → Cooking
signal_group mask s = record s { tasks = tty_intr s.tty.pgrp mask s.tasks }

-- The part of the loop for a character that is not one of canonical mode.
pub other_char : Driver → ℕ → Cooking → Cooking
unfolding store_char
other_char d c s =
    if flag s.tty.termios.c_lflag isig && is_cc vintr s.tty.termios c
    then signal_group (sig_bit sigint) s
    else if flag s.tty.termios.c_lflag isig && is_cc vquit s.tty.termios c
    then signal_group (sig_bit sigquit) s
    else on_tty (store_char d c) s

-- What the loop does with the character `c` that the input flags left.
pub cook_char : Driver → ℕ → Cooking → Cooking
unfolding kill_loop remove_last at_line_start other_char
cook_char d c s =
    if l_canon s.tty.termios
    then if is_cc vkill s.tty.termios c
      then on_tty (kill_loop tty_buf_size d) s
      else if is_cc verase s.tty.termios c
      then if at_line_start s.tty then s else on_tty (remove_last d) s
      else if is_cc vstop s.tty.termios c
      then on_tty (λ t. record t { stopped = 1 }) s
      else if is_cc vstart s.tty.termios c
      then on_tty (λ t. record t { stopped = 0 }) s
      else other_char d c s
    else other_char d c s

-- `GETCH(tty->read_q,c)` and the rest of the loop's body.
pub cook_next : Driver → Cooking → Cooking
unfolding translate cook_char
cook_next d s =
    let (c, q) = getch s.tty.read_q in
    let s' = on_tty (λ t. record t { read_q = q }) s in
    elim (translate d s.tty.termios c) [ none ↦ s' | some c' ↦ cook_char d c' s' ]

-- The loop, on fuel.
pub cook_loop : ℕ → Driver → Cooking → Cooking
unfolding cook_next
cook_loop zero d s = s
cook_loop (suc n) d s = elim (is_empty s.tty.read_q || is_full s.tty.secondary) [
  | true ↦ s
  | false ↦ cook_loop n d (cook_next d s)
]

pub copy_to_cooked : Driver → Cooking → Cooking
unfolding cook_loop
copy_to_cooked d s =
    let s' = cook_loop tty_buf_size d s in
    record s' { tasks = wake_up s'.tty.secondary.proc_list s'.tasks }
