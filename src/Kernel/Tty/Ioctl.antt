-- ===== src/Kernel/Tty/Ioctl.antt =====
-- kernel/chr_drv/tty_ioctl.c. The structures that the call reads from the memory of the user are arguments,
-- what it writes there is part of its result, and so are its writes to ports, in their order. The checks
-- of user memory are left out.
pub mod ShortForm
mod Tests
use linux.Common.{
  ℕ, zero, suc, ◌+◌, ◌*◌, ◌/◌, ◌%◌, ◌^◌, bit_and, Bool, true, false, Option, none, some, List, [],
  ◌∷◌, ◌++◌, ◌==◌, if◌then◌else◌, get_or, get_elem?, set, take, drop,
}
use linux.Common.Errno.{Ret, ret, err, einval}
use linux.Kernel.TtyQueue.{TtyQueue, chars}
use linux.Kernel.Tty.{Termios, Tty}

-- `struct termio`
pub record Termio : Type 0 where
  pub c_iflag : ℕ
  pub c_oflag : ℕ
  pub c_cflag : ℕ
  pub c_lflag : ℕ
  pub c_line : ℕ
  pub c_cc : List ℕ

abbrev pub Ports : Type 0
Ports = List (ℕ × ℕ)

abbrev pub quotient : List ℕ
quotient =
    0 ∷ 2304 ∷ 1536 ∷ 1047 ∷ 857 ∷ 768 ∷ 576 ∷ 384 ∷ 192 ∷ 96 ∷ 64 ∷ 48 ∷ 24 ∷ 12 ∷ 6 ∷ 3 ∷ []

-- The writes to ports, as port and value; the port and the quotient are unsigned shorts.
pub change_speed : Tty → Ports
change_speed t =
    let port = t.read_q.line_data % 2 ^ 16 in
    let quot = get_or quotient (bit_and t.termios.c_cflag 15) 0 in
    if port == 0
    then []
    else (port + 3, 0x80) ∷ (port, quot % 256) ∷ (port + 1, quot / 256) ∷ (port + 3, 0x03) ∷ []

pub flush : TtyQueue → TtyQueue
flush q = record q { head = q.tail }

abbrev pub get_termios : Tty → Termios
get_termios t = t.termios

pub set_termios : Termios → Tty → Tty × Ports
unfolding change_speed
set_termios tm t = let t' = record t { termios = tm } in (t', change_speed t')

-- NCC
abbrev pub ncc : ℕ
ncc = 8

pub get_termio : Tty → Termio
get_termio t = record {
  c_iflag = t.termios.c_iflag % 2 ^ 16;
  c_oflag = t.termios.c_oflag % 2 ^ 16;
  c_cflag = t.termios.c_cflag % 2 ^ 16;
  c_lflag = t.termios.c_lflag % 2 ^ 16;
  c_line = t.termios.c_line;
  c_cc = take ncc t.termios.c_cc;
}

-- `*(unsigned short *)&word = half`, which is the low half of the word.
abbrev pub low_half : ℕ → ℕ → ℕ
low_half word half = word / 2 ^ 16 * 2 ^ 16 + half

pub set_termio : Termio → Tty → Tty × Ports
unfolding change_speed
set_termio io t =
    let t' : Tty = record t {
      termios = record {
        c_iflag = low_half t.termios.c_iflag io.c_iflag;
        c_oflag = low_half t.termios.c_oflag io.c_oflag;
        c_cflag = low_half t.termios.c_cflag io.c_cflag;
        c_lflag = low_half t.termios.c_lflag io.c_lflag;
        c_line = io.c_line;
        c_cc = take ncc io.c_cc ++ drop ncc t.termios.c_cc;
      };
    } in
    (t', change_speed t')

-- What the call reads at `arg`.
pub record UserIn : Type 0 where
  pub arg : ℕ
  pub termios : Termios
  pub termio : Termio
  pub long : ℕ

-- What it writes at `arg`.
pub data UserOut : Type 0 where
  nothing : UserOut
  termios_out : Termios → UserOut
  termio_out : Termio → UserOut
  long_out : ℕ → UserOut

pub record Answer : Type 0 where
  pub result : Ret
  pub tty : Tty
  pub out : UserOut
  pub ports : Ports

abbrev answer : Ret → Tty → UserOut → Answer
answer r t o = record { result = r; tty = t; out = o; ports = [] }

abbrev set_answer : Tty × Ports → Answer
set_answer (t, ports) = record { result = ret 0; tty = t; out = nothing; ports = ports }

abbrev flush_read : Tty → Tty
flush_read t = record t { read_q = flush t.read_q }

abbrev flush_write : Tty → Tty
flush_write t = record t { write_q = flush t.write_q }

-- TCFLSH
pub flush_queues : ℕ → Tty → Answer
unfolding flush
flush_queues arg t =
    if arg == 0
    then answer (ret 0) (flush_read t) nothing
    else if arg == 1
    then answer (ret 0) (flush_write t) nothing
    else if arg == 2
    then answer (ret 0) (flush_write (flush_read t)) nothing
    else answer (err einval) t nothing

-- The switch on `cmd`; the commands that are not listed return -EINVAL.
pub on_command : ℕ → UserIn → Tty → Answer
unfolding set_termios get_termio set_termio flush_queues flush
on_command cmd u t =
    if cmd == 0x5401
    then answer (ret 0) t (termios_out (get_termios t))
    else if cmd == 0x5404
    then set_answer (set_termios u.termios (flush_read t))
    else if cmd == 0x5403
    then set_answer (set_termios u.termios t)
    else if cmd == 0x5402
    then set_answer (set_termios u.termios t)
    else if cmd == 0x5405
    then answer (ret 0) t (termio_out (get_termio t))
    else if cmd == 0x5408
    then set_answer (set_termio u.termio (flush_read t))
    else if cmd == 0x5407
    then set_answer (set_termio u.termio t)
    else if cmd == 0x5406
    then set_answer (set_termio u.termio t)
    else if cmd == 0x5409
    then answer (ret 0) t nothing
    else if cmd == 0x540B
    then flush_queues u.arg t
    else if cmd == 0x540F
    then answer (ret 0) t (long_out t.pgrp)
    else if cmd == 0x5410
    then answer (ret 0) (record t { pgrp = u.long }) nothing
    else if cmd == 0x5411
    then answer (ret 0) t (long_out (chars t.write_q))
    else if cmd == 0x541B
    then answer (ret 0) t (long_out (chars t.secondary))
    else answer (err einval) t nothing

-- The call ends, or panics, or uses what lies behind the table of terminals.
pub data IoctlEnd : Type 0 where
  ioctl_end : Answer → List Tty → IoctlEnd
  ioctl_panic : IoctlEnd
  no_terminal : IoctlEnd

-- `tty` is that of the current task, or none; MAJOR and MINOR are the high and the low byte of `dev`.
pub tty_ioctl : ℕ → ℕ → UserIn → Option ℕ → List Tty → IoctlEnd
unfolding on_command
tty_ioctl dev cmd u tty table = elim (if dev / 256 == 5 then tty else some (dev % 256)) [
  | none ↦ ioctl_panic
  | some i ↦ elim (get_elem? table i) [
    | none ↦ no_terminal
    | some t ↦ let a = on_command cmd u t in ioctl_end a (set table i a.tty)
  ]
]
