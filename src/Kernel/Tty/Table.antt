-- ===== src/Kernel/Tty/Table.antt =====
-- The table of terminals of kernel/chr_drv/tty_io.c as it starts: the console and two serial lines.
use linux.Common.{ℕ, ◌+◌, none, List, [], ◌∷◌, replicate}
use linux.Kernel.TtyQueue.{TtyQueue}
use linux.Kernel.Tty.{Tty, icrnl, isig, icanon, echo, echoctl, echoke, opost, onlcr}

-- INIT_C_CC
abbrev pub init_c_cc : List ℕ
init_c_cc = 3 ∷ 28 ∷ 127 ∷ 21 ∷ 4 ∷ 0 ∷ 1 ∷ 0 ∷ 17 ∷ 19 ∷ 26 ∷ 0 ∷ 18 ∷ 15 ∷ 23 ∷ 22 ∷ 0 ∷ []

-- An empty queue with the word `port` in `data`.
abbrev pub new_queue : ℕ → TtyQueue
new_queue port = record {
  line_data = port;
  head = 0;
  tail = 0;
  proc_list = none;
  buf = replicate 1024 0;
}

abbrev pub console : Tty
console = record {
  termios = record {
    c_iflag = icrnl;
    c_oflag = opost + onlcr;
    c_cflag = 0;
    c_lflag = isig + icanon + echo + echoctl + echoke;
    c_line = 0;
    c_cc = init_c_cc;
  };
  pgrp = 0;
  stopped = 0;
  read_q = new_queue 0;
  write_q = new_queue 0;
  secondary = new_queue 0;
}

-- `B2400 | CS8` is 073.
abbrev pub serial_line : ℕ → Tty
serial_line port = record {
  termios = record {
    c_iflag = 0;
    c_oflag = 0;
    c_cflag = 59;
    c_lflag = 0;
    c_line = 0;
    c_cc = init_c_cc;
  };
  pgrp = 0;
  stopped = 0;
  read_q = new_queue port;
  write_q = new_queue port;
  secondary = new_queue 0;
}

pub tty_table : List Tty
tty_table = console ∷ serial_line 0x3f8 ∷ serial_line 0x2f8 ∷ []
