-- ===== src/Kernel/Tty/Read/Tests.antt =====
-- Tests of tty_read: a line that is typed while the call sleeps.
use linux.Common.{ℕ, refl, arith, [], ◌∷◌, replicate, length-replicate}
use linux.Kernel.TtyQueue.{TtyQueue, chars}
use linux.Kernel.Tty.{Tty, Driver}
use linux.Kernel.Tty.Table.{console, new_queue}
use linux.Kernel.Tty.Read.{Reader, ReadEnd, read_end, tty_read}
use linux.Kernel.Tty.Read.Line.{line_of, HasCooked}
use linux.Kernel.Tty.Read.Call.{Returns, tty_read-Returns}

-- "ab" and a newline.
abbrev one_line : TtyQueue
one_line = record (new_queue 0) { line_data = 1; head = 3; buf = 97 ∷ 98 ∷ 10 ∷ replicate 1021 0 }

abbrev idle : Reader
idle = record { tty = console; alarm = 0; signal = 0; jiffies = 0 }

abbrev line_typed : Reader → Reader
line_typed r = record r { tty = record console { secondary = one_line } }

one_line-HasCooked : HasCooked (97 ∷ 98 ∷ 10 ∷ []) (line_typed idle).tty
unfolding chars linux.Kernel.Tty.is_end
one_line-HasCooked = record {
  valid = record {
    head = omega arith;
    tail = omega arith;
    size = omega (arith, length-replicate {A = ℕ} 1021 0);
  };
  cooked = refl;
  counted = refl;
}

tty_read-Returns_example :
    Returns
      (line_of console.termios 10 (97 ∷ 98 ∷ 10 ∷ []))
      0
      (line_typed idle)
      (tty_read (line_typed ∷ []) 0 10 idle)
unfolding linux.Kernel.Tty.l_canon linux.Kernel.Tty.is_end linux.Kernel.Tty.Read.with_alarm
tty_read-Returns_example =
    tty_read-Returns line_typed [] 0 9 97 (98 ∷ 10 ∷ []) idle (omega arith) (omega arith) refl refl
      one_line-HasCooked refl
