-- ===== src/Kernel/Tty/Write/Tests.antt =====
-- Tests of tty_write: two lines on the console.
use linux.Common.{ℕ, ◌≡◌, refl, arith, false, List, [], ◌∷◌, length-replicate}
use linux.Kernel.TtyQueue.{putch, chars, left_of, tty_buf_size}
use linux.Kernel.TtyQueue.Items.{items}
use linux.Kernel.Tty.{Driver}
use linux.Kernel.Tty.Table.{console}
use linux.Kernel.Tty.Write.{TtyWriting, fill_loop}
use linux.Kernel.Tty.Write.Output.{Filled, fill_loop-all}

abbrev screen : Driver
screen = record {
  write = λ t. record t { write_q = record t.write_q { tail = t.write_q.head } };
  before_upper = λ c. false;
  before_lower = λ c. false;
}

-- "a", a newline and "b".
abbrev text : List ℕ
text = 97 ∷ 10 ∷ 98 ∷ []

abbrev idle : TtyWriting
idle = record { tty = console; cr_flag = 0; signal = 0 }

sent_text : items (fill_loop 8 screen text idle).1.tty.write_q ≡ 97 ∷ 13 ∷ 10 ∷ 98 ∷ []
unfolding fill_loop chars left_of putch
sent_text = refl

fill_loop-all_example : Filled screen text idle (fill_loop tty_buf_size screen text idle)
fill_loop-all_example =
    fill_loop-all screen text idle
      (record { head = omega arith; tail = omega arith; size = length-replicate {A = ℕ} 1024 0 })
