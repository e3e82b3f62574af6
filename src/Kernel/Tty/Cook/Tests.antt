-- ===== src/Kernel/Tty/Cook/Tests.antt =====
-- Tests of copy_to_cooked: a line with a mistake is typed at the console.
use linux.Common.{ℕ, ◌≡◌, refl, arith, false, [], ◌∷◌, replicate, length-replicate}
use linux.Kernel.TtyQueue.{TtyQueue, putch, getch, dec_head, chars, left_of, last_char}
use linux.Kernel.TtyQueue.Items.{IsQueue, items}
use linux.Kernel.Tty.{Driver}
use linux.Kernel.Tty.Table.{console, new_queue}
use linux.Kernel.Tty.Cook.{Cooking, copy_to_cooked}
use linux.Kernel.Tty.Cook.Editor.{Editor, Shows, edit}
use linux.Kernel.Tty.Cook.Run.{Edited, woken, copy_to_cooked-Edited}

-- A device that takes every character at once.
abbrev screen : Driver
screen = record {
  write = λ t. record t { write_q = record t.write_q { tail = t.write_q.head } };
  before_upper = λ c. false;
  before_lower = λ c. false;
}

-- "ab", the erase character, "c" and a carriage return.
abbrev typed_queue : TtyQueue
typed_queue = record (new_queue 0) { head = 5; buf = 97 ∷ 98 ∷ 127 ∷ 99 ∷ 13 ∷ replicate 1019 0 }

abbrev typed : Cooking
typed = record { tty = record console { read_q = typed_queue }; tasks = [] }

abbrev nothing_typed : Editor
nothing_typed = record { line = []; done = []; stopped = 0; tasks = [] }

typed-IsQueue : IsQueue typed_queue
typed-IsQueue = record {
  head = omega arith;
  tail = omega arith;
  size = omega (arith, length-replicate {A = ℕ} 1019 0);
}

console-Shows : Shows nothing_typed typed
unfolding chars
console-Shows = record {
  valid = record { head = omega arith; tail = omega arith; size = length-replicate {A = ℕ} 1024 0 };
  cooked = refl;
  open_line = tt;
  closed = tt;
  counted = refl;
  same_stopped = refl;
  same_tasks = refl;
}

cooked_line : items (copy_to_cooked screen typed).tty.secondary ≡ 97 ∷ 99 ∷ 10 ∷ []
unfolding copy_to_cooked chars left_of getch linux.Kernel.Tty.l_canon linux.Kernel.Tty.is_cc
    linux.Kernel.Tty.is_end linux.Kernel.Tty.is_control putch last_char dec_head
cooked_line = refl

copy_to_cooked-Edited_example :
    Edited
      (woken typed (edit screen console.termios 0 (items typed_queue) nothing_typed))
      typed
      (copy_to_cooked screen typed)
copy_to_cooked-Edited_example =
    copy_to_cooked-Edited screen nothing_typed typed
      (λ t. (record t.write_q { tail = t.write_q.head }, refl)) typed-IsQueue console-Shows
