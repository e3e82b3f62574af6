-- ===== src/Kernel/TtyQueue/Tests.antt =====
-- Tests of the queues: one that goes round at the end of its buffer.
use linux.Common.{ℕ, ◌≡◌, refl, none, arith, replicate, length-replicate}
use linux.Kernel.TtyQueue.{TtyQueue, chars}
use linux.Kernel.TtyQueue.Items.{IsQueue, IsDeque, queue-IsDeque}

abbrev queue : TtyQueue
queue = record { line_data = 0; head = 2; tail = 1020; proc_list = none; buf = replicate 1024 32 }

six_chars : chars queue ≡ 6
unfolding chars
six_chars = refl

queue-IsQueue : IsQueue queue
queue-IsQueue = record {
  head = omega arith;
  tail = omega arith;
  size = length-replicate {A = ℕ} 1024 32;
}

queue-IsDeque_example : IsDeque queue
queue-IsDeque_example = queue-IsDeque queue queue-IsQueue
