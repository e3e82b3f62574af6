-- ===== src/Kernel/Sched.antt =====
-- schedule of kernel/sched.c, without its timers and the sleeping queues.
pub mod Best
pub mod Choice
pub mod Wake
mod Tests
use linux.Common.{
  ℕ, zero, suc, ◌+◌, ◌-◌, ◌*◌, ◌/◌, bit_and, bit_or, Bool, true, false, Option, none, some, List,
  [], ◌∷◌, not, ◌&&◌, ltb, leb, ◌==◌, if◌then◌else◌, map, get_or, set,
}
use linux.Common.Bits.{not32}
use linux.Kernel.Task.{
  Task, TaskState, running, interruptible, uninterruptible, zombie, stopped, Tasks, nr_tasks,
  task_at, sig_bit, sigkill, sigalrm,
}

abbrev pub is_running : TaskState → Bool
is_running running = true
is_running interruptible = false
is_running uninterruptible = false
is_running zombie = false
is_running stopped = false

abbrev pub is_interruptible : TaskState → Bool
is_interruptible running = false
is_interruptible interruptible = true
is_interruptible uninterruptible = false
is_interruptible zombie = false
is_interruptible stopped = false

-- `_S(SIGKILL)|_S(SIGSTOP)` taken out: the signals that can be blocked.
abbrev pub blockable : ℕ
blockable = not32 (bit_or (sig_bit sigkill) (sig_bit 19))

-- The alarm of a task that has one and whose time is past.
pub check_alarm : ℕ → Task → Task
check_alarm jiffies p =
    if not (p.alarm == 0) && ltb p.alarm jiffies
    then record p { signal = bit_or p.signal (sig_bit sigalrm); alarm = 0 }
    else p

pub has_signal : Task → Bool
has_signal p = not (bit_and p.signal (not32 (bit_and blockable p.blocked)) == 0)

pub wake_signalled : Task → Task
wake_signalled p =
    if has_signal p && is_interruptible p.state then record p { state = running } else p

-- A pass over the tasks from the last down to task 1; task 0 is left alone.
abbrev pub each_task : (Task → Task) → Tasks → Tasks
each_task f [] = []
each_task f (idle ∷ tasks) = idle ∷ map (λ t. elim t [ none ↦ none | some p ↦ some (f p) ]) tasks

pub check_signals : ℕ → Tasks → Tasks
unfolding check_alarm wake_signalled
check_signals jiffies tasks = each_task (λ p. wake_signalled (check_alarm jiffies p)) tasks

-- The running task of index `1..n` with the highest counter: `c` and `next` of the inner loop, where
-- `none` is a `c` of -1. The loop goes down, and a later task has to have more to be taken.
pub better : Option ℕ → ℕ → Bool
better none counter = true
better (some c) counter = ltb c counter

pub choose : Tasks → ℕ → Option ℕ → ℕ → Option ℕ × ℕ
unfolding better
choose tasks zero c next = (c, next)
choose tasks (suc n) c next = elim (task_at tasks (suc n)) [
  | none ↦ choose tasks n c next
  | some p ↦
      let take = is_running p.state && better c p.counter in
      choose tasks n (if take then some p.counter else c) (if take then suc n else next)
]

-- `(counter >> 1) + priority`: below 2 ^ 31, as a `long` has it, where both are below 2 ^ 30.
pub recharge : Task → Task
recharge p = record p { counter = p.counter / 2 + p.priority }

-- The scheduler proper: `none` if the rounds run out, else the tasks and the index that is switched to.
pub schedule_loop : ℕ → Tasks → Option (Tasks × ℕ)
unfolding choose recharge
schedule_loop zero tasks = none
schedule_loop (suc rounds) tasks =
    let (c, next) = choose tasks (nr_tasks - 1) none 0 in
    let again = schedule_loop rounds (each_task recharge tasks) in
    elim c [ none ↦ some (tasks, next) | some k ↦ if k == 0 then again else some (tasks, next) ]

pub schedule : ℕ → Tasks → Option (Tasks × ℕ)
unfolding schedule_loop
schedule jiffies tasks = schedule_loop 2 (check_signals jiffies tasks)
