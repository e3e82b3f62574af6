-- ===== src/Kernel/Exit/Leave.antt =====
-- The whole of do_exit of kernel/exit.c, with all that a process gives up, and sys_exit.
use linux.Common.{
  ℕ, zero, suc, ◌+◌, ◌*◌, ◌%◌, Option, none, some, List, [], ◌∷◌, ◌==◌, if◌then◌else◌, set,
}
use linux.Kernel.Task.{Task, task_at, nr_tasks}
use linux.Kernel.Exit.{System, adopt, end_task}
use linux.Fs.Files.{Files, file_at, nr_open, sys_close}
use linux.Mm.{Mm, Outcome, ◌>>◌}
use linux.Mm.Space.{free_page_tables}

-- What get_base and get_limit return for a segment of the task.
pub record Segment : Type 0 where
  pub base : ℕ
  pub limit : ℕ

-- The task table, memory, and what is the current task's own. `pgrps` has the `pgrp` of each terminal,
-- and `last_task_used_math` is the index of a task.
pub record Process : Type 0 where
  pub system : System
  pub mm : Mm
  pub code_segment : Segment
  pub data_segment : Segment
  pub files : Files
  pub pwd : Option ℕ
  pub root : Option ℕ
  pub executable : Option ℕ
  pub pgrps : List ℕ
  pub last_task_used_math : Option ℕ

-- iput of fs/inode.c on the inodes; `none` is a panic.
abbrev pub Iput : Type 0
Iput = Option ℕ → Files → Option Files

unfoldable pub free_segments : Process → Outcome (Unit {0})
unfolding free_page_tables
free_segments x =
    free_page_tables x.code_segment.base x.code_segment.limit x.mm
    >> (λ mm. free_page_tables x.data_segment.base x.data_segment.limit mm)

-- The loop over the descriptors from `i` on, `k` being left; `none` is a panic.
unfoldable pub close_files : ℕ → ℕ → Files → Option Files
unfolding sys_close
close_files zero i s = some s
close_files (suc k) i s = elim (file_at s i) [
  | none ↦ close_files k (i + 1) s
  | some _ ↦ elim (sys_close i s) [
    | linux.Fs.Files.panic ↦ none
    | linux.Fs.Files.returns r s' ↦ close_files k (i + 1) s'
  ]
]

unfoldable pub put_inodes : Iput → List (Option ℕ) → Files → Option Files
put_inodes iput [] s = some s
put_inodes iput (inode ∷ inodes) s = elim (iput inode s) [
  | none ↦ none
  | some s' ↦ put_inodes iput inodes s'
]

-- The terminal of a leader has no process group any more.
pub drop_tty : Task → List ℕ → List ℕ
drop_tty current pgrps =
    if current.leader then (elim current.tty [ none ↦ pgrps | some t ↦ set pgrps t 0 ]) else pgrps

pub drop_math : ℕ → Option ℕ → Option ℕ
drop_math c none = none
drop_math c (some i) = if i == c then none else some i

-- What is left of `x`, as the calls have changed it.
unfoldable pub after_exit : ℕ → Task → System → Mm → Files → Process → Process
unfolding drop_tty drop_math
after_exit c current system mm files x = record x {
  system = system;
  mm = mm;
  files = files;
  pwd = none;
  root = none;
  executable = none;
  pgrps = drop_tty current x.pgrps;
  last_task_used_math = drop_math c x.last_task_used_math;
}

-- The task in slot `c` exits; `none` is a panic. The call of schedule, which does not return, is left out.
unfoldable pub do_exit : Iput → ℕ → ℕ → Process → Option Process
unfolding free_segments adopt close_files put_inodes end_task after_exit
do_exit iput c code x = elim (task_at x.system.tasks c) [
  | none ↦ none
  | some current ↦ elim (free_segments x) [
    | linux.Mm.panic ↦ none
    | linux.Mm.exits n ↦ none
    | linux.Mm.ok _ mm ↦
        let tasks = adopt current nr_tasks 0 x.system.tasks in
        elim (close_files nr_open 0 x.files) [
          | none ↦ none
          | some closed ↦ elim (put_inodes iput (x.pwd ∷ x.root ∷ x.executable ∷ []) closed) [
            | none ↦ none
            | some files ↦ elim (end_task c code current (record x.system { tasks = tasks })) [
              | none ↦ none
              | some system ↦ some (after_exit c current system mm files x)
            ]
          ]
        ]
  ]
]

pub sys_exit : Iput → ℕ → ℕ → Process → Option Process
unfolding do_exit
sys_exit iput c error_code x = do_exit iput c (error_code % 256 * 256) x
