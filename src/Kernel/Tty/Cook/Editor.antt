-- ===== src/Kernel/Tty/Cook/Editor.antt =====
-- The line editor that copy_to_cooked implements, on lists in place of queues.
use linux.Common.{
  ℕ, suc, ◌≡◌, Bool, true, false, Option, none, some, List, [], ◌∷◌, ◌++◌, ◌&&◌, ◌==◌,
  if◌then◌else◌, length, drop,
}
use mathlib.Core.List.{reverse}
use linux.Kernel.Task.{Tasks, sig_bit, sigint}
use linux.Kernel.TtyQueue.Items.{IsQueue, items}
use linux.Kernel.Tty.{
  Termios, Tty, Driver, flag, l_canon, is_cc, is_end, tty_intr, isig, vintr, vquit, verase, vkill,
  vstart, vstop,
}
use linux.Kernel.Tty.Cook.{Cooking, sigquit, translate}

-- The line that is typed and the ended lines before it, both with the newest character first; the
-- mark of the stop character; the tasks.
pub record Editor : Type 0 where
  pub line : List ℕ
  pub done : List ℕ
  pub stopped : ℕ
  pub tasks : Tasks

abbrev pub erase : Editor → Editor
erase e = record e { line = drop 1 e.line }

abbrev pub kill : Editor → Editor
kill e = record e { line = [] }

abbrev pub type : Termios → ℕ → Editor → Editor
type tm c e =
    if is_end tm c
    then record e { line = []; done = c ∷ (e.line ++ e.done) }
    else record e { line = c ∷ e.line }

abbrev pub raise_group : ℕ → ℕ → Editor → Editor
raise_group pgrp mask e = record e { tasks = tty_intr pgrp mask e.tasks }

abbrev pub plain : Termios → ℕ → ℕ → Editor → Editor
plain tm pgrp c e =
    if flag tm.c_lflag isig && is_cc vintr tm c
    then raise_group pgrp (sig_bit sigint) e
    else if flag tm.c_lflag isig && is_cc vquit tm c
    then raise_group pgrp (sig_bit sigquit) e
    else type tm c e

unfoldable pub keystroke : Termios → ℕ → ℕ → Editor → Editor
keystroke tm pgrp c e =
    if l_canon tm
    then if is_cc vkill tm c
      then kill e
      else if is_cc verase tm c
      then erase e
      else if is_cc vstop tm c
      then record e { stopped = 1 }
      else if is_cc vstart tm c
      then record e { stopped = 0 }
      else plain tm pgrp c e
    else plain tm pgrp c e

abbrev pub keystroke? : Termios → ℕ → Option ℕ → Editor → Editor
keystroke? tm pgrp none e = e
keystroke? tm pgrp (some c) e = keystroke tm pgrp c e

abbrev pub is_filled : Editor → Bool
is_filled e = length (e.line ++ e.done) == 1023

-- The characters of a list in turn, until the editor is filled: the characters left over, and the editor.
unfoldable pub edit : Driver → Termios → ℕ → List ℕ → Editor → List ℕ × Editor
unfolding keystroke
edit d tm pgrp [] e = ([], e)
edit d tm pgrp (c ∷ cs) e = elim (is_filled e) [
  | true ↦ (c ∷ cs, e)
  | false ↦ edit d tm pgrp cs (keystroke? tm pgrp (translate d tm c) e)
]

abbrev pub count_ends : Termios → List ℕ → ℕ
count_ends tm [] = 0
count_ends tm (c ∷ cs) = if is_end tm c then suc (count_ends tm cs) else count_ends tm cs

-- The newest of the ended characters ends a line.
abbrev pub IsClosed : Termios → List ℕ → Type 0
IsClosed tm [] = Unit {0}
IsClosed tm (c ∷ cs) = is_end tm c ≡ true

abbrev pub IsOpen : Termios → List ℕ → Type 0
IsOpen tm [] = Unit {0}
IsOpen tm (c ∷ cs) = (is_end tm c ≡ false) × IsOpen tm cs

-- A terminal shows what an editor holds, and counts the ended lines in its secondary queue.
pub record Shows (e : Editor) (s : Cooking) : Type 0 where
  pub valid : IsQueue s.tty.secondary
  pub cooked : reverse (items s.tty.secondary) ≡ e.line ++ e.done
  pub open_line : IsOpen s.tty.termios e.line
  pub closed : IsClosed s.tty.termios e.done
  pub counted : s.tty.secondary.line_data ≡ count_ends s.tty.termios e.done
  pub same_stopped : s.tty.stopped ≡ e.stopped
  pub same_tasks : s.tasks ≡ e.tasks

-- What is asked of the function that `write` points to: it changes the write queue only.
abbrev pub WritesOut : Driver → Type 0
WritesOut d = (t : Tty) → (q : _) × (d.write t ≡ record t { write_q = q })
