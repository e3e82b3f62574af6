-- ===== src/Kernel/Tty/Cook/Run.antt =====
-- The whole of copy_to_cooked on the line editor.
use linux.Common.{
  ℕ, zero, suc, ◌<◌, ◌≡◌, refl, subst, ap, ◌∙◌, true, false, List, [], ◌∷◌, ◌==◌, ◌||◌, arith,
  length, Bool-cases, inl, inr,
}
use linux.Kernel.Sleep.{wake_up}
use linux.Kernel.TtyQueue.{TtyQueue, is_empty, is_full}
use linux.Kernel.TtyQueue.Items.{IsQueue, items, queue-IsDeque}
use linux.Kernel.TtyQueue.Newest.{newest-full}
use linux.Kernel.Tty.{Driver}
use linux.Kernel.Tty.Cook.{Cooking, translate, cook_next, cook_loop, copy_to_cooked}
use linux.Kernel.Tty.Cook.Editor.{Editor, Shows, WritesOut, keystroke?, edit, is_filled}
use linux.Kernel.Tty.Cook.Keys.{Kept}
use linux.Kernel.Tty.Cook.Refines.{next-Keeps}

-- `s'` shows the editor of `r`, and the characters of `r` are left in its read queue.
pub record Edited (r : List ℕ × Editor) (s s' : Cooking) : Type 0 where
  pub left_over : items s'.tty.read_q ≡ r.0
  pub still_queue : IsQueue s'.tty.read_q
  pub shown : Shows r.1 s'
  pub kept : Kept s.tty (record s'.tty { read_q = s.tty.read_q })

Edited-trans :
    (r : List ℕ × Editor) (s s1 s2 : Cooking)
    → Kept s.tty (record s1.tty { read_q = s.tty.read_q })
    → Edited r s1 s2
    → Edited r s s2
Edited-trans r s s1 s2 k h = record {
  left_over = h.left_over;
  still_queue = h.still_queue;
  shown = h.shown;
  kept = record {
    same_termios = h.kept.same_termios ∙ k.same_termios;
    same_pgrp = h.kept.same_pgrp ∙ k.same_pgrp;
    same_read_q = refl;
    same_proc_list = h.kept.same_proc_list ∙ k.same_proc_list;
  };
}

here :
    (r : List ℕ × Editor) (s : Cooking)
    → IsQueue s.tty.read_q
    → items s.tty.read_q ≡ r.0
    → Shows r.1 s
    → Edited r s s
here r s v f h = record {
  left_over = f;
  still_queue = v;
  shown = h;
  kept = record {
    same_termios = refl;
    same_pgrp = refl;
    same_read_q = refl;
    same_proc_list = refl;
  };
}

suc_ne : (n : ℕ) → (suc n == 0) ≡ false
suc_ne n = ground arith

no_char :
    (s : Cooking) → IsQueue s.tty.read_q → items s.tty.read_q ≡ [] → is_empty s.tty.read_q ≡ true
no_char s v f = (queue-IsDeque s.tty.read_q v).empty ∙ ap (λ l. length l == 0) f

some_char :
    (s : Cooking) (c : ℕ) (cs : List ℕ)
    → IsQueue s.tty.read_q
    → items s.tty.read_q ≡ c ∷ cs
    → is_empty s.tty.read_q ≡ false
some_char s c cs v f =
    (queue-IsDeque s.tty.read_q v).empty ∙ ap (λ l. length l == 0) f ∙ suc_ne (length cs)

filled : (e : Editor) (s : Cooking) → Shows e s → is_full s.tty.secondary ≡ is_filled e
filled e s h = newest-full s.tty.secondary h.valid ∙ ap (λ l. length l == 1023) h.cooked

cook_loop-Edited :
    (n : ℕ) (d : Driver) (e : Editor) (s : Cooking) (cs : List ℕ)
    → WritesOut d
    → IsQueue s.tty.read_q
    → items s.tty.read_q ≡ cs
    → length cs < n
    → Shows e s
    → Edited (edit d s.tty.termios s.tty.pgrp cs e) s (cook_loop n d s)
unfolding cook_loop edit
cook_loop-Edited zero d e s cs w v f b h = absurd (omega arith)
cook_loop-Edited (suc n) d e s [] w v f b h =
    let all = here ([], e) s v f h in rw (no_char s v f, ◌||◌, cook_loop) all
cook_loop-Edited (suc n) d e s (c ∷ cs) w v f b h = elim (Bool-cases (is_filled e)) [
  | inl full ↦
      rw (some_char s c cs v f, filled e s h, full, ◌||◌, cook_loop, edit)
        (here (c ∷ cs, e) s v f h)
  | inr room ↦
      let (shown, kept, left, queue) = next-Keeps d w c cs e s v f h (filled e s h ∙ room) in
      let o = translate d s.tty.termios c in
      let rest =
        cook_loop-Edited n d (keystroke? s.tty.termios s.tty.pgrp o e) (cook_next d s) cs w queue
          left (omega arith) shown in
      let same : edit d (cook_next d s).tty.termios (cook_next d s).tty.pgrp cs
            (keystroke? s.tty.termios s.tty.pgrp o e)
          ≡ edit d s.tty.termios s.tty.pgrp cs (keystroke? s.tty.termios s.tty.pgrp o e) =
        rw (kept.same_termios, kept.same_pgrp) refl in
      rw (some_char s c cs v f, filled e s h, room, ◌||◌, cook_loop, edit)
        (Edited-trans _ s (cook_next d s) (cook_loop n d (cook_next d s)) kept
          (subst (λ r. Edited r (cook_next d s) (cook_loop n d (cook_next d s))) same rest))
]

queue_length : (q : TtyQueue) → IsQueue q → length (items q) < 1024
queue_length q v = omega (arith, (queue-IsDeque q v).left_over)

abbrev pub woken : Cooking → List ℕ × Editor → List ℕ × Editor
woken s r = (r.0, record r.1 { tasks = wake_up s.tty.secondary.proc_list r.1.tasks })

-- Suppose the function behind `write` changes nothing but the write queue, the read queue has its indices
-- in range, and the terminal shows a line editor: its secondary queue, in range, holds the ended lines
-- and then the line that is typed, and counts the ended lines. Then copy_to_cooked runs the editor on
-- the characters of the read queue, in their order, until there are none or the secondary queue has
-- 1023 characters. At the end the terminal shows the editor that results, the characters that were not
-- taken are left in the read queue, the flags, the group and the waiting task are the same, and the
-- waiting task is woken.
pub copy_to_cooked-Edited :
    (d : Driver) (e : Editor) (s : Cooking)
    → WritesOut d
    → IsQueue s.tty.read_q
    → Shows e s
    → Edited
        (woken s (edit d s.tty.termios s.tty.pgrp (items s.tty.read_q) e))
        s
        (copy_to_cooked d s)
unfolding copy_to_cooked
copy_to_cooked-Edited d e s w v h =
    let r =
      cook_loop-Edited 1024 d e s (items s.tty.read_q) w v refl (queue_length s.tty.read_q v) h in
    record {
      left_over = r.left_over;
      still_queue = r.still_queue;
      shown = record {
        valid = r.shown.valid;
        cooked = r.shown.cooked;
        open_line = r.shown.open_line;
        closed = r.shown.closed;
        counted = r.shown.counted;
        same_stopped = r.shown.same_stopped;
        same_tasks =
            ap (λ p. wake_up p (cook_loop 1024 d s).tasks) r.kept.same_proc_list
            ∙ ap (wake_up s.tty.secondary.proc_list) r.shown.same_tasks;
      };
      kept = r.kept;
    }
