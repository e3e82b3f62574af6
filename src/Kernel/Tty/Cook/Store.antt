-- ===== src/Kernel/Tty/Cook/Store.antt =====
-- What the storing of a character by copy_to_cooked does to the editor that a terminal shows.
use linux.Common.{
  ℕ, suc, ◌+◌, ◌≤◌, ◌<◌, ◌≡◌, refl, subst, sym, ap, ◌∙◌, inl, inr, true, false, List, [], ◌∷◌, ◌++◌,
  if◌then◌else◌, arith, length, length-append, Bool-cases,
}
use linux.Common.Word.{add32}
use mathlib.Core.List.{reverse}
use linux.Kernel.TtyQueue.{TtyQueue, is_full, putch}
use linux.Kernel.TtyQueue.Items.{IsQueue, items, queue-IsDeque}
use linux.Kernel.TtyQueue.Newest.{length-reverse, newest-put, items-line_data}
use linux.Kernel.Tty.{Termios, Tty, Driver, is_end}
use linux.Kernel.Tty.Cook.{Cooking, on_tty, store_char}
use linux.Kernel.Tty.Cook.Editor.{Editor, Shows, WritesOut, type, count_ends, IsOpen}
use linux.Kernel.Tty.Cook.Keys.{echo_char-Out, Keeps}

count_ends-le-length : (tm : Termios) (cs : List ℕ) → count_ends tm cs ≤ length cs
count_ends-le-length tm [] = omega arith
count_ends-le-length tm (c ∷ cs) = ground (arith, count_ends-le-length tm cs)

count_ends-append :
    (tm : Termios) (l cs : List ℕ) → IsOpen tm l → count_ends tm (l ++ cs) ≡ count_ends tm cs
count_ends-append tm [] cs o = refl
count_ends-append tm (c ∷ l) cs o = rw o.0 (count_ends-append tm l cs o.1)

shown_length : (e : Editor) (s : Cooking) → Shows e s → length e.line + length e.done < 1024
shown_length e s h =
    let total : length (items s.tty.secondary) ≡ length e.line + length e.done =
      sym (length-reverse (items s.tty.secondary))
      ∙ ap length h.cooked
      ∙ length-append e.line e.done in
    omega (arith, total, (queue-IsDeque s.tty.secondary h.valid).left_over)

pub line_length : (e : Editor) (s : Cooking) → Shows e s → length e.line < 1024
line_length e s h = omega (arith, shown_length e s h)

store_char-end :
    (d : Driver) (c : ℕ) (t : Tty)
    → WritesOut d
    → is_end t.termios c ≡ true
    → (q : TtyQueue) × (store_char d c t ≡ record t {
      write_q = q;
      secondary = record (putch c t.secondary) { line_data = add32 t.secondary.line_data 1 };
    })
unfolding store_char putch
store_char-end d c t w ends =
    let counted : Tty = record t {
      secondary = record t.secondary { line_data = add32 t.secondary.line_data 1 };
    } in
    let (q, e) = echo_char-Out d c counted w in
    (
      q,
      rw (ends, if◌then◌else◌)
          (ap {A = Tty} {B = Tty} (λ t'. record t' { secondary = putch c t'.secondary }) e),
    )

store_char-other :
    (d : Driver) (c : ℕ) (t : Tty)
    → WritesOut d
    → is_end t.termios c ≡ false
    → (q : TtyQueue) × (store_char d c t
        ≡ record t { write_q = q; secondary = putch c t.secondary })
unfolding store_char
store_char-other d c t w inside =
    let (q, e) = echo_char-Out d c t w in
    (
      q,
      rw (inside, if◌then◌else◌)
          (ap {A = Tty} {B = Tty} (λ t'. record t' { secondary = putch c t'.secondary }) e),
    )

-- A character that is stored is typed into the editor.
pub store_char-Keeps :
    (d : Driver) (c : ℕ) (e : Editor) (s : Cooking)
    → WritesOut d
    → Shows e s
    → is_full s.tty.secondary ≡ false
    → Keeps (type s.tty.termios c e) s (on_tty (store_char d c) s)
unfolding putch
store_char-Keeps d c e s w h room = elim (Bool-cases (is_end s.tty.termios c)) [
  | inl ends ↦
      let (q, f) = store_char-end d c s.tty w ends in
      let n = add32 s.tty.secondary.line_data 1 in
      subst (λ t. Keeps (type s.tty.termios c e) s (record s { tty = t })) (sym f)
        (rw (ends, if◌then◌else◌)
          (
            record {
              valid = record { head = put.1.head; tail = put.1.tail; size = put.1.size };
              cooked =
                  ap reverse (items-line_data (putch c s.tty.secondary) n)
                  ∙ newest-put s.tty.secondary c h.valid room
                  ∙ ap (λ l. c ∷ l) h.cooked;
              open_line = tt;
              closed = ends;
              counted =
                  omega (
                    arith,
                    h.counted,
                    count_ends-append s.tty.termios e.line e.done h.open_line,
                    count_ends-le-length s.tty.termios e.done,
                    shown_length e s h,
                  )
                  ∙ sym (counts_end ends);
              same_stopped = h.same_stopped;
              same_tasks = h.same_tasks;
            },
            record {
              same_termios = refl;
              same_pgrp = refl;
              same_read_q = refl;
              same_proc_list = refl;
            },
          ))
  | inr inside ↦
      let (q, f) = store_char-other d c s.tty w inside in
      subst (λ t. Keeps (type s.tty.termios c e) s (record s { tty = t })) (sym f)
        (rw (inside, if◌then◌else◌)
          (
            record {
              valid = put.1;
              cooked = newest-put s.tty.secondary c h.valid room ∙ ap (λ l. c ∷ l) h.cooked;
              open_line = (inside, h.open_line);
              closed = h.closed;
              counted = h.counted;
              same_stopped = h.same_stopped;
              same_tasks = h.same_tasks;
            },
            record {
              same_termios = refl;
              same_pgrp = refl;
              same_read_q = refl;
              same_proc_list = refl;
            },
          ))
]
  where
    put :
        (items (putch c s.tty.secondary) ≡ items s.tty.secondary ++ (c ∷ []))
        × IsQueue (putch c s.tty.secondary)
    put = (queue-IsDeque s.tty.secondary h.valid).put c room

    counts_end :
        is_end s.tty.termios c ≡ true
        → count_ends s.tty.termios (c ∷ (e.line ++ e.done))
          ≡ suc (count_ends s.tty.termios (e.line ++ e.done))
    counts_end ends = rw (ends, if◌then◌else◌) refl
