-- ===== src/Kernel/Tty/Cook/Refines.antt =====
-- copy_to_cooked is the line editor, run on the characters of the read queue.
use linux.Common.{
  ℕ, suc, ◌≡◌, refl, subst, sym, ap, ◌∙◌, Bool, true, false, Option, none, some, List, ◌∷◌, ◌==◌,
  ◌&&◌, if◌then◌else◌, arith, length,
}
use linux.Kernel.Task.{sig_bit, sigint}
use linux.Kernel.TtyQueue.{is_empty, is_full, getch, tty_buf_size}
use linux.Kernel.TtyQueue.Items.{IsQueue, items, queue-IsDeque}
use linux.Kernel.Tty.{
  Driver, tty_intr, flag, l_canon, is_cc, isig, vintr, vquit, verase, vkill, vstart, vstop,
}
use linux.Kernel.Tty.Cook.{
  Cooking, on_tty, sigquit, signal_group, translate, other_char, cook_char, cook_next,
}
use linux.Kernel.Tty.Cook.Editor.{
  Editor, Shows, WritesOut, keystroke, keystroke?, plain, raise_group,
}
use linux.Kernel.Tty.Cook.Keys.{Kept, Kept-refl, Keeps, kill_loop-Keeps, erase-Keeps}
use linux.Kernel.Tty.Cook.Store.{store_char-Keeps, line_length}

if-Keeps :
    (b : Bool) (e e' : Editor) (s t t' : Cooking)
    → Keeps e s t
    → Keeps e' s t'
    → Keeps (if b then e else e') s (if b then t else t')
if-Keeps true e e' s t t' h k = h
if-Keeps false e e' s t t' h k = k

signal-Keeps :
    (mask : ℕ) (e : Editor) (s : Cooking)
    → Shows e s
    → Keeps (raise_group s.tty.pgrp mask e) s (signal_group mask s)
signal-Keeps mask e s h = (
  record {
    valid = h.valid;
    cooked = h.cooked;
    open_line = h.open_line;
    closed = h.closed;
    counted = h.counted;
    same_stopped = h.same_stopped;
    same_tasks = ap (tty_intr s.tty.pgrp mask) h.same_tasks;
  },
  Kept-refl s.tty,
)

stop-Keeps :
    (n : ℕ) (e : Editor) (s : Cooking)
    → Shows e s
    → Keeps (record e { stopped = n }) s (on_tty (λ t. record t { stopped = n }) s)
stop-Keeps n e s h = (
  record {
    valid = h.valid;
    cooked = h.cooked;
    open_line = h.open_line;
    closed = h.closed;
    counted = h.counted;
    same_stopped = refl;
    same_tasks = h.same_tasks;
  },
  record { same_termios = refl; same_pgrp = refl; same_read_q = refl; same_proc_list = refl },
)

module _ (d : Driver) (w : WritesOut d) where
  other_char-Keeps :
      (c : ℕ) (e : Editor) (s : Cooking)
      → Shows e s
      → is_full s.tty.secondary ≡ false
      → Keeps (plain s.tty.termios s.tty.pgrp c e) s (other_char d c s)
  unfolding other_char
  other_char-Keeps c e s h room =
      if-Keeps (flag s.tty.termios.c_lflag isig && is_cc vintr s.tty.termios c) _ _ s _ _
        (signal-Keeps (sig_bit sigint) e s h)
        (if-Keeps (flag s.tty.termios.c_lflag isig && is_cc vquit s.tty.termios c) _ _ s _ _
          (signal-Keeps (sig_bit sigquit) e s h) (store_char-Keeps d c e s w h room))

  cook_char-Keeps :
      (c : ℕ) (e : Editor) (s : Cooking)
      → Shows e s
      → is_full s.tty.secondary ≡ false
      → Keeps (keystroke s.tty.termios s.tty.pgrp c e) s (cook_char d c s)
  unfolding cook_char keystroke
  cook_char-Keeps c e s h room =
      if-Keeps (l_canon s.tty.termios) _ _ s _ _
        (if-Keeps (is_cc vkill s.tty.termios c) _ _ s _ _
          (kill_loop-Keeps tty_buf_size d e s e.line w h refl (line_length e s h))
          (if-Keeps (is_cc verase s.tty.termios c) _ _ s _ _ (erase-Keeps d e s e.line w h refl) (
            if-Keeps (is_cc vstop s.tty.termios c) _ _ s _ _ (stop-Keeps 1 e s h) (
              if-Keeps (is_cc vstart s.tty.termios c) _ _ s _ _ (stop-Keeps 0 e s h)
                (other_char-Keeps c e s h room)))))
        (other_char-Keeps c e s h room)

  pressed-Keeps :
      (o : Option ℕ) (e : Editor) (s : Cooking)
      → Shows e s
      → is_full s.tty.secondary ≡ false
      → Keeps
          (keystroke? s.tty.termios s.tty.pgrp o e)
          s
          (elim o [ none ↦ s | some c ↦ cook_char d c s ])
  pressed-Keeps none e s h room = (h, Kept-refl s.tty)
  pressed-Keeps (some c) e s h room = cook_char-Keeps c e s h room

  -- One round of the loop, on a read queue with the first character `c`.
  pub next-Keeps :
      (c : ℕ) (cs : List ℕ) (e : Editor) (s : Cooking)
      → IsQueue s.tty.read_q
      → items s.tty.read_q ≡ c ∷ cs
      → Shows e s
      → is_full s.tty.secondary ≡ false
      → let s' = cook_next d s in
        Shows (keystroke? s.tty.termios s.tty.pgrp (translate d s.tty.termios c) e) s'
        × Kept s.tty (record s'.tty { read_q = s.tty.read_q })
        × (items s'.tty.read_q ≡ cs)
        × IsQueue s'.tty.read_q
  unfolding cook_next
  next-Keeps c cs e s v f h room =
      let some_char : is_empty s.tty.read_q ≡ false =
        (queue-IsDeque s.tty.read_q v).empty ∙ ap (λ l. length l == 0) f ∙ suc_ne (length cs) in
      let got = (queue-IsDeque s.tty.read_q v).get some_char in
      let first : (getch s.tty.read_q).0 ≡ c = head_of (sym got.0 ∙ f) in
      let left : items (getch s.tty.read_q).1 ≡ cs = tail_of (sym got.0 ∙ f) in
      let s1 = on_tty (λ t. record t { read_q = (getch s.tty.read_q).1 }) s in
      let h1 : Shows e s1 = record {
        valid = h.valid;
        cooked = h.cooked;
        open_line = h.open_line;
        closed = h.closed;
        counted = h.counted;
        same_stopped = h.same_stopped;
        same_tasks = h.same_tasks;
      } in
      let (shown, kept) =
        pressed-Keeps (translate d s.tty.termios (getch s.tty.read_q).0) e s1 h1 room in
      (
        subst
            (λ k.
              Shows (keystroke? s.tty.termios s.tty.pgrp (translate d s.tty.termios k) e)
                (cook_next d s))
            first shown,
        record {
          same_termios = kept.same_termios;
          same_pgrp = kept.same_pgrp;
          same_read_q = refl;
          same_proc_list = kept.same_proc_list;
        },
        ap items kept.same_read_q ∙ left,
        subst IsQueue (sym kept.same_read_q) got.1,
      )
    where
      suc_ne : (n : ℕ) → (suc n == 0) ≡ false
      suc_ne n = ground arith

      head_of : {a b : ℕ} {xs ys : List ℕ} → a ∷ xs ≡ b ∷ ys → a ≡ b
      head_of q = cc

      tail_of : {a b : ℕ} {xs ys : List ℕ} → a ∷ xs ≡ b ∷ ys → xs ≡ ys
      tail_of q = cc
