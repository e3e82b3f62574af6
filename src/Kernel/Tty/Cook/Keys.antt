-- ===== src/Kernel/Tty/Cook/Keys.antt =====
-- What each part of copy_to_cooked does to the editor that a terminal shows.
use linux.Common.{
  ℕ, zero, suc, ◌+◌, ◌%◌, ◌<◌, ◌≡◌, refl, subst, sym, ap, ◌∙◌, Bool, true, false, List, [], ◌∷◌,
  ◌++◌, ◌==◌, ◌||◌, if◌then◌else◌, arith, length, drop,
}
use linux.Kernel.TtyQueue.{TtyQueue, is_empty, last_char, dec_head, putch}
use linux.Kernel.TtyQueue.Newest.{newest-empty, newest-take, Taken}
use linux.Kernel.Tty.{Tty, Driver, flag, is_control, put_write, echo, echoctl}
use linux.Kernel.Tty.Cook.{
  Cooking, on_tty, echo_removal, at_line_start, remove_last, kill_loop, echo_char,
}
use linux.Kernel.Tty.Cook.Editor.{Editor, Shows, WritesOut, kill, erase, IsOpen, IsClosed}

abbrev pub Out : Tty → Tty → Type 0
Out t t' = (q : TtyQueue) × (t' ≡ record t { write_q = q })

write-Out : (d : Driver) → WritesOut d → (t t' : Tty) → Out t t' → Out t (d.write t')
write-Out d w t t' o =
    let (q, e) = o in let (r, f) = w (record t { write_q = q }) in (r, ap d.write e ∙ f)

if-Out : (b : Bool) (t x y : Tty) → Out t x → Out t y → Out t (if b then x else y)
if-Out true t x y h k = h
if-Out false t x y h k = k

put_write-Out : (c : ℕ) (t t' : Tty) → Out t t' → Out t (put_write c t')
unfolding put_write
put_write-Out c t t' o = let (q, e) = o in (putch c q, ap (put_write c) e)

self-Out : (t : Tty) → Out t t
self-Out t = (t.write_q, refl)

echo_removal-Out : (d : Driver) (c : ℕ) (t : Tty) → WritesOut d → Out t (echo_removal d c t)
unfolding echo_removal
echo_removal-Out d c t w =
    if-Out (flag t.termios.c_lflag echo) t _ _
      (write-Out d w t _ (
        put_write-Out 127 t _
          (if-Out (is_control c) t _ _ (put_write-Out 127 t _ (self-Out t)) (self-Out t))))
      (self-Out t)

pub echo_char-Out : (d : Driver) (c : ℕ) (t : Tty) → WritesOut d → Out t (echo_char d c t)
unfolding echo_char
echo_char-Out d c t w =
    if-Out (flag t.termios.c_lflag echo) t _ _
      (write-Out d w t _ (
        if-Out (c == 10) t _ _ (put_write-Out 13 t _ (put_write-Out 10 t _ (self-Out t))) (
          if-Out (is_control c) t _ _
            (if-Out (flag t.termios.c_lflag echoctl) t _ _
              (put_write-Out ((c + 64) % 256) t _ (put_write-Out 94 t _ (self-Out t))) (self-Out t))
            (put_write-Out c t _ (self-Out t)))))
      (self-Out t)

-- What no key changes.
pub record Kept (t t' : Tty) : Type 0 where
  pub same_termios : t'.termios ≡ t.termios
  pub same_pgrp : t'.pgrp ≡ t.pgrp
  pub same_read_q : t'.read_q ≡ t.read_q
  pub same_proc_list : t'.secondary.proc_list ≡ t.secondary.proc_list

pub Kept-refl : (t : Tty) → Kept t t
Kept-refl t = record {
  same_termios = refl;
  same_pgrp = refl;
  same_read_q = refl;
  same_proc_list = refl;
}

pub Kept-trans : {t t' t'' : Tty} → Kept t t' → Kept t' t'' → Kept t t''
Kept-trans h k = record {
  same_termios = k.same_termios ∙ h.same_termios;
  same_pgrp = k.same_pgrp ∙ h.same_pgrp;
  same_read_q = k.same_read_q ∙ h.same_read_q;
  same_proc_list = k.same_proc_list ∙ h.same_proc_list;
}

abbrev pub Keeps : Editor → Cooking → Cooking → Type 0
Keeps e s s' = Shows e s' × Kept s.tty s'.tty

remove_last-eq :
    (d : Driver) (t : Tty)
    → WritesOut d
    → (q : TtyQueue) × (remove_last d t
        ≡ record t { write_q = q; secondary = dec_head t.secondary })
unfolding remove_last
remove_last-eq d t w =
    let (q, e) = echo_removal-Out d (last_char t.secondary) t w in
    (q, ap {A = Tty} {B = Tty} (λ t'. record t' { secondary = dec_head t'.secondary }) e)

taken :
    (e : Editor) (s : Cooking) (c : ℕ) (l : List ℕ)
    → Shows e s
    → e.line ≡ c ∷ l
    → Taken s.tty.secondary c (l ++ e.done)
taken e s c l h q =
    newest-take s.tty.secondary c (l ++ e.done) h.valid (h.cooked ∙ ap (λ k. k ++ e.done) q)

pub remove_last-Keeps :
    (d : Driver) (e : Editor) (s : Cooking) (c : ℕ) (l : List ℕ)
    → WritesOut d
    → Shows e s
    → e.line ≡ c ∷ l
    → Keeps (record e { line = l }) s (on_tty (remove_last d) s)
unfolding dec_head
remove_last-Keeps d e s c l w h q =
    let (r, f) = remove_last-eq d s.tty w in
    let got = taken e s c l h q in
    subst (λ t. Keeps (record e { line = l }) s (record s { tty = t })) (sym f)
      (
        record {
          valid = got.valid;
          cooked = got.fewer;
          open_line = (subst (IsOpen s.tty.termios) q h.open_line).1;
          closed = h.closed;
          counted = h.counted;
          same_stopped = h.same_stopped;
          same_tasks = h.same_tasks;
        },
        record { same_termios = refl; same_pgrp = refl; same_read_q = refl; same_proc_list = refl },
      )

pub in_line :
    (e : Editor) (s : Cooking) (c : ℕ) (l : List ℕ)
    → Shows e s
    → e.line ≡ c ∷ l
    → at_line_start s.tty ≡ false
unfolding at_line_start
in_line e s c l h q =
    let got = taken e s c l h q in
    rw (got.some_char, got.last) ((subst (IsOpen s.tty.termios) q h.open_line).0)

line_start :
    (e : Editor) (s : Cooking) (done : List ℕ)
    → Shows e s
    → e.line ≡ []
    → e.done ≡ done
    → at_line_start s.tty ≡ true
unfolding at_line_start
line_start e s [] h q f =
    let none_left : is_empty s.tty.secondary ≡ true =
      newest-empty s.tty.secondary h.valid
      ∙ ap (λ k. length k == 0) (h.cooked ∙ ap (λ k. k ++ e.done) q ∙ f) in
    rw (none_left, ◌||◌) refl
line_start e s (c ∷ cs) h q f =
    let got = newest-take s.tty.secondary c cs h.valid (h.cooked ∙ ap (λ k. k ++ e.done) q ∙ f) in
    rw (got.some_char, got.last) (subst (IsClosed s.tty.termios) f h.closed)

pub at_start : (e : Editor) (s : Cooking) → Shows e s → e.line ≡ [] → at_line_start s.tty ≡ true
at_start e s h q = line_start e s e.done h q refl

Shows-line :
    (e : Editor) (s : Cooking) (l : List ℕ)
    → Shows e s
    → e.line ≡ l
    → Shows (record e { line = l }) s
Shows-line e s l h q = record {
  valid = h.valid;
  cooked = h.cooked ∙ ap (λ k. k ++ e.done) q;
  open_line = subst (IsOpen s.tty.termios) q h.open_line;
  closed = h.closed;
  counted = h.counted;
  same_stopped = h.same_stopped;
  same_tasks = h.same_tasks;
}

-- The kill character empties the line, in at most as many rounds as the line has characters.
pub kill_loop-Keeps :
    (n : ℕ) (d : Driver) (e : Editor) (s : Cooking) (l : List ℕ)
    → WritesOut d
    → Shows e s
    → e.line ≡ l
    → length l < n
    → Keeps (kill e) s (on_tty (kill_loop n d) s)
unfolding kill_loop
kill_loop-Keeps zero d e s l w h q b = absurd (omega arith)
kill_loop-Keeps (suc n) d e s [] w h q b =
    rw (at_start e s h q, kill_loop) (Shows-line e s [] h q, Kept-refl s.tty)
kill_loop-Keeps (suc n) d e s (c ∷ l) w h q b =
    let (shown, kept) = remove_last-Keeps d e s c l w h q in
    let (shown', kept') =
      kill_loop-Keeps n d (record e { line = l }) (on_tty (remove_last d) s) l w shown refl
        (omega arith) in
    rw (in_line e s c l h q, kill_loop) (shown', Kept-trans kept kept')

abbrev next_of : Driver → Cooking → Cooking
next_of d s = if at_line_start s.tty then s else on_tty (remove_last d) s

-- The erase character takes the newest character of the line back, if there is one.
pub erase-Keeps :
    (d : Driver) (e : Editor) (s : Cooking) (l : List ℕ)
    → WritesOut d
    → Shows e s
    → e.line ≡ l
    → Keeps (erase e) s (next_of d s)
erase-Keeps d e s [] w h q =
    subst (λ k. Keeps (record e { line = drop 1 k }) s (next_of d s)) (sym q)
      (rw (at_start e s h q) (Shows-line e s [] h q, Kept-refl s.tty))
erase-Keeps d e s (c ∷ l) w h q =
    subst (λ k. Keeps (record e { line = drop 1 k }) s (next_of d s)) (sym q)
      (rw (in_line e s c l h q) (remove_last-Keeps d e s c l w h q))
