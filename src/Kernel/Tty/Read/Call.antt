-- ===== src/Kernel/Tty/Read/Call.antt =====
-- tty_read on a terminal in canonical mode that has a line to give.
use linux.Common.{
  ℕ, suc, ◌^◌, ◌<◌, ◌≡◌, refl, subst, sym, ap, ◌∙◌, inl, inr, Bool, true, false, List, [], ◌∷◌,
  ◌==◌, ◌&&◌, ◌||◌, if◌then◌else◌, arith, length, Bool-cases, not, ltb, leb, bit_and,
}
use linux.Common.Bits.{bit_and-zero_left}
use linux.Common.Word.{is_neg}
use linux.Common.Errno.{ret}
use linux.Kernel.Tty.{Termios, Tty, l_canon}
use linux.Kernel.Tty.Cook.Editor.{count_ends}
use linux.Kernel.Tty.Read.{
  Reader, Inner, take_chars, Turns, ReadEnd, read_end, must_wait, Wanted, wanted, is_flagged,
  with_alarm, set_alarm, end_read, after_chars, read_tty_loop, tty_read, alrmmask,
}
use linux.Kernel.Tty.Read.Line.{line_of, read_as, HasCooked}
use linux.Kernel.Tty.Read.Given.{Given, take_chars-Given, suc_ne, empty-cooked}

-- The call returns the characters of `g`, and leaves the others; the alarm is set back to `oldalarm`,
-- except at an end of file.
pub record Returns (g : List ℕ × List ℕ × Bool) (oldalarm : ℕ) (r : Reader) (e : ReadEnd)
    : Type 0 where
  pub tty : Tty
  pub returns :
      e
      ≡ read_end
          (ret (length g.0))
          g.0
          (record r { tty = tty; alarm = if g.2 then r.alarm else oldalarm })
  pub left : HasCooked g.1 tty
  pub same_rest : tty ≡ read_as tty r.tty

set_alarm-canon :
    (w : Wanted) (flag : Bool) (r : Reader)
    → l_canon r.tty.termios ≡ true
    → set_alarm w flag r ≡ (flag, r)
unfolding set_alarm
set_alarm-canon w flag r k = elim (Bool-cases (w.time == 0)) [
  | inl none_set ↦ rw (none_set, if◌then◌else◌) refl
  | inr timed ↦ rw (timed, k, if◌then◌else◌) refl
]

-- The end of after_chars, from the alarm and the flag that set_alarm gives.
abbrev ending :
    (Bool → ℕ → List ℕ → Reader → ReadEnd) → Wanted → Inner → Reader → Bool × Reader → ReadEnd
ending again w t r s =
    if t.at_eof
    then read_end (ret (length t.got)) t.got r
    else if if l_canon s.1.tty.termios
        then not (length t.got == 0)
        else leb w.minimum (length t.got)
    then end_read w t.got s.1
    else again s.0 t.nr t.got s.1

after_chars-canon :
    (again : Bool → ℕ → List ℕ → Reader → ReadEnd) (w : Wanted) (flag : Bool) (t : Inner)
    (r : Reader)
    → l_canon t.tty.termios ≡ true
    → after_chars again w flag t r
      ≡ ending again w t (record r { tty = t.tty }) (flag, record r { tty = t.tty })
unfolding after_chars
after_chars-canon again w flag t r k =
    ap (ending again w t (record r { tty = t.tty }))
      (set_alarm-canon w flag (record r { tty = t.tty }) k)

after_chars-Returns :
    (again : Bool → ℕ → List ℕ → Reader → ReadEnd) (w : Wanted) (flag : Bool)
    (g : List ℕ × List ℕ × Bool) (t : Inner) (r : Reader)
    → Given g [] r.tty t
    → l_canon r.tty.termios ≡ true
    → r.signal ≡ 0
    → (g.2 ≡ false → (length g.0 == 0) ≡ false)
    → Returns g w.oldalarm r (after_chars again w flag t r)
unfolding end_read
after_chars-Returns again w flag g t r h k quiet some_char =
    let canon : l_canon t.tty.termios ≡ true = ap l_canon h.same_termios ∙ k in
    record {
      tty = t.tty;
      returns = after_chars-canon again w flag t r canon ∙ elim (Bool-cases g.2) [
        | inl eof ↦ rw (h.eof, eof, h.given, if◌then◌else◌) refl
        | inr more ↦ rw (h.eof, more, canon, h.given, some_char more, quiet, if◌then◌else◌) refl
      ];
      left = h.rest;
      same_rest = h.same_rest;
    }

line_of-some :
    (tm : Termios) (nr c : ℕ) (cs : List ℕ)
    → (line_of tm (suc nr) (c ∷ cs)).2 ≡ false
    → (length (line_of tm (suc nr) (c ∷ cs)).0 == 0) ≡ false
unfolding line_of
line_of-some tm nr c cs h = ground arith

-- A line that has ended waits in the queue, or the queue is nearly full.
line_waits :
    (c : ℕ) (cs : List ℕ) (t : Tty)
    → HasCooked (c ∷ cs) t
    → (count_ends t.termios (c ∷ cs) == 0) ≡ false
    → must_wait t ≡ false
unfolding must_wait
line_waits c cs t h some_line =
    rw (empty-cooked (c ∷ cs) t h, suc_ne (length cs), h.counted, some_line)
      (no_wait (l_canon t.termios) _)
  where
    no_wait : (a b : Bool) → (a && false && b) ≡ false
    no_wait true b = refl
    no_wait false b = refl

not_alarmed :
    (flag : Bool) (signal : ℕ) → signal ≡ 0 → (flag && not (bit_and signal alrmmask == 0)) ≡ false
not_alarmed flag signal quiet =
    let zeros : bit_and signal alrmmask ≡ 0 =
      ap (λ s. bit_and s alrmmask) quiet ∙ bit_and-zero_left alrmmask in
    rw zeros (none flag)
  where
    none : (b : Bool) → (b && false) ≡ false
    none true = refl
    none false = refl

read_tty_loop-line :
    (turn : Reader → Reader) (turns : Turns) (w : Wanted) (flag : Bool) (n : ℕ) (r : Reader)
    → (turn r).signal ≡ 0
    → must_wait (turn r).tty ≡ false
    → read_tty_loop (turn ∷ turns) w flag (suc n) [] r
      ≡ after_chars (read_tty_loop turns w) w flag (take_chars (suc n) (turn r).tty []) (turn r)
unfolding read_tty_loop
read_tty_loop-line turn turns w flag n r quiet line =
    rw
      (
        suc_ne n,
        not_alarmed flag (turn r).signal quiet,
        signal_none (turn r).signal quiet,
        line,
        read_tty_loop,
      )
      refl
  where
    signal_none : (signal : ℕ) → signal ≡ 0 → (signal == 0) ≡ true
    signal_none signal q = ground arith

-- Where the first round finds the terminal.
abbrev pub at_first : (Reader → Reader) → ℕ → Reader → Reader
at_first turn nr r = turn (with_alarm (wanted nr r) r)

-- A read of one of the three terminals asks for `nr` characters, positive and below 2 ^ 31. When its first
-- round finds no signal, canonical mode and in the secondary queue, with its indices in range and its
-- lines counted, an ended line, the call returns at once: it gives the characters of the queue in their
-- order, up to `nr` of them or up to an end of file, which is taken from the queue and not given, and
-- returns their number. The queue keeps the characters after them with its lines counted; nothing else of
-- the terminal changes but the tail of that queue and its count of lines. The alarm is set back to what it was before the call, except that a
-- read that meets an end of file leaves the alarm that it finds.
pub tty_read-Returns :
    (turn : Reader → Reader) (turns : Turns) (channel n c : ℕ) (cs : List ℕ) (r : Reader)
    → channel < 3
    → suc n < 2 ^ 31
    → (at_first turn (suc n) r).signal ≡ 0
    → l_canon (at_first turn (suc n) r).tty.termios ≡ true
    → HasCooked (c ∷ cs) (at_first turn (suc n) r).tty
    → (count_ends (at_first turn (suc n) r).tty.termios (c ∷ cs) == 0) ≡ false
    → Returns
        (line_of (at_first turn (suc n) r).tty.termios (suc n) (c ∷ cs))
        r.alarm
        (at_first turn (suc n) r)
        (tty_read (turn ∷ turns) channel (suc n) r)
unfolding tty_read wanted
tty_read-Returns turn turns channel n c cs r hc hn quiet canon h some_line =
    let w = wanted (suc n) r in
    let r1 = at_first turn (suc n) r in
    let flag = is_flagged w r in
    let given = take_chars-Given n c cs r1.tty [] canon h in
    let result =
      after_chars-Returns (read_tty_loop turns w) w flag (line_of r1.tty.termios (suc n) (c ∷ cs))
        (take_chars (suc n) r1.tty []) r1 given canon quiet (line_of-some r1.tty.termios n c cs) in
    let once =
      read_tty_loop-line turn turns w flag n (with_alarm w r) quiet
        (line_waits c cs r1.tty h some_line) in
    rw (good channel (suc n) hc hn, if◌then◌else◌)
      (subst (λ e. Returns (line_of r1.tty.termios (suc n) (c ∷ cs)) r.alarm r1 e) (sym once)
        result)
  where
    good : (channel nr : ℕ) → channel < 3 → nr < 2 ^ 31 → (ltb 2 channel || is_neg nr) ≡ false
    good channel nr h k = ground arith
