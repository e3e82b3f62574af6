-- ===== src/Kernel/Tty/Read/Given.antt =====
-- tty_read in canonical mode gives the line that waits, without going to sleep.
use linux.Common.{
  ℕ, zero, suc, ◌≡◌, refl, subst, sym, ap, ◌∙◌, inl, inr, Bool, true, false, List, [], ◌∷◌, ◌++◌,
  ◌==◌, ◌&&◌, ◌||◌, if◌then◌else◌, arith, length, Bool-cases,
}
use mathlib.Core.List.{append_assoc, append-nil}
use linux.Kernel.TtyQueue.{is_empty}
use linux.Kernel.TtyQueue.Items.{queue-IsDeque}
use linux.Kernel.Tty.{Tty, is_cc, l_canon, veof}
use linux.Kernel.Tty.Read.{Inner, take_char, take_chars}
use linux.Kernel.Tty.Read.Line.{line_of, read_as, HasCooked, Taken, take_char-Taken}

pub record Given (g : List ℕ × List ℕ × Bool) (got : List ℕ) (t : Tty) (r : Inner) : Type 0 where
  pub given : r.got ≡ got ++ g.0
  pub rest : HasCooked g.1 r.tty
  pub eof : r.at_eof ≡ g.2
  pub same_termios : r.tty.termios ≡ t.termios
  pub same_rest : r.tty ≡ read_as r.tty t

pub suc_ne : (n : ℕ) → (suc n == 0) ≡ false
suc_ne n = ground arith

pub empty-cooked :
    (cs : List ℕ) (t : Tty) → HasCooked cs t → is_empty t.secondary ≡ (length cs == 0)
empty-cooked cs t h = (queue-IsDeque t.secondary h.valid).empty ∙ ap (λ l. length l == 0) h.cooked

-- One round of the inner loop, on what take_char takes.
abbrev round : ℕ → Tty → List ℕ → ℕ × Tty → Inner
round nr t got p =
    if is_cc veof t.termios p.0 && l_canon t.termios
    then record { tty = p.1; got = got; nr = suc nr; at_eof = true }
    else if nr == 0 || is_empty p.1.secondary
    then record { tty = p.1; got = got ++ (p.0 ∷ []); nr = nr; at_eof = false }
    else take_chars nr p.1 (got ++ (p.0 ∷ []))

take_chars-round :
    (nr : ℕ) (t : Tty) (got : List ℕ) → take_chars (suc nr) t got ≡ round nr t got (take_char t)
unfolding take_chars
take_chars-round nr t got = refl

module _ (c : ℕ) (cs : List ℕ) (t : Tty) (got : List ℕ) (p : ℕ × Tty) (h : Taken c cs t p) where
  ended :
      (nr : ℕ)
      → l_canon t.termios ≡ true
      → is_cc veof t.termios c ≡ true
      → Given (line_of t.termios (suc nr) (c ∷ cs)) got t (round nr t got p)
  unfolding line_of
  ended nr k eof =
      rw (h.first, eof, k, if◌then◌else◌)
        (record {
          given = sym (append-nil got);
          rest = h.rest;
          eof = refl;
          same_termios = h.same_termios;
          same_rest = h.same_rest;
        })

  last_one :
      (nr : ℕ)
      → is_cc veof t.termios c ≡ false
      → (nr == 0 || is_empty p.1.secondary) ≡ true
      → line_of t.termios nr cs ≡ ([], cs, false)
      → Given (line_of t.termios (suc nr) (c ∷ cs)) got t (round nr t got p)
  unfolding line_of
  last_one nr other last no_more =
      rw (h.first, other, last, no_more, if◌then◌else◌)
        (record {
          given = refl;
          rest = h.rest;
          eof = refl;
          same_termios = h.same_termios;
          same_rest = h.same_rest;
        })

  and_more :
      (nr : ℕ)
      → is_cc veof t.termios c ≡ false
      → (nr == 0 || is_empty p.1.secondary) ≡ false
      → Given (line_of t.termios nr cs) (got ++ (c ∷ [])) p.1 (take_chars nr p.1 (got ++ (c ∷ [])))
      → Given (line_of t.termios (suc nr) (c ∷ cs)) got t (round nr t got p)
  unfolding line_of
  and_more nr other last g =
      rw (h.first, other, last, if◌then◌else◌)
        (record {
          given = g.given ∙ append_assoc got (c ∷ []) (line_of t.termios nr cs).0;
          rest = g.rest;
          eof = g.eof;
          same_termios = g.same_termios ∙ h.same_termios;
          same_rest =
              g.same_rest ∙ ap (read_as (take_chars nr p.1 (got ++ (c ∷ []))).tty) h.same_rest;
        })

pub take_chars-Given :
    (nr c : ℕ) (cs : List ℕ) (t : Tty) (got : List ℕ)
    → l_canon t.termios ≡ true
    → HasCooked (c ∷ cs) t
    → Given (line_of t.termios (suc nr) (c ∷ cs)) got t (take_chars (suc nr) t got)
unfolding line_of
take_chars-Given zero c cs t got k h =
    let p = take_char t in
    let h1 = take_char-Taken c cs t h in
    rw (take_chars-round zero t got) (elim (Bool-cases (is_cc veof t.termios c)) [
      | inl eof ↦ ended c cs t got p h1 zero k eof
      | inr other ↦ last_one c cs t got p h1 zero other refl refl
    ])
take_chars-Given (suc nr) c [] t got k h =
    let p = take_char t in
    let h1 = take_char-Taken c [] t h in
    rw (take_chars-round (suc nr) t got) (elim (Bool-cases (is_cc veof t.termios c)) [
      | inl eof ↦ ended c [] t got p h1 (suc nr) k eof
      | inr other ↦
          last_one c [] t got p h1 (suc nr) other (rw (empty-cooked [] p.1 h1.rest, suc_ne nr) refl)
            refl
    ])
take_chars-Given (suc nr) c (c' ∷ cs) t got k h =
    let p = take_char t in
    let h1 = take_char-Taken c (c' ∷ cs) t h in
    let g =
      take_chars-Given nr c' cs p.1 (got ++ (c ∷ [])) (ap l_canon h1.same_termios ∙ k) h1.rest in
    rw (take_chars-round (suc nr) t got) (elim (Bool-cases (is_cc veof t.termios c)) [
      | inl eof ↦ ended c (c' ∷ cs) t got p h1 (suc nr) k eof
      | inr other ↦
          and_more c (c' ∷ cs) t got p h1 (suc nr) other
            (rw (empty-cooked (c' ∷ cs) p.1 h1.rest, suc_ne nr, suc_ne (length cs)) refl)
            (subst
              (λ tm.
                Given (line_of tm (suc nr) (c' ∷ cs)) (got ++ (c ∷ [])) p.1
                  (take_chars (suc nr) p.1 (got ++ (c ∷ []))))
              h1.same_termios g)
    ])
