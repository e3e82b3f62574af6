-- ===== src/Kernel/Tty/Read/Line.antt =====
-- What tty_read takes from a terminal in canonical mode.
use linux.Common.{
  ℕ, zero, suc, ◌^◌, ◌≤◌, ◌<◌, ◌≡◌, refl, subst, sym, ap, ◌∙◌, inl, inr, Bool, true, false, List,
  [], ◌∷◌, ◌==◌, if◌then◌else◌, arith, length, Bool-cases,
}
use linux.Common.Word.{sub32}
use linux.Kernel.TtyQueue.{is_empty, getch}
use linux.Kernel.TtyQueue.Items.{IsQueue, items, queue-IsDeque}
use linux.Kernel.TtyQueue.Newest.{items-line_data}
use linux.Kernel.Tty.{Termios, Tty, is_end, is_cc, veof}
use linux.Kernel.Tty.Cook.Editor.{count_ends}
use linux.Kernel.Tty.Read.{take_char}

-- At most `nr` characters of the cooked ones, up to an end of file, which is taken away and not given:
-- the characters given, those left, and whether an end of file was met.
unfoldable pub line_of : Termios → ℕ → List ℕ → List ℕ × List ℕ × Bool
line_of tm zero cs = ([], cs, false)
line_of tm (suc nr) [] = ([], [], false)
line_of tm (suc nr) (c ∷ cs) =
    let (given, left, eof) = line_of tm nr cs in
    if is_cc veof tm c then ([], cs, true) else (c ∷ given, left, eof)

-- The terminal `t'` is `t` with the characters `cs` left to read, all its ended lines counted.
pub record HasCooked (cs : List ℕ) (t : Tty) : Type 0 where
  pub valid : IsQueue t.secondary
  pub cooked : items t.secondary ≡ cs
  pub counted : t.secondary.line_data ≡ count_ends t.termios cs

count_ends-lt : (tm : Termios) (cs : List ℕ) → count_ends tm cs ≤ length cs
count_ends-lt tm [] = omega arith
count_ends-lt tm (c ∷ cs) = ground (arith, count_ends-lt tm cs)

-- `t` with the end of its secondary queue that is read, and the count of its lines, as they are in `t'`.
abbrev pub read_as : Tty → Tty → Tty
read_as t' t = record t {
  secondary = record t.secondary { tail = t'.secondary.tail; line_data = t'.secondary.line_data };
}

pub record Taken (c : ℕ) (cs : List ℕ) (t : Tty) (r : ℕ × Tty) : Type 0 where
  pub first : r.0 ≡ c
  pub rest : HasCooked cs r.1
  pub same_termios : r.1.termios ≡ t.termios
  pub same_rest : r.1 ≡ read_as r.1 t

down : (n : ℕ) → n < 2 ^ 31 → sub32 (suc n) 1 ≡ n
down n h = omega arith

pub take_char-Taken :
    (c : ℕ) (cs : List ℕ) (t : Tty) → HasCooked (c ∷ cs) t → Taken c cs t (take_char t)
unfolding take_char getch
take_char-Taken c cs t h = elim (Bool-cases (is_end t.termios (getch t.secondary).0)) [
  | inl ends ↦
      let n = sub32 t.secondary.line_data 1 in
      rw (ends, if◌then◌else◌)
        (record {
          first = first;
          rest = record {
            valid = record { head = got.1.head; tail = got.1.tail; size = got.1.size };
            cooked = items-line_data (getch t.secondary).1 n ∙ left;
            counted =
                ap (λ k. sub32 k 1)
                  (h.counted ∙ is_counted (subst (λ k. is_end t.termios k ≡ true) first ends))
                ∙ down (count_ends t.termios cs) few;
          };
          same_termios = refl;
          same_rest = refl;
        })
  | inr inside ↦
      rw (inside, if◌then◌else◌)
        (record {
          first = first;
          rest = record {
            valid = got.1;
            cooked = left;
            counted =
                h.counted ∙ not_counted (subst (λ k. is_end t.termios k ≡ false) first inside);
          };
          same_termios = refl;
          same_rest = refl;
        })
]
  where
    suc_ne : (n : ℕ) → (suc n == 0) ≡ false
    suc_ne n = ground arith

    head_of : {a b : ℕ} {xs ys : List ℕ} → a ∷ xs ≡ b ∷ ys → a ≡ b
    head_of q = cc

    tail_of : {a b : ℕ} {xs ys : List ℕ} → a ∷ xs ≡ b ∷ ys → xs ≡ ys
    tail_of q = cc

    some_char : is_empty t.secondary ≡ false
    some_char =
        (queue-IsDeque t.secondary h.valid).empty
        ∙ ap (λ l. length l == 0) h.cooked
        ∙ suc_ne (length cs)

    got :
        (items t.secondary ≡ (getch t.secondary).0 ∷ items (getch t.secondary).1)
        × IsQueue (getch t.secondary).1
    got = (queue-IsDeque t.secondary h.valid).get some_char

    first : (getch t.secondary).0 ≡ c
    first = head_of (sym got.0 ∙ h.cooked)

    left : items (getch t.secondary).1 ≡ cs
    left = tail_of (sym got.0 ∙ h.cooked)

    total : length (items t.secondary) ≡ suc (length cs)
    total = ap length h.cooked

    few : count_ends t.termios cs < 2 ^ 31
    few =
        omega
          (arith, total, count_ends-lt t.termios cs, (queue-IsDeque t.secondary h.valid).left_over)

    is_counted :
        is_end t.termios c ≡ true → count_ends t.termios (c ∷ cs) ≡ suc (count_ends t.termios cs)
    is_counted e = rw (e, if◌then◌else◌) refl

    not_counted :
        is_end t.termios c ≡ false → count_ends t.termios (c ∷ cs) ≡ count_ends t.termios cs
    not_counted e = rw (e, if◌then◌else◌) refl
