-- ===== src/Kernel/TtyQueue/Newest.antt =====
-- A queue as the list of its characters with the newest first, for the calls that take characters back.
use linux.Common.{
  ℕ, suc, ◌≡◌, refl, sym, ap, ◌∙◌, false, List, [], ◌∷◌, ◌==◌, arith, length, length-append,
}
use mathlib.Core.List.{reverse, reverse-append, reverse-cons}
use linux.Kernel.TtyQueue.{TtyQueue, is_empty, is_full, left_of, chars, last_char, dec_head, putch}
use linux.Kernel.TtyQueue.Items.{IsQueue, items, queue-IsDeque}

pub length-reverse : (xs : List ℕ) → length (reverse xs) ≡ length xs
length-reverse [] = refl
length-reverse (x ∷ xs) =
    ap length (reverse-cons x xs)
    ∙ length-append (reverse xs) (x ∷ [])
    ∙ omega (arith, length-reverse xs)

-- EMPTY and FULL on the list.
pub newest-empty : (q : TtyQueue) → IsQueue q → is_empty q ≡ (length (reverse (items q)) == 0)
newest-empty q v = rw (length-reverse (items q)) ((queue-IsDeque q v).empty)

pub newest-full : (q : TtyQueue) → IsQueue q → is_full q ≡ (length (reverse (items q)) == 1023)
newest-full q v = rw (length-reverse (items q)) (ground (arith, (queue-IsDeque q v).left_over))

pub newest-put :
    (q : TtyQueue) (c : ℕ)
    → IsQueue q
    → is_full q ≡ false
    → reverse (items (putch c q)) ≡ c ∷ reverse (items q)
newest-put q c v room =
    ap reverse ((queue-IsDeque q v).put c room).0 ∙ reverse-append (items q) (c ∷ [])

pub record Taken (q : TtyQueue) (c : ℕ) (cs : List ℕ) : Type 0 where
  pub some_char : is_empty q ≡ false
  pub last : last_char q ≡ c
  pub fewer : reverse (items (dec_head q)) ≡ cs
  pub valid : IsQueue (dec_head q)

-- LAST and DEC of the head on the list.
pub newest-take :
    (q : TtyQueue) (c : ℕ) (cs : List ℕ) → IsQueue q → reverse (items q) ≡ c ∷ cs → Taken q c cs
newest-take q c cs v e = record {
  some_char = some_char;
  last = head_of both;
  fewer = tail_of both;
  valid = ((queue-IsDeque q v).drop some_char).1;
}
  where
    suc_ne : (n : ℕ) → (suc n == 0) ≡ false
    suc_ne n = ground arith

    some_char : is_empty q ≡ false
    some_char = newest-empty q v ∙ ap (λ l. length l == 0) e ∙ suc_ne (length cs)

    both : last_char q ∷ reverse (items (dec_head q)) ≡ c ∷ cs
    both =
        sym (reverse-append (items (dec_head q)) (last_char q ∷ []))
        ∙ sym (ap reverse ((queue-IsDeque q v).drop some_char).0)
        ∙ e

    head_of : {a b : ℕ} {xs ys : List ℕ} → a ∷ xs ≡ b ∷ ys → a ≡ b
    head_of h = cc

    tail_of : {a b : ℕ} {xs ys : List ℕ} → a ∷ xs ≡ b ∷ ys → xs ≡ ys
    tail_of h = cc

-- The count of lines is no part of the list.
pub items-line_data : (q : TtyQueue) (n : ℕ) → items (record q { line_data = n }) ≡ items q
unfolding chars
items-line_data q n = refl

pub is_full-line_data : (q : TtyQueue) (n : ℕ) → is_full (record q { line_data = n }) ≡ is_full q
unfolding left_of
is_full-line_data q n = refl

pub putch-line_data :
    (q : TtyQueue) (c n : ℕ)
    → putch c (record q { line_data = n }) ≡ record (putch c q) { line_data = n }
unfolding putch
putch-line_data q c n = refl
