-- ===== src/Kernel/TtyQueue/Items.antt =====
-- A queue as the list of its characters, the oldest first.
use linux.Common.{
  ℕ, zero, suc, ◌+◌, ◌%◌, ◌<◌, ◌≡◌, refl, ◌≢◌, false, List, [], ◌∷◌, ◌++◌, ◌==◌, arith, length,
  length-set, get_or, set, get_or-set_self, get_or-set_ne, sym, ap, ◌∙◌,
}
use linux.Common.Word.{add32, sub32}
use linux.Kernel.TtyQueue.{
  TtyQueue, is_empty, left_of, chars, is_full, last_char, dec_head, getch, putch, tty_buf_size,
}

pub record IsQueue (q : TtyQueue) : Type 0 where
  pub head : q.head < tty_buf_size
  pub tail : q.tail < tty_buf_size
  pub size : length q.buf ≡ tty_buf_size

abbrev from : ℕ → ℕ → List ℕ → List ℕ
from zero i buf = []
from (suc n) i buf = get_or buf i 0 ∷ from n ((i + 1) % 1024) buf

abbrev pub items : TtyQueue → List ℕ
items q = from (chars q) q.tail q.buf

from-last :
    (n i : ℕ) (buf : List ℕ)
    → i < 1024
    → from (suc n) i buf ≡ from n i buf ++ (get_or buf ((i + n) % 1024) 0 ∷ [])
from-last zero i buf h = ap (λ k. get_or buf k 0 ∷ []) (omega arith)
from-last (suc n) i buf h =
    let same : ((i + 1) % 1024 + n) % 1024 ≡ (i + suc n) % 1024 = omega arith in
    ap (λ l. get_or buf i 0 ∷ l)
      (from-last n ((i + 1) % 1024) buf (omega arith)
        ∙ ap (λ k. from n ((i + 1) % 1024) buf ++ (get_or buf k 0 ∷ [])) same)

from-set :
    (n i j c : ℕ) (buf : List ℕ)
    → i < 1024
    → n < 1024
    → ((k : ℕ) → k < n → (i + k) % 1024 ≢ j)
    → from n i (set buf j c) ≡ from n i buf
from-set zero i j c buf h l apart = refl
from-set (suc n) i j c buf h l apart =
    let ne : j ≢ i = λ e. apart 0 (omega arith) (omega (arith, e)) in
    let rest =
      from-set n ((i + 1) % 1024) j c buf (omega arith) (omega arith)
        (λ k b e. apart (suc k) (omega arith) (omega (arith, e))) in
    ap (λ x. x ∷ from n ((i + 1) % 1024) (set buf j c)) (get_or-set_ne buf {i = j} {j = i} c 0 ne)
    ∙ ap (λ r. get_or buf i 0 ∷ r) rest

length-from : (n i : ℕ) (buf : List ℕ) → length (from n i buf) ≡ n
length-from zero i buf = refl
length-from (suc n) i buf = ap suc (length-from n ((i + 1) % 1024) buf)

-- What the macros do to the list.
pub record IsDeque (q : TtyQueue) : Type 0 where
  pub left_over : left_of q + length (items q) ≡ 1023
  pub empty : is_empty q ≡ (length (items q) == 0)
  pub put :
      (c : ℕ) → is_full q ≡ false → (items (putch c q) ≡ items q ++ (c ∷ [])) × IsQueue (putch c q)
  pub get : is_empty q ≡ false → (items q ≡ (getch q).0 ∷ items (getch q).1) × IsQueue (getch q).1
  pub drop :
      is_empty q ≡ false
      → (items q ≡ items (dec_head q) ++ (last_char q ∷ [])) × IsQueue (dec_head q)

-- The numbers behind the macros; `h` and `t` are the indices.
abbrev many : ℕ → ℕ → ℕ
many h t = sub32 h t % 1024

module _ (h t : ℕ) (hh : h < 1024) (ht : t < 1024) where
  many-left : sub32 (sub32 t h) 1 % 1024 + many h t ≡ 1023
  many-left = ground arith

  many-empty : (h == t) ≡ (many h t == 0)
  many-empty = ground arith

  many-put : (sub32 (sub32 t h) 1 % 1024 == 0) ≡ false → many (add32 h 1 % 1024) t ≡ suc (many h t)
  many-put room = ground arith

  many-get : (h == t) ≡ false → many h t ≡ suc (many h (add32 t 1 % 1024))
  many-get some_char = ground arith

  many-drop : (h == t) ≡ false → many h t ≡ suc (many (sub32 h 1 % 1024) t)
  many-drop some_char = ground arith

  many-head : (t + many h t) % 1024 ≡ h
  many-head = ground arith

  many-apart : (k : ℕ) → k < many h t → (t + k) % 1024 ≢ h
  many-apart k b = ground arith

-- A queue with its indices below 1024 and a buffer of 1024 characters is a list of at most 1023
-- characters: LEFT is the room that is left, EMPTY tells whether the list is empty, PUTCH adds a
-- character at the end if the queue is not full, and on a queue that is not empty GETCH takes the first
-- character, and LAST and DEC of the head take the last one.
pub queue-IsDeque : (q : TtyQueue) → IsQueue q → IsDeque q
unfolding left_of chars last_char dec_head getch putch
queue-IsDeque q v = record {
  left_over = ap (λ n. left_of q + n) (length-from (chars q) t buf) ∙ many-left h t v.head v.tail;
  empty = many-empty h t v.head v.tail ∙ ap (λ n. n == 0) (sym (length-from (chars q) t buf));
  put = λ c room. (
    ap (λ n. from n t (set buf h c)) (many-put h t v.head v.tail room)
        ∙ from-last (chars q) t (set buf h c) v.tail
        ∙ ap (λ k. from (chars q) t (set buf h c) ++ (get_or (set buf h c) k 0 ∷ []))
            (many-head h t v.head v.tail)
        ∙ ap (λ x. from (chars q) t (set buf h c) ++ (x ∷ []))
            (get_or-set_self buf h c 0 (omega (arith, v.head, v.size)))
        ∙ ap (λ l. l ++ (c ∷ []))
            (from-set (chars q) t h c buf v.tail (omega arith) (many-apart h t v.head v.tail)),
    record { head = omega arith; tail = v.tail; size = length-set buf h c ∙ v.size },
  );
  get = λ some_char. (
    ap (λ n. from n t buf) (many-get h t v.head v.tail some_char)
        ∙ ap (λ i. get_or buf t 0 ∷ from (many h (add32 t 1 % 1024)) i buf) (next t v.tail),
    record { head = v.head; tail = omega arith; size = v.size },
  );
  drop = λ some_char. (
    ap (λ n. from n t buf) (many-drop h t v.head v.tail some_char)
        ∙ from-last (many (sub32 h 1 % 1024) t) t buf v.tail
        ∙ ap (λ k. from (many (sub32 h 1 % 1024) t) t buf ++ (get_or buf k 0 ∷ []))
            (many-head (sub32 h 1 % 1024) t (omega arith) v.tail),
    record { head = omega arith; tail = v.tail; size = v.size },
  );
}
  where
    h : ℕ
    h = q.head

    t : ℕ
    t = q.tail

    buf : List ℕ
    buf = q.buf

    next : (t : ℕ) → t < 1024 → (t + 1) % 1024 ≡ add32 t 1 % 1024
    next t l = omega arith
