-- ===== src/Fs/Pipe/Fifo.antt =====
-- A pipe as the queue of the bytes in it.
use mathlib.Core.List.{append_assoc, append-nil}
use linux.Common.{
  ℕ, zero, suc, ◌+◌, ◌%◌, ◌≤◌, ◌<◌, ◌≡◌, ◌≢◌, refl, ap, ◌∙◌, List, [], ◌∷◌, ◌++◌, arith, length,
  get_or, set, get_or-set_self, get_or-set_ne, length-set,
}
use linux.Fs.Pipe.{Pipe, page_size, pipe_size, read_bytes, write_bytes}

-- The `n` bytes from index `i` on, going round at the end of the page.
unfoldable pub window : List ℕ → ℕ → ℕ → List ℕ
window page i zero = []
window page i (suc n) = get_or page i 0 ∷ window page ((i + 1) % page_size) n

-- The bytes in a pipe, oldest first.
abbrev pub contents : Pipe → List ℕ
contents p = window p.page p.tail (pipe_size p)

pub record IsPipe (p : Pipe) : Type 0 where
  pub head : p.head < page_size
  pub tail : p.tail < page_size
  pub page : length p.page ≡ page_size

pub length-window : (page : List ℕ) (i n : ℕ) → length (window page i n) ≡ n
unfolding window
length-window page i zero = refl
length-window page i (suc n) = ap suc (length-window page ((i + 1) % page_size) n)

-- A run of bytes that does not pass the end of the page is the front of the window.
pub window-read_bytes :
    (page : List ℕ) (c i n : ℕ)
    → i + c ≤ page_size
    → window page (i % page_size) (c + n)
      ≡ read_bytes page i c ++ window page ((i + c) % page_size) n
unfolding window read_bytes
window-read_bytes page zero i n h =
    let i_zero : i + 0 ≡ i = omega arith in
    let n_zero : 0 + n ≡ n = omega arith in rw (i_zero, n_zero)
window-read_bytes page (suc c) i n h =
    let here : i % page_size ≡ i = omega arith in
    let count : suc c + n ≡ suc (c + n) = omega arith in
    let past : i + suc c ≡ i + 1 + c = omega arith in
    rw (here, count, past)
      (ap (λ r. get_or page i 0 ∷ r) (window-read_bytes page c (i + 1) n (omega arith)))

-- Writing one byte just past a window extends it by that byte.
window-set :
    (page : List ℕ) (x n i j : ℕ)
    → length page ≡ page_size
    → i < page_size
    → n < page_size
    → j ≡ (i + n) % page_size
    → window (set page j x) i (suc n) ≡ window page i n ++ (x ∷ [])
unfolding window
window-set page x zero i j size hi hn e =
    let here : j ≡ i = omega arith in rw (here, get_or-set_self page i x 0 (omega arith))
window-set page x (suc n) i j size hi hn e =
    let other : j ≢ i = omega arith in
    rw (
      get_or-set_ne page {i = j} {j = i} x 0 other,
      window-set page x n ((i + 1) % page_size) j size (omega arith) (omega arith) (omega arith),
    )

-- Writing a run of bytes just past a window extends it by the run.
pub window-write_bytes :
    (xs page : List ℕ) (n i j : ℕ)
    → length page ≡ page_size
    → i < page_size
    → n + length xs < page_size
    → j ≡ (i + n) % page_size
    → j + length xs ≤ page_size
    → window (write_bytes page j xs) i (n + length xs) ≡ window page i n ++ xs
unfolding write_bytes
window-write_bytes [] page n i j size hi hn e fits =
    let same : n + 0 ≡ n = omega arith in rw (same, append-nil)
window-write_bytes (x ∷ []) page n i j size hi hn e fits =
    let same : n + 1 ≡ suc n = omega arith in
    rw same (window-set page x n i j size hi (omega arith) e)
window-write_bytes (x ∷ y ∷ xs) page n i j size hi hn e fits =
    let count : n + suc (length (y ∷ xs)) ≡ suc n + length (y ∷ xs) = omega arith in
    rw (
      count,
      window-write_bytes (y ∷ xs) (set page j x) (suc n) i (j + 1) (length-set page j x ∙ size) hi
          (omega arith) (omega arith) (omega arith),
      window-set page x n i j size hi (omega arith) e,
      append_assoc,
    )

pub length-write_bytes : (xs page : List ℕ) (j : ℕ) → length (write_bytes page j xs) ≡ length page
unfolding write_bytes
length-write_bytes [] page j = refl
length-write_bytes (x ∷ xs) page j =
    length-write_bytes xs (set page j x) (j + 1) ∙ length-set page j x
