-- ===== src/Fs/Pipe/Read.antt =====
-- read_pipe against the queue.
use mathlib.Core.List.{append_assoc, append-nil}
use linux.Common.{
  ℕ, zero, suc, ◌+◌, ◌-◌, ◌%◌, ◌≤◌, ◌<◌, ◌≡◌, ◌≢◌, ◌⊎◌, inl, inr, refl, ap, ◌∙◌, sym, List, [],
  ◌++◌, arith, length, ◌==◌, ==_iff, Bool-cases, take, drop, take-append_length, drop-append_length,
  take-nil, drop-nil,
}
use linux.Fs.Pipe.{
  Pipe, page_size, pipe_size, read_bytes, Reading, done, sleeps, out_of_fuel, read_chars, read_loop,
  read_pipe,
}
use linux.Fs.Pipe.Fifo.{window, contents, IsPipe, window-read_bytes}

-- The pipe behind `chars` bytes that have been read.
abbrev advance : Pipe → ℕ → Pipe
advance p chars = record p { tail = (p.tail + chars) % page_size }

length-read_bytes : (page : List ℕ) (i c : ℕ) → length (read_bytes page i c) ≡ c
unfolding read_bytes
length-read_bytes page i zero = refl
length-read_bytes page i (suc c) = ap suc (length-read_bytes page (i + 1) c)

module _ {p : Pipe} (v : IsPipe p) (c : ℕ) (few : c ≤ pipe_size p)
    (fits : p.tail + c ≤ page_size) where
  size-advance : pipe_size (advance p c) ≡ pipe_size p - c
  size-advance = omega (arith, v.head, v.tail)

  contents-advance : contents p ≡ read_bytes p.page p.tail c ++ contents (advance p c)
  contents-advance =
      let here : p.tail % page_size ≡ p.tail = omega (arith, v.tail) in
      let count : c + (pipe_size p - c) ≡ pipe_size p = omega arith in
      rw (size-advance)
        (rw (count, here) at (window-read_bytes p.page c p.tail (pipe_size p - c) fits))

  advance-IsPipe : IsPipe (advance p c)
  advance-IsPipe = record { head = v.head; tail = omega arith; page = v.page }

-- What a call that was asked for `count` bytes and had put `out` into the buffer ends in.
abbrev pub ReadFrom : Pipe → ℕ → List ℕ → Reading → Type 0
ReadFrom p count out (done p' got) =
    (got ≡ out ++ take count (contents p))
    × (contents p' ≡ drop count (contents p))
    × IsPipe p'
    × (p'.i_count ≡ p.i_count)
    × ((count ≤ pipe_size p) ⊎ (p.i_count ≢ 2))
ReadFrom p count out (sleeps p' left got) =
    (got ≡ out ++ contents p)
    × (contents p' ≡ [])
    × IsPipe p'
    × (left + pipe_size p ≡ count)
    × (0 < left)
    × (p.i_count ≡ 2)
    × (p'.i_count ≡ 2)
ReadFrom p count out out_of_fuel = ⊥

ReadFrom-advance :
    {p : Pipe} (c count : ℕ) (out : List ℕ) (r : Reading)
    → IsPipe p
    → c ≤ pipe_size p
    → p.tail + c ≤ page_size
    → c ≤ count
    → ReadFrom (advance p c) (count - c) (out ++ read_bytes p.page p.tail c) r
    → ReadFrom p count out r
ReadFrom-advance {p} c count out (done p' got) v few fits le (bytes, rest, ok, kept, why) =
    let split = contents-advance v c few fits in
    let size = size-advance v c few fits in
    let len = length-read_bytes p.page p.tail c in
    let front =
      take-append_length (read_bytes p.page p.tail c) (contents (advance p c)) count (rw len le) in
    let back =
      drop-append_length (read_bytes p.page p.tail c) (contents (advance p c)) count (rw len le) in
    (
      bytes
          ∙ append_assoc out (read_bytes p.page p.tail c)
              (take (count - c) (contents (advance p c)))
          ∙ ap (λ r. out ++ r) (sym (rw (← split, len) at front)),
      rest ∙ sym (rw (← split, len) at back),
      ok,
      kept,
      elim why [ inl enough ↦ inl (omega (arith, size, enough)) | inr lone ↦ inr lone ],
    )
ReadFrom-advance {p} c count out (sleeps p' left got) v few fits le
      (bytes, none_left, ok, sum, some_left, two, two') =
    let split = contents-advance v c few fits in
    (
      bytes
          ∙ append_assoc out (read_bytes p.page p.tail c) (contents (advance p c))
          ∙ ap (λ r. out ++ r) (sym split),
      none_left,
      ok,
      omega (arith, size-advance v c few fits),
      some_left,
      two,
      two',
    )
ReadFrom-advance c count out out_of_fuel v few fits le h = h

module _ (p : Pipe) (out : List ℕ) (v : IsPipe p) where
  ReadFrom-zero : ReadFrom p 0 out (done p out)
  ReadFrom-zero = (sym (append-nil out), refl, v, refl, inl (omega arith))

  module _ (empty : pipe_size p ≡ 0) where
    no_contents : contents p ≡ []
    unfolding window
    no_contents = rw empty

    ReadFrom-lone : (count : ℕ) → p.i_count ≢ 2 → ReadFrom p count out (done p out)
    ReadFrom-lone count lone = (
      rw (no_contents, take-nil count) (sym (append-nil out)),
      rw (no_contents, drop-nil count),
      v,
      refl,
      inr lone,
    )

    ReadFrom-sleep :
        (count : ℕ) → 0 < count → p.i_count ≡ 2 → ReadFrom p count out (sleeps p count out)
    ReadFrom-sleep count h two =
        (rw no_contents (sym (append-nil out)), no_contents, v, omega arith, h, two, two)

read_loop-ReadFrom :
    (fuel : ℕ) (p : Pipe) (count : ℕ) (out : List ℕ)
    → IsPipe p
    → count < fuel
    → ReadFrom p count out (read_loop fuel p count out)
unfolding read_loop
read_loop-ReadFrom zero p count out v h = absurd (omega arith)
read_loop-ReadFrom (suc fuel) p count out v h = elim (Bool-cases (count == 0)) [
  | inl none_asked ↦ rw (none_asked, (==_iff count 0).0 none_asked) (ReadFrom-zero p out v)
  | inr more ↦ elim (Bool-cases (pipe_size p == 0)) [
    | inl empty ↦ elim (Bool-cases (p.i_count == 2)) [
      | inl two ↦
          rw (more, empty, two)
            (ReadFrom-sleep p out v (ground arith) count (ground arith) (ground arith))
      | inr lone ↦
          rw (more, empty, lone) (ReadFrom-lone p out v (ground arith) count (ground arith))
    ]
    | inr some_bytes ↦
        let c = read_chars p count in
        let pos : 0 < read_chars p count = ground (arith, v.tail) in
        rw (more, some_bytes)
          (ReadFrom-advance c count out _ v (omega arith) (omega (arith, v.tail)) (omega arith) (
            read_loop-ReadFrom fuel (advance p c) (count - c) _
              (advance-IsPipe v c (omega arith) (omega (arith, v.tail))) (omega arith)))
  ]
]

-- A read of a well-formed pipe ends. If it returns, the caller has the oldest bytes, as many as were
-- asked for and were there, and the pipe keeps the others in order; it returns with too few only if the
-- pipe has no writer. If it sleeps, the caller has all the bytes, the pipe is empty and has a writer,
-- and the count left is what is missing.
pub read_pipe_lem : (p : Pipe) (count : ℕ) → IsPipe p → ReadFrom p count [] (read_pipe p count)
unfolding read_pipe
read_pipe_lem p count v = read_loop-ReadFrom (count + 1) p count [] v (omega arith)
