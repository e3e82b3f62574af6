-- ===== src/Fs/Pipe/Write.antt =====
-- write_pipe against the queue.
use mathlib.Core.List.{append_assoc, append-nil}
use linux.Common.{
  ℕ, zero, suc, ◌+◌, ◌-◌, ◌%◌, ◌≤◌, ◌<◌, ◌≡◌, ◌≢◌, inl, inr, refl, subst, ◌∙◌, sym, List, [], ◌∷◌,
  ◌++◌, arith, length, ◌==◌, ==_iff, if◌then◌else◌, Bool-cases, take, drop, take-append_length,
  drop-append_length, none, some, take-append-drop, length-take, length-drop, length-append,
}
use linux.Fs.Pipe.{
  Pipe, page_size, pipe_size, write_bytes, Writing, broken, write_chars, write_loop, write_pipe,
}
use linux.Fs.Pipe.Writing.{done, sleeps, out_of_fuel}
use linux.Fs.Pipe.Fifo.{contents, IsPipe, window-write_bytes, length-write_bytes}

-- The room that is left in a pipe.
abbrev pub room : Pipe → ℕ
room p = page_size - 1 - pipe_size p

-- The pipe with the first bytes of the buffer written to it.
abbrev advance : Pipe → List ℕ → Pipe
advance p xs = record p {
  head = (p.head + length xs) % page_size;
  page = write_bytes p.page p.head xs;
}

module _ {p : Pipe} (v : IsPipe p) (xs : List ℕ) (few : length xs ≤ room p)
    (fits : p.head + length xs ≤ page_size) where
  size-advance : pipe_size (advance p xs) ≡ pipe_size p + length xs
  size-advance = omega (arith, v.head, v.tail)

  contents-advance : contents (advance p xs) ≡ contents p ++ xs
  contents-advance = rw size-advance (
      window-write_bytes xs p.page (pipe_size p) p.tail p.head v.page v.tail
        (omega (arith, v.head, v.tail)) (omega (arith, v.head, v.tail)) fits)

  advance-IsPipe : IsPipe (advance p xs)
  advance-IsPipe = record {
    head = omega arith;
    tail = v.tail;
    page = length-write_bytes xs p.page p.head ∙ v.page;
  }

-- What a call with `buf` still to write and `written` bytes written ends in.
abbrev pub WriteFrom : Pipe → List ℕ → ℕ → Writing → Type 0
WriteFrom p buf written (done p' n) =
    (length buf ≤ room p)
    × (contents p' ≡ contents p ++ buf)
    × IsPipe p'
    × (p'.i_count ≡ p.i_count)
    × (n ≡ written + length buf)
WriteFrom p buf written (broken p' ret) =
    (room p < length buf)
    × (contents p' ≡ contents p ++ take (room p) buf)
    × IsPipe p'
    × (p.i_count ≢ 2)
    × (ret ≡ (if written + room p == 0 then none else some (written + room p)))
WriteFrom p buf written (sleeps p' left n) =
    (contents p' ≡ contents p ++ take (room p) buf)
    × IsPipe p'
    × (left ≡ drop (room p) buf)
    × (room p < length buf)
    × (n ≡ written + room p)
    × (room p' ≡ 0)
    × (p.i_count ≡ 2)
    × (p'.i_count ≡ 2)
WriteFrom p buf written out_of_fuel = ⊥

module _ {p : Pipe} (v : IsPipe p) (xs ys : List ℕ) (few : length xs ≤ room p)
    (fits : p.head + length xs ≤ page_size) (written : ℕ) where
  less : room (advance p xs) ≡ room p - length xs
  less = omega (arith, size-advance v xs few fits)

  taken :
      contents (advance p xs) ++ take (room (advance p xs)) ys
      ≡ contents p ++ take (room p) (xs ++ ys)
  taken =
      rw (contents-advance v xs few fits, less, take-append_length xs ys (room p) few)
        (append_assoc (contents p) xs (take (room p - length xs) ys))

  WriteFrom-advance :
      (r : Writing)
      → WriteFrom (advance p xs) ys (written + length xs) r
      → WriteFrom p (xs ++ ys) written r
  WriteFrom-advance (done p' n) (fit, all, ok, kept, count) = (
    omega (arith, less, length-append xs ys),
    all ∙ rw (contents-advance v xs few fits) (append_assoc (contents p) xs ys),
    ok,
    kept,
    omega (arith, length-append xs ys),
  )
  WriteFrom-advance (broken p' ret) (full, front, ok, lone, code) =
      let sum : written + length xs + room (advance p xs) ≡ written + room p =
        omega (arith, less) in
      (omega (arith, less, length-append xs ys), front ∙ taken, ok, lone, rw sum at code)
  WriteFrom-advance (sleeps p' left n) (front, ok, rest, full, count, no_room, two, two') = (
    front ∙ taken,
    ok,
    rest ∙ rw less (sym (drop-append_length xs ys (room p) few)),
    omega (arith, less, length-append xs ys),
    omega (arith, less),
    no_room,
    two,
    two',
  )
  WriteFrom-advance out_of_fuel h = h

module _ (p : Pipe) (written : ℕ) (v : IsPipe p) where
  WriteFrom-nil : WriteFrom p [] written (done p written)
  WriteFrom-nil = (omega arith, sym (append-nil (contents p)), v, refl, omega arith)

  module _ (buf : List ℕ) (full : room p ≡ 0) (more : 0 < length buf) where
    no_more : contents p ≡ contents p ++ take (room p) buf
    no_more = rw full (sym (append-nil (contents p)))

    WriteFrom-lone :
        p.i_count ≢ 2
        → WriteFrom p buf written (broken p (if written == 0 then none else some written))
    WriteFrom-lone lone =
        let sum : written + room p ≡ written = omega arith in
        (omega arith, no_more, v, lone, rw sum)

    WriteFrom-sleep : p.i_count ≡ 2 → WriteFrom p buf written (sleeps p buf written)
    WriteFrom-sleep two = (no_more, v, rw full, omega arith, omega arith, full, two, two)

length-zero : (buf : List ℕ) → length buf ≡ 0 → buf ≡ []
length-zero [] h = refl
length-zero (x ∷ buf) h = absurd (omega arith)

write_loop-WriteFrom :
    (fuel : ℕ) (p : Pipe) (buf : List ℕ) (written : ℕ)
    → IsPipe p
    → length buf < fuel
    → WriteFrom p buf written (write_loop fuel p buf written)
unfolding write_loop
write_loop-WriteFrom zero p buf written v h = absurd (omega arith)
write_loop-WriteFrom (suc fuel) p buf written v h = elim (Bool-cases (length buf == 0)) [
  | inl none_left ↦
      rw none_left
        (rw (length-zero buf ((==_iff (length buf) 0).0 none_left)) (WriteFrom-nil p written v))
  | inr more ↦ elim (Bool-cases (room p == 0)) [
    | inl full ↦ elim (Bool-cases (p.i_count == 2)) [
      | inl two ↦
          rw (more, full, two)
            (WriteFrom-sleep p written v buf (ground arith) (ground arith) (ground arith))
      | inr lone ↦
          rw (more, full, lone)
            (WriteFrom-lone p written v buf (ground arith) (ground arith) (ground arith))
    ]
    | inr some_room ↦
        let c = write_chars p (length buf) in
        let xs = take c buf in
        let ys = drop c buf in
        let len : length (take c buf) ≡ c = omega (arith, length-take c buf) in
        let pos : 0 < write_chars p (length buf) = ground (arith, v.head) in
        let few : length (take c buf) ≤ room p = omega arith in
        let fits : p.head + length (take c buf) ≤ page_size = omega (arith, v.head) in
        rw (more, some_room)
          (subst (λ b. WriteFrom p b written (write_loop fuel (advance_by p c) ys (written + c)))
            (take-append-drop c buf)
            (WriteFrom-advance v xs ys few fits written _ (
              rw len (
                write_loop-WriteFrom fuel (advance_by p c) ys (written + c)
                  (rw len at (advance-IsPipe v xs few fits)) (omega (arith, length-drop c buf))))))
  ]
]
  where
    advance_by : Pipe → ℕ → Pipe
    advance_by p c = record p {
      head = (p.head + c) % page_size;
      page = write_bytes p.page p.head (take c buf);
    }

-- A write to a well-formed pipe ends. It returns with all bytes appended in order if they fit; if not,
-- the pipe takes as many as fit, and the call sleeps with the rest while there is a reader, and raises
-- SIGPIPE if there is none, returning the count written, or -1 if that is 0.
pub write_pipe_lem : (p : Pipe) (buf : List ℕ) → IsPipe p → WriteFrom p buf 0 (write_pipe p buf)
unfolding write_pipe
write_pipe_lem p buf v = write_loop-WriteFrom (length buf + 1) p buf 0 v (omega arith)
