-- ===== src/Kernel/Tty/Write/Output.antt =====
-- What tty_write sends: the characters of the user after output processing.
use linux.Common.{
  ℕ, zero, suc, ◌+◌, ◌<◌, ◌≡◌, refl, sym, ap, ◌∙◌, ◌⊎◌, inl, inr, true, false, List, [], ◌∷◌, ◌++◌,
  if◌then◌else◌, arith, length, length-append, Bool-cases,
}
use mathlib.Core.List.{append_assoc}
use linux.Kernel.TtyQueue.{TtyQueue, is_full, putch, tty_buf_size}
use linux.Kernel.TtyQueue.Items.{IsQueue, items, queue-IsDeque}
use linux.Kernel.Tty.{Termios, Driver, put_write}
use linux.Kernel.Tty.Write.{TtyWriting, wants_return, final_char, fill_loop}

-- What the device is to get for `buf`: a newline brings a carriage return in front of it where the
-- flags ask for that, unless `cr_flag` tells that it is sent.
pub sent : Driver → Termios → ℕ → List ℕ → List ℕ
sent d tm cr_flag [] = []
sent d tm cr_flag (c ∷ buf) =
    if wants_return tm cr_flag c
    then 13 ∷ final_char d tm c ∷ sent d tm 0 buf
    else final_char d tm c ∷ sent d tm 0 buf

-- The output of `s` is the output of `s'` so far and what is sent for `rest`.
pub record Filled (d : Driver) (buf : List ℕ) (s : TtyWriting) (r : List ℕ × TtyWriting)
    : Type 0 where
  pub valid : IsQueue r.1.tty.write_q
  pub output :
      items r.1.tty.write_q ++ sent d r.1.tty.termios r.1.cr_flag r.0
      ≡ items s.tty.write_q ++ sent d s.tty.termios s.cr_flag buf
  pub ended : (is_full r.1.tty.write_q ≡ true) ⊎ (r.0 ≡ [])
  pub kept : (q : TtyQueue) × (r.1.tty ≡ record s.tty { write_q = q })
  pub same_signal : r.1.signal ≡ s.signal

-- One character is put into the queue.
put :
    (d : Driver) (buf rest : List ℕ) (s : TtyWriting) (x k : ℕ) (r : List ℕ × TtyWriting)
    → IsQueue s.tty.write_q
    → is_full s.tty.write_q ≡ false
    → sent d s.tty.termios s.cr_flag buf ≡ x ∷ sent d s.tty.termios k rest
    → Filled d rest (record s { tty = put_write x s.tty; cr_flag = k }) r
    → Filled d buf s r
unfolding put_write
put d buf rest s x k r v room e h = record {
  valid = h.valid;
  output =
      h.output
      ∙ ap (λ l. l ++ sent d s.tty.termios k rest) ((queue-IsDeque s.tty.write_q v).put x room).0
      ∙ append_assoc (items s.tty.write_q) (x ∷ []) (sent d s.tty.termios k rest)
      ∙ ap (λ l. items s.tty.write_q ++ l) (sym e);
  ended = h.ended;
  kept = h.kept;
  same_signal = h.same_signal;
}

put-queue :
    (x : ℕ) (q : TtyQueue) (n : ℕ)
    → IsQueue q
    → is_full q ≡ false
    → 1023 < suc n + length (items q)
    → IsQueue (putch x q) × (1023 < n + length (items (putch x q)))
put-queue x q n v room b =
    let (grown, v') = (queue-IsDeque q v).put x room in
    let longer : length (items (putch x q)) ≡ length (items q) + 1 =
      ap length grown ∙ length-append (items q) (x ∷ []) in
    (v', omega (arith, longer))

wants_return-again : (tm : Termios) (c : ℕ) → wants_return tm 1 c ≡ false
unfolding wants_return
wants_return-again tm c = ground arith

with_return :
    (d : Driver) (tm : Termios) (k c : ℕ) (buf : List ℕ)
    → wants_return tm k c ≡ true
    → sent d tm k (c ∷ buf) ≡ 13 ∷ sent d tm 1 (c ∷ buf)
unfolding sent
with_return d tm k c buf h = rw (h, wants_return-again tm c) refl

without_return :
    (d : Driver) (tm : Termios) (k c : ℕ) (buf : List ℕ)
    → wants_return tm k c ≡ false
    → sent d tm k (c ∷ buf) ≡ final_char d tm c ∷ sent d tm 0 buf
unfolding sent
without_return d tm k c buf h = rw h refl

stays :
    (d : Driver) (buf : List ℕ) (s : TtyWriting)
    → IsQueue s.tty.write_q
    → (is_full s.tty.write_q ≡ true) ⊎ (buf ≡ [])
    → Filled d buf s (buf, s)
stays d buf s v e = record {
  valid = v;
  output = refl;
  ended = e;
  kept = (s.tty.write_q, refl);
  same_signal = refl;
}

fill_loop-Filled :
    (n : ℕ) (d : Driver) (buf : List ℕ) (s : TtyWriting)
    → IsQueue s.tty.write_q
    → 1023 < n + length (items s.tty.write_q)
    → Filled d buf s (fill_loop n d buf s)
unfolding fill_loop put_write
fill_loop-Filled zero d buf s v b =
    absurd (omega (arith, (queue-IsDeque s.tty.write_q v).left_over))
fill_loop-Filled (suc n) d [] s v b = stays d [] s v (inr refl)
fill_loop-Filled (suc n) d (c ∷ buf) s v b = elim (Bool-cases (is_full s.tty.write_q)) [
  | inl full ↦ rw (full, fill_loop) (stays d (c ∷ buf) s v (inl full))
  | inr room ↦ elim (Bool-cases (wants_return s.tty.termios s.cr_flag c)) [
    | inl wants ↦
        let s1 = record s { tty = put_write 13 s.tty; cr_flag = 1 } in
        let (v1, b1) = put-queue 13 s.tty.write_q n v room b in
        let once : sent d s.tty.termios s.cr_flag (c ∷ buf)
            ≡ 13 ∷ sent d s.tty.termios 1 (c ∷ buf) =
          with_return d s.tty.termios s.cr_flag c buf wants in
        rw (room, wants, fill_loop)
          (put d (c ∷ buf) (c ∷ buf) s 13 1 _ v room once (fill_loop-Filled n d (c ∷ buf) s1 v1 b1))
    | inr plain_char ↦
        let x = final_char d s.tty.termios c in
        let s1 = record s { tty = put_write x s.tty; cr_flag = 0 } in
        let (v1, b1) = put-queue x s.tty.write_q n v room b in
        let once : sent d s.tty.termios s.cr_flag (c ∷ buf) ≡ x ∷ sent d s.tty.termios 0 buf =
          without_return d s.tty.termios s.cr_flag c buf plain_char in
        rw (room, plain_char, fill_loop)
          (put d (c ∷ buf) buf s x 0 _ v room once (fill_loop-Filled n d buf s1 v1 b1))
  ]
]

-- On a write queue with its indices in range, the inner loop of tty_write with 1024 rounds of fuel ends with
-- the queue full or with no character left. The output that was in the queue, followed by what is to
-- be sent for the characters of the user, is the output in the queue at the end followed by what is to
-- be sent for the characters that are left: none is lost or sent twice where the queue fills between a
-- carriage return and its newline. It changes only the write queue of the terminal, and `cr_flag`.
pub fill_loop-all :
    (d : Driver) (buf : List ℕ) (s : TtyWriting)
    → IsQueue s.tty.write_q
    → Filled d buf s (fill_loop tty_buf_size d buf s)
fill_loop-all d buf s v = fill_loop-Filled 1024 d buf s v (omega arith)
