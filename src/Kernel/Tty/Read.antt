-- ===== src/Kernel/Tty/Read.antt =====
-- tty_read of kernel/chr_drv/tty_io.c. What other code does before a round of the loop, be it an interrupt
-- or all that happens while the call sleeps in sleep_if_empty, is a list of functions, one for each round:
-- a task that wakes on an empty queue goes to sleep again in the next round.
pub mod Line
pub mod Given
pub mod Call
mod Tests
use linux.Common.{
  ℕ, zero, suc, ◌+◌, ◌-◌, ◌*◌, bit_and, Bool, true, false, Option, none, some, List, [], ◌∷◌, ◌++◌,
  ◌&&◌, ◌||◌, not, ltb, leb, ◌==◌, if◌then◌else◌, length, get_or,
}
use linux.Common.Bits.{not32}
use linux.Common.Word.{is_neg, add32, sub32, slt}
use linux.Common.Errno.{Ret, ret, err, eintr}
use linux.Kernel.Task.{sig_bit, sigalrm}
use linux.Kernel.TtyQueue.{TtyQueue, is_empty, left_of, getch}
use linux.Kernel.Tty.{Termios, Tty, is_end, is_cc, l_canon, veof, vtime, vmin}

-- The terminal, the alarm and the signals of the current task, and the time.
pub record Reader : Type 0 where
  pub tty : Tty
  pub alarm : ℕ
  pub signal : ℕ
  pub jiffies : ℕ

-- The inner loop: the characters that it put into the memory of the user, how many are still wanted, and
-- whether it returns from the call at an end of file.
pub record Inner : Type 0 where
  pub tty : Tty
  pub got : List ℕ
  pub nr : ℕ
  pub at_eof : Bool

-- GETCH and the count of lines.
pub take_char : Tty → ℕ × Tty
take_char t =
    let (c, q) = getch t.secondary in
    (
      c,
      record t {
        secondary = if is_end t.termios c then record q { line_data = sub32 q.line_data 1 } else q;
      },
    )

-- The inner loop from `got` on; it is called with `nr` positive and a queue that is not empty.
pub take_chars : ℕ → Tty → List ℕ → Inner
unfolding take_char
take_chars zero t got = record { tty = t; got = got; nr = 0; at_eof = false }
take_chars (suc nr) t got =
    let (c, t') = take_char t in
    let more = take_chars nr t' (got ++ (c ∷ [])) in
    if is_cc veof t.termios c && l_canon t.termios
    then record { tty = t'; got = got; nr = suc nr; at_eof = true }
    else if nr == 0 || is_empty t'.secondary
    then record { tty = t'; got = got ++ (c ∷ []); nr = nr; at_eof = false }
    else more

pub data ReadEnd : Type 0 where
  read_end : Ret → List ℕ → Reader → ReadEnd
  asleep : ReadEnd

abbrev pub alrmmask : ℕ
alrmmask = sig_bit sigalrm

-- What the call computes before its loop.
pub record Wanted : Type 0 where
  pub oldalarm : ℕ
  pub time : ℕ
  pub minimum : ℕ

-- `!oldalarm || time+jiffies<oldalarm`
pub is_earlier : Wanted → Reader → Bool
is_earlier w r = w.oldalarm == 0 || slt (add32 w.time r.jiffies) w.oldalarm

-- The lines after the loop.
pub end_read : Wanted → List ℕ → Reader → ReadEnd
end_read w got r =
    read_end (if not (r.signal == 0) && length got == 0 then err eintr else ret (length got)) got
      (record r { alarm = w.oldalarm })

-- The alarm and `flag` after the inner loop.
pub set_alarm : Wanted → Bool → Reader → Bool × Reader
unfolding is_earlier
set_alarm w flag r =
    if not (w.time == 0) && not (l_canon r.tty.termios)
    then (
      is_earlier w r,
      record r { alarm = if is_earlier w r then add32 w.time r.jiffies else w.oldalarm },
    )
    else (flag, r)

-- No line is there to be read, or no character.
pub must_wait : Tty → Bool
must_wait t =
    is_empty t.secondary
    || (l_canon t.termios && t.secondary.line_data == 0 && ltb 20 (left_of t.secondary))

abbrev pub Turns : Type 0
Turns = List (Reader → Reader)

-- The part of the outer loop after the inner one; `again` is the next round.
pub after_chars : (Bool → ℕ → List ℕ → Reader → ReadEnd) → Wanted → Bool → Inner → Reader → ReadEnd
unfolding set_alarm end_read
after_chars again w flag t r =
    let r1 = record r { tty = t.tty } in
    let (flag', r2) = set_alarm w flag r1 in
    if t.at_eof
    then read_end (ret (length t.got)) t.got r1
    else if if l_canon r2.tty.termios then not (length t.got == 0) else leb w.minimum (length t.got)
    then end_read w t.got r2
    else again flag' t.nr t.got r2

pub read_tty_loop : Turns → Wanted → Bool → ℕ → List ℕ → Reader → ReadEnd
unfolding take_chars after_chars must_wait end_read
read_tty_loop [] w flag nr got r = if nr == 0 then end_read w got r else asleep
read_tty_loop (turn ∷ turns) w flag nr got r =
    let r1 = turn r in
    elim (nr == 0) [
      | true ↦ end_read w got r
      | false ↦ elim (flag && not (bit_and r1.signal alrmmask == 0)) [
        | true ↦ end_read w got (record r1 { signal = bit_and r1.signal (not32 alrmmask) })
        | false ↦ elim (r1.signal == 0) [
          | false ↦ end_read w got r1
          | true ↦ elim (must_wait r1.tty) [
            | true ↦ read_tty_loop turns w flag nr got r1
            | false ↦ after_chars (read_tty_loop turns w) w flag (take_chars nr r1.tty got) r1
          ]
        ]
      ]
    ]

-- `time && !minimum`
abbrev pub is_timed : Termios → Bool
is_timed tm = not (get_or tm.c_cc vtime 0 == 0) && get_or tm.c_cc vmin 0 == 0

pub wanted : ℕ → Reader → Wanted
wanted nr r =
    let minimum = if is_timed r.tty.termios then 1 else get_or r.tty.termios.c_cc vmin 0 in
    record {
      oldalarm = r.alarm;
      time = 10 * get_or r.tty.termios.c_cc vtime 0;
      minimum = if ltb nr minimum then nr else minimum;
    }

-- The alarm that a read with a time sets before its loop.
pub is_flagged : Wanted → Reader → Bool
unfolding is_earlier
is_flagged w r = is_timed r.tty.termios && is_earlier w r

pub with_alarm : Wanted → Reader → Reader
unfolding is_flagged
with_alarm w r = if is_flagged w r then record r { alarm = add32 w.time r.jiffies } else r

-- The call on the terminal of `channel`.
pub tty_read : Turns → ℕ → ℕ → Reader → ReadEnd
unfolding wanted with_alarm is_flagged read_tty_loop
tty_read turns channel nr r =
    let w = wanted nr r in
    if ltb 2 channel || is_neg nr
    then read_end (err 1) [] r
    else read_tty_loop turns w (is_flagged w r) nr [] (with_alarm w r)
