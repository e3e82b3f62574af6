-- ===== src/Kernel/Tty/Ioctl/ShortForm.antt =====
-- The short structure `struct termio` loses nothing that is set back with it.
use linux.Common.{
  ℕ, zero, suc, ◌%◌, ◌^◌, ◌≡◌, refl, ap, ◌∙◌, List, [], ◌∷◌, ◌++◌, arith, take, drop,
  take-append-drop,
}
use linux.Common.Errno.{ret}
use linux.Kernel.Tty.{Tty}
use linux.Kernel.Tty.Ioctl.{
  get_termio, set_termio, change_speed, low_half, on_command, UserIn, termio_out, nothing, Answer,
  ncc,
}

low_half-same : (w : ℕ) → low_half w (w % 2 ^ 16) ≡ w
low_half-same w = omega arith

take-take : (n : ℕ) (xs : List ℕ) → take n (take n xs) ≡ take n xs
take-take zero xs = refl
take-take (suc n) [] = refl
take-take (suc n) (x ∷ xs) = ap (λ l. x ∷ l) (take-take n xs)

c_cc-same : (xs : List ℕ) → take ncc (take ncc xs) ++ drop ncc xs ≡ xs
c_cc-same xs = ap (λ l. l ++ drop ncc xs) (take-take ncc xs) ∙ take-append-drop ncc xs

set_termio-same : (t : Tty) → (set_termio (get_termio t) t).0 ≡ t
unfolding set_termio get_termio
set_termio-same t =
    rw
      (
        low_half-same t.termios.c_iflag,
        low_half-same t.termios.c_oflag,
        low_half-same t.termios.c_cflag,
        low_half-same t.termios.c_lflag,
        c_cc-same t.termios.c_cc,
      )
      refl

-- TCGETA gives a structure that TCSETA, with any other arguments, sets back without a change to the
-- terminal: the high halves of the flags and the control characters from the ninth on, which the
-- structure has no room for, stay as they are. The speed of the line is set again.
pub tcseta-tcgeta :
    (u v : UserIn) (t : Tty)
    → ((on_command 0x5405 u t).out ≡ termio_out (get_termio t))
      × ((on_command 0x5406 (record v { termio = get_termio t }) t)
          ≡ record { result = ret 0; tty = t; out = nothing; ports = change_speed t })
unfolding on_command
tcseta-tcgeta u v t = (
  refl,
  ap {A = Tty} {B = Answer}
      (λ t'. record { result = ret 0; tty = t'; out = nothing; ports = change_speed t' })
      (set_termio-same t),
)
