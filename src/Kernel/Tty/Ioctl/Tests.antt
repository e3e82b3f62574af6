-- ===== src/Kernel/Tty/Ioctl/Tests.antt =====
-- Tests of tty_ioctl on the first serial line.
use linux.Common.{◌≡◌, refl, [], ◌∷◌}
use linux.Common.Errno.{ret}
use linux.Kernel.Tty.Table.{console, serial_line}
use linux.Kernel.Tty.Ioctl.{get_termio, change_speed, on_command, UserIn, termio_out, nothing}
use linux.Kernel.Tty.Ioctl.ShortForm.{tcseta-tcgeta}

abbrev user : UserIn
user = record { arg = 0; termios = console.termios; termio = get_termio console; long = 0 }

speed_2400 :
    change_speed (serial_line 0x3f8) ≡ (0x3fb, 0x80) ∷ (0x3f8, 48) ∷ (0x3f9, 0) ∷ (0x3fb, 0x03) ∷ []
unfolding change_speed
speed_2400 = refl

tcseta-tcgeta_example :
    ((on_command 0x5405 user (serial_line 0x3f8)).out ≡ termio_out (get_termio (serial_line 0x3f8)))
    × ((on_command 0x5406
          (record user { termio = get_termio (serial_line 0x3f8) })
          (serial_line 0x3f8))
        ≡ record {
          result = ret 0;
          tty = serial_line 0x3f8;
          out = nothing;
          ports = change_speed (serial_line 0x3f8);
        })
tcseta-tcgeta_example = tcseta-tcgeta user user (serial_line 0x3f8)
