-- ===== src/Kernel/Vsprintf/Tests.antt =====
-- Tests of vsprintf.
use linux.Common.{◌≡◌, refl, [], ◌∷◌}
use linux.Kernel.Vsprintf.{word_arg, string_arg, vsprintf, printed}
use linux.Kernel.Vsprintf.Total.{Ends, vsprintf-total}

-- `%04x` of 255
padded_hex :
    vsprintf (37 ∷ 48 ∷ 52 ∷ 120 ∷ []) (word_arg 255 ∷ [])
    ≡ printed (record { str = 48 ∷ 48 ∷ 102 ∷ 102 ∷ []; counts = [] })
unfolding vsprintf
padded_hex = refl

-- `%-4d|%s` of -7 and "ab"
left_justified :
    vsprintf
      (37 ∷ 45 ∷ 52 ∷ 100 ∷ 124 ∷ 37 ∷ 115 ∷ [])
      (word_arg 4294967289 ∷ string_arg (97 ∷ 98 ∷ []) ∷ [])
    ≡ printed (record { str = 45 ∷ 55 ∷ 32 ∷ 32 ∷ 124 ∷ 97 ∷ 98 ∷ []; counts = [] })
unfolding vsprintf
left_justified = refl

-- `%*d` of 4 and 7 prints "%*d": the format stays on the `*`.
star_printed :
    vsprintf (37 ∷ 42 ∷ 100 ∷ []) (word_arg 4 ∷ word_arg 7 ∷ [])
    ≡ printed (record { str = 37 ∷ 42 ∷ 100 ∷ []; counts = [] })
unfolding vsprintf
star_printed = refl

-- "a%" prints itself.
at_end : vsprintf (97 ∷ 37 ∷ []) [] ≡ printed (record { str = 97 ∷ 37 ∷ []; counts = [] })
unfolding vsprintf
at_end = refl

vsprintf-total_example : Ends (vsprintf (37 ∷ 48 ∷ 52 ∷ 120 ∷ []) (word_arg 255 ∷ []))
vsprintf-total_example = vsprintf-total (37 ∷ 48 ∷ 52 ∷ 120 ∷ []) (word_arg 255 ∷ [])
