-- ===== src/Console/Tests.antt =====
-- Formats and dumps.
use ilo_pali.Prelude.{ℕ, ◌+◌, ◌<◌, ◌≡◌, refl, none, some, [], ◌∷◌, ltb, if◌then◌else◌, arith}
use ilo_pali.Bytes.{Region}
use ilo_pali.Console.{codes, console_printf, console_vprintf, hexdump_line}

formats : console_printf "%x at %p, %c%%" (255 ∷ 4096 ∷ b'!' ∷ []) ≡ some (codes "ff at 0x1000, !%")
unfolding console_vprintf
formats = refl

-- `%lu` takes its argument and prints a `u`.
unsigned_long : (n : ℕ) → console_printf "(%lu bytes)" (n ∷ []) ≡ some (codes "(u bytes)")
unfolding console_vprintf
unsigned_long n = refl

-- With a `%` at its end, the format is read behind its zero.
lone_percent : console_printf "100%" [] ≡ none
unfolding console_vprintf
lone_percent = refl

abbrev letters : Region
letters i = if ltb i 20 then 60 + i else 0

letters_small : (i : ℕ) → letters i < 256
letters_small i = ground arith

second_line :
    hexdump_line letters 20 1
    ≡ some (codes "10    4c 4d 4e 4f                                         |LMNO............|\n")
unfolding hexdump_line
second_line = refl
