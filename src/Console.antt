-- ===== src/Console.antt =====
-- kernel/src/console.c: what it writes to the UART, as the bytes in order. A string stands as its
-- bytes before the zero. `none` is behaviour that C leaves undefined: a read behind the end of the
-- format, an argument that is not there, or a write in front of the buffer.
pub mod Hex
pub mod Hexdump
mod Tests
use Prim.Native.Char.{code}
use Prim.Native.String.{String}
use ilo_pali.Prelude.{
  ℕ, zero, suc, ◌+◌, ◌*◌, ◌/◌, ◌%◌, ◌^◌, ◌-◌, Bool, true, false, ◌&&◌, Option, none, some, List, [],
  ◌∷◌, ◌++◌, length, ltb, leb, ◌==◌, if◌then◌else◌, add64,
}
use ilo_pali.Bytes.{Region}

-- the bytes of a literal
abbrev pub codes : String → List ℕ
codes String.[] = []
codes (String.◌∷◌ c s) = code c ∷ codes s

abbrev pub Output : Type 0
Output = Option (List ℕ)

-- one output and then another
infixr 20 ◌then_put◌
abbrev pub ◌then_put◌ : Output → Output → Output
none then_put q = none
some a then_put none = none
some a then_put some b = some (a ++ b)

abbrev pub sbi_console_putchar : ℕ → Output
sbi_console_putchar c = some (c ∷ [])

-- the `n` bytes from `s[i]` on
unfoldable pub write_from : Region → ℕ → ℕ → List ℕ
write_from s i zero = []
write_from s i (suc n) = s i ∷ write_from s (i + 1) n

unfoldable pub console_write : Region → ℕ → Output
unfolding write_from
console_write s len = some (write_from s 0 len)

abbrev pub console_puts : List ℕ → Output
console_puts s = some s

-- "0123456789abcdef"[d]
unfoldable pub hex_digit : ℕ → ℕ
hex_digit d = if ltb d 10 then 48 + d else 87 + d

-- The buffer of 16 bytes is filled from its end; `ds` is what is in it, and `room` is left.
unfoldable pub fill_buffer : ℕ → ℕ → List ℕ → Output
unfolding hex_digit
fill_buffer zero p ds = if p == 0 then some ds else none
fill_buffer (suc room) p ds =
    let rest = fill_buffer room (p / 16) (hex_digit (p % 16) ∷ ds) in
    if p == 0 then some ds else rest

unfoldable pub put_hex : ℕ → Output
unfolding fill_buffer
put_hex p = if p == 0 then sbi_console_putchar b'0' else fill_buffer 16 p []

-- Where `console_vprintf` stands in its format: at a character, behind `%`, behind `%l` or `%ll`.
pub data Mode : Type 0 where
  plain percent long : Mode
  long_long : Mode

-- `put` with the next argument, of `bits` bits
abbrev pub with_argument : (ℕ → Output) → ℕ → List ℕ → Output × List ℕ
with_argument put bits [] = (none, [])
with_argument put bits (a ∷ args) = (put (a % 2 ^ bits), args)

-- the argument that a formatter with `l` takes where no `x` follows
abbrev pub ignored : List ℕ → Output × List ℕ
ignored args = with_argument (λ x. some []) 64 args

-- a character that is not behind a `%`
abbrev pub step_plain : ℕ → List ℕ → Output × Mode × List ℕ
step_plain c args =
    if c == b'%' then (some [], percent, args) else (sbi_console_putchar c, plain, args)

abbrev pub and_mode : Output × List ℕ → Mode → Output × Mode × List ℕ
and_mode (o, args) mode = (o, mode, args)

-- `format--` behind a formatter with `l` that is not `x`: the letter is taken again, as any other.
abbrev pub take_again : ℕ → Output × List ℕ → Output × Mode × List ℕ
take_again c (o, args) = let (o', mode, args') = step_plain c args in (o then_put o', mode, args')

-- One character; `text a` is the string at the address `a`.
unfoldable pub step : (ℕ → List ℕ) → Mode → ℕ → List ℕ → Output × Mode × List ℕ
unfolding put_hex
step text plain c args = step_plain c args
step text percent c args =
    if c == b'c'
    then and_mode (with_argument sbi_console_putchar 8 args) plain
    else if c == b'p'
    then and_mode (with_argument (λ p. some (codes "0x") then_put put_hex p) 64 args) plain
    else if c == b's'
    then and_mode (with_argument (λ a. some (text a)) 64 args) plain
    else if c == b'l'
    then (some [], long, args)
    else if c == b'x'
    then and_mode (with_argument put_hex 32 args) plain
    else if c == b'%'
    then (sbi_console_putchar b'%', plain, args)
    else (some [], plain, args)
step text long c args =
    if c == b'l'
    then (some [], long_long, args)
    else if c == b'x'
    then and_mode (with_argument put_hex 64 args) plain
    else take_again c (ignored args)
step text long_long c args =
    if c == b'x'
    then and_mode (with_argument put_hex 64 args) plain
    else take_again c (ignored args)

-- At the zero of the format. Behind a `%` the loop goes on behind the zero.
abbrev pub at_zero : Mode → List ℕ → Output
at_zero plain args = some []
at_zero percent args = none
at_zero long args = (ignored args).0
at_zero long_long args = (ignored args).0

unfoldable pub vprintf_from : (ℕ → List ℕ) → Mode → List ℕ → List ℕ → Output
unfolding step
vprintf_from text mode [] args = at_zero mode args
vprintf_from text mode (c ∷ f) args =
    let (o, mode', args') = step text mode c args in o then_put vprintf_from text mode' f args'

unfoldable pub console_vprintf : (ℕ → List ℕ) → List ℕ → List ℕ → Output
unfolding vprintf_from
console_vprintf text format args = vprintf_from text plain format args

-- a call with a literal and no string among the arguments
abbrev pub console_printf : String → List ℕ → Output
console_printf format args = console_vprintf (λ a. []) (codes format) args

-- `n` of 64 bits has at most 16 digits.
unfoldable pub log_16_loop : ℕ → ℕ → ℕ → Option ℕ
log_16_loop zero n i = if n == 0 then some i else none
log_16_loop (suc rounds) n i =
    let rest = log_16_loop rounds (n / 16) (i + 1) in if n == 0 then some i else rest

abbrev pub or_zero : Option ℕ → ℕ
or_zero none = 0
or_zero (some n) = n

unfoldable pub console_log_16 : ℕ → ℕ
unfolding log_16_loop
console_log_16 n = or_zero (log_16_loop 16 n 0)

-- `put 0`, ..., `put (n - 1)`, in order from `put j` on
unfoldable pub put_from : (ℕ → Output) → ℕ → ℕ → Output
put_from put j zero = some []
put_from put j (suc n) = put j then_put put_from put (j + 1) n

-- One of the 16 values of a line
unfoldable pub hexdump_value : Region → ℕ → ℕ → Output
unfolding console_vprintf
hexdump_value bytes size index =
    if leb size index
    then console_puts (codes "   ")
    else (if ltb (bytes index) 16 then console_printf "%x" (0 ∷ []) else some [])
      then_put console_printf "%x " (bytes index ∷ [])

unfoldable pub hexdump_character : Region → ℕ → ℕ → Output
hexdump_character bytes size index =
    if leb size index
    then sbi_console_putchar b'.'
    else if leb 32 (bytes index) && ltb (bytes index) 127
    then sbi_console_putchar (bytes index)
    else sbi_console_putchar b'.'

unfoldable pub hexdump_line : Region → ℕ → ℕ → Output
unfolding console_log_16 put_from hexdump_value hexdump_character console_vprintf
hexdump_line bytes size i =
    let zeros = (console_log_16 size + 2 ^ 32 - console_log_16 i + 2 ^ 32 - 1) % 2 ^ 32 in
    put_from (λ j. console_printf "%x" (0 ∷ [])) 0 zeros
    then_put console_printf "%llx    " (i * 16 ∷ [])
    then_put put_from (λ j. hexdump_value bytes size (i * 16 + j)) 0 16
    then_put console_puts (codes "    |")
    then_put put_from (λ j. hexdump_character bytes size (i * 16 + j)) 0 16
    then_put console_puts (codes "|\n")

-- the lines from line `i` on
unfoldable pub hexdump_lines : Region → ℕ → ℕ → ℕ → Output
unfolding hexdump_line
hexdump_lines bytes size i zero = some []
hexdump_lines bytes size i (suc n) =
    hexdump_line bytes size i then_put hexdump_lines bytes size (i + 1) n

unfoldable pub console_put_hexdump : Region → ℕ → Output
unfolding hexdump_lines
console_put_hexdump bytes size = hexdump_lines bytes size 0 (add64 size 15 / 16)
