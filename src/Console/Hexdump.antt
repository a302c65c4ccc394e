-- ===== src/Console/Hexdump.antt =====
-- `console_put_hexdump` of kernel/src/console.c: every line is as wide as the others.
use ilo_pali.Prelude.{
  ℕ, zero, suc, ◌+◌, ◌*◌, ◌/◌, ◌%◌, ◌^◌, ◌-◌, ◌≤◌, ◌<◌, ◌≡◌, refl, ◌∙◌, none, some, List, [], ◌∷◌,
  ◌++◌, length, length-append, ltb, leb, ◌==◌, if◌then◌else◌, arith, Bool-cases, inl, inr, ◌&&◌,
  add64,
}
use ilo_pali.Bytes.{Region}
use ilo_pali.Console.{
  Output, put_hex, console_log_16, console_vprintf, console_printf, codes, ◌then_put◌, put_from,
  hexdump_value, hexdump_character, hexdump_line, hexdump_lines, console_put_hexdump,
}
use ilo_pali.Console.Hex.{
  width_zero, width-le, width-positive, digits_of_byte, log_16-width, width_mono, width-shift,
  put_hex_lem,
}

-- The output is `n` bytes, and nothing undefined happens.
pub record Puts (n : ℕ) (o : Output) : Type 0 where
  pub bytes : List ℕ
  pub defined : o ≡ some bytes
  pub size : length bytes ≡ n

Puts-some : (xs : List ℕ) → Puts (length xs) (some xs)
Puts-some xs = record { bytes = xs; defined = refl; size = refl }

infixr 20 ◌then_Puts◌
◌then_Puts◌ : {a b : ℕ} {o q : Output} → Puts a o → Puts b q → Puts (a + b) (o then_put q)
p then_Puts q = record {
  bytes = p.bytes ++ q.bytes;
  defined = rw (p.defined, q.defined) refl;
  size = omega (arith, length-append p.bytes q.bytes, p.size, q.size);
}

resized : {a b : ℕ} {o : Output} → Puts a o → a ≡ b → Puts b o
resized p e = record { bytes = p.bytes; defined = p.defined; size = p.size ∙ e }

Puts-put_from :
    (put : ℕ → Output) (k j n : ℕ)
    → ((i : ℕ) → j ≤ i → i < j + n → Puts k (put i))
    → Puts (n * k) (put_from put j n)
unfolding put_from
Puts-put_from put k j zero h = resized (Puts-some []) (omega arith)
Puts-put_from put k j (suc n) h =
    resized
      (h j (omega arith) (omega arith)
        then_Puts Puts-put_from put k (j + 1) n (λ i lo hi. h i (omega arith) (omega arith)))
      (grind arith)

Puts-put_hex : (p : ℕ) → p < 2 ^ 64 → Puts (if p == 0 then 1 else console_log_16 p) (put_hex p)
Puts-put_hex p h =
    let (es, run, is) = put_hex_lem p h in record { bytes = es; defined = run; size = is.size }

nothing_first : (q : Output) → some [] then_put q ≡ q
nothing_first none = refl
nothing_first (some xs) = refl

printf_zero : console_printf "%x" (0 ∷ []) ≡ some (b'0' ∷ [])
unfolding console_vprintf put_hex
printf_zero = refl

printf_byte :
    (b : ℕ) → b < 256 → console_printf "%x " (b ∷ []) ≡ put_hex b then_put some (codes " ")
unfolding console_vprintf
printf_byte b h = let small : b % 4294967296 ≡ b = omega arith in nothing_first _ ∙ rw small refl

printf_label :
    (n : ℕ)
    → n < 2 ^ 64
    → console_printf "%llx    " (n ∷ []) ≡ put_hex n then_put some (codes "    ")
unfolding console_vprintf
printf_label n h =
    let small : n % 18446744073709551616 ≡ n = omega arith in
    nothing_first _ ∙ nothing_first _ ∙ nothing_first _ ∙ rw small refl

Puts-byte :
    (b : ℕ)
    → b < 256
    → Puts ((if b == 0 then 1 else console_log_16 b) + 1) (console_printf "%x " (b ∷ []))
Puts-byte b h = rw (printf_byte b h) (Puts-put_hex b (omega arith) then_Puts Puts-some (codes " "))

Puts-label :
    (n : ℕ)
    → n < 2 ^ 64
    → Puts ((if n == 0 then 1 else console_log_16 n) + 4) (console_printf "%llx    " (n ∷ []))
Puts-label n h = rw (printf_label n h) (Puts-put_hex n h then_Puts Puts-some (codes "    "))

Puts-zero : Puts 1 (console_printf "%x" (0 ∷ []))
Puts-zero = rw printf_zero (Puts-some (b'0' ∷ []))

-- The zeros and the digits of a label are as many digits as the size has.
label_width :
    (size i : ℕ)
    → size < 2 ^ 64
    → i * 16 < size
    → (console_log_16 size + 2 ^ 32 - console_log_16 i + 2 ^ 32 - 1) % 2 ^ 32
        + (if i * 16 == 0 then 1 else console_log_16 (i * 16))
      ≡ console_log_16 size
label_width size i wide inside =
    rw (log_16-width size wide, log_16-width i (omega arith), log_16-width (i * 16) (omega arith))
      (elim (Bool-cases (i == 0)) [
        | inl e ↦ ground (arith, width_zero 16, width-le 16 size, width-positive 15 size)
        | inr e ↦ ground (
          arith,
          width-le 16 size,
          width-shift i (ground arith) (omega arith),
          width_mono 16 (i * 16) size,
        )
      ])

module _ (bytes : Region) (size : ℕ) (are_bytes : (i : ℕ) → bytes i < 256) where
  Puts-value : (index : ℕ) → Puts 3 (hexdump_value bytes size index)
  unfolding hexdump_value
  Puts-value index = elim (Bool-cases (leb size index)) [
    | inl out ↦ rw out (Puts-some (codes "   "))
    | inr within ↦ rw within (elim (Bool-cases (ltb (bytes index) 16)) [
      | inl low ↦ rw low (
          resized (Puts-zero then_Puts Puts-byte (bytes index) (are_bytes index))
            (rw (digits_of_byte (bytes index) (are_bytes index)) (rw low refl)))
      | inr high ↦ rw high (
          resized (Puts-some [] then_Puts Puts-byte (bytes index) (are_bytes index))
            (rw (digits_of_byte (bytes index) (are_bytes index)) (rw high refl)))
    ])
  ]

  Puts-character : (index : ℕ) → Puts 1 (hexdump_character bytes size index)
  unfolding hexdump_character
  Puts-character index = elim (Bool-cases (leb size index)) [
    | inl out ↦ rw out (Puts-some (b'.' ∷ []))
    | inr within ↦ rw within (elim (Bool-cases (leb 32 (bytes index) && ltb (bytes index) 127)) [
      | inl e ↦ rw e (Puts-some (bytes index ∷ []))
      | inr e ↦ rw e (Puts-some (b'.' ∷ []))
    ])
  ]

  Puts-line :
      (i : ℕ)
      → size < 2 ^ 64
      → i * 16 < size
      → Puts (console_log_16 size + 75) (hexdump_line bytes size i)
  unfolding hexdump_line
  Puts-line i wide inside =
      let zeros = (console_log_16 size + 2 ^ 32 - console_log_16 i + 2 ^ 32 - 1) % 2 ^ 32 in
      resized
        (Puts-put_from _ 1 0 zeros (λ j lo hi. Puts-zero)
          then_Puts Puts-label (i * 16) (omega arith)
          then_Puts Puts-put_from _ 3 0 16 (λ j lo hi. Puts-value (i * 16 + j))
          then_Puts Puts-some (codes "    |")
          then_Puts Puts-put_from _ 1 0 16 (λ j lo hi. Puts-character (i * 16 + j))
          then_Puts Puts-some (codes "|\n"))
        (omega (arith, label_width size i wide inside))

  Puts-lines :
      (i n : ℕ)
      → size < 2 ^ 64
      → (i + n) * 16 < size + 16
      → Puts (n * (console_log_16 size + 75)) (hexdump_lines bytes size i n)
  unfolding hexdump_lines
  Puts-lines i zero wide inside = resized (Puts-some []) (omega arith)
  Puts-lines i (suc n) wide inside =
      resized (Puts-line i wide (omega arith) then_Puts Puts-lines (i + 1) n wide (omega arith))
        (grind arith)

-- A dump of bytes has one line for every 16 of them, and every line has the same number of
-- characters: as many digits as the size has, and 75 more. Nothing undefined happens on the way.
pub hexdump_lem :
    (bytes : Region) (size : ℕ)
    → ((i : ℕ) → bytes i < 256)
    → size < 2 ^ 64 - 15
    → ((i : ℕ) → i * 16 < size → Puts (console_log_16 size + 75) (hexdump_line bytes size i))
      × Puts ((size + 15) / 16 * (console_log_16 size + 75)) (console_put_hexdump bytes size)
unfolding console_put_hexdump
hexdump_lem bytes size are_bytes h = (
  λ i lt. Puts-line bytes size are_bytes i (omega arith) lt,
  let wrapped : add64 size 15 / 16 ≡ (size + 15) / 16 = omega arith in
      rw wrapped (Puts-lines bytes size are_bytes 0 ((size + 15) / 16) (omega arith) (omega arith)),
)
