-- ===== src/Console/Hex.antt =====
-- The hexadecimal digits that kernel/src/console.c prints.
use native.Mathlib.Nat.{pow-suc}
use mathlib.Core.List.{append-nil, append_assoc}
use ilo_pali.Prelude.{
  ℕ, zero, suc, ◌+◌, ◌*◌, ◌/◌, ◌%◌, ◌^◌, ◌-◌, ◌≤◌, ◌<◌, ◌≡◌, refl, sym, ap, ◌∙◌, some, List, [],
  ◌∷◌, ◌++◌, length, length-append, ltb, ◌==◌, if◌then◌else◌, arith, Bool-cases, inl, inr, if_true,
  if_false,
}
use ilo_pali.Console.{hex_digit, fill_buffer, put_hex, log_16_loop, console_log_16}

-- how often a number can be divided by 16 before it is 0
pub width : ℕ → ℕ → ℕ
width zero n = 0
width (suc r) n = if n == 0 then 0 else suc (width r (n / 16))

log_16_loop_lem : (r n i : ℕ) → n < 16 ^ r → log_16_loop r n i ≡ some (i + width r n)
unfolding log_16_loop width
log_16_loop_lem zero n i h = ground arith
log_16_loop_lem (suc r) n i h = ground (arith, pow-suc 16 r, log_16_loop_lem r (n / 16) (i + 1))

pub log_16-width : (n : ℕ) → n < 2 ^ 64 → console_log_16 n ≡ width 16 n
unfolding console_log_16
log_16-width n h = rw (log_16_loop_lem 16 n 0 h) (omega arith)

pub width_mono : (r m n : ℕ) → m ≤ n → width r m ≤ width r n
unfolding width
width_mono zero m n h = omega arith
width_mono (suc r) m n h = ground (arith, width_mono r (m / 16) (n / 16))

width_fuel : (r n : ℕ) → n < 16 ^ r → width (suc r) n ≡ width r n
unfolding width
width_fuel zero n h = ground arith
width_fuel (suc r) n h = ground (arith, pow-suc 16 r, width_fuel r (n / 16))

shifted : (r n : ℕ) → 0 < n → width (suc r) (n * 16) ≡ suc (width r n)
unfolding width
shifted r n pos = let e : n * 16 / 16 ≡ n = omega arith in rw e (ground arith)

-- Another digit behind a number that is not 0.
pub width-shift : (n : ℕ) → 0 < n → n < 2 ^ 60 → width 16 (n * 16) ≡ width 16 n + 1
width-shift n pos h = omega (arith, shifted 15 n pos, width_fuel 15 n h)

-- The widths of the numbers of one and of two digits.
pub width_zero : (r : ℕ) → width r 0 ≡ 0
unfolding width
width_zero zero = refl
width_zero (suc r) = refl

pub width_one : (r n : ℕ) → 0 < n → n < 16 → width (suc r) n ≡ 1
unfolding width
width_one r n pos h = let e : n / 16 ≡ 0 = omega arith in rw e (ground (arith, width_zero r))

pub width_two : (r n : ℕ) → 16 ≤ n → n < 256 → width (suc (suc r)) n ≡ 2
unfolding width
width_two r n pos h = let e : n / 16 / 16 ≡ 0 = omega arith in rw e (ground (arith, width_zero r))

pub width-le : (r n : ℕ) → width r n ≤ r
unfolding width
width-le zero n = omega arith
width-le (suc r) n = ground (arith, width-le r (n / 16))

pub width-positive : (r n : ℕ) → 0 < n → 1 ≤ width (suc r) n
unfolding width
width-positive r n h = ground arith

-- a byte has one digit, or two
pub digits_of_byte :
    (b : ℕ) → b < 256 → (if b == 0 then 1 else console_log_16 b) ≡ (if ltb b 16 then 1 else 2)
digits_of_byte b h = ground (arith, log_16-width b (omega arith), width_one 15 b, width_two 14 b)

-- the value of a digit, and of digits behind a number
abbrev pub digit_value : ℕ → ℕ
digit_value c = if ltb c 58 then c - 48 else c - 87

abbrev pub read_hex : ℕ → List ℕ → ℕ
read_hex acc [] = acc
read_hex acc (c ∷ cs) = read_hex (acc * 16 + digit_value c) cs

pub read_hex-append :
    (acc : ℕ) (xs ys : List ℕ) → read_hex acc (xs ++ ys) ≡ read_hex (read_hex acc xs) ys
read_hex-append acc [] ys = refl
read_hex-append acc (x ∷ xs) ys = read_hex-append (acc * 16 + digit_value x) xs ys

-- Lower-case hexadecimal digits.
pub data AreDigits : List ℕ → Type 0 where
  no_digit : AreDigits []
  one_digit : (v : ℕ) (cs : List ℕ) → v < 16 → AreDigits cs → AreDigits (hex_digit v ∷ cs)

digit_value-hex_digit : (v : ℕ) → v < 16 → digit_value (hex_digit v) ≡ v
unfolding hex_digit
digit_value-hex_digit v h = ground arith

AreDigits-append : {xs ys : List ℕ} → AreDigits xs → AreDigits ys → AreDigits (xs ++ ys)
AreDigits-append no_digit q = q
AreDigits-append (one_digit v cs h p) q = one_digit v _ h (AreDigits-append p q)

-- What the buffer comes to hold.
pub record Digits (r p : ℕ) (es : List ℕ) : Type 0 where
  pub value : read_hex 0 es ≡ p
  pub count : length es ≡ width r p
  pub digits : AreDigits es

filled :
    (r p : ℕ) (ds : List ℕ)
    → p < 16 ^ r
    → (es : List ℕ) × (fill_buffer r p ds ≡ some (es ++ ds)) × Digits r p es
unfolding fill_buffer width
filled zero p ds h =
    ([], ground arith, record { value = ground arith; count = refl; digits = no_digit })
filled (suc r) p ds h = elim (Bool-cases (p == 0)) [
  | inl e ↦
      ([], if_true _ _ e, record { value = ground arith; count = rw e refl; digits = no_digit })
  | inr e ↦
      let d = hex_digit (p % 16) in
      let (es, run, is) = filled r (p / 16) (d ∷ ds) (omega (arith, pow-suc 16 r)) in
      let v = digit_value-hex_digit (p % 16) (omega arith) in
      let next : read_hex 0 (es ++ d ∷ []) ≡ p / 16 * 16 + p % 16 =
        read_hex-append 0 es (d ∷ []) ∙ rw (is.value, v) refl in
      (
        es ++ d ∷ [],
        if_false _ _ e ∙ run ∙ ap some (sym (append_assoc es (d ∷ []) ds)),
        record {
          value = next ∙ omega arith;
          count = rw e (omega (arith, length-append es (d ∷ []), is.count));
          digits = AreDigits-append is.digits (one_digit (p % 16) [] (omega arith) no_digit);
        },
      )
]

-- What is printed for a number: hexadecimal digits that read back as the number, as few as there
-- can be, and one for 0.
pub record Printed (p : ℕ) (es : List ℕ) : Type 0 where
  pub reads : read_hex 0 es ≡ p
  pub size : length es ≡ (if p == 0 then 1 else console_log_16 p)
  pub digits : AreDigits es

-- Every number of 64 bits fits the buffer of 16 bytes and is printed in hexadecimal digits that
-- read back as the number, as many as `console_log_16` says, or one for 0.
pub put_hex_lem : (p : ℕ) → p < 2 ^ 64 → (es : List ℕ) × (put_hex p ≡ some es) × Printed p es
unfolding put_hex
put_hex_lem p h = elim (Bool-cases (p == 0)) [
  | inl e ↦ (
    b'0' ∷ [],
    if_true _ _ e,
    record {
      reads = ground arith;
      size = rw e refl;
      digits = one_digit 0 [] (omega arith) no_digit;
    },
  )
  | inr e ↦
      let (es, run, is) = filled 16 p [] h in
      (
        es,
        if_false _ _ e ∙ run ∙ ap some (append-nil es),
        record {
          reads = is.value;
          size = rw e (is.count ∙ sym (log_16-width p h));
          digits = is.digits;
        },
      )
]
