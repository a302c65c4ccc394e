-- ===== src/Fdt/NodeAddress.antt =====
-- `fdt_get_node_addr` of kernel/src/fdt.c, and that it reads back hexadecimal digits.
use Prim.Native.Nat.{bit_or}
use native.Mathlib.Nat.{one-le-pow, pow-suc, pow-le-pow_right}
use ilo_pali.Prelude.{
  ℕ, zero, suc, ◌+◌, ◌-◌, ◌*◌, ◌%◌, ◌^◌, ◌≤◌, ◌<◌, ◌≡◌, ◌≢◌, ◌∙◌, ap, sym, true, false, ◌&&◌,
  Option, none, some, leb, ◌==◌, if◌then◌else◌, arith, Bool-cases, if_true, if_false, inl, inr,
  bit_or_disjoint,
}
use ilo_pali.Bytes.{Region}
use ilo_pali.Fdt.{cell, fdt_begin_node}

-- `while (*c && *c++ != '@');`: where `c` stands then
unfoldable pub skip_to_at : ℕ → Region → ℕ → Option ℕ
skip_to_at zero m c = none
skip_to_at (suc limit) m c =
    let rest = skip_to_at limit m (c + 1) in
    if m c == 0 then some c else if m c == b'@' then some (c + 1) else rest

-- The switch on a character: one that is no digit stands for itself.
abbrev pub digit_of : ℕ → ℕ
digit_of v =
    if leb b'0' v && leb v b'9'
    then v - b'0'
    else if leb b'a' v && leb v b'f'
    then v - b'a' + 10
    else if leb b'A' v && leb v b'F'
    then v - b'A' + 10
    else v

unfoldable pub read_digits : ℕ → Region → ℕ → ℕ → Option ℕ
read_digits zero m c result = none
read_digits (suc limit) m c result =
    let rest = read_digits limit m (c + 1) (bit_or (result * 2 ^ 4 % 2 ^ 64) (digit_of (m c))) in
    if m c == 0 then some result else rest

-- `none` when the rounds of a loop run out
unfoldable pub fdt_get_node_addr : ℕ → Region → ℕ → Option ℕ
unfolding cell skip_to_at read_digits
fdt_get_node_addr limit m node =
    if cell m node == fdt_begin_node
    then elim (skip_to_at limit m (node + 4)) [
      | none ↦ none
      | some c ↦ if m c == 0 then some 0 else read_digits limit m c 0
    ]
    else some 0

-- a name of `n` characters before its `@`, which stands at `c + n`
pub data NameBefore (m : Region) : ℕ → ℕ → Type 0 where
  at_sign : (c : ℕ) → m c ≡ b'@' → NameBefore m c 0
  letter : (c n : ℕ) → m c ≢ 0 → m c ≢ b'@' → NameBefore m (c + 1) n → NameBefore m c (suc n)

-- The character is the digit `d`.
pub data Digit : ℕ → ℕ → Type 0 where
  decimal : (c d : ℕ) → d < 10 → c ≡ b'0' + d → Digit c d
  lower_case : (c d : ℕ) → d < 6 → c ≡ b'a' + d → Digit c (10 + d)
  upper_case : (c d : ℕ) → d < 6 → c ≡ b'A' + d → Digit c (10 + d)

-- The digits at `c`, `k` of them before the zero, stand for `x` behind `acc`.
pub data DigitsAt (m : Region) : ℕ → ℕ → ℕ → ℕ → Type 0 where
  no_digits : (c acc : ℕ) → m c ≡ 0 → DigitsAt m c 0 acc acc
  digit :
      (c k d acc x : ℕ)
      → Digit (m c) d
      → DigitsAt m (c + 1) k (acc * 16 + d) x
      → DigitsAt m c (suc k) acc x

not_zero : (x : ℕ) → x ≢ 0 → (x == 0) ≡ false
not_zero x ne = ground arith

digit_of-Digit : {c d : ℕ} → Digit c d → (digit_of c ≡ d) × (d < 16) × (c ≢ 0)
digit_of-Digit (decimal c d h e) = (ground arith, omega arith, omega arith)
digit_of-Digit (lower_case c d h e) = (ground arith, omega arith, omega arith)
digit_of-Digit (upper_case c d h e) = (ground arith, omega arith, omega arith)

-- a digit behind those read
another_digit :
    (acc d k : ℕ)
    → d < 16
    → (acc + 1) * 16 ^ suc k ≤ 2 ^ 64
    → (bit_or (acc * 2 ^ 4 % 2 ^ 64) d ≡ acc * 16 + d) × ((acc * 16 + d + 1) * 16 ^ k ≤ 2 ^ 64)
another_digit acc d k h small =
    let w = 16 ^ k in
    let pos : 1 ≤ w = one-le-pow k 16 (omega arith) in
    let all : (acc + 1) * 16 ^ suc k ≡ (acc * 16 + 16) * w =
      ap (λ (t : ℕ). (acc + 1) * t) (pow-suc 16 k) ∙ grind arith in
    let more : acc * 16 + 16 ≡ acc * 16 + d + 1 + (15 - d) = omega arith in
    let parts : (acc * 16 + 16) * w ≡ (acc * 16 + d + 1) * w + (15 - d) * w =
      ap (λ (t : ℕ). t * w) more ∙ grind arith in
    let least : acc * 16 + 16 ≤ (acc * 16 + 16) * w = grind arith in
    let whole : acc * 2 ^ 4 % 2 ^ 64 ≡ acc * 2 ^ 4 = omega arith in
    (rw whole (bit_or_disjoint 4 acc d h), omega arith)

skip_to_at_lem :
    (m : Region) (limit : ℕ) {c n : ℕ}
    → NameBefore m c n
    → n < limit
    → skip_to_at limit m c ≡ some (c + n + 1)
unfolding skip_to_at
skip_to_at_lem m zero b lt = absurd (omega arith)
skip_to_at_lem m (suc limit) (at_sign c e) lt = ground arith
skip_to_at_lem m (suc limit) (letter c n nz na b) lt =
    let e : c + 1 + n + 1 ≡ c + suc n + 1 = omega arith in
    ground (arith, skip_to_at_lem m limit b (omega arith))

read_digits_lem :
    (m : Region) (limit : ℕ) {c k acc x : ℕ}
    → DigitsAt m c k acc x
    → k < limit
    → (acc + 1) * 16 ^ k ≤ 2 ^ 64
    → read_digits limit m c acc ≡ some x
unfolding read_digits
read_digits_lem m zero s lt small = absurd (omega arith)
read_digits_lem m (suc limit) (no_digits c acc e) lt small = ground arith
read_digits_lem m (suc limit) (digit c k d acc x is s) lt small =
    let (value, h, ne) = digit_of-Digit is in
    let (joined, small') = another_digit acc d k h small in
    let run = read_digits_lem m limit s (omega arith) small' in
    if_false _ _ (not_zero (m c) ne)
    ∙ ap (λ v. read_digits limit m (c + 1) v)
        (ap (λ v. bit_or (acc * 2 ^ 4 % 2 ^ 64) v) value ∙ joined)
    ∙ run

read_none :
    (m : Region) (limit c : ℕ) → (m c == 0) ≡ true → 0 < limit → read_digits limit m c 0 ≡ some 0
unfolding read_digits
read_none m zero c z lt = absurd (omega arith)
read_none m (suc limit) c z lt = if_true _ _ z

-- what is done behind the `@`
abbrev from_at : ℕ → Region → Option ℕ → Option ℕ
from_at limit m o = elim o [
  | none ↦ none
  | some c ↦ if m c == 0 then some 0 else read_digits limit m c 0
]

starts : {x : ℕ} → x ≡ fdt_begin_node → (x == fdt_begin_node) ≡ true
starts e = ground arith

-- `fdt_get_node_addr` of a node with a name of `n` characters, an `@` and `k` hexadecimal digits, in
-- either case, returns the number that the digits stand for when it has 64 bits, and its loops end
-- within as many rounds as there are characters.
pub fdt_get_node_addr_lem :
    (m : Region) (limit node : ℕ) {n k x : ℕ}
    → cell m node ≡ fdt_begin_node
    → NameBefore m (node + 4) n
    → DigitsAt m (node + 4 + n + 1) k 0 x
    → n < limit
    → k < limit
    → k ≤ 16
    → fdt_get_node_addr limit m node ≡ some x
unfolding fdt_get_node_addr
fdt_get_node_addr_lem m limit node {n = n} {k = k} e b s long longer le =
    let c = node + 4 + n + 1 in
    let bound : 16 ^ k ≤ 16 ^ 16 = pow-le-pow_right (omega arith) {i = k} {j = 16} le in
    let small : (0 + 1) * 16 ^ k ≤ 2 ^ 64 = omega arith in
    let run = read_digits_lem m limit s longer small in
    if_true _ _ (starts e)
    ∙ ap (from_at limit m) (skip_to_at_lem m limit b long)
    ∙ elim (Bool-cases (m c == 0)) [
      | inl z ↦ if_true _ _ z ∙ sym (read_none m limit c z (omega arith)) ∙ run
      | inr nz ↦ if_false _ _ nz ∙ run
    ]
