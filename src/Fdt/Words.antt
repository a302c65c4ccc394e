-- ===== src/Fdt/Words.antt =====
-- `be_to_le` of kernel/src/fdt.c reads a number from its bytes, the highest first.
use Prim.Native.Nat.{bit_or}
use native.Mathlib.Nat.{
  one-le-pow, pow-le-pow_right, mod-lt, div-add-mod, div-add-mod', mul-add-mod_self_left,
  mod-eq_of_lt,
}
use native.Mathlib.Numerals.{towards_suc}
use ilo_pali.Prelude.{
  ℕ, zero, suc, ◌+◌, ◌-◌, ◌*◌, ◌/◌, ◌%◌, ◌^◌, ◌≤◌, ◌<◌, ◌≡◌, ◌∙◌, ap, sym, arith, bit_or_disjoint,
}
use ilo_pali.Bytes.{Region}
use ilo_pali.Fdt.{be_loop, be_to_le}

-- The number that the `k` bytes at `p` stand for, behind the digits `acc`.
abbrev pub big_endian : ℕ → Region → ℕ → ℕ → ℕ
big_endian acc m p zero = acc
big_endian acc m p (suc k) = big_endian (acc * 256 + m p) m (p + 1) k

shift_byte : (k : ℕ) → 2 ^ (suc k * 8) ≡ 256 * 2 ^ (k * 8)
shift_byte k = let e : suc k * 8 ≡ k * 8 + 8 = omega arith in rw e (simp towards_suc (omega arith))

another_digit : (b w : ℕ) → b < 256 → b * w + w ≤ 256 * w
another_digit b w h = grind arith

-- a byte of weight `w` behind `a` digits
another_byte :
    (a b w : ℕ)
    → b < 256
    → 1 ≤ w
    → (a + 1) * (256 * w) ≤ 2 ^ 64
    → (b * w < 256 * w)
      × (b * w < 2 ^ 64)
      × (a * (256 * w) + b * w ≡ (a * 256 + b) * w)
      × ((a * 256 + b + 1) * w ≤ 2 ^ 64)
another_byte a b w h pos fits =
    let below = another_digit b w h in
    let joined : a * (256 * w) + b * w ≡ (a * 256 + b) * w = grind arith in
    let one : (a + 1) * (256 * w) ≡ a * (256 * w) + 256 * w = grind arith in
    let last : (a * 256 + b + 1) * w ≡ (a * 256 + b) * w + w = grind arith in
    (omega arith, omega arith, joined, omega arith)

be_loop_lem :
    (m : Region) (be i k a : ℕ)
    → ((j : ℕ) → m j < 256)
    → (a + 1) * 2 ^ (k * 8) ≤ 2 ^ 64
    → be_loop m be i k (a * 2 ^ (k * 8)) ≡ big_endian a m (be + i) k
unfolding be_loop
be_loop_lem m be i zero a bytes h = omega arith
be_loop_lem m be i (suc k) a bytes h =
    let b = m (be + i) in
    let w = 2 ^ (k * 8) in
    let (small, word, joined, fits) =
      another_byte a b w (bytes (be + i)) (one-le-pow (k * 8) 2 (omega arith))
        (rw (shift_byte k) at h) in
    let whole : b * w % 2 ^ 64 ≡ b * w = omega arith in
    let put = bit_or_disjoint (suc k * 8) a (b * w) (rw (shift_byte k) small) in
    let sum : bit_or (a * 2 ^ (suc k * 8)) (b * w) ≡ (a * 256 + b) * w =
      put ∙ rw (shift_byte k) joined in
    let next : be + (i + 1) ≡ be + i + 1 = omega arith in
    rw whole (rw sum (rw (← next) (be_loop_lem m be (i + 1) k (a * 256 + b) bytes fits)))

-- the digit of weight `w`, and those below it
split_byte : (x w : ℕ) → 1 ≤ w → x % (256 * w) ≡ x / w % 256 * w + x % w
split_byte x w pos =
    let q = x / w in
    let low : x % w < w = mod-lt x pos in
    let whole : q * w + x % w ≡ x = div-add-mod' x w in
    let parts : q * w ≡ 256 * w * (q / 256) + q % 256 * w =
      ap (λ (t : ℕ). t * w) (sym (div-add-mod q 256)) ∙ grind arith in
    let small : q % 256 * w + w ≤ 256 * w = another_digit (q % 256) w (omega arith) in
    let all : 256 * w * (q / 256) + (q % 256 * w + x % w) ≡ x = omega arith in
    ap (λ (t : ℕ). t % (256 * w)) (sym all)
    ∙ mul-add-mod_self_left (256 * w) (q / 256) (q % 256 * w + x % w)
    ∙ mod-eq_of_lt (omega arith)

-- The bytes of a number, the highest first, stand at `p`.
abbrev pub BytesOf : ℕ → ℕ → Region → ℕ → Type 0
BytesOf k x m p = (i : ℕ) → i < k → m (p + i) ≡ x / 2 ^ ((k - 1 - i) * 8) % 256

big_endian-BytesOf :
    (k x acc : ℕ) (m : Region) (p : ℕ)
    → BytesOf k x m p
    → big_endian acc m p k ≡ acc * 2 ^ (k * 8) + x % 2 ^ (k * 8)
big_endian-BytesOf zero x acc m p h = omega arith
big_endian-BytesOf (suc k) x acc m p h =
    let w = 2 ^ (k * 8) in
    let at : p + 0 ≡ p = omega arith in
    let top : suc k - 1 - 0 ≡ k = omega arith in
    let first : m p ≡ x / w % 256 = rw (at, top) at (h 0 (omega arith)) in
    let rest : BytesOf k x m (p + 1) = λ i lt.
      let on : p + 1 + i ≡ p + suc i = omega arith in
      let down : suc k - 1 - suc i ≡ k - 1 - i = omega arith in
      rw on (rw down at (h (suc i) (omega arith))) in
    let digits : (acc * 256 + m p) * w ≡ acc * (256 * w) + m p * w = grind arith in
    let ih = big_endian-BytesOf k x (acc * 256 + m p) m (p + 1) rest in
    let split = split_byte x w (one-le-pow (k * 8) 2 (omega arith)) in
    rw (shift_byte k) (omega (arith, ih, split, digits, ap (λ (t : ℕ). t * w) first))

-- `be_to_le` of a size of up to 64 bits reads back the number whose bytes stand at the address, the
-- highest first.
pub be_to_le_lem :
    (m : Region) (p k x : ℕ)
    → ((j : ℕ) → m j < 256)
    → k ≤ 8
    → x < 2 ^ (k * 8)
    → BytesOf k x m p
    → be_to_le m (8 * k) p ≡ x
unfolding be_to_le
be_to_le_lem m p k x bytes le lt h =
    let count : 8 * k / 8 ≡ k = omega arith in
    let start : p + 0 ≡ p = omega arith in
    let none_yet : 0 * 2 ^ (k * 8) ≡ 0 = omega arith in
    let up : 2 ^ (k * 8) ≤ 2 ^ 64 =
      pow-le-pow_right (omega arith) {i = k * 8} {j = 64} (omega arith) in
    let loop = be_loop_lem m p 0 k 0 bytes (omega arith) in
    rw count (
      rw (none_yet, start) at loop
      ∙ big_endian-BytesOf k x 0 m p h
      ∙ omega (arith, mod-eq_of_lt lt))
