-- ===== src/Prelude/Bits.antt =====
-- The bit operations of the native numbers at variables, from the recursion on binary digits that
-- they stand for.
use Prim.Native.Nat.{
  ℕ, zero, suc, ◌+◌, ◌*◌, ◌/◌, ◌%◌, ◌^◌, ◌≤◌, ◌<◌, min, max, bit_and, bit_or, digits,
  bit_and-bitwise, bit_or-bitwise,
}
use mathlib.Core.Path.{◌≡◌, refl, ap}
use native.Mathlib.Omega.{arith}
use native.Mathlib.Nat.{pow-suc}

module _ (rest : ℕ → ℕ) (f : ℕ → ℕ → ℕ) where
  -- Fuel beyond the first number is never used.
  enough_fuel : (n m a b : ℕ) → a ≤ n → a ≤ m → digits rest f n a b ≡ digits rest f m a b
  enough_fuel zero zero a b p q = refl
  enough_fuel zero (suc m) zero b p q = refl
  enough_fuel (suc n) zero zero b p q = refl
  enough_fuel (suc n) (suc m) zero b p q = refl
  enough_fuel zero (suc m) (suc a) b p q = absurd (omega arith)
  enough_fuel (suc n) zero (suc a) b p q = absurd (omega arith)
  enough_fuel (suc n) (suc m) (suc a) b p q =
      ap (λ t. t * 2 + f (suc a % 2) (b % 2))
        (enough_fuel n m (suc a / 2) (b / 2) (omega arith) (omega arith))

bit_and_low : (a b : ℕ) → bit_and a b ≡ bit_and (a / 2) (b / 2) * 2 + min (a % 2) (b % 2)
bit_and_low zero b = omega (arith, bit_and-bitwise 0 b, bit_and-bitwise 0 (b / 2))
bit_and_low (suc a) b = omega (
  arith,
  bit_and-bitwise (suc a) b,
  bit_and-bitwise (suc a / 2) (b / 2),
  enough_fuel (λ y. 0) min a (suc a / 2) (suc a / 2) (b / 2) (omega arith) (omega arith),
)

pub bit_or_low : (a b : ℕ) → bit_or a b ≡ bit_or (a / 2) (b / 2) * 2 + max (a % 2) (b % 2)
bit_or_low zero b = omega (arith, bit_or-bitwise 0 b, bit_or-bitwise 0 (b / 2))
bit_or_low (suc a) b = omega (
  arith,
  bit_or-bitwise (suc a) b,
  bit_or-bitwise (suc a / 2) (b / 2),
  enough_fuel (λ y. y) max a (suc a / 2) (suc a / 2) (b / 2) (omega arith) (omega arith),
)

below : (n a b : ℕ) → a ≤ n → bit_and a b ≤ b
below zero a b h = let e : a ≡ 0 = omega arith in rw e (omega (arith, bit_and-bitwise 0 b))
below (suc n) a b h =
    elim a as (λ a. a ≤ suc n → bit_and a b ≤ b) [
      | zero ↦ λ p. omega (arith, bit_and-bitwise 0 b)
      | suc k ↦ λ p. omega (arith, bit_and_low (suc k) b, below n (suc k / 2) (b / 2) (omega arith))
    ]
      h

-- A mask bounds what it is put on.
pub bit_and-le : (a b : ℕ) → bit_and a b ≤ b
bit_and-le a b = below a a b (omega arith)

pub zero-bit_or : (b : ℕ) → bit_or 0 b ≡ b
zero-bit_or b = bit_or-bitwise 0 b

with_zero : (n a : ℕ) → a ≤ n → bit_or a 0 ≡ a
with_zero zero a h = let e : a ≡ 0 = omega arith in rw e (zero-bit_or 0)
with_zero (suc n) a h =
    elim a as (λ a. a ≤ suc n → bit_or a 0 ≡ a) [
      | zero ↦ λ p. zero-bit_or 0
      | suc k ↦ λ p. omega (arith, bit_or_low (suc k) 0, with_zero n (suc k / 2) (omega arith))
    ]
      h

-- An `|` of a multiple of `2 ^ k` and a number below it is their sum.
pub bit_or_disjoint : (k a b : ℕ) → b < 2 ^ k → bit_or (a * 2 ^ k) b ≡ a * 2 ^ k + b
bit_or_disjoint zero a b h =
    let e : a * 2 ^ 0 ≡ a = omega arith in
    let z : b ≡ 0 = omega arith in rw (e, z) (omega (arith, with_zero a a (omega arith)))
bit_or_disjoint (suc k) a b h =
    let double : a * 2 ^ suc k ≡ 2 * (a * 2 ^ k) =
      omega (arith, ap (λ (t : ℕ). a * t) (pow-suc 2 k)) in
    let half : (a * 2 ^ suc k) / 2 ≡ a * 2 ^ k = omega arith in
    let even : (a * 2 ^ suc k) % 2 ≡ 0 = omega arith in
    let ih = bit_or_disjoint k a (b / 2) (omega (arith, pow-suc 2 k)) in
    let low = bit_or_low (a * 2 ^ suc k) b in omega (arith, rw (half, even) at low, ih)
