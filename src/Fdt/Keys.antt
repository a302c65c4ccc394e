-- ===== src/Fdt/Keys.antt =====
-- The comparison of keys in `fdt_get_property` of kernel/src/fdt.c.
use ilo_pali.Prelude.{
  ℕ, zero, suc, ◌+◌, ◌<◌, ◌≡◌, ◌≢◌, ◌⊎◌, sym, ◌∙◌, some, ltb, ◌==◌, arith, Bool-cases, inl, inr,
}
use ilo_pali.Bytes.{Region, from}
use ilo_pali.Strings.{Comparison, less, equal, greater, strcmp, strcmp_from}
use ilo_pali.Fdt.Names.{StringAt, ends, goes_on}

-- The strings at two addresses are the same.
pub data SameString (m : Region) : ℕ → ℕ → Type 0 where
  both_end : (a b : ℕ) → m a ≡ 0 → m b ≡ 0 → SameString m a b
  same_byte : (a b : ℕ) → m a ≢ 0 → m a ≡ m b → SameString m (a + 1) (b + 1) → SameString m a b

other_byte : {m : Region} {a b : ℕ} → m a ≢ m b → ¬ SameString m a b
other_byte ne (both_end a b e f) = ne (e ∙ sym f)
other_byte ne (same_byte a b z e s) = ne e

rest_same : {m : Region} {a b : ℕ} → m a ≢ 0 → SameString m a b → SameString m (a + 1) (b + 1)
rest_same ne (both_end a b e f) = absurd (ne e)
rest_same ne (same_byte a b z e s) = s

-- What a comparison comes to: 0 for the same strings only.
pub data Decides (m : Region) (a b : ℕ) : Comparison → Type 0 where
  same : SameString m a b → Decides m a b equal
  other_less : ¬ SameString m a b → Decides m a b less
  other_greater : ¬ SameString m a b → Decides m a b greater

more-Decides :
    {m : Region} {a b : ℕ} {r : Comparison}
    → m a ≢ 0
    → m a ≡ m b
    → Decides m (a + 1) (b + 1) r
    → Decides m a b r
more-Decides ne e (same s) = same (same_byte _ _ ne e s)
more-Decides ne e (other_less n) = other_less (λ s. n (rest_same ne s))
more-Decides ne e (other_greater n) = other_greater (λ s. n (rest_same ne s))

module _ (m : Region) (a b : ℕ) where
  abbrev Compares : ℕ → ℕ → Type 0
  Compares rounds i =
      (r : Comparison) × (strcmp_from rounds (from m a) (from m b) i ≡ some r)
      × Decides m (a + i) (b + i) r

  byte_lem : (rounds i : ℕ) → (m (a + i) ≢ m (b + i)) ⊎ (m (a + i) ≡ 0) → Compares (suc rounds) i
  unfolding strcmp_from
  byte_lem rounds i stop = elim (Bool-cases (ltb (m (a + i)) (m (b + i)))) [
    | inl lt ↦ (less, ground arith, other_less (other_byte (ground arith)))
    | inr ge ↦ elim (Bool-cases (ltb (m (b + i)) (m (a + i)))) [
      | inl gt ↦ (greater, ground arith, other_greater (other_byte (ground arith)))
      | inr at_most ↦
          let e : m (a + i) ≡ m (b + i) = ground arith in
          let z : m (a + i) ≡ 0 = elim stop [ inl ne ↦ absurd (ne e) | inr z ↦ z ] in
          (equal, ground arith, same (both_end _ _ z (cc)))
    ]
  ]

  strings_lem : (rounds i : ℕ) {n : ℕ} → StringAt m (a + i) n → n < rounds → Compares rounds i
  unfolding strcmp_from
  strings_lem zero i s lt = absurd (omega arith)
  strings_lem (suc rounds) i (ends c z) lt = byte_lem rounds i (inr z)
  strings_lem (suc rounds) i (goes_on c n ne s) lt = elim (Bool-cases (m (a + i) == m (b + i))) [
    | inr other ↦ byte_lem rounds i (inl (ground arith))
    | inl at ↦
        let e : m (a + i) ≡ m (b + i) = ground arith in
        let one : a + i + 1 ≡ a + (i + 1) = omega arith in
        let two : b + i + 1 ≡ b + (i + 1) = omega arith in
        let (r, run, is) = strings_lem rounds (i + 1) (rw one at s) (omega arith) in
        (r, ground arith, more-Decides ne e (rw (one, two) is))
  ]

-- A comparison with a string at `a`, of `n` bytes, ends within `n + 1` rounds.
pub strcmp-Decides :
    (m : Region) (rounds a b : ℕ) {n : ℕ}
    → StringAt m a n
    → n < rounds
    → (r : Comparison) × (strcmp rounds (from m a) (from m b) ≡ some r) × Decides m a b r
unfolding strcmp
strcmp-Decides m rounds a b s lt =
    let one : a + 0 ≡ a = omega arith in
    let two : b + 0 ≡ b = omega arith in
    let (r, run, is) = strings_lem m a b rounds 0 (rw one s) lt in (r, run, rw (one, two) at is)
