-- ===== src/Strings/Order.antt =====
-- `strcmp` and `strlen` of kernel/src/string.c return, and what they return.
use ilo_pali.Prelude.{
  sym, ℕ, zero, suc, ◌+◌, ◌≤◌, ◌<◌, ◌≡◌, ◌≢◌, inl, inr, some, arith, ltb, ◌==◌, Bool-cases,
}
use ilo_pali.Bytes.{Region, Agree}
use ilo_pali.Strings.{Comparison, less, equal, greater, strcmp, strcmp_from, strlen, strlen_from}

-- A string of `n` bytes.
pub record IsString (s : Region) (n : ℕ) : Type 0 where
  pub ends : s n ≡ 0
  pub goes_on : (i : ℕ) → i < n → s i ≢ 0

-- The order of the first `n + 1` bytes.
pub data Ordered (p q : Region) (n : ℕ) : Comparison → Type 0 where
  below : (d : ℕ) → d ≤ n → Agree d p q → p d < q d → Ordered p q n less
  above : (d : ℕ) → d ≤ n → Agree d p q → q d < p d → Ordered p q n greater
  same : Agree (suc n) p q → Ordered p q n equal

module _ (p q : Region) (n : ℕ) (s : IsString p n) where
  one_byte_more : (i : ℕ) → Agree i p q → p i ≡ q i → Agree (suc i) p q
  one_byte_more i h e j lt = elim (Bool-cases (j == i)) [
    | inl at ↦ let here : j ≡ i = ground arith in rw here e
    | inr on ↦ h j (ground arith)
  ]

  -- what `strcmp` comes to from byte `i` on
  abbrev Returns : ℕ → ℕ → Type 0
  Returns rounds i = (r : Comparison) × (strcmp_from rounds p q i ≡ some r) × Ordered p q n r

  one_round : (m i : ℕ) → i ≤ n → Agree i p q → (p i ≡ q i → Returns (suc m) i) → Returns (suc m) i
  unfolding strcmp_from
  one_round m i le h go = elim (Bool-cases (ltb (p i) (q i))) [
    | inl lt ↦ (less, ground arith, below i le h (ground arith))
    | inr ge ↦ elim (Bool-cases (ltb (q i) (p i))) [
      | inl gt ↦ (greater, ground arith, above i le h (ground arith))
      | inr at_most ↦ go (ground arith)
    ]
  ]

  ordered : (m i : ℕ) → i + m ≡ n → Agree i p q → Returns (suc m) i
  unfolding strcmp_from
  ordered zero i e h = one_round 0 i (omega arith) h (λ b.
      let here : n ≡ i = omega arith in
      let stop : p i ≡ 0 = rw (sym here) s.ends in
      (equal, ground arith, same (rw here (one_byte_more i h b))))
  ordered (suc m) i e h = one_round (suc m) i (omega arith) h (λ b.
      let up : Agree (i + 1) p q = λ j lt. one_byte_more i h b j (omega arith) in
      let (r, run, o) = ordered m (i + 1) (omega arith) up in
      (r, ground (arith, s.goes_on i (omega arith)), o))

-- For a string of `n` bytes and any other, `strcmp` returns within `n + 1` rounds: -1 or 1 by the
-- first byte that differs, the end included, and 0 when the strings are the same.
pub strcmp_lem :
    (p q : Region) (n : ℕ)
    → IsString p n
    → (r : Comparison) × (strcmp (suc n) p q ≡ some r) × Ordered p q n r
unfolding strcmp
strcmp_lem p q n s = ordered p q n s n 0 (omega arith) (λ i lt. absurd (omega arith))

counted :
    (s : Region) (n : ℕ) → IsString s n → (m i : ℕ) → i + m ≡ n → strlen_from (suc m) s i ≡ some n
unfolding strlen_from
counted s n h zero i e = let here : i ≡ n = omega arith in rw here (ground (arith, h.ends))
counted s n h (suc m) i e =
    ground (arith, h.goes_on i (omega arith), counted s n h m (i + 1) (omega arith))

-- `strlen` of a string of `n` bytes returns `n`, within `n + 1` rounds.
pub strlen_lem : (s : Region) (n : ℕ) → IsString s n → strlen (suc n) s ≡ some n
unfolding strlen
strlen_lem s n h = counted s n h n 0 (omega arith)
