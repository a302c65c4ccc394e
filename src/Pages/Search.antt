-- ===== src/Pages/Search.antt =====
-- The two scanning loops of `alloc_pages` in kernel/src/memory.c find the first free run.
use ilo_pali.Prelude.{
  ℕ, zero, suc, ◌+◌, ◌-◌, ◌≤◌, ◌<◌, ◌≡◌, inl, inr, refl, Bool, true, some, none, arith, leb, ltb,
  ◌==◌, if◌then◌else◌, Bool-cases, ◌&&◌,
}
use ilo_pali.Pages.{enough, find_run, update_range}

-- the `count` entries from `p` on are zero
abbrev pub IsFree : (ℕ → ℕ) → ℕ → ℕ → Type 0
IsFree rc p count = (i : ℕ) → p ≤ i → i < p + count → rc i ≡ 0

enough-IsFree : (rc : ℕ → ℕ) (q n : ℕ) → enough rc q n ≡ true → IsFree rc q n
unfolding enough
enough-IsFree rc q zero e i lo hi = absurd (omega arith)
enough-IsFree rc q (suc n) e i lo hi = elim (Bool-cases (q == i)) [
  | inl here ↦ ground arith
  | inr on ↦ enough-IsFree rc (q + 1) n (ground arith) i (ground arith) (ground arith)
]

IsFree-enough : (rc : ℕ → ℕ) (q n : ℕ) → IsFree rc q n → enough rc q n ≡ true
unfolding enough
IsFree-enough rc q zero h = refl
IsFree-enough rc q (suc n) h =
    ground (arith, h q, IsFree-enough rc (q + 1) n (λ i lo hi. h i (omega arith) (omega arith)))

-- the test that the loop makes at one entry
run_at : (ℕ → ℕ) → ℕ → ℕ → Bool
run_at rc p m = (rc p == 0) && enough rc (p + 1) m

run_at-IsFree : (rc : ℕ → ℕ) (p m : ℕ) → run_at rc p m ≡ true → IsFree rc p (suc m)
unfolding run_at
run_at-IsFree rc p m e i lo hi = elim (Bool-cases (p == i)) [
  | inl here ↦ ground arith
  | inr on ↦ enough-IsFree rc (p + 1) m (ground arith) i (ground arith) (ground arith)
]

IsFree-run_at : (rc : ℕ → ℕ) (p m : ℕ) → IsFree rc p (suc m) → run_at rc p m ≡ true
unfolding run_at
IsFree-run_at rc p m h =
    ground (arith, h p, IsFree-enough rc (p + 1) m (λ i lo hi. h i (omega arith) (omega arith)))

find_run-suc :
    (rc : ℕ → ℕ) (m p n : ℕ)
    → find_run rc (suc m) p (suc n)
      ≡ (if run_at rc p m then some p else find_run rc (suc m) (p + 1) n)
unfolding find_run run_at
find_run-suc rc m p n = let e : suc m - 1 ≡ m = omega arith in rw e (ground arith)

pub find_run-some :
    (rc : ℕ → ℕ) (m p n : ℕ) {r : ℕ}
    → find_run rc (suc m) p n ≡ some r
    → (p ≤ r)
      × (r < p + n)
      × IsFree rc r (suc m)
      × ((k : ℕ) → p ≤ k → k < r → ¬ IsFree rc k (suc m))
find_run-some rc m p zero e = absurd (unfold find_run in cc)
find_run-some rc m p (suc n) {r} e = elim (Bool-cases (run_at rc p m)) [
  | inl t ↦
      let found : p ≡ r = ground (arith, find_run-suc rc m p n) in
      (
        omega arith,
        omega arith,
        rw (← found) (run_at-IsFree rc p m t),
        λ k lo hi. absurd (omega arith),
      )
  | inr t ↦
      let later : find_run rc (suc m) (p + 1) n ≡ some r = ground (arith, find_run-suc rc m p n) in
      let (lo, hi, free, first) = find_run-some rc m (p + 1) n later in
      (
        omega arith,
        omega arith,
        free,
        λ k klo khi. elim (Bool-cases (p == k)) [
          | inl here ↦ λ f. ground (arith, IsFree-run_at rc k m f)
          | inr on ↦ first k (ground arith) khi
        ],
      )
]

pub find_run-none :
    (rc : ℕ → ℕ) (m p n : ℕ)
    → find_run rc (suc m) p n ≡ none
    → (k : ℕ) → p ≤ k
    → k < p + n
    → ¬ IsFree rc k (suc m)
find_run-none rc m p zero e k lo hi f = omega arith
find_run-none rc m p (suc n) e k lo hi f = elim (Bool-cases (p == k)) [
  | inl here ↦ ground (arith, find_run-suc rc m p n, IsFree-run_at rc k m f)
  | inr on ↦
      find_run-none rc m (p + 1) n
        (elim (Bool-cases (run_at rc p m)) [
          | inl t ↦ absurd (ground (arith, find_run-suc rc m p n))
          | inr t ↦ ground (arith, find_run-suc rc m p n)
        ])
        k (ground arith) (ground arith) f
]

-- entry by entry, what the updating loops do
pub update_range_lem :
    (f : ℕ → ℕ) (i n : ℕ) (rc : ℕ → ℕ) (j : ℕ)
    → update_range f i n rc j ≡ (if leb i j && ltb j (i + n) then f (rc j) else rc j)
unfolding update_range
update_range_lem f i zero rc j = ground arith
update_range_lem f i (suc n) rc j = rw (update_range_lem f (i + 1) n) (ground arith)
