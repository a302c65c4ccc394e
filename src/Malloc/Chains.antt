-- ===== src/Malloc/Chains.antt =====
-- The lists of free buckets of kernel/src/memory.c.
use native.Mathlib.Nat.{le-div_iff_mul-le}
use ilo_pali.Prelude.{
  ℕ, zero, suc, ◌+◌, ◌*◌, ◌/◌, ◌^◌, mul64, ◌<◌, ◌≤◌, ◌≡◌, ◌∙◌, ap, subst, sym, refl, true, List, [],
  ◌∷◌, ltb, some, if◌then◌else◌, arith, if_true, if_false, Bool-cases, inl, inr,
}
use ilo_pali.Malloc.{
  Buckets, size_class, header_size, format_bucket, format_from, free_buckets_format_unused,
  page_size,
}
use ilo_pali.Malloc.Linked.{All, none_left, one_more, Without, put-other, put-same}

-- The buckets `xs` of one size, linked from `p` on to `q`, which is not looked at.
pub data Chain (next size : ℕ → ℕ) (c : ℕ) : ℕ → List ℕ → ℕ → Type 0 where
  stops : (q : ℕ) → Chain next size c q [] q
  links :
      (p r q : ℕ) (xs : List ℕ)
      → size p ≡ c
      → next p ≡ r
      → Chain next size c r xs q
      → Chain next size c p (p ∷ xs) q

-- Other fields elsewhere leave a list as it is.
pub Chain-elsewhere :
    {next size next' size' : ℕ → ℕ} {P : ℕ → Type 0} {c p q : ℕ} {xs : List ℕ}
    → ((x : ℕ) → P x → next' x ≡ next x)
    → ((x : ℕ) → P x → size' x ≡ size x)
    → All P xs
    → Chain next size c p xs q
    → Chain next' size' c p xs q
Chain-elsewhere n v a (stops q) = stops q
Chain-elsewhere n v (one_more _ _ h a) (links p r q xs e f l) =
    links p r q xs (v p h ∙ e) (n p h ∙ f) (Chain-elsewhere n v a l)

-- where a list starts: at its first bucket, or at its end
pub Chain-head :
    {next size : ℕ → ℕ} {P : ℕ → Type 0} {c p q : ℕ} {xs : List ℕ}
    → Chain next size c p xs q
    → All P xs
    → P q
    → P p
Chain-head (stops q) a h = h
Chain-head (links p r q xs e f l) (one_more _ _ h a) k = h

-- a list with a first bucket
pub Chain-first :
    {next size : ℕ → ℕ} {c p b q : ℕ} {xs : List ℕ}
    → Chain next size c p (b ∷ xs) q
    → (p ≡ b) × (size b ≡ c) × Chain next size c (next b) xs q
Chain-first (links p r q xs e f l) = (refl, e, rw f l)

-- A request fits in the buckets of its list.
pub size_class-fits : (size c : ℕ) → size_class size ≡ some c → size ≤ c
unfolding size_class
size_class-fits size c h = ground arith

-- the places of `n` buckets, `step` bytes apart
abbrev pub places : ℕ → ℕ → ℕ → List ℕ
places a step zero = []
places a step (suc n) = a ∷ places (a + step) step n

places-before : (a step n b : ℕ) → b < a → Without b (places a step n)
places-before a step zero b lt = none_left
places-before a step (suc n) b lt =
    one_more a _ (λ e. omega arith) (places-before (a + step) step n b (omega arith))

below : {a b : ℕ} → a < b → ltb a b ≡ true
below lt = ground arith

module _ (base c total : ℕ) where
  abbrev step : ℕ
  step = header_size + c

  abbrev formatted : ℕ → Buckets → ℕ → Buckets
  formatted rounds h i = format_from rounds h base c total i

  -- What is in front of the loop stays.
  front_stays :
      (rounds : ℕ) (h : Buckets) (i x : ℕ)
      → x < base + i
      → ((formatted rounds h i).next x ≡ h.next x) × ((formatted rounds h i).size x ≡ h.size x)
  unfolding format_from
  front_stays zero h i x lt = (refl, refl)
  front_stays (suc rounds) h i x lt = elim (Bool-cases (ltb (i + step) total)) [
    | inr out ↦ (
      ap (λ (g : Buckets). g.next x) (if_false _ _ out),
      ap (λ (g : Buckets). g.size x) (if_false _ _ out),
    )
    | inl on ↦
        let (n, z) =
          front_stays rounds (format_bucket h base c total i) (i + step) x (omega arith) in
        (
          ap (λ (g : Buckets). g.next x) (if_true _ _ on)
              ∙ n
              ∙ put-other h.next (base + i) (if ltb (i + step) total then base + i + step else 0)
                  (omega arith),
          ap (λ (g : Buckets). g.size x) (if_true _ _ on)
              ∙ z
              ∙ put-other h.size (base + i) c (omega arith),
        )
  ]

  -- `n` buckets from `i` on
  loop_lem :
      (rounds n : ℕ) (h : Buckets) (i q : ℕ)
      → n ≤ rounds
      → i + n * step < total
      → total ≤ i + n * step + step
      → q ≡ base + i + n * step
      → Chain
          (formatted rounds h i).next
          (formatted rounds h i).size
          c
          (base + i)
          (places (base + i) step n)
          q
  unfolding format_from
  loop_lem rounds zero h i q le lt ge e =
      let here : q ≡ base + i = omega arith in rw here (stops (base + i))
  loop_lem zero (suc n) h i q le lt ge e = absurd (omega arith)
  loop_lem (suc rounds) (suc n) h i q le lt ge e =
      let more : suc n * step ≡ step + n * step = grind arith in
      let on : ltb (i + step) total ≡ true = below (omega arith) in
      let next : base + (i + step) ≡ base + i + step = omega arith in
      let g = format_bucket h base c total i in
      let (n', z') = front_stays rounds g (i + step) (base + i) (omega arith) in
      let rest =
        loop_lem rounds n g (i + step) q (omega arith) (omega arith) (omega arith) (omega arith) in
      subst (λ (b : Buckets). Chain b.next b.size c (base + i) (places (base + i) step (suc n)) q)
        (sym (if_true _ _ on))
        (links (base + i) (base + i + step) q (places (base + i + step) step n)
          (z' ∙ put-same h.size (base + i) c)
          (n'
            ∙ put-same h.next (base + i) (if ltb (i + step) total then base + i + step else 0)
            ∙ if_true _ _ on)
          (subst
            (λ (a : ℕ).
              Chain (formatted rounds g (i + step)).next (formatted rounds g (i + step)).size c a
                (places a step n) q)
            next rest))

-- `free_buckets_format_unused` of pages that `n` buckets and a part of another fill links the `n`
-- buckets in a list, whose end is not NULL but the place behind them. No size wraps around.
pub format_lem :
    (h : Buckets) (base c count n : ℕ)
    → count * page_size + header_size + c ≤ 2 ^ 64
    → n * (header_size + c) < count * page_size
    → count * page_size ≤ n * (header_size + c) + (header_size + c)
    → let g = free_buckets_format_unused h base c count in
      Chain g.next g.size c base (places base (header_size + c) n) (base + n * (header_size + c))
unfolding free_buckets_format_unused
format_lem h base c count n fits lt ge =
    let total = mul64 count page_size in
    let whole : total ≡ count * page_size = omega arith in
    let at : base + 0 ≡ base = omega arith in
    let enough : n ≤ total / (header_size + c) =
      (le-div_iff_mul-le {k = header_size + c} {x = n} {y = total} (omega arith)).1 (omega arith) in
    let g = free_buckets_format_unused h base c count in
    subst
      (λ (a : ℕ).
        Chain g.next g.size c a (places a (header_size + c) n) (base + n * (header_size + c)))
      at
      (loop_lem base c total (total / (header_size + c)) n h 0 (base + n * (header_size + c)) enough
        (omega arith) (omega arith) (omega arith))
