-- ===== src/Pages/Alloc.antt =====
-- `alloc_pages` of kernel/src/memory.c.
use ilo_pali.Prelude.{
  Option, ℕ, zero, suc, ◌+◌, ◌-◌, ◌*◌, ◌<◌, ◌≡◌, ◌⊎◌, inl, inr, refl, true, some, none, arith, leb,
  ltb, if◌then◌else◌, Option-cases, ◌&&◌,
}
use ilo_pali.Pages.{Pages, page_size, find_run, alloc_pages}
use ilo_pali.Pages.Search.{IsFree, find_run-some, find_run-none, update_range_lem}

-- `alloc_pages s count` handed out the pages from `p` on.
pub record Allocated (s : Pages) (count p : ℕ) (s' : Pages) : Type 0 where
  pub in_table : p + count < s.len
  pub was_free : IsFree s.rc p count
  pub is_first : (k : ℕ) → k < p → ¬ IsFree s.rc k count
  pub rc : (i : ℕ) → s'.rc i ≡ (if leb p i && ltb i (p + count) then 1 else s.rc i)
  pub clear : (i : ℕ) → s'.clear i ≡ (if leb p i && ltb i (p + count) then true else s.clear i)
  pub table : (s'.len ≡ s.len) × (s'.heap_bottom ≡ s.heap_bottom)

-- Either the run at `p` was handed out, or there was none and nothing changed.
abbrev pub Outcome : Pages → ℕ → Option ℕ × Pages → Type 0
Outcome s count (page, s') =
    ((p : ℕ) × (page ≡ some (p * page_size + s.heap_bottom)) × Allocated s count p s')
    ⊎ ((page ≡ none) × (s' ≡ s) × ((k : ℕ) → k + count < s.len → ¬ IsFree s.rc k count))

-- For a count above zero, `alloc_pages` either returns the address of the first run of `count`
-- pages with no references that ends below the last entry of the table, and leaves exactly those
-- pages with one reference each and zeroed, or there is no such run, it returns NULL, and the
-- state is as it was.
pub alloc_pages_lem : (s : Pages) (count : ℕ) → 0 < count → Outcome s count (alloc_pages s count)
unfolding alloc_pages
alloc_pages_lem s zero h = absurd (omega arith)
alloc_pages_lem s (suc m) h = elim (Option-cases (find_run s.rc (suc m) 0 (s.len - suc m))) [
  | inl e ↦
      rw (e, alloc_pages)
        (inr (
          refl,
          refl,
          λ k lt. find_run-none s.rc m 0 (s.len - suc m) e k (omega arith) (omega arith),
        ))
  | inr (p, e) ↦
      let (lo, hi, free, first) = find_run-some s.rc m 0 (s.len - suc m) e in
      rw (e, alloc_pages)
        (inl (
          p,
          refl,
          record {
            in_table = omega arith;
            was_free = free;
            is_first = λ k lt. first k (omega arith) lt;
            rc = λ i. update_range_lem (λ c. 1) p (suc m) s.rc i;
            clear = λ i. refl;
            table = (refl, refl);
          },
        ))
]
