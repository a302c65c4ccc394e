-- ===== src/Pages/Counts.antt =====
-- Sharing and releasing pages: the reference counts of kernel/src/memory.c.
use ilo_pali.Prelude.{
  add64, ap, sym, subst, ◌∙◌, Option, ℕ, ◌+◌, ◌-◌, ◌*◌, ◌/◌, ◌<◌, ◌≡◌, some, none, arith, leb, ltb,
  ◌==◌, if◌then◌else◌, ◌&&◌, not, ◌≤◌, inl, inr,
}
use ilo_pali.Pages.{
  Pages, page_size, page_ref_count, mark_as_used, incr, decr, incr_page_ref_count, dealloc_pages,
  uint16_max, alloc_pages,
}
use ilo_pali.Pages.Alloc.{Allocated, alloc_pages_lem}
use ilo_pali.Pages.Search.{update_range_lem}

-- the address of page `i`
abbrev pub address : Pages → ℕ → ℕ
address s i = i * page_size + s.heap_bottom

-- Every page of the heap but the first has its entry: an address inside page `i` leads to entry
-- `i`, and the address of the first page itself leads to none.
pub page_ref_count_lem :
    (s : Pages) (i offset : ℕ)
    → offset < page_size
    → page_ref_count s (address s i + offset) ≡ (if (i == 0) && (offset == 0) then none else some i)
unfolding page_ref_count
page_ref_count_lem s i offset h = ground arith

-- The three updates, entry by entry, at an address inside page `i`.
abbrev pub updated : (ℕ → ℕ) → Pages → ℕ → ℕ → ℕ → ℕ → ℕ
updated f s i offset n j =
    if leb i j && ltb j (i + n) && not ((i == 0) && (offset == 0)) then f (s.rc j) else s.rc j

module _ (s : Pages) (i offset n j : ℕ) (h : offset < page_size) where
  pub incr-updated :
      (incr_page_ref_count s (address s i + offset) n).rc j ≡ updated incr s i offset n j
  unfolding incr_page_ref_count
  incr-updated = ground (arith, page_ref_count_lem s i offset h, update_range_lem incr i n s.rc j)

  pub dealloc-updated :
      (dealloc_pages s (address s i + offset) n).rc j ≡ updated decr s i offset n j
  unfolding dealloc_pages
  dealloc-updated =
      ground (arith, page_ref_count_lem s i offset h, update_range_lem decr i n s.rc j)

  pub mark_as_used-updated :
      (size : ℕ)
      → n ≡ add64 size (page_size - 1) / page_size
      → (mark_as_used s (address s i + offset) size).rc j ≡ updated (λ c. 1) s i offset n j
  unfolding mark_as_used
  mark_as_used-updated size e =
      ground (arith, page_ref_count_lem s i offset h, update_range_lem (λ c. 1) i n s.rc j)

  heap_bottom-incr : (incr_page_ref_count s (address s i + offset) n).heap_bottom ≡ s.heap_bottom
  unfolding incr_page_ref_count
  heap_bottom-incr = ground (arith, page_ref_count_lem s i offset h)

-- A reference to the pages from any address inside page `i` on that is added and then given up at the
-- same address leaves every count as it was, but for a saturated one: an entry of these pages that
-- stood at UINT16_MAX is one lower afterwards. The address of the first page itself has no entry.
pub dealloc-incr :
    (s : Pages) (i offset n j : ℕ)
    → offset < page_size
    → (dealloc_pages (incr_page_ref_count s (address s i + offset) n) (address s i + offset) n).rc j
      ≡ (if leb i j && ltb j (i + n) && not ((i == 0) && (offset == 0)) && (s.rc j == uint16_max)
          then uint16_max - 1
          else s.rc j)
unfolding incr decr
dealloc-incr s i offset n j h =
    let s' = incr_page_ref_count s (address s i + offset) n in
    ground (
      arith,
      dealloc-updated s' i offset n j h,
      incr-updated s i offset n j h,
      heap_bottom-incr s i offset n j h,
    )

abbrev or_zero : Option ℕ → ℕ
or_zero none = 0
or_zero (some a) = a

give_back_run :
    (s s' : Pages) (n p j : ℕ)
    → Allocated s n p s'
    → (dealloc_pages s' (address s p) n).rc j ≡ (if p == 0 then s'.rc j else s.rc j)
unfolding decr
give_back_run s s' n p j a =
    let at : address s p + 0 ≡ address s p = omega arith in
    subst (λ x. (dealloc_pages s' x n).rc j ≡ (if p == 0 then s'.rc j else s.rc j)) at
      (ground (arith, dealloc-updated s' p 0 n j (omega arith), a.rc j, a.was_free j, a.table))

-- Giving back the run that `alloc_pages` handed out for a count above zero restores every count,
-- unless the run began at the first page of the heap: then nothing is given back.
pub dealloc-alloc :
    (s s' : Pages) (n a j : ℕ)
    → 0 < n
    → alloc_pages s n ≡ (some a, s')
    → (dealloc_pages s' a n).rc j ≡ (if a == s.heap_bottom then s'.rc j else s.rc j)
dealloc-alloc s s' n a j h run = elim (alloc_pages_lem s n h) [
  | inl (p, e, allocated) ↦
      let at : address s p ≡ a = ap or_zero (sym e ∙ ap (λ (r : Option ℕ × Pages). r.0) run) in
      let after : (alloc_pages s n).1 ≡ s' = ap (λ (r : Option ℕ × Pages). r.1) run in
      let given : Allocated s n p s' = subst (Allocated s n p) after allocated in
      let back = give_back_run s s' n p j given in
      let first : (p == 0) ≡ (a == s.heap_bottom) = ground arith in
      subst (λ x. (dealloc_pages s' x n).rc j ≡ (if a == s.heap_bottom then s'.rc j else s.rc j)) at
        (back ∙ ap (λ b. if b then s'.rc j else s.rc j) first)
  | inr (e, same, all_taken) ↦
      (let no_page : none ≡ some a = sym e ∙ ap (λ (r : Option ℕ × Pages). r.0) run in absurd (cc))
]

-- `kinit` passes `mark_as_used` a number of pages where it takes a number of bytes: of up to
-- 4096 pages only the first is marked, and every other entry is as it was.
pub mark_as_used_pages :
    (s : Pages) (i offset n j : ℕ)
    → 0 < i + offset
    → offset < page_size
    → 0 < n
    → n ≤ page_size
    → (mark_as_used s (address s i + offset) n).rc j ≡ (if j == i then 1 else s.rc j)
mark_as_used_pages s i offset n j hi h hn small =
    ground (arith, mark_as_used-updated s i offset 1 j h n (omega arith))
