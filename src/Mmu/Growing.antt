-- ===== src/Mmu/Growing.antt =====
-- `mmu_map` of kernel/src/mmu.c where tables on the way to an entry are missing and are allocated.
use ilo_pali.Prelude.{
  ℕ, ◌+◌, ◌*◌, ◌%◌, ◌^◌, ◌≤◌, ◌<◌, ◌≡◌, ◌≢◌, ◌∙◌, ◌⊎◌, ap, sym, subst, refl, Bool, true, false,
  Option, none, some, ltb, leb, ◌&&◌, ◌||◌, not, ap₂, ◌==◌, if◌then◌else◌, arith, add64, if_true,
  if_false,
}
use ilo_pali.Pages.{Pages, page_size, alloc_pages}
use ilo_pali.Mmu.Address.{phys2safe, safe2phys}
use ilo_pali.Mmu.Entry.{
  mmu_bit_valid, mmu_entry_valid, mmu_entry_frame, mmu_entry_phys, mmu_entry_set_flags,
  mmu_entry_set_phys, entry_address, set_flags-set_phys,
}
use ilo_pali.Mmu.Table.{
  Memory, load, store, given_page, alloc_page, mmu_entry_get_any, mmu_entry_count,
}
use ilo_pali.Mmu.Map.{next, new_table, map_level}
use ilo_pali.Mmu.Walk.{IsBranch, load-store}

-- a page of physical memory in the direct map, not at address 0
pub record IsPage (q : ℕ) : Type 0 where
  pub above : page_size ≤ q
  pub whole : q % page_size ≡ 0
  pub mapped : q + page_size ≤ 2 ^ 38

-- what an allocation leaves
record Cleared (m : Memory) (q : ℕ) (m₁ : Memory) : Type 0 where
  enabled : m₁.enabled ≡ m.enabled
  words : (a : ℕ) → m₁.words a ≡ (if leb q a && ltb a (q + page_size) then 0 else m.words a)

given_page-Cleared :
    (m : Memory) (r : Option ℕ × Pages) (q : ℕ) (m₁ : Memory)
    → given_page m r ≡ (q, m₁)
    → q ≢ 0
    → Cleared m q m₁
given_page-Cleared m (none, pages) q m₁ e ne = absurd (ne (sym (ap (λ (x : ℕ × Memory). x.0) e)))
given_page-Cleared m (some p, pages) q m₁ e ne =
    subst (λ (x : ℕ × Memory). Cleared m x.0 x.1) e (record { enabled = refl; words = λ a. refl })

alloc_page-Cleared :
    (m : Memory) (q : ℕ) (m₁ : Memory) → alloc_page m ≡ (q, m₁) → q ≢ 0 → Cleared m q m₁
unfolding alloc_page
alloc_page-Cleared m q m₁ e ne = given_page-Cleared m (alloc_pages m.pages 1) q m₁ e ne

-- the entry for a new table at the page `q`
abbrev link : ℕ → ℕ → ℕ
link w q = mmu_entry_set_phys (mmu_entry_set_flags w mmu_bit_valid) q

link_low : (w q : ℕ) → IsPage q → link w q % 1024 ≡ 1
link_low w q page =
    let (set, address, keep, page') = set_flags-set_phys w 1 q (omega (arith, page.mapped)) in
    let (set', address', keep', page'') =
      set_flags-set_phys (mmu_entry_set_flags w 1) 1 q (omega (arith, page.mapped)) in
    keep' ∙ set

link_valid : (w q : ℕ) → IsPage q → mmu_entry_valid (link w q) ≡ true
link_valid w q page = ground (arith, link_low w q page)

link_frame : (w q : ℕ) → IsPage q → mmu_entry_frame (link w q) ≡ false
link_frame w q page = ground (arith, link_low w q page)

link_address : (w q : ℕ) → IsPage q → entry_address (link w q) ≡ q
link_address w q page =
    let (set, address, keep, at) =
      set_flags-set_phys (mmu_entry_set_flags w 1) 1 q (omega (arith, page.mapped)) in
    at ∙ omega (arith, page.whole)

-- the pointer to the entry `i` of a table at the page `q`
abbrev pub entry_at : Bool → ℕ → ℕ → ℕ
entry_at enabled q i = add64 (phys2safe enabled q) (8 * i)

-- what is left of `mmu_entry_get_any` when the address is known
abbrev entry_behind : Bool → ℕ → ℕ → Option ℕ
entry_behind enabled i a = if a == 0 then none else some (entry_at enabled a i)

entry_behind-page :
    (enabled : Bool) (q i : ℕ)
    → IsPage q
    → entry_behind enabled i (phys2safe enabled q) ≡ some (entry_at enabled q i)
unfolding phys2safe
entry_behind-page true q i page = ground (arith, page.above, page.mapped)
entry_behind-page false q i page = ground (arith, page.above)

link_entry :
    (enabled : Bool) (w q i : ℕ)
    → IsPage q
    → i < mmu_entry_count
    → mmu_entry_get_any enabled (link w q) i ≡ some (entry_at enabled q i)
unfolding mmu_entry_get_any mmu_entry_phys
link_entry enabled w q i page lt =
    let branch : (not (mmu_entry_valid (link w q)) || mmu_entry_frame (link w q)) ≡ false =
      ap₂ (λ v f. not v || f) (link_valid w q page) (link_frame w q page) in
    let inside : leb mmu_entry_count i ≡ false = ground arith in
    if_false _ _ branch
    ∙ if_false _ _ inside
    ∙ ap (λ a. entry_behind enabled i (phys2safe enabled a)) (link_address w q page)
    ∙ entry_behind-page enabled q i page

entry_at-phys :
    (enabled : Bool) (q i : ℕ)
    → IsPage q
    → i < mmu_entry_count
    → safe2phys enabled (entry_at enabled q i) ≡ q + 8 * i
unfolding safe2phys phys2safe
entry_at-phys true q i page lt = ground (arith, page.above, page.mapped)
entry_at-phys false q i page lt = ground (arith, page.above, page.mapped)

-- What a round of `mmu_map` that allocates the table at the page `q` leaves: the entry at `p` leads to
-- the table, whose entry at `p'` is zero, and the words outside the page are as before.
pub record Grown (m : Memory) (p i q : ℕ) (p' : ℕ) (m' : Memory) : Type 0 where
  pub enabled : m'.enabled ≡ m.enabled
  pub level : map_level i (next (some p) m) ≡ next (some p') m'
  pub branch : IsBranch m' p
  pub third : mmu_entry_get_any m'.enabled (load m' p) i ≡ some p'
  pub at : safe2phys m'.enabled p' ≡ q + 8 * i
  pub empty : load m' p' ≡ 0
  pub same :
      (a : ℕ) → a ≢ safe2phys m.enabled p → (a < q) ⊎ (q + page_size ≤ a) → m'.words a ≡ m.words a

new_table-alloc :
    (m : Memory) (p q : ℕ) (m₁ : Memory)
    → alloc_page m ≡ (q, m₁)
    → new_table m p ≡ store m₁ p (link (load m₁ p) q)
unfolding new_table
new_table-alloc m p q m₁ e = ap (λ (r : ℕ × Memory). store r.1 p (link (load r.1 p) r.0)) e

store-other :
    (m : Memory) (p w a : ℕ) → a ≢ safe2phys m.enabled p → (store m p w).words a ≡ m.words a
unfolding store
store-other m p w a ne = ground arith

in_page : (q k : ℕ) → k < page_size → (leb q (q + k) && ltb (q + k) (q + page_size)) ≡ true
in_page q k lt = ground arith

out_of_page : (q a : ℕ) → (a < q) ⊎ (q + page_size ≤ a) → (leb q a && ltb a (q + page_size)) ≡ false
out_of_page q a out = ground arith

new_table-Grown :
    (m : Memory) (p i q : ℕ) (m₁ : Memory)
    → mmu_entry_valid (load m p) ≡ false
    → alloc_page m ≡ (q, m₁)
    → IsPage q
    → (safe2phys m.enabled p < q) ⊎ (q + page_size ≤ safe2phys m.enabled p)
    → i < mmu_entry_count
    → Grown m p i q (entry_at m.enabled q i) (store m₁ p (link (load m₁ p) q))
unfolding map_level load store
new_table-Grown m p i q m₁ v e page outside lt =
    let c = alloc_page-Cleared m q m₁ e (λ z. omega (arith, page.above, z)) in
    let m' = store m₁ p (link (load m₁ p) q) in
    let here : load m' p ≡ link (load m₁ p) q = load-store m₁ p _ in
    let at : safe2phys m₁.enabled (entry_at m.enabled q i) ≡ q + 8 * i =
      ap (λ b. safe2phys b (entry_at m.enabled q i)) c.enabled
      ∙ entry_at-phys m.enabled q i page lt in
    let p_at : safe2phys m₁.enabled p ≡ safe2phys m.enabled p = ap (λ b. safe2phys b p) c.enabled in
    let get : mmu_entry_get_any m'.enabled (load m' p) i ≡ some (entry_at m.enabled q i) =
      ap₂ (λ b w. mmu_entry_get_any b w i) c.enabled here
      ∙ link_entry m.enabled (load m₁ p) q i page lt in
    record {
      enabled = c.enabled;
      level =
          if_false _ _ v
          ∙ ap (λ t. next (mmu_entry_get_any t.enabled (load t p) i) t) (new_table-alloc m p q m₁ e)
          ∙ ap (λ o. next o m') get;
      branch = (
        ap mmu_entry_valid here ∙ link_valid _ q page,
        ap mmu_entry_frame here ∙ link_frame _ q page,
      );
      third = get;
      at = at;
      empty =
          ap m'.words at
          ∙ store-other m₁ p (link (load m₁ p) q) (q + 8 * i) (λ z. omega (arith, z, p_at))
          ∙ c.words (q + 8 * i)
          ∙ if_true _ _ (in_page q (8 * i) (omega arith));
      same = λ a ne out.
          store-other m₁ p (link (load m₁ p) q) a (λ z. ne (z ∙ p_at))
          ∙ c.words a
          ∙ if_false _ _ (out_of_page q a out);
    }

pub table-Grown :
    (m : Memory) (p i q : ℕ) (m₁ : Memory)
    → mmu_entry_valid (load m p) ≡ false
    → alloc_page m ≡ (q, m₁)
    → IsPage q
    → (safe2phys m.enabled p < q) ⊎ (q + page_size ≤ safe2phys m.enabled p)
    → i < mmu_entry_count
    → Grown m p i q (entry_at m.enabled q i) (new_table m p)
table-Grown m p i q m₁ v e page outside lt =
    subst (Grown m p i q (entry_at m.enabled q i)) (sym (new_table-alloc m p q m₁ e))
      (new_table-Grown m p i q m₁ v e page outside lt)
