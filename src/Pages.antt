-- ===== src/Pages.antt =====
-- kernel/src/memory.c, the page allocator: a table of 16-bit reference counts between
-- `pages_bottom` and `heap_bottom`, one for each page from `heap_bottom` on.
-- Addresses are physical; a page's bytes are seen as one value, zero or not. The lock that each
-- operation takes is the subject of `Sync`.
pub mod Search
pub mod Alloc
pub mod Counts
pub mod Layout
mod Tests
use ilo_pali.Prelude.{
  ℕ, zero, suc, ◌+◌, ◌-◌, ◌*◌, ◌/◌, ◌^◌, Bool, true, false, Option, none, some, ◌&&◌, not, leb, ltb,
  ◌==◌, if◌then◌else◌, add64,
}

abbrev pub page_size : ℕ
page_size = 4096

abbrev pub uint16_max : ℕ
uint16_max = 2 ^ 16 - 1

-- `rc i` is the entry of the table for page `i`, of which there are `len`, and `clear i` says that
-- page `i` holds only zeros.
pub record Pages : Type 0 where
  pub heap_bottom : ℕ
  pub len : ℕ
  pub rc : ℕ → ℕ
  pub clear : ℕ → Bool

-- `page_ref_count`: the index of the page's entry
unfoldable pub page_ref_count : Pages → ℕ → Option ℕ
page_ref_count s page =
    if ltb s.heap_bottom page then some ((page - s.heap_bottom) / page_size) else none

-- Every entry from `i` to `i + n - 1` is changed by `f`.
pub update_range : (ℕ → ℕ) → ℕ → ℕ → (ℕ → ℕ) → ℕ → ℕ
update_range f i zero rc = rc
update_range f i (suc n) rc = update_range f (i + 1) n (λ j. if i == j then f (rc j) else rc j)

abbrev pub at_page : Pages → ℕ → (ℕ → ℕ) → ℕ → Pages
at_page s page f count = elim (page_ref_count s page) [
  | none ↦ s
  | some i ↦ record s { rc = update_range f i count s.rc }
]

-- The sum wraps around in 64 bits.
unfoldable pub mark_as_used : Pages → ℕ → ℕ → Pages
unfolding page_ref_count update_range
mark_as_used s page size = at_page s page (λ c. 1) (add64 size (page_size - 1) / page_size)

-- one step of `incr_page_ref_count`
pub incr : ℕ → ℕ
incr c = if not (c == uint16_max) && not (c == 0) then c + 1 else c

unfoldable pub incr_page_ref_count : Pages → ℕ → ℕ → Pages
unfolding page_ref_count update_range incr
incr_page_ref_count s page count = at_page s page incr count

-- one step of `dealloc_pages`
pub decr : ℕ → ℕ
decr c = if not (c == 0) then c - 1 else c

-- `page` has gone through `safe2phys`
unfoldable pub dealloc_pages : Pages → ℕ → ℕ → Pages
unfolding page_ref_count update_range decr
dealloc_pages s page count = at_page s page decr count

-- `for (q = p + 1; q < p + count; q++) if (*q) ...`: no entry of the `n` from `q` on is taken
pub enough : (ℕ → ℕ) → ℕ → ℕ → Bool
enough rc q zero = true
enough rc q (suc n) = if not (rc q == 0) then false else enough rc (q + 1) n

-- The outer loop of `alloc_pages` from `p` on, with `rounds` entries left before its bound.
pub find_run : (ℕ → ℕ) → ℕ → ℕ → ℕ → Option ℕ
find_run rc count p zero = none
find_run rc count p (suc rounds) =
    let rest = find_run rc count (p + 1) rounds in
    if rc p == 0 then (if enough rc (p + 1) (count - 1) then some p else rest) else rest

abbrev pub fill : {A : Type 0} → (ℕ → A) → ℕ → ℕ → A → ℕ → A
fill f p count a i = if leb p i && ltb i (p + count) then a else f i

-- The pointer that the code returns, and NULL where it finds no run.
unfoldable pub alloc_pages : Pages → ℕ → Option ℕ × Pages
unfolding enough find_run update_range
alloc_pages s count = elim (find_run s.rc count 0 (s.len - count)) [
  | none ↦ (none, s)
  | some p ↦ (
    some (p * page_size + s.heap_bottom),
    record s { rc = update_range (λ c. 1) p count s.rc; clear = fill s.clear p count true },
  )
]
