-- ===== src/Pages/Tests.antt =====
-- Runs of the page allocator, and its theorems at a heap of eight pages.
use ilo_pali.Prelude.{
  ℕ, ◌+◌, ◌-◌, ◌*◌, ◌/◌, ◌%◌, ◌^◌, ◌≤◌, ◌<◌, ◌≡◌, ◌↔◌, refl, false, some, none, arith, ltb, ◌==◌,
  if◌then◌else◌,
}
use ilo_pali.Pages.{Pages, page_size, uint16_max, incr_page_ref_count, dealloc_pages, alloc_pages}
use ilo_pali.Pages.Alloc.{Outcome, alloc_pages_lem}
use ilo_pali.Pages.Counts.{dealloc-alloc, dealloc-incr}
use ilo_pali.Pages.Layout.{init_pages, init_pages_lem}

-- pages 0, 1 and 4 are taken, page 4 for good
abbrev heap : Pages
heap = record {
  heap_bottom = 0x10000;
  len = 8;
  rc = λ i. if ltb i 2 then 1 else if i == 4 then uint16_max else 0;
  clear = λ i. false;
}

alloc_two : (alloc_pages heap 2).0 ≡ some 0x12000
unfolding alloc_pages
alloc_two = refl

-- Pages 5, 6 and 7 are free, but a run may not end with the table.
alloc_three : (alloc_pages heap 3).0 ≡ none
unfolding alloc_pages
alloc_three = refl

alloc_then_free : (dealloc_pages (alloc_pages heap 2).1 0x12000 2).rc 3 ≡ 0
unfolding alloc_pages dealloc_pages
alloc_then_free = refl

alloc_pages_lem_example : Outcome heap 2 (alloc_pages heap 2)
alloc_pages_lem_example = alloc_pages_lem heap 2 (omega arith)

dealloc-alloc_example : (dealloc_pages (alloc_pages heap 2).1 0x12000 2).rc 3 ≡ 0
unfolding alloc_pages
dealloc-alloc_example = dealloc-alloc heap (alloc_pages heap 2).1 2 0x12000 3 (omega arith) refl

dealloc-incr_example :
    (dealloc_pages (incr_page_ref_count heap 0x13008 2) 0x13008 2).rc 4 ≡ uint16_max - 1
dealloc-incr_example = dealloc-incr heap 3 8 2 4 (omega arith)

-- 128 MiB from 0x80000000 on, the kernel in the first 4 MiB
abbrev booted : Pages
booted = init_pages 0x82200000 (record heap { rc = λ i. 7 }) 0x80000000 0x8000000 0x80400000

booted_len : booted.len ≡ 0x7000
unfolding init_pages
booted_len = refl

init_pages_lem_example :
    ((i : ℕ) → i < booted.len → booted.rc i ≡ 0)
    × (0x80400000 + 2 * booted.len ≡ booted.heap_bottom)
    × ((booted.heap_bottom + booted.len * page_size ≤ 0x80000000 + 0x8000000) ↔ (
        0x400000 + (0x8000000 - 0x400000 / page_size) / 2 ^ 24 * 2 ^ 13
        ≤ (0x8000000 - 0x400000 / page_size) % 2 ^ 24 + 0x400000 / page_size))
init_pages_lem_example =
    init_pages_lem 0x82200000 (record heap { rc = λ i. 7 }) 0x80000000 0x8000000 0x80400000
      (omega arith) (omega arith) (omega arith) (omega arith)
