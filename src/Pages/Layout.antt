-- ===== src/Pages/Layout.antt =====
-- `init_pages` of kernel/src/memory.c behind its reads of the device tree: where the table and the
-- heap lie. `start` and `size` are the two numbers of the memory node's `reg`.
use ilo_pali.Prelude.{
  ℕ, ◌+◌, ◌-◌, ◌*◌, ◌/◌, ◌%◌, ◌^◌, ◌≤◌, ◌<◌, ◌≡◌, ◌↔◌, arith, ltb, ◌==◌, ◌≢◌, if◌then◌else◌, sub64,
}
use ilo_pali.Pages.{Pages, page_size}

-- `&pages_bottom - memory_start` is a difference of `page_t*`: it counts pages.
unfoldable pub heap_bytes : ℕ → ℕ → ℕ → ℕ
heap_bytes start size pages_bottom = sub64 size ((pages_bottom - start) / page_size)

unfoldable pub page_rc_count : ℕ → ℕ → ℕ → ℕ
unfolding heap_bytes
page_rc_count start size pages_bottom =
    heap_bytes start size pages_bottom / page_size / page_size * 2

-- `header` is the pointer of the device tree, and `s` what the variables and the memory held; the
-- loop clears the table.
unfoldable pub init_pages : ℕ → Pages → ℕ → ℕ → ℕ → Pages
unfolding page_rc_count
init_pages header s start size pages_bottom =
    let rc_pages = page_rc_count start size pages_bottom in
    if header == 0 then s else record {
      heap_bottom = pages_bottom + rc_pages * page_size;
      len = rc_pages * page_size / 2;
      rc = λ i. if ltb i (rc_pages * page_size / 2) then 0 else s.rc i;
      clear = s.clear;
    }

-- After `init_pages` with a device tree every entry of the table is zero, the table fills the space below the heap,
-- and the pages that it counts end inside the memory exactly when the part of the length that is
-- rounded off makes up for the table and for the kernel below `pages_bottom`.
pub init_pages_lem :
    (header : ℕ) (old : Pages) (start size pages_bottom : ℕ)
    → header ≢ 0
    → start ≤ pages_bottom
    → pages_bottom ≤ start + size
    → start + size < 2 ^ 64
    → let s = init_pages header old start size pages_bottom in
      let below = pages_bottom - start in
      let bytes = size - below / page_size in
      ((i : ℕ) → i < s.len → s.rc i ≡ 0)
      × (pages_bottom + 2 * s.len ≡ s.heap_bottom)
      × ((s.heap_bottom + s.len * page_size ≤ start + size)
          ↔ (below + bytes / 2 ^ 24 * 2 ^ 13 ≤ bytes % 2 ^ 24 + below / page_size))
unfolding init_pages
init_pages_lem header old start size pages_bottom valid h k w =
    (λ i lt. ground arith, ground arith, (λ e. ground arith, λ e. ground arith))
