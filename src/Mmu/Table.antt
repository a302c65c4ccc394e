-- ===== src/Mmu/Table.antt =====
-- The tables of kernel/src/mmu.c in memory. A pointer to an entry is the address at which the
-- kernel reads it; the direct map and, with the MMU off, the identity lead from it to memory.
use Prim.Native.Nat.{bit_or}
use ilo_pali.Prelude.{
  ℕ, ◌+◌, ◌*◌, ◌^◌, Bool, not, ◌&&◌, ◌||◌, Option, none, some, ltb, leb, ◌==◌, if◌then◌else◌, add64,
}
use ilo_pali.Pages.{Pages, page_size, alloc_pages}
use ilo_pali.Mmu.Address.{phys2safe, safe2phys}
use ilo_pali.Mmu.Entry.{
  mmu_entry_valid, mmu_entry_frame, mmu_entry_phys, vpn_0, vpn_1, vpn_2, page_offset,
}

-- `words a` is the 64-bit word at the physical address `a`.
pub record Memory : Type 0 where
  pub enabled : Bool
  pub words : ℕ → ℕ
  pub pages : Pages

abbrev pub mmu_entry_count : ℕ
mmu_entry_count = 512

unfoldable pub load : Memory → ℕ → ℕ
load m p = m.words (safe2phys m.enabled p)

unfoldable pub store : Memory → ℕ → ℕ → Memory
store m p w = record m { words = λ a. if safe2phys m.enabled p == a then w else m.words a }

-- the memory with a page from the allocator, which is cleared; NULL is address 0
abbrev pub given_page : Memory → Option ℕ × Pages → ℕ × Memory
given_page m (none, pages) = (0, record m { pages = pages })
given_page m (some p, pages) = (
  p,
  record m {
    pages = pages;
    words = λ a. if leb p a && ltb a (p + page_size) then 0 else m.words a;
  },
)

-- `alloc_pages(1)`
unfoldable pub alloc_page : Memory → ℕ × Memory
unfolding alloc_pages
alloc_page m = given_page m (alloc_pages m.pages 1)

unfoldable pub mmu_root_get_any : Bool → ℕ → ℕ → Option ℕ
mmu_root_get_any enabled root i =
    if root == 0
    then none
    else if leb mmu_entry_count i
    then none
    else some (add64 (phys2safe enabled root) (8 * i))

-- An entry that is not valid is as good as none.
abbrev pub if_valid : Memory → Option ℕ → Option ℕ
if_valid m none = none
if_valid m (some p) = if mmu_entry_valid (load m p) then some p else none

unfoldable pub mmu_root_get : Memory → ℕ → ℕ → Option ℕ
unfolding mmu_root_get_any load
mmu_root_get m root i = if_valid m (mmu_root_get_any m.enabled root i)

unfoldable pub mmu_entry_get_any : Bool → ℕ → ℕ → Option ℕ
mmu_entry_get_any enabled e i =
    if not (mmu_entry_valid e) || mmu_entry_frame e
    then none
    else if leb mmu_entry_count i
    then none
    else if mmu_entry_phys enabled e == 0
    then none
    else some (add64 (phys2safe enabled (mmu_entry_phys enabled e)) (8 * i))

unfoldable pub mmu_entry_get : Memory → ℕ → ℕ → Option ℕ
unfolding mmu_entry_get_any load
mmu_entry_get m e i = if_valid m (mmu_entry_get_any m.enabled e i)

-- A step of the walk: on past a valid entry that is no frame.
abbrev pub next_entry : Memory → ℕ → Option ℕ → Option ℕ
next_entry m i none = none
next_entry m i (some p) =
    if mmu_entry_frame (load m p) then some p else mmu_entry_get m (load m p) i

unfoldable pub mmu_walk_to_entry : Memory → ℕ → ℕ → Option ℕ
unfolding mmu_root_get mmu_entry_get load
mmu_walk_to_entry m root virt =
    next_entry m (vpn_2 virt) (next_entry m (vpn_1 virt) (mmu_root_get m root (vpn_0 virt)))

-- the frame's address with the rest of the virtual address put in
abbrev pub in_frame : Memory → ℕ → ℕ → ℕ
in_frame m p rest = bit_or (mmu_entry_phys m.enabled (load m p)) rest

-- `none` is the result false. The three entries are those for 1 GiB, 2 MiB and 4 KiB.
unfoldable pub translate_2 : Memory → ℕ → Option ℕ → Option ℕ
translate_2 m virt none = none
translate_2 m virt (some p) =
    if mmu_entry_frame (load m p) then some (in_frame m p (page_offset virt)) else none

unfoldable pub translate_1 : Memory → ℕ → Option ℕ → Option ℕ
unfolding translate_2
translate_1 m virt none = none
translate_1 m virt (some p) =
    if mmu_entry_frame (load m p)
    then some (in_frame m p (bit_or (page_offset virt) (vpn_2 virt * 2 ^ 12)))
    else translate_2 m virt (mmu_entry_get m (load m p) (vpn_2 virt))

unfoldable pub translate_0 : Memory → ℕ → Option ℕ → Option ℕ
unfolding translate_1
translate_0 m virt none = none
translate_0 m virt (some p) =
    if mmu_entry_frame (load m p)
    then some (
        in_frame m p
          (bit_or (bit_or (page_offset virt) (vpn_2 virt * 2 ^ 12)) (vpn_1 virt * 2 ^ 21)))
    else translate_1 m virt (mmu_entry_get m (load m p) (vpn_1 virt))

unfoldable pub mmu_translate : Memory → ℕ → ℕ → Option ℕ
unfolding mmu_root_get mmu_entry_get translate_0 load
mmu_translate m root virt = translate_0 m virt (mmu_root_get m root (vpn_0 virt))
