-- ===== src/Mmu/Map.antt =====
-- Writing to the tables: `mmu_map`, `mmu_alloc`, `mmu_change_flags` and `mmu_remove` of
-- kernel/src/mmu.c.
use Prim.Native.Nat.{bit_or}
use ilo_pali.Prelude.{ℕ, Bool, true, false, Option, none, some, if◌then◌else◌}
use ilo_pali.Pages.{dealloc_pages}
use ilo_pali.Mmu.Address.{safe2phys}
use ilo_pali.Mmu.Entry.{
  mmu_bit_valid, mmu_entry_valid, mmu_entry_frame, mmu_entry_phys, mmu_entry_set_flags,
  mmu_entry_set_phys, vpn_0, vpn_1, vpn_2,
}
use ilo_pali.Mmu.Table.{
  Memory, load, store, alloc_page, mmu_root_get_any, mmu_entry_get_any, mmu_walk_to_entry,
}

-- What a round of the loop of `mmu_map` comes to: the result -1, or the entry for the next level.
-- The tables that were allocated before stay in either case.
pub data Level : Type 0 where
  failed : Memory → Level
  next : Option ℕ → Memory → Level

-- `alloc_pages(1)` for a table that is missing, linked from the entry at `p`
unfoldable pub new_table : Memory → ℕ → Memory
unfolding alloc_page store load
new_table m p =
    let (page, m') = alloc_page m in
    store m' p (mmu_entry_set_phys (mmu_entry_set_flags (load m' p) mmu_bit_valid) page)

unfoldable pub map_level : ℕ → Level → Level
unfolding new_table load mmu_entry_get_any
map_level i (failed m) = failed m
map_level i (next none m) = failed m
map_level i (next (some p) m) =
    if mmu_entry_valid (load m p)
    then (if mmu_entry_frame (load m p)
        then failed m
        else next (mmu_entry_get_any m.enabled (load m p) i) m)
    else (let m' = new_table m p in next (mmu_entry_get_any m'.enabled (load m' p) i) m')

-- flags | MMU_BIT_VALID | MMU_BIT_ACCESSED | MMU_BIT_DIRTY
abbrev pub leaf_flags : ℕ → ℕ
leaf_flags flags = bit_or flags 0xc1

-- What stands behind the loop of `mmu_map`. `true` is the result 0.
unfoldable pub map_leaf : ℕ → ℕ → Level → Bool × Memory
unfolding store load
map_leaf physical flags (failed m) = (false, m)
map_leaf physical flags (next none m) = (false, m)
map_leaf physical flags (next (some p) m) = if mmu_entry_valid (load m p) then (false, m) else (
  true,
  store m p (mmu_entry_set_phys (mmu_entry_set_flags (load m p) (leaf_flags flags)) physical),
)

unfoldable pub mmu_map : Memory → ℕ → ℕ → ℕ → ℕ → Bool × Memory
unfolding mmu_root_get_any map_level map_leaf
mmu_map m root virt physical flags = map_leaf physical flags (
    map_level (vpn_2 virt)
      (map_level (vpn_1 virt) (next (mmu_root_get_any m.enabled root (vpn_0 virt)) m)))

-- The physical address, or NULL.
unfoldable pub mmu_alloc : Memory → ℕ → ℕ → ℕ → ℕ × Memory
unfolding alloc_page mmu_map
mmu_alloc m root virt flags =
    let (physical, m₁) = alloc_page m in
    let (done, m₂) = mmu_map m₁ root virt physical flags in
    if done
    then (physical, m₂)
    else (0, record m₂ { pages = dealloc_pages m₂.pages (safe2phys m₂.enabled physical) 1 })

unfoldable pub mmu_change_flags : Memory → ℕ → ℕ → ℕ → Memory
unfolding mmu_walk_to_entry store load
mmu_change_flags m root virt flags = elim (mmu_walk_to_entry m root virt) [
  | none ↦ m
  | some p ↦ store m p (mmu_entry_set_flags (load m p) (leaf_flags flags))
]

-- The address that the entry held, or NULL.
unfoldable pub mmu_remove : Memory → ℕ → ℕ → ℕ × Memory
unfolding mmu_walk_to_entry store load
mmu_remove m root virt = elim (mmu_walk_to_entry m root virt) [
  | none ↦ (0, m)
  | some p ↦ (mmu_entry_phys m.enabled (load m p), store m p (mmu_entry_set_flags (load m p) 0))
]
