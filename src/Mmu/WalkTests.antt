-- ===== src/Mmu/WalkTests.antt =====
-- Mapping and removing a page in tables that are there.
use ilo_pali.Prelude.{
  ℕ, ◌+◌, ◌*◌, ◌/◌, ◌<◌, inl, ◌≡◌, ◌⊎◌, refl, true, false, none, some, ◌==◌, if◌then◌else◌, arith,
}
use ilo_pali.Mmu.Address.{phys2safe, safe2phys}
use ilo_pali.Mmu.Entry.{
  mmu_entry_valid, mmu_entry_phys, page_offset, vpn_0, vpn_1, vpn_2, entry_address,
}
use ilo_pali.Mmu.Table.{
  Memory, alloc_page, load, mmu_root_get_any, mmu_entry_get_any, mmu_translate,
}
use ilo_pali.Mmu.Map.{new_table, mmu_map, mmu_remove}
use ilo_pali.Mmu.Fresh.{map-fresh}
use ilo_pali.Mmu.Walk.{EntryPath, Apart}
use ilo_pali.Mmu.Mapping.{map-translate, remove-translate}

-- The tables at 0x1000, 0x2000 and 0x3000, with `last` in the entry for 0x80201234.
abbrev tables : ℕ → Memory
tables last = record {
  enabled = false;
  words = λ a.
      if a == 0x1010 then 0x801 else if a == 0x2008 then 0xc01 else if a == 0x3008 then last else 0;
  pages = record { heap_bottom = 0x10000; len = 16; rc = λ i. 0; clear = λ i. false };
}

tables-EntryPath : (last : ℕ) → EntryPath (tables last) 0x1000 0x80201234 0x1010 0x2008 0x3008
unfolding mmu_root_get_any mmu_entry_get_any load safe2phys phys2safe mmu_entry_phys entry_address
    vpn_0 vpn_1 vpn_2
tables-EntryPath last = record {
  first = refl;
  branch₀ = (refl, refl);
  second = refl;
  branch₁ = (refl, refl);
  third = refl;
}

tables-Apart : (last : ℕ) → Apart (tables last) 0x1010 0x2008 0x3008
unfolding safe2phys
tables-Apart last = record { from_first = λ e. omega arith; from_second = λ e. omega arith }

map-translate_example :
    ((mmu_entry_valid (load (tables 0) 0x3008) ≡ true)
      × (mmu_map (tables 0) 0x1000 0x80201234 0x5000 6 ≡ (false, tables 0)))
    ⊎ ((mmu_entry_valid (load (tables 0) 0x3008) ≡ false)
        × (m' : Memory) × (mmu_map (tables 0) 0x1000 0x80201234 0x5000 6 ≡ (true, m'))
        × (mmu_translate m' 0x1000 0x80201234
            ≡ some (phys2safe false (0x5000 / 4096 * 4096) + page_offset 0x80201234)))
map-translate_example =
    map-translate (tables-EntryPath 0) (tables-Apart 0) 0x5000 6 (omega arith) refl

remove-translate_example :
    (m' : Memory) × (mmu_remove (tables 0x14c7) 0x1000 0x80201234
      ≡ (mmu_entry_phys false (load (tables 0x14c7) 0x3008), m'))
    × (mmu_translate m' 0x1000 0x80201234 ≡ none)
    × (mmu_remove m' 0x1000 0x80201234 ≡ (0, m'))
unfolding load safe2phys
remove-translate_example = remove-translate (tables-EntryPath 0x14c7) (tables-Apart 0x14c7) refl

abbrev empty_root : Memory
empty_root = record {
  enabled = false;
  words = λ a. 0;
  pages = record { heap_bottom = 0x10000; len = 16; rc = λ i. 0; clear = λ i. false };
}

root_below : safe2phys empty_root.enabled 0x1010 < 0x10000
unfolding safe2phys
root_below = omega arith

root_below' : safe2phys empty_root.enabled 0x1010 < 0x11000
unfolding safe2phys
root_below' = omega arith

-- The first two pages become tables.
first_table : alloc_page empty_root ≡ (0x10000, (alloc_page empty_root).1)
unfolding alloc_page
first_table = refl

second_table :
    alloc_page (new_table empty_root 0x1010)
    ≡ (0x11000, (alloc_page (new_table empty_root 0x1010)).1)
unfolding alloc_page new_table
second_table = refl

root_entry : mmu_root_get_any empty_root.enabled 0x1000 (vpn_0 0x80201234) ≡ some 0x1010
unfolding mmu_root_get_any phys2safe vpn_0
root_entry = refl

not_there : mmu_entry_valid (load empty_root 0x1010) ≡ false
unfolding load
not_there = refl

map-fresh_example :
    (m' : Memory) × (mmu_map empty_root 0x1000 0x80201234 0x5000 6 ≡ (true, m'))
    × (mmu_translate m' 0x1000 0x80201234
        ≡ some (phys2safe false (0x5000 / 4096 * 4096) + page_offset 0x80201234))
map-fresh_example =
    map-fresh empty_root _ _ 0x1000 0x80201234 0x5000 6 0x1010 0x10000 0x11000 root_entry not_there
      first_table second_table (record { above = omega arith; whole = refl; mapped = omega arith })
      (record { above = omega arith; whole = refl; mapped = omega arith }) (λ z. omega arith)
      (inl root_below) (inl root_below') (omega arith) refl
