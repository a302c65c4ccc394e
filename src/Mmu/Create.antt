-- ===== src/Mmu/Create.antt =====
-- `mmu_map_range_identity`, `identity_map_kernel` and `create_mmu_table` of kernel/src/mmu.c.
use ilo_pali.Prelude.{ℕ, zero, suc, ◌+◌, ◌-◌, ◌*◌, ◌/◌, ◌^◌, add64}
use ilo_pali.Pages.{page_size}
use ilo_pali.Mmu.Address.{phys2safe, safe2phys}
use ilo_pali.Mmu.Entry.{mmu_bit_valid, mmu_bit_read, mmu_bit_write, mmu_bit_exec, mmu_bit_global}
use ilo_pali.Mmu.Table.{Memory, mmu_entry_count, store, alloc_page}
use ilo_pali.Mmu.Map.{mmu_map}

-- the `rounds` pages from `p` on
unfoldable pub map_pages : ℕ → Memory → ℕ → ℕ → ℕ → Memory
unfolding mmu_map
map_pages zero m root p flags = m
map_pages (suc rounds) m root p flags =
    map_pages rounds (mmu_map m root p p flags).1 root (p + page_size) flags

unfoldable pub mmu_map_range_identity : Memory → ℕ → ℕ → ℕ → ℕ → Memory
unfolding map_pages
mmu_map_range_identity m root start end flags =
    map_pages ((end - start + page_size - 1) / page_size) m root start flags

-- the addresses that the linker script provides, and `heap_bottom`
pub record Symbols : Type 0 where
  pub text_start : ℕ
  pub data_start : ℕ
  pub ro_data_start : ℕ
  pub sdata_start : ℕ
  pub sdata_end : ℕ
  pub stack_start : ℕ
  pub stack_top : ℕ
  pub pages_bottom : ℕ

unfoldable pub identity_map_kernel : Symbols → Memory → ℕ → Memory
unfolding mmu_map_range_identity
identity_map_kernel k m root =
    let rx = mmu_bit_read + mmu_bit_exec + mmu_bit_global in
    let rw' = mmu_bit_read + mmu_bit_write + mmu_bit_global in
    let ro = mmu_bit_read + mmu_bit_global in
    let m₁ = mmu_map_range_identity m root k.text_start k.data_start rx in
    let m₂ = mmu_map_range_identity m₁ root k.data_start k.ro_data_start rw' in
    let m₃ = mmu_map_range_identity m₂ root k.ro_data_start k.sdata_start ro in
    let m₄ = mmu_map_range_identity m₃ root k.sdata_start k.sdata_end rw' in
    let m₅ = mmu_map_range_identity m₄ root k.stack_start k.stack_top rw' in
    mmu_map_range_identity m₅ root k.pages_bottom m₅.pages.heap_bottom rw'

-- `top[i]` for the upper half of the table: 1 GiB frames of physical memory from address 0 on
unfoldable pub direct_map_entry : ℕ → ℕ
direct_map_entry i =
    (i - mmu_entry_count / 2) * 2 ^ 28
    + mmu_bit_global
    + mmu_bit_read
    + mmu_bit_write
    + mmu_bit_valid

unfoldable pub fill_top : ℕ → Memory → ℕ → Memory
unfolding store direct_map_entry
fill_top zero m top = m
fill_top (suc n) m top =
    let i = mmu_entry_count - suc n in
    fill_top n (store m (add64 top (8 * i)) (direct_map_entry i)) top

unfoldable pub create_mmu_table : Symbols → Memory → ℕ × Memory
unfolding alloc_page fill_top identity_map_kernel
create_mmu_table k m =
    let (page, m₁) = alloc_page m in
    let top = phys2safe m.enabled page in
    let m₂ = fill_top (mmu_entry_count / 2) m₁ top in
    let root = safe2phys m.enabled top in (root, identity_map_kernel k m₂ root)
