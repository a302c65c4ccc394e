-- ===== src/Mmu/Fresh.antt =====
-- `mmu_map` of kernel/src/mmu.c below an entry of the root that leads nowhere yet.
use ilo_pali.Prelude.{
  ℕ, ◌+◌, ◌*◌, ◌/◌, ◌^◌, ◌≤◌, ◌<◌, ◌≡◌, ◌≢◌, ◌∙◌, ◌⊎◌, ap, ap₂, sym, true, false, some, arith, inl,
  inr,
}
use ilo_pali.Pages.{page_size}
use ilo_pali.Mmu.Address.{phys2safe, safe2phys}
use ilo_pali.Mmu.Entry.{
  mmu_entry_valid, mmu_entry_frame, vpn_0, vpn_1, vpn_2, page_offset, get_vpns_lem,
}
use ilo_pali.Mmu.Table.{
  Memory, load, alloc_page, mmu_root_get_any, mmu_entry_get_any, mmu_translate, mmu_entry_count,
}
use ilo_pali.Mmu.Map.{next, new_table, map_level, map_leaf, mmu_map}
use ilo_pali.Mmu.Walk.{EntryPath, Apart, mmu_map_path}
use ilo_pali.Mmu.Mapping.{map-translate}
use ilo_pali.Mmu.Growing.{IsPage, Grown, entry_at, table-Grown}

-- pages are apart
other_page :
    (q r k : ℕ)
    → IsPage q
    → IsPage r
    → q ≢ r
    → k < page_size
    → (q + k < r) ⊎ (r + page_size ≤ q + k)
other_page q r k page page' ne lt = omega (arith, page.whole, page'.whole)

module _ (m n n' : Memory) (root virt q₁ q₂ p₀ p₁ p₂ : ℕ)
    (first : mmu_root_get_any m.enabled root (vpn_0 virt) ≡ some p₀)
    (g : Grown m p₀ (vpn_1 virt) q₁ p₁ n) (g' : Grown n p₁ (vpn_2 virt) q₂ p₂ n') (page : IsPage q₁)
    (page' : IsPage q₂) (ne : q₁ ≢ q₂)
    (out : (safe2phys m.enabled p₀ < q₁) ⊎ (q₁ + page_size ≤ safe2phys m.enabled p₀))
    (out' : (safe2phys m.enabled p₀ < q₂) ⊎ (q₂ + page_size ≤ safe2phys m.enabled p₀))
    (small : vpn_1 virt < mmu_entry_count) (small' : vpn_2 virt < mmu_entry_count) where
  enabled : n'.enabled ≡ m.enabled
  enabled = g'.enabled ∙ g.enabled

  p₀_at : safe2phys n'.enabled p₀ ≡ safe2phys m.enabled p₀
  p₀_at = ap (λ b. safe2phys b p₀) enabled

  kept : load n' p₀ ≡ load n p₀
  unfolding load
  kept =
      ap n'.words p₀_at
      ∙ g'.same (safe2phys m.enabled p₀)
          (λ z. omega (arith, z, g.at, ap (λ b. safe2phys b p₁) g.enabled)) out'
      ∙ ap n.words (sym (ap (λ b. safe2phys b p₀) g.enabled))

  grown-EntryPath : EntryPath n' root virt p₀ p₁ p₂
  grown-EntryPath = record {
    first = ap (λ b. mmu_root_get_any b root (vpn_0 virt)) enabled ∙ first;
    branch₀ = (ap mmu_entry_valid kept ∙ g.branch.0, ap mmu_entry_frame kept ∙ g.branch.1);
    second = ap₂ (λ b w. mmu_entry_get_any b w (vpn_1 virt)) g'.enabled kept ∙ g.third;
    branch₁ = g'.branch;
    third = g'.third;
  }

  grown-Apart : Apart n' p₀ p₁ p₂
  grown-Apart =
      let p₁_at : safe2phys n'.enabled p₁ ≡ q₁ + 8 * vpn_1 virt =
        ap (λ b. safe2phys b p₁) g'.enabled ∙ g.at in
      let pages = other_page q₁ q₂ (8 * vpn_1 virt) page page' ne (omega arith) in
      record {
        from_first = λ z. omega (arith, z, p₀_at, g'.at, out');
        from_second = λ z. omega (arith, z, p₁_at, g'.at, pages);
      }

  map_grown :
      (physical flags : ℕ)
      → mmu_map m root virt physical flags ≡ mmu_map n' root virt physical flags
  unfolding mmu_map
  map_grown physical flags =
      ap (map_leaf physical flags) (
        ap (λ o. map_level (vpn_2 virt) (map_level (vpn_1 virt) (next o m))) first
        ∙ ap (map_level (vpn_2 virt)) g.level
        ∙ g'.level)
      ∙ sym (mmu_map_path grown-EntryPath physical flags)

  map_below :
      (physical flags : ℕ)
      → physical < 2 ^ 38
      → mmu_entry_frame flags ≡ true
      → (m' : Memory) × (mmu_map m root virt physical flags ≡ (true, m'))
        × (mmu_translate m' root virt
            ≡ some (phys2safe m.enabled (physical / 4096 * 4096) + page_offset virt))
  map_below physical flags h f =
      elim (map-translate grown-EntryPath grown-Apart physical flags h f) [
        | inl (v, run) ↦
            let zero_entry : mmu_entry_valid (load n' p₂) ≡ false = ap mmu_entry_valid g'.empty in
            absurd (ground (arith, v, zero_entry))
        | inr (v, m', run, translated) ↦ (
          m',
          map_grown physical flags ∙ run,
          translated
              ∙ ap (λ b. some (phys2safe b (physical / 4096 * 4096) + page_offset virt)) enabled,
        )
      ]

-- Where the entry of the root table for a virtual address is not valid and `alloc_pages` hands out
-- two different pages of the direct map, in neither of which that entry stands: `mmu_map` to a
-- physical address below 2^38 with flags of a frame succeeds, with these pages as tables, and
-- afterwards `mmu_translate` leads to the physical page, as the kernel sees it, at the offset of the
-- virtual address.
pub map-fresh :
    (m m₁ m₂ : Memory) (root virt physical flags p₀ q₁ q₂ : ℕ)
    → mmu_root_get_any m.enabled root (vpn_0 virt) ≡ some p₀
    → mmu_entry_valid (load m p₀) ≡ false
    → alloc_page m ≡ (q₁, m₁)
    → alloc_page (new_table m p₀) ≡ (q₂, m₂)
    → IsPage q₁
    → IsPage q₂
    → q₁ ≢ q₂
    → (safe2phys m.enabled p₀ < q₁) ⊎ (q₁ + page_size ≤ safe2phys m.enabled p₀)
    → (safe2phys m.enabled p₀ < q₂) ⊎ (q₂ + page_size ≤ safe2phys m.enabled p₀)
    → physical < 2 ^ 38
    → mmu_entry_frame flags ≡ true
    → (m' : Memory) × (mmu_map m root virt physical flags ≡ (true, m'))
      × (mmu_translate m' root virt
          ≡ some (phys2safe m.enabled (physical / 4096 * 4096) + page_offset virt))
map-fresh m m₁ m₂ root virt physical flags p₀ q₁ q₂ first v e e' page page' ne out out' h f =
    let (sum, low, mid, high) = get_vpns_lem virt in
    let g = table-Grown m p₀ (vpn_1 virt) q₁ m₁ v e page out mid in
    let p₁ = entry_at m.enabled q₁ (vpn_1 virt) in
    let n = new_table m p₀ in
    let at : safe2phys n.enabled p₁ ≡ q₁ + 8 * vpn_1 virt = g.at in
    let pages = other_page q₁ q₂ (8 * vpn_1 virt) page page' ne (omega (arith, mid)) in
    let g' =
      table-Grown n p₁ (vpn_2 virt) q₂ m₂ (ap mmu_entry_valid g.empty) e' page'
        (omega (arith, at, pages)) high in
    map_below m n (new_table n p₁) root virt q₁ q₂ p₀ p₁ (entry_at n.enabled q₂ (vpn_2 virt)) first
      g g' page page' ne out out' mid high physical flags h f
