-- ===== src/Mmu/Mapping.antt =====
-- What `mmu_translate` of kernel/src/mmu.c finds after `mmu_map` and after `mmu_remove`, where the
-- tables on the way are there.
use ilo_pali.Prelude.{
  ℕ, ◌+◌, ◌*◌, ◌/◌, ◌^◌, ◌<◌, ◌≡◌, ◌∙◌, ap, true, false, none, some, Option, arith, if_true,
  if_false, inl, inr, Bool-cases, ◌⊎◌,
}
use ilo_pali.Mmu.Address.{phys2safe}
use ilo_pali.Mmu.Entry.{
  mmu_entry_valid, mmu_entry_frame, mmu_entry_phys, mmu_entry_set_flags, page_offset,
}
use ilo_pali.Mmu.Table.{Memory, load, store, mmu_translate}
use ilo_pali.Mmu.Map.{map_leaf, mmu_map, mmu_remove}
use ilo_pali.Mmu.Leaf.{leaf, leaf_valid, leaf_frame, leaf_phys}
use ilo_pali.Mmu.Walk.{
  EntryPath, Apart, load-store, EntryPath-store, translate_leaf, translate_invalid, mmu_map_path,
  walk_path,
}

-- Where the tables on the way to the entry of a virtual address are there and that entry is
-- another word than the entries that lead to it: `mmu_map` to a physical address below 2^38 with
-- flags of a frame changes nothing if the entry is valid, and fails. Otherwise it succeeds, and
-- afterwards `mmu_translate` leads to the physical page, as the kernel sees it, at the offset of
-- the virtual address.
pub map-translate :
    {m : Memory} {root virt p₀ p₁ p₂ : ℕ}
    → EntryPath m root virt p₀ p₁ p₂
    → Apart m p₀ p₁ p₂
    → (physical flags : ℕ) → physical < 2 ^ 38
    → mmu_entry_frame flags ≡ true
    → ((mmu_entry_valid (load m p₂) ≡ true) × (mmu_map m root virt physical flags ≡ (false, m)))
      ⊎ ((mmu_entry_valid (load m p₂) ≡ false)
          × (m' : Memory) × (mmu_map m root virt physical flags ≡ (true, m'))
          × (mmu_translate m' root virt
              ≡ some (phys2safe m.enabled (physical / 4096 * 4096) + page_offset virt)))
unfolding map_leaf store page_offset
map-translate {m} {root} {virt} {p₀} {p₁} {p₂} t a physical flags h f =
    let w = leaf (load m p₂) physical flags in
    elim (Bool-cases (mmu_entry_valid (load m p₂))) [
      | inl v ↦ inl (v, mmu_map_path t physical flags ∙ if_true _ _ v)
      | inr v ↦ inr (v, store m p₂ w, mmu_map_path t physical flags ∙ if_false _ _ v, translated)
    ]
  where
    translated :
        mmu_translate (store m p₂ (leaf (load m p₂) physical flags)) root virt
        ≡ some (phys2safe m.enabled (physical / 4096 * 4096) + page_offset virt)
    translated =
        let w = leaf (load m p₂) physical flags in
        let e = load-store m p₂ w in
        translate_leaf (EntryPath-store t a w) (rw e (leaf_valid (load m p₂) physical flags h))
          (rw e (leaf_frame (load m p₂) physical flags h f))
        ∙ ap some (
            rw e
              (leaf_phys m.enabled (load m p₂) physical flags (page_offset virt) h (omega arith)))

entry_gone : (e : ℕ) → mmu_entry_valid (mmu_entry_set_flags e 0) ≡ false
unfolding mmu_entry_set_flags
entry_gone e = ground arith

-- `mmu_remove` behind its walk
abbrev remove_at : Memory → Option ℕ → ℕ × Memory
remove_at m found = elim found [
  | none ↦ (0, m)
  | some p ↦ (mmu_entry_phys m.enabled (load m p), store m p (mmu_entry_set_flags (load m p) 0))
]

-- Where the tables on the way to the entry of a virtual address are there, the entry is another
-- word than the entries that lead to it, and it is valid: `mmu_remove` returns the address in the
-- entry, afterwards `mmu_translate` finds nothing, and a second `mmu_remove` returns NULL and
-- changes nothing.
pub remove-translate :
    {m : Memory} {root virt p₀ p₁ p₂ : ℕ}
    → EntryPath m root virt p₀ p₁ p₂
    → Apart m p₀ p₁ p₂
    → mmu_entry_valid (load m p₂) ≡ true
    → (m' : Memory) × (mmu_remove m root virt ≡ (mmu_entry_phys m.enabled (load m p₂), m'))
      × (mmu_translate m' root virt ≡ none)
      × (mmu_remove m' root virt ≡ (0, m'))
unfolding mmu_remove store
remove-translate {m} {root} {virt} {p₀} {p₁} {p₂} t a v =
    let w = mmu_entry_set_flags (load m p₂) 0 in
    let t' = EntryPath-store t a w in
    let e = load-store m p₂ w in
    let gone : mmu_entry_valid (load (store m p₂ w) p₂) ≡ false = rw e (entry_gone (load m p₂)) in
    (
      store m p₂ w,
      ap (remove_at m) (walk_path t ∙ if_true _ _ v),
      translate_invalid t' gone,
      ap (remove_at (store m p₂ w)) (walk_path t' ∙ if_false _ _ gone),
    )
