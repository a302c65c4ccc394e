-- ===== src/Mmu/Leaf.antt =====
-- The word that `mmu_map` of kernel/src/mmu.c stores for a page.
use Prim.Native.Nat.{bit_or}
use ilo_pali.Prelude.{
  ◌-◌, ℕ, ◌+◌, ◌*◌, ◌/◌, ◌%◌, ◌^◌, ◌<◌, ◌≡◌, ◌∙◌, Bool, true, false, arith, bit_or_low,
  bit_or_disjoint,
}
use ilo_pali.Mmu.Address.{phys2safe}
use ilo_pali.Mmu.Entry.{
  mmu_entry_valid, mmu_entry_frame, mmu_entry_phys, mmu_entry_set_flags, mmu_entry_set_phys,
  set_flags-set_phys,
}
use ilo_pali.Mmu.Map.{leaf_flags}

abbrev pub leaf : ℕ → ℕ → ℕ → ℕ
leaf e physical flags = mmu_entry_set_phys (mmu_entry_set_flags e (leaf_flags flags)) physical

leaf_low :
    (e physical flags : ℕ)
    → physical < 2 ^ 38
    → leaf e physical flags % 1024 ≡ leaf_flags flags % 1024
leaf_low e physical flags h =
    let (set, address, keep, page) =
      set_flags-set_phys (mmu_entry_set_flags e (leaf_flags flags)) 0 physical (omega arith) in
    let (set', address', keep', page') = set_flags-set_phys e (leaf_flags flags) 0 (omega arith) in
    keep ∙ set'

pub leaf_valid :
    (e physical flags : ℕ) → physical < 2 ^ 38 → mmu_entry_valid (leaf e physical flags) ≡ true
leaf_valid e physical flags h = ground (arith, leaf_low e physical flags h, bit_or_low flags 0xc1)

pub leaf_frame :
    (e physical flags : ℕ)
    → physical < 2 ^ 38
    → mmu_entry_frame flags ≡ true
    → mmu_entry_frame (leaf e physical flags) ≡ true
leaf_frame e physical flags h f = ground (
  arith,
  leaf_low e physical flags h,
  bit_or_low flags 0xc1,
  bit_or_low (flags / 2) 0x60,
  bit_or_low (flags / 2 / 2) 0x30,
  bit_or_low (flags / 2 / 2 / 2) 0x18,
)

-- A page seen through the direct map is a page.
safe_page :
    (enabled : Bool) (k : ℕ)
    → k * 4096 < 2 ^ 38
    → (r : ℕ) × (phys2safe enabled (k * 4096) ≡ r * 2 ^ 12)
unfolding phys2safe
safe_page true k h = (k + (2 ^ 52 - 2 ^ 26), ground arith)
safe_page false k h = (k, omega arith)

pub leaf_phys :
    (enabled : Bool) (e physical flags offset : ℕ)
    → physical < 2 ^ 38
    → offset < 4096
    → bit_or (mmu_entry_phys enabled (leaf e physical flags)) offset
      ≡ phys2safe enabled (physical / 4096 * 4096) + offset
unfolding mmu_entry_phys
leaf_phys enabled e physical flags offset h lt =
    let (set, address, keep, page) =
      set_flags-set_phys (mmu_entry_set_flags e (leaf_flags flags)) 0 physical (omega arith) in
    let (r, safe) = safe_page enabled (physical / 4096) (omega arith) in
    rw page (rw safe (bit_or_disjoint 12 r offset lt))
