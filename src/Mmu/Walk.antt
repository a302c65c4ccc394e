-- ===== src/Mmu/Walk.antt =====
-- The walk down the tables of kernel/src/mmu.c, where the tables on the way are there.
use Prim.Native.Nat.{bit_or}
use ilo_pali.Prelude.{ℕ, ◌≡◌, ◌≢◌, ◌∙◌, ap, true, false, some, arith, if_true, if_false, none}
use ilo_pali.Mmu.Address.{safe2phys}
use ilo_pali.Mmu.Entry.{
  mmu_entry_valid, mmu_entry_frame, vpn_0, vpn_1, vpn_2, mmu_entry_phys, page_offset,
}
use ilo_pali.Mmu.Table.{
  Memory, load, store, mmu_root_get_any, mmu_root_get, if_valid, next_entry, mmu_entry_get_any,
  mmu_entry_get, mmu_walk_to_entry, mmu_translate, translate_0, translate_1, translate_2,
}
use ilo_pali.Mmu.Map.{next, map_level, map_leaf, mmu_map}

-- An entry leads to a table.
abbrev pub IsBranch : Memory → ℕ → Type 0
IsBranch m p = (mmu_entry_valid (load m p) ≡ true) × (mmu_entry_frame (load m p) ≡ false)

-- The pointers to the entries for `virt` in the tables of the three levels.
pub record EntryPath (m : Memory) (root virt p₀ p₁ p₂ : ℕ) : Type 0 where
  pub first : mmu_root_get_any m.enabled root (vpn_0 virt) ≡ some p₀
  pub branch₀ : IsBranch m p₀
  pub second : mmu_entry_get_any m.enabled (load m p₀) (vpn_1 virt) ≡ some p₁
  pub branch₁ : IsBranch m p₁
  pub third : mmu_entry_get_any m.enabled (load m p₁) (vpn_2 virt) ≡ some p₂

-- The last entry is another word than the two that lead to it.
pub record Apart (m : Memory) (p₀ p₁ p₂ : ℕ) : Type 0 where
  pub from_first : safe2phys m.enabled p₂ ≢ safe2phys m.enabled p₀
  pub from_second : safe2phys m.enabled p₂ ≢ safe2phys m.enabled p₁

pub load-store : (m : Memory) (p w : ℕ) → load (store m p w) p ≡ w
unfolding load store
load-store m p w = ground arith

pub load-store_apart :
    (m : Memory) (p q w : ℕ)
    → safe2phys m.enabled p ≢ safe2phys m.enabled q
    → load (store m p w) q ≡ load m q
unfolding load store
load-store_apart m p q w h = ground arith

pub EntryPath-store :
    {m : Memory} {root virt p₀ p₁ p₂ : ℕ}
    → EntryPath m root virt p₀ p₁ p₂
    → Apart m p₀ p₁ p₂
    → (w : ℕ) → EntryPath (store m p₂ w) root virt p₀ p₁ p₂
unfolding store
EntryPath-store {m} {root} {virt} {p₀} {p₁} {p₂} t a w =
    let e₀ = load-store_apart m p₂ p₀ w a.from_first in
    let e₁ = load-store_apart m p₂ p₁ w a.from_second in
    record {
      first = t.first;
      branch₀ = rw e₀ t.branch₀;
      second = rw e₀ t.second;
      branch₁ = rw e₁ t.branch₁;
      third = rw e₁ t.third;
    }

-- one level of a walk down, to an entry that is valid
root_valid :
    (m : Memory) (root i p : ℕ)
    → mmu_root_get_any m.enabled root i ≡ some p
    → mmu_entry_valid (load m p) ≡ true
    → mmu_root_get m root i ≡ some p
unfolding mmu_root_get
root_valid m root i p h v = ap (if_valid m) h ∙ if_true _ _ v

get_any_valid :
    (m : Memory) (e i p : ℕ)
    → mmu_entry_get_any m.enabled e i ≡ some p
    → mmu_entry_get m e i ≡ if_valid m (some p)
unfolding mmu_entry_get
get_any_valid m e i p h = ap (if_valid m) h

level_branch :
    (m : Memory) (i p : ℕ) {q : ℕ}
    → IsBranch m p
    → mmu_entry_get_any m.enabled (load m p) i ≡ some q
    → map_level i (next (some p) m) ≡ next (some q) m
unfolding map_level
level_branch m i p (v, f) h = if_true _ _ v ∙ if_false _ _ f ∙ ap (λ o. next o m) h

-- The walk of `mmu_translate` along the path.
translate_path :
    {m : Memory} {root virt p₀ p₁ p₂ : ℕ}
    → EntryPath m root virt p₀ p₁ p₂
    → mmu_translate m root virt ≡ translate_2 m virt (if_valid m (some p₂))
unfolding mmu_translate translate_0 translate_1
translate_path {m} {root} {virt} {p₀} {p₁} {p₂} t =
    let (v₀, f₀) = t.branch₀ in
    let (v₁, f₁) = t.branch₁ in
    ap (translate_0 m virt) (root_valid m root (vpn_0 virt) p₀ t.first v₀)
    ∙ if_false _ _ f₀
    ∙ ap (translate_1 m virt)
        (get_any_valid m (load m p₀) (vpn_1 virt) p₁ t.second ∙ if_true _ _ v₁)
    ∙ if_false _ _ f₁
    ∙ ap (translate_2 m virt) (get_any_valid m (load m p₁) (vpn_2 virt) p₂ t.third)

pub translate_leaf :
    {m : Memory} {root virt p₀ p₁ p₂ : ℕ}
    → EntryPath m root virt p₀ p₁ p₂
    → mmu_entry_valid (load m p₂) ≡ true
    → mmu_entry_frame (load m p₂) ≡ true
    → mmu_translate m root virt
      ≡ some (bit_or (mmu_entry_phys m.enabled (load m p₂)) (page_offset virt))
unfolding translate_2
translate_leaf {m} {root} {virt} t v f =
    translate_path t ∙ ap (translate_2 m virt) (if_true _ _ v) ∙ if_true _ _ f

pub translate_invalid :
    {m : Memory} {root virt p₀ p₁ p₂ : ℕ}
    → EntryPath m root virt p₀ p₁ p₂
    → mmu_entry_valid (load m p₂) ≡ false
    → mmu_translate m root virt ≡ none
unfolding translate_2
translate_invalid {m} {root} {virt} t v =
    translate_path t ∙ ap (translate_2 m virt) (if_false _ _ v)

pub mmu_map_path :
    {m : Memory} {root virt p₀ p₁ p₂ : ℕ}
    → EntryPath m root virt p₀ p₁ p₂
    → (physical flags : ℕ)
    → mmu_map m root virt physical flags ≡ map_leaf physical flags (next (some p₂) m)
unfolding mmu_map
mmu_map_path {m} {root} {virt} {p₀} {p₁} {p₂} t physical flags = ap (map_leaf physical flags) (
    ap (λ o. map_level (vpn_2 virt) (map_level (vpn_1 virt) (next o m))) t.first
    ∙ ap (map_level (vpn_2 virt)) (level_branch m (vpn_1 virt) p₀ t.branch₀ t.second)
    ∙ level_branch m (vpn_2 virt) p₁ t.branch₁ t.third)

pub walk_path :
    {m : Memory} {root virt p₀ p₁ p₂ : ℕ}
    → EntryPath m root virt p₀ p₁ p₂
    → mmu_walk_to_entry m root virt ≡ if_valid m (some p₂)
unfolding mmu_walk_to_entry
walk_path {m} {root} {virt} {p₀} {p₁} {p₂} t =
    let (v₀, f₀) = t.branch₀ in
    let (v₁, f₁) = t.branch₁ in
    ap (λ o. next_entry m (vpn_2 virt) (next_entry m (vpn_1 virt) o))
      (root_valid m root (vpn_0 virt) p₀ t.first v₀)
    ∙ ap (next_entry m (vpn_2 virt))
        (if_false _ _ f₀ ∙ get_any_valid m (load m p₀) (vpn_1 virt) p₁ t.second ∙ if_true _ _ v₁)
    ∙ if_false _ _ f₁
    ∙ get_any_valid m (load m p₁) (vpn_2 virt) p₂ t.third
