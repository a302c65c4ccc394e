-- ===== src/Mmu/Address.antt =====
-- The conversions of kernel/src/mmu.c between physical addresses and the kernel's direct map of
-- them from `KERNEL_SPACE_OFFSET` on. `enabled` is what `mmu_enabled` reads from satp.
use ilo_pali.Prelude.{
  ℕ, ◌-◌, ◌^◌, ◌≤◌, ◌<◌, ◌≡◌, ◌↔◌, Bool, true, ◌&&◌, arith, ltb, leb, add64, sub64, if◌then◌else◌,
}

-- 0xffffffc000000000
abbrev pub kernel_space_offset : ℕ
kernel_space_offset = 2 ^ 64 - 2 ^ 38

unfoldable pub phys2safe_nommu : ℕ → ℕ
phys2safe_nommu a =
    if leb a kernel_space_offset
    then (if leb kernel_space_offset (add64 a kernel_space_offset)
        then add64 a kernel_space_offset
        else 0)
    else a

unfoldable pub phys2safe : Bool → ℕ → ℕ
phys2safe enabled a =
    if enabled && leb a kernel_space_offset
    then (if leb kernel_space_offset (add64 a kernel_space_offset)
        then add64 a kernel_space_offset
        else 0)
    else a

unfoldable pub safe2phys : Bool → ℕ → ℕ
safe2phys enabled a =
    if enabled && leb kernel_space_offset a then sub64 a kernel_space_offset else a

unfoldable pub safe2phys_nommu : ℕ → ℕ
safe2phys_nommu a = if leb kernel_space_offset a then sub64 a kernel_space_offset else a

-- Physical memory below 2^38 goes through the direct map and back unchanged, whether the MMU is on
-- or off, and the two conversions that do not ask agree with the others when it is on.
pub safe2phys-phys2safe :
    (enabled : Bool) (a : ℕ)
    → a < 2 ^ 38
    → (safe2phys enabled (phys2safe enabled a) ≡ a)
      × (safe2phys_nommu (phys2safe_nommu a) ≡ a)
      × (phys2safe true a ≡ phys2safe_nommu a)
      × (safe2phys true (phys2safe_nommu a) ≡ a)
unfolding safe2phys phys2safe phys2safe_nommu safe2phys_nommu
safe2phys-phys2safe enabled a h = ground arith

-- With the MMU on, of the addresses up to the offset exactly those from 2^38 on become NULL; the
-- null pointer becomes the offset itself, which is not null.
pub phys2safe-null :
    (a : ℕ)
    → a ≤ kernel_space_offset
    → ((phys2safe true a ≡ 0) ↔ (2 ^ 38 ≤ a)) × (phys2safe true 0 ≡ kernel_space_offset)
unfolding phys2safe
phys2safe-null a h = ground arith

-- With the MMU on, converting an address a second time changes nothing for physical memory above
-- address zero; from address zero the second conversion gives NULL.
pub phys2safe-phys2safe :
    (a : ℕ)
    → a < 2 ^ 38
    → phys2safe true (phys2safe true a) ≡ (if ltb 0 a then phys2safe true a else 0)
unfolding phys2safe
phys2safe-phys2safe a h = ground arith
