-- ===== src/Mmu/Tests.antt =====
-- The theorems on addresses and entries at numbers.
use ilo_pali.Prelude.{◌≡◌, refl, true}
use ilo_pali.Mmu.Address.{phys2safe}

safe_ram : phys2safe true 0x80200000 ≡ 0xffffffc080200000
unfolding phys2safe
safe_ram = refl
