-- ===== src/Mmu/Entry.antt =====
-- Page table entries of kernel/src/mmu.h and mmu.c as 64-bit words. `e & ~0x3ff` is
-- `e / 1024 * 1024`, and an `|` of numbers that share no bit is their sum.
use ilo_pali.Prelude.{
  ℕ, ◌+◌, ◌*◌, ◌/◌, ◌%◌, ◌^◌, ◌<◌, ◌≡◌, Bool, ◌||◌, arith, ltb, ◌==◌, if◌then◌else◌,
}
use ilo_pali.Mmu.Address.{phys2safe}

abbrev pub bit : ℕ → ℕ → Bool
bit e k = e / 2 ^ k % 2 == 1

abbrev pub mmu_bit_valid : ℕ
mmu_bit_valid = 1

abbrev pub mmu_bit_read : ℕ
mmu_bit_read = 2

abbrev pub mmu_bit_write : ℕ
mmu_bit_write = 4

abbrev pub mmu_bit_exec : ℕ
mmu_bit_exec = 8

abbrev pub mmu_bit_user : ℕ
mmu_bit_user = 16

abbrev pub mmu_bit_global : ℕ
mmu_bit_global = 32

abbrev pub mmu_entry_valid : ℕ → Bool
mmu_entry_valid e = bit e 0

abbrev pub mmu_entry_read : ℕ → Bool
mmu_entry_read e = bit e 1

abbrev pub mmu_entry_write : ℕ → Bool
mmu_entry_write e = bit e 2

abbrev pub mmu_entry_exec : ℕ → Bool
mmu_entry_exec e = bit e 3

abbrev pub mmu_entry_frame : ℕ → Bool
mmu_entry_frame e = mmu_entry_read e || mmu_entry_write e || mmu_entry_exec e

abbrev pub mmu_entry_user : ℕ → Bool
mmu_entry_user e = bit e 4

abbrev pub mmu_entry_global : ℕ → Bool
mmu_entry_global e = bit e 5

abbrev pub mmu_entry_accessed : ℕ → Bool
mmu_entry_accessed e = bit e 6

abbrev pub mmu_entry_dirty : ℕ → Bool
mmu_entry_dirty e = bit e 7

-- the address in an entry, before `phys2safe`
unfoldable pub entry_address : ℕ → ℕ
entry_address e = e / 1024 * 1024 * 4 % 2 ^ 64

unfoldable pub mmu_entry_phys : Bool → ℕ → ℕ
unfolding entry_address
mmu_entry_phys enabled e = phys2safe enabled (entry_address e)

unfoldable pub mmu_entry_set_flags : ℕ → ℕ → ℕ
mmu_entry_set_flags e flags = e / 1024 * 1024 + flags % 1024

-- `>> 2` of a signed word repeats its sign bit.
abbrev pub shift_right_2 : ℕ → ℕ
shift_right_2 x = if ltb x (2 ^ 63) then x / 4 else x / 4 + 3 * 2 ^ 62

unfoldable pub mmu_entry_set_phys : ℕ → ℕ → ℕ
mmu_entry_set_phys e phys = e % 1024 + shift_right_2 (phys / 4096 * 4096)

-- `vpns[0]`, `vpns[1]`, `vpns[2]` and `*offset` of `get_vpns`
unfoldable pub vpn_0 : ℕ → ℕ
vpn_0 addr = addr / 2 ^ 30 % 512

unfoldable pub vpn_1 : ℕ → ℕ
vpn_1 addr = addr / 2 ^ 21 % 512

unfoldable pub vpn_2 : ℕ → ℕ
vpn_2 addr = addr / 2 ^ 12 % 512

unfoldable pub page_offset : ℕ → ℕ
page_offset addr = addr % 4096

-- The four parts of an address determine its low 39 bits, and each is in range for its table.
pub get_vpns_lem :
    (addr : ℕ)
    → (vpn_0 addr * 2 ^ 30 + vpn_1 addr * 2 ^ 21 + vpn_2 addr * 2 ^ 12 + page_offset addr
        ≡ addr % 2 ^ 39)
      × (vpn_0 addr < 512)
      × (vpn_1 addr < 512)
      × (vpn_2 addr < 512)
unfolding vpn_0 vpn_1 vpn_2 page_offset
get_vpns_lem addr = omega arith

-- Setting the flags of an entry keeps its address and reads back as the low ten bits given;
-- setting its address keeps the flags and reads back as the page of the address.
pub set_flags-set_phys :
    (e flags phys : ℕ)
    → phys < 2 ^ 56
    → (mmu_entry_set_flags e flags % 1024 ≡ flags % 1024)
      × (entry_address (mmu_entry_set_flags e flags) ≡ entry_address e)
      × (mmu_entry_set_phys e phys % 1024 ≡ e % 1024)
      × (entry_address (mmu_entry_set_phys e phys) ≡ phys / 4096 * 4096)
unfolding mmu_entry_set_flags mmu_entry_set_phys entry_address
set_flags-set_phys e flags phys h = (omega arith, omega arith, ground arith, ground arith)
