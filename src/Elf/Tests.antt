-- ===== src/Elf/Tests.antt =====
-- A header at the address 4096.
use ilo_pali.Prelude.{ℕ, ◌-◌, ◌≡◌, refl, some, ◌==◌, if◌then◌else◌}
use ilo_pali.Bytes.{Region}
use ilo_pali.Elf.{Elf, verify_elf}

-- Program headers from byte 64 on, 56 bytes each; version 1, machine 243.
abbrev header_byte : ℕ → ℕ
header_byte a =
    if a == 0
    then 0x7f
    else if a == 1
    then 0x45
    else if a == 2
    then 0x4c
    else if a == 3
    then 0x46
    else if a == 4
    then 2
    else if a == 5
    then 1
    else if a == 18
    then 243
    else if a == 20
    then 1
    else if a == 32
    then 64
    else if a == 54
    then 56
    else 0

abbrev file : Region
file a = header_byte (a - 4096)

abbrev elf : Elf
elf = record { header = 4096; string_table = 4096; size = 1000 }

file_accepted : verify_elf file 4096 1000 ≡ some elf
unfolding verify_elf
file_accepted = refl
