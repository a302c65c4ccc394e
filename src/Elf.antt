-- ===== src/Elf.antt =====
-- kernel/src/elf.c and elf.h: the check of an ELF file in memory, and its headers. `m a` is the byte
-- at the address `a`.
pub mod Headers
mod Tests
use ilo_pali.Prelude.{
  ℕ, ◌+◌, ◌*◌, ◌^◌, Bool, ◌||◌, not, Option, none, some, ◌==◌, if◌then◌else◌, add64, mul64,
}
use ilo_pali.Bytes.{Region}
use ilo_pali.Fat.{read_8, read_16, read_32}

abbrev pub read_64 : Region → ℕ → ℕ
read_64 m a = read_32 m a + 2 ^ 32 * read_32 m (a + 4)

-- `elf_t`; the pointers are addresses.
pub record Elf : Type 0 where
  pub header : ℕ
  pub string_table : ℕ
  pub size : ℕ

unfoldable pub get_elf_section_header : Region → Elf → ℕ → ℕ
get_elf_section_header m elf i =
    add64 (elf.header + read_64 m (elf.header + 40)) (mul64 (read_16 m (elf.header + 58)) i)

unfoldable pub get_elf_program_header : Region → Elf → ℕ → ℕ
get_elf_program_header m elf i =
    add64 (elf.header + read_64 m (elf.header + 32)) (mul64 (read_16 m (elf.header + 54)) i)

-- the last part of `verify_elf`; the field `offset` of a section header is its bytes from 24 on
unfoldable pub with_strings : Region → ℕ → ℕ → Elf
unfolding get_elf_section_header
with_strings m start size =
    let elf : Elf = record { header = start; string_table = 0; size = size } in
    let names = get_elf_section_header m elf (read_16 m (start + 62)) in
    record elf { string_table = add64 start (read_64 m (names + 24)) }

-- header->ident[0] != 0x7f || header->ident[1] != 'E' || ...
abbrev pub wrong_magic : Region → ℕ → Bool
wrong_magic m start =
    not (read_8 m start == 0x7f)
    || not (read_8 m (start + 1) == 0x45)
    || not (read_8 m (start + 2) == 0x4c)
    || not (read_8 m (start + 3) == 0x46)

-- `none` is the structure of zeros.
unfoldable pub verify_elf : Region → ℕ → ℕ → Option Elf
unfolding with_strings
verify_elf m start size =
    if start == 0
    then none
    else if wrong_magic m start
    then none
    else if not (read_8 m (start + 4) == 2)
    then none
    else if not (read_8 m (start + 5) == 1)
    then none
    else if not (read_32 m (start + 20) == 1)
    then none
    else if not (read_16 m (start + 18) == 243)
    then none
    else some (with_strings m start size)
