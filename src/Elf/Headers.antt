-- ===== src/Elf/Headers.antt =====
-- Where the program headers lie that kernel/src/elf.c finds.
use ilo_pali.Elf.{Elf}
