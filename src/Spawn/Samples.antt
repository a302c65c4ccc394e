-- ===== src/Spawn/Samples.antt =====
-- A program without segments in memory, and a table without tasks, for the tests.
use ilo_pali.Prelude.{false, ◌==◌, if◌then◌else◌}
use ilo_pali.Elf.{Elf}
use ilo_pali.Mmu.Table.{Memory}
use ilo_pali.Mmu.Create.{Symbols}
use ilo_pali.Process.{dead}
use ilo_pali.Process.Samples.{table_of}
use ilo_pali.Spawn.Start.{TaskSystem}

-- the type of a program at the address 16, and nothing else
abbrev pub memory : Memory
memory = record {
  enabled = false;
  words = λ a. if a == 16 then 2 else 0;
  pages = record { heap_bottom = 0x10000; len = 16; rc = λ i. 0; clear = λ i. false };
}

abbrev pub program : Elf
program = record { header = 0; string_table = 0; size = 64 }

abbrev pub symbols : Symbols
symbols = record {
  text_start = 0;
  data_start = 0;
  ro_data_start = 0;
  sdata_start = 0;
  sdata_end = 0;
  stack_start = 0;
  stack_top = 0;
  pages_bottom = 0;
}

abbrev pub empty : TaskSystem
empty = record { kernel = table_of (λ i. dead) (record { next = 0; up_to = 0 }); memory = memory }
