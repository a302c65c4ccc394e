-- ===== src/Spawn/Tests.antt =====
-- A program without segments, a segment in pieces, and two arguments.
use ilo_pali.Prelude.{◌+◌, sym, subst, ap, inl, ℕ, ◌≡◌, refl, List, [], ◌∷◌, arith, false}
use ilo_pali.Spawn.{ProgramHeader, page_copy, page_flags, Loaded, load_page}
use ilo_pali.Spawn.Arguments.{put_arguments, user_flags}
use ilo_pali.Spawn.Stored.{StoredAt, put_arguments-StoredAt}
use ilo_pali.Spawn.Pages.{allocated, load_page-bytes}
use ilo_pali.Mmu.Entry.{
  vpn_0, vpn_1, vpn_2, mmu_entry_set_phys, mmu_entry_set_flags, mmu_entry_phys,
}
use ilo_pali.Mmu.Map.{mmu_alloc}
use ilo_pali.Mmu.Address.{safe2phys, phys2safe}
use ilo_pali.Mmu.Table.{Memory, alloc_page}
use ilo_pali.Elf.{Elf}
use ilo_pali.Pages.{page_size}
use ilo_pali.Mmu.Bytes.{byte_of_memory}
use ilo_pali.Mmu.Copying.{Run}
use ilo_pali.Spawn.Start.{spawn_task_from_elf}
use ilo_pali.Spawn.Samples.{memory, program, symbols, empty}
use ilo_pali.Spawn.Table.{HasTasks, Outcome, spawn-Outcome}

-- A segment of 0x1800 bytes, of which 0x1100 are in the file, from 0x300 in a page on.
abbrev segment : ProgramHeader
segment = record {
  kind = 1;
  flags = 6;
  offset = 0x1000;
  virtual_addr = 0x10300;
  file_size = 0x1100;
  memory_size = 0x1800;
}

-- its second page, with bytes of the file behind its part of it
second_page : page_copy segment 1 ≡ record { to = 0; source = 0x1d00; size = 0x1000 }
unfolding page_copy
second_page = refl

writable : page_flags 6 ≡ 6
unfolding page_flags
writable = refl

abbrev loaded : Loaded
loaded = record { max_page = 0; memory = memory }

-- The file is at 0x40000, and the first free page is given out.
abbrev file : Elf
file = record { header = 0x40000; string_table = 0; size = 0x4000 }

abbrev with_first : Memory
with_first = (allocated 0x80000 segment 0 loaded).1

given : allocated 0x80000 segment 0 loaded ≡ (0x10000, with_first)
unfolding mmu_alloc page_flags alloc_page safe2phys phys2safe vpn_0 vpn_1 vpn_2 mmu_entry_set_phys
    mmu_entry_set_flags mmu_entry_phys
given = refl

physical : with_first.enabled ≡ false
unfolding mmu_alloc page_flags alloc_page safe2phys phys2safe vpn_0 vpn_1 vpn_2 mmu_entry_set_phys
    mmu_entry_set_flags mmu_entry_phys
physical = refl

own_address : (m : Memory) (p n : ℕ) → m.enabled ≡ false → Run m p p n
unfolding safe2phys
own_address m p n off j lt = ap (λ b. safe2phys b (p + j)) off

seen_at : (m : Memory) → m.enabled ≡ false → phys2safe m.enabled 0x10000 ≡ 0x10000
unfolding phys2safe
seen_at m off = ap (λ b. phys2safe b 0x10000) off

page-Run : Run with_first (phys2safe with_first.enabled 0x10000) 0x10000 page_size
page-Run =
    subst (λ p. Run with_first p 0x10000 page_size) (sym (seen_at with_first physical))
      (own_address with_first 0x10000 page_size physical)

load_page-bytes_example :
    byte_of_memory (load_page file 0x80000 segment 0 loaded).memory (0x10000 + 0x400)
    ≡ byte_of_memory with_first (0x40000 + (0x1000 + 0x100))
load_page-bytes_example =
    load_page-bytes file 0x80000 segment 0x100 loaded 0x10000 0x10000 0x40000 0x4000 with_first
      (omega arith) (omega arith) (λ e. omega arith) (omega arith) (omega arith) (omega arith) given
      (λ e. omega arith) (omega (arith, seen_at with_first physical)) (omega arith) page-Run
      (own_address with_first 0x40000 0x4000 physical) (inl (omega arith)) (omega arith)

abbrev arguments : List (List ℕ)
arguments = (b'l' ∷ b's' ∷ []) ∷ (b'x' ∷ []) ∷ []

abbrev with_arguments : Memory
with_arguments = (mmu_alloc memory 0x80000 0x40000 user_flags).1

arguments_page : mmu_alloc memory 0x80000 0x40000 user_flags ≡ (0x10000, with_arguments)
unfolding mmu_alloc alloc_page safe2phys phys2safe vpn_0 vpn_1 vpn_2 mmu_entry_set_phys
    mmu_entry_set_flags mmu_entry_phys
arguments_page = refl

untranslated : with_arguments.enabled ≡ false
unfolding mmu_alloc alloc_page safe2phys phys2safe vpn_0 vpn_1 vpn_2 mmu_entry_set_phys
    mmu_entry_set_flags mmu_entry_phys
untranslated = refl

put_arguments-StoredAt_example :
    StoredAt 0x10000 0x40000 arguments (put_arguments 0x80000 arguments 0x40000 memory)
put_arguments-StoredAt_example =
    put_arguments-StoredAt 0x80000 0x40000 0x10000 0x10000 arguments memory with_arguments
      arguments_page
      (subst (λ p. Run with_arguments p 0x10000 page_size)
        (sym (seen_at with_arguments untranslated))
        (own_address with_arguments 0x10000 page_size untranslated))
      (omega (arith, seen_at with_arguments untranslated)) (omega arith) (omega arith) (omega arith)
      (omega arith)

empty-HasTasks : HasTasks 0 empty.kernel
empty-HasTasks = record {
  room = omega arith;
  known = refl;
  first = refl;
  own_pid = λ i lt. absurd (omega arith);
  all_ready = λ i lt. absurd (omega arith);
  rest = λ i le. refl;
}

spawn-Outcome_example :
    Outcome 0 program empty (spawn_task_from_elf symbols program 2 arguments empty)
spawn-Outcome_example = spawn-Outcome symbols program 2 arguments 0 empty empty-HasTasks
