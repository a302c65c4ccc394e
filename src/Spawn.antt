-- ===== src/Spawn.antt =====
-- `spawn_task_from_elf` of kernel/src/process.c: the segments of a program in the pages of a new
-- task. `Spawn.Arguments` has its arguments, `Spawn.Start` the task itself.
pub mod Arguments
pub mod Copied
pub mod Pages
pub mod Places
pub mod Writes
pub mod Stored
pub mod Start
pub mod Table
pub mod Samples
mod Tests
use ilo_pali.Prelude.{
  ℕ, zero, suc, ◌+◌, ◌-◌, ◌*◌, ◌/◌, ◌%◌, Bool, not, ◌||◌, Option, none, some, ltb, ◌==◌,
  if◌then◌else◌, add64, sub64, mul64,
}
use ilo_pali.Bytes.{Region}
use ilo_pali.Fat.{read_16, read_32}
use ilo_pali.Elf.{Elf, read_64, get_elf_program_header}
use ilo_pali.Pages.{page_size}
use ilo_pali.Mmu.Address.{phys2safe}
use ilo_pali.Mmu.Entry.{
  mmu_bit_read, mmu_bit_write, mmu_bit_exec, mmu_bit_user, mmu_entry_valid, mmu_entry_frame,
  mmu_entry_user, mmu_entry_phys,
}
use ilo_pali.Mmu.Table.{Memory, load, mmu_walk_to_entry}
use ilo_pali.Mmu.Map.{mmu_alloc}
use ilo_pali.Mmu.Bytes.{load_byte, memcpy_bytes}

-- `elf_program_header_t`
pub record ProgramHeader : Type 0 where
  pub kind : ℕ
  pub flags : ℕ
  pub offset : ℕ
  pub virtual_addr : ℕ
  pub file_size : ℕ
  pub memory_size : ℕ

unfoldable pub read_program_header : Region → ℕ → ProgramHeader
read_program_header m p = record {
  kind = read_32 m p;
  flags = read_32 m (p + 4);
  offset = read_64 m (p + 8);
  virtual_addr = read_64 m (p + 16);
  file_size = read_64 m (p + 32);
  memory_size = read_64 m (p + 40);
}

-- the flags of the pages of a segment
unfoldable pub page_flags : ℕ → ℕ
page_flags raw =
    (if raw / 2 % 2 == 1 then mmu_bit_write else if raw % 2 == 1 then mmu_bit_exec else 0)
    + (if raw / 4 % 2 == 1 then mmu_bit_read else 0)

-- where in its first page a segment begins
abbrev pub segment_offset : ProgramHeader → ℕ
segment_offset h = h.virtual_addr % page_size

unfoldable pub page_count : ProgramHeader → ℕ
page_count h = add64 h.memory_size (segment_offset h + page_size - 1) / page_size

-- What is copied to a page: from where in the page on, from where in the file on, and how much.
pub record Copy : Type 0 where
  pub to : ℕ
  pub source : ℕ
  pub size : ℕ

-- the first value of `size` for the page `i`
unfoldable pub copy_size : ProgramHeader → ℕ → ℕ
copy_size h i =
    let end = add64 h.file_size (segment_offset h) in
    if ltb end (mul64 i page_size)
    then (if ltb (mul64 (sub64 i 1) page_size) end
        then sub64 h.file_size (mul64 (sub64 i 1) page_size)
        else 0)
    else page_size

-- the copy to the first page, and the copy to a later one
abbrev pub first_copy : ProgramHeader → ℕ → ℕ → Copy
first_copy h source size = record {
  to = segment_offset h;
  source = source;
  size = if ltb 0 size then sub64 size (segment_offset h) else size;
}

abbrev pub later_copy : ProgramHeader → ℕ → ℕ → Copy
later_copy h source size = record { to = 0; source = sub64 source (segment_offset h); size = size }

-- the copy to the page `i` of a segment that has bytes in the file
unfoldable pub page_copy : ProgramHeader → ℕ → Copy
unfolding copy_size
page_copy h i =
    let source = add64 h.offset (mul64 i page_size) in
    if i == 0 then first_copy h source (copy_size h i) else later_copy h source (copy_size h i)

-- `max_page` and what the memory holds
pub record Loaded : Type 0 where
  pub max_page : ℕ
  pub memory : Memory

-- the page of an entry for a page of the user
abbrev pub user_page : Memory → Option ℕ → Option ℕ
user_page m none = none
user_page m (some p) =
    let e = load m p in
    if not (mmu_entry_valid e) || not (mmu_entry_frame e) || not (mmu_entry_user e)
    then none
    else some (mmu_entry_phys m.enabled e)

-- The page that was allocated, or the one that is mapped there; `none` is `continue`.
abbrev pub page_or_mapped : ℕ → ℕ → ℕ → Memory → Option ℕ
page_or_mapped root virt page m =
    if page == 0 then user_page m (mmu_walk_to_entry m root virt) else some page

-- the copy to the page `i`, seen by the kernel at `page`
abbrev pub copy_page : Elf → ProgramHeader → ℕ → ℕ → Memory → Memory
copy_page elf h i page m =
    if h.file_size == 0
    then m
    else (let c = page_copy h i in
        memcpy_bytes m (add64 page c.to) (add64 elf.header c.source) c.size)

abbrev pub fill_page : Elf → ProgramHeader → ℕ → ℕ → ℕ → Memory → Option ℕ → Loaded
fill_page elf h i virt max_page m none = record { max_page = max_page; memory = m }
fill_page elf h i virt max_page m (some page) = record {
  max_page = if ltb max_page virt then virt else max_page;
  memory = copy_page elf h i (phys2safe m.enabled page) m;
}

-- what follows the call of `mmu_alloc`
abbrev pub with_page : Elf → ℕ → ProgramHeader → ℕ → ℕ → ℕ → ℕ × Memory → Loaded
with_page elf root h i virt max_page (page, m) =
    fill_page elf h i virt max_page m (page_or_mapped root virt page m)

-- where the page `i` of a segment begins, with the offset of the segment
abbrev pub page_address : ProgramHeader → ℕ → ℕ
page_address h i = add64 h.virtual_addr (mul64 i page_size)

-- a round of the loop over the pages of a segment
unfoldable pub load_page : Elf → ℕ → ProgramHeader → ℕ → Loaded → Loaded
unfolding mmu_alloc mmu_walk_to_entry page_flags page_copy memcpy_bytes phys2safe load
load_page elf root h i s =
    let virt = page_address h i in
    with_page elf root h i virt s.max_page
      (mmu_alloc s.memory root (sub64 virt (segment_offset h)) (page_flags h.flags + mmu_bit_user))

-- the pages from `i` on, of which there are `rounds`
unfoldable pub load_pages : ℕ → Elf → ℕ → ProgramHeader → ℕ → Loaded → Loaded
unfolding load_page
load_pages zero elf root h i s = s
load_pages (suc rounds) elf root h i s =
    load_pages rounds elf root h (i + 1) (load_page elf root h i s)

abbrev pub load_segment : Elf → ℕ → ProgramHeader → Loaded → Loaded
load_segment elf root h s =
    if not (h.kind == 1) then s else load_pages (page_count h) elf root h 0 s

-- the program headers from `i` on, of which there are `rounds`
unfoldable pub load_segments : ℕ → Elf → ℕ → ℕ → Loaded → Loaded
unfolding load_pages load_byte get_elf_program_header read_program_header page_count
load_segments zero elf root i s = s
load_segments (suc rounds) elf root i s =
    let h =
      read_program_header (load_byte s.memory)
        (get_elf_program_header (load_byte s.memory) elf i) in
    load_segments rounds elf root (i + 1) (load_segment elf root h s)
