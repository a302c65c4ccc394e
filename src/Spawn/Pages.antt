-- ===== src/Spawn/Pages.antt =====
-- What `spawn_task_from_elf` of kernel/src/process.c leaves in a page of a segment.
use ilo_pali.Prelude.{
  ℕ, ◌+◌, ◌-◌, ◌*◌, ◌/◌, ◌%◌, ◌^◌, ◌≤◌, ◌<◌, ◌≡◌, ◌≢◌, ◌⊎◌, ◌∙◌, ap, ap₂, false, true, ◌&&◌, ltb,
  leb, ◌==◌, arith, add64, sub64, if_true, if_false,
}
use ilo_pali.Elf.{Elf}
use ilo_pali.Pages.{page_size}
use ilo_pali.Bytes.{from, memcpy_lem}
use ilo_pali.Mmu.Address.{phys2safe, safe2phys}
use ilo_pali.Mmu.Entry.{mmu_bit_user}
use ilo_pali.Mmu.Table.{Memory}
use ilo_pali.Mmu.Map.{mmu_alloc}
use ilo_pali.Mmu.Bytes.{byte_of_memory, memcpy_bytes}
use ilo_pali.Mmu.Copying.{Run, memcpy_bytes-refines}
use ilo_pali.Spawn.{
  ProgramHeader, segment_offset, page_flags, Copy, page_copy, page_address, with_page, Loaded,
  fill_page, load_page,
}
use ilo_pali.Spawn.Copied.{page_copy-Copied}

Run-part : (m : Memory) (p a n b k : ℕ) → Run m p a n → b + k ≤ n → Run m (p + b) (a + b) k
Run-part m p a n b k r le j lt =
    let on : p + b + j ≡ p + (b + j) = omega arith in
    ap (safe2phys m.enabled) on ∙ r (b + j) (omega arith) ∙ omega arith

-- a copy out of the file to a page, seen by bytes
copied_byte :
    (m : Memory) (page a header e total : ℕ) (c : Copy) (j : ℕ)
    → page + page_size < 2 ^ 64
    → header + total < 2 ^ 64
    → Run m page a page_size
    → Run m header e total
    → (a + page_size ≤ e) ⊎ (e + total ≤ a)
    → c.to + c.size ≤ page_size
    → c.source + c.size ≤ total
    → c.to ≤ j
    → j < c.to + c.size
    → byte_of_memory (memcpy_bytes m (add64 page c.to) (add64 header c.source) c.size) (a + j)
      ≡ byte_of_memory m (e + (c.source + (j - c.to)))
copied_byte m page a header e total c j small small' to_run from_run apart fits inside le lt =
    let dest : add64 page c.to ≡ page + c.to = omega arith in
    let src : add64 header c.source ≡ header + c.source = omega arith in
    let at : e + c.source + (a + j - (a + c.to)) ≡ e + (c.source + (j - c.to)) = omega arith in
    let in_copy : (leb (a + c.to) (a + j) && ltb (a + j) (a + c.to + c.size)) ≡ true =
      ground arith in
    ap₂ (λ p q. byte_of_memory (memcpy_bytes m p q c.size) (a + j)) dest src
    ∙ memcpy_bytes-refines m (page + c.to) (header + c.source) (a + c.to) (e + c.source) c.size
        (omega arith) (Run-part m page a page_size c.to c.size to_run fits)
        (Run-part m header e total c.source c.size from_run inside) (omega arith) (a + j)
    ∙ memcpy_lem (byte_of_memory m) (a + c.to) (from (byte_of_memory m) (e + c.source)) c.size
        (a + j)
    ∙ if_true _ _ in_copy
    ∙ ap (byte_of_memory m) at

-- The round for the page `i` of a segment is given a page, or finds one.
abbrev pub allocated : ℕ → ProgramHeader → ℕ → Loaded → ℕ × Memory
allocated root h i s =
    mmu_alloc s.memory root (sub64 (page_address h i) (segment_offset h))
      (page_flags h.flags + mmu_bit_user)

other_number : (a b : ℕ) → a ≢ b → (a == b) ≡ false
other_number a b ne = ground arith

load_page-alloc :
    (elf : Elf) (root : ℕ) (h : ProgramHeader) (i : ℕ) (s : Loaded) (page : ℕ) (m : Memory)
    → allocated root h i s ≡ (page, m)
    → page ≢ 0
    → h.file_size ≢ 0
    → (load_page elf root h i s).memory
      ≡ memcpy_bytes m
          (add64 (phys2safe m.enabled page) (page_copy h i).to)
          (add64 elf.header (page_copy h i).source)
          (page_copy h i).size
unfolding load_page
load_page-alloc elf root h i s page m e ne filled =
    let virt = page_address h i in
    let some_page : (page == 0) ≡ false = other_number page 0 ne in
    let some_file : (h.file_size == 0) ≡ false = other_number h.file_size 0 filled in
    ap (λ r. (with_page elf root h i virt s.max_page r).memory) e
    ∙ ap (λ o. (fill_page elf h i virt s.max_page m o).memory) (if_false _ _ some_page)
    ∙ if_false _ _ some_file

-- When the round of the loop for a page of a segment with bytes in the file is given a page, every
-- byte of the segment in it, where the page begins no later than the part in the file ends, is
-- afterwards the byte of the file with the same number. The page and the file are runs of memory
-- that lie apart, and no address wraps around.
pub load_page-bytes :
    (elf : Elf) (root : ℕ) (h : ProgramHeader) (k : ℕ) (s : Loaded) (page a e total : ℕ)
    (m : Memory)
    → k < h.memory_size
    → (segment_offset h + k) / page_size * page_size ≤ h.file_size + segment_offset h
    → h.file_size ≢ 0
    → h.file_size + 2 * page_size < 2 ^ 64
    → h.memory_size + 2 * page_size < 2 ^ 64
    → h.offset + k + 2 * page_size < 2 ^ 64
    → allocated root h ((segment_offset h + k) / page_size) s ≡ (page, m)
    → page ≢ 0
    → phys2safe m.enabled page + page_size < 2 ^ 64
    → elf.header + total < 2 ^ 64
    → Run m (phys2safe m.enabled page) a page_size
    → Run m elf.header e total
    → (a + page_size ≤ e) ⊎ (e + total ≤ a)
    → h.offset + k + page_size ≤ total
    → byte_of_memory
        (load_page elf root h ((segment_offset h + k) / page_size) s).memory
        (a + (segment_offset h + k) % page_size)
      ≡ byte_of_memory m (e + (h.offset + k))
load_page-bytes elf root h k s page a e total m inside le filled small small' small'' given ne end
      file to_run from_run apart whole =
    let i = (segment_offset h + k) / page_size in
    let c = page_copy-Copied h k inside le small small' small'' in
    ap (λ m'. byte_of_memory m' (a + (segment_offset h + k) % page_size))
      (load_page-alloc elf root h i s page m given ne filled)
    ∙ copied_byte m (phys2safe m.enabled page) a elf.header e total (page_copy h i)
        ((segment_offset h + k) % page_size) end file to_run from_run apart c.fits
        (omega (arith, c.fits, c.byte, c.from, c.up_to)) c.from c.up_to
    ∙ ap (λ x. byte_of_memory m (e + x)) c.byte
