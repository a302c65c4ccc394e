-- ===== src/Spawn/Copied.antt =====
-- Which bytes of the file `spawn_task_from_elf` of kernel/src/process.c copies to the pages of a
-- segment.
use ilo_pali.Prelude.{
  ℕ, ◌+◌, ◌-◌, ◌*◌, ◌/◌, ◌%◌, ◌^◌, ◌≤◌, ◌<◌, ◌≡◌, arith, add64, mul64, ◌==◌, Bool-cases, inl, inr,
  if_true, if_false, ap, ◌∙◌, subst, sym,
}
use ilo_pali.Pages.{page_size}
use ilo_pali.Spawn.{
  ProgramHeader, segment_offset, page_count, Copy, copy_size, first_copy, later_copy, page_copy,
}

-- The byte `k` of the segment is in the page `i`, and the copy to that brings the byte `k` of the
-- segment's part of the file to its place in the page.
pub record Copied (h : ProgramHeader) (k : ℕ) (i : ℕ) (c : Copy) : Type 0 where
  pub in_segment : i < page_count h
  pub from : c.to ≤ (segment_offset h + k) % page_size
  pub up_to : (segment_offset h + k) % page_size < c.to + c.size
  pub fits : c.to + c.size ≤ page_size
  pub byte : c.source + ((segment_offset h + k) % page_size - c.to) ≡ h.offset + k

full :
    (h : ProgramHeader) (i : ℕ)
    → h.file_size + page_size < 2 ^ 64
    → i * page_size ≤ h.file_size + segment_offset h
    → copy_size h i ≡ page_size
unfolding copy_size
full h i small le = ground arith

in_pages :
    (h : ProgramHeader) (k : ℕ)
    → k < h.memory_size
    → h.memory_size + 2 * page_size < 2 ^ 64
    → (segment_offset h + k) / page_size < page_count h
unfolding page_count
in_pages h k inside small = omega arith

-- Every byte of a segment that has bytes in the file, where it is in a page that begins up to the end
-- of these, comes to its place in the page with the number it has in the segment: also the bytes
-- behind that end, which are to be zeros. This holds for sizes for which no address wraps around.
pub page_copy-Copied :
    (h : ProgramHeader) (k : ℕ)
    → k < h.memory_size
    → (segment_offset h + k) / page_size * page_size ≤ h.file_size + segment_offset h
    → h.file_size + 2 * page_size < 2 ^ 64
    → h.memory_size + 2 * page_size < 2 ^ 64
    → h.offset + k + 2 * page_size < 2 ^ 64
    → Copied h k
        ((segment_offset h + k) / page_size)
        (page_copy h ((segment_offset h + k) / page_size))
unfolding page_copy
page_copy-Copied h k inside le small small' small'' =
    let i = (segment_offset h + k) / page_size in
    let source = add64 h.offset (mul64 i page_size) in
    let size : copy_size h i ≡ page_size = full h i (omega arith) le in
    elim (Bool-cases (i == 0)) [
      | inl e ↦
          let none : i ≡ 0 = ground arith in
          subst (Copied h k i) (sym (if_true _ _ e ∙ ap (first_copy h source) size)) (record {
            in_segment = in_pages h k inside small';
            from = omega (arith, none);
            up_to = omega (arith, none);
            fits = omega (arith, none);
            byte = omega (arith, none);
          })
      | inr e ↦
          let some : 1 ≤ i = ground arith in
          subst (Copied h k i) (sym (if_false _ _ e ∙ ap (later_copy h source) size)) (record {
            in_segment = in_pages h k inside small';
            from = omega arith;
            up_to = omega arith;
            fits = omega arith;
            byte = omega (arith, some);
          })
    ]
