-- ===== src/Spawn/Stored.antt =====
-- What `spawn_task_from_elf` of kernel/src/process.c writes to the page of a task's arguments.
use ilo_pali.Prelude.{
  true, length, ℕ, ◌+◌, ◌-◌, ◌*◌, ◌/◌, ◌%◌, ◌^◌, ◌≤◌, ◌<◌, ◌≡◌, ◌∙◌, ap, sym, refl, List, [], ◌∷◌,
  leb, ltb, ◌==◌, ◌&&◌, arith, add64, if_true,
}
use ilo_pali.Pages.{page_size}
use ilo_pali.Bytes.{byte_at}
use ilo_pali.Mmu.Address.{phys2safe}
use ilo_pali.Mmu.Table.{Memory}
use ilo_pali.Mmu.Map.{mmu_alloc}
use ilo_pali.Mmu.Bytes.{byte_of_memory, byte_in}
use ilo_pali.Mmu.Copying.{Run}
use ilo_pali.Spawn.Arguments.{
  Cursor, user_flags, next_page, put_strings, round_up, put_pointers, Arguments, put_arguments,
}
use ilo_pali.Spawn.Places.{begin_at, end_of, length-begin_at, put_arguments-LaidOut}
use ilo_pali.Spawn.Writes.{text, At, over, pointers_over, put_strings-stores, put_pointers-stores}

end_of-add : (x y : ℕ) (strings : List (List ℕ)) → end_of (x + y) strings ≡ x + end_of y strings
end_of-add x y [] = refl
end_of-add x y (string ∷ strings) =
    let e : x + y + length string + 1 ≡ x + (y + length string + 1) = omega arith in
    ap (λ z. end_of z strings) e ∙ end_of-add x (y + length string + 1) strings

end_of-from : (x : ℕ) (strings : List (List ℕ)) → end_of x strings ≡ x + end_of 0 strings
end_of-from x strings =
    let e : x ≡ x + 0 = omega arith in ap (λ z. end_of z strings) e ∙ end_of-add x 0 strings

-- the offset of the pointers
abbrev pub pointers_at : List (List ℕ) → ℕ
pointers_at args = (end_of 0 args + 7) / 8 * 8

-- The page at `a` holds the strings, and the pointers to them, which start at `first`.
pub record StoredAt (a last : ℕ) (args : List (List ℕ)) (r : Arguments) : Type 0 where
  pub chars :
      (k : ℕ) → k < end_of 0 args → byte_of_memory r.cursor.memory (a + k) ≡ text args k % 256
  pub pointers :
      (i : ℕ)
      → i < length args
      → r.cursor.memory.words (a + pointers_at args + 8 * i) ≡ byte_at (begin_at last args) i
  pub first : r.first ≡ last + pointers_at args

byte_in_words :
    (m m' : Memory) (x : ℕ)
    → m'.words (x / 8 * 8) ≡ m.words (x / 8 * 8)
    → byte_of_memory m' x ≡ byte_of_memory m x
byte_in_words m m' x e = ap (λ w. byte_in w (x % 8)) e

-- the cursor with a page, and what is done behind it
abbrev on_page : ℕ → ℕ × Memory → Cursor
on_page last r = record {
  offset = 0;
  physical = phys2safe r.1.enabled r.0;
  virt_addr = last;
  last = add64 last page_size;
  memory = r.1;
}

abbrev laid_out : ℕ → ℕ → List (List ℕ) → ℕ × Memory → Memory
laid_out root last args r =
    let s = put_strings root args (on_page last r) in (put_pointers root s.0 (round_up s.1)).memory

memory-put_arguments :
    (root last : ℕ) (args : List (List ℕ)) (m : Memory)
    → (put_arguments root args last m).cursor.memory
      ≡ laid_out root last args (mmu_alloc m root last user_flags)
unfolding put_arguments next_page
memory-put_arguments root last args m = refl

places-put_arguments :
    (root last : ℕ) (args : List (List ℕ)) (m : Memory)
    → (put_arguments root args last m).places
      ≡ (put_strings root args (on_page last (mmu_alloc m root last user_flags))).0
unfolding put_arguments next_page
places-put_arguments root last args m = refl

in_front : (ps : List ℕ) (from : ℕ) (f : ℕ → ℕ) (x : ℕ) → x < from → pointers_over ps from f x ≡ f x
in_front ps from f x lt = ground arith

at_pointer :
    (ps : List ℕ) (from i : ℕ) (f : ℕ → ℕ)
    → i < length ps
    → pointers_over ps from f (from + 8 * i) ≡ byte_at ps i
at_pointer ps from i f lt =
    let which : (from + 8 * i - from) / 8 ≡ i = omega arith in
    let inside : (leb from (from + 8 * i)
          && ltb (from + 8 * i) (from + 8 * length ps)
          && ((from + 8 * i - from) % 8 == 0))
        ≡ true =
      ground arith in
    if_true _ _ inside ∙ ap (byte_at ps) which

in_text :
    (args : List (List ℕ)) (a k : ℕ) (m : Memory)
    → k < end_of 0 args
    → over (λ i. text args i % 256) (a + 0) (a + end_of 0 args) (byte_of_memory m) (a + k)
      ≡ text args k % 256
in_text args a k m lt =
    let which : a + k - (a + 0) ≡ k = omega arith in
    let inside : (leb (a + 0) (a + k) && ltb (a + k) (a + end_of 0 args)) ≡ true = ground arith in
    if_true _ _ inside ∙ ap (λ i. text args i % 256) which

-- Where the arguments fit in the one page that `mmu_alloc` gives, the page lies at a multiple of eight
-- in a row of physical memory, and no address wraps around, the page holds afterwards the strings
-- one behind the other, each with its zero, and from the next multiple of eight on the virtual
-- addresses of the strings; the address given to the task is that of the first of these.
pub put_arguments-StoredAt :
    (root last a page : ℕ) (args : List (List ℕ)) (m m' : Memory)
    → mmu_alloc m root last user_flags ≡ (page, m')
    → Run m' (phys2safe m'.enabled page) a page_size
    → phys2safe m'.enabled page + page_size < 2 ^ 64
    → a % 8 ≡ 0
    → last % page_size ≡ 0
    → last + 4 * page_size < 2 ^ 64
    → pointers_at args + 8 * length args ≤ page_size
    → StoredAt a last args (put_arguments root args last m)
unfolding round_up
put_arguments-StoredAt root last a page args m m' given run fits eight whole small le =
    let p = phys2safe m'.enabled page in
    let s₀ = on_page last (page, m') in
    let at₀ : At m'.enabled p 0 s₀ = record { mode = refl; at_page = refl; at_offset = refl } in
    let (at, chars) = put_strings-stores root m'.enabled p a run fits args s₀ 0 at₀ (omega arith) in
    let s₁ = (put_strings root args s₀).1 in
    let laid =
      put_arguments-LaidOut root last args m whole (omega (arith, end_of-from last args)) in
    let ps = (put_strings root args s₀).0 in
    let places : ps ≡ begin_at last args =
      sym (ap (λ r. (put_strings root args (on_page last r)).0) given)
      ∙ sym (places-put_arguments root last args m)
      ∙ laid.places in
    let many : length ps ≡ length args = ap length places ∙ length-begin_at last args in
    let rounded : At m'.enabled p (pointers_at args) (round_up s₁) = record {
      mode = at.mode;
      at_page = at.at_page;
      at_offset = ap (λ x. (x + 7) / 8 * 8) at.at_offset;
    } in
    let stored =
      put_pointers-stores root m'.enabled p a run fits ps (round_up s₁) (pointers_at args) rounded
        (omega arith) (omega (arith, many)) in
    let memory : (put_arguments root args last m).cursor.memory
        ≡ (put_pointers root ps (round_up s₁)).memory =
      memory-put_arguments root last args m ∙ ap (laid_out root last args) given in
    record {
      chars = λ k lt.
          ap (λ m. byte_of_memory m (a + k)) memory
          ∙ byte_in_words s₁.memory (put_pointers root ps (round_up s₁)).memory (a + k) (
              stored ((a + k) / 8 * 8)
              ∙ in_front ps (a + pointers_at args) s₁.memory.words ((a + k) / 8 * 8) (omega arith))
          ∙ chars (a + k)
          ∙ in_text args a k m' lt;
      pointers = λ i lt.
          ap (λ m. m.words (a + pointers_at args + 8 * i)) memory
          ∙ stored (a + pointers_at args + 8 * i)
          ∙ at_pointer ps (a + pointers_at args) i s₁.memory.words (omega (arith, many))
          ∙ ap (λ xs. byte_at xs i) places;
      first = laid.first ∙ omega (arith, end_of-from last args);
    }
