-- ===== src/Spawn/Places.antt =====
-- Where `spawn_task_from_elf` of kernel/src/process.c puts the arguments of a task.
use ilo_pali.Prelude.{
  length, ℕ, suc, ◌+◌, ◌*◌, ◌/◌, ◌%◌, ◌^◌, ◌≤◌, ◌<◌, ◌≡◌, ◌∙◌, ap, ap₂, sym, subst, refl, List, [],
  ◌∷◌, leb, arith, add64, Bool-cases, inl, inr, if_true, if_false,
}
use ilo_pali.Pages.{page_size}
use ilo_pali.Mmu.Table.{Memory, store}
use ilo_pali.Spawn.Arguments.{
  Cursor, next_page, with_room, put_char, put_string, put_strings, round_up, put_pointers,
  Arguments, put_arguments,
}

-- where strings from an address on begin
abbrev pub begin_at : ℕ → List (List ℕ) → List ℕ
begin_at a [] = []
begin_at a (string ∷ strings) = a ∷ begin_at (a + length string + 1) strings

-- where they end
abbrev pub end_of : ℕ → List (List ℕ) → ℕ
end_of a [] = a
end_of a (string ∷ strings) = end_of (a + length string + 1) strings

-- What is written next stands at the virtual address `p`, in the last of pages in a row.
pub record Placed (p : ℕ) (s : Cursor) : Type 0 where
  pub in_page : s.offset ≤ page_size
  pub in_row : s.virt_addr + page_size ≡ s.last
  pub place : s.virt_addr + s.offset ≡ p
  pub aligned : s.virt_addr % 8 ≡ 0

module _ (root : ℕ) where
  with_room-Placed :
      (s : Cursor) (p : ℕ)
      → Placed p s
      → p + 2 * page_size < 2 ^ 64
      → Placed p (with_room root s) × ((with_room root s).offset < page_size)
  unfolding with_room next_page
  with_room-Placed s p q small = elim (Bool-cases (leb page_size s.offset)) [
    | inl e ↦
        let full : page_size ≤ s.offset = ground arith in
        subst (λ (s' : Cursor). Placed p s' × (s'.offset < page_size)) (sym (if_true _ _ e))
          (
            record {
              in_page = omega arith;
              in_row = omega (arith, q.in_row, q.place, q.in_page);
              place = omega (arith, q.in_row, q.place, q.in_page);
              aligned = omega (arith, q.in_row, q.aligned);
            },
            omega arith,
          )
    | inr e ↦
        subst (λ (s' : Cursor). Placed p s' × (s'.offset < page_size)) (sym (if_false _ _ e))
          (q, ground arith)
  ]

  with_room-offset : (s : Cursor) → s.offset % 8 ≡ 0 → (with_room root s).offset % 8 ≡ 0
  unfolding with_room next_page
  with_room-offset s eight = elim (Bool-cases (leb page_size s.offset)) [
    | inl e ↦ subst (λ (s' : Cursor). s'.offset % 8 ≡ 0) (sym (if_true _ _ e)) refl
    | inr e ↦ subst (λ (s' : Cursor). s'.offset % 8 ≡ 0) (sym (if_false _ _ e)) eight
  ]

  put_char-Placed :
      (s : Cursor) (p c : ℕ)
      → Placed p s
      → p + 2 * page_size < 2 ^ 64
      → Placed (p + 1) (put_char root c s)
  unfolding put_char
  put_char-Placed s p c q small =
      let (r, room) = with_room-Placed s p q small in
      record {
        in_page = omega (arith, room);
        in_row = r.in_row;
        place = omega (arith, r.place);
        aligned = r.aligned;
      }

  put_string-Placed :
      (string : List ℕ) (s : Cursor) (p : ℕ)
      → Placed p s
      → p + length string + 1 + 2 * page_size < 2 ^ 64
      → Placed (p + length string + 1) (put_string root string s)
  unfolding put_string
  put_string-Placed [] s p q small =
      subst (λ x. Placed x (put_char root 0 s)) (omega arith)
        (put_char-Placed s p 0 q (omega arith))
  put_string-Placed (c ∷ cs) s p q small =
      let e : p + 1 + length cs + 1 ≡ p + length (c ∷ cs) + 1 = omega arith in
      subst (λ x. Placed x (put_string root (c ∷ cs) s)) e
        (put_string-Placed cs (put_char root c s) (p + 1) (put_char-Placed s p c q (omega arith))
          (omega arith))

pub end_of-le : (a : ℕ) (strings : List (List ℕ)) → a ≤ end_of a strings
end_of-le a [] = omega arith
end_of-le a (string ∷ strings) = omega (arith, end_of-le (a + length string + 1) strings)

module _ (root : ℕ) where
  put_strings-Placed :
      (strings : List (List ℕ)) (s : Cursor) (p : ℕ)
      → Placed p s
      → end_of p strings + 2 * page_size < 2 ^ 64
      → ((put_strings root strings s).0 ≡ begin_at p strings)
        × Placed (end_of p strings) (put_strings root strings s).1
  unfolding put_strings
  put_strings-Placed [] s p q small = (refl, q)
  put_strings-Placed (string ∷ strings) s p q small =
      let le = end_of-le (p + length string + 1) strings in
      let here : add64 s.virt_addr s.offset ≡ p = omega (arith, q.place) in
      let (places, r) =
        put_strings-Placed strings (put_string root string s) (p + length string + 1)
          (put_string-Placed root string s p q (omega (arith, le))) small in
      (ap₂ (λ x xs. x ∷ xs) here places, r)

  put_pointers-Placed :
      (pointers : List ℕ) (s : Cursor) (p : ℕ)
      → Placed p s
      → s.offset % 8 ≡ 0
      → p + 8 * length pointers + 2 * page_size < 2 ^ 64
      → Placed (p + 8 * length pointers) (put_pointers root pointers s)
  unfolding put_pointers
  put_pointers-Placed [] s p q eight small = subst (λ x. Placed x s) (omega arith) q
  put_pointers-Placed (a ∷ rest) s p q eight small =
      let (r, room) = with_room-Placed root s p q (omega arith) in
      let up = with_room-offset root s eight in
      let s' = with_room root s in
      let e : p + 8 + 8 * length rest ≡ p + 8 * length (a ∷ rest) = omega arith in
      subst (λ x. Placed x (put_pointers root (a ∷ rest) s)) e
        (put_pointers-Placed rest
          (record s' {
            offset = s'.offset + 8;
            memory = store s'.memory (add64 s'.physical s'.offset) a;
          })
          (p + 8)
          (record {
            in_page = omega (arith, room, up);
            in_row = r.in_row;
            place = omega (arith, r.place);
            aligned = r.aligned;
          })
          (omega (arith, up)) (omega arith))

first_page-Placed :
    (root : ℕ) (s : Cursor)
    → s.last % page_size ≡ 0
    → s.last + 2 * page_size < 2 ^ 64
    → Placed s.last (next_page root s)
unfolding next_page
first_page-Placed root s whole small = record {
  in_page = omega arith;
  in_row = omega arith;
  place = omega arith;
  aligned = omega (arith, whole);
}

round_up-Placed : (p : ℕ) (s : Cursor) → Placed p s → Placed ((p + 7) / 8 * 8) (round_up s)
unfolding round_up
round_up-Placed p s q = record {
  in_page = omega (arith, q.in_page);
  in_row = q.in_row;
  place = omega (arith, q.place, q.aligned);
  aligned = q.aligned;
}

round_up-offset : (s : Cursor) → (round_up s).offset % 8 ≡ 0
unfolding round_up
round_up-offset s = omega arith

pub length-begin_at :
    (a : ℕ) (strings : List (List ℕ)) → length (begin_at a strings) ≡ length strings
length-begin_at a [] = refl
length-begin_at a (string ∷ strings) = ap suc (length-begin_at (a + length string + 1) strings)

-- The strings stand from `last` on, and the pointers to them behind them.
pub record LaidOut (last : ℕ) (args : List (List ℕ)) (a : Arguments) : Type 0 where
  pub places : a.places ≡ begin_at last args
  pub first : a.first ≡ (end_of last args + 7) / 8 * 8
  pub rest : a.cursor.virt_addr + a.cursor.offset ≡ a.first + 8 * length args

-- The strings of the arguments stand one behind the other from a page's address on, and the pointers
-- to them behind these from the next multiple of eight on, however many pages they take, where no
-- address wraps around: `args_new` has the strings' addresses and `first` that of the pointers.
pub put_arguments-LaidOut :
    (root last : ℕ) (args : List (List ℕ)) (m : Memory)
    → last % page_size ≡ 0
    → end_of last args + 8 + 8 * length args + 2 * page_size < 2 ^ 64
    → LaidOut last args (put_arguments root args last m)
unfolding put_arguments
put_arguments-LaidOut root last args m whole small =
    let start : Cursor = record {
      offset = 0;
      physical = 0;
      virt_addr = 0;
      last = last;
      memory = m;
    } in
    let le = end_of-le last args in
    let page = first_page-Placed root start whole (omega (arith, le)) in
    let (places, q) = put_strings-Placed root args (next_page root start) last page (omega arith) in
    let s = (put_strings root args (next_page root start)).1 in
    let r = round_up-Placed (end_of last args) s q in
    let pointers = (put_strings root args (next_page root start)).0 in
    let many : length pointers ≡ length args = ap length places ∙ length-begin_at last args in
    let first : add64 (round_up s).virt_addr (round_up s).offset ≡ (end_of last args + 7) / 8 * 8 =
      omega (arith, r.place) in
    let z =
      put_pointers-Placed root pointers (round_up s) ((end_of last args + 7) / 8 * 8) r
        (round_up-offset s) (omega (arith, many)) in
    record { places = places; first = first; rest = omega (arith, z.place, first, many) }
