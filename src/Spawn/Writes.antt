-- ===== src/Spawn/Writes.antt =====
-- What the loops of `spawn_task_from_elf` of kernel/src/process.c over the arguments of a task write to
-- one page.
use ilo_pali.Prelude.{
  length, ℕ, ◌+◌, ◌-◌, ◌*◌, ◌/◌, ◌%◌, ◌^◌, ◌≤◌, ◌<◌, ◌≡◌, ◌∙◌, ap, ap₂, sym, subst, Bool, List, [],
  ◌∷◌, leb, ltb, ◌==◌, ◌&&◌, false, if◌then◌else◌, arith, add64, if_false,
}
use ilo_pali.Pages.{page_size}
use ilo_pali.Bytes.{byte_at}
use ilo_pali.Mmu.Address.{safe2phys}
use ilo_pali.Mmu.Table.{store}
use ilo_pali.Mmu.Bytes.{byte_of_memory, store_byte}
use ilo_pali.Mmu.Copying.{byte-store_byte}
use ilo_pali.Spawn.Arguments.{Cursor, with_room, put_char, put_string, put_strings, put_pointers}
use ilo_pali.Spawn.Places.{end_of, end_of-le}

-- The strings one behind the other, each with its zero.
abbrev pub text : List (List ℕ) → ℕ → ℕ
text [] i = 0
text (string ∷ strings) i =
    let rest = text strings (i - (length string + 1)) in
    if leb i (length string) then byte_at string i else rest

-- What is written next goes to the offset `k` of the page at `page`.
pub record At (enabled : Bool) (page k : ℕ) (s : Cursor) : Type 0 where
  pub mode : s.memory.enabled ≡ enabled
  pub at_page : s.physical ≡ page
  pub at_offset : s.offset ≡ k

-- `f` with the bytes `g` from `from` to `to`
abbrev pub over : (ℕ → ℕ) → ℕ → ℕ → (ℕ → ℕ) → ℕ → ℕ
over g from to f y = if leb from y && ltb y to then g (y - from) else f y

-- one part behind another
over_join :
    (g h f f₁ : ℕ → ℕ) (from mid to y : ℕ)
    → from ≤ mid
    → mid ≤ to
    → f₁ y ≡ over g from mid f y
    → (mid ≤ y → h (y - mid) ≡ g (y - from))
    → over h mid to f₁ y ≡ over g from to f y
over_join g h f f₁ from mid to y low high first second = ground (arith, first, second)

last_char : (f : ℕ → ℕ) (x y : ℕ) → (if x == y then 0 else f y) ≡ over (λ i. 0) x (x + 0 + 1) f y
last_char f x y = ground arith

first_char :
    (c : ℕ) (cs : List ℕ) (f : ℕ → ℕ) (x y : ℕ)
    → (if x == y then c % 256 else f y) ≡ over (λ i. byte_at (c ∷ cs) i % 256) x (x + 1) f y
first_char c cs f x y = ground arith

later_char :
    (c : ℕ) (cs : List ℕ) (x y : ℕ)
    → x + 1 ≤ y
    → byte_at cs (y - (x + 1)) % 256 ≡ byte_at (c ∷ cs) (y - x) % 256
later_char c cs x y le =
    let on : y - (x + 1) ≡ y - x - 1 = omega arith in
    let other : (y - x == 0) ≡ false = ground arith in
    ap (λ i. byte_at cs i % 256) on
    ∙ ap (λ v. v % 256) (sym (if_false c (byte_at cs (y - x - 1)) other))

first_string :
    (string : List ℕ) (strings : List (List ℕ)) (f : ℕ → ℕ) (a k y : ℕ)
    → over (λ i. byte_at string i % 256) (a + k) (a + (k + length string + 1)) f y
      ≡ over (λ i. text (string ∷ strings) i % 256) (a + k) (a + (k + length string + 1)) f y
first_string string strings f a k y = ground arith

later_string :
    (string : List ℕ) (strings : List (List ℕ)) (a k y : ℕ)
    → a + (k + length string + 1) ≤ y
    → text strings (y - (a + (k + length string + 1))) % 256
      ≡ text (string ∷ strings) (y - (a + k)) % 256
later_string string strings a k y le =
    let on : y - (a + (k + length string + 1)) ≡ y - (a + k) - (length string + 1) = omega arith in
    let other : leb (y - (a + k)) (length string) ≡ false = ground arith in
    ap (λ i. text strings i % 256) on
    ∙ ap (λ v. v % 256)
        (sym (
          if_false (byte_at string (y - (a + k))) (text strings (y - (a + k) - (length string + 1)))
            other))

-- `f` with the words of a list from `from` on
abbrev pub pointers_over : List ℕ → ℕ → (ℕ → ℕ) → ℕ → ℕ
pointers_over ps from f x =
    if leb from x && ltb x (from + 8 * length ps) && ((x - from) % 8 == 0)
    then byte_at ps ((x - from) / 8)
    else f x

pointers_join :
    (p : ℕ) (ps : List ℕ) (f f₁ : ℕ → ℕ) (from x : ℕ)
    → f₁ x ≡ (if from == x then p else f x)
    → pointers_over ps (from + 8) f₁ x ≡ pointers_over (p ∷ ps) from f x
pointers_join p ps f f₁ from x e =
    let on : (x - (from + 8)) / 8 ≡ (x - from) / 8 - 1 = omega arith in
    ground (arith, e, ap (byte_at ps) on)

module _ (root : ℕ) (enabled : Bool) (page a : ℕ)
    (run : (j : ℕ) → j < page_size → safe2phys enabled (page + j) ≡ a + j)
    (fits : page + page_size < 2 ^ 64) where
  abbrev bytes : Cursor → ℕ → ℕ
  bytes s y = byte_of_memory s.memory y

  to_page :
      (s : Cursor) (k : ℕ)
      → At enabled page k s
      → k < page_size
      → safe2phys s.memory.enabled (add64 s.physical s.offset) ≡ a + k
  to_page s k h lt =
      let place : add64 s.physical s.offset ≡ page + k = omega (arith, h.at_page, h.at_offset) in
      ap₂ safe2phys h.mode place ∙ run k lt

  room : (s : Cursor) (k : ℕ) → At enabled page k s → k < page_size → with_room root s ≡ s
  unfolding with_room
  room s k h lt =
      let some_left : leb page_size s.offset ≡ false = (let o = h.at_offset in ground arith) in
      if_false _ _ some_left

  put_char-stores :
      (s : Cursor) (k c : ℕ)
      → At enabled page k s
      → k < page_size
      → At enabled page (k + 1) (put_char root c s)
        × ((y : ℕ) → bytes (put_char root c s) y ≡ (if a + k == y then c % 256 else bytes s y))
  unfolding put_char store_byte
  put_char-stores s k c h lt =
      let put : Cursor → Cursor = λ s'. record s' {
        offset = s'.offset + 1;
        memory = store_byte s'.memory (add64 s'.physical s'.offset) c;
      } in
      subst
        (λ s'.
          At enabled page (k + 1) (put s')
          × ((y : ℕ) → bytes (put s') y ≡ (if a + k == y then c % 256 else bytes s y)))
        (sym (room s k h lt))
        (
          record { mode = h.mode; at_page = h.at_page; at_offset = omega (arith, h.at_offset) },
          λ y.
              byte-store_byte s.memory (add64 s.physical s.offset) c y
              ∙ ap (λ q. if q == y then c % 256 else bytes s y) (to_page s k h lt),
        )

  put_string-stores :
      (string : List ℕ) (s : Cursor) (k : ℕ)
      → At enabled page k s
      → k + length string + 1 ≤ page_size
      → At enabled page (k + length string + 1) (put_string root string s)
        × ((y : ℕ)
            → bytes (put_string root string s) y
              ≡ over (λ i. byte_at string i % 256) (a + k) (a + k + length string + 1) (bytes s) y)
  unfolding put_string
  put_string-stores [] s k h le =
      let (at, stored) = put_char-stores s k 0 h (omega arith) in
      let e : k + 1 ≡ k + 0 + 1 = omega arith in
      (
        subst (λ x. At enabled page x (put_char root 0 s)) e at,
        λ y. stored y ∙ last_char (bytes s) (a + k) y,
      )
  put_string-stores (c ∷ cs) s k h le =
      let (at, stored) = put_char-stores s k c h (omega arith) in
      let (at', rest) = put_string-stores cs (put_char root c s) (k + 1) at (omega arith) in
      let e : k + 1 + length cs + 1 ≡ k + length (c ∷ cs) + 1 = omega arith in
      let up : a + (k + 1) + length cs + 1 ≡ a + k + length (c ∷ cs) + 1 = omega arith in
      let on : a + (k + 1) ≡ a + k + 1 = omega arith in
      (
        subst (λ x. At enabled page x (put_string root (c ∷ cs) s)) e at',
        λ y.
            rest y
            ∙ ap₂ (λ x z. over (λ i. byte_at cs i % 256) x z (bytes (put_char root c s)) y) on up
            ∙ over_join (λ i. byte_at (c ∷ cs) i % 256) (λ i. byte_at cs i % 256) (bytes s)
                (bytes (put_char root c s)) (a + k) (a + k + 1) (a + k + length (c ∷ cs) + 1) y
                (omega arith) (omega arith) (stored y ∙ first_char c cs (bytes s) (a + k) y)
                (λ le. later_char c cs (a + k) y le),
      )

  pub put_strings-stores :
      (strings : List (List ℕ)) (s : Cursor) (k : ℕ)
      → At enabled page k s
      → end_of k strings ≤ page_size
      → At enabled page (end_of k strings) (put_strings root strings s).1
        × ((y : ℕ)
            → bytes (put_strings root strings s).1 y
              ≡ over (λ i. text strings i % 256) (a + k) (a + end_of k strings) (bytes s) y)
  unfolding put_strings
  put_strings-stores [] s k h le = (h, λ y. ground arith)
  put_strings-stores (string ∷ strings) s k h le =
      let mid = k + length string + 1 in
      let long = end_of-le mid strings in
      let (at, stored) = put_string-stores string s k h (omega (arith, long)) in
      let s' = put_string root string s in
      let (at', rest) = put_strings-stores strings s' mid at le in
      let here : a + k + length string + 1 ≡ a + mid = omega arith in
      (
        at',
        λ y.
            rest y
            ∙ over_join (λ i. text (string ∷ strings) i % 256) (λ i. text strings i % 256) (bytes s)
                (bytes s') (a + k) (a + mid) (a + end_of mid strings) y (omega arith)
                (omega (arith, long))
                (stored y
                  ∙ ap (λ x. over (λ i. byte_at string i % 256) (a + k) x (bytes s) y) here
                  ∙ first_string string strings (bytes s) a k y)
                (later_string string strings a k y),
      )

  pub put_pointers-stores :
      (pointers : List ℕ) (s : Cursor) (k : ℕ)
      → At enabled page k s
      → k % 8 ≡ 0
      → k + 8 * length pointers ≤ page_size
      → (x : ℕ)
      → (put_pointers root pointers s).memory.words x
        ≡ pointers_over pointers (a + k) s.memory.words x
  unfolding put_pointers
  put_pointers-stores [] s k h eight le x = ground arith
  put_pointers-stores (p ∷ ps) s k h eight le x =
      let put : Cursor → Cursor = λ s'. record s' {
        offset = s'.offset + 8;
        memory = store s'.memory (add64 s'.physical s'.offset) p;
      } in
      let rest =
        put_pointers-stores ps (put s) (k + 8)
          (record { mode = h.mode; at_page = h.at_page; at_offset = omega (arith, h.at_offset) })
          (omega arith) (omega arith) x in
      let on : a + (k + 8) ≡ a + k + 8 = omega arith in
      ap (λ s'. (put_pointers root ps (put s')).memory.words x) (room s k h (omega arith))
      ∙ rest
      ∙ ap (λ z. pointers_over ps z (put s).memory.words x) on
      ∙ pointers_join p ps s.memory.words (put s).memory.words (a + k) x
          (ap (λ q. if q == x then p else s.memory.words x) (to_page s k h (omega arith)))
