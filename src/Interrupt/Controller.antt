-- ===== src/Interrupt/Controller.antt =====
-- `init_interrupts` of kernel/src/interrupt.c.
use ilo_pali.Prelude.{
  ℕ, zero, suc, ◌+◌, ◌-◌, ◌*◌, ◌/◌, ◌^◌, ◌%◌, ◌≤◌, ◌<◌, ◌≡◌, ◌∙◌, ap, sym, subst, refl, Bool, false,
  ◌&&◌, Option, none, some, List, add64, First, no_first, first_here, first_later, leb, ltb, ◌==◌,
  if◌then◌else◌, arith,
}
use ilo_pali.Bytes.{Region}
use ilo_pali.Mmu.Address.{phys2safe}
use ilo_pali.Fdt.{Fdt, be_to_le, fdt_find, fdt_begin_node, cell}
use ilo_pali.Fdt.Words.{BytesOf, be_to_le_lem}
use ilo_pali.Fdt.Find.{Block, HasName, fdt_find_lem}
use ilo_pali.Fdt.Property.{Answer, fdt_get_property}
use ilo_pali.Fdt.Property.Gets.{Node, property_of, HasKey, fdt_get_property_lem}
use ilo_pali.Interrupt.{context}

abbrev pub max_interrupt : ℕ
max_interrupt = 64

-- `count` words from `a` on
unfoldable pub store_words : ℕ → ℕ → ℕ → (ℕ → ℕ) → ℕ → ℕ
store_words a zero v plic = plic
store_words a (suc count) v plic =
    store_words (add64 a 4) count v (λ b. if a == b then v else plic b)

-- the registers of the controller at `base`
unfoldable pub init_plic : ℕ → ℕ → (ℕ → ℕ) → ℕ → ℕ
init_plic base hartid plic = store_words (add64 base (0x200000 + 0x1000 * context hartid 1)) 1 0 (
    store_words (add64 base (0x2000 + 0x80 * context hartid 1)) (1024 / 4) 0xffffffff
      (store_words (add64 base 4) max_interrupt 0xffffffff plic))

-- `plic_base` and `plic_len`, and what the controller's registers hold
pub record Controller : Type 0 where
  pub plic_base : ℕ
  pub plic_len : ℕ
  pub plic : ℕ → ℕ

-- The data of a property; that of a property that is not there is at NULL.
abbrev pub data_of : Answer → ℕ
data_of none = 0
data_of (some p) = p.data_at

abbrev pub with_reg : Bool → Region → ℕ → (ℕ → ℕ) → Option Answer → Option Controller
with_reg enabled m hartid plic none = none
with_reg enabled m hartid plic (some reg) =
    let base = phys2safe enabled (be_to_le m 64 (data_of reg)) in
    some (record {
      plic_base = base;
      plic_len = be_to_le m 64 (data_of reg + 8);
      plic = init_plic base hartid plic;
    })

-- the property `key` of the node, which is NULL when there is no such node
abbrev pub reg_of : ℕ → ℕ → Region → Fdt → ℕ → Option (Option ℕ) → Option Answer
reg_of turns limit m fdt key none = none
reg_of turns limit m fdt key (some node) = fdt_get_property turns limit m fdt node key

-- `name` and `key` are where the strings "plic" and "reg" stand; `none` is a search that runs out
-- of turns.
unfoldable pub init_interrupts :
    ℕ → ℕ → Bool → Region → ℕ → ℕ → ℕ → Fdt → (ℕ → ℕ) → Option Controller
unfolding fdt_find fdt_get_property be_to_le phys2safe init_plic
init_interrupts turns limit enabled m name key hartid fdt plic =
    with_reg enabled m hartid plic
      (reg_of turns limit m fdt key (fdt_find turns limit m fdt name none))

-- The first number with a property is one.
First-unique : (P : ℕ → Type 0) (xs : List ℕ) (r s : Option ℕ) → First P xs r → First P xs s → r ≡ s
First-unique P _ _ _ no_first no_first = refl
First-unique P _ _ _ (first_here x xs y) (first_here _ _ y') = refl
First-unique P _ _ _ (first_here x xs y) (first_later _ _ s n g) = absurd (n y)
First-unique P _ _ _ (first_later x xs r n f) (first_here _ _ y) = absurd (n y)
First-unique P _ _ _ (first_later x xs r n f) (first_later _ _ s n' g) = First-unique P xs r s f g

-- The words from `a` on hold the value, and what stands at no multiple of four from there is as
-- before, where no address wraps around.
store_words_lem :
    (a count v : ℕ) (plic : ℕ → ℕ) (b : ℕ)
    → a + 4 * count < 2 ^ 64
    → store_words a count v plic b
      ≡ (if leb a b && ltb b (a + 4 * count) && ((b - a) % 4 == 0) then v else plic b)
unfolding store_words
store_words_lem a zero v plic b fits = ground arith
store_words_lem a (suc count) v plic b fits =
    let on : add64 a 4 ≡ a + 4 = omega arith in
    let stored : ℕ → ℕ = λ b. if a == b then v else plic b in
    ap (λ x. store_words x count v stored b) on
    ∙ store_words_lem (a + 4) count v stored b (omega arith)
    ∙ ground arith

store_words-in :
    (a count v : ℕ) (plic : ℕ → ℕ) (i b : ℕ)
    → b ≡ a + 4 * i
    → i < count
    → a + 4 * count < 2 ^ 64
    → store_words a count v plic b ≡ v
store_words-in a count v plic i b e lt fits =
    let multiple : (b - a) % 4 ≡ 0 = omega arith in
    store_words_lem a count v plic b fits ∙ ground arith

store_words-out :
    (a count v : ℕ) (plic : ℕ → ℕ) (b : ℕ)
    → (leb a b && ltb b (a + 4 * count)) ≡ false
    → a + 4 * count < 2 ^ 64
    → store_words a count v plic b ≡ plic b
store_words-out a count v plic b e fits = store_words_lem a count v plic b fits ∙ ground arith

-- What `init_interrupts` leaves of the controller at `base`.
pub record Inited (base hartid : ℕ) (plic : ℕ → ℕ) : Type 0 where
  pub priorities : (i : ℕ) → 1 ≤ i → i ≤ max_interrupt → plic (base + 4 * i) ≡ 0xffffffff
  pub enables :
      (c i : ℕ)
      → context hartid 1 ≤ c
      → c < context hartid 1 + 8
      → i < 32
      → plic (base + 0x2000 + 0x80 * c + 4 * i) ≡ 0xffffffff
  pub threshold : plic (base + 0x200000 + 0x1000 * context hartid 1) ≡ 0

init_plic_lem :
    (base hartid : ℕ) (plic : ℕ → ℕ)
    → hartid < 8000
    → base + 2 ^ 27 ≤ 2 ^ 64
    → Inited base hartid (init_plic base hartid plic)
unfolding init_plic
init_plic_lem base hartid plic small fits =
    let c₁ = context hartid 1 in
    let third : add64 base (0x200000 + 0x1000 * c₁) ≡ base + 0x200000 + 0x1000 * c₁ = omega arith in
    let second : add64 base (0x2000 + 0x80 * c₁) ≡ base + 0x2000 + 0x80 * c₁ = omega arith in
    let first : add64 base 4 ≡ base + 4 = omega arith in
    let known : Inited base hartid (
        store_words (base + 0x200000 + 0x1000 * c₁) 1 0 (
          store_words (base + 0x2000 + 0x80 * c₁) (1024 / 4) 0xffffffff
            (store_words (base + 4) max_interrupt 0xffffffff plic))) =
      record {
        priorities = λ i low high.
            store_words-out _ _ _ _ _ (ground arith) (omega arith)
            ∙ store_words-out _ _ _ _ _ (ground arith) (omega arith)
            ∙ store_words-in (base + 4) max_interrupt 0xffffffff plic (i - 1) _ (omega arith)
                (omega arith) (omega arith);
        enables = λ c i low high lt.
            store_words-out _ _ _ _ _ (ground arith) (omega arith)
            ∙ store_words-in (base + 0x2000 + 0x80 * c₁) (1024 / 4) 0xffffffff _ (32 * (c - c₁) + i)
                _ (omega arith) (omega arith) (omega arith);
        threshold =
            store_words-in (base + 0x200000 + 0x1000 * c₁) 1 0 _ 0 _ (omega arith) (omega arith)
              (omega arith);
      } in
    rw (third, second, first) known

-- Where the structure block is well formed, its first node that is called "plic" is too, and the
-- first property of that with the key "reg" holds two numbers of 64 bits, highest byte first,
-- `init_interrupts` comes to an end within as many turns as there are tokens. The first number,
-- through `phys2safe`, becomes the base and the second one the length. The priorities of the
-- interrupts 1 to 64 are all ones then, and so are the enable bits of this hart's context and of the
-- seven behind it; the threshold of its context is zero. The hart is one of 8000, and the addresses
-- of the controller's registers do not wrap around.
pub init_interrupts_lem :
    (turns limit : ℕ) (enabled : Bool) (m : Region) (name key hartid : ℕ) (fdt : Fdt) (plic : ℕ → ℕ)
    (node p base len : ℕ) {k k' : ℕ} {ps qs : List ℕ}
    → Block m limit fdt.structure_block k ps
    → k < turns
    → First (HasName m name) ps (some node)
    → cell m node ≡ fdt_begin_node
    → Node m limit fdt 0 node k' qs
    → k' < turns
    → k' < 2 ^ 64
    → First (HasKey m limit fdt key) qs (some p)
    → ((j : ℕ) → m j < 256)
    → base < 2 ^ 64
    → len < 2 ^ 64
    → BytesOf 8 base m (p + 12)
    → BytesOf 8 len m (p + 12 + 8)
    → hartid < 8000
    → phys2safe enabled base + 2 ^ 27 ≤ 2 ^ 64
    → (c : Controller) × (init_interrupts turns limit enabled m name key hartid fdt plic ≡ some c)
      × (c.plic_base ≡ phys2safe enabled base)
      × (c.plic_len ≡ len)
      × Inited c.plic_base hartid c.plic
unfolding init_interrupts
init_interrupts_lem turns limit enabled m name key hartid fdt plic node p base len b lt is_node e n
      lt' small is_reg bytes small_base small_len at_base at_len small_hart fits =
    let (r, run, first) = fdt_find_lem turns limit m fdt name b lt in
    let (q, got, first') = fdt_get_property_lem turns limit m fdt (some node) key e n lt' small in
    let same_node : r ≡ some node = First-unique (HasName m name) _ _ _ first is_node in
    let same_reg : q ≡ some p = First-unique (HasKey m limit fdt key) _ _ _ first' is_reg in
    let read_base : be_to_le m 64 (p + 12) ≡ base =
      be_to_le_lem m (p + 12) 8 base bytes (omega arith) small_base at_base in
    let read_len : be_to_le m 64 (p + 12 + 8) ≡ len =
      be_to_le_lem m (p + 12 + 8) 8 len bytes (omega arith) small_len at_len in
    (
      record {
        plic_base = phys2safe enabled (be_to_le m 64 (p + 12));
        plic_len = be_to_le m 64 (p + 12 + 8);
        plic = init_plic (phys2safe enabled (be_to_le m 64 (p + 12))) hartid plic;
      },
      ap (λ o. with_reg enabled m hartid plic (reg_of turns limit m fdt key o))
            (run ∙ ap some same_node)
          ∙ ap (with_reg enabled m hartid plic)
              (got ∙ ap (λ o. some (property_of m fdt o)) same_reg),
      ap (phys2safe enabled) read_base,
      read_len,
      init_plic_lem _ hartid plic small_hart
          (subst (λ x. phys2safe enabled x + 2 ^ 27 ≤ 2 ^ 64) (sym read_base) fits),
    )
