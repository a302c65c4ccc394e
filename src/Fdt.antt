-- ===== src/Fdt.antt =====
-- kernel/src/fdt.c and fdt.h: the flat device tree in memory. `m a` is the byte at the address `a`.
-- A search takes a bound on its turns and one, `limit`, on the rounds of the loops inside a turn;
-- its result is `none` when one of them runs out, and NULL is the inner `none`.
pub mod Words
pub mod Names
pub mod Turns
pub mod Find
pub mod Keys
pub mod Property
pub mod NodeAddress
pub mod Path
pub mod Dump
mod Tests
use Prim.Native.Nat.{bit_or}
use ilo_pali.Prelude.{
  ℕ, zero, suc, ◌+◌, ◌-◌, ◌*◌, ◌/◌, ◌%◌, ◌^◌, Bool, true, false, ◌&&◌, ◌||◌, not, Option, none,
  some, ltb, leb, ◌==◌, if◌then◌else◌,
}
use ilo_pali.Bytes.{Region, from}
use ilo_pali.Strings.{Comparison, equal, strcmp}
use ilo_pali.Mmu.Address.{phys2safe}

-- the bytes from byte `i` on, of which there are `k`
pub be_loop : Region → ℕ → ℕ → ℕ → ℕ → ℕ
be_loop m be i zero result = result
be_loop m be i (suc k) result =
    be_loop m be (i + 1) k (bit_or result (m (be + i) * 2 ^ (k * 8) % 2 ^ 64))

unfoldable pub be_to_le : Region → ℕ → ℕ → ℕ
unfolding be_loop
be_to_le m size be = be_loop m be 0 (size / 8) 0

-- be_to_le(32, p)
unfoldable pub cell : Region → ℕ → ℕ
unfolding be_to_le
cell m p = be_to_le m 32 p

abbrev pub fdt_begin_node : ℕ
fdt_begin_node = 1

abbrev pub fdt_end_node : ℕ
fdt_end_node = 2

abbrev pub fdt_prop : ℕ
fdt_prop = 3

abbrev pub fdt_nop : ℕ
fdt_nop = 4

abbrev pub fdt_end : ℕ
fdt_end = 9

-- `fdt_t`; the pointers are addresses.
pub record Fdt : Type 0 where
  pub header : ℕ
  pub memory_reservation_block : ℕ
  pub structure_block : ℕ
  pub strings_block : ℕ

-- `none` is the structure of zeros.
unfoldable pub verify_fdt : Region → ℕ → Option Fdt
unfolding cell
verify_fdt m fdt =
    if not (fdt == 0) && (cell m fdt == 0xd00dfeed) && (cell m (fdt + 20) == 17)
    then some (record {
      header = fdt;
      memory_reservation_block = fdt + cell m (fdt + 16);
      structure_block = fdt + cell m (fdt + 8);
      strings_block = fdt + cell m (fdt + 12);
    })
    else none

unfoldable pub fdt_phys2safe : Bool → Fdt → Fdt
fdt_phys2safe enabled fdt = record {
  header = phys2safe enabled fdt.header;
  memory_reservation_block = phys2safe enabled fdt.memory_reservation_block;
  structure_block = phys2safe enabled fdt.structure_block;
  strings_block = phys2safe enabled fdt.strings_block;
}

-- `x & ~0x3`
abbrev pub aligned : ℕ → ℕ
aligned x = x / 4 * 4

-- `while (*c++);`: where `c` stands then
pub skip_string : ℕ → Region → ℕ → Option ℕ
skip_string zero m c = none
skip_string (suc limit) m c =
    let rest = skip_string limit m (c + 1) in if m c == 0 then some (c + 1) else rest

-- where a search goes on, and where it starts: behind the node `last`, or at the first node
unfoldable pub start_at : ℕ → Region → Fdt → Option ℕ → Option ℕ
unfolding skip_string
start_at limit m fdt none = some fdt.structure_block
start_at limit m fdt (some last) = elim (skip_string limit m (last + 4)) [
  | none ↦ none
  | some c ↦ some (aligned (c + 4))
]

-- behind the name of a node, from a place in it
abbrev pub behind_name : ℕ → Region → ℕ → Option ℕ
behind_name limit m c = elim (skip_string limit m c) [
  | none ↦ none
  | some c' ↦ some (aligned (c' + 3))
]

-- behind a property
abbrev pub behind_property : Region → ℕ → ℕ
behind_property m last = aligned (last + 12 + cell m (last + 4) + 3)

-- Whether the name at `c` up to an `@` is the string at `name`, and where the comparison stopped.
pub compare_names : ℕ → Region → ℕ → ℕ → Option (Bool × ℕ)
compare_names zero m c name = none
compare_names (suc limit) m c name =
    let rest = compare_names limit m (c + 1) (name + 1) in
    let over = (m c == 0) || (m c == b'@') in
    if over || (m name == 0) || not (m c == m name) then some (over && (m name == 0), c) else rest

-- What a turn of a search comes to: a result, or the state of the next turn.
pub data Turn (S R : Type 0) : Type 0 where
  out_of_rounds : Turn S R
  found : R → Turn S R
  to : S → Turn S R

abbrev pub turn_to : {S R : Type 0} → Option S → Turn S R
turn_to none = out_of_rounds
turn_to (some s) = to s

-- The switch on a token. Of a word that is none the loop does not get off.
abbrev pub switch : {T : Type 0} → ℕ → T → T → T → T → T → T
switch current begin_node end_node prop nop other =
    if current == fdt_begin_node
    then begin_node
    else if current == fdt_end_node
    then end_node
    else if current == fdt_prop
    then prop
    else if current == fdt_nop
    then nop
    else other

-- `while ((current = be_to_le(32, place)) != FDT_END)`, with a bound on the turns
unfoldable pub search :
    {S R : Type 0} → Region → (S → ℕ) → (S → Turn S R) → ℕ → S → Option (Option R)
unfolding cell
search m place turn zero s = none
search m place turn (suc turns) s =
    if cell m (place s) == fdt_end then some none else elim (turn s) [
      | out_of_rounds ↦ none
      | found r ↦ some (some r)
      | to s' ↦ search m place turn turns s'
    ]

abbrev pub at_node : ℕ → Region → ℕ → Option (Bool × ℕ) → Turn ℕ ℕ
at_node limit m last none = out_of_rounds
at_node limit m last (some (equals, c)) =
    if equals then found last else turn_to (behind_name limit m c)

abbrev pub find_turn : ℕ → Region → ℕ → ℕ → Turn ℕ ℕ
find_turn limit m name last =
    switch (cell m last) (at_node limit m last (compare_names limit m (last + 4) name))
      (to (last + 4)) (to (behind_property m last)) (to (last + 4)) (to last)

unfoldable pub fdt_find : ℕ → ℕ → Region → Fdt → ℕ → Option ℕ → Option (Option ℕ)
unfolding start_at search compare_names
fdt_find turns limit m fdt name last = elim (start_at limit m fdt last) [
  | none ↦ none
  | some start ↦ search m (λ p. p) (find_turn limit m name) turns start
]
