-- ===== src/Fdt/Property.antt =====
-- `fdt_get_property` of kernel/src/fdt.c.
pub mod Gets
use ilo_pali.Prelude.{
  ℕ, zero, suc, ◌+◌, ◌-◌, ◌%◌, ◌^◌, ◌<◌, ◌≡◌, ◌∙◌, ap, refl, false, Option, none, some, List, [],
  ◌∷◌, ◌==◌, if◌then◌else◌, arith, if_true, if_false,
}
use ilo_pali.Bytes.{Region, from}
use ilo_pali.Strings.{Comparison, less, equal, greater, strcmp}
use ilo_pali.Fdt.{
  Fdt, cell, aligned, skip_string, behind_name, behind_property, Turn, out_of_rounds, found, to,
  turn_to, search, switch, fdt_begin_node, fdt_end_node, fdt_prop, fdt_nop, fdt_end,
}
use ilo_pali.Fdt.Names.{StringAt, behind_name_lem}
use ilo_pali.Fdt.Keys.{SameString, Decides, same, other_less, other_greater, strcmp-Decides}

-- `struct fdt_property`; the pointers are addresses.
pub record FdtProperty : Type 0 where
  pub len : ℕ
  pub key : ℕ
  pub data_at : ℕ

-- the key of the property at `node`
abbrev pub key_of : Region → Fdt → ℕ → ℕ
key_of m fdt node = fdt.strings_block + cell m (node + 8)

abbrev pub property_at : Region → Fdt → ℕ → FdtProperty
property_at m fdt node = record {
  len = cell m (node + 4);
  key = key_of m fdt node;
  data_at = node + 12;
}

-- the depth, and the token
pub record State : Type 0 where
  pub depth : ℕ
  pub node : ℕ

-- `none` is the structure of zeros.
abbrev pub Answer : Type 0
Answer = Option FdtProperty

abbrev pub enter_node : ℕ → Option ℕ → Option State
enter_node depth none = none
enter_node depth (some q) = some (record { depth = (depth + 1) % 2 ^ 64; node = q })

abbrev pub leave_node : State → Turn State Answer
leave_node s =
    let depth = (s.depth + 2 ^ 64 - 1) % 2 ^ 64 in
    if depth == 0 then found none else to (record { depth = depth; node = s.node + 4 })

abbrev pub compare_key : Region → Fdt → State → Option Comparison → Turn State Answer
compare_key m fdt s none = out_of_rounds
compare_key m fdt s (some equal) = found (some (property_at m fdt s.node))
compare_key m fdt s (some less) = to (record s { node = behind_property m s.node })
compare_key m fdt s (some greater) = to (record s { node = behind_property m s.node })

abbrev pub property_turn : ℕ → Region → Fdt → ℕ → State → Turn State Answer
property_turn limit m fdt key s =
    switch (cell m s.node) (turn_to (enter_node s.depth (behind_name limit m (s.node + 4))))
      (leave_node s)
      (if s.depth == 1
        then compare_key m fdt s (strcmp limit (from m (key_of m fdt s.node)) (from m key))
        else to (record s { node = behind_property m s.node }))
      (to (record s { node = s.node + 4 })) (to s)

-- the token of the node, by default the first one
abbrev pub node_or_first : Fdt → Option ℕ → ℕ
node_or_first fdt none = fdt.structure_block
node_or_first fdt (some node) = node

abbrev pub answer : Option (Option Answer) → Option Answer
answer none = none
answer (some none) = some none
answer (some (some a)) = some a

unfoldable pub fdt_get_property : ℕ → ℕ → Region → Fdt → Option ℕ → ℕ → Option Answer
unfolding cell search skip_string strcmp
fdt_get_property turns limit m fdt at_node key =
    let p = node_or_first fdt at_node in
    if cell m p == fdt_begin_node
    then answer (
        search m (λ s. s.node) (property_turn limit m fdt key) turns
          (record { depth = 0; node = p }))
    else some none
