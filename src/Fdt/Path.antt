-- ===== src/Fdt/Path.antt =====
-- `fdt_path` of kernel/src/fdt.c.
pub mod Places
pub mod Walks
use ilo_pali.Prelude.{
  ℕ, zero, suc, ◌+◌, ◌-◌, ◌%◌, ◌^◌, ◌≤◌, ◌<◌, ◌≡◌, ◌∙◌, ap, sym, refl, Bool, true, false, ◌&&◌, not,
  Option, none, some, List, ◌∷◌, ltb, ◌==◌, if◌then◌else◌, arith, subst, ◌⊎◌, Bool-cases, if_true,
  if_false, inl, inr,
}
use ilo_pali.Bytes.{Region}
use ilo_pali.Fdt.{
  Fdt, cell, aligned, behind_name, behind_property, start_at, Turn, out_of_rounds, found, to,
  search, switch, fdt_begin_node, fdt_end_node, fdt_end,
}
use ilo_pali.Fdt.Names.{StringAt, ends, goes_on, behind_name_lem}
use ilo_pali.Fdt.Keys.{SameString, both_end, same_byte}
use ilo_pali.Fdt.Find.{Block, block_end, begin_node, end_node, property, nop}
use ilo_pali.Fdt.Turns.{
  Mem, here, there, switch-begin_node, switch-end_node, switch-prop, switch-nop, search-end,
  search-turn, after, is_token,
}

-- Where the comparison of the name at `c` with the path at `path` stops.
unfoldable pub compare_path : ℕ → Region → ℕ → ℕ → Option (ℕ × ℕ)
compare_path zero m c path = none
compare_path (suc limit) m c path =
    let rest = compare_path limit m (c + 1) (path + 1) in
    if not (m c == 0) && not (m path == 0) && not (m path == b'/')
    then (if m c == m path then rest else some (c, path))
    else some (c, path)

pub record Walk : Type 0 where
  pub path : ℕ
  pub last : ℕ
  pub depth : ℕ
  pub intended_depth : ℕ

-- into a node whose name ends at `q`
abbrev pub enter : Walk → Bool → ℕ → ℕ → Walk
enter w component rest q = record {
  path = if component then rest + 1 else w.path;
  last = q;
  depth = (w.depth + 1) % 2 ^ 64;
  intended_depth = if component then (w.intended_depth + 1) % 2 ^ 64 else w.intended_depth;
}

-- `none` is NULL.
abbrev pub at_component : ℕ → Region → Walk → Option (ℕ × ℕ) → Turn Walk (Option ℕ)
at_component limit m w none = out_of_rounds
at_component limit m w (some (c, rest)) =
    if (m c == 0) && (m rest == 0) then found (some w.last) else elim (behind_name limit m c) [
      | none ↦ out_of_rounds
      | some q ↦ to (enter w ((m c == 0) && (m rest == b'/')) rest q)
    ]

abbrev pub leave : Walk → Turn Walk (Option ℕ)
leave w =
    let depth = (w.depth + 2 ^ 64 - 1) % 2 ^ 64 in
    if ltb depth w.intended_depth
    then found none
    else to (record w { last = w.last + 4; depth = depth })

abbrev pub path_turn : ℕ → Region → Walk → Turn Walk (Option ℕ)
path_turn limit m w =
    switch (cell m w.last) (at_component limit m w (compare_path limit m (w.last + 4) w.path))
      (leave w) (to (record w { last = behind_property m w.last }))
      (to (record w { last = w.last + 4 })) (to w)

-- the first place of a walk: the start of the block for a path from the root
abbrev pub first_walk : ℕ → Region → Fdt → ℕ → Option ℕ → Option Walk
first_walk limit m fdt path last =
    let from_root : Bool = elim last [ none ↦ true | some p ↦ m path == b'/' ] in
    elim (start_at limit m fdt (if from_root then none else last)) [
      | none ↦ none
      | some start ↦ some (record {
        path = if m path == b'/' then path + 1 else path;
        last = start;
        depth = 1;
        intended_depth = 1;
      })
    ]

abbrev pub result : Option (Option (Option ℕ)) → Option (Option ℕ)
result none = none
result (some none) = some none
result (some (some r)) = some r

unfoldable pub fdt_path : ℕ → ℕ → Region → Fdt → ℕ → Option ℕ → Option (Option ℕ)
unfolding start_at search compare_path
fdt_path turns limit m fdt path last = elim (first_walk limit m fdt path last) [
  | none ↦ none
  | some w ↦ result (search m (λ w. w.last) (path_turn limit m) turns w)
]
