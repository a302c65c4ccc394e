-- ===== src/Fdt/Path/Walks.antt =====
-- `fdt_path` of kernel/src/fdt.c comes to an end, and what it can find.
use ilo_pali.Prelude.{
  ℕ, zero, suc, ◌+◌, ◌-◌, ◌%◌, ◌^◌, ◌<◌, ◌≡◌, ◌∙◌, ap, sym, refl, Bool, true, false, ◌&&◌, Option,
  none, some, List, ◌∷◌, ltb, ◌==◌, if◌then◌else◌, arith, subst, ◌⊎◌, Bool-cases, if_true, if_false,
  inl, inr,
}
use ilo_pali.Bytes.{Region}
use ilo_pali.Fdt.Path.{Walk, enter, at_component, path_turn, first_walk, result, fdt_path}
use ilo_pali.Fdt.{
  Fdt, cell, aligned, behind_name, behind_property, start_at, Turn, out_of_rounds, to, search,
  fdt_begin_node, fdt_end_node, fdt_end,
}
use ilo_pali.Fdt.Names.{StringAt, behind_name_lem}
use ilo_pali.Fdt.Keys.{SameString}
use ilo_pali.Fdt.Find.{Block, block_end, begin_node, end_node, property, nop}
use ilo_pali.Fdt.Turns.{
  Mem, here, there, switch-begin_node, switch-end_node, switch-prop, switch-nop, search-end,
  search-turn, after, is_token,
}
use ilo_pali.Fdt.Path.Places.{Within, Within-self, Within-trans, Within-behind, compare_path_lem}

-- What a walk can come to: NULL, or a node with the name at the end of the path.
pub data Ends (m : Region) (ps : List ℕ) (path : ℕ) : Option ℕ → Type 0 where
  no_node : Ends m ps path none
  a_node : (q t : ℕ) → Mem q ps → Within m path t → SameString m (q + 4) t → Ends m ps path (some q)

earlier_end :
    {m : Region} {ps : List ℕ} {path path' : ℕ} {r : Option ℕ}
    → Within m path path'
    → Ends m ps path' r
    → Ends m ps path r
earlier_end v no_node = no_node
earlier_end {m = m} {path = path} {path' = path'} v (a_node q t at up s) =
    a_node q t at (Within-trans m path path' t v up) s

later_end :
    {m : Region} {ps : List ℕ} {path : ℕ} {r : Option ℕ} (p : ℕ)
    → Ends m ps path r
    → Ends m (p ∷ ps) path r
later_end p no_node = no_node
later_end p (a_node q t at up s) = a_node q t (there at) up s

entered :
    (m : Region) (b : Bool) (path p : ℕ)
    → (b ≡ true → Within m path (p + 1))
    → Within m path (if b then p + 1 else path)
entered m true path p behind = behind refl
entered m false path p behind = Within-self m path

-- what is done behind the name of a node
abbrev entering : Walk → Bool → ℕ → Option ℕ → Turn Walk (Option ℕ)
entering w component rest o = elim o [
  | none ↦ out_of_rounds
  | some q ↦ to (enter w component rest q)
]

module _ (m : Region) (limit : ℕ) where
  abbrev walk_from : ℕ → Walk → Option (Option (Option ℕ))
  walk_from turns w = search m (λ w. w.last) (path_turn limit m) turns w

  abbrev Walks : ℕ → Walk → List ℕ → Type 0
  Walks turns w ps = (r : Option ℕ) × (result (walk_from turns w) ≡ some r) × Ends m ps w.path r

  walk-on :
      (turns : ℕ) (w w' : Walk) {x : ℕ} {ps : List ℕ}
      → cell m w.last ≡ x
      → (x == fdt_end) ≡ false
      → path_turn limit m w ≡ to w'
      → Within m w.path w'.path
      → Walks turns w' ps
      → Walks (suc turns) w ps
  walk-on turns w w' {ps = ps} e ne h same (r, run, is) = (
    r,
    ap result (search-turn m (λ w. w.last) (path_turn limit m) turns w e ne h) ∙ run,
    earlier_end same is,
  )

  walk-end_node :
      (turns : ℕ) (w : Walk) {ps : List ℕ}
      → cell m w.last ≡ fdt_end_node
      → ((d : ℕ) → Walks turns (record w { last = w.last + 4; depth = d }) ps)
      → Walks (suc turns) w ps
  walk-end_node turns w e go =
      let d = (w.depth + 2 ^ 64 - 1) % 2 ^ 64 in
      elim (Bool-cases (ltb d w.intended_depth)) [
        | inl out ↦ (
          none,
          ap result (
              search-turn m (λ w. w.last) (path_turn limit m) turns w e refl
                (switch-end_node _ _ _ _ _ e ∙ if_true _ _ out)),
          no_node,
        )
        | inr inside ↦
            walk-on turns w (record w { last = w.last + 4; depth = d }) e refl
              (switch-end_node _ _ _ _ _ e ∙ if_false _ _ inside) (Within-self m w.path) (go d)
      ]

  walk-begin_node :
      (turns : ℕ) (w : Walk) {n : ℕ} {ps : List ℕ}
      → cell m w.last ≡ fdt_begin_node
      → StringAt m (w.last + 4) n
      → n < limit
      → ((w' : Walk) → w'.last ≡ aligned (w.last + 4 + n + 1 + 3) → Walks turns w' ps)
      → Walks (suc turns) w (w.last ∷ ps)
  walk-begin_node turns w {n = n} {ps = ps} e s short go =
      let (c, t, run, is) = compare_path_lem m limit w.path s short in
      let turn =
        search-turn m (λ w. w.last) (path_turn limit m) turns w e refl
          (switch-begin_node _ _ _ _ _ e ∙ ap (at_component limit m w) run) in
      elim (Bool-cases ((m c == 0) && (m t == 0))) [
        | inl y ↦ (
          some w.last,
          ap result (turn ∙ ap (after m (λ w. w.last) (path_turn limit m) turns w) (if_true _ _ y)),
          a_node w.last w.path (here ps) (Within-self m w.path)
              (is.whole (ground arith) (ground arith)),
        )
        | inr y ↦
            let w' = enter w ((m c == 0) && (m t == b'/')) t (aligned (w.last + 4 + n + 1 + 3)) in
            let behind : behind_name limit m c ≡ some w'.last =
              behind_name_lem m limit is.string (omega (arith, is.within, short))
              ∙ ap (λ q. some (aligned (q + 1 + 3))) is.total in
            let (r, on, found_there) =
              walk-on turns w w' e refl
                (switch-begin_node _ _ _ _ _ e
                  ∙ ap (at_component limit m w) run
                  ∙ if_false _ _ y
                  ∙ ap (entering w ((m c == 0) && (m t == b'/')) t) behind)
                (entered m ((m c == 0) && (m t == b'/')) w.path t
                  (λ b. Within-behind m w.path t is.further is.no_end (ground arith)))
                (go w' refl) in
            (r, on, later_end w.last found_there)
      ]

  -- Every walk comes to an end.
  walk_lem :
      (turns : ℕ) (w : Walk) {p k : ℕ} {ps : List ℕ}
      → w.last ≡ p
      → Block m limit p k ps
      → k < turns
      → Walks turns w ps
  walk_lem zero w at b lt = absurd (omega arith)
  walk_lem (suc turns) w at (block_end p e) lt = (
    none,
    ap result (search-end m (λ w. w.last) (path_turn limit m) turns w (ap (cell m) at ∙ e)),
    no_node,
  )
  walk_lem (suc turns) w at (end_node p k ps e b) lt =
      walk-end_node turns w (ap (cell m) at ∙ e) (λ d.
        walk_lem turns (record w { last = w.last + 4; depth = d }) (ap (λ q. q + 4) at) b
          (omega arith))
  walk_lem (suc turns) w at (property p k ps e b) lt =
      let e' = ap (cell m) at ∙ e in
      walk-on turns w (record w { last = behind_property m w.last }) e' refl
        (switch-prop _ _ _ _ _ e') (Within-self m w.path)
        (walk_lem turns _ (ap (behind_property m) at) b (omega arith))
  walk_lem (suc turns) w at (nop p k ps e b) lt =
      let e' = ap (cell m) at ∙ e in
      walk-on turns w (record w { last = w.last + 4 }) e' refl (switch-nop _ _ _ _ _ e')
        (Within-self m w.path) (walk_lem turns _ (ap (λ q. q + 4) at) b (omega arith))
  walk_lem (suc turns) w at (begin_node p k n ps e s short b) lt =
      let (r, run, is) =
        walk-begin_node turns w (ap (cell m) at ∙ e) (subst (λ q. StringAt m (q + 4) n) (sym at) s)
          short
          (λ w' at'.
            walk_lem turns w' (at' ∙ ap (λ q. aligned (q + 4 + n + 1 + 3)) at) b (omega arith)) in
      (r, run, subst (λ q. Ends m (q ∷ ps) w.path r) at is)

from_slash : (m : Region) (path : ℕ) → Within m path (if m path == b'/' then path + 1 else path)
from_slash m path =
    entered m (m path == b'/') path path (λ e.
      Within-behind m path path (omega arith) (λ i lo hi. absurd (omega arith)) (ground arith))

-- where a walk from the root starts
abbrev root_walk : Region → Fdt → ℕ → Walk
root_walk m fdt path = record {
  path = if m path == b'/' then path + 1 else path;
  last = fdt.structure_block;
  depth = 1;
  intended_depth = 1;
}

from_start : Region → Fdt → ℕ → Option ℕ → Option Walk
from_start m fdt path o = elim o [
  | none ↦ none
  | some start ↦ some (record (root_walk m fdt path) { last = start })
]

first_walk-root :
    (limit : ℕ) (m : Region) (fdt : Fdt) (path : ℕ) (last : Option ℕ)
    → (last ≡ none) ⊎ (m path ≡ b'/')
    → first_walk limit m fdt path last ≡ some (root_walk m fdt path)
unfolding start_at from_start
first_walk-root limit m fdt path none root = refl
first_walk-root limit m fdt path (some p) (inl e) = absurd (cc)
first_walk-root limit m fdt path (some p) (inr e) =
    ap (λ o. from_start m fdt path (start_at limit m fdt o)) (if_true none (some p) (is_token e))

walk_on : ℕ → ℕ → Region → Option Walk → Option (Option ℕ)
walk_on turns limit m o = elim o [
  | none ↦ none
  | some w ↦ result (search m (λ w. w.last) (path_turn limit m) turns w)
]

-- `fdt_path` on a well-formed structure block of `k` tokens, from the root, comes to an end within
-- `k + 1` turns. It returns NULL or a node of the block whose whole name is the same string as the
-- whole path or as what is behind one of its `/`.
pub fdt_path_lem :
    (turns limit : ℕ) (m : Region) (fdt : Fdt) (path : ℕ) (last : Option ℕ) {k : ℕ} {ps : List ℕ}
    → (last ≡ none) ⊎ (m path ≡ b'/')
    → Block m limit fdt.structure_block k ps
    → k < turns
    → (r : Option ℕ) × (fdt_path turns limit m fdt path last ≡ some r) × Ends m ps path r
unfolding fdt_path walk_on
fdt_path_lem turns limit m fdt path last root b lt =
    let (r, run, is) = walk_lem m limit turns (root_walk m fdt path) refl b lt in
    (
      r,
      ap (walk_on turns limit m) (first_walk-root limit m fdt path last root) ∙ run,
      earlier_end (from_slash m path) is,
    )
