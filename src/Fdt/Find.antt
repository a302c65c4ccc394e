-- ===== src/Fdt/Find.antt =====
-- `fdt_find` of kernel/src/fdt.c finds the first node of a structure block with a given name.
use ilo_pali.Prelude.{
  First, no_first, first_here, first_later, ℕ, zero, suc, ◌+◌, ◌%◌, ◌/◌, ◌*◌, ◌<◌, ◌≡◌, ◌≢◌, ◌∙◌,
  ap, refl, false, Option, none, some, List, [], ◌∷◌, ◌==◌, if◌then◌else◌, arith, Bool-cases,
  if_true, if_false, inl, inr,
}
use ilo_pali.Bytes.{Region}
use ilo_pali.Fdt.{
  Fdt, cell, aligned, behind_name, behind_property, start_at, search, found, to, turn_to, at_node,
  find_turn, fdt_find, fdt_begin_node, fdt_end_node, fdt_prop, fdt_nop, fdt_end,
}
use ilo_pali.Fdt.Turns.{
  switch-begin_node, switch-end_node, switch-prop, switch-nop, search-end, search-turn, after,
}
use ilo_pali.Fdt.Names.{StringAt, Named, compare_names_lem, skip_string_lem, behind_name_lem}

-- A structure block at `p`: `k` tokens before its end, with its nodes in order. Every name is
-- shorter than `limit`.
pub data Block (m : Region) (limit : ℕ) : ℕ → ℕ → List ℕ → Type 0 where
  block_end : (p : ℕ) → cell m p ≡ fdt_end → Block m limit p 0 []
  begin_node :
      (p k n : ℕ) (ps : List ℕ)
      → cell m p ≡ fdt_begin_node
      → StringAt m (p + 4) n
      → n < limit
      → Block m limit (aligned (p + 4 + n + 1 + 3)) k ps
      → Block m limit p (suc k) (p ∷ ps)
  end_node :
      (p k : ℕ) (ps : List ℕ)
      → cell m p ≡ fdt_end_node
      → Block m limit (p + 4) k ps
      → Block m limit p (suc k) ps
  property :
      (p k : ℕ) (ps : List ℕ)
      → cell m p ≡ fdt_prop
      → Block m limit (behind_property m p) k ps
      → Block m limit p (suc k) ps
  nop :
      (p k : ℕ) (ps : List ℕ)
      → cell m p ≡ fdt_nop
      → Block m limit (p + 4) k ps
      → Block m limit p (suc k) ps

-- the node at `q` has the name
abbrev pub HasName : Region → ℕ → ℕ → Type 0
HasName m name q = Named m (q + 4) name

module _ (m : Region) (limit name : ℕ) where
  -- the search of `fdt_find` from a place on
  abbrev find_from : ℕ → ℕ → Option (Option ℕ)
  find_from turns p = search m (λ q. q) (find_turn limit m name) turns p

  -- what a search comes to
  abbrev Finds : ℕ → ℕ → List ℕ → Type 0
  Finds turns p ps = (r : Option ℕ) × (find_from turns p ≡ some r) × First (HasName m name) ps r

  -- a turn that goes on to `q`
  find-on :
      (turns p : ℕ) {q x : ℕ} {ps : List ℕ}
      → cell m p ≡ x
      → (x == fdt_end) ≡ false
      → find_turn limit m name p ≡ to q
      → Finds turns q ps
      → Finds (suc turns) p ps
  find-on turns p e ne h (r, run, is) =
      (r, search-turn m (λ q. q) (find_turn limit m name) turns p e ne h ∙ run, is)

  find-begin_node :
      (turns : ℕ) {p n : ℕ} {ps : List ℕ}
      → cell m p ≡ fdt_begin_node
      → StringAt m (p + 4) n
      → n < limit
      → Finds turns (aligned (p + 4 + n + 1 + 3)) ps
      → Finds (suc turns) p (p ∷ ps)
  find-begin_node turns {p = p} {n = n} {ps = ps} e s short (r, run', is') =
      let (equals, c, run, is) = compare_names_lem m limit name s short in
      let begins : find_turn limit m name p
          ≡ (if equals then found p else turn_to (behind_name limit m c)) =
        switch-begin_node _ _ _ _ _ e ∙ ap (at_node limit m p) run in
      let turn = search-turn m (λ q. q) (find_turn limit m name) turns p e refl begins in
      let go = after m (λ q. q) (find_turn limit m name) turns p in
      elim (Bool-cases equals) [
        | inl y ↦ (some p, turn ∙ ap go (if_true _ _ y), first_here p ps (is.is_equal y))
        | inr y ↦
            let behind : behind_name limit m c ≡ some (aligned (p + 4 + n + 1 + 3)) =
              behind_name_lem m limit is.string (omega (arith, is.within, short))
              ∙ ap (λ q. some (aligned (q + 1 + 3))) is.total in
            (
              r,
              turn ∙ ap go (if_false _ _ y ∙ ap turn_to behind) ∙ run',
              first_later p ps r (is.is_other y) is',
            )
      ]

  -- Every search comes to an end, at the first node with the name.
  find_from_lem :
      (turns : ℕ) {p k : ℕ} {ps : List ℕ} → Block m limit p k ps → k < turns → Finds turns p ps
  find_from_lem zero b lt = absurd (omega arith)
  find_from_lem (suc turns) (block_end p e) lt =
      (none, search-end m (λ q. q) (find_turn limit m name) turns p e, no_first)
  find_from_lem (suc turns) (end_node p k ps e b) lt =
      find-on turns p e refl (switch-end_node _ _ _ _ _ e) (find_from_lem turns b (omega arith))
  find_from_lem (suc turns) (property p k ps e b) lt =
      find-on turns p e refl (switch-prop _ _ _ _ _ e) (find_from_lem turns b (omega arith))
  find_from_lem (suc turns) (nop p k ps e b) lt =
      find-on turns p e refl (switch-nop _ _ _ _ _ e) (find_from_lem turns b (omega arith))
  find_from_lem (suc turns) (begin_node p k n ps e s short b) lt =
      find-begin_node turns e s short (find_from_lem turns b (omega arith))

-- `fdt_find` with no node to go on from comes to an end on a well-formed structure block of `k`
-- tokens, within `k + 1` turns. Its result is the first node of the block whose name up to an `@` is
-- the string `name`, and NULL where there is none.
pub fdt_find_lem :
    (turns limit : ℕ) (m : Region) (fdt : Fdt) (name : ℕ) {k : ℕ} {ps : List ℕ}
    → Block m limit fdt.structure_block k ps
    → k < turns
    → (r : Option ℕ) × (fdt_find turns limit m fdt name none ≡ some r) × First (HasName m name) ps r
unfolding fdt_find
fdt_find_lem turns limit m fdt name b lt = find_from_lem m limit name turns b lt

-- where a search behind a node starts
pub start_at_lem :
    (limit : ℕ) (m : Region) (fdt : Fdt) (last : ℕ) {n : ℕ}
    → StringAt m (last + 4) n
    → n < limit
    → start_at limit m fdt (some last) ≡ some (aligned (last + 4 + n + 1 + 4))
unfolding start_at
start_at_lem limit m fdt last s short =
    ap (λ (o : Option ℕ). elim o [ none ↦ none | some c ↦ some (aligned (c + 4)) ])
      (skip_string_lem m limit s short)

-- `fdt_find` behind a node `last` whose name, its zero included, does not end at a multiple of four
-- comes to an end on a well-formed rest of a block of `k` tokens, within `k + 1` turns. Its result is the
-- first node of the rest with the name, and NULL where there is none.
pub fdt_find-last :
    (turns limit : ℕ) (m : Region) (fdt : Fdt) (name last : ℕ) {n k : ℕ} {ps : List ℕ}
    → StringAt m (last + 4) n
    → n < limit
    → (last + n + 1) % 4 ≢ 0
    → Block m limit (aligned (last + 4 + n + 1 + 3)) k ps
    → k < turns
    → (r : Option ℕ) × (fdt_find turns limit m fdt name (some last) ≡ some r)
      × First (HasName m name) ps r
unfolding fdt_find
fdt_find-last turns limit m fdt name last {n = n} s short ne b lt =
    let (r, run, is) = find_from_lem m limit name turns b lt in
    let word : (last + 4 + n + 1 + 4) / 4 ≡ (last + 4 + n + 1 + 3) / 4 = omega arith in
    let start = start_at_lem limit m fdt last s short ∙ ap (λ q. some (q * 4)) word in
    (
      r,
      ap (λ (o : Option ℕ). elim o [ none ↦ none | some p ↦ find_from m limit name turns p ]) start
          ∙ run,
      is,
    )
