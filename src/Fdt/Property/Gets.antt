-- ===== src/Fdt/Property/Gets.antt =====
-- `fdt_get_property` of kernel/src/fdt.c finds the first property of a node with a key.
use ilo_pali.Prelude.{
  First, no_first, first_here, first_later, ℕ, zero, suc, ◌+◌, ◌-◌, ◌%◌, ◌^◌, ◌<◌, ◌≡◌, ◌∙◌, ap,
  refl, false, Option, none, some, List, [], ◌∷◌, ◌==◌, if◌then◌else◌, arith, if_true, if_false,
}
use ilo_pali.Bytes.{Region}
use ilo_pali.Strings.{Comparison}
use ilo_pali.Fdt.Property.{
  key_of, property_at, State, Answer, enter_node, leave_node, compare_key, property_turn,
  node_or_first, answer, fdt_get_property,
}
use ilo_pali.Fdt.{
  Fdt, cell, aligned, behind_property, found, to, turn_to, search, fdt_begin_node, fdt_end_node,
  fdt_prop, fdt_nop, fdt_end,
}
use ilo_pali.Fdt.Names.{StringAt, behind_name_lem}
use ilo_pali.Fdt.Keys.{SameString, Decides, same, other_less, other_greater, strcmp-Decides}
use ilo_pali.Fdt.Turns.{
  switch-begin_node, switch-end_node, switch-prop, switch-nop, search-end, search-turn, is_token,
}

-- The tokens from `p` on, `k` of them before the end of the node or of the block, at a depth; in
-- the list are the properties at depth one, whose keys are shorter than `limit`.
pub data Node (m : Region) (limit : ℕ) (fdt : Fdt) : ℕ → ℕ → ℕ → List ℕ → Type 0 where
  block_end : (d p : ℕ) → cell m p ≡ fdt_end → Node m limit fdt d p 0 []
  node_end : (p : ℕ) → cell m p ≡ fdt_end_node → Node m limit fdt 1 p 0 []
  inner_end :
      (d p k : ℕ) (ps : List ℕ)
      → cell m p ≡ fdt_end_node
      → Node m limit fdt (suc d) (p + 4) k ps
      → Node m limit fdt (suc (suc d)) p (suc k) ps
  begin_node :
      (d p k n : ℕ) (ps : List ℕ)
      → cell m p ≡ fdt_begin_node
      → StringAt m (p + 4) n
      → n < limit
      → Node m limit fdt (suc d) (aligned (p + 4 + n + 1 + 3)) k ps
      → Node m limit fdt d p (suc k) ps
  property :
      (p k n : ℕ) (ps : List ℕ)
      → cell m p ≡ fdt_prop
      → StringAt m (key_of m fdt p) n
      → n < limit
      → Node m limit fdt 1 (behind_property m p) k ps
      → Node m limit fdt 1 p (suc k) (p ∷ ps)
  inner_property :
      (d p k : ℕ) (ps : List ℕ)
      → cell m p ≡ fdt_prop
      → Node m limit fdt (suc (suc d)) (behind_property m p) k ps
      → Node m limit fdt (suc (suc d)) p (suc k) ps
  nop :
      (d p k : ℕ) (ps : List ℕ)
      → cell m p ≡ fdt_nop
      → Node m limit fdt d (p + 4) k ps
      → Node m limit fdt d p (suc k) ps

-- the property at a place, or the structure of zeros
abbrev pub property_of : Region → Fdt → Option ℕ → Answer
property_of m fdt none = none
property_of m fdt (some p) = some (property_at m fdt p)

deeper : (d e : ℕ) → e < d → (d == e) ≡ false
deeper d e lt = ground arith

module _ (m : Region) (limit : ℕ) (fdt : Fdt) (key : ℕ) where
  -- the property at `p` has the key
  abbrev pub HasKey : ℕ → Type 0
  HasKey p = SameString m (key_of m fdt p) key

  abbrev from_state : ℕ → State → Option (Option Answer)
  from_state turns s = search m (λ s. s.node) (property_turn limit m fdt key) turns s

  -- what a search comes to
  abbrev Gets : ℕ → ℕ → ℕ → List ℕ → Type 0
  Gets turns d p ps =
      (r : Option ℕ) × (answer (from_state turns (record { depth = d; node = p }))
        ≡ some (property_of m fdt r))
      × First HasKey ps r

  -- a turn that goes on to another state
  get-on :
      (turns d p : ℕ) {d' q x : ℕ} {ps : List ℕ}
      → cell m p ≡ x
      → (x == fdt_end) ≡ false
      → property_turn limit m fdt key (record { depth = d; node = p })
        ≡ to (record { depth = d'; node = q })
      → Gets turns d' q ps
      → Gets (suc turns) d p ps
  get-on turns d p e ne h (r, run, is) = (
    r,
    ap answer (search-turn m (λ s. s.node) (property_turn limit m fdt key) turns _ e ne h) ∙ run,
    is,
  )

  get-decided :
      (turns p : ℕ) {c : Comparison} {ps : List ℕ}
      → cell m p ≡ fdt_prop
      → Decides m (key_of m fdt p) key c
      → property_turn limit m fdt key (record { depth = 1; node = p })
        ≡ compare_key m fdt (record { depth = 1; node = p }) (some c)
      → Gets turns 1 (behind_property m p) ps
      → Gets (suc turns) 1 p (p ∷ ps)
  get-decided turns p {ps = ps} e (same y) h g = (
    some p,
    ap answer (search-turn m (λ s. s.node) (property_turn limit m fdt key) turns _ e refl h),
    first_here p ps y,
  )
  get-decided turns p {ps = ps} e (other_less y) h g =
      let (r, run, is) = get-on turns 1 p e refl h g in (r, run, first_later p ps r y is)
  get-decided turns p {ps = ps} e (other_greater y) h g =
      let (r, run, is) = get-on turns 1 p e refl h g in (r, run, first_later p ps r y is)

  get-property :
      (turns p : ℕ) {n : ℕ} {ps : List ℕ}
      → cell m p ≡ fdt_prop
      → StringAt m (key_of m fdt p) n
      → n < limit
      → Gets turns 1 (behind_property m p) ps
      → Gets (suc turns) 1 p (p ∷ ps)
  get-property turns p e s short g =
      let (c, run, is) = strcmp-Decides m limit (key_of m fdt p) key s short in
      get-decided turns p e is
        (switch-prop _ _ _ _ _ e ∙ ap (compare_key m fdt (record { depth = 1; node = p })) run) g

  enter-on :
      (turns d p : ℕ) {n : ℕ} {ps : List ℕ}
      → cell m p ≡ fdt_begin_node
      → StringAt m (p + 4) n
      → n < limit
      → d + 1 < 2 ^ 64
      → Gets turns (suc d) (aligned (p + 4 + n + 1 + 3)) ps
      → Gets (suc turns) d p ps
  enter-on turns d p {n = n} e s short small g =
      let depth : (d + 1) % 2 ^ 64 ≡ suc d = omega arith in
      get-on turns d p e refl
        (switch-begin_node _ _ _ _ _ e
          ∙ ap (λ o. turn_to (enter_node d o)) (behind_name_lem m limit s short)
          ∙ ap (λ d'. to (record { depth = d'; node = aligned (p + 4 + n + 1 + 3) })) depth)
        g

  -- Every search comes to an end, at the first property of the node with the key.
  get_lem :
      (turns : ℕ) {d p k : ℕ} {ps : List ℕ}
      → Node m limit fdt d p k ps
      → k < turns
      → d + k < 2 ^ 64
      → Gets turns d p ps
  get_lem zero b lt small = absurd (omega arith)
  get_lem (suc turns) (block_end d p e) lt small = (
    none,
    ap answer (search-end m (λ s. s.node) (property_turn limit m fdt key) turns _ e),
    no_first,
  )
  get_lem (suc turns) (node_end p e) lt small = (
    none,
    ap answer (
        search-turn m (λ s. s.node) (property_turn limit m fdt key) turns _ e refl
          (switch-end_node _ _ _ _ _ e)),
    no_first,
  )
  get_lem (suc turns) (inner_end d p k ps e b) lt small =
      let up : (suc (suc d) + 2 ^ 64 - 1) % 2 ^ 64 ≡ suc d = omega arith in
      let left : leave_node (record { depth = suc (suc d); node = p })
          ≡ to (record { depth = suc d; node = p + 4 }) =
        ap (λ x. if x == 0 then found none else to (record { depth = x; node = p + 4 })) up
        ∙ if_false _ _ (deeper (suc d) 0 (omega arith)) in
      get-on turns (suc (suc d)) p e refl (switch-end_node _ _ _ _ _ e ∙ left)
        (get_lem turns b (omega arith) (omega arith))
  get_lem (suc turns) (begin_node d p k n ps e s short b) lt small =
      enter-on turns d p e s short (omega arith) (get_lem turns b (omega arith) (omega arith))
  get_lem (suc turns) (property p k n ps e s short b) lt small =
      get-property turns p e s short (get_lem turns b (omega arith) (omega arith))
  get_lem (suc turns) (inner_property d p k ps e b) lt small =
      get-on turns (suc (suc d)) p e refl
        (switch-prop _ _ _ _ _ e ∙ if_false _ _ (deeper (suc (suc d)) 1 (omega arith)))
        (get_lem turns b (omega arith) (omega arith))
  get_lem (suc turns) (nop d p k ps e b) lt small =
      get-on turns d p e refl (switch-nop _ _ _ _ _ e) (get_lem turns b (omega arith) (omega arith))

-- `fdt_get_property` on a well-formed node comes to an end within as many turns as the node has
-- tokens. It returns the first of the node's own properties, not of its children's, whose key is
-- the string `key`, and zeros where there is none.
pub fdt_get_property_lem :
    (turns limit : ℕ) (m : Region) (fdt : Fdt) (node : Option ℕ) (key : ℕ) {k : ℕ} {ps : List ℕ}
    → cell m (node_or_first fdt node) ≡ fdt_begin_node
    → Node m limit fdt 0 (node_or_first fdt node) k ps
    → k < turns
    → k < 2 ^ 64
    → (r : Option ℕ) × (fdt_get_property turns limit m fdt node key ≡ some (property_of m fdt r))
      × First (HasKey m limit fdt key) ps r
unfolding fdt_get_property
fdt_get_property_lem turns limit m fdt at_node key e b lt small =
    let (r, run, is) = get_lem m limit fdt key turns b lt (omega arith) in
    (r, if_true _ _ (is_token e) ∙ run, is)
