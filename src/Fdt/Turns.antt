-- ===== src/Fdt/Turns.antt =====
-- The loop over the tokens of a structure block in kernel/src/fdt.c, turn by turn.
use ilo_pali.Prelude.{
  ℕ, suc, ◌≡◌, ◌≢◌, ◌∙◌, ap, refl, true, false, Option, none, some, List, ◌∷◌, ◌==◌, arith, if_true,
  if_false,
}
use ilo_pali.Bytes.{Region}
use ilo_pali.Fdt.{
  cell, Turn, out_of_rounds, found, to, switch, search, fdt_begin_node, fdt_end_node, fdt_prop,
  fdt_nop, fdt_end,
}

pub data Mem (x : ℕ) : List ℕ → Type 0 where
  here : (xs : List ℕ) → Mem x (x ∷ xs)
  there : {y : ℕ} {xs : List ℕ} → Mem x xs → Mem x (y ∷ xs)

pub is_token : {x y : ℕ} → x ≡ y → (x == y) ≡ true
is_token e = ground arith

pub is_other_token : {x y : ℕ} → x ≢ y → (x == y) ≡ false
is_other_token ne = ground arith

not_token : {x z : ℕ} (y : ℕ) → x ≡ z → (z == y) ≡ false → (x == y) ≡ false
not_token y e h = ground arith

module _ {T : Type 0} {x : ℕ} (begin_node end_node prop nop other : T) where
  pub switch-begin_node :
      x ≡ fdt_begin_node → switch x begin_node end_node prop nop other ≡ begin_node
  switch-begin_node e = if_true _ _ (is_token e)

  pub switch-end_node : x ≡ fdt_end_node → switch x begin_node end_node prop nop other ≡ end_node
  switch-end_node e = if_false _ _ (not_token fdt_begin_node e refl) ∙ if_true _ _ (is_token e)

  pub switch-prop : x ≡ fdt_prop → switch x begin_node end_node prop nop other ≡ prop
  switch-prop e =
      if_false _ _ (not_token fdt_begin_node e refl)
      ∙ if_false _ _ (not_token fdt_end_node e refl)
      ∙ if_true _ _ (is_token e)

  pub switch-nop : x ≡ fdt_nop → switch x begin_node end_node prop nop other ≡ nop
  switch-nop e =
      if_false _ _ (not_token fdt_begin_node e refl)
      ∙ if_false _ _ (not_token fdt_end_node e refl)
      ∙ if_false _ _ (not_token fdt_prop e refl)
      ∙ if_true _ _ (is_token e)

module _ {S R : Type 0} (m : Region) (place : S → ℕ) (turn : S → Turn S R) (turns : ℕ) (s : S) where
  pub search-end : cell m (place s) ≡ fdt_end → search m place turn (suc turns) s ≡ some none
  unfolding search
  search-end e = if_true _ _ (is_token e)

  -- what the loop does behind a turn
  abbrev pub after : Turn S R → Option (Option R)
  after t = elim t [
    | out_of_rounds ↦ none
    | found r ↦ some (some r)
    | to s' ↦ search m place turn turns s'
  ]

  -- The end of the block is no other token.
  pub search-turn :
      {x : ℕ} {t : Turn S R}
      → cell m (place s) ≡ x
      → (x == fdt_end) ≡ false
      → turn s ≡ t
      → search m place turn (suc turns) s ≡ after t
  unfolding search
  search-turn e ne h = if_false _ _ (not_token fdt_end e ne) ∙ ap after h
