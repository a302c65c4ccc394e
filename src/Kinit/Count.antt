-- ===== src/Kinit/Count.antt =====
-- The loop of kernel/src/kernel.c that counts the harts by the nodes of the device tree called "cpu".
use ilo_pali.Prelude.{
  First, no_first, first_here, first_later, ℕ, zero, suc, ◌+◌, ◌%◌, ◌<◌, ◌≤◌, ◌≡◌, ◌≢◌, ◌∙◌, ap,
  subst, refl, Option, none, some, List, [], ◌∷◌, arith,
}
use ilo_pali.Bytes.{Region}
use ilo_pali.Fdt.{Fdt, aligned}
use ilo_pali.Fdt.Names.{StringAt, ends, goes_on}
use ilo_pali.Fdt.Find.{
  Block, block_end, begin_node, end_node, property, nop, HasName, fdt_find_lem, fdt_find-last,
}
use ilo_pali.Kinit.{count_cpus, count_found}

StringAt-unique : (m : Region) (c n n' : ℕ) → StringAt m c n → StringAt m c n' → n ≡ n'
StringAt-unique m _ _ _ (ends c e) (ends _ e') = refl
StringAt-unique m _ _ _ (ends c e) (goes_on _ n ne s) = absurd (ne e)
StringAt-unique m _ _ _ (goes_on c n ne s) (ends _ e) = absurd (ne e)
StringAt-unique m _ _ _ (goes_on c n ne s) (goes_on _ n' ne' s') =
    ap suc (StringAt-unique m (c + 1) n n' s s')

-- The number of nodes with the name, of which none ends, its zero included, at a multiple of four.
pub data Cpus (m : Region) (name : ℕ) : List ℕ → ℕ → Type 0 where
  no_nodes : Cpus m name [] 0
  cpu :
      (q n c : ℕ) (qs : List ℕ)
      → HasName m name q
      → StringAt m (q + 4) n
      → (q + n + 1) % 4 ≢ 0
      → Cpus m name qs c
      → Cpus m name (q ∷ qs) (suc c)
  other : (q c : ℕ) (qs : List ℕ) → ¬ HasName m name q → Cpus m name qs c → Cpus m name (q ∷ qs) c

module _ (m : Region) (limit name : ℕ) where
  -- behind a node that was counted, with `c` nodes to come among less than `bound` tokens
  record Behind (q c bound : ℕ) : Type 0 where
    n : ℕ
    string : StringAt m (q + 4) n
    short : n < limit
    unaligned : (q + n + 1) % 4 ≢ 0
    k : ℕ
    qs : List ℕ
    block : Block m limit (aligned (q + 4 + n + 1 + 3)) k qs
    fewer : k < bound
    rest : Cpus m name qs c

  -- A search finds the next one of the nodes that are left, or there is none.
  Next : Option ℕ → ℕ → ℕ → Type 0
  Next none c bound = c ≡ 0
  Next (some q) c bound = (c' : ℕ) × (c ≡ suc c') × Behind q c' bound

  weaker : (r : Option ℕ) (c bound bound' : ℕ) → bound < bound' → Next r c bound → Next r c bound'
  unfolding Next
  weaker none c bound bound' lt e = e
  weaker (some q) c bound bound' lt (c', e, b) = (
    c',
    e,
    record {
      n = b.n;
      string = b.string;
      short = b.short;
      unaligned = b.unaligned;
      k = b.k;
      qs = b.qs;
      block = b.block;
      fewer = omega (arith, b.fewer);
      rest = b.rest;
    },
  )

  next_lem :
      {p k : ℕ} {ps : List ℕ} {r : Option ℕ} {c : ℕ}
      → Block m limit p k ps
      → First (HasName m name) ps r
      → Cpus m name ps c
      → Next r c k
  unfolding Next
  next_lem (block_end p e) no_first no_nodes = refl
  next_lem (end_node p k ps e b) f g = weaker _ _ _ _ (omega arith) (next_lem b f g)
  next_lem (property p k ps e b) f g = weaker _ _ _ _ (omega arith) (next_lem b f g)
  next_lem (nop p k ps e b) f g = weaker _ _ _ _ (omega arith) (next_lem b f g)
  next_lem (begin_node p k n ps e s short b) (first_here _ _ y) (cpu _ n' c _ y' s' ne g) =
      let same : n' ≡ n = StringAt-unique m (p + 4) n' n s' s in
      (
        c,
        refl,
        record {
          n = n;
          string = s;
          short = short;
          unaligned = subst (λ x. (p + x + 1) % 4 ≢ 0) same ne;
          k = k;
          qs = ps;
          block = b;
          fewer = omega arith;
          rest = g;
        },
      )
  next_lem (begin_node p k n ps e s short b) (first_here _ _ y) (other _ c _ not_it g) =
      absurd (not_it y)
  next_lem (begin_node p k n ps e s short b) (first_later _ _ r not_it f) (cpu _ n' c _ y s' ne g) =
      absurd (not_it y)
  next_lem (begin_node p k n ps e s short b) (first_later _ _ r not_it f) (other _ c _ not_it' g) =
      weaker _ _ _ _ (omega arith) (next_lem b f g)

  module _ (turns : ℕ) (fdt : Fdt) where
    searches_left :
        (rounds count : ℕ) (r : Option ℕ) (c : ℕ)
        → Next r c turns
        → c ≤ rounds
        → count_found
            (λ node. count_cpus rounds turns limit m fdt name (some node) (count + 1))
            count
            (some r)
          ≡ some (count + c)
    unfolding Next count_cpus
    searches_left rounds count none c e le = ap some (omega (arith, e))
    searches_left zero count (some q) c (c', e, b) le = absurd (omega (arith, e))
    searches_left (suc rounds) count (some q) c (c', e, b) le =
        let (r, run, first) =
          fdt_find-last turns limit m fdt name q b.string b.short b.unaligned b.block b.fewer in
        ap
          (count_found
            (λ node. count_cpus rounds turns limit m fdt name (some node) (count + 1 + 1))
            (count + 1))
          run
        ∙ searches_left rounds (count + 1) r c'
            (weaker r c' b.k turns b.fewer (next_lem b.block first b.rest)) (omega (arith, e))
        ∙ ap some (omega (arith, e))

-- With a well-formed structure block of fewer tokens than there are turns, in which `c` nodes are
-- called "cpu" and none of their names ends, its zero included, at a multiple of four, the loop comes
-- to an end after `c + 1` searches and has counted `c`.
pub count_cpus_lem :
    (rounds turns limit : ℕ) (m : Region) (fdt : Fdt) (name : ℕ) {k c : ℕ} {ps : List ℕ}
    → Block m limit fdt.structure_block k ps
    → k < turns
    → Cpus m name ps c
    → c < rounds
    → count_cpus rounds turns limit m fdt name none 0 ≡ some c
unfolding count_cpus
count_cpus_lem zero turns limit m fdt name b lt cpus few = absurd (omega arith)
count_cpus_lem (suc rounds) turns limit m fdt name {k} {c} b lt cpus few =
    let (r, run, first) = fdt_find_lem turns limit m fdt name b lt in
    ap (count_found (λ node. count_cpus rounds turns limit m fdt name (some node) (0 + 1)) 0) run
    ∙ searches_left m limit name turns fdt rounds 0 r c
        (weaker m limit name r c k turns lt (next_lem m limit name b first cpus)) (omega arith)
    ∙ ap some (omega arith)
