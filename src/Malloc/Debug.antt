-- ===== src/Malloc/Debug.antt =====
-- `debug_free_buckets_alloc` of kernel/src/memory.c, as what it writes to the console.
use ilo_pali.Prelude.{
  ℕ, zero, suc, ◌<◌, ◌≡◌, ◌≢◌, ◌∙◌, ap, refl, Option, none, some, List, [], ◌∷◌, length, ◌==◌,
  if◌then◌else◌, arith, if_false, ◌≢◌,
}
use ilo_pali.Console.{Output, codes, ◌then_put◌, console_puts, console_printf}
use ilo_pali.Malloc.{Buckets, Heap, false}
use ilo_pali.Malloc.Linked.{Linked, no_bucket, bucket}

-- the line for a bucket
unfoldable pub debug_line : Buckets → ℕ → Output
unfolding console_printf
debug_line b p =
    console_printf "Unfreed allocation originating from 0x%lx (%lu bytes)\n"
      (b.origin p ∷ b.size p ∷ [])

abbrev pub line_first : Output → Option Output → Option Output
line_first o none = none
line_first o (some rest) = some (o then_put rest)

-- the lines from the bucket `p` on, with a bound on their number
unfoldable pub debug_from : ℕ → Buckets → ℕ → Option Output
unfolding debug_line
debug_from zero b p = none
debug_from (suc rounds) b p =
    let rest = debug_from rounds b (b.next p) in
    if p == 0 then some (some []) else line_first (debug_line b p) rest

unfoldable pub debug_free_buckets_alloc : ℕ → Heap → Option Output
unfolding debug_from
debug_free_buckets_alloc rounds h = elim (debug_from rounds h.buckets h.used) [
  | none ↦ none
  | some lines ↦ some (
      console_puts (codes "Starting debug\n")
      then_put lines
      then_put console_puts (codes "Ending debug\n"))
]

-- the lines for buckets, in their order
abbrev pub lines_of : Buckets → List ℕ → Output
lines_of b [] = some []
lines_of b (p ∷ ps) = debug_line b p then_put lines_of b ps

-- The list of used buckets is written from its first bucket to its last one.
pub debug_from_lem :
    (rounds : ℕ) (b : Buckets) {before p : ℕ} {ps : List ℕ}
    → Linked b.next b.prev before p ps
    → length ps < rounds
    → debug_from rounds b p ≡ some (lines_of b ps)
unfolding debug_from
debug_from_lem zero b l lt = absurd (omega arith)
debug_from_lem (suc rounds) b (no_bucket before) lt = refl
debug_from_lem (suc rounds) b (bucket before p q ps ne prev next l) lt =
    if_false _ _ (not_null p ne)
    ∙ ap (λ x. line_first (debug_line b p) (debug_from rounds b x)) next
    ∙ ap (line_first (debug_line b p)) (debug_from_lem rounds b l (omega arith))
  where
    not_null : (p : ℕ) → p ≢ 0 → (p == 0) ≡ false
    not_null p ne = ground arith
