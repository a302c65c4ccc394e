-- ===== src/Queue/Fifo.antt =====
-- What kernel/src/queue.h promises: a first-in first-out sequence without a bound.
use ilo_pali.Prelude.{
  ℕ, suc, ◌-◌, ◌<◌, Bool, true, false, none, some, List, [], ◌∷◌, ◌++◌, if◌then◌else◌,
}
use ilo_pali.Queue.{Op, put, take, Reply}

module _ {A : Type 0} where
  unfoldable pub enqueue : List A → A → List A
  enqueue l x = l ++ x ∷ []

  unfoldable pub dequeue : List A → Bool → Reply A × List A
  dequeue [] wanted = ((false, none), [])
  dequeue (x ∷ l) wanted = ((true, if wanted then some x else none), l)

  unfoldable pub run : List A → List (Op A) → List (Reply A)
  run l [] = []
  run l (put x ∷ ops) = run (enqueue l x) ops
  run l (take w ∷ ops) = let (r, l') = dequeue l w in r ∷ run l' ops

  -- From `n` items on, the calls never hold more than `cap`.
  abbrev pub Fits : ℕ → ℕ → List (Op A) → Type 0
  Fits cap n [] = Unit
  Fits cap n (put x ∷ ops) = (n < cap) × Fits cap (suc n) ops
  Fits cap n (take w ∷ ops) = Fits cap (n - 1) ops
