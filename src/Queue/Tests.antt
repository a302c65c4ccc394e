-- ===== src/Queue/Tests.antt =====
-- Runs of the queue, and its theorems at a ring of two slots.
use ilo_pali.Prelude.{ℕ, ◌+◌, ◌≡◌, refl, true, false, some, none, List, [], ◌∷◌, arith}
use ilo_pali.Queue.{Queue, Op, put, take, queue_enqueue, queue_dequeue, run}
use ilo_pali.Queue.Fifo
use ilo_pali.Queue.Fifo.{Fits}
use ilo_pali.Queue.Order.{IsValid, run_refines}
use ilo_pali.Queue.Growth.{enqueue-full}

abbrev junk : ℕ → ℕ
junk i = 99

-- one item, 8, at the end of two slots
abbrev ring : Queue ℕ
ring = record { item_size = 8; len = 1; cap = 2; start = 1; end = 0; slots = λ i. i + 7 }

abbrev calls : List (Op ℕ)
calls = put 5 ∷ take true ∷ take false ∷ take true ∷ []

ring-IsValid : IsValid ring
ring-IsValid = omega arith

run-ring : run junk ring calls ≡ (true, some 8) ∷ (true, none) ∷ (false, none) ∷ []
unfolding run queue_enqueue queue_dequeue
run-ring = refl

run_refines_example : run junk ring calls ≡ Fifo.run (8 ∷ []) calls
run_refines_example = run_refines junk calls ring ring-IsValid (omega arith)

abbrev full : Queue ℕ
full = record ring { len = 2; end = 1 }

full-IsValid : IsValid full
full-IsValid = omega arith

enqueue-full_example :
    ((queue_dequeue (queue_enqueue junk full 6) true).0 ≡ (true, some 6))
    × ((queue_dequeue full true).0 ≡ (true, some 8))
    × ¬ IsValid (queue_enqueue junk full 6)
enqueue-full_example = enqueue-full junk 6 full-IsValid refl
