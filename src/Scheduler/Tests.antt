-- ===== src/Scheduler/Tests.antt =====
-- Three tasks in turn.
use ilo_pali.Prelude.{ℕ, ◌≤◌, ◌<◌, ◌≡◌, refl, some, [], ◌∷◌, arith, tabulate}
use ilo_pali.Scheduler.{Scheduler, take_turns}
use ilo_pali.Scheduler.Fair.{turn, round_robin}

abbrev three : Scheduler
three = record { next = 1; up_to = 2 }

three_turns : take_turns 4 three ≡ some 1 ∷ some 2 ∷ some 0 ∷ some 1 ∷ []
unfolding take_turns
three_turns = refl

round_robin_example :
    (take_turns 3 three ≡ tabulate (λ i. some (turn three i)) 3)
    × ((pid : ℕ) → pid ≤ 2 → (i : ℕ) × (i < 3) × (turn three i ≡ pid))
round_robin_example = round_robin three (omega arith)
