-- ===== src/Sync/Tests.antt =====
-- Two threads at the lock.
use ilo_pali.Prelude.{ℕ, ◌≡◌, ◌⊎◌, refl, true, false}
use ilo_pali.Sync.{
  trying, inside, System, compare_exchange, move, spin_lock_round, Step, call, round, Reach, here,
  then_step, start,
}
use ilo_pali.Sync.Exclusion.{IsSafe, mutual_exclusion, can_proceed}

-- Thread 1 gets inside, at its second attempt, while thread 2 is in the loop.
abbrev both : System
unfolding spin_lock_round compare_exchange
both = spin_lock_round false 1 (
    spin_lock_round true 1
      (record start { phase = move (record start { phase = move start 1 trying }) 2 trying }))

both-Reach : Reach start both
unfolding both
both-Reach =
    then_step
      (then_step (then_step (then_step here (call 1 refl)) (call 2 refl)) (round true 1 refl))
      (round false 1 refl)

mutual_exclusion_example : IsSafe both
mutual_exclusion_example = mutual_exclusion both-Reach

can_proceed_example :
    ((t : System) × Step both t × (t.phase 2 ≡ inside))
    ⊎ ((j : ℕ) × (t : System) × (both.phase j ≡ inside) × Step both t × (t.lock ≡ false))
unfolding both
can_proceed_example = can_proceed 2 both-Reach refl
