-- ===== src/Scheduler.antt =====
-- kernel/src/schedulers/roundrobin.c. A pid that is scheduled is not negative and below 2^31, as the
-- pids of the table of 64 tasks are, so that the variables of type `int` hold it as it is.
pub mod Fair
mod Tests
use ilo_pali.Prelude.{
  ℕ, ◌+◌, Bool, false, Option, some, ltb, if◌then◌else◌, zero, suc, List, [], ◌∷◌,
}

-- the two variables of the file
pub record Scheduler : Type 0 where
  pub next : ℕ
  pub up_to : ℕ

abbrev pub start : Scheduler
start = record { next = 0; up_to = 0 }

unfoldable pub schedule_task : ℕ → Scheduler → Scheduler
schedule_task pid s = if ltb s.up_to pid then record s { up_to = pid } else s

-- `unschedule_task` has an empty body.
unfoldable pub unschedule_task : ℕ → Scheduler → Scheduler
unschedule_task pid s = s

unfoldable pub should_switch_now : Option ℕ → ℕ → Bool
should_switch_now pid priority = false

-- The result is never negative; `none` would be a negative pid.
unfoldable pub next_scheduled_task : Scheduler → Option ℕ × Scheduler
next_scheduled_task s =
    (some s.next, record s { next = if ltb s.up_to (s.next + 1) then 0 else s.next + 1 })

-- the results of `n` calls
unfoldable pub take_turns : ℕ → Scheduler → List (Option ℕ)
unfolding next_scheduled_task
take_turns zero s = []
take_turns (suc n) s = let (pid, s') = next_scheduled_task s in pid ∷ take_turns n s'
