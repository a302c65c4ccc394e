-- ===== src/Scheduler/Fair.antt =====
-- The round robin of kernel/src/schedulers/roundrobin.c is fair.
use ilo_pali.Prelude.{
  sym, get_or-tabulate, ℕ, zero, suc, ◌+◌, ◌-◌, ◌≤◌, ◌<◌, ◌≡◌, refl, some, none, arith, leb,
  if◌then◌else◌, ◌∷◌, get_or, tabulate, ap, ap₂, ◌∙◌, tabulate_congr,
}
use ilo_pali.Scheduler.{Scheduler, schedule_task, unschedule_task, next_scheduled_task, take_turns}

abbrev pub IsValid : Scheduler → Type 0
IsValid s = s.next ≤ s.up_to

-- Every operation keeps `next` in range, and scheduling a task brings it in range.
pub ops-IsValid :
    (s : Scheduler) (pid : ℕ)
    → IsValid s
    → IsValid (schedule_task pid s)
      × (pid ≤ (schedule_task pid s).up_to)
      × IsValid (next_scheduled_task s).1
      × IsValid (unschedule_task pid s)
unfolding schedule_task next_scheduled_task unschedule_task
ops-IsValid s pid v = ground arith

-- the pid of turn `i`, for at most one time round
abbrev pub turn : Scheduler → ℕ → ℕ
turn s i = if leb (s.next + i) s.up_to then s.next + i else s.next + i - s.up_to - 1

take_turns-turn :
    (n : ℕ) (s : Scheduler)
    → IsValid s
    → n ≤ s.up_to + 1
    → take_turns n s ≡ tabulate (λ i. some (turn s i)) n
unfolding take_turns next_scheduled_task
take_turns-turn zero s v h = refl
take_turns-turn (suc n) s v h =
    let s' = (next_scheduled_task s).1 in
    let first : turn s 0 ≡ s.next = ground arith in
    ap₂ (λ (i : ℕ) l. some i ∷ l) (sym first)
      (take_turns-turn n s' (ground arith) (ground arith)
        ∙ tabulate_congr (λ i. some (turn s' i)) (λ i. some (turn s (suc i))) n
            (λ i lt. ap some (ground arith)))

-- In as many calls as there are pids up to the largest one scheduled, each of these pids is
-- returned, from the next one in order on.
pub round_robin :
    (s : Scheduler)
    → IsValid s
    → (take_turns (s.up_to + 1) s ≡ tabulate (λ i. some (turn s i)) (s.up_to + 1))
      × ((pid : ℕ) → pid ≤ s.up_to → (i : ℕ) × (i < s.up_to + 1) × (turn s i ≡ pid))
round_robin s v = (
  take_turns-turn (s.up_to + 1) s v (omega arith),
  λ pid h. (
    if leb s.next pid then pid - s.next else pid + s.up_to + 1 - s.next,
    ground arith,
    ground arith,
  ),
)

-- A task that was unscheduled is still returned within one time round.
pub unschedule_task-next :
    (s : Scheduler) (pid : ℕ)
    → IsValid s
    → pid ≤ s.up_to
    → (i : ℕ) × (i < s.up_to + 1)
      × (get_or (take_turns (s.up_to + 1) (unschedule_task pid s)) i none ≡ some pid)
unfolding unschedule_task
unschedule_task-next s pid v h =
    let (turns, all) = round_robin s v in
    let (i, lt, e) = all pid h in
    (i, lt, rw turns (get_or-tabulate (λ i. some (turn s i)) (s.up_to + 1) i none lt ∙ ap some e))
