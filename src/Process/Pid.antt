-- ===== src/Process/Pid.antt =====
-- How kernel/src/process.c chooses the pid of a new task.
use ilo_pali.Prelude.{
  ℕ, zero, suc, ◌+◌, ◌≤◌, ◌<◌, ◌≡◌, ◌≢◌, ◌⊎◌, inl, inr, refl, true, none, some, ◌==◌, arith,
  Bool-cases, Option-cases,
}
use ilo_pali.Process.{
  TaskState, dead, running, blocked, ready, Task, Kernel, find_pid, free_pid, is_dead,
}

dead_of : (s : TaskState) → is_dead s ≡ true → s ≡ dead
dead_of dead e = refl
dead_of running e = cc
dead_of blocked e = cc
dead_of ready e = cc

find_pid-some :
    (tasks : ℕ → Task) (p n : ℕ) {r : ℕ}
    → find_pid tasks p n ≡ some r
    → (p ≤ r)
      × (r < p + n)
      × ((tasks r).state ≡ dead)
      × ((q : ℕ) → p ≤ q → q < r → (tasks q).state ≢ dead)
unfolding find_pid
find_pid-some tasks p zero e = absurd (cc)
find_pid-some tasks p (suc n) {r} e = elim (Bool-cases (is_dead (tasks p).state)) [
  | inl h ↦
      let here : p ≡ r = ground arith in
      (
        omega arith,
        omega arith,
        rw (← here) (dead_of (tasks p).state h),
        λ q lo hi. absurd (omega arith),
      )
  | inr h ↦
      let later : find_pid tasks (p + 1) n ≡ some r = ground arith in
      let (lo, hi, d, first) = find_pid-some tasks (p + 1) n later in
      (
        omega arith,
        omega arith,
        d,
        λ q qlo qhi. elim (Bool-cases (p == q)) [
          | inl e ↦ λ x. ground arith
          | inr e ↦ first q (ground arith) qhi
        ],
      )
]

find_pid-none :
    (tasks : ℕ → Task) (p n q : ℕ)
    → find_pid tasks p n ≡ none
    → p ≤ q
    → q < p + n
    → (tasks q).state ≢ dead
unfolding find_pid
find_pid-none tasks p zero q e lo hi d = omega arith
find_pid-none tasks p (suc n) q e lo hi d = elim (Bool-cases (p == q)) [
  | inl h ↦ ground arith
  | inr h ↦ find_pid-none tasks (p + 1) n q (ground arith) (ground arith) (ground arith) d
]

-- A new task gets the first pid whose task is dead, and none exactly when no task is dead.
pub free_pid_lem :
    (k : Kernel)
    → ((pid : ℕ) × (free_pid k ≡ some pid)
        × (pid < k.max_pid)
        × ((k.tasks pid).state ≡ dead)
        × ((q : ℕ) → q < pid → (k.tasks q).state ≢ dead))
      ⊎ ((free_pid k ≡ none) × ((q : ℕ) → q < k.max_pid → (k.tasks q).state ≢ dead))
unfolding free_pid
free_pid_lem k = elim (Option-cases (find_pid k.tasks 0 k.max_pid)) [
  | inl e ↦ inr (e, λ q h. find_pid-none k.tasks 0 k.max_pid q e (omega arith) (omega arith))
  | inr (pid, e) ↦
      let (lo, hi, d, first) = find_pid-some k.tasks 0 k.max_pid e in
      inl (pid, e, omega arith, d, λ q h. first q (omega arith) h)
]
