-- ===== src/Spawn/Table.antt =====
-- What `spawn_task_from_elf` of kernel/src/process.c does to the table of tasks.
use ilo_pali.Prelude.{
  ℕ, suc, ◌+◌, ◌-◌, ◌≤◌, ◌<◌, ◌≡◌, ◌≢◌, inl, inr, ◌∙◌, ap, refl, sym, subst, not, ltb, Option, none,
  some, List, arith, ◌==◌, Bool-cases, if_true, if_false,
}
use ilo_pali.Fat.{read_16}
use ilo_pali.Elf.{Elf}
use ilo_pali.Mmu.Bytes.{load_byte}
use ilo_pali.Mmu.Create.{Symbols}
use ilo_pali.Scheduler.{schedule_task}
use ilo_pali.Process.{Task, dead, ready, Kernel, free_pid, set_task}
use ilo_pali.Process.Pid.{free_pid_lem}
use ilo_pali.Spawn.Start.{
  TaskSystem, elf_executable, started, spawn_as, spawn_at, spawn_task_from_elf,
}

-- The tasks are those of the pids below `n`, ready, and the scheduler knows of these and has pid 0 as
-- the next one.
pub record HasTasks (n : ℕ) (k : Kernel) : Type 0 where
  pub room : n ≤ k.max_pid
  pub known : k.scheduler.up_to ≡ n - 1
  pub first : k.scheduler.next ≡ 0
  pub own_pid : (i : ℕ) → i < n → ((k.tasks i).pid ≡ i) × ((k.tasks i).trap.pid ≡ some i)
  pub all_ready : (i : ℕ) → i < n → (k.tasks i).state ≡ ready
  pub rest : (i : ℕ) → n ≤ i → (k.tasks i).state ≡ dead

abbrev with_task : Kernel → ℕ → Task → Kernel
with_task k pid t = record (set_task k pid t) { scheduler = schedule_task pid k.scheduler }

with_task-HasTasks :
    (n : ℕ) (k : Kernel) (root sp argc first entry : ℕ)
    → HasTasks n k
    → n < k.max_pid
    → HasTasks (suc n) (with_task k n (started n root sp argc first entry (k.tasks n)))
unfolding schedule_task
with_task-HasTasks n k root sp argc first entry h lt = record {
  room = lt;
  known = ground (arith, h.known);
  first = ground (arith, h.first);
  own_pid = λ i inside. elim (Bool-cases (n == i)) [
    | inl e ↦ rw e (ground arith)
    | inr e ↦ rw e (h.own_pid i (ground arith))
  ];
  all_ready = λ i inside. elim (Bool-cases (n == i)) [
    | inl e ↦ rw e refl
    | inr e ↦ rw e (h.all_ready i (ground arith))
  ];
  rest = λ i outside. elim (Bool-cases (n == i)) [
    | inl e ↦ absurd (ground arith)
    | inr e ↦ rw e (h.rest i (omega arith))
  ];
}

ready-ne_dead : ready ≢ dead
ready-ne_dead e = cc

-- The next pid is the number of tasks.
free_pid-HasTasks : (n : ℕ) (k : Kernel) → HasTasks n k → n < k.max_pid → free_pid k ≡ some n
free_pid-HasTasks n k h lt = elim (free_pid_lem k) [
  | inl (pid, e, inside, d, least) ↦ elim (Bool-cases (ltb pid n)) [
    | inl b ↦ absurd (ready-ne_dead (sym (h.all_ready pid (ground arith)) ∙ d))
    | inr b ↦ elim (Bool-cases (ltb n pid)) [
      | inl b' ↦ absurd (least n (ground arith) (h.rest n (omega arith)))
      | inr b' ↦ e ∙ ap some (ground arith)
    ]
  ]
  | inr (e, none_dead) ↦ absurd (none_dead n lt (h.rest n (omega arith)))
]

no_free_pid : (k : Kernel) → HasTasks k.max_pid k → free_pid k ≡ none
no_free_pid k h = elim (free_pid_lem k) [
  | inl (pid, e, inside, d, least) ↦ absurd (ready-ne_dead (sym (h.all_ready pid inside) ∙ d))
  | inr (e, none_dead) ↦ e
]

-- The program in memory is of the type that can be started.
abbrev pub IsExecutable : Elf → TaskSystem → Type 0
IsExecutable elf s = read_16 (load_byte s.memory) (elf.header + 16) ≡ elf_executable

-- What a call comes to: NULL, and nothing changes, or the next task.
pub data Outcome (n : ℕ) (elf : Elf) (s : TaskSystem) : Option ℕ × TaskSystem → Type 0 where
  not_executable : ¬ IsExecutable elf s → Outcome n elf s (none, s)
  no_room : n ≡ s.kernel.max_pid → Outcome n elf s (none, s)
  next_task :
      (s' : TaskSystem)
      → IsExecutable elf s
      → HasTasks (suc n) s'.kernel
      → s'.kernel.max_pid ≡ s.kernel.max_pid
      → ((i : ℕ) → i ≢ n → s'.kernel.tasks i ≡ s.kernel.tasks i)
      → Outcome n elf s (some n, s')

spawn_at-Outcome :
    (symbols : Symbols) (elf : Elf) (stack_size : ℕ) (args : List (List ℕ)) (n : ℕ) (s : TaskSystem)
    → HasTasks n s.kernel
    → IsExecutable elf s
    → Outcome n elf s (spawn_at symbols elf stack_size args s (free_pid s.kernel))
spawn_at-Outcome symbols elf stack_size args n s h executable =
    elim (Bool-cases (ltb n s.kernel.max_pid)) [
      | inl e ↦
          let inside : n < s.kernel.max_pid = ground arith in
          subst (λ o. Outcome n elf s (spawn_at symbols elf stack_size args s o))
            (sym (free_pid-HasTasks n s.kernel h inside))
            (next_task (spawn_as symbols elf stack_size args n s) executable
              (with_task-HasTasks n s.kernel _ _ _ _ _ h inside) refl (λ i ne. ground arith))
      | inr e ↦
          let whole : s.kernel.max_pid ≡ n = ground (arith, h.room) in
          subst (λ o. Outcome n elf s (spawn_at symbols elf stack_size args s o))
            (sym (no_free_pid s.kernel (subst (λ x. HasTasks x s.kernel) (sym whole) h)))
            (no_room (sym whole))
    ]

-- In a table of the tasks 0 to `n - 1`, ready, the others dead, while the scheduler has pid 0 as the
-- next one and `n - 1`, or 0 without tasks, as the largest, `spawn_task_from_elf` returns NULL and
-- changes nothing if the file is no executable or the table is full. Otherwise it returns the task
-- `n`, which knows its pid and is ready and scheduled, the other tasks are as before, and the table
-- is of that kind again. It returns the task also where `mmu_alloc` fails.
pub spawn-Outcome :
    (symbols : Symbols) (elf : Elf) (stack_size : ℕ) (args : List (List ℕ)) (n : ℕ) (s : TaskSystem)
    → HasTasks n s.kernel
    → Outcome n elf s (spawn_task_from_elf symbols elf stack_size args s)
unfolding spawn_task_from_elf
spawn-Outcome symbols elf stack_size args n s h =
    elim (Bool-cases (read_16 (load_byte s.memory) (elf.header + 16) == elf_executable)) [
      | inl e ↦
          subst (Outcome n elf s) (sym (if_false _ _ (ap not e)))
            (spawn_at-Outcome symbols elf stack_size args n s h (ground arith))
      | inr e ↦
          subst (Outcome n elf s) (sym (if_true _ _ (ap not e)))
            (not_executable (λ is. ground arith))
    ]
