-- ===== src/Process/Table.antt =====
-- A well-formed table of tasks, and what the first part of `timer_switch` of kernel/src/interrupt.c,
-- which puts the running task back among the ready ones, leaves of it.
use ilo_pali.Prelude.{
  ap, ◌∙◌, sym, ℕ, ◌≤◌, ◌<◌, ◌≡◌, ◌≢◌, inl, inr, refl, false, none, some, leb, ◌==◌, arith,
  Bool-cases,
}
use ilo_pali.Scheduler.{schedule_task}
use ilo_pali.Process.{
  TaskState, dead, running, blocked, ready, Kernel, TrapRef, at_boot, at_task, get_task, set_task,
  trap_at, requeued, requeue,
}

-- The tasks up to the largest pid that was scheduled know their pids and are in the table, and so is
-- the task that is next in turn.
pub record IsTable (k : Kernel) : Type 0 where
  pub own_pid :
      (i : ℕ) → i ≤ k.scheduler.up_to → ((k.tasks i).pid ≡ i) × ((k.tasks i).trap.pid ≡ some i)
  pub boot_pid : k.boot.pid ≡ none
  pub scheduled : k.scheduler.up_to < k.max_pid
  pub turn : k.scheduler.next ≤ k.scheduler.up_to

-- The trap `at` is on the hart, and no task is running but the one whose trap that is.
pub record OnHart (at : TrapRef) (k : Kernel) : Type 0 where
  pub in_table : (i : ℕ) → at ≡ at_task i → i ≤ k.scheduler.up_to
  pub alone : (i : ℕ) → (k.tasks i).state ≡ running → at ≡ at_task i

requeued-id : (s : TaskState) → s ≢ running → requeued s ≡ s
requeued-id running h = absurd (h refl)
requeued-id dead h = refl
requeued-id blocked h = refl
requeued-id ready h = refl

pub requeued-ne : (s : TaskState) → requeued s ≢ running
requeued-ne running e = cc
requeued-ne dead e = cc
requeued-ne blocked e = cc
requeued-ne ready e = cc

-- what the requeueing leaves
pub record Requeued (at : TrapRef) (k k₁ : Kernel) : Type 0 where
  pub table : IsTable k₁
  pub next : k₁.scheduler.next ≡ k.scheduler.next
  pub max_pid : k₁.max_pid ≡ k.max_pid
  pub up_to : k₁.scheduler.up_to ≡ k.scheduler.up_to
  pub states :
      ((i : ℕ) → (k.tasks i).state ≡ running → at ≡ at_task i)
      → (i : ℕ) → (k₁.tasks i).state ≡ requeued (k.tasks i).state
  pub traps : (i : ℕ) → (k₁.tasks i).trap ≡ (k.tasks i).trap
  pub boot : k₁.boot ≡ k.boot

pub requeue_lem :
    (at : TrapRef) (k : Kernel)
    → IsTable k
    → ((i : ℕ) → at ≡ at_task i → i ≤ k.scheduler.up_to)
    → (k₁ : Kernel) × (requeue k (trap_at k at).pid ≡ some k₁) × Requeued at k k₁
unfolding requeue get_task schedule_task
requeue_lem at_boot k t in_table = (
  k,
  rw t.boot_pid refl,
  record {
    table = t;
    next = refl;
    max_pid = refl;
    up_to = refl;
    states = λ alone i. sym (requeued-id (k.tasks i).state (λ r. ground (arith, alone i)));
    traps = λ i. refl;
    boot = refl;
  },
)
requeue_lem (at_task p) k t in_table =
    let old = k.tasks p in
    let inside = in_table p refl in
    let out : leb k.max_pid p ≡ false = ground (arith, t.scheduled) in
    let same : (schedule_task old.pid k.scheduler).up_to ≡ k.scheduler.up_to =
      ground (arith, t.own_pid p inside) in
    let k₁ : Kernel = record (set_task k p (record old { state = requeued old.state })) {
      scheduler = schedule_task old.pid k.scheduler;
    } in
    (
      k₁,
      ap (requeue k) (t.own_pid p inside).1 ∙ rw (out, requeue) refl,
      record {
        table = record {
          own_pid = λ i lt. ground (arith, t.own_pid i (omega (arith, lt, same)));
          boot_pid = t.boot_pid;
          scheduled = ground (arith, t.own_pid p inside);
          turn = ground arith;
        };
        next = ground arith;
        max_pid = refl;
        up_to = same;
        states = λ alone i. elim (Bool-cases (p == i)) [
          | inl e ↦ ground arith
          | inr e ↦ rw e (sym (requeued-id (k.tasks i).state (λ r. ground (arith, alone i))))
        ];
        traps = λ i. ground arith;
        boot = refl;
      },
    )
