-- ===== src/Process.antt =====
-- The task table of kernel/src/process.c and `timer_switch` of kernel/src/interrupt.c on one hart.
-- The trap that is on the hart is the boot trap, whose pid is negative, or that of a task.
pub mod Pid
pub mod Table
pub mod Switch
pub mod Samples
mod Tests
use Prim.Native.Nat.{bit_or}
use ilo_pali.Prelude.{
  ℕ, zero, suc, ◌+◌, ◌-◌, ◌/◌, ◌%◌, ◌*◌, ◌^◌, Bool, true, false, Option, none, some, ltb, leb, ◌==◌,
  if◌then◌else◌, add64,
}
use ilo_pali.Scheduler.{Scheduler, schedule_task, next_scheduled_task}

-- `task_state_t`
pub data TaskState : Type 0 where
  dead running blocked ready : TaskState

-- `trap_t`, less the floating-point registers; `none` is a negative pid
pub record Trap : Type 0 where
  pub xs : ℕ → ℕ
  pub pc : ℕ
  pub interrupt_stack : ℕ
  pub hartid : ℕ
  pub pid : Option ℕ

-- `struct s_task`, less its name
pub record Task : Type 0 where
  pub pid : ℕ
  pub ppid : ℕ
  pub gid : ℕ
  pub tid : ℕ
  pub state : TaskState
  pub mmu_data : ℕ
  pub priority : ℕ
  pub trap : Trap

-- `tasks` and `max_pid`, the scheduler, and what the hart holds: its boot trap, satp, sstatus, and
-- the time for which its timer is set.
pub record Kernel : Type 0 where
  pub tasks : ℕ → Task
  pub max_pid : ℕ
  pub scheduler : Scheduler
  pub boot : Trap
  pub mmu : ℕ
  pub sstatus : ℕ
  pub timer : ℕ

-- a pointer to a trap: to the boot trap, or to the trap of a task
pub data TrapRef : Type 0 where
  at_boot : TrapRef
  at_task : ℕ → TrapRef

abbrev pub process_quantum : ℕ
process_quantum = 100000

unfoldable pub get_task : Kernel → ℕ → Option Task
get_task k pid = if leb k.max_pid pid then none else some (k.tasks pid)

abbrev pub is_dead : TaskState → Bool
is_dead dead = true
is_dead running = false
is_dead blocked = false
is_dead ready = false

-- `for (pid = 0; pid < max_pid && tasks[pid].state != TASK_STATE_DEAD; pid++)`
find_pid : (ℕ → Task) → ℕ → ℕ → Option ℕ
find_pid tasks pid zero = none
find_pid tasks pid (suc n) =
    if is_dead (tasks pid).state then some pid else find_pid tasks (pid + 1) n

-- the pid that `spawn_task_from_elf` chooses; `none` is its result NULL
unfoldable pub free_pid : Kernel → Option ℕ
unfolding find_pid
free_pid k = find_pid k.tasks 0 k.max_pid

abbrev pub set_task : Kernel → ℕ → Task → Kernel
set_task k i t = record k { tasks = λ j. if i == j then t else k.tasks j }

abbrev pub trap_at : Kernel → TrapRef → Trap
trap_at k at_boot = k.boot
trap_at k (at_task i) = (k.tasks i).trap

abbrev pub requeued : TaskState → TaskState
requeued running = ready
requeued dead = dead
requeued blocked = blocked
requeued ready = ready

-- The first part of `timer_switch`: the task of the trap goes back to the scheduler. `none` is the
-- access to a task that is not there.
unfoldable pub requeue : Kernel → Option ℕ → Option Kernel
unfolding get_task schedule_task
requeue k none = some k
requeue k (some pid) = elim (get_task k pid) [
  | none ↦ none
  | some t ↦ some (record (set_task k pid (record t { state = requeued t.state })) {
    scheduler = schedule_task t.pid k.scheduler;
  })
]

-- sbi_set_timer(get_time() + PROCESS_QUANTUM)
abbrev pub set_timer : ℕ → Kernel → Kernel
set_timer now k = record k { timer = add64 now process_quantum }

-- sstatus & ~(1 << 8 | 1 << 5)
unfoldable pub clear_sstatus : ℕ → ℕ
clear_sstatus s = s - s / 2 ^ 8 % 2 * 2 ^ 8 - s / 2 ^ 5 % 2 * 2 ^ 5

-- `set_mmu`: satp is written unless the root is null; the same root again changes nothing.
unfoldable pub set_mmu : ℕ → Kernel → Kernel
set_mmu root k = record k { mmu = if root == 0 then k.mmu else root }

abbrev pub same_pid : Option ℕ → ℕ → Bool
same_pid none q = false
same_pid (some p) q = p == q

-- The last branch of `timer_switch`: the next task takes over this hart.
unfoldable pub resume : ℕ → Trap → ℕ → Kernel → Option (TrapRef × Kernel)
unfolding get_task set_mmu
resume now trap next k = elim (get_task k next) [
  | none ↦ none
  | some t ↦
      (let t' = record t {
        state = running;
        trap = record t.trap { hartid = trap.hartid; interrupt_stack = trap.interrupt_stack };
      } in
        some (at_task next, set_timer now (set_mmu t.mmu_data (set_task k next t'))))
]

-- `do_nothing` is the address of the idle loop, for a hart that fails to suspend.
abbrev pub set_pc : ℕ → TrapRef → Kernel → Kernel
set_pc pc at_boot k = record k { boot = record k.boot { pc = pc } }
set_pc pc (at_task i) k =
    set_task k i (record (k.tasks i) { trap = record (k.tasks i).trap { pc = pc } })

-- What `timer_switch` does with the next pid.
unfoldable pub switch_to : ℕ → ℕ → TrapRef → Option ℕ → Kernel → Option (TrapRef × Kernel)
unfolding resume clear_sstatus
switch_to do_nothing now at none k = some (
  at,
  set_timer now (set_pc do_nothing at (record k { sstatus = bit_or k.sstatus (2 ^ 8 + 2 ^ 5) })),
)
switch_to do_nothing now at (some next) k =
    let k' = record k { sstatus = clear_sstatus k.sstatus } in
    if same_pid (trap_at k at).pid next
    then some (at, set_timer now (set_task k' next (record (k'.tasks next) { state = running })))
    else resume now (trap_at k at) next k'

-- `none` is the access to a task that is not there.
unfoldable pub timer_switch : ℕ → ℕ → TrapRef → Kernel → Option (TrapRef × Kernel)
unfolding requeue switch_to next_scheduled_task
timer_switch do_nothing now at k = elim (requeue k (trap_at k at).pid) [
  | none ↦ none
  | some k₁ ↦
      (let (next, scheduler') = next_scheduled_task k₁.scheduler in
        switch_to do_nothing now at next (record k₁ { scheduler = scheduler' }))
]
