-- ===== src/Process/Samples.antt =====
-- Small tables of tasks, for the tests.
use ilo_pali.Prelude.{ℕ, Option, some, none}
use ilo_pali.Scheduler.{Scheduler}
use ilo_pali.Process.{TaskState, Trap, Task, Kernel}

abbrev pub trap_of : Option ℕ → Trap
trap_of pid = record { xs = λ i. 0; pc = 0; interrupt_stack = 0; hartid = 0; pid = pid }

abbrev pub task_with : ℕ → TaskState → Task
task_with pid state = record {
  pid = pid;
  ppid = 0;
  gid = pid;
  tid = pid;
  state = state;
  mmu_data = 0x80400000;
  priority = 0;
  trap = trap_of (some pid);
}

-- 64 tasks in their states
abbrev pub table_of : (ℕ → TaskState) → Scheduler → Kernel
table_of states scheduler = record {
  tasks = λ i. task_with i (states i);
  max_pid = 64;
  scheduler = scheduler;
  boot = trap_of none;
  mmu = 0x80400000;
  sstatus = 0;
  timer = 0;
}
