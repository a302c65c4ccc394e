-- ===== src/Spawn/Start.antt =====
-- `spawn_task_from_elf` and `init_processes` of kernel/src/process.c. What stands in the table of
-- tasks that `malloc` hands out is an argument.
use ilo_pali.Prelude.{
  length, ℕ, zero, suc, ◌+◌, ◌-◌, ◌*◌, ◌/◌, ◌^◌, not, Option, none, some, List, ltb, ◌==◌,
  if◌then◌else◌, add64, sub64,
}
use ilo_pali.Fat.{read_16}
use ilo_pali.Elf.{Elf, read_64}
use ilo_pali.Pages.{page_size}
use ilo_pali.Mmu.Table.{Memory}
use ilo_pali.Mmu.Map.{mmu_alloc}
use ilo_pali.Mmu.Create.{Symbols, create_mmu_table}
use ilo_pali.Mmu.Bytes.{load_byte}
use ilo_pali.Scheduler.{schedule_task}
use ilo_pali.Process.{Task, ready, Kernel, free_pid, set_task}
use ilo_pali.Interrupt.{register_a0, register_a1}
use ilo_pali.Spawn.{load_segments}
use ilo_pali.Spawn.Arguments.{user_flags, put_arguments}

abbrev pub register_sp : ℕ
register_sp = 2

abbrev pub register_fp : ℕ
register_fp = 8

abbrev pub elf_executable : ℕ
elf_executable = 2

-- the tasks, and the memory with the tables of pages
pub record TaskSystem : Type 0 where
  pub kernel : Kernel
  pub memory : Memory

-- `max_page` as a signed number, up to a multiple of a page; a division drops what is left, towards 0
unfoldable pub round_page : ℕ → ℕ
round_page x =
    if ltb x (2 ^ 63)
    then (x + page_size - 1) / page_size * page_size
    else if ltb (page_size - 1) (2 ^ 64 - x)
    then sub64 0 ((2 ^ 64 - x - (page_size - 1)) / page_size * page_size)
    else 0

-- The pages of a stack of `rounds` pages from `p` on, and where they end.
unfoldable pub map_stack : ℕ → ℕ → ℕ → Memory → ℕ × Memory
unfolding mmu_alloc
map_stack zero root p m = (p, m)
map_stack (suc rounds) root p m =
    map_stack rounds root (add64 p page_size) (mmu_alloc m root p user_flags).1

abbrev pub set_register : ℕ → ℕ → (ℕ → ℕ) → ℕ → ℕ
set_register r v xs i = if r == i then v else xs i

-- a task that begins, whose stack pointer is `sp`, with `argc` arguments at `first`
abbrev pub started : ℕ → ℕ → ℕ → ℕ → ℕ → ℕ → Task → Task
started pid root sp argc first entry t = record t {
  pid = pid;
  ppid = 0;
  tid = pid;
  gid = pid;
  mmu_data = root;
  state = ready;
  trap = record t.trap {
    pid = some pid;
    pc = entry;
    xs = set_register register_a1 first (
        set_register register_a0 argc
          (set_register register_fp sp (set_register register_sp sp t.trap.xs)));
  };
}

-- The first task gets the table in use, and any other one a table of its own.
abbrev pub table_for : Symbols → ℕ → TaskSystem → ℕ × Memory
table_for symbols pid s =
    if pid == 0 then (s.kernel.mmu, s.memory) else create_mmu_table symbols s.memory

abbrev pub spawn_as : Symbols → Elf → ℕ → List (List ℕ) → ℕ → TaskSystem → TaskSystem
spawn_as symbols elf stack_size args pid s =
    let (root, m) = table_for symbols pid s in
    let l =
      load_segments (read_16 (load_byte m) (elf.header + 56)) elf root 0
        (record { max_page = 0; memory = m }) in
    let (end, m') = map_stack stack_size root (round_page l.max_page) l.memory in
    let last = sub64 end page_size in
    let a = put_arguments root args (add64 last page_size) m' in
    let entry = read_64 (load_byte a.cursor.memory) (elf.header + 24) in
    let task = started pid root (sub64 last 8) (length args) a.first entry (s.kernel.tasks pid) in
    record {
      kernel = record (set_task s.kernel pid task) {
        scheduler = schedule_task pid s.kernel.scheduler;
      };
      memory = a.cursor.memory;
    }

abbrev pub spawn_at :
    Symbols → Elf → ℕ → List (List ℕ) → TaskSystem → Option ℕ → Option ℕ × TaskSystem
spawn_at symbols elf stack_size args s none = (none, s)
spawn_at symbols elf stack_size args s (some pid) =
    (some pid, spawn_as symbols elf stack_size args pid s)

-- The pid of the new task, or NULL.
unfoldable pub spawn_task_from_elf :
    Symbols → Elf → ℕ → List (List ℕ) → TaskSystem → Option ℕ × TaskSystem
unfolding load_byte free_pid create_mmu_table load_segments map_stack put_arguments round_page
    schedule_task
spawn_task_from_elf symbols elf stack_size args s =
    if not (read_16 (load_byte s.memory) (elf.header + 16) == elf_executable)
    then (none, s)
    else spawn_at symbols elf stack_size args s (free_pid s.kernel)

unfoldable pub init_processes : ℕ → (ℕ → Task) → Kernel → Kernel
init_processes max junk k = record k { tasks = junk; max_pid = max }
