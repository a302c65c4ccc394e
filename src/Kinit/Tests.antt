-- ===== src/Kinit/Tests.antt =====
-- One program is started and the first timer interrupt comes, and a device tree with two harts.
use ilo_pali.Prelude.{inr, none, arith, ℕ, ◌+◌, ◌^◌, ◌≡◌, refl, some, [], ◌∷◌}
use ilo_pali.Process.{Task, dead, at_boot, at_task}
use ilo_pali.Process.Samples.{task_with}
use ilo_pali.Interrupt.{World, Machine, returned, interrupt_handler}
use ilo_pali.Interrupt.Handler.{Runs}
use ilo_pali.Spawn.Start.{TaskSystem, spawn_task_from_elf, init_processes}
use ilo_pali.Spawn.Samples.{program, symbols, empty}
use ilo_pali.Mmu.Address.{safe2phys}
use ilo_pali.Mmu.Bytes.{byte_in}
use ilo_pali.Kinit.{init_hart_helper, start_harts, count_cpus}
use ilo_pali.Bytes.{Region, byte_at}
use ilo_pali.Fdt.{Fdt, cell}
use ilo_pali.Fdt.Names.{read_string, same_end, same_byte}
use ilo_pali.Fdt.Find.{Block, block_end, begin_node, end_node, HasName}
use ilo_pali.Kinit.Count.{Cpus, no_nodes, cpu, other, count_cpus_lem}
use ilo_pali.Kinit.Boot.{Starts, none_yet, one_more, first_timer}

abbrev dead_tasks : ℕ → Task
dead_tasks i = task_with i dead

abbrev begun : TaskSystem
begun = record empty { kernel = init_processes 64 dead_tasks empty.kernel }

abbrev after : TaskSystem
after = (spawn_task_from_elf symbols program 2 [] begun).1

spawned : spawn_task_from_elf symbols program 2 [] begun ≡ (some 0, after)
unfolding spawn_task_from_elf init_processes safe2phys byte_in
spawned = refl

one_task : Starts symbols begun 1 after
one_task = one_more 0 0 begun after program 2 [] none_yet spawned

abbrev world : World
world = record {
  text = λ a. [];
  name_at = λ pid. 0;
  none_at = 0;
  do_nothing = 0x1000;
  plic_base = 0xc000000;
}

abbrev machine : Machine
machine = record {
  kernel = init_hart_helper 0x90000 0x1000 0 0x80400000 after.kernel;
  plic = λ a. 0;
  printed = some [];
}

first_timer_example :
    (m' : Machine) × (interrupt_handler world 500 0 (2 ^ 63 + 5) at_boot machine
      ≡ returned (at_task 0) m')
    × Runs (at_task 0) m'
first_timer_example =
    first_timer symbols empty after 64 0 dead_tasks 0x90000 0x1000 0 0x80400000 500 0 world machine
      refl refl (λ i. refl) one_task refl

other_harts : start_harts 1 0 4 ≡ 0 ∷ 2 ∷ 3 ∷ []
unfolding start_harts
other_harts = refl

-- A root with the nodes `cpu@0` and `cpu@1`, and then the string "cpu".
abbrev tree : Region
tree = byte_at (
    0 ∷ 0 ∷ 0 ∷ 1 ∷ 0 ∷ 0 ∷ 0 ∷ 0 ∷ 0 ∷ 0 ∷ 0 ∷ 1 ∷ b'c' ∷ b'p' ∷ b'u' ∷ b'@' ∷ b'0' ∷ 0 ∷ 0 ∷ 0 ∷ 0
    ∷ 0 ∷ 0 ∷ 2 ∷ 0 ∷ 0 ∷ 0 ∷ 1 ∷ b'c' ∷ b'p' ∷ b'u' ∷ b'@' ∷ b'1' ∷ 0 ∷ 0 ∷ 0 ∷ 0 ∷ 0 ∷ 0 ∷ 2 ∷ 0
    ∷ 0 ∷ 0 ∷ 2 ∷ 0 ∷ 0 ∷ 0 ∷ 9 ∷ b'c' ∷ b'p' ∷ b'u' ∷ 0 ∷ [])

abbrev blocks : Fdt
blocks = record {
  header = 0;
  memory_reservation_block = 0;
  structure_block = 0;
  strings_block = 48;
}

second_cpu : Block tree 8 24 3 (24 ∷ [])
unfolding cell
second_cpu =
    begin_node 24 2 5 [] refl (read_string tree 28 5 refl) (omega arith)
      (end_node 36 1 [] refl (end_node 40 0 [] refl (block_end 44 refl)))

tree-Block : Block tree 8 0 6 (0 ∷ 8 ∷ 24 ∷ [])
unfolding cell
tree-Block = begin_node 0 5 0 (8 ∷ 24 ∷ []) refl (read_string tree 4 0 refl) (omega arith) (
    begin_node 8 4 5 (24 ∷ []) refl (read_string tree 12 5 refl) (omega arith)
      (end_node 20 3 (24 ∷ []) refl second_cpu))

cpu_zero : HasName tree 48 8
cpu_zero =
    same_byte 12 48 (λ e. omega arith) (λ e. omega arith) refl
      (same_byte 13 49 (λ e. omega arith) (λ e. omega arith) refl
        (same_byte 14 50 (λ e. omega arith) (λ e. omega arith) refl
          (same_end 15 51 (inr refl) refl)))

cpu_one : HasName tree 48 24
cpu_one =
    same_byte 28 48 (λ e. omega arith) (λ e. omega arith) refl
      (same_byte 29 49 (λ e. omega arith) (λ e. omega arith) refl
        (same_byte 30 50 (λ e. omega arith) (λ e. omega arith) refl
          (same_end 31 51 (inr refl) refl)))

root_other : ¬ HasName tree 48 0
root_other (same_end _ _ e z) = omega (arith, z)
root_other (same_byte _ _ z a e n) = z refl

two_harts : Cpus tree 48 (0 ∷ 8 ∷ 24 ∷ []) 2
two_harts = other 0 2 (8 ∷ 24 ∷ []) root_other (
    cpu 8 5 1 (24 ∷ []) cpu_zero (read_string tree 12 5 refl) (λ e. omega arith)
      (cpu 24 5 0 [] cpu_one (read_string tree 28 5 refl) (λ e. omega arith) no_nodes))

count_cpus_lem_example : count_cpus 3 7 8 tree blocks 48 none 0 ≡ some 2
count_cpus_lem_example =
    count_cpus_lem 3 7 8 tree blocks 48 tree-Block (omega arith) two_harts (omega arith)
