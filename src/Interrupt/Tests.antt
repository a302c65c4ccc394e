-- ===== src/Interrupt/Tests.antt =====
-- Interrupts of two tasks and of an idle hart, and a device tree with an interrupt controller.
use ilo_pali.Prelude.{
  First, first_here, first_later, ℕ, zero, suc, ◌+◌, ◌-◌, ◌*◌, ◌/◌, ◌%◌, inl, ◌^◌, ◌<◌, ◌≡◌, ◌≢◌,
  ◌∙◌, ap, refl, true, some, List, [], ◌∷◌, ◌==◌, if◌then◌else◌, arith, ◌≤◌,
}
use ilo_pali.Bytes.{Region, byte_at, byte_at-bytes}
use ilo_pali.Process.{
  Kernel, at_boot, at_task, running, ready, dead, TaskState, requeued, timer_switch,
}
use ilo_pali.Process.Samples.{table_of}
use ilo_pali.Process.Table.{IsTable}
use ilo_pali.Process.Switch.{Switched, timer_switch_lem}
use ilo_pali.Interrupt.{World, Machine, returned, null_access, after_switch, interrupt_handler}
use ilo_pali.Interrupt.Handler.{Hosts, Runs, interrupt_handler-if}
use ilo_pali.Interrupt.Steps.{Reach, here, step, interrupt_step, reach-Runs, reach-no_null}
use ilo_pali.Interrupt.Boot.{Fatal, boot-Fatal}
use ilo_pali.Interrupt.Controller.{Controller, Inited, init_interrupts, init_interrupts_lem}
use ilo_pali.Mmu.Address.{phys2safe}
use ilo_pali.Fdt.{Fdt, cell, fdt_begin_node}
use ilo_pali.Fdt.Words.{BytesOf}
use ilo_pali.Fdt.Names.{read_string, same_end, same_byte}
use ilo_pali.Fdt.Keys.{SameString}
use ilo_pali.Fdt.Keys as Keys
use ilo_pali.Fdt.Find.{Block, block_end, begin_node, end_node, property, HasName}
use ilo_pali.Fdt.Property.Gets.{Node, HasKey}
use ilo_pali.Fdt.Property.Gets as Property

abbrev world : World
world = record {
  text = λ a. [];
  name_at = λ pid. 0;
  none_at = 0;
  do_nothing = 0x1000;
  plic_base = 0xc000000;
}

-- Two tasks, of which the first one has a state; task 1 is the next in turn.
abbrev kernel_with : TaskState → Kernel
kernel_with state =
    table_of (λ i. if i == 0 then state else if i == 1 then ready else dead)
      (record { next = 1; up_to = 1 })

abbrev machine_with : TaskState → Machine
machine_with state = record { kernel = kernel_with state; plic = λ a. 0; printed = some [] }

two_tasks : (state : TaskState) → IsTable (kernel_with state)
two_tasks state = record {
  own_pid = λ i h. (refl, refl);
  boot_pid = refl;
  scheduled = omega arith;
  turn = omega arith;
}

zero_on_hart : Runs (at_task 0) (machine_with running)
zero_on_hart = record {
  table = two_tasks running;
  on_hart = record { in_table = λ i e. ground arith; alone = λ i e. ground arith };
  task = (0, refl, refl);
}

zero-Hosts : Hosts (at_task 0) (machine_with running)
zero-Hosts = record { table = two_tasks running; in_table = λ i e. ground arith; task = (0, refl) }

switched :
    (k : Kernel) × (timer_switch 0x1000 500 (at_task 0) (kernel_with running) ≡ some (at_task 1, k))
    × Switched 500 1 requeued (kernel_with running) k
switched =
    timer_switch_lem 0x1000 500 (at_task 0) (kernel_with running) zero_on_hart.table
      zero_on_hart.on_hart

abbrev after_timer : Machine
after_timer = record (machine_with running) { kernel = switched.0 }

timer_interrupt :
    interrupt_handler world 500 0 (2 ^ 63 + 5) (at_task 0) (machine_with running)
    ≡ returned (at_task 1) after_timer
timer_interrupt =
    interrupt_handler-if world 500 0 (2 ^ 63 + 5) (at_task 0) (machine_with running)
    ∙ ap (after_switch (machine_with running)) switched.1

to_one : Reach world (at_task 0) (machine_with running) (at_task 1) after_timer
to_one = step _ _ _ _ here (
    interrupt_step 500 0 (2 ^ 63 + 5) (at_task 0) (machine_with running) (at_task 1) after_timer
      timer_interrupt)

reach-Runs_example : Runs (at_task 1) after_timer
reach-Runs_example =
    reach-Runs world (at_task 0) (machine_with running) (at_task 1) after_timer zero_on_hart to_one

reach-no_null_example : interrupt_handler world 0 0 8 (at_task 1) after_timer ≢ null_access
reach-no_null_example =
    reach-no_null world (at_task 0) (machine_with running) (at_task 1) after_timer 0 0 8 zero-Hosts
      to_one

boot-Fatal_example : Fatal (interrupt_handler world 0 7 (2 ^ 63 + 9) at_boot (machine_with running))
boot-Fatal_example =
    boot-Fatal world 0 7 (2 ^ 63 + 9) (machine_with running) (two_tasks running) (λ e. omega arith)

-- A root with the node `plic`, whose property `reg` has the base 0xc000000 and the length 0x600000,
-- and then the strings "reg" and "plic".
abbrev tree_bytes : List ℕ
tree_bytes =
    0 ∷ 0 ∷ 0 ∷ 1 ∷ 0 ∷ 0 ∷ 0 ∷ 0 ∷ 0 ∷ 0 ∷ 0 ∷ 1 ∷ b'p' ∷ b'l' ∷ b'i' ∷ b'c' ∷ 0 ∷ 0 ∷ 0 ∷ 0 ∷ 0
    ∷ 0 ∷ 0 ∷ 3 ∷ 0 ∷ 0 ∷ 0 ∷ 16 ∷ 0 ∷ 0 ∷ 0 ∷ 0 ∷ 0 ∷ 0 ∷ 0 ∷ 0 ∷ 12 ∷ 0 ∷ 0 ∷ 0 ∷ 0 ∷ 0 ∷ 0 ∷ 0
    ∷ 0 ∷ 0x60 ∷ 0 ∷ 0 ∷ 0 ∷ 0 ∷ 0 ∷ 2 ∷ 0 ∷ 0 ∷ 0 ∷ 2 ∷ 0 ∷ 0 ∷ 0 ∷ 9 ∷ b'r' ∷ b'e' ∷ b'g' ∷ 0
    ∷ b'p' ∷ b'l' ∷ b'i' ∷ b'c' ∷ 0 ∷ []

abbrev tree : Region
tree = byte_at tree_bytes

abbrev blocks : Fdt
blocks = record {
  header = 0;
  memory_reservation_block = 0;
  structure_block = 0;
  strings_block = 60;
}

tree-Block : Block tree 8 0 5 (0 ∷ 8 ∷ [])
unfolding cell
tree-Block = begin_node 0 4 0 (8 ∷ []) refl (read_string tree 4 0 refl) (omega arith) (
    begin_node 8 3 4 [] refl (read_string tree 12 4 refl) (omega arith)
      (property 20 2 [] refl (end_node 48 1 [] refl (end_node 52 0 [] refl (block_end 56 refl)))))

tree-Node : Node tree 8 blocks 0 8 2 (20 ∷ [])
unfolding cell
tree-Node = Property.begin_node 0 8 1 4 (20 ∷ []) refl (read_string tree 12 4 refl) (omega arith) (
    Property.property 20 0 3 [] refl (read_string tree 60 3 refl) (omega arith)
      (Property.node_end 48 refl))

other_name : ¬ HasName tree 64 0
other_name (same_end _ _ e z) = omega (arith, z)
other_name (same_byte _ _ z a e n) = z refl

same_name : HasName tree 64 8
same_name =
    same_byte 12 64 (λ e. omega arith) (λ e. omega arith) refl
      (same_byte 13 65 (λ e. omega arith) (λ e. omega arith) refl
        (same_byte 14 66 (λ e. omega arith) (λ e. omega arith) refl
          (same_byte 15 67 (λ e. omega arith) (λ e. omega arith) refl
            (same_end 16 68 (inl refl) refl))))

plic_node : First (HasName tree 64) (0 ∷ 8 ∷ []) (some 8)
plic_node = first_later 0 (8 ∷ []) (some 8) other_name (first_here 8 [] same_name)

same_key : HasKey tree 8 blocks 60 20
unfolding cell
same_key =
    Keys.same_byte 60 60 (λ e. omega arith) refl
      (Keys.same_byte 61 61 (λ e. omega arith) refl
        (Keys.same_byte 62 62 (λ e. omega arith) refl (Keys.both_end 63 63 refl refl)))

eight : (P : ℕ → Type 0) → P 0 → P 1 → P 2 → P 3 → P 4 → P 5 → P 6 → P 7 → (i : ℕ) → i < 8 → P i
eight P a b c d e f g h zero lt = a
eight P a b c d e f g h (suc zero) lt = b
eight P a b c d e f g h (suc (suc zero)) lt = c
eight P a b c d e f g h (suc (suc (suc zero))) lt = d
eight P a b c d e f g h (suc (suc (suc (suc zero)))) lt = e
eight P a b c d e f g h (suc (suc (suc (suc (suc zero))))) lt = f
eight P a b c d e f g h (suc (suc (suc (suc (suc (suc zero)))))) lt = g
eight P a b c d e f g h (suc (suc (suc (suc (suc (suc (suc zero))))))) lt = h
eight P a b c d e f g h (suc (suc (suc (suc (suc (suc (suc (suc i)))))))) lt = absurd (omega arith)

base_bytes : BytesOf 8 0xc000000 tree 32
base_bytes =
    eight (λ i. tree (32 + i) ≡ 0xc000000 / 2 ^ ((8 - 1 - i) * 8) % 256) refl refl refl refl refl
      refl refl refl

len_bytes : BytesOf 8 0x600000 tree 40
len_bytes =
    eight (λ i. tree (40 + i) ≡ 0x600000 / 2 ^ ((8 - 1 - i) * 8) % 256) refl refl refl refl refl
      refl refl refl

begins : cell tree 8 ≡ fdt_begin_node
unfolding cell
begins = refl

in_range : phys2safe true 0xc000000 + 2 ^ 27 ≤ 2 ^ 64
unfolding phys2safe
in_range = omega arith

init_interrupts_lem_example :
    (c : Controller) × (init_interrupts 6 8 true tree 64 60 1 blocks (λ a. 0) ≡ some c)
    × (c.plic_base ≡ phys2safe true 0xc000000)
    × (c.plic_len ≡ 0x600000)
    × Inited c.plic_base 1 c.plic
init_interrupts_lem_example =
    init_interrupts_lem 6 8 true tree 64 60 1 blocks (λ a. 0) 8 20 0xc000000 0x600000 tree-Block
      (omega arith) plic_node begins tree-Node (omega arith) (omega arith)
      (first_here 20 [] same_key) (byte_at-bytes tree_bytes refl) (omega arith) (omega arith)
      base_bytes len_bytes (omega arith) in_range
