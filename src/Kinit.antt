-- ===== src/Kinit.antt =====
-- kernel/src/kernel.c: the harts that are counted and started, and what a hart does before its first
-- task.
pub mod Boot
pub mod Count
mod Tests
use Prim.Native.Nat.{bit_or}
use ilo_pali.Prelude.{
  ℕ, zero, suc, ◌+◌, ◌*◌, ◌^◌, Option, none, some, List, [], ◌∷◌, ◌==◌, if◌then◌else◌, add64, sub64,
  mul64,
}
use ilo_pali.Bytes.{Region}
use ilo_pali.Fdt.{Fdt, fdt_find}
use ilo_pali.Process.{Trap, Kernel, set_mmu}

abbrev pub stack_size : ℕ
stack_size = 0x8000

-- The boot trap of a hart, with the stack of its interrupts below `stack_top`.
unfoldable pub boot_trap : ℕ → ℕ → ℕ → Trap → Trap
boot_trap stack_top do_nothing hartid t = record t {
  hartid = hartid;
  interrupt_stack = sub64 stack_top (mul64 stack_size hartid);
  pid = none;
  pc = do_nothing;
}

-- What a hart does before it jumps to the idle loop, less sscratch and the interrupts that it
-- enables: sbi_set_timer(0) sets the timer off at once.
unfoldable pub init_hart_helper : ℕ → ℕ → ℕ → ℕ → Kernel → Kernel
unfolding boot_trap set_mmu
init_hart_helper stack_top do_nothing hartid mmu k =
    let k' = record k {
      boot = boot_trap stack_top do_nothing hartid k.boot;
      sstatus = bit_or k.sstatus (2 ^ 18 + 2 ^ 8 + 2 ^ 5);
    } in
    record (set_mmu mmu k') { timer = 0 }

-- What the result of a search leads to: none that ends, the end of the loop, or its next round.
abbrev pub count_found : (ℕ → Option ℕ) → ℕ → Option (Option ℕ) → Option ℕ
count_found next count none = none
count_found next count (some none) = some count
count_found next count (some (some node)) = next node

-- while ((last = fdt_find(&devicetree, "cpu", last))) cpu_count++
unfoldable pub count_cpus : ℕ → ℕ → ℕ → Region → Fdt → ℕ → Option ℕ → ℕ → Option ℕ
unfolding fdt_find
count_cpus zero turns limit m fdt name last count = none
count_cpus (suc rounds) turns limit m fdt name last count =
    count_found (λ node. count_cpus rounds turns limit m fdt name (some node) (count + 1)) count
      (fdt_find turns limit m fdt name last)

-- the harts from `i` on that are started, of which there are `rounds`, less the one that runs
unfoldable pub start_harts : ℕ → ℕ → ℕ → List ℕ
start_harts hartid i zero = []
start_harts hartid i (suc rounds) =
    let rest = start_harts hartid (i + 1) rounds in if i == hartid then rest else i ∷ rest
