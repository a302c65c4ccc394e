-- ===== src/Interrupt.antt =====
-- kernel/src/interrupt.c: what a hart does at an interrupt or an exception, less the system calls
-- that are commented out and the pending bits, which assembly clears. The interrupt controller is
-- seen by the words that are written to it, and the subscribers and their lock, to which nothing is
-- ever added, are left out.

pub mod Handler
pub mod Steps
pub mod Boot
pub mod Controller
pub mod Lock
mod Tests
use Prim.Native.String.{String}
use ilo_pali.Prelude.{
  ℕ, zero, suc, ◌+◌, ◌-◌, ◌*◌, ◌/◌, ◌%◌, ◌^◌, Bool, true, false, not, ◌&&◌, ◌||◌, Option, none,
  some, List, [], ◌∷◌, ltb, leb, ◌==◌, if◌then◌else◌, add64,
}
use ilo_pali.Console.{Output, codes, ◌then_put◌, console_vprintf}
use ilo_pali.Process.{Trap, Task, Kernel, TrapRef, get_task, trap_at, set_pc, timer_switch}
use ilo_pali.Scheduler.{should_switch_now}

abbrev pub register_ra : ℕ
register_ra = 1

abbrev pub register_a0 : ℕ
register_a0 = 10

abbrev pub register_a1 : ℕ
register_a1 = 11

-- CONTEXT(hartid, machine)
abbrev pub context : ℕ → ℕ → ℕ
context hartid machine = 2 * hartid + machine

-- What the handler finds around it: the strings in memory, where the names of the tasks and the text
-- "<none>" stand, the address of the idle loop, and the base of the interrupt controller.
pub record World : Type 0 where
  pub text : ℕ → List ℕ
  pub name_at : ℕ → ℕ
  pub none_at : ℕ
  pub do_nothing : ℕ
  pub plic_base : ℕ

-- `plic a` is the last word written to the controller at `a`; `printed` is what the console got.
pub record Machine : Type 0 where
  pub kernel : Kernel
  pub plic : ℕ → ℕ
  pub printed : Output

-- What a call comes to: a trap to go on with, an access to a task that is not there, or the loop
-- `while(1)`.
pub data Handled : Type 0 where
  returned : TrapRef → Machine → Handled
  null_access : Handled
  stopped : Machine → Handled

-- a negative pid is `none`
abbrev pub task_of : Kernel → Option ℕ → Option Task
task_of k none = none
task_of k (some pid) = get_task k pid

-- a pid as a word
abbrev pub pid_word : Option ℕ → ℕ
pid_word none = 2 ^ 64 - 1
pid_word (some pid) = pid

abbrev pub print : World → String → List ℕ → Machine → Machine
print w format args m = record m {
  printed = m.printed then_put console_vprintf w.text (codes format) args;
}

-- task ? task->name : "<none>"
abbrev pub name_or_none : World → Option ℕ → Option Task → ℕ
name_or_none w pid none = w.none_at
name_or_none w pid (some t) = w.name_at (pid_word pid)

abbrev pub after_switch : Machine → Option (TrapRef × Kernel) → Handled
after_switch m none = null_access
after_switch m (some (at, k)) = returned at (record m { kernel = k })

-- The end of the handler, which reads the priority of the trap's task.
abbrev pub finish : World → ℕ → TrapRef → Machine → Option Task → Handled
finish w now at m none = null_access
finish w now at m (some t) =
    if should_switch_now (trap_at m.kernel at).pid t.priority
    then after_switch m (timer_switch w.do_nothing now at m.kernel)
    else returned at m

unfoldable pub go_on : World → ℕ → TrapRef → Machine → Handled
unfolding get_task should_switch_now timer_switch
go_on w now at m = finish w now at m (task_of m.kernel (trap_at m.kernel at).pid)

-- what follows a switch whose result is not used
abbrev pub drop_switch : World → ℕ → TrapRef → Machine → Option (TrapRef × Kernel) → Handled
drop_switch w now at m none = null_access
drop_switch w now at m (some (at', k')) = go_on w now at (record m { kernel = k' })

-- The software interrupt, by the task of the trap.
abbrev pub software_interrupt : World → ℕ → TrapRef → Machine → Option Task → Handled
software_interrupt w now at m none =
    drop_switch w now at m (timer_switch w.do_nothing now at m.kernel)
software_interrupt w now at m (some t) = go_on w now at m

-- the register of the controller that a hart reads an interrupt from and gives it back to
abbrev pub claim_register : World → ℕ → ℕ
claim_register w hartid = w.plic_base + 0x200004 + 0x1000 * context hartid 1

abbrev pub write_plic : ℕ → ℕ → Machine → Machine
write_plic a v m = record m { plic = λ b. if a == b then v else m.plic b }

-- `claimed` is what the register reads.
abbrev pub external_interrupt : World → ℕ → ℕ → TrapRef → Machine → Handled
external_interrupt w now claimed at m =
    go_on w now at (write_plic (claim_register w (trap_at m.kernel at).hartid) claimed m)

abbrev pub asynchronous : World → ℕ → ℕ → ℕ → TrapRef → Machine → Handled
asynchronous w now claimed cause at m =
    let trap = trap_at m.kernel at in
    if cause == 1
    then software_interrupt w now at m (task_of m.kernel trap.pid)
    else if cause == 5
    then after_switch m (timer_switch w.do_nothing now at m.kernel)
    else if cause == 9
    then external_interrupt w now claimed at m
    else stopped (
        print w "async cause: %lx\ntrap location: %lx\ntrap caller: %lx\n"
          (cause ∷ trap.pc ∷ trap.xs register_ra ∷ []) m)

-- The call `uart_puts`, by the task of the trap.
abbrev pub uart_puts : World → ℕ → TrapRef → Machine → Option Task → Handled
uart_puts w now at m none = null_access
uart_puts w now at m (some t) =
    let trap = trap_at m.kernel at in
    go_on w now at (
      print w "[PID 0x%lx (%s) @ hartid 0x%lx] %s\n"
        (pid_word trap.pid ∷ w.name_at (pid_word trap.pid) ∷ trap.hartid ∷ trap.xs register_a1 ∷ [])
        m)

abbrev pub unknown_call : World → ℕ → TrapRef → Machine → Handled
unknown_call w now at m =
    go_on w now at (print w "unknown syscall 0x%lx\n" ((trap_at m.kernel at).xs register_a0 ∷ []) m)

-- The switch on the number of a system call, behind `trap->pc += 4`.
abbrev pub system_call : World → ℕ → TrapRef → Machine → Handled
system_call w now at m =
    let trap = trap_at m.kernel at in
    if trap.xs register_a0 == 0
    then uart_puts w now at m (task_of m.kernel trap.pid)
    else unknown_call w now at m

-- the address and access faults
abbrev pub is_fault : ℕ → Bool
is_fault cause =
    leb cause 2 || (leb 4 cause && leb cause 7) || (cause == 12) || (cause == 13) || (cause == 15)

abbrev pub next_instruction : TrapRef → Machine → Machine
next_instruction at m = record m { kernel = set_pc (add64 (trap_at m.kernel at).pc 4) at m.kernel }

-- what is printed of a fault
abbrev pub fault_arguments : World → ℕ → TrapRef → Machine → List ℕ
fault_arguments w cause at m =
    let trap = trap_at m.kernel at in
    cause
    ∷ trap.pc
    ∷ trap.xs register_ra
    ∷ pid_word trap.pid
    ∷ name_or_none w trap.pid (task_of m.kernel trap.pid)
    ∷ []

abbrev pub synchronous : World → ℕ → ℕ → TrapRef → Machine → Handled
synchronous w now cause at m =
    if cause == 3
    then go_on w now at (print w "breakpoint\n" [] m)
    else if cause == 8
    then system_call w now at (next_instruction at m)
    else if is_fault cause
    then stopped (
        print w "KERNEL PANIC! INITD FAULTED!\n" [] (
          print w "cause: %lx\ntrap location: %lx\ntrap caller: %lx\ntrap process: %lx (%s)\n"
            (fault_arguments w cause at m) m))
    else stopped (
        print w "cause: %lx\ntrap location: %lx\ntrap caller: %lx\ntrap task: %lx (%s)\n"
          (fault_arguments w cause at m) m)

unfoldable pub interrupt_handler : World → ℕ → ℕ → ℕ → TrapRef → Machine → Handled
unfolding get_task go_on timer_switch console_vprintf
interrupt_handler w now claimed cause at m =
    if leb (2 ^ 63) cause
    then asynchronous w now claimed (cause - 2 ^ 63) at m
    else synchronous w now cause at m
