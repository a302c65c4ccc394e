-- ===== src/Kinit/Boot.antt =====
-- From `init_processes` of kernel/src/process.c and the programs that kernel/src/kernel.c starts to
-- the first task on a hart.
use ilo_pali.Prelude.{
  ℕ, suc, ◌+◌, ◌^◌, ◌≡◌, ◌≢◌, ◌∙◌, ap, refl, sym, subst, Option, none, some, List, arith, ltb,
  Bool-cases, inl, inr,
}
use ilo_pali.Elf.{Elf}
use ilo_pali.Mmu.Create.{Symbols}
use ilo_pali.Process.{Task, dead, ready, running, Kernel, at_boot, at_task}
use ilo_pali.Process.Table.{IsTable, OnHart}
use ilo_pali.Process.Switch.{timer_switch_lem}
use ilo_pali.Interrupt.{World, Machine, returned, after_switch, interrupt_handler}
use ilo_pali.Interrupt.Handler.{Runs, interrupt_handler-if}
use ilo_pali.Spawn.Start.{TaskSystem, spawn_task_from_elf, init_processes}
use ilo_pali.Spawn.Table.{HasTasks, Outcome, not_executable, no_room, next_task, spawn-Outcome}
use ilo_pali.Kinit.{init_hart_helper}

-- `n` programs were started, each as a task.
pub data Starts (symbols : Symbols) (s : TaskSystem) : ℕ → TaskSystem → Type 0 where
  none_yet : Starts symbols s 0 s
  one_more :
      (n pid : ℕ) (s' s'' : TaskSystem) (elf : Elf) (stack_size : ℕ) (args : List (List ℕ))
      → Starts symbols s n s'
      → spawn_task_from_elf symbols elf stack_size args s' ≡ (some pid, s'')
      → Starts symbols s (suc n) s''

-- the result of a call that returned a task
abbrev After : ℕ → Option ℕ × TaskSystem → Type 0
After n (none, s) = Unit {0}
After n (some pid, s) = HasTasks (suc n) s.kernel

Outcome-After :
    (n : ℕ) (elf : Elf) (s : TaskSystem) (r : Option ℕ × TaskSystem) → Outcome n elf s r → After n r
Outcome-After n elf s _ (not_executable other) = tt
Outcome-After n elf s _ (no_room full) = tt
Outcome-After n elf s _ (next_task s' is h same others) = h

Starts-HasTasks :
    (symbols : Symbols) (s : TaskSystem) (n : ℕ) (s' : TaskSystem)
    → HasTasks 0 s.kernel
    → Starts symbols s n s'
    → HasTasks n s'.kernel
Starts-HasTasks symbols s _ _ h none_yet = h
Starts-HasTasks symbols s _ _ h (one_more n pid s' s'' elf stack_size args before e) =
    subst (After n) e (
      Outcome-After n elf s' _
        (spawn-Outcome symbols elf stack_size args n s' (Starts-HasTasks symbols s n s' h before)))

init_processes-HasTasks :
    (max : ℕ) (junk : ℕ → Task) (k : Kernel)
    → k.scheduler.next ≡ 0
    → k.scheduler.up_to ≡ 0
    → ((i : ℕ) → (junk i).state ≡ dead)
    → HasTasks 0 (init_processes max junk k)
unfolding init_processes
init_processes-HasTasks max junk k next up_to all_dead = record {
  room = omega arith;
  known = up_to;
  first = next;
  own_pid = λ i lt. absurd (omega arith);
  all_ready = λ i lt. absurd (omega arith);
  rest = λ i le. all_dead i;
}

HasTasks-idle : (n : ℕ) (k : Kernel) → HasTasks n k → (i : ℕ) → (k.tasks i).state ≢ running
HasTasks-idle n k h i r = elim (Bool-cases (ltb i n)) [
  | inl e ↦ ready-ne (sym (h.all_ready i (ground arith)) ∙ r)
  | inr e ↦ dead-ne (sym (h.rest i (ground arith)) ∙ r)
]
  where
    ready-ne : ready ≢ running
    ready-ne e = cc

    dead-ne : dead ≢ running
    dead-ne e = cc

module _ (stack_top do_nothing hartid mmu n : ℕ) (k : Kernel) (h : HasTasks (suc n) k) where
  init_hart_helper-IsTable : IsTable (init_hart_helper stack_top do_nothing hartid mmu k)
  unfolding init_hart_helper
  init_hart_helper-IsTable = record {
    own_pid = λ i le. h.own_pid i (omega (arith, h.known));
    boot_pid = refl;
    scheduled = omega (arith, h.known, h.room);
    turn = omega (arith, h.first);
  }

  init_hart_helper-OnHart : OnHart at_boot (init_hart_helper stack_top do_nothing hartid mmu k)
  unfolding init_hart_helper
  init_hart_helper-OnHart = record {
    in_table = λ i e. cc;
    alone = λ i e. absurd (HasTasks-idle (suc n) k h i e);
  }

-- From a table of dead tasks, in which `init_processes` finds nothing else, when at least one program
-- was started and every call returned a task: the first timer interrupt of a hart that has gone
-- through `init_hart_helper` returns to the first task, which runs in a well-formed table, and no
-- other task does.
pub first_timer :
    (symbols : Symbols) (s s' : TaskSystem) (max n : ℕ) (junk : ℕ → Task)
    (stack_top do_nothing hartid mmu now claimed : ℕ) (w : World) (m : Machine)
    → s.kernel.scheduler.next ≡ 0
    → s.kernel.scheduler.up_to ≡ 0
    → ((i : ℕ) → (junk i).state ≡ dead)
    → Starts symbols (record s { kernel = init_processes max junk s.kernel }) (suc n) s'
    → m.kernel ≡ init_hart_helper stack_top do_nothing hartid mmu s'.kernel
    → (m' : Machine) × (interrupt_handler w now claimed (2 ^ 63 + 5) at_boot m
        ≡ returned (at_task 0) m')
      × Runs (at_task 0) m'
unfolding init_hart_helper
first_timer symbols s s' max n junk stack_top do_nothing hartid mmu now claimed w m next up_to
      all_dead starts e =
    let h =
      Starts-HasTasks symbols _ (suc n) s'
        (init_processes-HasTasks max junk s.kernel next up_to all_dead) starts in
    let table =
      subst IsTable (sym e)
        (init_hart_helper-IsTable stack_top do_nothing hartid mmu n s'.kernel h) in
    let hart =
      subst (OnHart at_boot) (sym e)
        (init_hart_helper-OnHart stack_top do_nothing hartid mmu n s'.kernel h) in
    let (k', run, sw) = timer_switch_lem w.do_nothing now at_boot m.kernel table hart in
    let zero_next : m.kernel.scheduler.next ≡ 0 =
      ap (λ (k : Kernel). k.scheduler.next) e ∙ h.first in
    (
      record m { kernel = k' },
      interrupt_handler-if w now claimed (2 ^ 63 + 5) at_boot m
          ∙ ap (after_switch m) run
          ∙ ap (λ p. returned (at_task p) (record m { kernel = k' })) zero_next,
      subst (λ p. Runs (at_task p) (record m { kernel = k' })) zero_next
          (record {
            table = sw.table;
            on_hart = sw.on_hart;
            task = (m.kernel.scheduler.next, refl, sw.runs);
          }),
    )
