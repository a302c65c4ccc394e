-- ===== src/Interrupt/Handler.antt =====
-- What the interrupt handler of kernel/src/interrupt.c keeps.
use ilo_pali.Prelude.{
  ℕ, ◌-◌, ◌^◌, ◌≡◌, ◌≤◌, ◌∙◌, ap, subst, sym, refl, some, leb, ◌==◌, if◌then◌else◌, arith,
  Bool-cases, if_true, if_false, inl, inr,
}
use ilo_pali.Process.{running, TrapRef, at_task, get_task, trap_at, timer_switch}
use ilo_pali.Process.Table.{IsTable, OnHart}
use ilo_pali.Process.Switch.{timer_switch_lem, timer_switch-IsTable}
use ilo_pali.Scheduler.{should_switch_now}
use ilo_pali.Interrupt.{
  World, Machine, finish, uart_puts, Handled, returned, stopped, task_of, after_switch, go_on,
  software_interrupt, asynchronous, system_call, next_instruction, is_fault, synchronous,
  interrupt_handler, register_a0,
}

-- The trap at `at` is that of a task of a well-formed table.
pub record Hosts (at : TrapRef) (m : Machine) : Type 0 where
  pub table : IsTable m.kernel
  pub in_table : (i : ℕ) → at ≡ at_task i → i ≤ m.kernel.scheduler.up_to
  pub task : (p : ℕ) × (at ≡ at_task p)

-- The hart runs the task whose trap is at `at`, in a well-formed table, and no other task of the
-- table is running.
pub record Runs (at : TrapRef) (m : Machine) : Type 0 where
  pub table : IsTable m.kernel
  pub on_hart : OnHart at m.kernel
  pub task : (p : ℕ) × (at ≡ at_task p) × ((m.kernel.tasks p).state ≡ running)

-- The handler has returned to a place of which `P` holds, or has stopped the hart.
pub data Proper (P : TrapRef → Machine → Type 0) : Handled → Type 0 where
  proper_return : (at : TrapRef) (m : Machine) → P at m → Proper P (returned at m)
  proper_stop : (m : Machine) → Proper P (stopped m)

-- What an invariant of the handler has to keep.
pub record IsKept (P : TrapRef → Machine → Type 0) : Type 0 where
  pub hosts : (at : TrapRef) (m : Machine) → P at m → Hosts at m
  pub same_kernel : (at : TrapRef) (m m' : Machine) → m'.kernel ≡ m.kernel → P at m → P at m'
  pub next :
      (p : ℕ) (m : Machine) → P (at_task p) m → P (at_task p) (next_instruction (at_task p) m)
  pub timer :
      (do_nothing now : ℕ) (at : TrapRef) (m : Machine)
      → P at m
      → Proper P (after_switch m (timer_switch do_nothing now at m.kernel))

module _ {P : TrapRef → Machine → Type 0} (kept : IsKept P) (w : World) (now p : ℕ) where
  present :
      (m : Machine)
      → P (at_task p) m
      → task_of m.kernel (trap_at m.kernel (at_task p)).pid ≡ some (m.kernel.tasks p)
  unfolding get_task
  present m r =
      let h = kept.hosts (at_task p) m r in
      let inside = h.in_table p refl in
      ap (task_of m.kernel) (h.table.own_pid p inside).1 ∙ ground (arith, h.table.scheduled)

  go_on_lem : (m : Machine) → P (at_task p) m → go_on w now (at_task p) m ≡ returned (at_task p) m
  unfolding go_on should_switch_now
  go_on_lem m r = ap (finish w now (at_task p) m) (present m r)

  go_on-Proper : (m : Machine) → P (at_task p) m → Proper P (go_on w now (at_task p) m)
  go_on-Proper m r = subst (Proper P) (sym (go_on_lem m r)) (proper_return (at_task p) m r)

  system_call-Proper : (m : Machine) → P (at_task p) m → Proper P (system_call w now (at_task p) m)
  system_call-Proper m r = elim (Bool-cases ((trap_at m.kernel (at_task p)).xs register_a0 == 0)) [
    | inl e ↦
        subst (Proper P) (sym (if_true _ _ e ∙ ap (uart_puts w now (at_task p) m) (present m r)))
          (go_on-Proper _ (kept.same_kernel (at_task p) m _ refl r))
    | inr e ↦
        subst (Proper P) (sym (if_false _ _ e))
          (go_on-Proper _ (kept.same_kernel (at_task p) m _ refl r))
  ]

  synchronous-Proper :
      (cause : ℕ) (m : Machine) → P (at_task p) m → Proper P (synchronous w now cause (at_task p) m)
  synchronous-Proper cause m r = elim (Bool-cases (cause == 3)) [
    | inl e ↦
        subst (Proper P) (sym (if_true _ _ e))
          (go_on-Proper _ (kept.same_kernel (at_task p) m _ refl r))
    | inr e ↦ subst (Proper P) (sym (if_false _ _ e)) (elim (Bool-cases (cause == 8)) [
      | inl e ↦ subst (Proper P) (sym (if_true _ _ e)) (system_call-Proper _ (kept.next p m r))
      | inr e ↦ subst (Proper P) (sym (if_false _ _ e)) (elim (Bool-cases (is_fault cause)) [
        | inl e ↦ subst (Proper P) (sym (if_true _ _ e)) (proper_stop _)
        | inr e ↦ subst (Proper P) (sym (if_false _ _ e)) (proper_stop _)
      ])
    ])
  ]

-- The two halves of the handler, by the top bit of the cause.
pub interrupt_handler-if :
    (w : World) (now claimed cause : ℕ) (at : TrapRef) (m : Machine)
    → interrupt_handler w now claimed cause at m ≡ (
        if leb (2 ^ 63) cause
        then asynchronous w now claimed (cause - 2 ^ 63) at m
        else synchronous w now cause at m)
unfolding interrupt_handler
interrupt_handler-if w now claimed cause at m = refl

module _ {P : TrapRef → Machine → Type 0} (kept : IsKept P) where
  asynchronous-Proper :
      (w : World) (now claimed cause p : ℕ) (m : Machine)
      → P (at_task p) m
      → Proper P (asynchronous w now claimed cause (at_task p) m)
  asynchronous-Proper w now claimed cause p m r = elim (Bool-cases (cause == 1)) [
    | inl e ↦
        subst (Proper P)
          (sym (
            if_true _ _ e ∙ ap (software_interrupt w now (at_task p) m) (present kept w now p m r)))
          (go_on-Proper kept w now p m r)
    | inr e ↦ subst (Proper P) (sym (if_false _ _ e)) (elim (Bool-cases (cause == 5)) [
      | inl e ↦ subst (Proper P) (sym (if_true _ _ e)) (kept.timer w.do_nothing now (at_task p) m r)
      | inr e ↦ subst (Proper P) (sym (if_false _ _ e)) (elim (Bool-cases (cause == 9)) [
        | inl e ↦
            subst (Proper P) (sym (if_true _ _ e))
              (go_on-Proper kept w now p _ (kept.same_kernel (at_task p) m _ refl r))
        | inr e ↦ subst (Proper P) (sym (if_false _ _ e)) (proper_stop _)
      ])
    ])
  ]

  of_task :
      (w : World) (now claimed cause p : ℕ) (m : Machine)
      → P (at_task p) m
      → Proper P (interrupt_handler w now claimed cause (at_task p) m)
  of_task w now claimed cause p m r = elim (Bool-cases (leb (2 ^ 63) cause)) [
    | inl e ↦
        subst (Proper P)
          (sym (interrupt_handler-if w now claimed cause (at_task p) m ∙ if_true _ _ e))
          (asynchronous-Proper w now claimed (cause - 2 ^ 63) p m r)
    | inr e ↦
        subst (Proper P)
          (sym (interrupt_handler-if w now claimed cause (at_task p) m ∙ if_false _ _ e))
          (synchronous-Proper kept w now p cause m r)
  ]

  -- Whatever the cause of a trap, the handler accesses no task that is not there. It returns to a
  -- place of which what it keeps holds, or it stops the hart.
  pub handler-Proper :
      (w : World) (now claimed cause : ℕ) (at : TrapRef) (m : Machine)
      → P at m
      → Proper P (interrupt_handler w now claimed cause at m)
  handler-Proper w now claimed cause at m r =
      let (p, e) = (kept.hosts at m r).task in
      subst (λ a. Proper P (interrupt_handler w now claimed cause a m)) (sym e)
        (of_task w now claimed cause p m (subst (λ a. P a m) e r))

pub Hosts-IsKept : IsKept Hosts
Hosts-IsKept = record {
  hosts = λ at m h. h;
  same_kernel = λ at m m' e h. record {
    table = subst IsTable (sym e) h.table;
    in_table = λ i q. subst (λ k. i ≤ k.scheduler.up_to) (sym e) (h.in_table i q);
    task = h.task;
  };
  next = λ p m h. record {
    table = record {
      own_pid = λ i lt. ground (arith, h.table.own_pid i lt);
      boot_pid = h.table.boot_pid;
      scheduled = h.table.scheduled;
      turn = h.table.turn;
    };
    in_table = h.in_table;
    task = h.task;
  };
  timer = λ do_nothing now at m h.
      let (k', run, t, le) = timer_switch-IsTable do_nothing now at m.kernel h.table h.in_table in
      subst (Proper Hosts) (sym (ap (after_switch m) run)) (
        proper_return _ _ (record {
          table = t;
          in_table = λ i e. ground arith;
          task = (m.kernel.scheduler.next, refl);
        }));
}

pub Runs-IsKept : IsKept Runs
Runs-IsKept = record {
  hosts = λ at m r. record {
    table = r.table;
    in_table = r.on_hart.in_table;
    task = (let (p, e, runs) = r.task in (p, e));
  };
  same_kernel = λ at m m' e r. record {
    table = subst IsTable (sym e) r.table;
    on_hart = subst (OnHart at) (sym e) r.on_hart;
    task = subst (λ k. (q : ℕ) × (at ≡ at_task q) × ((k.tasks q).state ≡ running)) (sym e) r.task;
  };
  next = λ p m r. record {
    table = record {
      own_pid = λ i lt. ground (arith, r.table.own_pid i lt);
      boot_pid = r.table.boot_pid;
      scheduled = r.table.scheduled;
      turn = r.table.turn;
    };
    on_hart = record {
      in_table = λ i e. r.on_hart.in_table i e;
      alone = λ i e. r.on_hart.alone i (ground arith);
    };
    task = (let (q, e, runs) = r.task in (q, e, ground arith));
  };
  timer = λ do_nothing now at m r.
      let (k', run, s) = timer_switch_lem do_nothing now at m.kernel r.table r.on_hart in
      subst (Proper Runs) (sym (ap (after_switch m) run)) (
        proper_return _ _ (record {
          table = s.table;
          on_hart = s.on_hart;
          task = (m.kernel.scheduler.next, refl, s.runs);
        }));
}
