-- ===== src/Interrupt/Boot.antt =====
-- The interrupt handler of kernel/src/interrupt.c on a hart that runs no task: its trap is the boot
-- trap, whose pid is negative.
use ilo_pali.Prelude.{
  ℕ, ◌+◌, ◌-◌, ◌^◌, ◌≡◌, ◌≢◌, ◌∙◌, ap, subst, sym, none, leb, ◌==◌, arith, Bool-cases, if_true,
  if_false, inl, inr,
}
use ilo_pali.Process.{at_boot}
use ilo_pali.Process.Table.{IsTable}
use ilo_pali.Process.Switch.{timer_switch-IsTable}
use ilo_pali.Interrupt.{
  World, Machine, Handled, null_access, stopped, task_of, finish, go_on, software_interrupt,
  asynchronous, system_call, synchronous, interrupt_handler, register_a0, drop_switch, is_fault,
  next_instruction, uart_puts,
}
use ilo_pali.Interrupt.Handler.{interrupt_handler-if}

-- The handler has accessed a task that is not there, or has stopped the hart.
pub data Fatal : Handled → Type 0 where
  fatal_access : Fatal null_access
  fatal_stop : (m : Machine) → Fatal (stopped m)

module _ (w : World) (now : ℕ) where
  go_on-boot : (m : Machine) → m.kernel.boot.pid ≡ none → Fatal (go_on w now at_boot m)
  unfolding go_on
  go_on-boot m e =
      subst Fatal (sym (ap (λ p. finish w now at_boot m (task_of m.kernel p)) e)) fatal_access

  software_interrupt-boot :
      (m : Machine)
      → IsTable m.kernel
      → Fatal (software_interrupt w now at_boot m (task_of m.kernel m.kernel.boot.pid))
  software_interrupt-boot m t =
      let (k', run, t', le) =
        timer_switch-IsTable w.do_nothing now at_boot m.kernel t (λ i e. cc) in
      subst Fatal
        (sym (
          ap (λ p. software_interrupt w now at_boot m (task_of m.kernel p)) t.boot_pid
          ∙ ap (drop_switch w now at_boot m) run))
        (go_on-boot (record m { kernel = k' }) t'.boot_pid)

  asynchronous-boot :
      (claimed cause : ℕ) (m : Machine)
      → IsTable m.kernel
      → cause ≢ 5
      → Fatal (asynchronous w now claimed cause at_boot m)
  asynchronous-boot claimed cause m t ne = elim (Bool-cases (cause == 1)) [
    | inl e ↦ subst Fatal (sym (if_true _ _ e)) (software_interrupt-boot m t)
    | inr e ↦ subst Fatal (sym (if_false _ _ e)) (elim (Bool-cases (cause == 5)) [
      | inl e ↦ absurd (ne (ground arith))
      | inr e ↦ subst Fatal (sym (if_false _ _ e)) (elim (Bool-cases (cause == 9)) [
        | inl e ↦ subst Fatal (sym (if_true _ _ e)) (go_on-boot _ t.boot_pid)
        | inr e ↦ subst Fatal (sym (if_false _ _ e)) (fatal_stop _)
      ])
    ])
  ]

  system_call-boot : (m : Machine) → m.kernel.boot.pid ≡ none → Fatal (system_call w now at_boot m)
  system_call-boot m e = elim (Bool-cases (m.kernel.boot.xs register_a0 == 0)) [
    | inl i ↦
        subst Fatal
          (sym (if_true _ _ i ∙ ap (λ p. uart_puts w now at_boot m (task_of m.kernel p)) e))
          fatal_access
    | inr i ↦ subst Fatal (sym (if_false _ _ i)) (go_on-boot _ e)
  ]

  synchronous-boot :
      (cause : ℕ) (m : Machine)
      → m.kernel.boot.pid ≡ none
      → Fatal (synchronous w now cause at_boot m)
  synchronous-boot cause m e = elim (Bool-cases (cause == 3)) [
    | inl i ↦ subst Fatal (sym (if_true _ _ i)) (go_on-boot _ e)
    | inr i ↦ subst Fatal (sym (if_false _ _ i)) (elim (Bool-cases (cause == 8)) [
      | inl i ↦ subst Fatal (sym (if_true _ _ i)) (system_call-boot (next_instruction at_boot m) e)
      | inr i ↦ subst Fatal (sym (if_false _ _ i)) (elim (Bool-cases (is_fault cause)) [
        | inl i ↦ subst Fatal (sym (if_true _ _ i)) (fatal_stop _)
        | inr i ↦ subst Fatal (sym (if_false _ _ i)) (fatal_stop _)
      ])
    ])
  ]

-- On a hart that has its boot trap, with a well-formed table, whatever tasks are running on other
-- harts, every interrupt and every exception but the timer's makes the handler access a task that
-- is not there, or stops the hart.
pub boot-Fatal :
    (w : World) (now claimed cause : ℕ) (m : Machine)
    → IsTable m.kernel
    → cause ≢ 2 ^ 63 + 5
    → Fatal (interrupt_handler w now claimed cause at_boot m)
boot-Fatal w now claimed cause m t ne = elim (Bool-cases (leb (2 ^ 63) cause)) [
  | inl e ↦
      subst Fatal (sym (interrupt_handler-if w now claimed cause at_boot m ∙ if_true _ _ e))
        (asynchronous-boot w now claimed (cause - 2 ^ 63) m t (λ five. ne (ground arith)))
  | inr e ↦
      subst Fatal (sym (interrupt_handler-if w now claimed cause at_boot m ∙ if_false _ _ e))
        (synchronous-boot w now cause m t.boot_pid)
]
