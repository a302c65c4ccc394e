-- ===== src/Process/Switch.antt =====
-- What `timer_switch` of kernel/src/interrupt.c keeps and what it brings about.
use mathlib.Core.Path.{subst}
use ilo_pali.Prelude.{
  ap, ◌∙◌, sym, ℕ, ◌≤◌, ◌≡◌, ◌≢◌, inl, inr, refl, true, false, some, leb, ◌==◌, if◌then◌else◌,
  add64, arith, Bool-cases,
}
use ilo_pali.Scheduler.{next_scheduled_task}
use ilo_pali.Process.{
  TaskState, running, Trap, Kernel, TrapRef, at_boot, at_task, process_quantum, get_task, set_task,
  trap_at, requeued, same_pid, clear_sstatus, set_mmu, set_timer, resume, switch_to, timer_switch,
}
use ilo_pali.Process.Table.{IsTable, OnHart, requeued-ne, Requeued, requeue_lem}

-- What a switch to the task `next` brings about; `f` is what happened to the other states.
pub record Switched (now next : ℕ) (f : TaskState → TaskState) (k k' : Kernel) : Type 0 where
  pub runs : (k'.tasks next).state ≡ running
  pub others : (i : ℕ) → i ≢ next → (k'.tasks i).state ≡ f (k.tasks i).state
  pub timer : k'.timer ≡ add64 now process_quantum
  pub table : IsTable k'
  pub on_hart : OnHart (at_task next) k'

-- what a switch brings about whatever else is running
record Given (now next : ℕ) (k k' : Kernel) : Type 0 where
  runs : (k'.tasks next).state ≡ running
  others : (i : ℕ) → i ≢ next → (k'.tasks i).state ≡ (k.tasks i).state
  timer : k'.timer ≡ add64 now process_quantum
  table : IsTable k'
  up_to : k'.scheduler.up_to ≡ k.scheduler.up_to

Given-Switched :
    (now next : ℕ) (k k' : Kernel)
    → next ≤ k.scheduler.up_to
    → ((i : ℕ) → (k.tasks i).state ≢ running)
    → Given now next k k'
    → Switched now next (λ s. s) k k'
Given-Switched now next k k' lt idle g = record {
  runs = g.runs;
  others = g.others;
  timer = g.timer;
  table = g.table;
  on_hart = record {
    in_table = λ i e. ground (arith, g.up_to);
    alone = λ i e. elim (Bool-cases (next == i)) [
      | inl h ↦ ap at_task (ground arith)
      | inr h ↦ absurd (idle i (sym (g.others i (λ q. ground arith)) ∙ e))
    ];
  };
}

module _ (now next : ℕ) (k : Kernel) (t : IsTable k) (lt : next ≤ k.scheduler.up_to) where
  -- the task with its new state and trap, on a hart with whatever status and root
  taken_over :
      (trap : Trap) (status root : ℕ)
      → trap.pid ≡ (k.tasks next).trap.pid
      → Given now next k (
          set_timer now
            (record (set_task k next (record (k.tasks next) { state = running; trap = trap })) {
              sstatus = status;
              mmu = root;
            }))
  taken_over trap status root same = record {
    runs = ground arith;
    others = λ i ne. ground arith;
    timer = refl;
    table = record {
      own_pid = λ i h. ground (arith, t.own_pid i h, t.own_pid next lt);
      boot_pid = t.boot_pid;
      scheduled = t.scheduled;
      turn = t.turn;
    };
    up_to = refl;
  }

  switch_to_lem :
      (do_nothing : ℕ) (at : TrapRef)
      → (same_pid (trap_at k at).pid next ≡ true → at ≡ at_task next)
      → (k' : Kernel) × (switch_to do_nothing now at (some next) k ≡ some (at_task next, k'))
        × Given now next k k'
  unfolding switch_to get_task set_mmu
  switch_to_lem do_nothing at own =
      let old = k.tasks next in
      let out : leb k.max_pid next ≡ false = ground (arith, t.scheduled) in
      let stays : Kernel = set_timer now (
        set_task (record k { sstatus = clear_sstatus k.sstatus }) next
          (record old { state = running })) in
      elim (Bool-cases (same_pid (trap_at k at).pid next)) [
        | inl e ↦ (
          stays,
          rw (e, switch_to) (ap (λ a. some (a, stays)) (own e)),
          taken_over old.trap (clear_sstatus k.sstatus) k.mmu refl,
        )
        | inr e ↦ (
          _,
          rw (e, switch_to) (rw (out, resume) refl),
          taken_over
              (record old.trap {
                hartid = (trap_at k at).hartid;
                interrupt_stack = (trap_at k at).interrupt_stack;
              })
              (clear_sstatus k.sstatus) (if old.mmu_data == 0 then k.mmu else old.mmu_data) refl,
        )
      ]

own_trap :
    (at : TrapRef) (k : Kernel) (next : ℕ)
    → IsTable k
    → ((i : ℕ) → at ≡ at_task i → i ≤ k.scheduler.up_to)
    → same_pid (trap_at k at).pid next ≡ true
    → at ≡ at_task next
own_trap at_boot k next t inside e = ground (arith, t.boot_pid)
own_trap (at_task p) k next t inside e =
    let own = (t.own_pid p (inside p refl)).1 in
    let same : same_pid (some p) next ≡ true = rw own at e in ap at_task (ground arith)

-- the requeueing and the switch, whatever tasks are running
switched :
    (do_nothing now : ℕ) (at : TrapRef) (k : Kernel)
    → IsTable k
    → ((i : ℕ) → at ≡ at_task i → i ≤ k.scheduler.up_to)
    → (k₁ : Kernel) × (k' : Kernel) × (timer_switch do_nothing now at k
        ≡ some (at_task k.scheduler.next, k'))
      × Requeued at k k₁
      × Given now k.scheduler.next k₁ k'
unfolding timer_switch next_scheduled_task
switched do_nothing now at k t in_table =
    let (k₁, e, r) = requeue_lem at k t in_table in
    let k₂ : Kernel = record k₁ { scheduler = (next_scheduled_task k₁.scheduler).1 } in
    let t₂ : IsTable k₂ = record {
      own_pid = r.table.own_pid;
      boot_pid = r.table.boot_pid;
      scheduled = r.table.scheduled;
      turn = ground (arith, r.table.turn);
    } in
    let (k', run, g) =
      switch_to_lem now k₁.scheduler.next k₂ t₂ r.table.turn do_nothing at
        (own_trap at k₂ k₁.scheduler.next t₂ (λ i q. omega (arith, in_table i q, r.up_to))) in
    (
      k₁,
      k',
      rw (e, timer_switch) run ∙ ap (λ next. some (at_task next, k')) r.next,
      r,
      subst (λ next. Given now next k₁ k') r.next
          (record {
            runs = g.runs;
            others = g.others;
            timer = g.timer;
            table = g.table;
            up_to = g.up_to;
          }),
    )

-- A timer interrupt leads to the task whose turn it is, in a table that is well formed, whatever
-- tasks are running.
pub timer_switch-IsTable :
    (do_nothing now : ℕ) (at : TrapRef) (k : Kernel)
    → IsTable k
    → ((i : ℕ) → at ≡ at_task i → i ≤ k.scheduler.up_to)
    → (k' : Kernel) × (timer_switch do_nothing now at k ≡ some (at_task k.scheduler.next, k'))
      × IsTable k'
      × (k.scheduler.next ≤ k'.scheduler.up_to)
timer_switch-IsTable do_nothing now at k t in_table =
    let (k₁, k', run, r, g) = switched do_nothing now at k t in_table in
    (k', run, g.table, omega (arith, t.turn, g.up_to, r.up_to))

-- A timer interrupt puts the trap's task back among the ready ones if it was running and gives the
-- hart to the task whose turn it is, which then is the one task that is running, whatever its
-- state was before, with the timer set for one quantum. No other state changes, and the table
-- stays well formed.
pub timer_switch_lem :
    (do_nothing now : ℕ) (at : TrapRef) (k : Kernel)
    → IsTable k
    → OnHart at k
    → (k' : Kernel) × (timer_switch do_nothing now at k ≡ some (at_task k.scheduler.next, k'))
      × Switched now k.scheduler.next requeued k k'
timer_switch_lem do_nothing now at k t h =
    let (k₁, k', run, r, g) = switched do_nothing now at k t h.in_table in
    let s =
      Given-Switched now k.scheduler.next k₁ k' (omega (arith, t.turn, r.up_to))
        (λ i. rw (r.states h.alone i) (requeued-ne (k.tasks i).state)) g in
    (
      k',
      run,
      record {
        runs = s.runs;
        others = λ i ne. s.others i ne ∙ r.states h.alone i;
        timer = s.timer;
        table = s.table;
        on_hart = s.on_hart;
      },
    )
