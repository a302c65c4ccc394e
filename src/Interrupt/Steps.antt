-- ===== src/Interrupt/Steps.antt =====
-- What a hart goes through: a task runs for a while, and the interrupt handler of
-- kernel/src/interrupt.c is called. No other hart takes a step in between.
use ilo_pali.Prelude.{ℕ, ◌≡◌, ◌≢◌, subst, arith}
use ilo_pali.Process.{Kernel, TrapRef, at_task, set_task}
use ilo_pali.Interrupt.{World, Machine, Handled, returned, null_access, stopped, interrupt_handler}
use ilo_pali.Interrupt.Handler.{
  Hosts, Runs, Proper, proper_return, proper_stop, IsKept, Hosts-IsKept, Runs-IsKept,
  handler-Proper,
}

-- A task changes its own registers.
abbrev pub ran : (ℕ → ℕ) → ℕ → ℕ → Kernel → Kernel
ran xs pc p k =
    set_task k p (record (k.tasks p) { trap = record (k.tasks p).trap { xs = xs; pc = pc } })

pub data Step (w : World) : TrapRef → Machine → TrapRef → Machine → Type 0 where
  user_step :
      (xs : ℕ → ℕ) (pc p : ℕ) (m : Machine)
      → Step w (at_task p) m (at_task p) (record m { kernel = ran xs pc p m.kernel })
  interrupt_step :
      (now claimed cause : ℕ) (at : TrapRef) (m : Machine) (at' : TrapRef) (m' : Machine)
      → interrupt_handler w now claimed cause at m ≡ returned at' m'
      → Step w at m at' m'

pub data Reach (w : World) (at : TrapRef) (m : Machine) : TrapRef → Machine → Type 0 where
  here : Reach w at m at m
  step :
      (at' : TrapRef) (m' : Machine) (at'' : TrapRef) (m'' : Machine)
      → Reach w at m at' m'
      → Step w at' m' at'' m''
      → Reach w at m at'' m''

ran-Runs :
    (xs : ℕ → ℕ) (pc p : ℕ) (m : Machine)
    → Runs (at_task p) m
    → Runs (at_task p) (record m { kernel = ran xs pc p m.kernel })
ran-Runs xs pc p m r = record {
  table = record {
    own_pid = λ i lt. ground (arith, r.table.own_pid i lt);
    boot_pid = r.table.boot_pid;
    scheduled = r.table.scheduled;
    turn = r.table.turn;
  };
  on_hart = record {
    in_table = λ i e. r.on_hart.in_table i e;
    alone = λ i e. r.on_hart.alone i (ground arith);
  };
  task = (let (q, e, runs) = r.task in (q, e, ground arith));
}

ran-Hosts :
    (xs : ℕ → ℕ) (pc p : ℕ) (m : Machine)
    → Hosts (at_task p) m
    → Hosts (at_task p) (record m { kernel = ran xs pc p m.kernel })
ran-Hosts xs pc p m h = record {
  table = record {
    own_pid = λ i lt. ground (arith, h.table.own_pid i lt);
    boot_pid = h.table.boot_pid;
    scheduled = h.table.scheduled;
    turn = h.table.turn;
  };
  in_table = h.in_table;
  task = h.task;
}

abbrev LeftBy : (TrapRef → Machine → Type 0) → Handled → Type 0
LeftBy P (returned at m) = P at m
LeftBy P null_access = ⊥
LeftBy P (stopped m) = Unit {0}

module _ {P : TrapRef → Machine → Type 0} where
  Proper-LeftBy : (h : Handled) → Proper P h → LeftBy P h
  Proper-LeftBy _ (proper_return at m r) = r
  Proper-LeftBy _ (proper_stop m) = tt

  Proper-ne : (h : Handled) → Proper P h → h ≢ null_access
  Proper-ne h q e = subst (LeftBy P) e (Proper-LeftBy h q)

-- what a task's own instructions and the handler keep, in every state that they lead to
module _ {P : TrapRef → Machine → Type 0} (kept : IsKept P)
    (ran_keeps : (xs : ℕ → ℕ) (pc p : ℕ) (m : Machine)
      → P (at_task p) m
      → P (at_task p) (record m { kernel = ran xs pc p m.kernel })) where
  after_one :
      (w : World) (at : TrapRef) (m : Machine) (at' : TrapRef) (m' : Machine)
      → Step w at m at' m'
      → P at m
      → P at' m'
  after_one w _ _ _ _ (user_step xs pc p m) r = ran_keeps xs pc p m r
  after_one w _ _ _ _ (interrupt_step now claimed cause at m at' m' e) r =
      subst (LeftBy P) e (Proper-LeftBy _ (handler-Proper kept w now claimed cause at m r))

  all_along :
      (w : World) (at : TrapRef) (m : Machine) (at' : TrapRef) (m' : Machine)
      → P at m
      → Reach w at m at' m'
      → P at' m'
  all_along w at m _ _ r here = r
  all_along w at m _ _ r (step at' m' at'' m'' before s) =
      after_one w at' m' at'' m'' s (all_along w at m at' m' r before)

-- From a hart that runs a task of a well-formed table in which no other task is running, every state
-- that interrupts, exceptions and the tasks' own instructions on this hart lead to is one in which
-- the table is well formed and the task whose trap is on the hart is running, and no other task is.
pub reach-Runs :
    (w : World) (at : TrapRef) (m : Machine) (at' : TrapRef) (m' : Machine)
    → Runs at m
    → Reach w at m at' m'
    → Runs at' m'
reach-Runs w at m at' m' = all_along Runs-IsKept ran-Runs w at m at' m'

-- From a hart that has the trap of a task of a well-formed table, whatever tasks are running, no state
-- that interrupts, exceptions and the tasks' own instructions on this hart lead to is one in which
-- the next interrupt or exception makes the handler access a task that is not there.
pub reach-no_null :
    (w : World) (at : TrapRef) (m : Machine) (at' : TrapRef) (m' : Machine) (now claimed cause : ℕ)
    → Hosts at m
    → Reach w at m at' m'
    → interrupt_handler w now claimed cause at' m' ≢ null_access
reach-no_null w at m at' m' now claimed cause h path = Proper-ne _ (
    handler-Proper Hosts-IsKept w now claimed cause at' m'
      (all_along Hosts-IsKept ran-Hosts w at m at' m' h path))
