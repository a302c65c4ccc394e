-- ===== src/Process/Tests.antt =====
-- A timer interrupt with two tasks.
use ilo_pali.Prelude.{◌≡◌, refl, some, arith, ◌==◌, if◌then◌else◌}
use ilo_pali.Process.{dead, running, ready, Kernel, at_task, free_pid, timer_switch, requeued}
use ilo_pali.Process.Samples.{table_of}
use ilo_pali.Process.Table.{IsTable, OnHart}
use ilo_pali.Process.Switch.{Switched, timer_switch_lem}

-- Task 0 runs, task 1 is the next in turn, and the others are dead.
abbrev kernel : Kernel
kernel =
    table_of (λ i. if i == 0 then running else if i == 1 then ready else dead)
      (record { next = 1; up_to = 1 })

kernel-IsTable : IsTable kernel
kernel-IsTable = record {
  own_pid = λ i h. (refl, refl);
  boot_pid = refl;
  scheduled = omega arith;
  turn = omega arith;
}

kernel-OnHart : OnHart (at_task 0) kernel
kernel-OnHart = record { in_table = λ i e. ground arith; alone = λ i e. ground arith }

timer_switch_lem_example :
    (k' : Kernel) × (timer_switch 0x1000 500 (at_task 0) kernel ≡ some (at_task 1, k'))
    × Switched 500 1 requeued kernel k'
timer_switch_lem_example =
    timer_switch_lem 0x1000 500 (at_task 0) kernel kernel-IsTable kernel-OnHart

free_two : free_pid kernel ≡ some 2
unfolding free_pid
free_two = refl
