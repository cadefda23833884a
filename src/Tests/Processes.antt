-- ===== src/Tests/Processes.antt =====
-- kernel/sched.c, kernel/sys.c: a table with the idle task, a user's shell and one of its children.
use rv.Common.{
  ℕ, zero, suc, ◌≤◌, ◌<◌, ◌≡◌, ◌↔◌, ◌-◌, refl, none, some, [], ◌∷◌, arith, subst, false, some-inj,
}
use rv.Common.Bits.{bitwise}
use rv.Kernel.Task.{Task, Tasks, init_task, each_but_first, task_zombie, minus_one, modify}
use rv.Kernel.Sched.{
  Kernel, schedule, choose, check_signals, wake_signalled, check_alarm, pick, consider, sys_nice,
  on_current,
}
use rv.Kernel.Sched.Choice.{IsRunnable}
use rv.Kernel.Sched.Fair.{
  IsBest, IsSmall, IsFairSlice, AllTasks, schedule-IsBest, schedule-IsFairSlice,
}
use rv.Kernel.Sched.Termination.{HasPriority, schedule-total, nice-starves-schedule}
use rv.Kernel.Wait.{sys_waitpid}
use rv.Kernel.Wait.Reap.{IsWaitpid, sys_waitpid-IsReaping}
use rv.Mm.State.{Mem, frame}
use rv.Kernel.Sys.{sys_setreuid, sys_brk}
use rv.Kernel.Sys.Ids.{OneOf, IsAtomic, setreuid-unprivileged}
use rv.Kernel.Sys.Groups.{IsHeapEnd, brk-IsHeapEnd}

abbrev shell : Task
shell = record init_task {
  pid = 2;
  father = 1;
  pgrp = 2;
  session = 2;
  leader = 1;
  uid = 1000;
  euid = 1000;
  suid = 1000;
  gid = 100;
  egid = 100;
  sgid = 100;
  counter = 0;
  end_code = 8192;
  brk = 12288;
  start_stack = 0x7ffff000;
}

abbrev job : Task
job = record shell { pid = 3; father = 2; leader = 0; counter = 7 }

abbrev table : Tasks
table = some init_task ∷ some shell ∷ some job ∷ []

abbrev machine : Kernel
machine = record { task = table; current = 1; jiffies = 500 }

table-All : (P : Task → Type 0) → P shell → P job → AllTasks P table
table-All P p q zero t lo e = absurd (omega arith)
table-All P p q (suc zero) t lo e = subst P (some-inj e) p
table-All P p q (suc (suc zero)) t lo e = subst P (some-inj e) q
table-All P p q (suc (suc (suc i))) t lo e = cc

schedule-machine : schedule 2 machine ≡ some (record machine { current = 2 })
unfolding schedule choose check_signals wake_signalled check_alarm pick consider each_but_first
    bitwise
schedule-machine = refl

schedule-IsBest_example : IsBest table 2 × AllTasks IsSmall table
schedule-IsBest_example =
    schedule-IsBest 2 machine (record machine { current = 2 })
      (table-All IsSmall (omega arith) (omega arith)) schedule-machine

schedule-IsFairSlice_example : AllTasks IsFairSlice table
schedule-IsFairSlice_example =
    schedule-IsFairSlice 2 machine (record machine { current = 2 })
      (table-All IsFairSlice (omega arith) (omega arith)) schedule-machine

schedule-total_example : (k : Kernel) × (schedule 2 machine ≡ some k)
schedule-total_example =
    schedule-total 0 machine (table-All HasPriority (omega arith) (omega arith))

-- The shell alone, about to give up its priority.
abbrev alone : Kernel
alone = record { task = some init_task ∷ some shell ∷ []; current = 1; jiffies = 500 }

alone-only :
    (j : ℕ) (u : Task)
    → 1 ≤ j
    → IsRunnable (check_signals 500 (on_current (sys_nice 15) alone).task) j u
    → j ≡ 1
unfolding check_signals wake_signalled check_alarm each_but_first sys_nice modify
alone-only zero u lo r = absurd (omega arith)
alone-only (suc zero) u lo r = refl
alone-only (suc (suc j)) u lo r = cc (r.0)

nice-starves-schedule_example : schedule 1000 (on_current (sys_nice 15) alone) ≡ none
nice-starves-schedule_example =
    nice-starves-schedule 1000 alone shell (omega arith) (omega arith) refl refl refl alone-only

setreuid-unprivileged_example :
    OneOf (sys_setreuid 0 0 shell).1.uid 1000 1000
    × OneOf (sys_setreuid 0 0 shell).1.euid 1000 1000
    × IsAtomic shell (sys_setreuid 0 0 shell)
setreuid-unprivileged_example =
    setreuid-unprivileged 0 0 shell (omega arith) (omega arith) (omega arith)

brk-IsHeapEnd_example :
    IsHeapEnd (sys_brk 20000 shell).1
    × ((sys_brk 20000 shell).0 ≡ (sys_brk 20000 shell).1.brk)
    × (((8192 ≤ 20000) × (20000 < 0x7ffff000 - 16384)) ↔ ((sys_brk 20000 shell).1.brk ≡ 20000))
brk-IsHeapEnd_example =
    brk-IsHeapEnd 20000 shell (omega arith) (omega arith) (omega arith, omega arith)

-- The shell waits for any child; its job has ended.
abbrev waiting : Kernel
waiting = record machine {
  task =
      some init_task ∷ some shell ∷ some (record job { state = task_zombie; exit_code = 256 }) ∷ [];
}

-- The page of slot i is frame i, and the caller runs in the kernel's space.
abbrev pages : ℕ → ℕ
pages i = frame i

abbrev memory : Mem
memory = record { mem_map = 1 ∷ 1 ∷ 1 ∷ []; word = λ _. 0 }

sys_waitpid-IsReaping_example :
    IsWaitpid pages minus_one 4096 false false waiting shell memory
      (sys_waitpid pages minus_one 4096 false false waiting shell memory)
sys_waitpid-IsReaping_example =
    sys_waitpid-IsReaping pages minus_one 4096 false false waiting shell memory
