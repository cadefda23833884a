-- ===== src/Tests/Signals.antt =====
-- kernel/signal.c, kernel/exit.c: a task that handles SIGINT, and the signals sent to it.
use rv.Common.{
  ℕ, ◌≤◌, ◌≡◌, ◌≢◌, ◌-◌, ◌==◌, refl, some, [], ◌∷◌, arith, true, false, set, if◌then◌else◌,
}
use rv.Common.Bits.{bitwise, bit, bit-zero}
use rv.Kernel.Task.{Task, Tasks, Sigaction, task_at, init_task}
use rv.Kernel.Signal.{
  Trapframe, UserMem, do_signal, do_signals, enter_handler, sys_sigreturn, push_frame, resumes,
}
use rv.Kernel.Signal.Deliver.{IsDue, FindsFirst, do_signals-first}
use rv.Kernel.Signal.Frame.{sigreturn-do_signal, sigreturn-loses-ra}
use rv.Kernel.Kill.{sys_kill}
use rv.Kernel.Kill.Targets.{receive, is_target, sys_kill-receive}

-- A handler at 4096 for signal 2, with the signal itself in its mask.
abbrev on_interrupt : Sigaction
on_interrupt = record { sa_handler = 4096; sa_mask = 2; sa_flags = 0; sa_restorer = 8192 }

abbrev handling : Task
handling = record init_task {
  pid = 5;
  signal = 2;
  sigaction = set init_task.sigaction 1 on_interrupt;
}

abbrev calm : Task
calm = record handling { signal = 0 }

abbrev interrupted : Trapframe
interrupted = record { mepc = 5000; ra = 5100; sp = 65536; a0 = 3; saved = λ _. 0 }

abbrev memory : UserMem
memory = λ _. 0

abbrev entered : Trapframe
entered = record { mepc = 4096; ra = 8192; sp = 65516; a0 = 2; saved = λ _. 0 }

pushed : UserMem
unfolding push_frame
pushed = push_frame memory 65516 8192 2 interrupted

abbrev masked : Task
masked = record calm { blocked = 2 }

do_signal-handling : do_signal interrupted 2 memory calm ≡ resumes entered pushed masked
unfolding do_signal enter_handler pushed bit bitwise
do_signal-handling = refl

due : IsDue handling 2
unfolding bit
due = (refl, refl)

do_signals-first_example :
    (r : ℕ) × FindsFirst handling 2 (some r)
    × ((left : ℕ) × (do_signals interrupted memory handling
          ≡ do_signal interrupted r memory (record handling { signal = left }))
        × ((j : ℕ) → bit left j ≡ (if r - 1 == j then false else bit 2 j)))
do_signals-first_example =
    do_signals-first interrupted memory handling 2 (omega arith) (omega arith) due

nothing-IsDue : (sig : ℕ) → 1 ≤ sig → sig ≤ 32 → ¬ IsDue calm sig
nothing-IsDue sig lo hi d = cc (d.0, bit-zero (sig - 1))

sigreturn-do_signal_example :
    ((sys_sigreturn entered pushed).a0 ≡ 3)
    × ((sys_sigreturn entered pushed).mepc ≡ 5000)
    × ((sys_sigreturn entered pushed).sp ≡ 65536)
sigreturn-do_signal_example =
    sigreturn-do_signal interrupted entered entered 2 memory pushed pushed calm masked (omega arith)
      (omega arith) do_signal-handling refl refl refl refl

bit-masked : bit 2 1 ≡ true
unfolding bit
bit-masked = refl

sigreturn-loses-ra_example :
    ((sys_sigreturn entered pushed).ra ≢ 5100) × (bit masked.blocked 1 ≡ true)
sigreturn-loses-ra_example =
    sigreturn-loses-ra interrupted entered 2 memory pushed calm masked 1 (omega arith) (omega arith)
      (omega arith) (omega arith) bit-masked do_signal-handling

abbrev group : Tasks
group = some init_task ∷ some (record init_task { pid = 5; euid = 7 }) ∷ some handling ∷ []

sys_kill-receive_example :
    task_at (sys_kill 5 2 handling group).1 1
    ≡ some
        (receive (is_target 5 handling) false 2 handling (record init_task { pid = 5; euid = 7 }))
sys_kill-receive_example = sys_kill-receive 5 2 handling group 1 (omega arith)
