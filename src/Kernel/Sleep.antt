-- ===== src/Kernel/Sleep.antt =====
-- kernel/sched.c: sleep_on(), interruptible_sleep_on() and wake_up(). A wait queue is the task that it
-- points to, by its slot; the task below it on the queue is in `tmp` of the sleeper's own call.
use rv.Common.{ℕ, Option, none, some, Bool, true, false, ◌==◌, not, if◌then◌else◌}
use rv.Kernel.Task.{Tasks, modify, task_running, task_interruptible, task_uninterruptible}
use rv.Kernel.Sched.{Kernel, on_current}

abbrev pub Queue : Type 0
Queue = Option ℕ

-- The part before schedule(): the queue, and the `tmp` that the sleeper keeps. `none` for the panic.
unfoldable pub go_to_sleep : ℕ → Queue → Kernel → Option (Queue × Queue × Kernel)
go_to_sleep state queue k =
    if k.current == 0
    then none
    else some (some k.current, queue, on_current (λ t. record t { state = state }) k)

abbrev pub rouse : Queue → Tasks → Tasks
rouse none ts = ts
rouse (some i) ts = modify ts i (λ t. record t { state = task_running })

unfoldable pub sleep_on : Queue → Kernel → Option (Queue × Queue × Kernel)
sleep_on queue k = go_to_sleep task_uninterruptible queue k

-- The part of sleep_on() after schedule().
unfoldable pub slept : Queue → Kernel → Kernel
slept tmp k = record k { task = rouse tmp k.task }

unfoldable pub interruptible_sleep_on : Queue → Kernel → Option (Queue × Queue × Kernel)
interruptible_sleep_on queue k = go_to_sleep task_interruptible queue k

-- The part of interruptible_sleep_on() after schedule(): `true` to go back to `repeat`, where the state
-- is set again, with the queue and the tasks.
unfoldable pub slept_interruptibly : Queue → Queue → Kernel → Bool × Queue × Kernel
slept_interruptibly tmp none k = (false, none, record k { task = rouse tmp k.task })
slept_interruptibly tmp (some i) k =
    if not (i == k.current)
    then (
      true,
      some i,
      on_current (λ t. record t { state = task_interruptible })
          (record k { task = rouse (some i) k.task }),
    )
    else (false, none, record k { task = rouse tmp k.task })

unfoldable pub wake_up : Queue → Kernel → Queue × Kernel
wake_up queue k = (none, record k { task = rouse queue k.task })
