-- ===== src/Kernel/Sched.antt =====
-- kernel/sched.c: schedule(), sys_pause() and sys_nice(). switch_to() of kernel/trap.S sets the current
-- slot.
pub mod Choice
pub mod Fair
pub mod Termination
use mathlib.Core.Option
use rv.Common.{
  ℕ, zero, suc, ◌+◌, ◌-◌, ◌/◌, ◌%◌, ◌^◌, Option, none, some, Bool, true, false, ◌&&◌, ltb, ◌==◌,
  not, if◌then◌else◌,
}
use rv.Common.Bits.{set_bit, and32, and_not32}
use rv.Kernel.Task.{
  Task, Tasks, task_at, modify, each_but_first, nr_tasks, task_running, task_interruptible,
  is_nonneg,
}

-- ~(_S(SIGKILL) | _S(SIGSTOP))
abbrev pub blockable : ℕ
blockable = 0xfffbfeff

unfoldable pub check_alarm : ℕ → Task → Task
check_alarm jiffies t =
    if not (t.alarm == 0) && ltb t.alarm jiffies
    then record t { signal = set_bit t.signal 13; alarm = 0 }
    else t

unfoldable pub wake_signalled : Task → Task
wake_signalled t =
    if not (and_not32 t.signal (and32 blockable t.blocked) == 0) && t.state == task_interruptible
    then record t { state = task_running }
    else t

-- The first loop of schedule().
unfoldable pub check_signals : ℕ → Tasks → Tasks
check_signals jiffies ts = each_but_first (λ t. wake_signalled (check_alarm jiffies t)) ts

-- `counter > c` of the loop: `none` is the -1 of its start, and any other c is not negative.
abbrev pub above : ℕ → Option ℕ → Bool
above n none = is_nonneg n
above n (some c) = is_nonneg n && ltb c n

abbrev pub is_zero : Option ℕ → Bool
is_zero none = false
is_zero (some c) = c == 0

-- One step of `while (--i)`: `c` and `next` after slot i.
unfoldable pub consider : Option Task → ℕ → Option ℕ × ℕ → Option ℕ × ℕ
consider none i (c, next) = (c, next)
consider (some t) i (c, next) =
    if t.state == task_running && above t.counter c then (some t.counter, i) else (c, next)

-- The slots i, i - 1, ..., 1.
unfoldable pub pick : Tasks → ℕ → Option ℕ × ℕ → Option ℕ × ℕ
pick ts zero best = best
pick ts (suc i) best = pick ts i (consider (task_at ts (suc i)) (suc i) best)

-- `x >> 1` for a long
abbrev pub halved : ℕ → ℕ
halved x = if is_nonneg x then x / 2 else x / 2 + 2 ^ 31

-- The sum of two longs wraps around.
unfoldable pub recredit : Task → Task
recredit t = record t { counter = (halved t.counter + t.priority) % 2 ^ 32 }

abbrev pub picked : Tasks → Option ℕ × ℕ
picked ts = pick ts (nr_tasks - 1) (none, 0)

-- The scheduler proper; `none` when the fuel runs out.
unfoldable pub choose : ℕ → Tasks → Option (Tasks × ℕ)
choose zero ts = none
choose (suc fuel) ts =
    let again = choose fuel (each_but_first recredit ts) in
    if is_zero (picked ts).0 then again else some (ts, (picked ts).1)

-- The state that the scheduler works on.
pub record Kernel : Type 0 where
  pub task : Tasks
  pub current : ℕ
  pub jiffies : ℕ

abbrev switch_to : Kernel → Tasks × ℕ → Kernel
switch_to k (ts, next) = record k { task = ts; current = next }

unfoldable pub schedule : ℕ → Kernel → Option Kernel
schedule fuel k = Option.map (switch_to k) (choose fuel (check_signals k.jiffies k.task))

abbrev pub on_current : (Task → Task) → Kernel → Kernel
on_current f k = record k { task = modify k.task k.current f }

unfoldable pub sys_pause : ℕ → Kernel → Option Kernel
sys_pause fuel k = schedule fuel (on_current (λ t. record t { state = task_interruptible }) k)

-- `current->priority - increment` for two longs, which wraps around.
abbrev pub lowered : ℕ → ℕ → ℕ
lowered priority increment = (priority + 2 ^ 32 - increment % 2 ^ 32) % 2 ^ 32

unfoldable pub sys_nice : ℕ → Task → Task
sys_nice increment t =
    if is_nonneg (lowered t.priority increment)
    then record t { priority = lowered t.priority increment }
    else t
