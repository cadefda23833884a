-- ===== src/Kernel/Timer.antt =====
-- kernel/sched.c: add_timer() and do_timer(). The timers are the chain from `next_timer` on; a slot of
-- `timer_list` is in use exactly while it is on the chain, so a slot is free below 64 of them.
pub mod Expiry
pub mod Tick
use mathlib.Core.Option
use rv.Common.{
  ℕ, zero, suc, ◌+◌, ◌-◌, ◌%◌, ◌^◌, Option, none, some, Bool, true, false, ltb, leb, ◌==◌, not,
  ◌||◌, if◌then◌else◌, List, [], ◌∷◌, length,
}
use rv.Kernel.Task.{Task, modify, task_at, is_pos}
use rv.Kernel.Sched.{Kernel, schedule, on_current}

-- A node: the jiffies left after the node before it, and the function to call.
pub record Timer : Type 0 where
  pub jiffies : ℕ
  pub fn : ℕ

abbrev pub Timers : Type 0
Timers = List Timer

abbrev pub time_requests : ℕ
time_requests = 64

-- The loop of add_timer(): the new timer moves along the chain by exchanging the contents of nodes.
unfoldable pub bubble : ℕ → ℕ → Timers → Timers
bubble j fn [] = record { jiffies = j; fn = fn } ∷ []
bubble j fn (t ∷ ts) =
    let rest = bubble (j - t.jiffies) fn ts in
    if ltb t.jiffies j then t ∷ rest else record { jiffies = j; fn = fn } ∷ t ∷ ts

pub data Added : Type 0 where
  ignored : Added
  called : ℕ → Added
  no_slot : Added
  queued : Timers → Added

-- A function is its address, 0 for NULL; `later` is whether jiffies > 0.
unfoldable pub add_timer : ℕ → ℕ → Timers → Added
add_timer jiffies fn ts =
    if fn == 0
    then ignored
    else if leb jiffies 0
    then called fn
    else if leb time_requests (length ts)
    then no_slot
    else queued (bubble jiffies fn ts)

-- `while (next_timer && next_timer->jiffies <= 0)`: what runs, in order, and what stays.
unfoldable pub expire : Timers → List ℕ × Timers
expire [] = ([], [])
expire (t ∷ ts) =
    let (fired, rest) = expire ts in if leb t.jiffies 0 then (t.fn ∷ fired, rest) else ([], t ∷ ts)

unfoldable pub run_timers : Timers → List ℕ × Timers
run_timers [] = ([], [])
run_timers (t ∷ ts) = expire (record t { jiffies = t.jiffies - 1 } ∷ ts)

-- utime or stime
unfoldable pub charge : Bool → Task → Task
charge cpl t = if cpl then record t { utime = t.utime + 1 } else record t { stime = t.stime + 1 }

-- `--current->counter`
abbrev pub less_one : ℕ → ℕ
less_one counter = (counter + (2 ^ 32 - 1)) % 2 ^ 32

-- The counter after a tick, and what becomes of it when it has run out.
unfoldable pub spend : Bool → Task → Task
spend cpl t =
    if is_pos (less_one t.counter)
    then record t { counter = less_one t.counter }
    else record t { counter = if cpl then t.priority else 0 }

abbrev pub has_time : Option Task → Bool
has_time none = false
has_time (some t) = is_pos (less_one t.counter)

-- do_timer(): the timers run before the slice is charged. The result holds what the timers called.
unfoldable pub do_timer : ℕ → Bool → Kernel → Timers → Option (Kernel × List ℕ × Timers)
do_timer fuel cpl k ts =
    let (fired, rest) = run_timers ts in
    let k' = on_current (λ t. spend cpl (charge cpl t)) k in
    if has_time (task_at k.task k.current) || not cpl
    then some (k', fired, rest)
    else Option.map (λ k''. (k'', fired, rest)) (schedule fuel k')
