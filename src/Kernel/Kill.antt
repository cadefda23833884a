-- ===== src/Kernel/Kill.antt =====
-- kernel/exit.c: send_sig(), kill_session(), sys_kill(), tell_father() and what do_exit() does to the
-- task table. `c` is the current task; a pid argument is a 32-bit pattern.
pub mod Targets
use mathlib.Core.Option
use rv.Common.{
  ℕ, zero, suc, ◌-◌, ◌*◌, ◌%◌, Option, none, some, Bool, true, false, ltb, ◌==◌, not, ◌&&◌, ◌||◌,
  if◌then◌else◌, List, [], ◌∷◌, map,
}
use rv.Common.Bits.{set_bit}
use rv.Kernel.Task.{
  Task, Tasks, task_at, modify, each_but_first, is_pos, minus_one, nr_tasks, task_zombie,
}
use rv.Kernel.Sys.{Ret, ok, err, eperm, suser, short}

abbrev pub einval : ℕ
einval = 22

abbrev pub may_signal : Bool → Task → Task → Bool
may_signal priv c p = priv || c.euid == p.euid || suser c

abbrev pub bad_sig : ℕ → Bool
bad_sig sig = ltb sig 1 || ltb 32 sig

-- The error number, 0 for none, and the task with the signal.
unfoldable pub send_sig : ℕ → Bool → Task → Task → ℕ × Task
send_sig sig priv c p =
    if bad_sig sig
    then (einval, p)
    else if may_signal priv c p
    then (0, record p { signal = set_bit p.signal (sig - 1) })
    else (eperm, p)

unfoldable pub kill_session : Task → Tasks → Tasks
kill_session c ts =
    each_but_first
      (λ p. if p.session == c.session then record p { signal = set_bit p.signal 0 } else p) ts

abbrev pub after : ℕ → ℕ → ℕ
after e retval = if e == 0 then retval else e

-- `if (*p && sel(*p)) if (err=send_sig(sig,*p,priv)) retval = err` for the slot i
unfoldable pub signal_slot :
    (Task → Bool) → Bool → ℕ → Task → ℕ → Option Task → Tasks → ℕ → ℕ × Tasks
signal_slot sel priv sig c i none ts retval = (retval, ts)
signal_slot sel priv sig c i (some p) ts retval =
    if sel p
    then (after (send_sig sig priv c p).0 retval, modify ts i (λ p. (send_sig sig priv c p).1))
    else (retval, ts)

-- `while (--p > &FIRST_TASK)` over the slots n, n - 1, ..., 1
unfoldable pub signal_loop : (Task → Bool) → Bool → ℕ → Task → ℕ → Tasks → ℕ → ℕ × Tasks
signal_loop sel priv sig c zero ts retval = (retval, ts)
signal_loop sel priv sig c (suc n) ts retval =
    let (r, ts') = signal_slot sel priv sig c (suc n) (task_at ts (suc n)) ts retval in
    signal_loop sel priv sig c n ts' r

-- The loop for pid == -1. Its `else` belongs to the inner `if`: once a signal has been sent, the rest of
-- the slots are searched for the process group 1, and then the outer loop is at its end.
unfoldable pub signal_all : ℕ → Task → ℕ → Tasks → ℕ → ℕ × Tasks
signal_all sig c zero ts retval = (retval, ts)
signal_all sig c (suc n) ts retval = elim (task_at ts (suc n)) [
  | none ↦ signal_all sig c n ts einval
  | some p ↦
      if (send_sig sig false c p).0 == 0
      then signal_loop (λ p. p.pgrp == 1) false sig c n
          (modify ts (suc n) (λ p. (send_sig sig false c p).1)) retval
      else signal_all sig c n ts (send_sig sig false c p).0
]

abbrev pub ret_of : ℕ × Tasks → Ret × Tasks
ret_of (e, ts) = (if e == 0 then ok 0 else err e, ts)

unfoldable pub sys_kill : ℕ → ℕ → Task → Tasks → Ret × Tasks
sys_kill pid sig c ts =
    if pid == 0
    then ret_of (signal_loop (λ p. p.pgrp == c.pid) true sig c (nr_tasks - 1) ts 0)
    else if is_pos pid
    then ret_of (signal_loop (λ p. p.pid == pid) false sig c (nr_tasks - 1) ts 0)
    else if pid == minus_one
    then ret_of (signal_all sig c (nr_tasks - 1) ts 0)
    else (ok 0, ts)

-- The slot of the father that tell_father() signals; `none` where the task releases itself.
unfoldable pub father_slot : ℕ → ℕ → Tasks → Option ℕ
father_slot pid i [] = none
father_slot pid i (none ∷ ts) = father_slot pid (suc i) ts
father_slot pid i (some t ∷ ts) =
    let rest = father_slot pid (suc i) ts in if t.pid == pid then some i else rest

abbrev pub signal_child : Task → Task
signal_child t = record t { signal = set_bit t.signal 16 }

unfoldable pub tell_father : ℕ → Tasks → Option Tasks
tell_father pid ts =
    if pid == 0 then none else Option.map (λ i. modify ts i signal_child) (father_slot pid 0 ts)

-- do_exit(): the children of the task go to task 1, which is told of those that are zombies.
unfoldable pub adopt_child : Task → Task → Task
adopt_child c t = if t.father == c.pid then record t { father = 1 } else t

abbrev pub is_dead_child : Task → Option Task → Bool
is_dead_child c none = false
is_dead_child c (some t) = t.father == c.pid && t.state == task_zombie

unfoldable pub any_dead_child : Task → Tasks → Bool
any_dead_child c [] = false
any_dead_child c (t ∷ ts) = is_dead_child c t || any_dead_child c ts

unfoldable pub adopt : Task → Tasks → Tasks
adopt c ts =
    let ts' = map (Option.map (adopt_child c)) ts in
    if any_dead_child c ts then modify ts' 1 (λ t. (send_sig 17 true c t).1) else ts'

-- The end of do_exit(): the session is hung up, the task becomes a zombie, and its father is told.
-- The result is the table and whether a father was found.
unfoldable pub become_zombie : ℕ → ℕ → Task → Tasks → Tasks
become_zombie i code c ts =
    modify (if not (c.leader == 0) then kill_session c ts else ts) i
      (λ t. record t { state = task_zombie; exit_code = code })

unfoldable pub exit_tasks : ℕ → ℕ → Task → Tasks → Option Tasks
exit_tasks i code c ts = tell_father c.father (become_zombie i code c (adopt c ts))

-- sys_exit(): `(error_code&0xff)<<8`
unfoldable pub exit_status : ℕ → ℕ
exit_status error_code = error_code % 256 * 256
