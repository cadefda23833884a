-- ===== src/Kernel/Sys.antt =====
-- kernel/sys.c: the calls on identities, process groups, the heap end and the clock. `int` arguments
-- are 32-bit patterns; an id is stored in an `unsigned short`.
pub mod Ids
pub mod Groups
use mathlib.Core.Option
use rv.Common.{
  ℕ, zero, suc, ◌+◌, ◌-◌, ◌*◌, ◌/◌, ◌%◌, ◌^◌, Option, none, some, Bool, true, false, ltb, leb, ◌==◌,
  not, ◌&&◌, ◌||◌, if◌then◌else◌, List, [], ◌∷◌,
}
use rv.Kernel.Task.{Task, Tasks, task_at, modify, is_pos, minus_one, hz, nr_tasks}

-- What a call returns: a result, or the error number e for -e.
pub data Ret : Type 0 where
  ok : ℕ → Ret
  err : ℕ → Ret

abbrev pub eperm : ℕ
eperm = 1

abbrev pub esrch : ℕ
esrch = 3

abbrev pub short : ℕ → ℕ
short x = x % 2 ^ 16

abbrev pub suser : Task → Bool
suser t = t.euid == 0

-- The second half of sys_setreuid(); `old_ruid` is the real id before the first.
unfoldable pub set_euid : ℕ → ℕ → Task → Ret × Task
set_euid old_ruid euid t =
    if is_pos euid
    then if old_ruid == euid || t.euid == euid || suser t
      then (ok 0, record t { euid = short euid })
      else (err eperm, record t { uid = old_ruid })
    else (ok 0, t)

unfoldable pub sys_setreuid : ℕ → ℕ → Task → Ret × Task
unfolding set_euid
sys_setreuid ruid euid t =
    if is_pos ruid
    then if t.euid == ruid || t.uid == ruid || suser t
      then set_euid t.uid euid (record t { uid = short ruid })
      else (err eperm, t)
    else set_euid t.uid euid t

unfoldable pub sys_setuid : ℕ → Task → Ret × Task
unfolding sys_setreuid
sys_setuid uid t = sys_setreuid uid uid t

unfoldable pub set_egid : ℕ → Task → Ret × Task
set_egid egid t =
    if is_pos egid
    then if t.gid == egid || t.egid == egid || t.sgid == egid || suser t
      then (ok 0, record t { egid = short egid })
      else (err eperm, t)
    else (ok 0, t)

unfoldable pub sys_setregid : ℕ → ℕ → Task → Ret × Task
unfolding set_egid
sys_setregid rgid egid t =
    if is_pos rgid
    then if t.gid == rgid || suser t
      then set_egid egid (record t { gid = short rgid })
      else (err eperm, t)
    else set_egid egid t

unfoldable pub sys_setgid : ℕ → Task → Ret × Task
unfolding sys_setregid
sys_setgid gid t = sys_setregid gid gid t

-- The comparisons are of unsigned longs, and so is the subtraction.
unfoldable pub sys_brk : ℕ → Task → ℕ × Task
sys_brk end_data_seg t =
    if leb t.end_code end_data_seg && ltb end_data_seg ((t.start_stack + 2 ^ 32 - 16384) % 2 ^ 32)
    then (end_data_seg, record t { brk = end_data_seg })
    else (t.brk, t)

-- The loop of sys_setpgid() from the slot `i` on.
unfoldable pub find_pid : ℕ → ℕ → Tasks → Option (ℕ × Task)
find_pid pid i [] = none
find_pid pid i (none ∷ ts) = find_pid pid (suc i) ts
find_pid pid i (some t ∷ ts) =
    let rest = find_pid pid (suc i) ts in if t.pid == pid then some (i, t) else rest

abbrev pub or_self : ℕ → ℕ → ℕ
or_self pid self = if pid == 0 then self else pid

-- `c` is the current task.
unfoldable pub sys_setpgid : ℕ → ℕ → Task → Tasks → Ret × Tasks
sys_setpgid pid pgid c ts = elim (find_pid (or_self pid c.pid) 0 ts) [
  | none ↦ (err esrch, ts)
  | some (i, t) ↦
      if not (t.leader == 0)
      then (err eperm, ts)
      else if not (t.session == c.session)
      then (err eperm, ts)
      else (ok 0, modify ts i (λ t. record t { pgrp = or_self pgid c.pid }))
]

unfoldable pub sys_getpgrp : Task → ℕ
sys_getpgrp t = t.pgrp

unfoldable pub sys_setsid : Task → Ret × Task
sys_setsid t =
    if not (t.leader == 0) && not (suser t)
    then (err eperm, t)
    else (ok t.pid, record t { leader = 1; session = t.pid; pgrp = t.pid; tty = minus_one })

unfoldable pub sys_umask : ℕ → Task → ℕ × Task
sys_umask mask t = (t.umask, record t { umask = mask % 2 ^ 9 })

-- CURRENT_TIME, and the start-up time that sys_stime() makes of the time it is given.
unfoldable pub current_time : ℕ → ℕ → ℕ
current_time startup_time jiffies = (startup_time + jiffies / hz) % 2 ^ 32

unfoldable pub sys_stime : ℕ → ℕ → ℕ → Task → Ret × ℕ
sys_stime time startup_time jiffies t =
    if not (suser t)
    then (err eperm, startup_time)
    else (ok 0, (time + 2 ^ 32 - jiffies / hz) % 2 ^ 32)

-- sys_alarm(): the value returned for the old alarm and the new one. `seconds > 0` sets an alarm.
unfoldable pub sys_alarm : ℕ → ℕ → Task → ℕ × Task
sys_alarm seconds jiffies t = (
  if t.alarm == 0 then 0 else (t.alarm + 2 ^ 32 - jiffies) % 2 ^ 32,
  record t { alarm = if is_pos seconds then (seconds * hz + jiffies) % 2 ^ 32 else 0 },
)
