-- ===== src/Kernel/Wait.antt =====
-- kernel/exit.c: sys_waitpid() and release(). A pid argument is a 32-bit pattern; the status goes to
-- the user's word at stat_addr. The calls are cut where they call schedule(): other tasks run there.
pub mod Children
pub mod Reap
use rv.Common.{
  ℕ, zero, suc, ◌+◌, ◌-◌, ◌%◌, ◌^◌, Option, none, some, Bool, true, false, ltb, ◌==◌, not, ◌&&◌,
  if◌then◌else◌, set,
}
use rv.Common.Bits.{clear_bit}
use rv.Kernel.Task.{
  Task, Tasks, task_at, modify, is_pos, minus_one, nr_tasks, task_zombie, task_stopped,
  task_interruptible,
}
use rv.Kernel.Sched.{Kernel, on_current}
use rv.Mm.State.{M, pure, ◌>>=◌, ◌>>◌}
use rv.Mm.Frames.{free_page}
use rv.Mm.Area.{verify_area, put_fs_long}

-- -pid
abbrev pub negated : ℕ → ℕ
negated pid = (2 ^ 32 - pid) % 2 ^ 32

-- The tests before the switch, for the task `t` in slot `i`; `current` is the slot of the caller `c`.
abbrev pub is_waited : ℕ → ℕ → Task → ℕ → Task → Bool
is_waited pid current c i t =
    not (i == current)
    && t.father == c.pid
    && (if is_pos pid
        then t.pid == pid
        else if pid == 0
        then t.pgrp == c.pgrp
        else if pid == minus_one
        then true
        else t.pgrp == negated pid)

pub data Scan : Type 0 where
  stopped : ℕ → Task → Scan
  reaped : ℕ → Task → Scan
  -- the end of the table, with `flag`
  nothing : Bool → Scan

-- The loop over the slots n, ..., 1 for the children that `sel` accepts.
unfoldable pub wait_scan : (ℕ → Task → Bool) → Bool → ℕ → Tasks → Bool → Scan
wait_scan sel untraced zero ts flag = nothing flag
wait_scan sel untraced (suc n) ts flag =
    let skip = wait_scan sel untraced n ts flag in
    let alive = wait_scan sel untraced n ts true in
    elim (task_at ts (suc n)) [
      | none ↦ skip
      | some t ↦
          if not (sel (suc n) t)
          then skip
          else if t.state == task_stopped
          then (if untraced then stopped (suc n) t else skip)
          else if t.state == task_zombie
          then reaped (suc n) t
          else alive
    ]

-- release() up to its call of schedule(): the slot is emptied and the page of the task is freed.
unfoldable pub release : ℕ → ℕ → Tasks → M Tasks
release page i ts = do free_page page; pure (set ts i none)

pub data Waited : Type 0 where
  -- the value returned, behind the status stored
  returns : ℕ → Kernel → Waited
  -- in the schedule() of release(), with `flag` and `code`; it goes on with after_release()
  releases : ℕ → ℕ → Kernel → Waited
  -- WNOHANG: 0
  not_yet : Waited
  echild : Waited
  -- asleep in schedule() until woken_up()
  sleeps : Kernel → Waited

abbrev pub credit : Task → Task → Task
credit t c = record c { cutime = c.cutime + t.utime; cstime = c.cstime + t.stime }

-- What the call does with what the loop has found.
abbrev pub outcome : (ℕ → ℕ) → ℕ → Bool → Kernel → Task → Scan → M Waited
outcome page stat_addr nohang k c (stopped i t) = do
  put_fs_long c.pgdir 0x7f stat_addr
  pure (returns t.pid k)
outcome page stat_addr nohang k c (reaped i t) = do
  ts ← release (page i) i (modify k.task k.current (credit t))
  pure (releases t.pid t.exit_code (record k { task = ts }))
outcome page stat_addr nohang k c (nothing true) = pure (
    if nohang
    then not_yet
    else sleeps (on_current (λ c. record c { state = task_interruptible }) k))
outcome page stat_addr nohang k c (nothing false) = pure echild

-- From `repeat` on. The task in slot i is in the page at `page i`.
unfoldable pub wait_repeat : (ℕ → ℕ) → ℕ → ℕ → Bool → Bool → Kernel → Task → M Waited
wait_repeat page pid stat_addr nohang untraced k c =
    outcome page stat_addr nohang k c
      (wait_scan (is_waited pid k.current c) untraced (nr_tasks - 1) k.task false)

unfoldable pub sys_waitpid : (ℕ → ℕ) → ℕ → ℕ → Bool → Bool → Kernel → Task → M Waited
sys_waitpid page pid stat_addr nohang untraced k c = do
  verify_area c.pgdir stat_addr 4
  wait_repeat page pid stat_addr nohang untraced k c

-- When release() is back from schedule(): the status is stored, and `flag` is returned.
unfoldable pub after_release : ℕ → ℕ → ℕ → ℕ → M ℕ
after_release pgdir stat_addr flag code = do put_fs_long pgdir code stat_addr; pure flag

-- After schedule(): true for wait_repeat(), false for EINTR.
unfoldable pub woken_up : Task → Bool × Task
woken_up c = let left = clear_bit c.signal 16 in (left == 0, record c { signal = left })
