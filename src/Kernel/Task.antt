-- ===== src/Kernel/Task.antt =====
-- include/linux/sched.h: the task structure, the task table and its constants. A pointer to a task
-- is its slot of the table. A `long` or `int` is its bit pattern, a counter and a priority
-- too; pids and times are the numbers below 2 ^ 31, and -1 is `minus_one`.
use rv.Common.{
  zero, ◌≡◌, refl, arith, ◌==◌, if◌then◌else◌, ==_self, ℕ, suc, ◌^◌, ◌-◌, List, [], ◌∷◌, Option,
  none, map, get_or, ltb, Bool, ◌&&◌, replicate,
}
use mathlib.Core.Option

-- struct sigaction; a handler is its address, 0 for SIG_DFL and 1 for SIG_IGN.
pub record Sigaction : Type 0 where
  pub sa_handler : ℕ
  pub sa_mask : ℕ
  pub sa_flags : ℕ
  pub sa_restorer : ℕ

pub record Task : Type 0 where
  pub pgdir : ℕ
  pub state : ℕ
  pub counter : ℕ
  pub priority : ℕ
  pub signal : ℕ
  pub sigaction : List Sigaction
  pub blocked : ℕ
  pub exit_code : ℕ
  pub end_code : ℕ
  pub brk : ℕ
  pub start_stack : ℕ
  pub pid : ℕ
  pub father : ℕ
  pub pgrp : ℕ
  pub session : ℕ
  pub leader : ℕ
  pub uid : ℕ
  pub euid : ℕ
  pub suid : ℕ
  pub gid : ℕ
  pub egid : ℕ
  pub sgid : ℕ
  pub alarm : ℕ
  pub utime : ℕ
  pub stime : ℕ
  pub cutime : ℕ
  pub cstime : ℕ
  pub start_time : ℕ
  pub tty : ℕ
  pub umask : ℕ
  pub pwd : Option ℕ
  pub root : Option ℕ
  pub executable : Option ℕ
  pub close_on_exec : ℕ
  pub filp : List (Option ℕ)

abbrev pub minus_one : ℕ
minus_one = 2 ^ 32 - 1

-- `x >= 0` and `x > 0` for an int
abbrev pub is_nonneg : ℕ → Bool
is_nonneg x = ltb x (2 ^ 31)

abbrev pub is_pos : ℕ → Bool
is_pos x = ltb 0 x && ltb x (2 ^ 31)

abbrev pub nr_tasks : ℕ
nr_tasks = 64

abbrev pub nr_open : ℕ
nr_open = 20

abbrev pub hz : ℕ
hz = 100

abbrev pub task_running : ℕ
task_running = 0

abbrev pub task_interruptible : ℕ
task_interruptible = 1

abbrev pub task_uninterruptible : ℕ
task_uninterruptible = 2

abbrev pub task_zombie : ℕ
task_zombie = 3

abbrev pub task_stopped : ℕ
task_stopped = 4

-- `struct task_struct * task[NR_TASKS]`
abbrev pub Tasks : Type 0
Tasks = List (Option Task)

abbrev pub task_at : Tasks → ℕ → Option Task
task_at ts i = get_or ts i none

-- The fields of the task in a slot are rewritten; an empty slot stays empty.
unfoldable pub modify : Tasks → ℕ → (Task → Task) → Tasks
modify [] i f = []
modify (t ∷ ts) zero f = Option.map f t ∷ ts
modify (t ∷ ts) (suc i) f = t ∷ modify ts i f

pub task_at-modify :
    (ts : Tasks) (i j : ℕ) (f : Task → Task)
    → task_at (modify ts i f) j ≡ (if i == j then Option.map f (task_at ts i) else task_at ts j)
unfolding modify
task_at-modify [] i j f = ground arith
task_at-modify (t ∷ ts) zero zero f = refl
task_at-modify (t ∷ ts) zero (suc j) f = ground arith
task_at-modify (t ∷ ts) (suc i) zero f = ground arith
task_at-modify (t ∷ ts) (suc i) (suc j) f = rw (task_at-modify ts i j f) (ground arith)

pub task_at-modify_self :
    (ts : Tasks) (i : ℕ) (f : Task → Task) → task_at (modify ts i f) i ≡ Option.map f (task_at ts i)
task_at-modify_self ts i f = rw (task_at-modify ts i i f, ==_self i)

-- A loop `for (p = &LAST_TASK ; p > &FIRST_TASK ; --p) if (*p) ...` whose body touches only `*p`.
unfoldable pub each_but_first : (Task → Task) → Tasks → Tasks
each_but_first f [] = []
each_but_first f (t ∷ ts) = t ∷ map (Option.map f) ts

-- INIT_TASK
abbrev pub init_task : Task
init_task = record {
  pgdir = 0;
  state = 0;
  counter = 15;
  priority = 15;
  signal = 0;
  sigaction = replicate 32 (record { sa_handler = 0; sa_mask = 0; sa_flags = 0; sa_restorer = 0 });
  blocked = 0;
  exit_code = 0;
  end_code = 0;
  brk = 0;
  start_stack = 0;
  pid = 0;
  father = minus_one;
  pgrp = 0;
  session = 0;
  leader = 0;
  uid = 0;
  euid = 0;
  suid = 0;
  gid = 0;
  egid = 0;
  sgid = 0;
  alarm = 0;
  utime = 0;
  stime = 0;
  cutime = 0;
  cstime = 0;
  start_time = 0;
  tty = minus_one;
  umask = 0o22;
  pwd = none;
  root = none;
  executable = none;
  close_on_exec = 0;
  filp = replicate nr_open none;
}
