-- ===== src/Kernel/Fork.antt =====
-- kernel/fork.c: find_empty_process(), copy_process(), sys_fork() and kernel_thread(). `last_pid` is a
-- positive long. The memory is that of mm/memory.c; a table of counts stands for f_count of the open
-- files and another for i_count of the inodes, each by its number.
use rv.Common.{
  ℕ, zero, suc, ◌+◌, ◌^◌, Option, none, some, Bool, false, leb, ◌==◌, ◌||◌, if◌then◌else◌, List, [],
  ◌∷◌, get_or, set,
}
use rv.Kernel.Task.{Task, Tasks, task_running}
use rv.Kernel.Signal.{Trapframe}
use rv.Mm.State.{M, pure, panics, ◌>>=◌, ◌>>◌}
use rv.Mm.Frames.{get_free_page, free_page}
use rv.Mm.Tables.{copy_page_tables}

-- `if ((++last_pid)<0) last_pid=1`
abbrev pub next_pid : ℕ → ℕ
next_pid pid = if leb (2 ^ 31) (pid + 1) then 1 else pid + 1

unfoldable pub pid_taken : ℕ → Tasks → Bool
pid_taken pid [] = false
pid_taken pid (none ∷ ts) = pid_taken pid ts
pid_taken pid (some t ∷ ts) = t.pid == pid || pid_taken pid ts

-- The loop with `goto repeat`: the pid found, `none` when the fuel runs out.
unfoldable pub find_fresh : ℕ → ℕ → Tasks → Option ℕ
find_fresh zero last_pid ts = none
find_fresh (suc fuel) last_pid ts =
    let rest = find_fresh fuel (next_pid last_pid) ts in
    if pid_taken (next_pid last_pid) ts then rest else some (next_pid last_pid)

-- `for(i=1 ; i<NR_TASKS ; i++) if (!task[i]) return i`, over the slots from i on.
unfoldable pub find_slot : ℕ → Tasks → Option ℕ
find_slot i [] = none
find_slot i (none ∷ ts) = some i
find_slot i (some t ∷ ts) = find_slot (suc i) ts

-- The pid and the slot, `none` for EAGAIN.
unfoldable pub find_empty_process : ℕ → Tasks → Option (ℕ × Option ℕ)
find_empty_process last_pid [] = none
find_empty_process last_pid (t ∷ ts) = elim (find_fresh 65 last_pid (t ∷ ts)) [
  | none ↦ none
  | some pid ↦ some (pid, find_slot 1 ts)
]

-- The fields that copy_process() and kernel_thread() set in the copy of the current task.
unfoldable pub inherit : ℕ → ℕ → ℕ → Task → Task
inherit pid pgdir jiffies c = record c {
  pgdir = pgdir;
  state = task_running;
  pid = pid;
  father = c.pid;
  counter = c.priority;
  signal = 0;
  alarm = 0;
  leader = 0;
  utime = 0;
  stime = 0;
  cutime = 0;
  cstime = 0;
  start_time = jiffies;
}

-- The child: the page of its task structure, the structure, and the trap frame that it starts with.
pub record Child : Type 0 where
  pub page : ℕ
  pub task : Task
  pub frame : Trapframe

-- The child returns 0 from fork.
abbrev pub child_frame : Trapframe → Trapframe
child_frame tf = record tf { a0 = 0 }

-- The copy of the page tables into `pgdir`, for the child whose structure is in `page`.
unfoldable pub copy_space : ℕ → ℕ → ℕ → ℕ → Task → Trapframe → M (Option Child)
copy_space page pgdir pid jiffies c tf = do
  copied ← copy_page_tables c.pgdir pgdir
  if copied
      then pure (
          some (record { page = page; task = inherit pid pgdir jiffies c; frame = child_frame tf }))
      else do free_page pgdir; free_page page; pure none

-- `none` for EAGAIN
unfoldable pub copy_process : ℕ → ℕ → Task → Trapframe → M (Option Child)
copy_process pid jiffies c tf = do
  page ← get_free_page
  if page == 0 then pure none else if c.pgdir == 0 then (λ _. panics) else do
    pgdir ← get_free_page
    if pgdir == 0 then (do free_page page; pure none) else copy_space page pgdir pid jiffies c tf

-- `f_count++` or `i_count++`, of a pointer that may be NULL
abbrev pub count_up : List ℕ → Option ℕ → List ℕ
count_up counts none = counts
count_up counts (some i) = set counts i (get_or counts i 0 + 1)

unfoldable pub count_files : List (Option ℕ) → List ℕ → List ℕ
count_files [] counts = counts
count_files (f ∷ fs) counts = count_files fs (count_up counts f)

unfoldable pub count_inodes : Task → List ℕ → List ℕ
count_inodes c counts = count_up (count_up (count_up counts c.pwd) c.root) c.executable

-- kernel_thread(): a task without page tables.
unfoldable pub kernel_thread : ℕ → ℕ → Task → M (Option (ℕ × Task))
kernel_thread pid jiffies c = do
  page ← get_free_page
  if page == 0 then pure none else pure (some (page, inherit pid 0 jiffies c))
