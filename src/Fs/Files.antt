-- ===== src/Fs/Files.antt =====
-- fs/fcntl.c and sys_close() of fs/open.c: the descriptors of a task and the counts of the open files.
-- `f_count` and `f_flags` are fields of each entry of file_table, by its number.
pub mod Dup
use rv.Common.{
  ℕ, zero, suc, ◌+◌, ◌-◌, ◌%◌, ◌^◌, Option, none, some, leb, ◌==◌, if◌then◌else◌, List, get_or, set,
}
use rv.Common.Bits.{bit, set_bit, clear_bit, of_bool, and32, or32, and_not32}
use rv.Kernel.Task.{nr_open}
use rv.Kernel.Sys.{Ret, ok, err}

abbrev pub ebadf : ℕ
ebadf = 9

abbrev pub einval : ℕ
einval = 22

abbrev pub emfile : ℕ
emfile = 24

pub record Files : Type 0 where
  pub filp : List (Option ℕ)
  pub close_on_exec : ℕ
  pub f_count : List ℕ
  pub f_flags : List ℕ

abbrev pub file_at : Files → ℕ → Option ℕ
file_at s fd = get_or s.filp fd none

-- The first free descriptor from `arg` on: `while (arg < NR_OPEN) if (current->filp[arg]) arg++`.
unfoldable pub free_from : ℕ → ℕ → Files → Option ℕ
free_from zero arg s = none
free_from (suc n) arg s =
    let rest = free_from n (suc arg) s in elim (file_at s arg) [ none ↦ some arg | some f ↦ rest ]

-- `(current->filp[arg] = current->filp[fd])->f_count++`
abbrev pub attach : Files → ℕ → ℕ → Files
attach s arg f = record s {
  filp = set s.filp arg (some f);
  close_on_exec = clear_bit s.close_on_exec arg;
  f_count = set s.f_count f ((get_or s.f_count f 0 + 1) % 2 ^ 16);
}

unfoldable pub dupfd : ℕ → ℕ → Files → Ret × Files
dupfd fd arg s = if leb nr_open fd then (err ebadf, s) else elim (file_at s fd) [
  | none ↦ (err ebadf, s)
  | some f ↦ if leb nr_open arg then (err einval, s) else elim (free_from (nr_open - arg) arg s) [
    | none ↦ (err emfile, s)
    | some to ↦ (ok to, attach s to f)
  ]
]

pub data Closed : Type 0 where
  -- the result, the state, and the file whose inode goes to iput(), if any
  returns : Ret → Files → Option ℕ → Closed
  panics : Closed

abbrev pub detach : Files → ℕ → Files
detach s fd = record s { filp = set s.filp fd none; close_on_exec = clear_bit s.close_on_exec fd }

abbrev pub drop_count : Files → ℕ → Files
drop_count s f = record s { f_count = set s.f_count f (get_or s.f_count f 0 - 1) }

unfoldable pub sys_close : ℕ → Files → Closed
sys_close fd s = if leb nr_open fd then returns (err einval) s none else elim (file_at s fd) [
  | none ↦ returns (err einval) (detach s fd) none
  | some f ↦
      if get_or s.f_count f 0 == 0
      then panics
      else returns (ok 0) (drop_count (detach s fd) f)
          (if get_or s.f_count f 0 == 1 then some f else none)
]

unfoldable pub sys_dup : ℕ → Files → Ret × Files
sys_dup fildes s = dupfd fildes 0 s

-- The new descriptor is closed before the old one is looked at; `none` for the panic of sys_close().
unfoldable pub sys_dup2 : ℕ → ℕ → Files → Option (Ret × Files)
sys_dup2 oldfd newfd s = elim (sys_close newfd s) [
  | returns r s' f ↦ some (dupfd oldfd newfd s')
  | panics ↦ none
]

-- O_APPEND | O_NONBLOCK
abbrev pub settable : ℕ
settable = 0xc00

-- F_DUPFD, F_GETFD, F_SETFD, F_GETFL and F_SETFL are 0 to 4; the other commands give -1.
unfoldable pub sys_fcntl : ℕ → ℕ → ℕ → Files → Ret × Files
sys_fcntl fd cmd arg s = if leb nr_open fd then (err ebadf, s) else elim (file_at s fd) [
  | none ↦ (err ebadf, s)
  | some f ↦
      if cmd == 0
      then dupfd fd arg s
      else if cmd == 1
      then (ok (of_bool (bit s.close_on_exec fd)), s)
      else if cmd == 2
      then (
        ok 0,
        if arg % 2 == 1
            then record s { close_on_exec = set_bit s.close_on_exec fd }
            else record s { close_on_exec = clear_bit s.close_on_exec fd },
      )
      else if cmd == 3
      then (ok (get_or s.f_flags f 0), s)
      else if cmd == 4
      then (
        ok 0,
        record s {
          f_flags =
              set s.f_flags f
                (or32 (and_not32 (get_or s.f_flags f 0) settable) (and32 arg settable));
        },
      )
      else (err 1, s)
]
