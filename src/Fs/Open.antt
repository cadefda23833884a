-- ===== src/Fs/Open.antt =====
-- fs/open.c: sys_open(), sys_access(), sys_chmod(), sys_chown(), sys_chdir() and sys_chroot(), with what
-- namei() or open_namei() returns as an argument. The inodes go back to iput() and are left out.
pub mod Slots
use rv.Common.{
  ℕ, zero, suc, ◌+◌, ◌-◌, ◌*◌, ◌/◌, ◌%◌, ◌^◌, Option, none, some, Bool, true, false, leb, ltb, ◌==◌,
  not, ◌&&◌, ◌||◌, if◌then◌else◌, List, [], ◌∷◌, get_or, set,
}
use rv.Common.Bits.{clear_bit, and32}
use rv.Block.Buffers.{major, minor}
use rv.Kernel.Task.{Task, nr_open}
use rv.Kernel.Sys.{Ret, ok, err, eperm, suser}
use rv.Fs.Files.{Files, file_at, free_from, einval}
use rv.Fs.Seek.{is_chr, is_dir}

abbrev pub nr_file : ℕ
nr_file = 64

abbrev pub enoent : ℕ
enoent = 2

abbrev pub eacces : ℕ
eacces = 13

abbrev pub enotdir : ℕ
enotdir = 20

-- What the calls look at of an inode.
pub record Inode : Type 0 where
  pub i_mode : ℕ
  pub i_uid : ℕ
  pub i_gid : ℕ
  pub i_zone0 : ℕ

-- What open_namei() returns: an error or an inode.
pub data Named : Type 0 where
  refused : ℕ → Named
  named : Inode → Named

-- The first entry of file_table from `i` on that is not in use, of n.
unfoldable pub free_file : ℕ → ℕ → List ℕ → Option ℕ
free_file zero i f_count = none
free_file (suc n) i f_count =
    if get_or f_count i 0 == 0 then some i else free_file n (suc i) f_count

-- The terminal of the process after it has opened a character device; none for -EPERM.
unfoldable pub open_tty : Bool → Option ℕ → Inode → Option (Option ℕ)
open_tty leader (some t) inode = some (some t)
open_tty leader none inode =
    if not (is_chr inode.i_mode)
    then some none
    else if major inode.i_zone0 == 4
    then some (if leader then some (minor inode.i_zone0) else none)
    else if major inode.i_zone0 == 5
    then none
    else some none

pub data Opened : Type 0 where
  -- the descriptor, its file, the terminal and the state
  opens : ℕ → ℕ → Option ℕ → Files → Opened
  fails : ℕ → Files → Opened

-- `(current->filp[fd]=f)->f_count++`
abbrev pub reserve : ℕ → ℕ → Files → Files
reserve fd f s = record s {
  filp = set s.filp fd (some f);
  f_count = set s.f_count f ((get_or s.f_count f 0 + 1) % 2 ^ 16);
}

-- `current->filp[fd]=NULL; f->f_count=0;`
abbrev pub give_up : ℕ → ℕ → Files → Files
give_up fd f s = record s { filp = set s.filp fd none; f_count = set s.f_count f 0 }

abbrev pub commit : ℕ → ℕ → Files → Files
commit flag f s = record s { f_flags = set s.f_flags f flag; f_count = set s.f_count f 1 }

-- sys_open() from open_namei() on, with the descriptor and the file reserved. The inode, the mode and
-- the position that the file gets, the group of the terminal and check_disk_change() are left out.
unfoldable pub open_file : Bool → Option ℕ → ℕ → Named → ℕ → ℕ → Files → Opened
open_file leader tty flag (refused e) fd f s = fails e (give_up fd f s)
open_file leader tty flag (named inode) fd f s = elim (open_tty leader tty inode) [
  | none ↦ fails eperm (give_up fd f s)
  | some tty' ↦ opens fd f tty' (commit flag f s)
]

abbrev pub keep_on_exec : ℕ → Files → Files
keep_on_exec fd s = record s { close_on_exec = clear_bit s.close_on_exec fd }

unfoldable pub sys_open : Bool → Option ℕ → ℕ → Named → Files → Opened
sys_open leader tty flag r s = elim (free_from nr_open 0 s) [
  | none ↦ fails einval s
  | some fd ↦ elim (free_file nr_file 0 s.f_count) [
    | none ↦ fails einval (keep_on_exec fd s)
    | some f ↦ open_file leader tty flag r fd f (reserve fd f (keep_on_exec fd s))
  ]
]

-- The mode shifted for the owner or the group: both by 6.
abbrev pub access_bits : Task → Inode → ℕ
access_bits t i =
    let res = i.i_mode % 2 ^ 9 in
    if t.uid == i.i_uid then res / 2 ^ 6 else if t.gid == i.i_gid then res / 2 ^ 6 else res

-- sys_access() of a mode that is below 8.
unfoldable pub sys_access : Task → Option Inode → ℕ → Ret
sys_access t none mode = err eacces
sys_access t (some i) mode =
    if and32 (and32 (access_bits t i) 7) mode == mode
    then ok 0
    else if t.uid == 0 && (mode % 2 == 0 || not (and32 (i.i_mode % 2 ^ 9) 0x49 == 0))
    then ok 0
    else err eacces

unfoldable pub sys_chmod : Task → Option Inode → ℕ → Ret × Option Inode
sys_chmod t none mode = (err enoent, none)
sys_chmod t (some i) mode =
    if not (t.euid == i.i_uid) && not (suser t)
    then (err eacces, some i)
    else (ok 0, some (record i { i_mode = i.i_mode / 2 ^ 12 % 2 ^ 4 * 2 ^ 12 + mode % 2 ^ 12 }))

unfoldable pub sys_chown : Task → Option Inode → ℕ → ℕ → Ret × Option Inode
sys_chown t none uid gid = (err enoent, none)
sys_chown t (some i) uid gid =
    if not (suser t)
    then (err eacces, some i)
    else (ok 0, some (record i { i_uid = uid % 2 ^ 16; i_gid = gid % 2 ^ 8 }))

-- sys_chdir() and sys_chroot(): the directory of the process is exchanged, or stays.
unfoldable pub change_dir : Option Inode → Ret × Option Inode
change_dir none = (err enoent, none)
change_dir (some i) = if is_dir i.i_mode then (ok 0, some i) else (err enotdir, none)
