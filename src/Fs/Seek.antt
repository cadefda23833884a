-- ===== src/Fs/Seek.antt =====
-- fs/read_write.c and rw_char() of fs/char_dev.c. An int may be negative: `pos n` is n and `negsuc n` is
-- -1 - n. An int, a long and a pointer have 32 bits.
pub mod Position
use rv.Common.{
  ℕ, zero, suc, ◌+◌, ◌-◌, ◌*◌, ◌/◌, ◌%◌, ◌^◌, Option, none, some, Bool, true, false, leb, ltb, ◌==◌,
  not, ◌&&◌, ◌||◌, if◌then◌else◌,
}
use rv.Common.Bits.{bit}
use rv.Block.Buffers.{major, minor}
use rv.Kernel.Task.{nr_open}
use rv.Kernel.Sys.{Ret, ok, err, eperm}
use rv.Fs.Files.{ebadf, einval}

pub data ℤ : Type 0 where
  pos : ℕ → ℤ
  negsuc : ℕ → ℤ

abbrev pub eio : ℕ
eio = 5

abbrev pub enodev : ℕ
enodev = 19

abbrev pub espipe : ℕ
espipe = 29

-- What the calls look at of an open file and its inode.
pub record File : Type 0 where
  pub f_mode : ℕ
  pub f_pos : ℕ
  pub i_mode : ℕ
  pub i_dev : ℕ
  pub i_size : ℕ
  pub i_pipe : Bool
  pub i_zone0 : ℕ

-- The low 32 bits as an int.
abbrev pub as_int : ℕ → ℤ
as_int n = let w = n % 2 ^ 32 in if ltb w (2 ^ 31) then pos w else negsuc (2 ^ 32 - 1 - w)

-- a + b as a word, of which the wrap-around is that of a long too
abbrev pub plus32 : ℕ → ℤ → ℕ
plus32 a (pos n) = (a + n) % 2 ^ 32
plus32 a (negsuc n) = (a + (2 ^ 32 - 1 - n)) % 2 ^ 32

abbrev pub non_negative : ℤ → Option ℕ
non_negative (pos n) = some n
non_negative (negsuc n) = none

abbrev pub is_seekable : ℕ → Bool
is_seekable x = leb 1 x && leb x 3

-- The new f_pos, or none for -EINVAL.
unfoldable pub seek_to : ℕ → ℤ → File → Option ℕ
seek_to zero offset f = non_negative offset
seek_to (suc zero) offset f = non_negative (as_int (plus32 f.f_pos offset))
seek_to (suc (suc zero)) offset f = non_negative (as_int (plus32 f.i_size offset))
seek_to (suc (suc (suc origin))) offset f = none

-- The result of sys_lseek(): an error, or f_pos as an int.
pub data Sought : Type 0 where
  refuses : ℕ → Sought
  at : ℤ → File → Sought

unfoldable pub sys_lseek : ℕ → Option File → ℤ → ℕ → Sought
sys_lseek fd none offset origin = refuses ebadf
sys_lseek fd (some f) offset origin =
    if leb nr_open fd || not (is_seekable (major f.i_dev))
    then refuses ebadf
    else if f.i_pipe
    then refuses espipe
    else elim (seek_to origin offset f) [
      | none ↦ refuses einval
      | some p ↦ at (as_int p) (record f { f_pos = p })
    ]

-- The file type in i_mode: (mode & 0170000) >> 12
abbrev pub file_type : ℕ → ℕ
file_type mode = mode / 4096 % 16

abbrev pub is_chr : ℕ → Bool
is_chr mode = file_type mode == 2

abbrev pub is_dir : ℕ → Bool
is_dir mode = file_type mode == 4

abbrev pub is_blk : ℕ → Bool
is_blk mode = file_type mode == 6

abbrev pub is_reg : ℕ → Bool
is_reg mode = file_type mode == 8

-- What a read or a write goes on with.
pub data Target : Type 0 where
  result : Ret → Target
  on_pipe : ℕ → Target
  on_char : ℕ → ℕ → Target
  on_block : ℕ → ℕ → Target
  on_file : ℕ → Target

-- `count = inode->i_size - file->f_pos` for an int count
abbrev pub rest_of_file : File → ℤ
rest_of_file f = as_int (f.i_size + 2 ^ 32 - f.f_pos % 2 ^ 32)

abbrev pub read_file : ℤ → Target
read_file (pos zero) = result (ok 0)
read_file (pos (suc n)) = on_file (suc n)
read_file (negsuc n) = result (ok 0)

-- sys_read() of a count that is not negative, behind verify_area().
unfoldable pub sys_read : ℕ → Option File → ℕ → Target
sys_read fd none count = result (err einval)
sys_read fd (some f) count =
    if leb nr_open fd
    then result (err einval)
    else if count == 0
    then result (ok 0)
    else if f.i_pipe
    then (if bit f.f_mode 0 then on_pipe count else result (err eio))
    else if is_chr f.i_mode
    then on_char f.i_zone0 count
    else if is_blk f.i_mode
    then on_block f.i_zone0 count
    else if is_dir f.i_mode || is_reg f.i_mode
    then read_file (if ltb f.i_size (count + f.f_pos) then rest_of_file f else pos count)
    else result (err einval)

unfoldable pub sys_write : ℕ → Option File → ℕ → Target
sys_write fd none count = result (err einval)
sys_write fd (some f) count =
    if leb nr_open fd
    then result (err einval)
    else if count == 0
    then result (ok 0)
    else if f.i_pipe
    then (if bit f.f_mode 1 then on_pipe count else result (err eio))
    else if is_chr f.i_mode
    then on_char f.i_zone0 count
    else if is_blk f.i_mode
    then on_block f.i_zone0 count
    else if is_reg f.i_mode
    then on_file count
    else result (err einval)

-- Where rw_char() leads: to a terminal, to nothing (/dev/null), to the ports, or to an error.
pub data CharTarget : Type 0 where
  errs : ℕ → CharTarget
  on_tty : ℕ → CharTarget
  null : CharTarget
  on_ports : CharTarget

unfoldable pub rw_memory : ℕ → CharTarget
rw_memory minor = if minor == 3 then null else if minor == 4 then on_ports else errs eio

-- The tty of the current process, none for -1.
unfoldable pub rw_tty : Option ℕ → CharTarget
rw_tty none = errs eperm
rw_tty (some tty) = on_tty tty

unfoldable pub rw_char : Option ℕ → ℕ → CharTarget
rw_char tty dev =
    if leb 8 (major dev)
    then errs enodev
    else if major dev == 1
    then rw_memory (minor dev)
    else if major dev == 4
    then on_tty (minor dev)
    else if major dev == 5
    then rw_tty tty
    else errs enodev
