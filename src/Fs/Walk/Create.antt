-- ===== src/Fs/Walk/Create.antt =====
-- fs/namei.c: add_entry() with the inode table, and open_namei().
use rv.Common.{
  ℕ, ◌+◌, ◌-◌, ◌%◌, ◌^◌, Option, none, some, Bool, true, false, ◌==◌, not, ◌&&◌, ◌||◌,
  if◌then◌else◌, List, [], ◌∷◌, length,
}
use rv.Common.Bits.{and32}
use rv.Kernel.Task.{Task}
use rv.Fs.Inode.{Disk}
use rv.Fs.FileDev.{Node}
use rv.Fs.Seek.{is_dir}
use rv.Fs.Namei.{
  add_entry, put_inode, Added, added, no_entry, faults_in_add, panics_in_add, runs_out,
}
use rv.Fs.Open.{enoent, eacces}
use rv.Kernel.Sys.{eperm}
use rv.Fs.Vfs.{Slot, Call, pure, when, if_null, ◌>>=◌, ◌>>◌, update, slot, set_dirty, edit, on_disk}
use rv.Fs.Table.{iput, iget, new_inode, truncate_slot}
use rv.Fs.Walk.{may_write, allowed, Place, search_dir, entry_inode, dir_namei}

abbrev pub eexist : ℕ
eexist = 17

abbrev pub eisdir : ℕ
eisdir = 21

abbrev pub enospc : ℕ
enospc = 28

unfoldable pub same_zones : List ℕ → List ℕ → Bool
same_zones [] [] = true
same_zones (z ∷ zs) (v ∷ vs) = z == v && same_zones zs vs
same_zones _ _ = false

abbrev pub node_of : Slot → Disk → Node
node_of x d = record { zones = x.inode.stored.i_zone; i_size = x.inode.stored.i_size; disk = d }

abbrev pub added_to : Added → Option ((Option Place × Node) × Disk)
added_to (added block j n) = some ((some (block, j), n), n.disk)
added_to (no_entry n) = some ((none, n), n.disk)
added_to faults_in_add = none
added_to panics_in_add = none
added_to runs_out = none

-- The zones and the size that add_entry() leaves: the inode is dirty where they are new.
abbrev pub with_node : Node → Slot → Slot
with_node n x =
    if n.i_size == x.inode.stored.i_size && same_zones n.zones x.inode.stored.i_zone
    then x
    else set_dirty (edit (λ i. record i { i_zone = n.zones; i_size = n.i_size }) x)

-- add_entry() of a slot
unfoldable pub add_to : ℕ → List ℕ → Call (Option Place)
add_to dir name = do
  x ← slot dir
  r ← on_disk x.inode.i_dev λ d. added_to (add_entry name (node_of x d))
  update dir (with_node r.1)
  pure r.0

-- de->inode = inode->i_num, in the directory `dir`
unfoldable pub set_entry : ℕ → Place → ℕ → Call Unit
set_entry dir (block, j) num = do
  x ← slot dir
  on_disk x.inode.i_dev λ d. some (tt, put_inode num block j d)

-- What open_namei() returns: an error, or the inode.
pub data OpenResult : Type 0 where
  refused : ℕ → OpenResult
  gives : ℕ → OpenResult

abbrev pub links_down : Slot → Slot
links_down = edit λ n. record n { i_nlinks = (n.i_nlinks + 255) % 256 }

abbrev pub new_file : Task → ℕ → Slot → Slot
new_file current mode x = set_dirty (edit (λ n. record n { i_uid = current.euid; i_mode = mode }) x)

abbrev pub has_flag : ℕ → ℕ → Bool
has_flag flag bits = not (and32 flag bits == 0)

abbrev pub o_accmode : ℕ
o_accmode = 3

abbrev pub o_creat : ℕ
o_creat = 0o100

abbrev pub o_excl : ℕ
o_excl = 0o200

abbrev pub o_trunc : ℕ
o_trunc = 0o1000

-- ACC_MODE(), of the characters of a string, which are unsigned
abbrev pub acc_mode : ℕ → ℕ
acc_mode flag =
    let mode = and32 flag o_accmode in
    if mode == 0 then 0o4 else if mode == 1 then 0o2 else if mode == 2 then 0o6 else 0o377

-- `flag |= O_WRONLY` for O_TRUNC without an access mode
abbrev pub open_flag : ℕ → ℕ
open_flag flag = if has_flag flag o_trunc && not (has_flag flag o_accmode) then flag + 1 else flag

-- mode & 0777 & ~current->umask
abbrev pub masked : Task → ℕ → ℕ
masked current mode = and32 mode (0o777 - current.umask % 2 ^ 9)

-- open_namei() where the name is not in the directory
unfoldable pub create_file : Task → ℕ → List ℕ → ℕ → ℕ → Call OpenResult
create_file current dir base flag mode = do
  x ← slot dir
  if not (has_flag flag o_creat)
      then (do iput dir; pure (refused enoent))
      else if not (allowed current x may_write)
      then (do iput dir; pure (refused eacces))
      else do
        new ← new_inode current x.inode.i_dev
        if_null new (do iput dir; pure (refused enospc))
            λ i. do
              update i (new_file current mode)
              e ← add_to dir base
              if_null e (do update i links_down; iput i; iput dir; pure (refused enospc))
                  λ e. do y ← slot i; set_entry dir e y.inode.i_num; iput dir; pure (gives i)

-- open_namei() where it is
unfoldable pub open_found : Task → ℕ → Place → ℕ → Call OpenResult
open_found current dir e flag = do
  x ← slot dir
  inr ← entry_inode x.inode.i_dev e
  iput dir
  if has_flag flag o_excl then pure (refused eexist) else do
    i ← iget x.inode.i_dev inr
    y ← slot i
    if is_dir y.inode.stored.i_mode && has_flag flag o_accmode
          || not (allowed current y (acc_mode flag))
        then (do iput i; pure (refused eperm))
        else do when (has_flag flag o_trunc) (truncate_slot i); pure (gives i)

unfoldable pub open_namei : Task → List ℕ → ℕ → ℕ → Call OpenResult
open_namei current pathname flags mode =
    let flag = open_flag flags in
    do
      r ← dir_namei current pathname
      if_null r (pure (refused enoent)) λ (dir, base).
          if length base == 0
          then if has_flag flag (o_accmode + o_creat + o_trunc)
            then (do iput dir; pure (refused eisdir))
            else pure (gives dir)
          else do
            found ← search_dir current dir base
            if_null found.1 (create_file current found.0 base flag (masked current mode + 0o100000))
                λ e. open_found current found.0 e flag
