-- ===== src/Fs/Walk.antt =====
-- fs/namei.c: the walk along a path name, from find_entry() with the inode table to open_namei(). A path
-- name is the list of its characters before the NUL.
pub mod Create
pub mod Balance
use rv.Common.{
  ℕ, zero, suc, ◌+◌, ◌-◌, ◌*◌, ◌/◌, ◌%◌, ◌^◌, Option, none, some, Bool, true, false, ◌==◌, not,
  ◌&&◌, ◌||◌, if◌then◌else◌, List, [], ◌∷◌, length, take,
}
use rv.Kernel.Task.{Task}
use rv.Fs.Inode.{Disk}
use rv.Fs.Seek.{is_dir}
use rv.Fs.Namei.{
  permission, find_entry, inode_at, Found, found, missing, faults, panics, DotDot, as_dot,
  from_mount, as_entry, dot_dot,
}
use rv.Fs.Vfs.{
  Slot, Volume, Call, pure, panic, if_null, ◌>>=◌, ◌>>◌, update, slot, ref_up, set_dirty, on_volume,
  on_disk,
}
use rv.Fs.Table.{iput, iget}

abbrev pub may_exec : ℕ
may_exec = 1

abbrev pub may_write : ℕ
may_write = 2

-- permission() of a slot
abbrev pub allowed : Task → Slot → ℕ → Bool
allowed current x mask =
    permission current x.inode.i_dev x.inode.stored.i_nlinks x.inode.stored.i_uid
      x.inode.stored.i_gid x.inode.stored.i_mode mask

-- A block of a directory, and the entry in it.
abbrev pub Place : Type 0
Place = ℕ × ℕ

abbrev pub place_of : Disk → Found → Option (Option Place × Disk)
place_of d (found block j) = some (some (block, j), d)
place_of d missing = some (none, d)
place_of d faults = none
place_of d panics = none

-- find_entry() behind the test for "..": the directory, and the entry.
unfoldable pub look_up : ℕ → List ℕ → Call (ℕ × Option Place)
look_up dir name = do
  x ← slot dir
  e ←
      on_disk x.inode.i_dev
        λ d. place_of d (find_entry name x.inode.stored.i_zone x.inode.stored.i_size d)
  pure (dir, e)

abbrev pub is_dot_dot : List ℕ → Bool
is_dot_dot (a ∷ b ∷ []) = a == 46 && b == 46
is_dot_dot _ = false

-- The directory and the name in it that ".." stands for.
unfoldable pub follow : ℕ → List ℕ → DotDot → Call (ℕ × List ℕ)
follow dir name as_dot = pure (dir, take 1 name)
follow dir name (from_mount d) = do iput dir; update d ref_up; pure (d, name)
follow dir name as_entry = pure (dir, name)

abbrev pub is_root : Task → ℕ → Bool
is_root current dir = elim current.root [ none ↦ false | some r ↦ dir == r ]

-- sb->s_imount for the root of a device, where find_entry() looks at it
unfoldable pub mount_point : Bool → Slot → Call (Option ℕ)
mount_point root x =
    if not root && x.inode.i_num == 1
    then on_volume x.inode.i_dev (λ v. some (v.s_imount, v))
    else pure none

-- find_entry(), which gives back a directory that it exchanges for another.
unfoldable pub search_dir : Task → ℕ → List ℕ → Call (ℕ × Option Place)
search_dir current dir name = do
  x ← slot dir
  if not (is_dot_dot name) then look_up dir name else do
    mount ← mount_point (is_root current dir) x
    r ← follow dir name (dot_dot (is_root current dir) x.inode.i_num mount)
    look_up r.0 r.1

-- de->inode
unfoldable pub entry_inode : ℕ → Place → Call ℕ
entry_inode dev (block, j) = on_disk dev λ d. some (inode_at d block j, d)

-- The inode of a name in a directory, which is given back.
unfoldable pub enter : Task → ℕ → List ℕ → Call (Option ℕ)
enter current dir name = do
  r ← search_dir current dir name
  if_null r.1 (do iput r.0; pure none)
      λ e. do
        x ← slot r.0
        inr ← entry_inode x.inode.i_dev e
        iput r.0
        i ← iget x.inode.i_dev inr
        pure (some i)

-- The parts of a path name that end in '/', and what follows them.
unfoldable pub split : List ℕ → List (List ℕ) × List ℕ
split [] = ([], [])
split (c ∷ cs) =
    let rest = split cs in
    if c == 47
    then ([] ∷ rest.0, rest.1)
    else elim rest.0 [ [] ↦ ([], c ∷ rest.1) | name ∷ names ↦ ((c ∷ name) ∷ names, rest.1) ]

-- The loop of get_dir().
unfoldable pub walk : Task → List (List ℕ) → ℕ → Call (Option ℕ)
walk current [] i = do
  x ← slot i
  if not (is_dir x.inode.stored.i_mode && allowed current x may_exec)
      then (do iput i; pure none)
      else pure (some i)
walk current (name ∷ names) i = do
  x ← slot i
  if not (is_dir x.inode.stored.i_mode && allowed current x may_exec)
      then (do iput i; pure none)
      else do next ← enter current i name; if_null next (pure none) (walk current names)

unfoldable pub walk_from : Task → ℕ → List ℕ → Call (Option ℕ)
walk_from current i rest = do update i ref_up; walk current (split rest).0 i

unfoldable pub walk_path : Task → ℕ → ℕ → List ℕ → Call (Option ℕ)
walk_path current root pwd [] = pure none
walk_path current root pwd (c ∷ rest) =
    if c == 47 then walk_from current root rest else walk_from current pwd (c ∷ rest)

unfoldable pub get_dir : Task → List ℕ → Call (Option ℕ)
get_dir current pathname = if_null current.root panic λ root. if_null current.pwd panic λ pwd. do
  r ← slot root
  p ← slot pwd
  if r.i_count == 0 || p.i_count == 0 then panic else walk_path current root pwd pathname

-- The directory, and the basename.
unfoldable pub dir_namei : Task → List ℕ → Call (Option (ℕ × List ℕ))
dir_namei current pathname = do
  dir ← get_dir current pathname
  if_null dir (pure none) λ d. pure (some (d, (split pathname).1))

unfoldable pub namei : Task → List ℕ → Call (Option ℕ)
namei current pathname = do
  r ← dir_namei current pathname
  if_null r (pure none) λ (dir, base). if length base == 0 then pure (some dir) else do
    i ← enter current dir base
    if_null i (pure none) λ j. do update j set_dirty; pure (some j)
