-- ===== src/Fs/Links/Remove.antt =====
-- fs/namei.c: sys_rmdir() and sys_unlink().
use rv.Common.{
  ℕ, zero, suc, ◌+◌, ◌/◌, Option, none, some, Bool, true, false, ltb, ◌==◌, not, ◌&&◌, ◌||◌,
  if◌then◌else◌, List, get_or,
}
use rv.Kernel.Task.{Task}
use rv.Kernel.Sys.{Ret, ok, err, eperm, suser}
use rv.Fs.Inode.{Disk}
use rv.Fs.FileDev.{zone}
use rv.Fs.Seek.{is_dir}
use rv.Fs.Namei.{inode_at, name_at, dir_entries_per_block}
use rv.Fs.Open.{enoent, enotdir}
use rv.Fs.Vfs.{Slot, Call, pure, if_null, ◌>>=◌, ◌>>◌, update, slot, set_dirty, on_disk}
use rv.Fs.Table.{iget}
use rv.Fs.Walk.{Place, entry_inode}
use rv.Fs.Walk.Create.{set_entry, links_down, has_flag}
use rv.Fs.Links.{put_both, put_one, with_entry, set_links, enotempty, s_isvtx}

-- The loop of empty_dir() from entry nr on, which is entry j of the block, or behind it for j = 64.
-- Each round passes an entry at least; `none` for the panic of bmap().
unfoldable pub empty_loop : ℕ → List ℕ → Disk → ℕ → ℕ → ℕ → ℕ → Option Bool
empty_loop zero zones d len nr block j = some true
empty_loop (suc fuel) zones d len nr block j =
    let here : ℕ → ℕ → Option Bool = λ block j.
      if inode_at d block j == 0
      then empty_loop fuel zones d len (suc nr) block (suc j)
      else some false in
    let skipped = empty_loop fuel zones d len (nr + dir_entries_per_block) block j in
    if not (ltb nr len)
    then some true
    else if ltb j dir_entries_per_block
    then here block j
    else elim (zone zones (nr / dir_entries_per_block) d) [
      | none ↦ none
      | some next ↦
          if next == 0 then skipped else if d.readable next then here next 0 else some false
    ]

-- strcmp() with the first entry "." and the second ".."
abbrev pub has_dots : Disk → ℕ → Bool
has_dots d block =
    name_at d block 0 0 == 46
    && name_at d block 0 1 == 0
    && name_at d block 1 0 == 46
    && name_at d block 1 1 == 46
    && name_at d block 1 2 == 0

unfoldable pub dir_is_empty : Slot → Disk → Option Bool
dir_is_empty x d =
    let len = x.inode.stored.i_size / 16 in
    let block = get_or x.inode.stored.i_zone 0 0 in
    if ltb len 2 || block == 0 || not (d.readable block)
    then some false
    else if not (inode_at d block 0 == x.inode.i_num)
        || inode_at d block 1 == 0
        || not (has_dots d block)
    then some false
    else empty_loop len x.inode.stored.i_zone d len 2 block 2

abbrev pub read_empty : Slot → Disk → Option (Bool × Disk)
read_empty x d = elim (dir_is_empty x d) [ none ↦ none | some b ↦ some (b, d) ]

-- sys_rmdir() of an empty directory
unfoldable pub drop_dir : ℕ → Place → ℕ → Call Ret
drop_dir dir e i = do
  set_entry dir e 0
  update i (λ y. set_dirty (set_links 0 y))
  update dir (λ x. set_dirty (links_down x))
  put_both dir i (ok 0)

-- From the test for "." on.
unfoldable pub remove_other : ℕ → Place → ℕ → Slot → Call Ret
remove_other dir e i y =
    if i == dir
    then put_both i dir (err eperm)
    else if not (is_dir y.inode.stored.i_mode)
    then put_both i dir (err enotdir)
    else do
      empty ← on_disk y.inode.i_dev (read_empty y)
      if empty then drop_dir dir e i else put_both i dir (err enotempty)

unfoldable pub remove_dir : Task → ℕ → Place → Call Ret
remove_dir current dir e = do
  x ← slot dir
  inr ← entry_inode x.inode.i_dev e
  i ← iget x.inode.i_dev inr
  x' ← slot dir
  y ← slot i
  if has_flag x'.inode.stored.i_mode s_isvtx
        && not (current.euid == 0)
        && not (y.inode.stored.i_uid == current.euid)
      then put_both dir i (err eperm)
      else if not (y.inode.i_dev == x'.inode.i_dev) || ltb 1 y.i_count
      then put_both dir i (err eperm)
      else remove_other dir e i y

unfoldable pub sys_rmdir : Task → List ℕ → Call Ret
sys_rmdir current name =
    if not (suser current)
    then pure (err eperm)
    else with_entry current name
        λ dir base e. if_null e (put_one dir (err enoent)) (remove_dir current dir)

-- A count of 0 is taken for 1.
abbrev pub unlinked : Slot → Slot
unlinked x = set_dirty (if x.inode.stored.i_nlinks == 0 then set_links 0 x else links_down x)

unfoldable pub unlink_entry : Task → ℕ → Place → Call Ret
unlink_entry current dir e = do
  x ← slot dir
  inr ← entry_inode x.inode.i_dev e
  i ← iget x.inode.i_dev inr
  x' ← slot dir
  y ← slot i
  if has_flag x'.inode.stored.i_mode s_isvtx
        && not (suser current)
        && not (current.euid == y.inode.stored.i_uid)
        && not (current.euid == x'.inode.stored.i_uid)
      then put_both dir i (err eperm)
      else if is_dir y.inode.stored.i_mode
      then put_both i dir (err eperm)
      else do set_entry dir e 0; update i unlinked; put_both i dir (ok 0)

unfoldable pub sys_unlink : Task → List ℕ → Call Ret
sys_unlink current name =
    with_entry current name
      λ dir base e. if_null e (put_one dir (err enoent)) (unlink_entry current dir)
