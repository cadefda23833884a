-- ===== src/Fs/Links.antt =====
-- fs/namei.c: sys_mknod(), sys_mkdir() and sys_link().
pub mod Remove
pub mod Balance
use rv.Common.{
  ℕ, zero, suc, ◌+◌, ◌-◌, ◌*◌, ◌/◌, ◌%◌, ◌^◌, Option, none, some, Bool, true, false, ltb, ◌==◌, not,
  ◌&&◌, ◌||◌, if◌then◌else◌, List, [], ◌∷◌, length, get_or, set,
}
use rv.Kernel.Task.{Task}
use rv.Kernel.Sys.{Ret, ok, err, eperm, suser}
use rv.Fs.Inode.{Disk, take_block, give_block}
use rv.Fs.FileDev.{zone, put_bytes_from}
use rv.Fs.Seek.{is_dir, is_chr, is_blk}
use rv.Fs.Namei.{put_inode, inode_at, name_at, dir_entries_per_block}
use rv.Fs.Open.{enoent, eacces, enotdir}
use rv.Fs.Vfs.{Slot, Call, pure, when, if_null, ◌>>=◌, ◌>>◌, update, slot, set_dirty, edit, on_disk}
use rv.Fs.Table.{iput, iget, new_inode}
use rv.Fs.Walk.{may_write, allowed, Place, search_dir, entry_inode, dir_namei, namei}
use rv.Fs.Walk.Create.{eexist, enospc, add_to, set_entry, links_down, has_flag, masked}

abbrev pub error_code : ℕ
error_code = 99

abbrev pub exdev : ℕ
exdev = 18

abbrev pub enotempty : ℕ
enotempty = 39

abbrev pub s_isvtx : ℕ
s_isvtx = 0o1000

abbrev pub links_up : Slot → Slot
links_up = edit λ n. record n { i_nlinks = (n.i_nlinks + 1) % 256 }

abbrev pub set_links : ℕ → Slot → Slot
set_links nlinks = edit λ n. record n { i_nlinks = nlinks }

-- iput(a); iput(b); return r;
unfoldable pub put_both : ℕ → ℕ → Ret → Call Ret
put_both a b r = do iput a; iput b; pure r

unfoldable pub put_one : ℕ → Ret → Call Ret
put_one a r = do iput a; pure r

-- How sys_mknod(), sys_mkdir(), sys_rmdir() and sys_unlink() begin: `k` gets the directory, the
-- basename, and its entry if there is one.
unfoldable pub with_entry : Task → List ℕ → (ℕ → List ℕ → Option Place → Call Ret) → Call Ret
with_entry current pathname k = do
  r ← dir_namei current pathname
  if_null r (pure (err enoent)) λ (dir, base).
      if length base == 0 then put_one dir (err enoent) else do
        x ← slot dir
        if not (allowed current x may_write)
            then put_one dir (err eperm)
            else do found ← search_dir current dir base; k found.0 base found.1

abbrev pub device_node : ℕ → ℕ → Slot → Slot
device_node mode dev x = set_dirty (
    edit
      (λ n. record n {
        i_mode = mode % 2 ^ 16;
        i_zone = if is_blk mode || is_chr mode then set n.i_zone 0 (dev % 2 ^ 16) else n.i_zone;
      })
      x)

unfoldable pub make_node : Task → ℕ → ℕ → ℕ → List ℕ → Call Ret
make_node current mode dev dir base = do
  x ← slot dir
  new ← new_inode current x.inode.i_dev
  if_null new (put_one dir (err enospc)) λ i. do
    update i (device_node mode dev)
    e ← add_to dir base
    if_null e (do iput dir; update i (set_links 0); put_one i (err enospc))
        λ e. do y ← slot i; set_entry dir e y.inode.i_num; put_both dir i (ok 0)

unfoldable pub sys_mknod : Task → List ℕ → ℕ → ℕ → Call Ret
sys_mknod current filename mode dev =
    if not (suser current)
    then pure (err eperm)
    else with_entry current filename
        λ dir base e. if_null e (make_node current mode dev dir base) λ e. put_one dir (err eexist)

-- The entries "." and ".." of a new directory.
abbrev pub dot_entries : ℕ → ℕ → ℕ → Disk → Disk
dot_entries block num parent d =
    put_bytes_from block 18 (46 ∷ 46 ∷ 0 ∷ [])
      (put_inode parent block 1 (put_bytes_from block 2 (46 ∷ 0 ∷ []) (put_inode num block 0 d)))

abbrev pub new_dir : Task → ℕ → Slot → Slot
new_dir current mode x =
    set_dirty (edit (λ n. record n { i_nlinks = 2; i_mode = 0o040000 + masked current mode }) x)

-- free_block() of the device
abbrev pub freed_block : ℕ → Disk → Option {0} (Unit × Disk)
freed_block block d = elim (give_block block d) [ none ↦ none | some d' ↦ some (tt, d') ]

-- sys_mkdir() from the block of the new directory on
unfoldable pub fill_dir : Task → ℕ → ℕ → List ℕ → ℕ → ℕ → Call Ret
fill_dir current mode dir base i block = do
  x ← slot dir
  y ← slot i
  on_disk y.inode.i_dev λ d. some (tt, dot_entries block y.inode.i_num x.inode.i_num d)
  update i (new_dir current mode)
  e ← add_to dir base
  if_null e
      (do
        iput dir
        on_disk y.inode.i_dev (freed_block block)
        update i (set_links 0)
        put_one i (err enospc))
      λ e. do
        set_entry dir e y.inode.i_num
        update dir (λ z. set_dirty (links_up z))
        put_both dir i (ok 0)

unfoldable pub make_dir : Task → ℕ → ℕ → List ℕ → Call Ret
make_dir current mode dir base = do
  x ← slot dir
  new ← new_inode current x.inode.i_dev
  if_null new (put_one dir (err enospc)) λ i. do
    block ← on_disk x.inode.i_dev take_block
    update i (λ y.
        set_dirty
          (edit (λ n. record n { i_size = 32; i_zone = set n.i_zone 0 (block % 2 ^ 16) }) y))
    if block % 2 ^ 16 == 0 then (do iput dir; update i links_down; put_one i (err enospc)) else do
      has_block ← on_disk x.inode.i_dev λ d. some (d.readable (block % 2 ^ 16), d)
      if has_block then fill_dir current mode dir base i (block % 2 ^ 16) else do
        iput dir
        on_disk x.inode.i_dev (freed_block (block % 2 ^ 16))
        update i links_down
        put_one i (err error_code)

unfoldable pub sys_mkdir : Task → List ℕ → ℕ → Call Ret
sys_mkdir current pathname mode =
    if not (suser current)
    then pure (err eperm)
    else with_entry current pathname
        λ dir base e. if_null e (make_dir current mode dir base) λ e. put_one dir (err eexist)

-- sys_link() where the new name is not in its directory
unfoldable pub link_entry : ℕ → ℕ → List ℕ → Call Ret
link_entry old dir base = do
  e ← add_to dir base
  if_null e (put_both dir old (err enospc)) λ e. do
    y ← slot old
    set_entry dir e y.inode.i_num
    iput dir
    update old (λ z. set_dirty (links_up z))
    put_one old (ok 0)

unfoldable pub link_to : Task → ℕ → List ℕ → Call Ret
link_to current old newname = do
  r ← dir_namei current newname
  if_null r (put_one old (err eacces)) λ (dir, base).
      if length base == 0 then put_both old dir (err eperm) else do
        x ← slot dir
        y ← slot old
        if not (x.inode.i_dev == y.inode.i_dev)
            then put_both dir old (err exdev)
            else if not (allowed current x may_write)
            then put_both dir old (err eacces)
            else do
              found ← search_dir current dir base
              if_null found.1 (link_entry old found.0 base) λ e. put_both found.0 old (err eexist)

unfoldable pub sys_link : Task → List ℕ → List ℕ → Call Ret
sys_link current oldname newname = do
  r ← namei current oldname
  if_null r (pure (err enoent)) λ old. do
    y ← slot old
    if is_dir y.inode.stored.i_mode then put_one old (err eperm) else link_to current old newname
