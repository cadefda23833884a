-- ===== src/Tests/Walks.antt =====
-- Runs of the inode table, the walk along a path name and the calls on names, and the hypotheses of their
-- theorems at concrete values.
use rv.Common.{
  ℕ, ◌+◌, ◌*◌, Option, none, some, Bool, true, false, ◌==◌, ◌||◌, arith, if◌then◌else◌, List, [],
  ◌∷◌, ◌≡◌, refl, get_or,
}
use rv.Kernel.Task.{Task, init_task}
use rv.Kernel.Sys.{Ret, ok, err}
use rv.Fs.Bitmap.{Block, Super}
use rv.Fs.Inode.{Disk}
use rv.Fs.DiskInode.{DInode, MInode, Blocks}
use rv.Fs.Vfs.{Slot, Volume, Vfs, Call, cleared, ◌>>◌, find_super, get_super}
use rv.Fs.Vfs.Turns.{Turns, bump}
use rv.Fs.Table.{iget, find_inode, scan_free, mounted_on}
use rv.Fs.Table.Hit.{IsHit, iget-IsHit}
use rv.Fs.Mount.{sys_mount, sys_umount}
use rv.Fs.Mount.Crossing.{IsMountPoint, Crosses, mount_at-Crosses}
use rv.Fs.Table.Balance.{iget-balance}
use rv.Fs.Walk.{namei}
use rv.Fs.Walk.Balance.{held_open, open_namei-balance}
use rv.Fs.Links.Balance.{Keeps, names-balance}
use rv.Fs.Walk.Create.{open_namei, gives}
use rv.Fs.Links.{sys_mknod, sys_mkdir, sys_link}
use rv.Fs.Links.Remove.{sys_rmdir, sys_unlink}

abbrev root_inode : DInode
root_inode = record {
  i_mode = 0o40755;
  i_uid = 0;
  i_size = 64;
  i_mtime = 0;
  i_gid = 0;
  i_nlinks = 2;
  i_zone = 5 ∷ 0 ∷ 0 ∷ 0 ∷ 0 ∷ 0 ∷ 0 ∷ 0 ∷ 0 ∷ [];
}

-- Inode 1 is the root, inode 2 the file "a" in it, of one zone, and inode 3 the block device 2, as "d".
abbrev inode_words : List ℕ
inode_words =
    0o40755 ∷ 0 ∷ 64 ∷ 0 ∷ 0 ∷ 0 ∷ 512 ∷ 5 ∷ 0 ∷ 0 ∷ 0 ∷ 0 ∷ 0 ∷ 0 ∷ 0 ∷ 0 ∷ 0o100644 ∷ 0 ∷ 4 ∷ 0
    ∷ 0 ∷ 0 ∷ 256 ∷ 6 ∷ 0 ∷ 0 ∷ 0 ∷ 0 ∷ 0 ∷ 0 ∷ 0 ∷ 0 ∷ 0o60600 ∷ 0 ∷ 0 ∷ 0 ∷ 0 ∷ 0 ∷ 256 ∷ 2 ∷ []

abbrev dir_words : List ℕ
dir_words =
    1 ∷ 46 ∷ 0 ∷ 0 ∷ 0 ∷ 0 ∷ 0 ∷ 0 ∷ 1 ∷ 11822 ∷ 0 ∷ 0 ∷ 0 ∷ 0 ∷ 0 ∷ 0 ∷ 2 ∷ 97 ∷ 0 ∷ 0 ∷ 0 ∷ 0 ∷ 0
    ∷ 0 ∷ 3 ∷ 100 ∷ []

-- The super block.
abbrev super_words : List ℕ
super_words = 32 ∷ 100 ∷ 1 ∷ 1 ∷ 5 ∷ 0 ∷ 0 ∷ 0 ∷ 4991 ∷ []

abbrev words : ℕ → ℕ → ℕ
words b i =
    if b == 1
    then get_or super_words i 0
    else if b == 4
    then get_or inode_words i 0
    else if b == 5
    then get_or dir_words i 0
    else if b == 2 || b == 3
    then (if i == 0 then 15 else 0)
    else 0

abbrev map_of : ℕ → Block
map_of v i = if i == 0 then v else 0

abbrev small_disk : Disk
small_disk = record {
  super = record { s_nzones = 100; s_firstdatazone = 5; s_zmap = some (map_of 15) ∷ [] };
  cached = λ b. none;
  readable = λ b. true;
  word = words;
}

abbrev small_volume : Volume
small_volume = record {
  s_dev = 1;
  s_imount = none;
  s_ninodes = 32;
  s_imap = some (map_of 15) ∷ [];
  blocks = record { s_imap_blocks = 1; s_zmap_blocks = 1 };
  disk = small_disk;
}

abbrev root_slot : Slot
root_slot = record {
  inode = record { stored = root_inode; i_dev = 1; i_num = 1; i_dirt = false };
  i_count = 2;
  i_mount = false;
  i_pipe = false;
}

-- Slot 0 holds the root, for the root and the working directory of the process.
abbrev booted : Vfs
booted = record {
  table = λ i. if i == 0 then root_slot else cleared;
  last_inode = 0;
  super_block = small_volume ∷ [];
  freed = [];
}

abbrev shell : Task
shell = record init_task { pwd = some 0; root = some 0 }

abbrev path_a : List ℕ
path_a = 47 ∷ 97 ∷ []

abbrev path_b : List ℕ
path_b = 98 ∷ []

abbrev counts : {A : Type 0} → Option (A × Vfs) → Option (A × ℕ × ℕ × ℕ)
counts none = none
counts (some (a, s)) = some (a, (s.table 0).i_count, (s.table 1).i_count, (s.table 2).i_count)

abbrev path_to : List ℕ
path_to = 47 ∷ 99 ∷ []

-- The references that the state counts.
abbrev refs : ℕ → ℕ
refs i = if i == 0 then 2 else 0

iget-balance_example : Turns refs (λ i. bump i refs) (iget 1 2)
iget-balance_example = iget-balance refs 1 2

open_namei-balance_example : Turns refs (held_open refs) (open_namei shell path_b 0o102 0o644)
open_namei-balance_example = open_namei-balance refs shell path_b 0o102 0o644

names-balance_example :
    Keeps refs (sys_mknod shell path_a 0o100644 0)
    × Keeps refs (sys_mkdir shell path_a 0o100644)
    × Keeps refs (sys_rmdir shell path_a)
    × Keeps refs (sys_unlink shell path_a)
    × Keeps refs (sys_link shell path_a path_to)
names-balance_example = names-balance refs shell path_a path_to 0o100644 0

iget-IsHit_example : IsHit 0 1 booted (iget 1 1 booted)
unfolding find_inode scan_free
iget-IsHit_example = iget-IsHit 1 1 0 1 1 booted (omega arith) refl refl refl refl (omega arith)

-- Slot 1 holds a directory of one reference, and device 2 has a super block.
abbrev mountable : Vfs
mountable = record booted {
  table = λ i.
      if i == 0
      then root_slot
      else if i == 1
      then record root_slot {
        i_count = 1;
        inode = record { stored = root_inode; i_dev = 1; i_num = 4; i_dirt = false };
      }
      else cleared;
  super_block = small_volume ∷ record small_volume { s_dev = 2 } ∷ [];
}

mountable-IsMountPoint : IsMountPoint 1 4 1 mountable
unfolding find_inode mounted_on
mountable-IsMountPoint = record {
  holds = refl;
  on_device = refl;
  once = refl;
  no_pipe = refl;
  directory = refl;
  bare = refl;
}

mount_at-Crosses_example : Crosses 1 4 1 2 2 mountable
unfolding find_super get_super scan_free
mount_at-Crosses_example =
    mount_at-Crosses 1 4 1 2 2 2 mountable (record small_volume { s_dev = 2 }) (omega arith)
      mountable-IsMountPoint refl refl refl (omega arith)

abbrev devices : ℕ → Disk
devices dev = small_disk

abbrev path_d : List ℕ
path_d = 100 ∷ []

abbrev path_ba : List ℕ
path_ba = 98 ∷ 47 ∷ 97 ∷ []

-- A second device, mounted on a new directory.
abbrev mounts : Call Ret
mounts = sys_mkdir shell path_b 0o777 >> sys_mount devices shell path_d path_b

abbrev bare : Vfs
bare = record booted { super_block = small_volume ∷ record small_volume { s_dev = 0 } ∷ [] }

-- The inode "a" comes into slot 1; its name is removed, and with it the inode; a directory is made
-- and found; a device is mounted on it, and unmounted unless one of its inodes is in use. The root keeps
-- its two references.
runs :
    (counts (namei shell path_a booted) ≡ some (some 1, 2, 1, 0))
    × (counts (sys_unlink shell path_a booted) ≡ some (ok 0, 2, 0, 0))
    × (counts ((sys_mkdir shell path_b 0o777 >> namei shell path_b) booted)
        ≡ some (some 1, 2, 1, 0))
    × (counts ((sys_mkdir shell path_b 0o777 >> sys_rmdir shell path_b) booted)
        ≡ some (ok 0, 2, 0, 0))
    × (counts ((sys_link shell path_a path_to >> sys_link shell path_a path_to) booted)
        ≡ some (err 17, 2, 0, 0))
    × (counts (mounts bare) ≡ some (ok 0, 2, 1, 0))
    × (counts ((mounts >> namei shell path_ba) bare) ≡ some (some 5, 2, 1, 0))
    × (counts ((mounts >> sys_umount 1 shell path_d) bare) ≡ some (ok 0, 2, 0, 0))
    × (counts ((mounts >> (namei shell path_ba >> sys_umount 1 shell path_d)) bare)
        ≡ some (err 16, 2, 1, 0))
    × (counts (open_namei shell path_b 0o102 0o644 booted) ≡ some (gives 1, 2, 1, 0))
unfolding rv.Common.Bits.bit rv.Common.Bits.set_bit rv.Common.Bits.clear_bit rv.Common.Bits.bitwise
    rv.Fs.Vfs.pure rv.Fs.Vfs.panic rv.Fs.Vfs.gets rv.Fs.Vfs.when rv.Fs.Vfs.if_null rv.Fs.Vfs.◌>>=◌
    rv.Fs.Vfs.update rv.Fs.Vfs.slot rv.Fs.Vfs.find_super rv.Fs.Vfs.get_super rv.Fs.Vfs.put_volume
    rv.Fs.Vfs.on_volume rv.Fs.Vfs.on_disk rv.Fs.Table.read_slot rv.Fs.Table.write_slot
    rv.Fs.Table.sync_from rv.Fs.Table.sync_inodes rv.Fs.Table.invalidate_from
    rv.Fs.Table.invalidate_inodes rv.Fs.Table.scan_free rv.Fs.Table.next_free rv.Fs.Table.clean_slot
    rv.Fs.Table.get_empty_inode rv.Fs.Table.get_pipe_inode rv.Fs.Table.give_page
    rv.Fs.Table.truncate_slot rv.Fs.Table.clear_imap rv.Fs.Table.free_inode rv.Fs.Table.put_pipe
    rv.Fs.Table.put_rounds rv.Fs.Table.iput rv.Fs.Table.find_inode rv.Fs.Table.mounted_on
    rv.Fs.Table.iget_loop rv.Fs.Table.iget rv.Fs.Table.new_inode rv.Fs.Walk.look_up
    rv.Fs.Walk.follow rv.Fs.Walk.mount_point rv.Fs.Walk.search_dir rv.Fs.Walk.entry_inode
    rv.Fs.Walk.enter rv.Fs.Walk.split rv.Fs.Walk.walk rv.Fs.Walk.walk_from rv.Fs.Walk.walk_path
    rv.Fs.Walk.get_dir rv.Fs.Walk.dir_namei rv.Fs.Walk.namei rv.Fs.Walk.Create.same_zones
    rv.Fs.Walk.Create.add_to rv.Fs.Walk.Create.set_entry rv.Fs.Walk.Create.create_file
    rv.Fs.Walk.Create.open_found rv.Fs.Walk.Create.open_namei rv.Fs.Links.put_both
    rv.Fs.Links.put_one rv.Fs.Links.with_entry rv.Fs.Links.make_node rv.Fs.Links.sys_mknod
    rv.Fs.Links.fill_dir rv.Fs.Links.make_dir rv.Fs.Links.sys_mkdir rv.Fs.Links.Remove.empty_loop
    rv.Fs.Links.Remove.dir_is_empty rv.Fs.Links.Remove.drop_dir rv.Fs.Links.Remove.remove_other
    rv.Fs.Links.Remove.remove_dir rv.Fs.Links.Remove.sys_rmdir rv.Fs.Links.Remove.unlink_entry
    rv.Fs.Links.Remove.sys_unlink rv.Fs.Links.link_entry rv.Fs.Links.link_to rv.Fs.Links.sys_link
    rv.Fs.Namei.permission rv.Fs.Namei.same_from rv.Fs.Namei.match rv.Fs.Namei.find_loop
    rv.Fs.Namei.find_entry rv.Fs.Namei.dot_dot rv.Fs.Namei.padded rv.Fs.Namei.add_loop
    rv.Fs.Namei.add_entry rv.Fs.Inode.take_block rv.Fs.Inode.grown rv.Fs.Inode.entry_zone
    rv.Fs.Inode.inode_zone rv.Fs.Inode.map_block rv.Fs.Inode.bmap rv.Fs.Inode.create_block
    rv.Fs.Inode.give_block rv.Fs.Inode.each_zone rv.Fs.Inode.entries rv.Fs.Inode.free_ind
    rv.Fs.Inode.free_dind rv.Fs.Inode.truncate rv.Fs.DiskInode.inode_of rv.Fs.DiskInode.put_words
    rv.Fs.DiskInode.read_inode rv.Fs.DiskInode.write_dirty rv.Fs.DiskInode.write_inode
    rv.Fs.Bitmap.set_bit rv.Fs.Bitmap.clear_bit rv.Fs.Bitmap.find_first_zero rv.Fs.Bitmap.find_zone
    rv.Fs.Bitmap.new_block rv.Fs.Bitmap.free_block rv.Fs.FileDev.bytes_from
    rv.Fs.FileDev.put_bytes_from rv.Fs.FileDev.read_loop rv.Fs.FileDev.file_read
    rv.Fs.FileDev.write_loop rv.Fs.FileDev.file_write rv.Fs.Mount.read_maps rv.Fs.Mount.load_super
    rv.Fs.Mount.add_super rv.Fs.Mount.read_super rv.Fs.Mount.put_super rv.Fs.Mount.mount_at
    rv.Fs.Mount.mount_on rv.Fs.Mount.sys_mount rv.Fs.Mount.in_use rv.Fs.Mount.unmount_at
    rv.Fs.Mount.unmount rv.Fs.Mount.sys_umount rv.Fs.Mount.clear_supers rv.Fs.Mount.mount_root
runs = (refl, refl, refl, refl, refl, refl, refl, refl, refl, refl)
