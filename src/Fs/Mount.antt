-- ===== src/Fs/Mount.antt =====
-- fs/super.c: the super blocks, mounting and unmounting. An entry of super_block[] is free where its
-- s_dev is 0. `devices` gives the blocks of each device, and `root_dev` is ROOT_DEV; the test for a changed
-- floppy disk and what is printed are left out.
pub mod Crossing
use rv.Common.{
  ℕ, zero, suc, ◌+◌, ◌-◌, ◌*◌, ◌/◌, ◌%◌, ◌^◌, Option, none, some, Bool, true, false, ltb, leb, ◌==◌,
  not, ◌&&◌, ◌||◌, if◌then◌else◌, List, [], ◌∷◌, get_or, map,
}
use rv.Kernel.Task.{Task}
use rv.Kernel.Sys.{Ret, ok, err, eperm}
use rv.Fs.Bitmap.{Block, set_bit}
use rv.Fs.Inode.{Disk}
use rv.Fs.FileDev.{byte_at}
use rv.Fs.Seek.{is_dir, is_blk}
use rv.Fs.Open.{enoent}
use rv.Fs.Vfs.{
  Slot, Volume, Vfs, Call, nr_inode, root_ino, pure, panic, gets, when, if_null, ◌>>=◌, ◌>>◌,
  update, slot, set_dirty, find_super, get_super, put_volume, on_volume,
}
use rv.Fs.Table.{iput, iget, sync_inodes}
use rv.Fs.Walk.{namei}
use rv.Fs.Links.{put_one}

abbrev pub super_magic : ℕ
super_magic = 0x137F

abbrev pub map_slots : ℕ
map_slots = 8

abbrev pub ebusy : ℕ
ebusy = 16

abbrev pub enotblk : ℕ
enotblk = 15

-- The n map blocks from a block on, if they can all be read.
unfoldable pub read_maps : ℕ → ℕ → Disk → Option (List (Option Block))
read_maps zero block d = some []
read_maps (suc n) block d =
    let rest = read_maps n (suc block) d in
    if d.readable block
    then elim rest [ none ↦ none | some bs ↦ some (some (byte_at d block) ∷ bs) ]
    else none

-- b_data[0] |= 1 of the first map block
abbrev pub first_taken : List (Option Block) → List (Option Block)
first_taken (some b ∷ bs) = some (set_bit 0 b).1 ∷ bs
first_taken bs = bs

-- The super block in block 1 of the device, with its maps.
abbrev pub volume_of : ℕ → Disk → List (Option Block) → List (Option Block) → Volume
volume_of dev d imap zmap = record {
  s_dev = dev;
  s_imount = none;
  s_ninodes = d.word 1 0;
  s_imap = first_taken imap;
  blocks = record { s_imap_blocks = d.word 1 2; s_zmap_blocks = d.word 1 3 };
  disk = record d {
    super = record {
      s_nzones = d.word 1 1;
      s_firstdatazone = d.word 1 4;
      s_zmap = first_taken zmap;
    };
  };
}

-- A map of no block is looked for at NULL; one of more blocks than there are slots is stored behind
-- them, and is a fault here.
abbrev pub fits : ℕ → Bool
fits n = not (n == 0) && leb n map_slots

pub data SuperRead : Type 0 where
  -- the new super block
  reads : Volume → SuperRead
  -- NULL
  no_super : SuperRead
  faults_in_read : SuperRead

-- read_super() from the block with the super block on
unfoldable pub load_super : ℕ → Disk → SuperRead
load_super dev d =
    let imap = read_maps (d.word 1 2) 2 d in
    let zmap = read_maps (d.word 1 3) (2 + d.word 1 2) d in
    if not (d.readable 1)
    then no_super
    else if not (d.word 1 8 == super_magic)
    then no_super
    else if ltb map_slots (d.word 1 2) || ltb map_slots (d.word 1 3)
    then faults_in_read
    else elim imap [
      | none ↦ no_super
      | some is ↦ elim zmap [
        | none ↦ no_super
        | some zs ↦
            if fits (d.word 1 2) && fits (d.word 1 3)
            then reads (volume_of dev d is zs)
            else faults_in_read
      ]
    ]

-- The new super block is put into the first free entry.
unfoldable pub add_super : SuperRead → Call (Option Volume)
add_super (reads v) s = some (some v, record s { super_block = put_volume 0 v s.super_block })
add_super no_super s = some (none, s)
add_super faults_in_read s = none

unfoldable pub read_super : (ℕ → Disk) → ℕ → Call (Option Volume)
read_super devices dev = if dev == 0 then pure none else do
  old ← gets (λ s. get_super dev s.super_block)
  if_null old
      (do
        free ← gets (λ s. find_super 0 s.super_block)
        if_null free (pure none) λ entry. add_super (load_super dev (devices dev)))
      λ v. pure (some v)

unfoldable pub put_super : ℕ → ℕ → Call Unit
put_super root_dev dev = if dev == root_dev then pure tt else do
  sb ← gets (λ s. get_super dev s.super_block)
  if_null sb (pure tt) λ v.
      if_null v.s_imount (on_volume dev (λ w. some (tt, record w { s_dev = 0 }))) λ dir. pure tt

abbrev pub set_imount : Option ℕ → Volume → Option {0} (Unit × Volume)
set_imount i v = some (tt, record v { s_imount = i })

-- The end of sys_mount(), which keeps its reference to the directory.
unfoldable pub mount_at : ℕ → ℕ → Call Unit
mount_at dir dev = do
  on_volume dev (set_imount (some dir))
  update dir (λ x. set_dirty (record x { i_mount = true }))

unfoldable pub mount_on : (ℕ → Disk) → ℕ → ℕ → Call Ret
mount_on devices dev dir = do
  x ← slot dir
  if not (x.i_count == 1) || x.inode.i_num == root_ino
      then put_one dir (err ebusy)
      else if not (is_dir x.inode.stored.i_mode)
      then put_one dir (err eperm)
      else do
        sb ← read_super devices dev
        if_null sb (put_one dir (err ebusy)) λ v.
            if_null v.s_imount
              (if x.i_mount then put_one dir (err eperm) else do mount_at dir dev; pure (ok 0))
              λ other. put_one dir (err ebusy)

unfoldable pub sys_mount : (ℕ → Disk) → Task → List ℕ → List ℕ → Call Ret
sys_mount devices current dev_name dir_name = do
  named ← namei current dev_name
  if_null named (pure (err enoent)) λ dev_i. do
    x ← slot dev_i
    if not (is_blk x.inode.stored.i_mode) then put_one dev_i (err eperm) else do
      iput dev_i
      dir ← namei current dir_name
      if_null dir (pure (err enoent)) (mount_on devices (get_or x.inode.stored.i_zone 0 0))

-- Whether one of the n slots from i on is in use for an inode of the device.
unfoldable pub in_use : ℕ → ℕ → ℕ → (ℕ → Slot) → Bool
in_use zero i dev t = false
in_use (suc n) i dev t =
    (t i).inode.i_dev == dev && not ((t i).i_count == 0) || in_use n (suc i) dev t

-- The end of sys_umount() up to put_super().
unfoldable pub unmount_at : ℕ → ℕ → Call Unit
unmount_at dir dev = do
  update dir (λ x. record x { i_mount = false })
  iput dir
  on_volume dev (set_imount none)

unfoldable pub unmount : ℕ → ℕ → Call Ret
unmount root_dev dev = if dev == root_dev then pure (err ebusy) else do
  sb ← gets (λ s. get_super dev s.super_block)
  if_null sb (pure (err enoent)) λ v. if_null v.s_imount (pure (err enoent)) λ dir. do
    busy ← gets (λ s. in_use nr_inode 0 dev s.table)
    if busy
        then pure (err ebusy)
        else do unmount_at dir dev; put_super root_dev dev; sync_inodes; pure (ok 0)

unfoldable pub sys_umount : ℕ → Task → List ℕ → Call Ret
sys_umount root_dev current dev_name = do
  named ← namei current dev_name
  if_null named (pure (err enoent)) λ dev_i. do
    x ← slot dev_i
    if not (is_blk x.inode.stored.i_mode)
        then put_one dev_i (err enotblk)
        else do iput dev_i; unmount root_dev (get_or x.inode.stored.i_zone 0 0)

abbrev pub unused_entry : Volume → Volume
unused_entry v = record v { s_dev = 0 }

unfoldable pub clear_supers : Call Unit
clear_supers s = some (tt, record s { super_block = map unused_entry s.super_block })

abbrev pub four_times : Slot → Slot
four_times x = record x { i_count = (x.i_count + 3) % 2 ^ 16 }

-- mount_root(), without the file table: the process with its root and working directory.
unfoldable pub mount_root : (ℕ → Disk) → ℕ → Task → Call Task
mount_root devices root_dev current = do
  clear_supers
  sb ← read_super devices root_dev
  if_null sb panic λ v. do
    mi ← iget root_dev root_ino
    update mi four_times
    on_volume root_dev (set_imount (some mi))
    pure (record current { pwd = some mi; root = some mi })
