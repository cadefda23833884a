-- ===== src/Fs/Table.antt =====
-- fs/inode.c and fs/bitmap.c: the inode table, from get_empty_inode() to iget() and iput(), and the inode
-- bitmap, on the state of Vfs. A call that works on the blocks of a device without a super block is
-- `none`, also where the source does not look at the super block.
pub mod Steady
pub mod Balance
pub mod Hit
use rv.Common.{
  ℕ, zero, suc, ◌+◌, ◌-◌, ◌*◌, ◌/◌, ◌%◌, ◌^◌, Option, none, some, Bool, true, false, ltb, leb, ◌==◌,
  not, ◌&&◌, ◌||◌, if◌then◌else◌, List, [], ◌∷◌, get_or, set,
}
use rv.Kernel.Task.{Task}
use rv.Fs.Bitmap.{Block, bits_per_block, clear_bit, set_bit, find_zone}
use rv.Fs.Inode.{truncate}
use rv.Fs.DiskInode.{DInode, read_inode, write_inode}
use rv.Fs.Seek.{is_dir, is_reg, is_blk}
use rv.Fs.Vfs.{
  Slot, Volume, Vfs, Call, nr_inode, nr_super, root_ino, pure, panic, gets, when, if_null, ◌>>=◌,
  ◌>>◌, update, slot, cleared, ref_up, ref_down, set_dirty, edit, get_super, on_volume, on_disk,
}

-- read_inode() and write_inode() of a slot
unfoldable pub read_slot : ℕ → Call Unit
read_slot i = do
  x ← slot i
  m ←
      on_volume x.inode.i_dev
        λ v. elim (read_inode (some v.blocks) x.inode v.disk) [ none ↦ none | some m ↦ some (m, v) ]
  update i (λ y. record y { inode = m })

unfoldable pub write_slot : ℕ → Call Unit
write_slot i = do
  x ← slot i
  if not x.inode.i_dirt || x.inode.i_dev == 0 then pure tt else do
    m ← on_volume x.inode.i_dev λ v. elim (write_inode (some v.blocks) x.inode v.disk) [
      | none ↦ none
      | some (m, d) ↦ some (m, record v { disk = d })
    ]
    update i (λ y. record y { inode = m })

-- The loops of sync_inodes() and invalidate_inodes(), over n slots from i on.
unfoldable pub sync_from : ℕ → ℕ → Call Unit
sync_from zero i = pure tt
sync_from (suc n) i = do
  x ← slot i
  when (x.inode.i_dirt && not x.i_pipe) (write_slot i)
  sync_from n (suc i)

unfoldable pub sync_inodes : Call Unit
sync_inodes = sync_from nr_inode 0

unfoldable pub invalidate_from : ℕ → ℕ → ℕ → Call Unit
invalidate_from zero i dev = pure tt
invalidate_from (suc n) i dev = do
  x ← slot i
  when (x.inode.i_dev == dev)
      (update i (λ y. record y { inode = record (y.inode) { i_dev = 0; i_dirt = false } }))
  invalidate_from n (suc i) dev

unfoldable pub invalidate_inodes : ℕ → Call Unit
invalidate_inodes dev = invalidate_from nr_inode 0 dev

-- ++last_inode
abbrev pub next_slot : ℕ → ℕ
next_slot last = if leb nr_inode (last + 1) then 0 else last + 1

-- The scan of get_empty_inode() behind slot `last`: the last slot looked at, and the first one that is
-- free and clean, or the last free one.
unfoldable pub scan_free : ℕ → ℕ → Option ℕ → (ℕ → Slot) → ℕ × Option ℕ
scan_free zero last found t = (last, found)
scan_free (suc n) last found t =
    let next = next_slot last in
    let is_free = (t next).i_count == 0 in
    let rest = scan_free n next (if is_free then some next else found) t in
    if is_free && not (t next).inode.i_dirt then (next, some next) else rest

unfoldable pub next_free : Call (Option ℕ)
next_free s =
    let r = scan_free nr_inode s.last_inode none s.table in
    some (r.1, record s { last_inode = r.0 })

-- `while (inode->i_dirt) write_inode(inode)`: a write that leaves it dirty is repeated for ever.
unfoldable pub clean_slot : ℕ → Call Unit
clean_slot i = do
  x ← slot i
  if x.inode.i_dirt then (do write_slot i; y ← slot i; when y.inode.i_dirt panic) else pure tt

-- The slot is wiped out, but for its count.
abbrev pub wiped : ℕ → Slot → Slot
wiped count x = record cleared { i_count = count }

unfoldable pub get_empty_inode : Call ℕ
get_empty_inode = do
  found ← next_free
  if_null found panic λ i. do clean_slot i; update i (wiped 1); pure i

-- With the page that get_free_page() returns.
unfoldable pub get_pipe_inode : ℕ → Call (Option ℕ)
get_pipe_inode page = do
  i ← get_empty_inode
  if page == 0 then (do update i (λ x. record x { i_count = 0 }); pure none) else do
    update i (edit (λ n. record n { i_size = page }))
    update i (λ x. record x { i_count = 2; i_pipe = true })
    pure (some i)

unfoldable pub give_page : ℕ → Call Unit
give_page page s = some (tt, record s { freed = page ∷ s.freed })

-- truncate() of a slot
unfoldable pub truncate_slot : ℕ → Call Unit
truncate_slot i = do
  x ← slot i
  if not (is_reg x.inode.stored.i_mode || is_dir x.inode.stored.i_mode) then pure tt else do
    zones ← on_disk x.inode.i_dev (truncate x.inode.stored.i_zone)
    update i (λ y. set_dirty (edit (λ n. record n { i_zone = zones; i_size = 0 }) y))

-- The bit of inode `num` is cleared; a bit that is clear already is only reported.
unfoldable pub clear_imap : ℕ → Volume → Option {0} (Unit × Volume)
clear_imap num v =
    if ltb num 1 || ltb v.s_ninodes num
    then none
    else elim (get_or v.s_imap (num / bits_per_block) none) [
      | none ↦ none
      | some b ↦ some (
        tt,
        record v {
          s_imap =
              set v.s_imap (num / bits_per_block) (some (clear_bit (num % bits_per_block) b).1);
        },
      )
    ]

unfoldable pub free_inode : ℕ → Call Unit
free_inode i = do
  x ← slot i
  if x.inode.i_dev == 0
      then update i (wiped 0)
      else if ltb 1 x.i_count || not (x.inode.stored.i_nlinks == 0)
      then panic
      else do on_volume x.inode.i_dev (clear_imap x.inode.i_num); update i (wiped 0)

abbrev pub no_pipe : Slot → Slot
no_pipe x = record x { i_count = 0; i_pipe = false; inode = record (x.inode) { i_dirt = false } }

-- iput() of a pipe
unfoldable pub put_pipe : ℕ → Call Unit
put_pipe i = do
  update i ref_down
  y ← slot i
  if not (y.i_count == 0) then pure tt else do give_page y.inode.stored.i_size; update i no_pipe

-- iput() from `repeat` on. A dirty inode is written and clean in the second round.
unfoldable pub put_rounds : ℕ → ℕ → Call Unit
put_rounds zero i = panic
put_rounds (suc rounds) i = do
  x ← slot i
  if ltb 1 x.i_count
      then update i ref_down
      else if x.inode.stored.i_nlinks == 0
      then (do truncate_slot i; free_inode i)
      else if x.inode.i_dirt
      then (do write_slot i; put_rounds rounds i)
      else update i ref_down

-- sync_dev() of the device that the inode is writes the inodes; the buffers it writes keep their content.
unfoldable pub iput : ℕ → Call Unit
iput i = do
  x ← slot i
  if x.i_count == 0
      then panic
      else if x.i_pipe
      then put_pipe i
      else if x.inode.i_dev == 0
      then update i ref_down
      else do when (is_blk x.inode.stored.i_mode) sync_inodes; put_rounds 2 i

-- The first of the n slots from i on that holds the inode.
unfoldable pub find_inode : ℕ → ℕ → ℕ → ℕ → (ℕ → Slot) → Option ℕ
find_inode zero i dev nr t = none
find_inode (suc n) i dev nr t =
    let rest = find_inode n (suc i) dev nr t in
    if (t i).inode.i_dev == dev && (t i).inode.i_num == nr then some i else rest

-- The device that is mounted on slot i.
unfoldable pub mounted_on : ℕ → List Volume → Option ℕ
mounted_on i [] = none
mounted_on i (v ∷ vs) =
    let rest = mounted_on i vs in
    elim v.s_imount [ none ↦ rest | some j ↦ if i == j then some v.s_dev else rest ]

-- The loop of iget(). Each round but the last crosses a mount point, which leads to the root of a super
-- block; after nr_super rounds a root has come twice, and the source does not return.
unfoldable pub iget_loop : ℕ → ℕ → ℕ → ℕ → Call ℕ
iget_loop zero dev nr empty = panic
iget_loop (suc rounds) dev nr empty = do
  found ← gets (λ s. find_inode nr_inode 0 dev nr s.table)
  if_null found
      (do
        update empty (λ x. record x { inode = record (x.inode) { i_dev = dev; i_num = nr } })
        read_slot empty
        pure empty)
      λ i. do
        update i ref_up
        x ← slot i
        mount ← gets (λ s. if x.i_mount then mounted_on i s.super_block else none)
        if_null mount (do iput empty; pure i)
            λ dev'. do iput i; iget_loop rounds dev' root_ino empty

unfoldable pub iget : ℕ → ℕ → Call ℕ
iget dev nr =
    if dev == 0 then panic else do empty ← get_empty_inode; iget_loop (nr_super + 1) dev nr empty

abbrev pub set_imap : ℕ → ℕ → Block → Volume → Option {0} (Unit × Volume)
set_imap k j b v =
    if (set_bit j b).0
    then none
    else some (tt, record v { s_imap = set v.s_imap k (some (set_bit j b).1) })

-- What new_inode() writes into the slot.
abbrev pub fresh : Task → ℕ → ℕ → Slot → Slot
fresh current dev num x = record x {
  i_count = 1;
  inode = record (x.inode) {
    i_dev = dev;
    i_num = num;
    i_dirt = true;
    stored = record (x.inode.stored) {
      i_nlinks = 1;
      i_uid = current.euid;
      i_gid = current.egid % 256;
    };
  };
}

-- `none` for NULL: no inode is free
unfoldable pub new_inode : Task → ℕ → Call (Option ℕ)
new_inode current dev = do
  i ← get_empty_inode
  v ← on_volume dev (λ v. some (v, v))
  if_null (find_zone 0 v.s_imap) (do iput i; pure none)
      λ (k, j, b). if ltb v.s_ninodes (j + k * bits_per_block) then (do iput i; pure none) else do
        on_volume dev (set_imap k j b)
        update i (fresh current dev (j + k * bits_per_block))
        pure (some i)
