-- ===== src/Fs/DiskInode.antt =====
-- fs/inode.c: read_inode() and write_inode(), on the blocks of Inode. An inode on the device is 16 words,
-- and a block has 32 of them.
pub mod Codec
use rv.Common.{
  ℕ, zero, suc, ◌+◌, ◌-◌, ◌*◌, ◌/◌, ◌%◌, ◌^◌, Option, none, some, Bool, true, false, ◌==◌, not,
  ◌&&◌, ◌||◌, if◌then◌else◌, List, [], ◌∷◌, ◌++◌,
}
use rv.Fs.Inode.{Disk, put_word, entries}

-- struct d_inode, the first fields of struct m_inode
pub record DInode : Type 0 where
  pub i_mode : ℕ
  pub i_uid : ℕ
  pub i_size : ℕ
  pub i_mtime : ℕ
  pub i_gid : ℕ
  pub i_nlinks : ℕ
  pub i_zone : List ℕ

-- An inode in memory, which is not locked, as far as the two look at it.
pub record MInode : Type 0 where
  pub stored : DInode
  pub i_dev : ℕ
  pub i_num : ℕ
  pub i_dirt : Bool

-- What they use of the super block.
pub record Blocks : Type 0 where
  pub s_imap_blocks : ℕ
  pub s_zmap_blocks : ℕ

abbrev pub inodes_per_block : ℕ
inodes_per_block = 32

abbrev pub inode_block : Blocks → ℕ → ℕ
inode_block sb num = 2 + sb.s_imap_blocks + sb.s_zmap_blocks + (num - 1) / inodes_per_block

-- The first word of the inode in its block.
abbrev pub inode_slot : ℕ → ℕ
inode_slot num = (num - 1) % inodes_per_block * 16

abbrev pub words_of : DInode → List ℕ
words_of i =
    i.i_mode
    ∷ i.i_uid
    ∷ i.i_size % 2 ^ 16
    ∷ i.i_size / 2 ^ 16
    ∷ i.i_mtime % 2 ^ 16
    ∷ i.i_mtime / 2 ^ 16
    ∷ (i.i_nlinks * 256 + i.i_gid)
    ∷ i.i_zone

-- The struct d_inode from word p of a block on.
unfoldable pub inode_of : (ℕ → ℕ) → ℕ → DInode
inode_of w p = record {
  i_mode = w p;
  i_uid = w (p + 1);
  i_size = w (p + 3) * 2 ^ 16 + w (p + 2);
  i_mtime = w (p + 5) * 2 ^ 16 + w (p + 4);
  i_gid = w (p + 6) % 256;
  i_nlinks = w (p + 6) / 256;
  i_zone = entries 9 (p + 7) w;
}

-- Words stored one behind the other in a block.
unfoldable pub put_words : ℕ → ℕ → List ℕ → Disk → Disk
put_words nr p [] d = d
put_words nr p (v ∷ vs) d = put_words nr (suc p) vs (record d { word = put_word d.word nr p v })

-- `none` for panic(): no super block, or the block cannot be read.
unfoldable pub read_inode : Option Blocks → MInode → Disk → Option MInode
read_inode none inode d = none
read_inode (some sb) inode d =
    let block = inode_block sb inode.i_num in
    if d.readable block
    then some (record inode { stored = inode_of (d.word block) (inode_slot inode.i_num) })
    else none

unfoldable pub write_dirty : Option Blocks → MInode → Disk → Option (MInode × Disk)
write_dirty none inode d = none
write_dirty (some sb) inode d =
    let block = inode_block sb inode.i_num in
    if d.readable block
    then some (
      record inode { i_dirt = false },
      put_words block (inode_slot inode.i_num) (words_of inode.stored) d,
    )
    else none

unfoldable pub write_inode : Option Blocks → MInode → Disk → Option (MInode × Disk)
write_inode sb inode d =
    if not inode.i_dirt || inode.i_dev == 0 then some (inode, d) else write_dirty sb inode d
