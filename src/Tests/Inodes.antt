-- ===== src/Tests/Inodes.antt =====
-- fs/inode.c: an inode is written to a device whose third block holds the first inodes.
use rv.Common.{◌≡◌, refl, none, some, true, false, [], ◌∷◌, ◌==◌, if◌then◌else◌, arith, replicate}
use rv.Fs.Inode.{Disk}
use rv.Fs.DiskInode.{
  Blocks, DInode, MInode, inode_block, inode_slot, words_of, put_words, read_inode, write_inode,
  write_dirty,
}
use rv.Fs.DiskInode.Codec.{read_inode-write_inode}

abbrev blocks : Blocks
blocks = record { s_imap_blocks = 1; s_zmap_blocks = 1 }

abbrev disk : Disk
disk = record {
  super = record { s_nzones = 100; s_firstdatazone = 20; s_zmap = [] };
  cached = λ _. none;
  readable = λ b. b == 4;
  word = λ b i. 0;
}

abbrev file : DInode
file = record {
  i_mode = 0x81a4;
  i_uid = 1;
  i_size = 70000;
  i_mtime = 700000000;
  i_gid = 2;
  i_nlinks = 1;
  i_zone = 30 ∷ replicate 8 0;
}

abbrev changed : MInode
changed = record { stored = file; i_dev = 257; i_num = 3; i_dirt = true }

abbrev other : MInode
other = record { stored = file; i_dev = 257; i_num = 4; i_dirt = false }

abbrev written : Disk
written = put_words (inode_block blocks 3) (inode_slot 3) (words_of file) disk

write_inode_written :
    write_inode (some blocks) changed disk ≡ some (record changed { i_dirt = false }, written)
unfolding write_inode write_dirty
write_inode_written = refl

read_inode-write_inode_example : read_inode (some blocks) other written ≡ (
    if 4 == 3 then some (record other { stored = file }) else read_inode (some blocks) other disk)
read_inode-write_inode_example =
    read_inode-write_inode (some blocks) changed (record changed { i_dirt = false }) other disk
      written (omega arith, refl) (omega arith) (omega arith) refl (omega arith) write_inode_written
