-- ===== src/Fs/Vfs.antt =====
-- include/linux/fs.h and fs/super.c: the inode table, the super blocks and what reads them. A pointer
-- to an inode is its slot of inode_table. Nothing else runs while a function sleeps, so that no inode
-- stays locked; the times of the inodes are left out.
pub mod Turns
use rv.Common.{
  ℕ, zero, suc, ◌+◌, ◌-◌, ◌*◌, ◌/◌, ◌%◌, ◌^◌, Option, none, some, Bool, true, false, ltb, leb, ◌==◌,
  if◌then◌else◌, List, [], ◌∷◌, replicate,
}
use rv.Fs.Bitmap.{Block}
use rv.Fs.Inode.{Disk}
use rv.Fs.DiskInode.{DInode, MInode, Blocks}

-- An entry of inode_table; for a pipe, i_size is the address of its page.
pub record Slot : Type 0 where
  pub inode : MInode
  pub i_count : ℕ
  pub i_mount : Bool
  pub i_pipe : Bool

-- An entry of super_block[], with the device's blocks as the buffer cache shows them. s_imount is
-- the slot of the directory that the device is mounted on.
pub record Volume : Type 0 where
  pub s_dev : ℕ
  pub s_imount : Option ℕ
  pub s_ninodes : ℕ
  pub s_imap : List (Option Block)
  pub blocks : Blocks
  pub disk : Disk

-- `freed` are the pages given to free_page(), the latest first.
pub record Vfs : Type 0 where
  pub table : ℕ → Slot
  pub last_inode : ℕ
  pub super_block : List Volume
  pub freed : List ℕ

abbrev pub nr_inode : ℕ
nr_inode = 32

abbrev pub nr_super : ℕ
nr_super = 8

abbrev pub root_ino : ℕ
root_ino = 1

-- A call: `none` for a panic, a fault, or a loop that does not end.
abbrev pub Call : Type 0 → Type 0
Call A = Vfs → Option (A × Vfs)

module _ {A : Type 0} where
  unfoldable pub pure : A → Call A
  pure a s = some (a, s)

  unfoldable pub panic : Call A
  panic s = none

  unfoldable pub gets : (Vfs → A) → Call A
  gets h s = some (h s, s)

-- `if (b) m`
unfoldable pub when : Bool → Call Unit → Call Unit
when b m = if b then m else pure tt

module _ {A B : Type 0} where
  -- `if (!p) m else` the rest, with what p points to
  unfoldable pub if_null : Option A → Call B → (A → Call B) → Call B
  if_null none m k = m
  if_null (some a) m k = k a

  abbrev pub continue : Option (A × Vfs) → (A → Call B) → Option (B × Vfs)
  continue none k = none
  continue (some (a, s)) k = k a s

  infixl 10 ◌>>=◌ ◌>>◌
  unfoldable pub ◌>>=◌ : Call A → (A → Call B) → Call B
  ◌>>=◌ m k s = continue (m s) k

  abbrev pub ◌>>◌ : Call A → Call B → Call B
  m >> n = m >>= λ _. n

abbrev pub update_at : ℕ → (Slot → Slot) → (ℕ → Slot) → ℕ → Slot
update_at i h t j = if i == j then h (t i) else t j

-- The fields of an inode are rewritten.
unfoldable pub update : ℕ → (Slot → Slot) → Call Unit
update i h s = some (tt, record s { table = update_at i h s.table })

unfoldable pub slot : ℕ → Call Slot
slot i s = some (s.table i, s)

abbrev pub no_inode : DInode
no_inode = record {
  i_mode = 0;
  i_uid = 0;
  i_size = 0;
  i_mtime = 0;
  i_gid = 0;
  i_nlinks = 0;
  i_zone = replicate 9 0;
}

-- memset(inode,0,sizeof(*inode))
abbrev pub cleared : Slot
cleared = record {
  inode = record { stored = no_inode; i_dev = 0; i_num = 0; i_dirt = false };
  i_count = 0;
  i_mount = false;
  i_pipe = false;
}

-- inode->i_count++ and inode->i_count--, of an unsigned short
abbrev pub ref_up : Slot → Slot
ref_up x = record x { i_count = (x.i_count + 1) % 2 ^ 16 }

abbrev pub ref_down : Slot → Slot
ref_down x = record x { i_count = (x.i_count + 2 ^ 16 - 1) % 2 ^ 16 }

abbrev pub set_dirty : Slot → Slot
set_dirty x = record x { inode = record (x.inode) { i_dirt = true } }

-- Fields of the struct d_inode at the start of an inode.
abbrev pub edit : (DInode → DInode) → Slot → Slot
edit h x = record x { inode = record (x.inode) { stored = h x.inode.stored } }

-- The loop of get_super().
unfoldable pub find_super : ℕ → List Volume → Option Volume
find_super dev [] = none
find_super dev (v ∷ vs) = let rest = find_super dev vs in if v.s_dev == dev then some v else rest

unfoldable pub get_super : ℕ → List Volume → Option Volume
get_super dev vs = if dev == 0 then none else find_super dev vs

unfoldable pub put_volume : ℕ → Volume → List Volume → List Volume
put_volume dev v [] = []
put_volume dev v (w ∷ ws) =
    let rest = put_volume dev v ws in if w.s_dev == dev then v ∷ ws else w ∷ rest

-- What a function does to the super block of a device, and to the device; a panic without one.
unfoldable pub on_volume : {A : Type 0} → ℕ → (Volume → Option (A × Volume)) → Call A
on_volume dev op s = elim (get_super dev s.super_block) [
  | none ↦ none
  | some v ↦ elim (op v) [
    | none ↦ none
    | some (a, v') ↦ some (a, record s { super_block = put_volume dev v' s.super_block })
  ]
]

unfoldable pub on_disk : {A : Type 0} → ℕ → (Disk → Option (A × Disk)) → Call A
unfolding on_volume
on_disk dev op =
    on_volume dev
      λ v. elim (op v.disk) [ none ↦ none | some (a, d) ↦ some (a, record v { disk = d }) ]
