-- ===== src/Fs/Namei.antt =====
-- fs/namei.c: permission(), match(), find_entry() and add_entry(), on the blocks of Inode. A directory has 64 entries
-- of 16 bytes to a block: a word for the inode and 14 bytes for the name. A name is the list of the
-- characters that the caller points to.
pub mod Search
pub mod Match
pub mod Entry
use rv.Common.{
  ℕ, zero, suc, ◌+◌, ◌-◌, ◌*◌, ◌/◌, ◌%◌, ◌^◌, Option, none, some, Bool, true, false, leb, ltb, ◌==◌,
  not, ◌&&◌, ◌||◌, if◌then◌else◌, List, [], ◌∷◌, get_or, take, length,
}
use rv.Common.Bits.{and32}
use rv.Kernel.Task.{Task}
use rv.Kernel.Sys.{suser}
use rv.Fs.Inode.{Disk, create_block, put_word}
use rv.Fs.FileDev.{byte_at, zone, put_bytes_from, Node}

abbrev pub name_len : ℕ
name_len = 14

abbrev pub dir_entries_per_block : ℕ
dir_entries_per_block = 64

-- The mode shifted for the owner, the group or the others.
abbrev pub mode_for : Task → ℕ → ℕ → ℕ → ℕ
mode_for current i_uid i_gid mode =
    if current.euid == i_uid
    then mode / 2 ^ 6
    else if current.egid == i_gid
    then mode / 2 ^ 3
    else mode

-- permission() of an inode with the device and the links given.
unfoldable pub permission : Task → ℕ → ℕ → ℕ → ℕ → ℕ → ℕ → Bool
permission current i_dev i_nlinks i_uid i_gid i_mode mask =
    if not (i_dev == 0) && i_nlinks == 0
    then false
    else and32 (and32 (mode_for current i_uid i_gid i_mode) mask) 7 == mask || suser current

-- de->inode and de->name[k] of entry j of block nr
abbrev pub inode_at : Disk → ℕ → ℕ → ℕ
inode_at d nr j = d.word nr (j * 8)

abbrev pub name_at : Disk → ℕ → ℕ → ℕ → ℕ
name_at d nr j k = byte_at d nr (j * 16 + 2 + k)

-- The loop of match() from character k on.
unfoldable pub same_from : Disk → ℕ → ℕ → ℕ → List ℕ → Bool
same_from d nr j k [] = true
same_from d nr j k (c ∷ name) = c == name_at d nr j k && same_from d nr j (suc k) name

unfoldable pub match : List ℕ → Disk → ℕ → ℕ → Bool
match name d nr j =
    if inode_at d nr j == 0 || ltb name_len (length name)
    then false
    else if ltb (length name) name_len && not (name_at d nr j (length name) == 0)
    then false
    else same_from d nr j 0 name

pub data Found : Type 0 where
  -- the block and the entry in it
  found : ℕ → ℕ → Found
  missing : Found
  -- bh->b_data, with bh NULL
  faults : Found
  -- the panic of bmap()
  panics : Found

-- The loop of find_entry() from entry i on, which is entry j of block nr, or behind it for j = 64.
unfoldable pub find_loop : ℕ → List ℕ → List ℕ → Disk → ℕ → ℕ → ℕ → ℕ → Found
find_loop zero name zones d entries i nr j = missing
find_loop (suc fuel) name zones d entries i nr j =
    let here : ℕ → ℕ → Found = λ nr j.
      if match name d nr j
      then found nr j
      else find_loop fuel name zones d entries (suc i) nr (suc j) in
    if not (ltb i entries)
    then missing
    else if ltb j dir_entries_per_block
    then here nr j
    else elim (zone zones (i / dir_entries_per_block) d) [
      | none ↦ panics
      | some block ↦
          if block == 0 || not (d.readable block)
          then if ltb (i + dir_entries_per_block) entries then faults else missing
          else here block 0
    ]

-- find_entry() for a name other than "..", in a directory of i_size bytes.
unfoldable pub find_entry : List ℕ → List ℕ → ℕ → Disk → Found
find_entry name zones i_size d =
    let short = take name_len name in
    if length short == 0
    then missing
    else if get_or zones 0 0 == 0 || not (d.readable (get_or zones 0 0))
    then missing
    else find_loop (i_size / 16) short zones d (i_size / 16) 0 (get_or zones 0 0) 0

-- Where ".." leads from a directory: to itself, as ".", in the root of the process; to the directory
-- that its device is mounted on, if it is the root of one; to its own entry "..".
pub data DotDot : Type 0 where
  as_dot : DotDot
  from_mount : ℕ → DotDot
  as_entry : DotDot

unfoldable pub dot_dot : Bool → ℕ → Option ℕ → DotDot
dot_dot is_root i_num s_imount =
    if is_root
    then as_dot
    else if i_num == 1
    then elim s_imount [ none ↦ as_entry | some dir ↦ from_mount dir ]
    else as_entry

-- de->name: the name, filled up with 0.
unfoldable pub padded : ℕ → List ℕ → List ℕ
padded zero name = []
padded (suc n) [] = 0 ∷ padded n []
padded (suc n) (c ∷ name) = c ∷ padded n name

abbrev pub put_name : List ℕ → ℕ → ℕ → Disk → Disk
put_name name nr j d = put_bytes_from nr (j * 16 + 2) (padded name_len name) d

-- de->inode = v
abbrev pub put_inode : ℕ → ℕ → ℕ → Disk → Disk
put_inode v nr j d = record d { word = put_word d.word nr (j * 8) v }

pub data Added : Type 0 where
  -- the block, the entry in it, and the directory
  added : ℕ → ℕ → Node → Added
  -- NULL
  no_entry : Node → Added
  faults_in_add : Added
  panics_in_add : Added
  -- the fuel is used up
  runs_out : Added

-- The entry is at the end of the directory, which grows by it.
abbrev pub at_end : ℕ → ℕ → ℕ → Node → Node
at_end i nr j n = record n { i_size = suc i * 16; disk = put_inode 0 nr j n.disk }

abbrev pub with_name : List ℕ → ℕ → ℕ → Node → Node
with_name name nr j n = record n { disk = put_name name nr j n.disk }

-- The loop of add_entry() from entry i on, which is entry j of block nr, or behind it for j = 64. The
-- times of the inode are left out.
unfoldable pub add_loop : ℕ → List ℕ → ℕ → ℕ → ℕ → Node → Added
add_loop zero name i nr j n = runs_out
add_loop (suc fuel) name i nr j n =
    let here : ℕ → ℕ → Node → Added = λ nr j n.
      if leb n.i_size (i * 16)
      then added nr j (with_name name nr j (at_end i nr j n))
      else if inode_at n.disk nr j == 0
      then added nr j (with_name name nr j n)
      else add_loop fuel name (suc i) nr (suc j) n in
    if ltb j dir_entries_per_block
    then here nr j n
    else elim (create_block n.zones (i / dir_entries_per_block) n.disk) [
      | none ↦ panics_in_add
      | some ((block, zones), d) ↦
          if block == 0
          then no_entry (record n { zones = zones; disk = d })
          else if not (d.readable block)
          then faults_in_add
          else here block 0 (record n { zones = zones; disk = d })
    ]

unfoldable pub add_entry : List ℕ → Node → Added
add_entry name n =
    let short = take name_len name in
    if length short == 0
    then no_entry n
    else if get_or n.zones 0 0 == 0 || not (n.disk.readable (get_or n.zones 0 0))
    then no_entry n
    else add_loop (n.i_size / 16 + 2) short 0 (get_or n.zones 0 0) 0 n
