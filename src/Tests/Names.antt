-- ===== src/Tests/Names.antt =====
-- fs/namei.c: a directory with one block.
use rv.Common.{ℕ, none, List, [], ◌∷◌, ◌==◌, if◌then◌else◌, arith, take}
use rv.Fs.Inode.{Disk}
use rv.Fs.FileDev.{Node}
use rv.Fs.Namei.{add_entry}
use rv.Fs.Namei.Entry.{IsAdded, add_entry-IsAdded}

abbrev zones : List ℕ
zones = 30 ∷ 0 ∷ 0 ∷ 0 ∷ 0 ∷ 0 ∷ 0 ∷ 0 ∷ 0 ∷ []

-- Entry 0 of block 30 is the file "a" of inode 5.
abbrev disk : Disk
disk = record {
  super = record { s_nzones = 100; s_firstdatazone = 20; s_zmap = [] };
  cached = λ _. none;
  readable = λ b. b == 30;
  word = λ b i. if b == 30 then (if i == 0 then 5 else if i == 1 then 97 else 0) else 0;
}

abbrev name : List ℕ
name = 97 ∷ []

abbrev node : Node
node = record { zones = zones; i_size = 16; disk = disk }

abbrev other_name : List ℕ
other_name = 98 ∷ 99 ∷ []

add_entry-IsAdded_example : IsAdded (take 14 other_name) 6 node (add_entry other_name node)
add_entry-IsAdded_example =
    add_entry-IsAdded other_name 6 node (omega arith, (omega arith, tt)) (omega arith)
