-- ===== src/Fs/Namei/Search.antt =====
-- fs/namei.c, find_entry(): which entry it finds.
use rv.Common.{
  ℕ, ◌+◌, ◌/◌, ◌%◌, ◌≤◌, ◌<◌, ◌≡◌, ◌⊎◌, none, some, Bool, true, false, ◌==◌, not, ◌||◌, List,
  length,
}
use rv.Fs.Inode.{Disk}
use rv.Fs.FileDev.{zone}
use rv.Fs.Namei.{Found, found, missing, faults, panics, match, dir_entries_per_block}

module _ (name zones : List ℕ) (d : Disk) where
  -- Entry k of the directory is in a block that can be read, and match() says b of it.
  abbrev pub Answers : ℕ → Bool → Type 0
  Answers k b =
      (nr : ℕ) × (zone zones (k / dir_entries_per_block) d ≡ some nr)
      × (match name d nr (k % dir_entries_per_block) ≡ b)

  -- Block number n of the directory is a hole or cannot be read.
  abbrev pub IsLost : ℕ → Type 0
  IsLost n = (nr : ℕ) × (zone zones n d ≡ some nr) × ((nr == 0 || not (d.readable nr)) ≡ true)

  abbrev pub NoneUpTo : ℕ → Type 0
  NoneUpTo i = (k : ℕ) → k < i → Answers k false

  -- What the search finds among `entries` entries: the first one that matches. It gives up at a block
  -- behind the first that is lost, with a fault unless that is the last one.
  abbrev pub IsFirst : ℕ → Found → Type 0
  IsFirst entries (found nr j) =
      (i : ℕ) × (i < entries)
      × (j ≡ i % dir_entries_per_block)
      × (zone zones (i / dir_entries_per_block) d ≡ some nr)
      × (match name d nr j ≡ true)
      × NoneUpTo i
  IsFirst entries missing =
      (i : ℕ) × NoneUpTo i
      × ((entries ≤ i)
          ⊎ ((entries ≤ i + dir_entries_per_block) × IsLost (i / dir_entries_per_block)))
  IsFirst entries faults =
      (i : ℕ) × NoneUpTo i
      × (i + dir_entries_per_block < entries)
      × IsLost (i / dir_entries_per_block)
  IsFirst entries panics =
      (i : ℕ) × (i < entries) × NoneUpTo i × (zone zones (i / dir_entries_per_block) d ≡ none)

  -- Where the loop stands: at entry j of block nr, which is entry i, or behind a block.
  abbrev AtEntry : ℕ → ℕ → ℕ → Type 0
  AtEntry i nr j =
      ((j < dir_entries_per_block)
        × (j ≡ i % dir_entries_per_block)
        × (zone zones (i / dir_entries_per_block) d ≡ some nr))
      ⊎ ((j ≡ dir_entries_per_block) × (i % dir_entries_per_block ≡ 0))

-- A directory that find_entry() does not look into: a name of no characters, or a first block that is a
-- hole or cannot be read.
abbrev pub IsClosed : List ℕ → List ℕ → Disk → Found → Type 0
IsClosed name zones d r = (r ≡ missing) × ((length name ≡ 0) ⊎ IsLost name zones d 0)
