-- ===== src/Fs/Inode.antt =====
-- fs/inode.c and fs/truncate.c: _bmap() and truncate(). The blocks of the device, as the buffer cache
-- shows them, are functions from an index to a 16-bit word; `readable` says for which bread() succeeds.
use rv.Common.{
  ℕ, zero, suc, ◌+◌, ◌-◌, ◌*◌, ◌/◌, ◌%◌, ◌^◌, Option, none, some, Bool, true, false, ltb, leb, ◌==◌,
  not, ◌&&◌, if◌then◌else◌, List, [], ◌∷◌, get_or, set, replicate,
}
use rv.Fs.Bitmap.{Super, done, panics, new_block, free_block}

pub record Disk : Type 0 where
  pub super : Super
  pub cached : ℕ → Option ℕ
  pub readable : ℕ → Bool
  pub word : ℕ → ℕ → ℕ

-- The result of a function, `none` for panic().
abbrev pub Result {ℓ} : Type ℓ → Type ℓ
Result A = Option (A × Disk)

abbrev pub put_word : (ℕ → ℕ → ℕ) → ℕ → ℕ → ℕ → ℕ → ℕ → ℕ
put_word w block i v b j = if block == b && i == j then v else w b j

-- new_block(), which clears the block.
unfoldable pub take_block : Disk → Result ℕ
take_block d = elim (new_block d.cached d.super) [
  | panics ↦ none
  | done block sb ↦ some (
    block,
    record d { super = sb; word = λ b j. if not (block == 0) && block == b then 0 else d.word b j },
  )
]

-- The zone, or a new one if there is none and `create` is set.
unfoldable pub grown : Bool → ℕ → Disk → Result ℕ
grown create zone d = if create && zone == 0 then take_block d else some (zone, d)

-- The zone in entry i of an indirect block: 0 where the block is 0 or cannot be read.
unfoldable pub entry_zone : Bool → ℕ → ℕ → Disk → Result ℕ
entry_zone create block i d =
    if block == 0
    then some (0, d)
    else if not (d.readable block)
    then some (0, d)
    else elim (grown create (d.word block i) d) [
      | none ↦ none
      | some (z, d') ↦ some (
        z,
        if d.word block i == 0 && not (z == 0)
            then record d' { word = put_word d'.word block i (z % 2 ^ 16) }
            else d',
      )
    ]

-- i_zone[k] of the inode, grown in the same way.
unfoldable pub inode_zone : Bool → ℕ → List ℕ → Disk → Result (ℕ × List ℕ)
inode_zone create k zones d = elim (grown create (get_or zones k 0) d) [
  | none ↦ none
  | some (z, d') ↦ some ((z, set zones k (z % 2 ^ 16)), d')
]

-- The result: the zone, and the zones of the inode.
unfoldable pub map_block : Bool → ℕ → List ℕ → Disk → Result (ℕ × List ℕ)
map_block create block zones d =
    if leb (7 + 512 + 512 * 512) block
    then none
    else if ltb block 7
    then inode_zone create block zones d
    else if ltb (block - 7) 512
    then elim (inode_zone create 7 zones d) [
      | none ↦ none
      | some ((ind, zones'), d') ↦ elim (entry_zone create ind (block - 7) d') [
        | none ↦ none
        | some (z, d'') ↦ some ((z, zones'), d'')
      ]
    ]
    else elim (inode_zone create 8 zones d) [
      | none ↦ none
      | some ((dind, zones'), d') ↦ elim (entry_zone create dind ((block - 519) / 512) d') [
        | none ↦ none
        | some (ind, d'') ↦ elim (entry_zone create ind ((block - 519) % 512) d'') [
          | none ↦ none
          | some (z, d''') ↦ some ((z, zones'), d''')
        ]
      ]
    ]

unfoldable pub bmap : List ℕ → ℕ → Disk → Result (ℕ × List ℕ)
bmap zones block d = map_block false block zones d

unfoldable pub create_block : List ℕ → ℕ → Disk → Result (ℕ × List ℕ)
create_block zones block d = map_block true block zones d

-- free_block(), where 0 is no block.
unfoldable pub give_block : ℕ → Disk → Option Disk
give_block block d = elim (free_block d.cached block d.super) [
  | panics ↦ none
  | done freed sb ↦ some (record d { super = sb })
]

-- `for (...) if (*p) free(dev,*p)` over a list of entries
unfoldable pub each_zone : (ℕ → Disk → Option Disk) → List ℕ → Disk → Option Disk
each_zone free [] d = some d
each_zone free (z ∷ zs) d =
    if z == 0
    then each_zone free zs d
    else elim (free z d) [ none ↦ none | some d' ↦ each_zone free zs d' ]

-- The n entries of an indirect block from i on, as they are when it is read.
unfoldable pub entries : ℕ → ℕ → (ℕ → ℕ) → List ℕ
entries zero i w = []
entries (suc n) i w = w i ∷ entries n (suc i) w

unfoldable pub free_ind : ℕ → Disk → Option Disk
free_ind block d =
    if block == 0
    then some d
    else if not (d.readable block)
    then give_block block d
    else elim (each_zone give_block (entries 512 0 (d.word block)) d) [
      | none ↦ none
      | some d' ↦ give_block block d'
    ]

unfoldable pub free_dind : ℕ → Disk → Option Disk
free_dind block d =
    if block == 0
    then some d
    else if not (d.readable block)
    then give_block block d
    else elim (each_zone free_ind (entries 512 0 (d.word block)) d) [
      | none ↦ none
      | some d' ↦ give_block block d'
    ]

abbrev pub direct : List ℕ → List ℕ
direct zones =
    get_or zones 0 0
    ∷ get_or zones 1 0
    ∷ get_or zones 2 0
    ∷ get_or zones 3 0
    ∷ get_or zones 4 0
    ∷ get_or zones 5 0
    ∷ get_or zones 6 0
    ∷ []

-- truncate() of a regular file or a directory: the zones of the inode afterwards.
unfoldable pub truncate : List ℕ → Disk → Result (List ℕ)
truncate zones d = elim (each_zone give_block (direct zones) d) [
  | none ↦ none
  | some d1 ↦ elim (free_ind (get_or zones 7 0) d1) [
    | none ↦ none
    | some d2 ↦ elim (free_dind (get_or zones 8 0) d2) [
      | none ↦ none
      | some d3 ↦ some (replicate 9 0, d3)
    ]
  ]
]
