-- ===== src/Fs/Bitmap.antt =====
-- fs/bitmap.c: set_bit(), clear_bit(), find_first_zero(), new_block() and free_block(). A map block is
-- a function from its 1024 offsets to bytes; `cached` gives b_count of the buffer of a block that is in
-- the cache, before the call.
pub mod Take
use rv.Common.{
  ℕ, zero, suc, ◌+◌, ◌-◌, ◌*◌, ◌/◌, ◌%◌, Option, none, some, Bool, true, false, ltb, leb, ◌==◌, not,
  ◌||◌, if◌then◌else◌, List, [], ◌∷◌, get_or, set,
}
use rv.Common.Bits

abbrev pub Block : Type 0
Block = ℕ → ℕ

abbrev pub bits_per_block : ℕ
bits_per_block = 8192

-- `mask` is 1 << (nr & 7), of the byte at nr >> 3.
abbrev pub bit_of : ℕ → Block → Bool
bit_of nr b = Bits.bit (b (nr / 8)) (nr % 8)

abbrev pub put_byte : Block → ℕ → ℕ → Block
put_byte b i v j = if i == j then v else b j

-- The old bit, and the map.
unfoldable pub set_bit : ℕ → Block → Bool × Block
set_bit nr b = (bit_of nr b, put_byte b (nr / 8) (Bits.set_bit (b (nr / 8)) (nr % 8)))

-- Whether the bit was clear already, and the map.
unfoldable pub clear_bit : ℕ → Block → Bool × Block
clear_bit nr b = (not (bit_of nr b), put_byte b (nr / 8) (Bits.clear_bit (b (nr / 8)) (nr % 8)))

-- The first clear bit from `i` on, among n of them, or the end.
unfoldable pub find_first_zero : ℕ → ℕ → Block → ℕ
find_first_zero zero i b = i
find_first_zero (suc n) i b =
    let rest = find_first_zero n (suc i) b in if not (bit_of i b) then i else rest

-- The fields of a super_block that these functions use; s_zmap has 8 entries, `none` for NULL.
pub record Super : Type 0 where
  pub s_nzones : ℕ
  pub s_firstdatazone : ℕ
  pub s_zmap : List (Option Block)

pub data Outcome {ℓ} (A : Type ℓ) : Type ℓ where
  done : A → Super → Outcome A
  panics : Outcome A

-- The first map block, from number i on, with a clear bit: its number, and the bit.
unfoldable pub find_zone : ℕ → List (Option Block) → Option (ℕ × ℕ × Block)
find_zone i [] = none
find_zone i (none ∷ ms) = find_zone (suc i) ms
find_zone i (some b ∷ ms) =
    let rest = find_zone (suc i) ms in
    if ltb (find_first_zero bits_per_block 0 b) bits_per_block
    then some (i, find_first_zero bits_per_block 0 b, b)
    else rest

-- The zone of bit j of map block i.
abbrev pub zone_of : Super → ℕ → ℕ → ℕ
zone_of sb i j = j + i * bits_per_block + sb.s_firstdatazone - 1

abbrev pub is_cached : Option ℕ → Bool
is_cached none = false
is_cached (some count) = not (count == 0)

-- The zone that is taken, 0 for none. The bit stays set where the zone is past the end of the device.
-- getblk() gives the buffer of the zone; a user of it other than this call is a panic. The buffer is
-- cleared, which this model leaves out.
unfoldable pub new_block : (ℕ → Option ℕ) → Super → Outcome ℕ
new_block cached sb = elim (find_zone 0 sb.s_zmap) [
  | none ↦ done 0 sb
  | some (i, j, b) ↦
      let sb' : Super = record sb { s_zmap = set sb.s_zmap i (some (set_bit j b).1) } in
      if (set_bit j b).0
      then panics
      else if leb sb.s_nzones (zone_of sb i j)
      then done 0 sb'
      else if is_cached (cached (zone_of sb i j))
      then panics
      else done (zone_of sb i j) sb'
]

-- `true` where the zone has been freed; `false` where its buffer has other users and nothing is done.
unfoldable pub free_block : (ℕ → Option ℕ) → ℕ → Super → Outcome Bool
free_block cached block sb =
    let bit = block - (sb.s_firstdatazone - 1) in
    if ltb block sb.s_firstdatazone || leb sb.s_nzones block
    then panics
    else if is_cached (cached block)
    then done false sb
    else elim (get_or sb.s_zmap (bit / bits_per_block) none) [
      | none ↦ panics
      | some b ↦
          if (clear_bit (bit % bits_per_block) b).0
          then panics
          else done true (record sb {
            s_zmap =
                set sb.s_zmap (bit / bits_per_block) (some (clear_bit (bit % bits_per_block) b).1);
          })
    ]
