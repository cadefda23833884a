-- ===== src/Fs/FileDev.antt =====
-- fs/file_dev.c: file_read() and file_write(), on the blocks of Inode. A byte of a block is half of one
-- of its words. The times of the inode are left out.
pub mod Bytes
pub mod Content
pub mod Rounds
pub mod Growth
use rv.Common.{
  ℕ, zero, suc, ◌+◌, ◌-◌, ◌*◌, ◌/◌, ◌%◌, Option, none, some, Bool, true, false, leb, ltb, ◌==◌, not,
  ◌&&◌, ◌||◌, if◌then◌else◌, List, [], ◌∷◌, ◌++◌, length, drop, take, replicate,
}
use rv.Fs.Inode.{Disk, bmap, create_block}

abbrev pub block_size : ℕ
block_size = 1024

-- b_data[p] of block nr
abbrev pub byte_at : Disk → ℕ → ℕ → ℕ
byte_at d nr p = if p % 2 == 0 then d.word nr (p / 2) % 256 else d.word nr (p / 2) / 256 % 256

abbrev pub with_byte : ℕ → ℕ → ℕ → ℕ
with_byte p b w = if p % 2 == 0 then w / 256 * 256 + b else b * 256 + w % 256

abbrev pub put_byte : Disk → ℕ → ℕ → ℕ → Disk
put_byte d nr p b = record d {
  word = λ k j. if k == nr && j == p / 2 then with_byte p b (d.word k j) else d.word k j;
}

-- The n bytes of block nr from p on.
unfoldable pub bytes_from : Disk → ℕ → ℕ → ℕ → List ℕ
bytes_from d nr p zero = []
bytes_from d nr p (suc n) = byte_at d nr p ∷ bytes_from d nr (suc p) n

unfoldable pub put_bytes_from : ℕ → ℕ → List ℕ → Disk → Disk
put_bytes_from nr p [] d = d
put_bytes_from nr p (b ∷ bs) d = put_bytes_from nr (suc p) bs (put_byte d nr p b)

-- The zone that bmap() returns; it leaves the inode and the disk as they are.
abbrev pub zone : List ℕ → ℕ → Disk → Option ℕ
zone zones block d = elim (bmap zones block d) [ none ↦ none | some r ↦ some r.0.0 ]

-- MIN( BLOCK_SIZE-nr , left )
abbrev pub chars_of : ℕ → ℕ → ℕ
chars_of pos left =
    if ltb (block_size - pos % block_size) left then block_size - pos % block_size else left

abbrev pub chars_read : Disk → ℕ → ℕ → ℕ → List ℕ
chars_read d nr pos n = if nr == 0 then replicate n 0 else bytes_from d nr (pos % block_size) n

abbrev pub append_to {ℓ} : {A : Type ℓ} → List A → Option (List A) → Option (List A)
append_to a none = none
append_to a (some b) = some (a ++ b)

-- The loop of file_read(): the bytes put into the user's buffer; `none` for the panic of bmap(). Each
-- round reads a byte at least, so `left` is fuel enough.
unfoldable pub read_loop : ℕ → List ℕ → Disk → ℕ → ℕ → Option (List ℕ)
read_loop zero zones d pos left = some []
read_loop (suc fuel) zones d pos left =
    let chars = chars_of pos left in
    let rest = read_loop fuel zones d (pos + chars) (left - chars) in
    if left == 0 then some [] else elim (zone zones (pos / block_size) d) [
      | none ↦ none
      | some nr ↦
          if not (nr == 0) && not (d.readable nr)
          then some []
          else append_to (chars_read d nr pos chars) rest
    ]

pub data FileRead : Type 0 where
  -- the count, the bytes and the new f_pos
  returns_bytes : ℕ → List ℕ → ℕ → FileRead
  -- -ERROR
  fails : FileRead
  panics : FileRead

unfoldable pub file_read : List ℕ → Disk → ℕ → ℕ → FileRead
file_read zones d f_pos count =
    if count == 0 then returns_bytes 0 [] f_pos else elim (read_loop count zones d f_pos count) [
      | none ↦ panics
      | some bytes ↦
          if length bytes == 0
          then fails
          else returns_bytes (length bytes) bytes (f_pos + length bytes)
    ]

-- What file_write() works on: the zones and the size of the inode, and the disk.
pub record Node : Type 0 where
  pub zones : List ℕ
  pub i_size : ℕ
  pub disk : Disk

abbrev pub grow : ℕ → ℕ → ℕ
grow pos size = if ltb size pos then pos else size

-- The loop of file_write(), with the bytes that are left: those not written, `pos` and the inode;
-- `none` for the panic of create_block(). Each round writes a byte at least.
unfoldable pub write_loop : ℕ → List ℕ → ℕ → Node → Option (List ℕ × ℕ × Node)
write_loop zero buf pos n = some (buf, pos, n)
write_loop (suc fuel) buf pos n =
    let c = chars_of pos (length buf) in
    if length buf == 0
    then some (buf, pos, n)
    else elim (create_block n.zones (pos / block_size) n.disk) [
      | none ↦ none
      | some ((block, zones), d) ↦
          let n' = record n { zones = zones; disk = d } in
          if block == 0 || not (d.readable block)
          then some (buf, pos, n')
          else write_loop fuel (drop c buf) (pos + c) (record n' {
            i_size = grow (pos + c) n.i_size;
            disk = put_bytes_from block (pos % block_size) (take c buf) d;
          })
    ]

pub data FileWrite : Type 0 where
  -- the count (-1 for 0), the new f_pos and the inode
  writes : ℕ → ℕ → Node → FileWrite
  panics_in_write : FileWrite

unfoldable pub file_write : Bool → List ℕ → ℕ → Node → FileWrite
file_write append buf f_pos n =
    let pos = if append then n.i_size else f_pos in
    elim (write_loop (length buf) buf pos n) [
      | none ↦ panics_in_write
      | some (rest, pos', n') ↦
          writes (length buf - length rest) (if append then f_pos else pos') n'
    ]
