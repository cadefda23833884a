-- ===== src/Fs/FileDev/Rounds.antt =====
-- fs/file_dev.c, file_write(): what a round of its loop does.
use rv.Common.{
  ℕ, ◌+◌, ◌-◌, ◌/◌, ◌%◌, ◌≤◌, ◌<◌, ◌≡◌, ◌≢◌, refl, ◌⊎◌, inl, inr, some, Bool, true, false, leb, ltb,
  ◌==◌, not, ◌&&◌, ◌||◌, if◌then◌else◌, List, ◌++◌, length, length-take_of_le, take, arith,
  Bool-cases, get_or,
}
use rv.Fs.Inode.{Disk, create_block}
use rv.Fs.FileDev.{block_size, byte_at, put_bytes_from, chars_of, Node, grow}
use rv.Fs.FileDev.Content.{chars_of-fits}
use rv.Fs.FileDev.Bytes.{AreBytes, byte_at-put_bytes_from, put_bytes_from-keeps, take-AreBytes}

-- One round writes the bytes bs at the position p: create_block() gives a block for it that can be
-- read, the bytes are in that block and all other bytes are as create_block() has left them, and the
-- file is long enough for them.
pub record IsRound (p : ℕ) (bs : List ℕ) (n m : Node) : Type 0 where
  pub block : ℕ
  pub created : Disk
  pub maps : create_block n.zones (p / block_size) n.disk ≡ some ((block, m.zones), created)
  pub is_block : block ≢ 0
  pub is_readable : created.readable block ≡ true
  pub some_bytes : 0 < length bs
  pub inside : p % block_size + length bs ≤ block_size
  pub bytes :
      (k q : ℕ)
      → byte_at m.disk k q ≡ (
          if k == block && (leb (p % block_size) q && ltb q (p % block_size + length bs))
          then get_or bs (q - p % block_size) 0
          else byte_at created k q)
  pub super : m.disk.super ≡ created.super
  pub readable : m.disk.readable ≡ created.readable
  pub long_enough : p + length bs ≤ m.i_size
  pub no_longer : (m.i_size ≡ n.i_size) ⊎ ((n.i_size < m.i_size) × (m.i_size ≡ p + length bs))

-- The rounds from the position p, with the bytes buf to write, to the inode m, with `rest` to write.
pub data Rounds : ℕ → List ℕ → Node → List ℕ → Node → Type 0 where
  stay : {p : ℕ} {buf : List ℕ} {n : Node} → Rounds p buf n buf n
  round :
      {p : ℕ} {buf : List ℕ} {n : Node} {rest : List ℕ} {m : Node} (bs more : List ℕ) (n1 : Node)
      → buf ≡ bs ++ more
      → IsRound p bs n n1
      → Rounds (p + length bs) more n1 rest m
      → Rounds p buf n rest m

-- create_block() gives no block for the position p, or one that cannot be read; n' is the inode then.
abbrev pub IsStuck : ℕ → Node → Node → Type 0
IsStuck p m n' =
    (block : ℕ) × (zones : List ℕ) × (d : Disk) × (create_block m.zones (p / block_size) m.disk
      ≡ some ((block, zones), d))
    × ((block ≡ 0) ⊎ (d.readable block ≡ false))
    × (n' ≡ record m { zones = zones; disk = d })

pub bad-block : (block : ℕ) (r : Bool) → (block == 0 || not r) ≡ true → (block ≡ 0) ⊎ (r ≡ false)
bad-block block true e = inl (ground arith)
bad-block block false e = inr refl

good-block : (block : ℕ) (r : Bool) → (block == 0 || not r) ≡ false → (block ≢ 0) × (r ≡ true)
good-block block true e = (λ q. ground arith, refl)
good-block block false e = (λ q. ground arith, ground arith)

-- The round that the loop makes at p for the bytes buf, in the block that create_block() gives.
module _ (p : ℕ) (buf : List ℕ) (n : Node) (block : ℕ) (zones : List ℕ) (d : Disk)
    (ok : AreBytes buf) (more : (length buf == 0) ≡ false)
    (z : create_block n.zones (p / block_size) n.disk ≡ some ((block, zones), d))
    (good : (block == 0 || not (d.readable block)) ≡ false) where
  abbrev pub size : ℕ
  size = chars_of p (length buf)

  abbrev pub next : Node
  next = record {
    zones = zones;
    i_size = grow (p + size) n.i_size;
    disk = put_bytes_from block (p % block_size) (take size buf) d;
  }

  pub fits : (size ≤ length buf) × (0 < size) × (p % block_size + size ≤ block_size)
  fits = chars_of-fits p (length buf) (λ e. ground arith)

  pub taken : length (take size buf) ≡ size
  taken = length-take_of_le size buf fits.0

  pub next-IsRound : IsRound p (take size buf) n next
  next-IsRound =
      let keeps = put_bytes_from-keeps block (p % block_size) (take size buf) d in
      record {
        block = block;
        created = d;
        maps = z;
        is_block = (good-block block (d.readable block) good).0;
        is_readable = (good-block block (d.readable block) good).1;
        some_bytes = omega (arith, taken, fits.1);
        inside = omega (arith, taken, fits.2);
        bytes = λ k q.
            byte_at-put_bytes_from block (p % block_size) (take size buf) d k q
              (take-AreBytes size buf ok);
        super = keeps.0;
        readable = keeps.2;
        long_enough = rw taken (ground arith);
        no_longer = rw taken (grows (Bool-cases (ltb n.i_size (p + size))));
      }
    where
      grows :
          (ltb n.i_size (p + size) ≡ true) ⊎ (ltb n.i_size (p + size) ≡ false)
          → (grow (p + size) n.i_size ≡ n.i_size)
            ⊎ ((n.i_size < grow (p + size) n.i_size) × (grow (p + size) n.i_size ≡ p + size))
      grows (inl e) = inr (ground arith, rw e refl)
      grows (inr e) = inl (rw e refl)
