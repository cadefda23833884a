-- ===== src/Block/Cache.antt =====
-- fs/buffer.c. The chains of hash_table[] and the circular list of the free buffers, from free_list on,
-- are lists of buffer numbers; a buffer stands in a list once, as it has one pair of pointers for it.
-- A function that may sleep is cut there: its outcome says what it waits for and the function that
-- continues takes the state that it finds when it wakes up.
pub mod Init
pub mod Invariant
pub mod Choice
pub mod Find
pub mod Take
pub mod Assign
pub mod Serve
use rv.Common.{
  ℕ, zero, suc, ◌+◌, ◌-◌, ◌*◌, ◌%◌, ◌^◌, Option, none, some, Bool, true, false, ltb, ◌==◌, not,
  ◌&&◌, if◌then◌else◌, List, [], ◌∷◌, ◌++◌, map, leb, length, replicate,
}
use rv.Common.Bits.{bitwise, of_bool}
use rv.Block.Buffers.{Buffer, Buffers, buffer_at, on_buffer, no_buffer}

abbrev pub nr_hash : ℕ
nr_hash = 307

pub record Cache : Type 0 where
  pub buffers : Buffers
  pub hash_table : ℕ → List ℕ
  pub free_list : List ℕ

abbrev pub either_not_both : Bool → Bool → Bool
either_not_both true b = not b
either_not_both false b = b

-- _hashfn
unfoldable pub hashfn : ℕ → ℕ → ℕ
hashfn dev block = bitwise either_not_both 32 dev block % nr_hash

abbrev pub is_block : ℕ → ℕ → Buffer → Bool
is_block dev block b = b.b_dev == dev && b.b_blocknr == block

-- The loop of find_buffer() over a chain.
unfoldable pub find_in : Buffers → ℕ → ℕ → List ℕ → Option ℕ
find_in bs dev block [] = none
find_in bs dev block (tmp ∷ l) =
    if is_block dev block (buffer_at bs tmp) then some tmp else find_in bs dev block l

unfoldable pub find_buffer : ℕ → ℕ → Cache → Option ℕ
find_buffer dev block c = find_in c.buffers dev block (c.hash_table (hashfn dev block))

-- A doubly linked list from which a buffer is taken out.
unfoldable pub without : ℕ → List ℕ → List ℕ
without bh [] = []
without bh (x ∷ l) = if x == bh then without bh l else x ∷ without bh l

abbrev pub on_chain : (ℕ → List ℕ) → ℕ → (List ℕ → List ℕ) → ℕ → List ℕ
on_chain table h f j = if j == h then f (table j) else table j

unfoldable pub remove_from_queues : ℕ → Cache → Cache
remove_from_queues bh c =
    let b = buffer_at c.buffers bh in
    record c {
      hash_table = on_chain c.hash_table (hashfn b.b_dev b.b_blocknr) (without bh);
      free_list = without bh c.free_list;
    }

unfoldable pub insert_into_queues : ℕ → Cache → Cache
insert_into_queues bh c =
    let b = buffer_at c.buffers bh in
    record c {
      hash_table =
          if b.b_dev == 0
          then c.hash_table
          else on_chain c.hash_table (hashfn b.b_dev b.b_blocknr) (λ l. bh ∷ l);
      free_list = c.free_list ++ (bh ∷ []);
    }

abbrev pub on : ℕ → (Buffer → Buffer) → Cache → Cache
on bh f c = record c { buffers = on_buffer c.buffers bh f }

-- `b_count` is an unsigned char.
abbrev pub count_up : Buffer → Buffer
count_up b = record b { b_count = (b.b_count + 1) % 2 ^ 8 }

abbrev pub count_down : Buffer → Buffer
count_down b = record b { b_count = (b.b_count + 2 ^ 8 - 1) % 2 ^ 8 }

-- What get_hash_table() comes to: NULL, the buffer, asleep in wait_on_buffer() and then `looked_up`,
-- or the loop from its start.
pub data Looked : Type 0 where
  is_missing : Looked
  is_cached : ℕ → Cache → Looked
  waits_for : ℕ → Cache → Looked
  starts_over : Cache → Looked

-- get_hash_table() behind the wait.
unfoldable pub looked_up : ℕ → ℕ → ℕ → Cache → Looked
looked_up dev block bh c =
    if is_block dev block (buffer_at c.buffers bh)
    then is_cached bh c
    else starts_over (on bh count_down c)

unfoldable pub get_hash_table : ℕ → ℕ → Cache → Looked
get_hash_table dev block c = elim (find_buffer dev block c) [
  | none ↦ is_missing
  | some bh ↦
      if (buffer_at c.buffers bh).b_lock
      then waits_for bh (on bh count_up c)
      else looked_up dev block bh (on bh count_up c)
]

-- BADNESS
abbrev pub badness : Buffer → ℕ
badness b = of_bool b.b_dirt * 2 + of_bool b.b_lock

-- `!bh || BADNESS(tmp)<BADNESS(bh)`
abbrev pub is_better : Buffers → Buffer → Option ℕ → Bool
is_better bs b none = true
is_better bs b (some bh) = ltb (badness b) (badness (buffer_at bs bh))

-- The loop of getblk() over the free list, with `bh` so far.
unfoldable pub choose_buffer : Buffers → List ℕ → Option ℕ → Option ℕ
choose_buffer bs [] bh = bh
choose_buffer bs (tmp ∷ l) bh =
    let b = buffer_at bs tmp in
    let same = choose_buffer bs l bh in
    let better = choose_buffer bs l (some tmp) in
    if not (b.b_count == 0)
    then same
    else if is_better bs b bh
    then if badness b == 0 then some tmp else better
    else same

pub data Getblk : Type 0 where
  returns : ℕ → Cache → Getblk
  -- `goto repeat`
  repeats : Cache → Getblk
  -- asleep for any buffer, and then `goto repeat`
  sleeps : Cache → Getblk
  -- asleep in get_hash_table() with a buffer
  waits_cached : ℕ → Cache → Getblk
  -- asleep for the buffer chosen, and then `claim`
  waits_chosen : ℕ → Cache → Getblk
  -- in sync_dev() and a wait for the buffer chosen, and then `claim`
  syncs : ℕ → Cache → Getblk

abbrev pub take_over : Buffer → Buffer
take_over b = record b { b_count = 1; b_dirt = false; b_uptodate = false }

-- `b_dev` is an unsigned short.
abbrev pub rename : ℕ → ℕ → Buffer → Buffer
rename dev block b = record b { b_dev = dev % 2 ^ 16; b_blocknr = block }

-- The end of getblk().
unfoldable pub assign : ℕ → ℕ → ℕ → Cache → Cache
assign dev block bh c =
    insert_into_queues bh (on bh (rename dev block) (remove_from_queues bh (on bh take_over c)))

-- getblk() behind the wait for the buffer chosen.
unfoldable pub claim : ℕ → ℕ → ℕ → Cache → Getblk
claim dev block bh c =
    if not ((buffer_at c.buffers bh).b_count == 0)
    then repeats c
    else if (buffer_at c.buffers bh).b_dirt
    then syncs bh c
    else elim (find_buffer dev block c) [
      | some other ↦ repeats c
      | none ↦ returns bh (assign dev block bh c)
    ]

unfoldable pub getblk : ℕ → ℕ → Cache → Getblk
getblk dev block c = elim (get_hash_table dev block c) [
  | is_cached bh c' ↦ returns bh c'
  | waits_for bh c' ↦ waits_cached bh c'
  | starts_over c' ↦ repeats c'
  | is_missing ↦ elim (choose_buffer c.buffers c.free_list none) [
    | none ↦ sleeps c
    | some bh ↦ if (buffer_at c.buffers bh).b_lock then waits_chosen bh c else claim dev block bh c
  ]
]

-- brelse() of a buffer that is not locked, without the call that wakes buffer_wait; `none` for panic().
unfoldable pub brelse : ℕ → Cache → Option Cache
brelse bh c = if (buffer_at c.buffers bh).b_count == 0 then none else some (on bh count_down c)

-- invalidate_buffers(), where no buffer is locked.
unfoldable pub invalidate : ℕ → Buffer → Buffer
invalidate dev b = if b.b_dev == dev then record b { b_uptodate = false; b_dirt = false } else b

unfoldable pub invalidate_buffers : ℕ → Cache → Cache
invalidate_buffers dev c = record c { buffers = map (invalidate dev) c.buffers }

-- The loop of buffer_init(): the addresses of the blocks, downwards from b, where the next struct
-- buffer_head, of 36 bytes, goes to h. The memory from 640 kB to 1 MB is left out.
unfoldable pub blocks_from : ℕ → ℕ → ℕ → List ℕ
blocks_from zero b h = []
blocks_from (suc fuel) b h =
    let block = b - 1024 in
    let rest = blocks_from fuel (if block == 0x100000 then 0xa0000 else block) (h + 36) in
    if leb (h + 36) block then block ∷ rest else []

unfoldable pub from_to : ℕ → ℕ → List ℕ
from_to i zero = []
from_to i (suc n) = i ∷ from_to (suc i) n

abbrev pub top_of : ℕ → ℕ
top_of buffer_end = if buffer_end == 2 ^ 20 then 640 * 1024 else buffer_end

-- The blocks' addresses for the heads from `start` on, and the cache of as many empty buffers.
unfoldable pub buffer_init : ℕ → ℕ → List ℕ × Cache
buffer_init start buffer_end =
    let blocks = blocks_from (top_of buffer_end) (top_of buffer_end) start in
    (
      blocks,
      record {
        buffers = replicate (length blocks) no_buffer;
        hash_table = λ _. [];
        free_list = from_to 0 (length blocks);
      },
    )
