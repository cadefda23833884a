-- ===== src/Tests/Blocks.antt =====
-- fs/buffer.c and kernel/blk_drv/ll_rw_blk.c: a cache of two buffers, of which one holds a block, and a
-- queue of two requests.
use rv.Common.{
  none, some, ℕ, ◌≡◌, refl, inl, inr, true, ◌==◌, List, [], ◌∷◌, arith, if◌then◌else◌, sym, ap, ◌∙◌,
  replicate, get_or-replicate, length,
}
use rv.Block.Buffers.{no_buffer}
use rv.Block.Cache.{Cache, getblk, assign, from_to, buffer_init, top_of, blocks_from}
use rv.Block.Cache.Init.{empty-IsCache, buffer_init-IsCache, IsApart, IsAbove}
use rv.Block.Cache.Assign.{assign-IsCache}
use rv.Block.Cache.Invariant.{IsCache}
use rv.Block.Cache.Serve.{IsServed, getblk-IsServed}
use rv.Block.Requests.{Request, Blk, add_request}
use rv.Block.Ramdisk.{do_rd_request}
use rv.Block.Ramdisk.Served.{IsServedAll, do_rd_request-IsServedAll}
use rv.Block.Requests.Elevator.{IsElevator, Inserts, add_request-IsElevator}

abbrev request : ℕ → ℕ → Request
request cmd sector = record {
  entry = 0;
  dev = 769;
  cmd = cmd;
  errors = 0;
  sector = sector;
  nr_sectors = 2;
  bh = 0;
}

abbrev two_requests : List Request
two_requests = request 0 40 ∷ request 0 80 ∷ []

add_request-IsElevator_example :
    IsElevator (add_request two_requests (request 0 20))
    × Inserts two_requests (request 0 20) (add_request two_requests (request 0 20))
add_request-IsElevator_example =
    add_request-IsElevator two_requests (request 0 20) (inl (refl, tt)) (inr refl, (inr refl, tt))

abbrev empty : Cache
empty = (buffer_init 0x10000 0x10900).1

buffer_init-IsCache_example :
    IsCache empty
    × (length empty.buffers ≡ length (buffer_init 0x10000 0x10900).0)
    × IsApart (top_of 0x10900) (buffer_init 0x10000 0x10900).0
    × IsAbove 0x10000 (length (buffer_init 0x10000 0x10900).0) (buffer_init 0x10000 0x10900).0
    × (blocks_from 0x20000 (top_of 0x10900) 0x10000 ≡ (buffer_init 0x10000 0x10900).0)
buffer_init-IsCache_example = buffer_init-IsCache 0x10000 0x10900 0x20000 (omega arith)

two_buffers : Cache
two_buffers = record {
  buffers = replicate 2 no_buffer;
  hash_table = λ _. [];
  free_list = from_to 0 2;
}

-- Block 7 of device 0x301 is in buffer 0.
abbrev cache : Cache
cache = assign 769 7 0 two_buffers

cache-IsCache : IsCache cache
unfolding two_buffers
cache-IsCache =
    assign-IsCache 769 7 0 two_buffers (omega arith) (omega arith) (empty-IsCache 2)
      (λ i lt ne d. absurd (ne (sym d ∙ ap (λ b. b.b_dev) (get_or-replicate 2 i no_buffer))))

getblk-IsServed_example : IsServed 769 9 cache (getblk 769 9 cache)
getblk-IsServed_example = getblk-IsServed 769 9 cache cache-IsCache (λ e. cc) (omega arith)

-- A request to read the blocks 0 and 1 of the ram disk into the buffer 0.
abbrev rd_request : Request
rd_request = record {
  entry = 0;
  dev = 257;
  cmd = 0;
  errors = 0;
  sector = 0;
  nr_sectors = 2;
  bh = 0;
}

abbrev rd : Blk
rd = record {
  in_use = true ∷ [];
  queue = λ m. if m == 1 then some (rd_request ∷ []) else none;
  buffers = (record no_buffer { b_dev = 257; b_lock = true }) ∷ [];
}

do_rd_request-IsServedAll_example :
    IsServedAll 0x80100000 2048
      (rd_request ∷ [])
      rd
      (λ a. a)
      (do_rd_request 0x80100000 2048 rd (λ a. a))
do_rd_request-IsServedAll_example =
    do_rd_request-IsServedAll 0x80100000 2048 (rd_request ∷ []) rd (λ a. a) (omega arith) refl
      ((refl, inl refl, omega arith, refl, omega arith), tt) (tt, tt)
