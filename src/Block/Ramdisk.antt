-- ===== src/Block/Ramdisk.antt =====
-- kernel/blk_drv/ramdisk.c: the driver of the ram disk, with INIT_REQUEST of blk.h. The image is in
-- memory from rd_start on: a function from addresses to bytes. The buffer of a request is the data of its
-- buffer head, which lies elsewhere.
pub mod Served
pub mod Transfer
use rv.Common.{
  ℕ, zero, suc, ◌+◌, ◌-◌, ◌*◌, ◌%◌, ◌^◌, Option, none, some, Bool, true, false, leb, ltb, ◌==◌, not,
  ◌&&◌, ◌||◌, if◌then◌else◌, List, [], ◌∷◌,
}
use rv.Block.Buffers.{Buffer, Buffers, buffer_at, on_buffer, major, minor}
use rv.Block.Requests.{Request, Blk, read, write, end_request}

abbrev pub rd_major : ℕ
rd_major = 1

-- addr and len of a request: `sector << 9` and the sums of pointers wrap around.
abbrev pub addr_of : ℕ → Request → ℕ
addr_of rd_start req = (rd_start + req.sector * 512) % 2 ^ 32

abbrev pub len_of : Request → ℕ
len_of req = req.nr_sectors * 512 % 2 ^ 32

abbrev pub is_refused : ℕ → ℕ → Request → Bool
is_refused rd_start rd_length req =
    not (minor req.dev == 1)
    || ltb ((rd_start + rd_length) % 2 ^ 32) ((addr_of rd_start req + len_of req) % 2 ^ 32)

-- How far the address `a` is behind `at`.
abbrev pub offset : ℕ → ℕ → ℕ
offset at a = (a + 2 ^ 32 - at) % 2 ^ 32

-- The two calls of memcpy(), from the buffer to `addr` and back.
abbrev pub to_image : ℕ → (ℕ → ℕ) → Request → Buffer → ℕ → ℕ
to_image rd_start image req b a =
    if ltb (offset (addr_of rd_start req) a) (len_of req)
    then b.b_data (offset (addr_of rd_start req) a)
    else image a

abbrev pub from_image : ℕ → (ℕ → ℕ) → Request → Buffer → Buffer
from_image rd_start image req b = record b {
  b_data =
      λ i. if ltb i (len_of req) then image ((addr_of rd_start req + i) % 2 ^ 32) else b.b_data i;
}

abbrev pub filled : ℕ → (ℕ → ℕ) → Request → Blk → Blk
filled rd_start image req k = record k {
  buffers = on_buffer k.buffers req.bh (from_image rd_start image req);
}

-- One request, from `repeat` to `goto repeat`; `none` for panic().
unfoldable pub serve : ℕ → ℕ → Request → Blk → (ℕ → ℕ) → Option (Blk × (ℕ → ℕ))
serve rd_start rd_length req k image =
    let b = buffer_at k.buffers req.bh in
    if not (major req.dev == rd_major)
    then none
    else if not b.b_lock
    then none
    else if is_refused rd_start rd_length req
    then some (end_request rd_major false k, image)
    else if req.cmd == write
    then some (end_request rd_major true k, to_image rd_start image req b)
    else if req.cmd == read
    then some (end_request rd_major true (filled rd_start image req k), image)
    else none

-- The requests of the queue, which end_request() takes from its head.
unfoldable pub serve_all : ℕ → ℕ → List Request → Blk → (ℕ → ℕ) → Option (Blk × (ℕ → ℕ))
serve_all rd_start rd_length [] k image = some (k, image)
serve_all rd_start rd_length (req ∷ l) k image = elim (serve rd_start rd_length req k image) [
  | none ↦ none
  | some (k', image') ↦ serve_all rd_start rd_length l k' image'
]

unfoldable pub do_rd_request : ℕ → ℕ → Blk → (ℕ → ℕ) → Option (Blk × (ℕ → ℕ))
do_rd_request rd_start rd_length k image = elim (k.queue rd_major) [
  | none ↦ some (k, image)
  | some q ↦ serve_all rd_start rd_length q k image
]

abbrev pub with_driver : Option (List Request) → Option (List Request)
with_driver none = some []
with_driver (some q) = some q

-- rd_init(): rd_start and rd_length, and the device with its driver.
unfoldable pub rd_init : ℕ → ℕ → Blk → ℕ × ℕ × Blk
rd_init image_start image_end k = (
  image_start,
  image_end - image_start,
  record k { queue = λ m. if m == rd_major then with_driver (k.queue m) else k.queue m },
)
