-- ===== src/Block/Requests.antt =====
-- kernel/blk_drv/blk.h and ll_rw_blk.c: the queue of a block device. The linked list from
-- current_request on is a list; a request keeps the number of its entry of request[].
pub mod Elevator
use rv.Common.{
  replicate, ℕ, zero, suc, ◌+◌, ◌-◌, ◌*◌, ◌/◌, Option, none, some, Bool, true, false, ltb, leb,
  ◌==◌, not, ◌&&◌, ◌||◌, if◌then◌else◌, List, [], ◌∷◌, ◌++◌, get_or, set,
}
use rv.Block.Buffers.{Buffer, Buffers, buffer_at, on_buffer, major}

abbrev pub nr_request : ℕ
nr_request = 32

abbrev pub nr_blk_dev : ℕ
nr_blk_dev = 7

-- READ, WRITE, READA and WRITEA
abbrev pub read : ℕ
read = 0

abbrev pub write : ℕ
write = 1

abbrev pub reada : ℕ
reada = 2

abbrev pub writea : ℕ
writea = 3

-- struct request, where `bh` is never NULL and `entry` is its place in request[].
pub record Request : Type 0 where
  pub entry : ℕ
  pub dev : ℕ
  pub cmd : ℕ
  pub errors : ℕ
  pub sector : ℕ
  pub nr_sectors : ℕ
  pub bh : ℕ

-- IN_ORDER
abbrev pub in_order : Request → Request → Bool
in_order s1 s2 =
    ltb s1.cmd s2.cmd
    || s1.cmd == s2.cmd && (ltb s1.dev s2.dev || s1.dev == s2.dev && ltb s1.sector s2.sector)

-- The loop of add_request() from `tmp` on: the list behind `tmp` with the request in it.
unfoldable pub insert_after : Request → List Request → Request → List Request
insert_after tmp [] req = req ∷ []
insert_after tmp (next ∷ l) req =
    let on = next ∷ insert_after next l req in
    if (in_order tmp req || not (in_order tmp next)) && in_order req next
    then req ∷ next ∷ l
    else on

-- The queue after add_request(). Where it was empty, the driver's request_fn is called.
unfoldable pub add_request : List Request → Request → List Request
add_request [] req = req ∷ []
add_request (tmp ∷ l) req = tmp ∷ insert_after tmp l req

-- The requests of all devices: which entries of request[] are in use (`dev` is not -1), and the queue
-- of each major number, if it has a request_fn.
pub record Blk : Type 0 where
  pub in_use : List Bool
  pub queue : ℕ → Option (List Request)
  pub buffers : Buffers

-- `while (--req >= request) if (req->dev<0) break`, from below entry n.
unfoldable pub find_request : ℕ → List Bool → Option ℕ
find_request zero used = none
find_request (suc n) used =
    let rest = find_request n used in if get_or used n false then rest else some n

pub data Made : Type 0 where
  -- nothing to do, or the buffer of a read-ahead or write-ahead is locked
  skips : Blk → Made
  -- asleep in lock_buffer(), and then again from there
  waits_for_buffer : Made
  -- asleep for a free request, with the buffer locked, and then again from `repeat`
  waits_for_request : Blk → Made
  queued : Blk → Made
  panics : Made

abbrev pub lock : Bool → ℕ → Blk → Blk
lock b bh k = record k { buffers = on_buffer k.buffers bh (λ x. record x { b_lock = b }) }

abbrev pub request_for : ℕ → ℕ → ℕ → Buffer → Request
request_for entry cmd bh b = record {
  entry = entry;
  dev = b.b_dev;
  cmd = cmd;
  errors = 0;
  sector = b.b_blocknr * 2;
  nr_sectors = 2;
  bh = bh;
}

abbrev pub enqueue : Option (List Request) → Request → Option (List Request)
enqueue none req = none
enqueue (some q) req = some (add_request q req)

-- The request is filled in and added; add_request() clears b_dirt.
unfoldable pub submit : ℕ → ℕ → ℕ → Blk → Blk
submit entry cmd bh k =
    let b = buffer_at k.buffers bh in
    record {
      in_use = set k.in_use entry true;
      queue = λ m.
          if m == major b.b_dev
          then enqueue (k.queue m) (request_for entry cmd bh b)
          else k.queue m;
      buffers = on_buffer k.buffers bh (λ x. record x { b_dirt = false });
    }

-- Reads may use all entries and writes the first two thirds.
abbrev pub entries_for : ℕ → ℕ
entries_for cmd = if cmd == read then nr_request else nr_request * 2 / 3

-- make_request() from `repeat` on, with the buffer locked.
unfoldable pub place_request : ℕ → Bool → ℕ → Blk → Made
place_request cmd rw_ahead bh k = elim (find_request (entries_for cmd) k.in_use) [
  | none ↦ if rw_ahead then skips (lock false bh k) else waits_for_request k
  | some entry ↦ queued (submit entry cmd bh k)
]

abbrev pub is_ahead : ℕ → Bool
is_ahead rw = rw == reada || rw == writea

abbrev pub plain : ℕ → ℕ
plain rw = if rw == reada then read else if rw == writea then write else rw

unfoldable pub make_request : ℕ → ℕ → Blk → Made
make_request rw bh k =
    let b = buffer_at k.buffers bh in
    let cmd = plain rw in
    if is_ahead rw && b.b_lock
    then skips k
    else if not (cmd == read || cmd == write)
    then panics
    else if b.b_lock
    then waits_for_buffer
    else if (cmd == write && not b.b_dirt) || (cmd == read && b.b_uptodate)
    then skips k
    else place_request cmd (is_ahead rw) bh (lock true bh k)

-- A device without a request_fn is reported and left alone.
unfoldable pub ll_rw_block : ℕ → ℕ → Blk → Made
ll_rw_block rw bh k =
    let m = major (buffer_at k.buffers bh).b_dev in
    if leb nr_blk_dev m
    then skips k
    else elim (k.queue m) [ none ↦ skips k | some q ↦ make_request rw bh k ]

-- end_request() for the device `m`: the request at the head is done, and its entry and its buffer are
-- given back.
unfoldable pub end_request : ℕ → Bool → Blk → Blk
end_request m uptodate k = elim (k.queue m) [
  | none ↦ k
  | some [] ↦ k
  | some (req ∷ l) ↦ record {
    in_use = set k.in_use req.entry false;
    queue = λ j. if j == m then some l else k.queue j;
    buffers = on_buffer k.buffers req.bh (λ b. record b { b_uptodate = uptodate; b_lock = false });
  }
]

-- blk_dev_init(): no entry is in use.
unfoldable pub blk_dev_init : Blk → Blk
blk_dev_init k = record k { in_use = replicate nr_request false }
