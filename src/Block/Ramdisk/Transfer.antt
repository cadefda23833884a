-- ===== src/Block/Ramdisk/Transfer.antt =====
-- kernel/blk_drv/ramdisk.c: what one request does to its buffer and to the image.
use rv.Common.{
  ℕ, ◌+◌, ◌*◌, ◌%◌, ◌^◌, ◌≤◌, ◌<◌, ◌≡◌, ◌≢◌, refl, ◌⊎◌, inl, inr, Bool, true, false, ltb, ◌==◌, not,
  ◌||◌, arith, Bool-cases, lt→ltb,
}
use rv.Block.Buffers.{Buffer, minor}
use rv.Block.Requests.{Request, read, write}
use rv.Block.Ramdisk.{addr_of, len_of, is_refused, offset, to_image, from_image}

abbrev pub size_of : Request → ℕ
size_of req = req.nr_sectors * 512

-- The place of the request in memory.
abbrev pub place_of : ℕ → Request → ℕ
place_of rd_start req = rd_start + req.sector * 512

-- No address of the request is past the last one.
abbrev pub IsAddressed : ℕ → Request → Type 0
IsAddressed rd_start req = place_of rd_start req + size_of req < 2 ^ 32

-- The request is for the ram disk, and within it.
abbrev pub Fits : ℕ → Request → Type 0
Fits rd_length req = (minor req.dev ≡ 1) × (req.sector * 512 + size_of req ≤ rd_length)

abbrev pub Misses : ℕ → Request → Type 0
Misses rd_length req = (minor req.dev ≢ 1) ⊎ (rd_length < req.sector * 512 + size_of req)

-- A write puts the bytes of the buffer into the image, and changes no other byte of it.
abbrev pub IsWritten : ℕ → Request → Buffer → Buffer → (ℕ → ℕ) → (ℕ → ℕ) → Type 0
IsWritten rd_start req b b' image image' =
    (b'.b_data ≡ b.b_data)
    × ((i : ℕ) → i < size_of req → image' (place_of rd_start req + i) ≡ b.b_data i)
    × ((a : ℕ)
        → a < 2 ^ 32
        → (a < place_of rd_start req) ⊎ (place_of rd_start req + size_of req ≤ a)
        → image' a ≡ image a)

-- A read puts the bytes of the image into the buffer, and leaves the image alone.
abbrev pub IsReadIn : ℕ → Request → Buffer → Buffer → (ℕ → ℕ) → (ℕ → ℕ) → Type 0
IsReadIn rd_start req b b' image image' =
    ((i : ℕ) → i < size_of req → b'.b_data i ≡ image (place_of rd_start req + i))
    × ((i : ℕ) → size_of req ≤ i → b'.b_data i ≡ b.b_data i)
    × (image' ≡ image)

-- The request is done: its buffer is unlocked, and either the data is moved and the buffer up to date,
-- or the request does not fit and only the buffer is marked as not up to date.
abbrev pub IsTransfer : ℕ → ℕ → Request → Buffer → Buffer → (ℕ → ℕ) → (ℕ → ℕ) → Type 0
IsTransfer rd_start rd_length req b b' image image' =
    (b'.b_lock ≡ false)
    × ((Fits rd_length req
          × (b'.b_uptodate ≡ true)
          × (((req.cmd ≡ write) × IsWritten rd_start req b b' image image')
              ⊎ ((req.cmd ≡ read) × IsReadIn rd_start req b b' image image')))
        ⊎ (Misses rd_length req
            × (b'.b_uptodate ≡ false)
            × (b'.b_data ≡ b.b_data)
            × (image' ≡ image)))

module _ (rd_start rd_length : ℕ) (req : Request) (ends : rd_start + rd_length < 2 ^ 32)
    (addressed : IsAddressed rd_start req) where
  pub addr-eq : addr_of rd_start req ≡ place_of rd_start req
  addr-eq = omega arith

  pub len-eq : len_of req ≡ size_of req
  len-eq = omega arith

  test-eq : is_refused rd_start rd_length req ≡ (
      not (minor req.dev == 1) || ltb (rd_start + rd_length) (place_of rd_start req + size_of req))
  test-eq =
      let e : (rd_start + rd_length) % 2 ^ 32 ≡ rd_start + rd_length = omega arith in
      let f : (addr_of rd_start req + len_of req) % 2 ^ 32 ≡ place_of rd_start req + size_of req =
        omega arith in
      rw (e, f)

  refused-Misses : is_refused rd_start rd_length req ≡ true → Misses rd_length req
  refused-Misses e = go (rw test-eq at e) (Bool-cases (minor req.dev == 1))
    where
      go :
          (not (minor req.dev == 1)
              || ltb (rd_start + rd_length) (place_of rd_start req + size_of req))
            ≡ true
          → ((minor req.dev == 1) ≡ true) ⊎ ((minor req.dev == 1) ≡ false)
          → Misses rd_length req
      go h (inl m) = let g = rw m at h in inr (ground arith)
      go h (inr m) = inl (λ q. ground arith)

  accepted-Fits : is_refused rd_start rd_length req ≡ false → Fits rd_length req
  accepted-Fits e = go (rw test-eq at e)
    where
      go :
          (not (minor req.dev == 1)
              || ltb (rd_start + rd_length) (place_of rd_start req + size_of req))
            ≡ false
          → Fits rd_length req
      go h = (ground arith, ground arith)

  module _ (b : Buffer) (image : ℕ → ℕ) where
    abbrev ended : Bool → Buffer → Buffer
    ended up b = record b { b_uptodate = up; b_lock = false }

    pub refused-IsTransfer :
        is_refused rd_start rd_length req ≡ true
        → IsTransfer rd_start rd_length req b (ended false b) image image
    refused-IsTransfer e = (refl, inr (refused-Misses e, refl, refl, refl))

    pub write-IsTransfer :
        is_refused rd_start rd_length req ≡ false
        → req.cmd ≡ write
        → IsTransfer rd_start rd_length req b (ended true b) image (to_image rd_start image req b)
    write-IsTransfer e c = (refl, inl (accepted-Fits e, refl, inl (c, (refl, inside, outside))))
      where
        inside :
            (i : ℕ)
            → i < size_of req
            → to_image rd_start image req b (place_of rd_start req + i) ≡ b.b_data i
        inside i lt =
            let o : offset (addr_of rd_start req) (place_of rd_start req + i) ≡ i = omega arith in
            let l : ltb i (len_of req) ≡ true = lt→ltb i (len_of req) (omega arith) in rw (o, l)

        outside :
            (a : ℕ)
            → a < 2 ^ 32
            → (a < place_of rd_start req) ⊎ (place_of rd_start req + size_of req ≤ a)
            → to_image rd_start image req b a ≡ image a
        outside a lt far =
            let o : len_of req ≤ offset (addr_of rd_start req) a = omega arith in
            let l : ltb (offset (addr_of rd_start req) a) (len_of req) ≡ false = ground arith in
            rw l

    pub read-IsTransfer :
        is_refused rd_start rd_length req ≡ false
        → req.cmd ≡ read
        → IsTransfer rd_start rd_length req b
            (ended true (from_image rd_start image req b))
            image
            image
    read-IsTransfer e c = (refl, inl (accepted-Fits e, refl, inr (c, (inside, outside, refl))))
      where
        inside :
            (i : ℕ)
            → i < size_of req
            → (from_image rd_start image req b).b_data i ≡ image (place_of rd_start req + i)
        inside i lt =
            let o : (addr_of rd_start req + i) % 2 ^ 32 ≡ place_of rd_start req + i = omega arith in
            let l : ltb i (len_of req) ≡ true = lt→ltb i (len_of req) (omega arith) in rw (l, o)

        outside :
            (i : ℕ) → size_of req ≤ i → (from_image rd_start image req b).b_data i ≡ b.b_data i
        outside i le = let l : ltb i (len_of req) ≡ false = ground (arith, len-eq) in rw l
