-- ===== src/Block/Ramdisk/Served.antt =====
-- kernel/blk_drv/ramdisk.c: what do_rd_request() leaves.
use rv.Common.{
  ℕ, ◌+◌, ◌^◌, ◌<◌, ◌≡◌, ◌≢◌, refl, sym, subst, ap, ◌∙◌, ◌⊎◌, inl, inr, Option, none, some, Bool,
  true, false, set, ◌==◌, not, if◌then◌else◌, List, [], ◌∷◌, arith, All, length, length-set,
}
use rv.Block.Buffers.{Buffer, Buffers, buffer_at, on_buffer, major}
use rv.Block.Cache.Assign.{on_buffer_self, on_buffer-ne}
use rv.Block.Requests.{Request, Blk, read, write, end_request}
use rv.Block.Ramdisk.{
  rd_major, is_refused, to_image, from_image, filled, serve, serve_all, do_rd_request,
}
use rv.Block.Ramdisk.Transfer.{
  IsAddressed, IsTransfer, refused-IsTransfer, write-IsTransfer, read-IsTransfer,
}

-- A request that make_request() may have made: of this device, a read or a write, for a buffer that is
-- locked, with no address past the last one.
abbrev pub IsRequest : ℕ → Buffers → Request → Type 0
IsRequest rd_start bs req =
    (major req.dev ≡ rd_major)
    × ((req.cmd ≡ read) ⊎ (req.cmd ≡ write))
    × (req.bh < length bs)
    × ((buffer_at bs req.bh).b_lock ≡ true)
    × IsAddressed rd_start req

-- No two requests are for one buffer.
abbrev pub AreDistinct : List Request → Type 0
AreDistinct [] = Unit
AreDistinct (req ∷ l) = All (λ r. r.bh ≢ req.bh) l × AreDistinct l

-- A round does one request, and changes no other buffer.
record IsRound (rd_start rd_length : ℕ) (req : Request) (l : List Request) (k : Blk) (image : ℕ → ℕ)
    (k' : Blk) (image' : ℕ → ℕ) : Type 0 where
  rest : k'.queue rd_major ≡ some l
  transfer :
      IsTransfer rd_start rd_length req
        (buffer_at k.buffers req.bh)
        (buffer_at k'.buffers req.bh)
        image
        image'
  others : (i : ℕ) → i ≢ req.bh → buffer_at k'.buffers i ≡ buffer_at k.buffers i
  same_length : length k'.buffers ≡ length k.buffers

abbrev IsServedBy : ℕ → ℕ → Request → List Request → Blk → (ℕ → ℕ) → Option (Blk × (ℕ → ℕ)) → Type 0
IsServedBy rd_start rd_length req l k image none = ⊥
IsServedBy rd_start rd_length req l k image (some (k', image')) =
    IsRound rd_start rd_length req l k image k' image'

module _ (rd_start rd_length : ℕ) (req : Request) (l : List Request) (k : Blk) (image : ℕ → ℕ)
    (ends : rd_start + rd_length < 2 ^ 32) (addressed : IsAddressed rd_start req)
    (q : k.queue rd_major ≡ some (req ∷ l)) (lt : req.bh < length k.buffers) where
  abbrev ended : Bool → Blk → Blk
  ended b k1 = record {
    in_use = set k1.in_use req.entry false;
    queue = λ j. if j == rd_major then some l else k1.queue j;
    buffers = on_buffer k1.buffers req.bh (λ x. record x { b_uptodate = b; b_lock = false });
  }

  end_request-ended :
      (b : Bool) (k1 : Blk)
      → k1.queue rd_major ≡ some (req ∷ l)
      → end_request rd_major b k1 ≡ ended b k1
  unfolding end_request
  end_request-ended b k1 e = rw (e, end_request)

  finish :
      (k1 : Blk) (b : Bool) (image' : ℕ → ℕ)
      → k1.queue rd_major ≡ some (req ∷ l)
      → length k1.buffers ≡ length k.buffers
      → ((i : ℕ) → i ≢ req.bh → buffer_at k1.buffers i ≡ buffer_at k.buffers i)
      → IsTransfer rd_start rd_length req
          (buffer_at k.buffers req.bh)
          (record (buffer_at k1.buffers req.bh) { b_uptodate = b; b_lock = false })
          image
          image'
      → IsRound rd_start rd_length req l k image (end_request rd_major b k1) image'
  finish k1 b image' e n o t =
      let give : Buffer → Buffer = λ x. record x { b_uptodate = b; b_lock = false } in
      let s = on_buffer_self k1.buffers req.bh give (rw n lt) in
      subst (λ r. IsRound rd_start rd_length req l k image r image')
        (sym (end_request-ended b k1 e))
        (record {
          rest = refl;
          transfer =
              subst
                (λ b'.
                  IsTransfer rd_start rd_length req (buffer_at k.buffers req.bh) b' image image')
                (sym s) t;
          others = λ i ne. on_buffer-ne k1.buffers req.bh i give ne ∙ o i ne;
          same_length = length-set k1.buffers req.bh (give (buffer_at k1.buffers req.bh)) ∙ n;
        })

  serve-IsServedBy :
      IsRequest rd_start k.buffers req
      → IsServedBy rd_start rd_length req l k image (serve rd_start rd_length req k image)
  unfolding serve
  serve-IsServedBy (m, c, b, locked, placed) =
      by_case (major req.dev == rd_major) (buffer_at k.buffers req.bh).b_lock
        (is_refused rd_start rd_length req) (req.cmd == write) (req.cmd == read) (ground arith)
        locked refl (either c)
    where
      either :
          (req.cmd ≡ read) ⊎ (req.cmd ≡ write)
          → ((req.cmd ≡ write) × ((req.cmd == write) ≡ true))
            ⊎ ((req.cmd ≡ read) × ((req.cmd == write) ≡ false) × ((req.cmd == read) ≡ true))
      either (inl r) = inr (r, ground arith, ground arith)
      either (inr w) = inl (w, ground arith)

      by_case :
          (a b c w r : Bool)
          → a ≡ true
          → b ≡ true
          → is_refused rd_start rd_length req ≡ c
          → ((req.cmd ≡ write) × (w ≡ true)) ⊎ ((req.cmd ≡ read) × (w ≡ false) × (r ≡ true))
          → IsServedBy rd_start rd_length req l k image (
              if not a
              then none
              else if not b
              then none
              else if c
              then some (end_request rd_major false k, image)
              else if w
              then some (
                end_request rd_major true k,
                to_image rd_start image req (buffer_at k.buffers req.bh),
              )
              else if r
              then some (end_request rd_major true (filled rd_start image req k), image)
              else none)
      by_case a b true w r ea eb ec e =
          rw (ea, eb)
            (finish k false image q refl (λ i ne. refl)
              (refused-IsTransfer rd_start rd_length req ends addressed (buffer_at k.buffers req.bh)
                image ec))
      by_case a b false w r ea eb ec (inl ew) =
          rw (ea, eb, ew.1)
            (finish k true (to_image rd_start image req (buffer_at k.buffers req.bh)) q refl
              (λ i ne. refl)
              (write-IsTransfer rd_start rd_length req ends addressed (buffer_at k.buffers req.bh)
                image ec ew.0))
      by_case a b false w r ea eb ec (inr (c, ew, er)) =
          rw (ea, eb, ew, er)
            (finish (filled rd_start image req k) true image q
              (length-set k.buffers req.bh
                (from_image rd_start image req (buffer_at k.buffers req.bh)))
              (λ i ne. on_buffer-ne k.buffers req.bh i (from_image rd_start image req) ne)
              (subst
                (λ (b : Buffer).
                  IsTransfer rd_start rd_length req (buffer_at k.buffers req.bh)
                    (record b { b_uptodate = true; b_lock = false }) image image)
                (sym (on_buffer_self k.buffers req.bh (from_image rd_start image req) lt))
                (read-IsTransfer rd_start rd_length req ends addressed (buffer_at k.buffers req.bh)
                  image ec c)))

-- The requests are done one after the other, from the buffers bs and the image to the buffers bs' and
-- the image'.
abbrev pub AreServed : ℕ → ℕ → Buffers → Buffers → List Request → (ℕ → ℕ) → (ℕ → ℕ) → Type 0
AreServed rd_start rd_length bs bs' [] image image' = image' ≡ image
AreServed rd_start rd_length bs bs' (req ∷ l) image image' =
    (image1 : ℕ → ℕ) × IsTransfer rd_start rd_length req (buffer_at bs req.bh)
      (buffer_at bs' req.bh) image image1
    × AreServed rd_start rd_length bs bs' l image1 image'

-- The queue is empty, every request is done, and a buffer that none of them is for stays as it is.
abbrev pub IsServedAll : ℕ → ℕ → List Request → Blk → (ℕ → ℕ) → Option (Blk × (ℕ → ℕ)) → Type 0
IsServedAll rd_start rd_length l k image none = ⊥
IsServedAll rd_start rd_length l k image (some (k', image')) =
    (k'.queue rd_major ≡ some [])
    × AreServed rd_start rd_length k.buffers k'.buffers l image image'
    × ((i : ℕ) → All (λ r. r.bh ≢ i) l → buffer_at k'.buffers i ≡ buffer_at k.buffers i)

requests_left :
    (rd_start : ℕ) (bs bs' : Buffers) (req : Request) (l : List Request)
    → ((i : ℕ) → i ≢ req.bh → buffer_at bs' i ≡ buffer_at bs i)
    → length bs' ≡ length bs
    → All (λ r. r.bh ≢ req.bh) l
    → All (IsRequest rd_start bs) l
    → All (IsRequest rd_start bs') l
requests_left rd_start bs bs' req [] o n d h = tt
requests_left rd_start bs bs' req (r ∷ l) o n d ((m, c, b, locked, a), h) = (
  (m, c, rw n b, ap (λ x. x.b_lock) (o r.bh d.0) ∙ locked, a),
  requests_left rd_start bs bs' req l o n d.1 h,
)

-- The buffers of the requests that are left are as they were before the round.
AreServed-before :
    (rd_start rd_length : ℕ) (bs bs1 bs' : Buffers) (req : Request) (l : List Request)
    (image image' : ℕ → ℕ)
    → ((i : ℕ) → i ≢ req.bh → buffer_at bs1 i ≡ buffer_at bs i)
    → All (λ r. r.bh ≢ req.bh) l
    → AreServed rd_start rd_length bs1 bs' l image image'
    → AreServed rd_start rd_length bs bs' l image image'
AreServed-before rd_start rd_length bs bs1 bs' req [] image image' o d h = h
AreServed-before rd_start rd_length bs bs1 bs' req (r ∷ l) image image' o d (image1, t, h) = (
  image1,
  subst (λ b. IsTransfer rd_start rd_length r b (buffer_at bs' r.bh) image image1) (o r.bh d.0) t,
  AreServed-before rd_start rd_length bs bs1 bs' req l image1 image' o d.1 h,
)

IsServedAll-cons :
    (rd_start rd_length : ℕ) (req : Request) (l : List Request) (k k' : Blk) (image image' : ℕ → ℕ)
    (r : Option (Blk × (ℕ → ℕ)))
    → IsRound rd_start rd_length req l k image k' image'
    → All (λ s. s.bh ≢ req.bh) l
    → IsServedAll rd_start rd_length l k' image' r
    → IsServedAll rd_start rd_length (req ∷ l) k image r
IsServedAll-cons rd_start rd_length req l k k' image image' none h d all = all
IsServedAll-cons rd_start rd_length req l k k' image image' (some (k2, image2)) h d (q, ds, keeps) =
    (
      q,
      (
        image',
        subst (λ b. IsTransfer rd_start rd_length req (buffer_at k.buffers req.bh) b image image')
            (sym (keeps req.bh d)) h.transfer,
        AreServed-before rd_start rd_length k.buffers k'.buffers k2.buffers req l image' image2
            h.others d ds,
      ),
      λ i ne. keeps i ne.1 ∙ h.others i (λ e. ne.0 (sym e)),
    )

serve_all-IsServedAll :
    (rd_start rd_length : ℕ) (l : List Request) (k : Blk) (image : ℕ → ℕ)
    → rd_start + rd_length < 2 ^ 32
    → k.queue rd_major ≡ some l
    → All (IsRequest rd_start k.buffers) l
    → AreDistinct l
    → IsServedAll rd_start rd_length l k image (serve_all rd_start rd_length l k image)
unfolding serve_all
serve_all-IsServedAll rd_start rd_length [] k image ends q h d = (q, refl, λ i t. refl)
serve_all-IsServedAll rd_start rd_length (req ∷ l) k image ends q h d =
    next (serve rd_start rd_length req k image)
      (serve-IsServedBy rd_start rd_length req l k image ends h.0.4 q h.0.2 h.0)
      (λ k' image' q' h' d'. serve_all-IsServedAll rd_start rd_length l k' image' ends q' h' d')
  where
    next :
        (r : Option (Blk × (ℕ → ℕ)))
        → IsServedBy rd_start rd_length req l k image r
        → ((k' : Blk) (image' : ℕ → ℕ)
            → k'.queue rd_major ≡ some l
            → All (IsRequest rd_start k'.buffers) l
            → AreDistinct l
            → IsServedAll rd_start rd_length l k' image' (serve_all rd_start rd_length l k' image'))
        → IsServedAll rd_start rd_length
            (req ∷ l)
            k
            image
            (elim r [ none ↦ none | some (k', image') ↦ serve_all rd_start rd_length l k' image' ])
    next none s rec = s
    next (some (k', image')) s rec =
        IsServedAll-cons rd_start rd_length req l k k' image image'
          (serve_all rd_start rd_length l k' image') s d.0
          (rec k' image' s.rest
            (requests_left rd_start k.buffers k'.buffers req l s.others s.same_length d.0 h.1) d.1)

-- From a queue of reads and writes of this device for different buffers, which are locked, where the
-- image and the requests end below 2 ^ 32, do_rd_request() returns with the queue empty and every
-- buffer unlocked. The requests are done in their order: a write within the image puts the bytes of
-- its buffer there, and nothing else in the image changes; a read within it fills its buffer with the
-- bytes of the image; both leave the buffer up to date. A request for another minor number or past
-- the end of the image moves nothing, and its buffer is not up to date. No other buffer changes.
pub do_rd_request-IsServedAll :
    (rd_start rd_length : ℕ) (l : List Request) (k : Blk) (image : ℕ → ℕ)
    → rd_start + rd_length < 2 ^ 32
    → k.queue rd_major ≡ some l
    → All (IsRequest rd_start k.buffers) l
    → AreDistinct l
    → IsServedAll rd_start rd_length l k image (do_rd_request rd_start rd_length k image)
unfolding do_rd_request
do_rd_request-IsServedAll rd_start rd_length l k image ends q h d =
    rw (q, do_rd_request) (serve_all-IsServedAll rd_start rd_length l k image ends q h d)
