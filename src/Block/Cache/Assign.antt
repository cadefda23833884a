-- ===== src/Block/Cache/Assign.antt =====
-- fs/buffer.c, getblk(): the cache after a buffer has been taken for another block.
use rv.Common.{
  ℕ, ◌<◌, ◌%◌, ◌^◌, ◌≡◌, ◌≢◌, refl, sym, subst, ap, fun_ext, ◌∙◌, inl, inr, List, [], ◌∷◌, ◌++◌,
  arith, length, length-set, get_or-set_self, get_or-set_ne, ==_self,
}
use rv.Block.Buffers.{Buffer, Buffers, buffer_at, no_buffer, on_buffer}
use rv.Block.Cache.{
  Cache, hashfn, without, remove_from_queues, insert_into_queues, take_over, rename, assign,
}
use rv.Block.Cache.Invariant.{
  In, In-append, In-append_left, In-append_right, In-without, without-In, IsFreeList, IsCache,
  dev_of, block_of,
}
use rv.Block.Cache.Take.{put, put-ne, relink, same-or-not, relinked, relink-IsIndexed}

turn-IsFreeList :
    (n bh : ℕ) (l : List ℕ) → bh < n → IsFreeList n l → IsFreeList n (without bh l ++ (bh ∷ []))
turn-IsFreeList n bh l lt ok i = (to, from)
  where
    to : In i (without bh l ++ (bh ∷ [])) → i < n
    to m = elim (In-append i (without bh l) (bh ∷ []) m) [
      | inl a ↦ (ok i).0 ((In-without i bh l a).0)
      | inr b ↦ elim b [ inl e ↦ rw e lt | inr none_left ↦ absurd none_left ]
    ]

    from : i < n → In i (without bh l ++ (bh ∷ []))
    from li = elim (same-or-not i bh) [
      | inl e ↦ In-append_right i (without bh l) (bh ∷ []) (inl e)
      | inr ne ↦ In-append_left i (without bh l) (bh ∷ []) (without-In i bh l ((ok i).1 li) ne)
    ]

pub on_buffer_self :
    (bs : Buffers) (bh : ℕ) (f : Buffer → Buffer)
    → bh < length bs
    → buffer_at (on_buffer bs bh f) bh ≡ f (buffer_at bs bh)
on_buffer_self bs bh f lt = get_or-set_self bs bh (f (buffer_at bs bh)) no_buffer lt

pub on_buffer-ne :
    (bs : Buffers) (bh i : ℕ) (f : Buffer → Buffer)
    → i ≢ bh
    → buffer_at (on_buffer bs bh f) i ≡ buffer_at bs i
on_buffer-ne bs bh i f ne = get_or-set_ne bs bh i (f (buffer_at bs bh)) no_buffer (λ e. ne (sym e))

module _ (dev block bh : ℕ) (bs : Buffers) (small : dev < 2 ^ 16) (lt : bh < length bs) where
  assigned : Buffers
  assigned = on_buffer (on_buffer bs bh take_over) bh (rename dev block)

  length-assigned : length assigned ≡ length bs
  unfolding assigned
  length-assigned =
      length-set (on_buffer bs bh take_over) bh
        (rename dev block (buffer_at (on_buffer bs bh take_over) bh))
      ∙ length-set bs bh (take_over (buffer_at bs bh))

  assigned-ne : (i : ℕ) → i ≢ bh → buffer_at assigned i ≡ buffer_at bs i
  unfolding assigned
  assigned-ne i ne =
      on_buffer-ne (on_buffer bs bh take_over) bh i (rename dev block) ne
      ∙ on_buffer-ne bs bh i take_over ne

  assigned_self : buffer_at assigned bh ≡ rename dev block (take_over (buffer_at bs bh))
  unfolding assigned
  assigned_self =
      on_buffer_self (on_buffer bs bh take_over) bh (rename dev block)
        (subst (λ n. bh < n) (sym (length-set bs bh (take_over (buffer_at bs bh)))) lt)
      ∙ ap (rename dev block) (on_buffer_self bs bh take_over lt)

  assigned-dev_self : dev_of assigned bh ≡ dev
  assigned-dev_self =
      let q : dev % 2 ^ 16 ≡ dev = omega (arith, small) in ap (λ b. b.b_dev) assigned_self ∙ q

  assigned-block_self : block_of assigned bh ≡ block
  assigned-block_self = ap (λ b. b.b_blocknr) assigned_self

  assigned-dev : dev_of assigned ≡ put (dev_of bs) bh dev
  assigned-dev = fun_ext (λ i. elim (same-or-not i bh) [
    | inl e ↦ rw (e, assigned-dev_self, ==_self bh)
    | inr ne ↦ ap (λ b. b.b_dev) (assigned-ne i ne) ∙ sym (put-ne bh (dev_of bs) dev i ne)
  ])

  assigned-block : block_of assigned ≡ put (block_of bs) bh block
  assigned-block = fun_ext (λ i. elim (same-or-not i bh) [
    | inl e ↦ rw (e, assigned-block_self, ==_self bh)
    | inr ne ↦ ap (λ b. b.b_blocknr) (assigned-ne i ne) ∙ sym (put-ne bh (block_of bs) block i ne)
  ])

module _ (dev block bh : ℕ) (c : Cache) (small : dev < 2 ^ 16) (lt : bh < length c.buffers) where
  taken_key :
      hashfn
        (dev_of (on_buffer c.buffers bh take_over) bh)
        (block_of (on_buffer c.buffers bh take_over) bh)
      ≡ hashfn (dev_of c.buffers bh) (block_of c.buffers bh)
  taken_key = ap (λ b. hashfn b.b_dev b.b_blocknr) (on_buffer_self c.buffers bh take_over lt)

  assign-table :
      (assign dev block bh c).hash_table
      ≡ relinked c.hash_table (hashfn (dev_of c.buffers bh) (block_of c.buffers bh)) bh dev block
  unfolding assign insert_into_queues remove_from_queues assigned
  assign-table =
      let table = c.hash_table in
      let old = hashfn (dev_of c.buffers bh) (block_of c.buffers bh) in
      let new = assigned dev block bh c.buffers small lt in
      ap (λ h. relinked table h bh (dev_of new bh) (block_of new bh)) taken_key
      ∙ ap (λ d. relinked table old bh d (block_of new bh))
          (assigned-dev_self dev block bh c.buffers small lt)
      ∙ ap (λ k. relinked table old bh dev k) (assigned-block_self dev block bh c.buffers small lt)

  -- The new buffers, apart from the lists.
  assign-buffers : (assign dev block bh c).buffers ≡ assigned dev block bh c.buffers small lt
  unfolding assign insert_into_queues remove_from_queues assigned
  assign-buffers = refl

  pub assign-ne :
      (i : ℕ) → i ≢ bh → buffer_at (assign dev block bh c).buffers i ≡ buffer_at c.buffers i
  unfolding assign insert_into_queues remove_from_queues assigned
  assign-ne i ne = assigned-ne dev block bh c.buffers small lt i ne

  pub assign_self :
      buffer_at (assign dev block bh c).buffers bh
      ≡ rename dev block (take_over (buffer_at c.buffers bh))
  unfolding assign insert_into_queues remove_from_queues assigned
  assign_self = assigned_self dev block bh c.buffers small lt

  pub length-assign : length (assign dev block bh c).buffers ≡ length c.buffers
  unfolding assign insert_into_queues remove_from_queues assigned
  length-assign = length-assigned dev block bh c.buffers small lt

  assign-dev : dev_of (assign dev block bh c).buffers ≡ put (dev_of c.buffers) bh dev
  unfolding assign insert_into_queues remove_from_queues assigned
  assign-dev = assigned-dev dev block bh c.buffers small lt

  assign-block : block_of (assign dev block bh c).buffers ≡ put (block_of c.buffers) bh block
  unfolding assign insert_into_queues remove_from_queues assigned
  assign-block = assigned-block dev block bh c.buffers small lt

  assign-free : (assign dev block bh c).free_list ≡ without bh c.free_list ++ (bh ∷ [])
  unfolding assign insert_into_queues remove_from_queues
  assign-free = refl

  pub assign-IsCache :
      IsCache c
      → ((i : ℕ)
          → i < length c.buffers
          → dev ≢ 0
          → dev_of c.buffers i ≡ dev
          → block_of c.buffers i ≢ block)
      → IsCache (assign dev block bh c)
  unfolding relink
  assign-IsCache ok fresh = record {
    is_indexed =
        rw (length-assign, assign-dev, assign-block, assign-table)
          (relink-IsIndexed (length c.buffers) (dev_of c.buffers) (block_of c.buffers) c.hash_table
            bh ok.is_indexed dev block lt fresh);
    is_free_list =
        rw (length-assign, assign-free)
          (turn-IsFreeList (length c.buffers) bh c.free_list lt ok.is_free_list);
  }
