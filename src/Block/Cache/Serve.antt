-- ===== src/Block/Cache/Serve.antt =====
-- fs/buffer.c: what getblk() returns, and when it waits.
use rv.Common.{
  ℕ, ◌<◌, ◌%◌, ◌^◌, ◌≤◌, ◌≡◌, ◌≢◌, refl, sym, subst, ap, ◌∙◌, ◌⊎◌, inl, inr, Bool, true, false,
  none, some, if◌then◌else◌, arith, Bool-cases, Option-cases, length, length-set,
}
use rv.Block.Buffers.{buffer_at}
use rv.Block.Cache.{
  Cache, on, find_buffer, is_cached, looked_up, get_hash_table, Getblk, returns, repeats, sleeps,
  waits_cached, waits_chosen, syncs, take_over, rename, assign, claim, getblk, choose_buffer,
  count_up, is_block,
}
use rv.Block.Cache.Invariant.{IsCache, dev_of, block_of}
use rv.Block.Cache.Choice.{bad, count, IsChosen, choose_buffer-IsChosen}
use rv.Block.Cache.Find.{
  find_buffer-some, find_buffer-none, find_buffer_unique, on-IsCache, keys-is_block,
  buffer_at-on_buffer,
}
use rv.Block.Cache.Assign.{
  on_buffer_self, on_buffer-ne, assign-ne, assign_self, length-assign, assign-IsCache,
}

-- Buffer bh is unused, and no unused buffer is less bad.
abbrev pub IsBest : Cache → ℕ → Type 0
IsBest c bh =
    (bh < length c.buffers)
    × (count c.buffers bh ≡ 0)
    × ((i : ℕ) → i < length c.buffers → count c.buffers i ≡ 0 → bad c.buffers bh ≤ bad c.buffers i)

-- The outcome is the cache with buffer bh changed, in which the block is found at bh.
abbrev pub IsHolding : ℕ → ℕ → Cache → ℕ → Cache → Type 0
IsHolding dev block c bh c' =
    IsCache c'
    × (find_buffer dev block c' ≡ some bh)
    × (length c'.buffers ≡ length c.buffers)
    × ((i : ℕ) → i ≢ bh → buffer_at c'.buffers i ≡ buffer_at c.buffers i)

-- What getblk() may come to.
abbrev pub IsServed : ℕ → ℕ → Cache → Getblk → Type 0
IsServed dev block c (returns bh c') =
    IsHolding dev block c bh c'
    × (((find_buffer dev block c ≡ some bh)
          × (buffer_at c'.buffers bh ≡ count_up (buffer_at c.buffers bh)))
        ⊎ ((find_buffer dev block c ≡ none)
            × (count c.buffers bh ≡ 0)
            × (bad c.buffers bh ≡ 0)
            × (buffer_at c'.buffers bh ≡ rename dev block (take_over (buffer_at c.buffers bh)))))
IsServed dev block c (repeats c') = ⊥
IsServed dev block c (sleeps c') =
    (c' ≡ c)
    × (find_buffer dev block c ≡ none)
    × ((i : ℕ) → i < length c.buffers → count c.buffers i ≢ 0)
IsServed dev block c (waits_cached bh c') =
    IsCache c'
    × (find_buffer dev block c ≡ some bh)
    × ((buffer_at c.buffers bh).b_lock ≡ true)
    × (c' ≡ on bh count_up c)
IsServed dev block c (waits_chosen bh c') =
    (c' ≡ c)
    × (find_buffer dev block c ≡ none)
    × ((buffer_at c.buffers bh).b_lock ≡ true)
    × IsBest c bh
IsServed dev block c (syncs bh c') =
    (c' ≡ c)
    × (find_buffer dev block c ≡ none)
    × ((buffer_at c.buffers bh).b_dirt ≡ true)
    × IsBest c bh

if-false {ℓ} : {A : Type ℓ} {b : Bool} (x y : A) → b ≡ false → (if b then x else y) ≡ y
if-false x y h = rw h

module _ (dev block : ℕ) (c : Cache) where
  ends : {r q : Getblk} → r ≡ q → IsServed dev block c q → IsServed dev block c r
  ends p h = subst (IsServed dev block c) (sym p) h

  getblk-locked :
      (bh : ℕ)
      → find_buffer dev block c ≡ some bh
      → (buffer_at c.buffers bh).b_lock ≡ true
      → getblk dev block c ≡ waits_cached bh (on bh count_up c)
  unfolding getblk get_hash_table
  getblk-locked bh e l = rw (e, l, getblk, get_hash_table)

  found :
      (bh : ℕ)
      → dev_of c.buffers bh ≡ dev
      → block_of c.buffers bh ≡ block
      → is_block dev block (buffer_at (on bh count_up c).buffers bh) ≡ true
  found bh d k =
      keys-is_block dev block (buffer_at (on bh count_up c).buffers bh)
        (buffer_at-on_buffer (λ b. b.b_dev) count_up (λ b. refl) c.buffers bh bh ∙ d)
        (buffer_at-on_buffer (λ b. b.b_blocknr) count_up (λ b. refl) c.buffers bh bh ∙ k)

  looked_up-cached :
      (bh : ℕ) (c' : Cache)
      → is_block dev block (buffer_at c'.buffers bh) ≡ true
      → looked_up dev block bh c' ≡ is_cached bh c'
  unfolding looked_up
  looked_up-cached bh c' k = rw k

  get_hash_table-cached :
      (bh : ℕ)
      → find_buffer dev block c ≡ some bh
      → (buffer_at c.buffers bh).b_lock ≡ false
      → is_block dev block (buffer_at (on bh count_up c).buffers bh) ≡ true
      → get_hash_table dev block c ≡ is_cached bh (on bh count_up c)
  unfolding get_hash_table
  get_hash_table-cached bh e l k =
      rw (e, get_hash_table) (if-false _ _ l ∙ looked_up-cached bh (on bh count_up c) k)

  getblk-cached :
      (bh : ℕ)
      → find_buffer dev block c ≡ some bh
      → (buffer_at c.buffers bh).b_lock ≡ false
      → is_block dev block (buffer_at (on bh count_up c).buffers bh) ≡ true
      → getblk dev block c ≡ returns bh (on bh count_up c)
  unfolding getblk
  getblk-cached bh e l k = rw (get_hash_table-cached bh e l k, getblk)

  module _ (e : find_buffer dev block c ≡ none) where
    getblk-sleeps : choose_buffer c.buffers c.free_list none ≡ none → getblk dev block c ≡ sleeps c
    unfolding getblk get_hash_table
    getblk-sleeps ch = rw (e, ch, getblk, get_hash_table)

    module _ (bh : ℕ) (ch : choose_buffer c.buffers c.free_list none ≡ some bh) where
      getblk-chosen_locked :
          (buffer_at c.buffers bh).b_lock ≡ true → getblk dev block c ≡ waits_chosen bh c
      unfolding getblk get_hash_table
      getblk-chosen_locked l = rw (e, ch, l, getblk, get_hash_table)

      getblk-chosen_dirty :
          (buffer_at c.buffers bh).b_lock ≡ false
          → count c.buffers bh ≡ 0
          → (buffer_at c.buffers bh).b_dirt ≡ true
          → getblk dev block c ≡ syncs bh c
      unfolding getblk get_hash_table claim
      getblk-chosen_dirty l z d = rw (e, ch, l, z, d, getblk, get_hash_table, claim)

      claim-clean :
          count c.buffers bh ≡ 0
          → (buffer_at c.buffers bh).b_dirt ≡ false
          → claim dev block bh c ≡ returns bh (assign dev block bh c)
      unfolding claim
      claim-clean z d = rw (z, d, claim) (rw e)

      getblk-chosen_clean :
          (buffer_at c.buffers bh).b_lock ≡ false
          → count c.buffers bh ≡ 0
          → (buffer_at c.buffers bh).b_dirt ≡ false
          → getblk dev block c ≡ returns bh (assign dev block bh c)
      unfolding getblk get_hash_table
      getblk-chosen_clean l z d = rw (e, ch, l, claim-clean z d, getblk, get_hash_table)

module _ (dev block : ℕ) (c : Cache) (ok : IsCache c) (ne : dev ≢ 0) (small : dev < 2 ^ 16) where
  counted-IsHolding :
      (bh : ℕ) → find_buffer dev block c ≡ some bh → IsHolding dev block c bh (on bh count_up c)
  counted-IsHolding bh e =
      let (lt, d, k) = find_buffer-some dev block bh c ok e in
      let n : length (on bh count_up c).buffers ≡ length c.buffers =
        length-set c.buffers bh (count_up (buffer_at c.buffers bh)) in
      let ok' : IsCache (on bh count_up c) = on-IsCache bh count_up c (λ b. refl) (λ b. refl) ok in
      (
        ok',
        find_buffer_unique dev block bh (on bh count_up c) ok' (rw n lt) ne
            (ap (λ b. b.b_dev) (on_buffer_self c.buffers bh count_up lt) ∙ d)
            (ap (λ b. b.b_blocknr) (on_buffer_self c.buffers bh count_up lt) ∙ k),
        n,
        λ i other. on_buffer-ne c.buffers bh i count_up other,
      )

  assigned-IsHolding :
      (bh : ℕ)
      → find_buffer dev block c ≡ none
      → bh < length c.buffers
      → IsHolding dev block c bh (assign dev block bh c)
  assigned-IsHolding bh e lt =
      let n = length-assign dev block bh c small lt in
      let ok' =
        assign-IsCache dev block bh c small lt ok
          (λ i li z d. find_buffer-none dev block i c ok e li z d) in
      let s = assign_self dev block bh c small lt in
      let q : dev % 2 ^ 16 ≡ dev = omega (arith, small) in
      (
        ok',
        find_buffer_unique dev block bh (assign dev block bh c) ok' (rw n lt) ne
            (ap (λ b. b.b_dev) s ∙ q) (ap (λ b. b.b_blocknr) s),
        n,
        λ i other. assign-ne dev block bh c small lt i other,
      )

  IsServed-cached :
      (bh : ℕ) → find_buffer dev block c ≡ some bh → IsServed dev block c (getblk dev block c)
  IsServed-cached bh e = elim (Bool-cases (buffer_at c.buffers bh).b_lock) [
    | inl locked ↦
        ends dev block c (getblk-locked dev block c bh e locked)
          (on-IsCache bh count_up c (λ b. refl) (λ b. refl) ok, e, locked, refl)
    | inr free ↦
        let (lt, d, k) = find_buffer-some dev block bh c ok e in
        ends dev block c (getblk-cached dev block c bh e free (found dev block c bh d k))
          (counted-IsHolding bh e, inl (e, on_buffer_self c.buffers bh count_up lt))
  ]

  -- The buffer chosen is free of users; where it is not locked, it is taken or written out.
  IsServed-chosen :
      (bh : ℕ)
      → find_buffer dev block c ≡ none
      → IsBest c bh
      → choose_buffer c.buffers c.free_list none ≡ some bh
      → IsServed dev block c (getblk dev block c)
  IsServed-chosen bh e best ch = elim (Bool-cases (buffer_at c.buffers bh).b_lock) [
    | inl locked ↦
        ends dev block c (getblk-chosen_locked dev block c e bh ch locked) (refl, e, locked, best)
    | inr free ↦ elim (Bool-cases (buffer_at c.buffers bh).b_dirt) [
      | inl dirty ↦
          ends dev block c (getblk-chosen_dirty dev block c e bh ch free (best.1) dirty)
            (refl, e, dirty, best)
      | inr clean ↦ ends dev block c (getblk-chosen_clean dev block c e bh ch free (best.1) clean) (
        assigned-IsHolding bh e best.0,
        inr (e, best.1, rw (free, clean), assign_self dev block bh c small best.0),
      )
    ]
  ]

  IsBest-of : (bh : ℕ) → IsChosen c.buffers c.free_list none (some bh) → IsBest c bh
  IsBest-of bh (inl (m, z), least, p) =
      ((ok.is_free_list bh).0 m, z, λ i lt u. least i ((ok.is_free_list i).1 lt) u)
  IsBest-of bh (inr e, least, p) = cc

  -- getblk() never goes back to its start without having slept, and what it returns or waits for is as
  -- `IsServed` says.
  pub getblk-IsServed : IsServed dev block c (getblk dev block c)
  getblk-IsServed = elim (Option-cases (find_buffer dev block c)) [
    | inr (bh, e) ↦ IsServed-cached bh e
    | inl e ↦ elim (Option-cases (choose_buffer c.buffers c.free_list none)) [
      | inr (bh, ch) ↦
          IsServed-chosen bh e
            (IsBest-of bh (
              subst (IsChosen c.buffers c.free_list none) ch
                (choose_buffer-IsChosen c.buffers c.free_list none)))
            ch
      | inl ch ↦
          let (p, all) =
            subst (IsChosen c.buffers c.free_list none) ch
              (choose_buffer-IsChosen c.buffers c.free_list none) in
          ends dev block c (getblk-sleeps dev block c e ch)
            (refl, e, λ i lt. all i ((ok.is_free_list i).1 lt))
    ]
  ]
