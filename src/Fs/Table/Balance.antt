-- ===== src/Fs/Table/Balance.antt =====
-- The references to the slots of the inode table through the calls of Table.
use rv.Common.{
  ℕ, zero, suc, ◌+◌, ◌*◌, ◌%◌, ◌^◌, ◌≡◌, ◌≢◌, refl, sym, ◌∙◌, arith, Option, none, some, ◌==◌, ltb,
  not,
}
use rv.Kernel.Task.{Task}
use rv.Fs.Bitmap.{bits_per_block}
use rv.Fs.Vfs.{Vfs, Call, nr_inode, root_ino, pure, panic, continue, if_null, ◌>>=◌, ◌>>◌, update}
use rv.Fs.Vfs.Turns.{
  Counts, Agrees, bump, Ends, Turns, Turns-panic, Turns-if, Turns-if_of, Turns-when, Turns-pure,
  Turns-gets, Turns-bind, Turns-bind-slot, Turns-count, Turns-update, Turns-up, Turns-down,
  Turns-on_volume, Turns-same, Turns-null, held,
}
use rv.Fs.Table.{
  scan_free, no_pipe, next_free, no_pipe, clean_slot, wiped, get_empty_inode, get_pipe_inode,
  free_inode, put_pipe, put_rounds, iput, iget_loop, iget, new_inode, fresh,
}
use rv.Fs.Table.Steady.{
  IsFree, scan_free-IsFree, Turns-bind-next_free, read_slot-Turns, write_slot-Turns,
  sync_inodes-Turns, clean_slot-Turns, truncate_slot-Turns, give_page-Turns,
}

-- Calls that take or give a reference.
module _ {f : Counts} where
  wipes_free : (i : ℕ) → f i % 2 ^ 16 ≡ 0 → Turns f (λ _. bump i f) (update i (wiped 1))
  wipes_free i free = Turns-count (bump i f) i (wiped 1) (λ x p. ground arith) (λ j n. ground arith)

  pub get_empty_inode-Turns : Turns f (λ i. bump i f) get_empty_inode
  unfolding get_empty_inode
  get_empty_inode-Turns = Turns-bind-next_free _ _ Turns-panic λ i free.
      Turns-bind _ _ (clean_slot-Turns i) λ _. Turns-bind _ _ (wipes_free i free) λ _. Turns-pure i

  free_inode-Turns : (i : ℕ) → f i % 2 ^ 16 ≡ 0 → Turns (bump i f) (λ _. f) (free_inode i)
  unfolding free_inode
  free_inode-Turns i free =
      let wipes = Turns-count f i (wiped 0) (λ x p. sym free) (λ j n. ground arith) in
      Turns-bind-slot i _ λ x p.
        Turns-if _ _ _ wipes
          (Turns-if _ _ _ Turns-panic (Turns-bind _ _ (Turns-on_volume _ _) λ _. wipes))

  put_pipe-Turns : (i : ℕ) → Turns (bump i f) (λ _. f) (put_pipe i)
  unfolding put_pipe
  put_pipe-Turns i = Turns-bind _ _ (Turns-down i) λ _. Turns-bind-slot i _ λ y q.
      Turns-if_of (not (y.i_count == 0)) _ _ (λ e. Turns-pure tt)
        λ e.
          Turns-bind _ _ (give_page-Turns _)
            λ _. Turns-count f i no_pipe (λ x p. ground arith) (λ j n. refl)

  put_rounds-Turns :
      (rounds i : ℕ) → (f i + 1) % 2 ^ 16 ≢ 0 → Turns (bump i f) (λ _. f) (put_rounds rounds i)
  unfolding put_rounds
  put_rounds-Turns zero i used = Turns-panic
  put_rounds-Turns (suc rounds) i used = Turns-bind-slot i _ λ x p.
      Turns-if_of (ltb 1 x.i_count) _ _ (λ e. Turns-down i)
        λ e.
          Turns-if _ _ _
            (Turns-bind _ _ (truncate_slot-Turns i) λ _. free_inode-Turns i (ground arith))
            (Turns-if _ _ _
              (Turns-bind _ _ (write_slot-Turns i) λ _. put_rounds-Turns rounds i used)
              (Turns-down i))

  pub iput-Turns : (i : ℕ) → Turns (bump i f) (λ _. f) (iput i)
  unfolding iput
  iput-Turns i = Turns-bind-slot i _ λ x p.
      Turns-if_of (x.i_count == 0) _ _ (λ e. Turns-panic)
        λ e. Turns-if _ _ _ (put_pipe-Turns i) (
          Turns-if _ _ _ (Turns-down i) (
            Turns-bind _ _ (Turns-when _ _ sync_inodes-Turns)
              λ _. put_rounds-Turns 2 i (ground arith)))

module _ {A : Type 0} (f : Counts) {h : A → Counts} where
  by_cleaned :
      (i : ℕ) (k : ℕ → Call A)
      → f i % 2 ^ 16 ≡ 0
      → Turns (bump i f) h (k i)
      → (r : Option (Unit × Vfs)) → Ends (λ _. f) r
      → Ends h (continue (continue r λ _. update i (wiped 1) >> pure i) k)
  unfolding ◌>>=◌ update pure
  by_cleaned i k free hk none p = tt
  by_cleaned i k free hk (some (u, s)) p = hk.at _ ((wipes_free i free).at s p)

  by_empty :
      (k : ℕ → Call A) (s : Vfs) (o : Option ℕ)
      → ((i : ℕ) → f i % 2 ^ 16 ≡ 0 → Turns (bump i f) h (k i))
      → IsFree s.table o
      → (s' : Vfs) → Agrees f s
      → Agrees f s'
      → Ends h
          (continue (if_null o panic (λ i. clean_slot i >> (update i (wiped 1) >> pure i)) s') k)
  unfolding ◌>>=◌ panic if_null
  by_empty k s none hk free s' p p' = tt
  by_empty k s (some i) hk free s' p p' =
      by_cleaned i k (sym (p i) ∙ free) (hk i (sym (p i) ∙ free)) (clean_slot i s')
        ((clean_slot-Turns i).at s' p')

module _ {A : Type 0} {f : Counts} {h : A → Counts} where
  -- The rest of the call may use that the slot was free.
  pub Turns-bind-empty :
      (k : ℕ → Call A)
      → ((i : ℕ) → f i % 2 ^ 16 ≡ 0 → Turns (bump i f) h (k i))
      → Turns f h (get_empty_inode >>= k)
  unfolding ◌>>=◌ get_empty_inode next_free
  Turns-bind-empty k hk = record {
    at = λ s p.
        let r = scan_free nr_inode s.last_inode none s.table in
        by_empty f k s r.1 hk (scan_free-IsFree nr_inode s.last_inode none s.table tt)
          (record s { last_inode = r.0 }) p p;
  }

module _ (f : Counts) where
  -- Two references are given back in any order.
  pub iput-Turns_under : (i j : ℕ) → Turns (bump j (bump i f)) (λ _. bump j f) (iput i)
  iput-Turns_under i j = Turns-same (λ k. ground arith) (iput-Turns {f = bump j f} i)

  iget_loop-Turns :
      (rounds dev nr empty : ℕ)
      → Turns (bump empty f) (λ i. bump i f) (iget_loop rounds dev nr empty)
  unfolding iget_loop
  iget_loop-Turns zero dev nr empty = Turns-panic
  iget_loop-Turns (suc rounds) dev nr empty = Turns-bind _ _ (Turns-gets _) λ found.
      Turns-null found _ _
        (Turns-bind _ _ (Turns-update empty _ λ x. refl)
          λ _. Turns-bind _ _ (read_slot-Turns empty) λ _. Turns-pure empty)
        λ i. Turns-bind _ _ (Turns-up i) λ _. Turns-bind-slot i _ λ x p.
          Turns-bind _ _ (Turns-gets _) λ mount.
            Turns-null mount _ _ (Turns-bind _ _ (iput-Turns_under empty i) λ _. Turns-pure i)
              λ dev'. Turns-bind _ _ (iput-Turns i) λ _. iget_loop-Turns rounds dev' root_ino empty

module _ (f : Counts) where
  -- iget() gives one reference more to the inode that it returns, and leaves the references to every
  -- other slot as they were, also where it crosses mount points: it gives back the empty slot that it
  -- takes first, and each mount point. That is so in each state that counts the references f.
  pub iget-balance : (dev nr : ℕ) → Turns f (λ i. bump i f) (iget dev nr)
  unfolding iget
  iget-balance dev nr =
      Turns-if _ _ _ Turns-panic
        (Turns-bind _ _ get_empty_inode-Turns λ empty. iget_loop-Turns f _ dev nr empty)

module _ {f : Counts} where
  pub new_inode-Turns : (current : Task) (dev : ℕ) → Turns f (held f) (new_inode current dev)
  unfolding new_inode
  new_inode-Turns current dev = Turns-bind-empty _ λ i free.
      Turns-bind _ _ (Turns-on_volume _ _) λ v.
        Turns-null _ _ _ (Turns-bind _ _ (iput-Turns i) λ _. Turns-pure none) λ (k, j, b).
          Turns-if _ _ _ (Turns-bind _ _ (iput-Turns i) λ _. Turns-pure none) (
            Turns-bind _ _ (Turns-on_volume _ _) λ _.
              Turns-bind _ _
                (Turns-count (bump i f) i (fresh current dev (j + k * bits_per_block))
                  (λ x p. ground arith) (λ j n. refl))
                λ _. Turns-pure (some i))

-- Two references, to the ends of a pipe.
abbrev pub held_twice : Counts → Option ℕ → Counts
held_twice f none = f
held_twice f (some i) = bump i (bump i f)

module _ {f : Counts} where
  pub get_pipe_inode-Turns : (page : ℕ) → Turns f (held_twice f) (get_pipe_inode page)
  unfolding get_pipe_inode
  get_pipe_inode-Turns page = Turns-bind-empty _ λ i free.
      Turns-if _ _ _
        (Turns-bind _ _ (Turns-count f i _ (λ x p. sym free) (λ j n. ground arith))
          λ _. Turns-pure none)
        (Turns-bind _ _ (Turns-update i _ λ x. refl) λ _.
          Turns-bind _ _
            (Turns-count (bump i (bump i f)) i _ (λ x p. ground arith) (λ j n. ground arith))
            λ _. Turns-pure (some i))
