-- ===== src/Fs/Table/Steady.antt =====
-- The scan for a free slot, and the calls of Table that leave the references to the slots as they are.
use rv.Common.{
  ℕ, zero, suc, ◌%◌, ◌^◌, ◌≡◌, refl, sym, ◌∙◌, arith, Option, none, some, Bool, true, false, ◌==◌,
  ◌&&◌, not, if◌then◌else◌,
}
use rv.Fs.Vfs.{Vfs, Slot, Call, nr_inode, if_null, ◌>>=◌}
use rv.Fs.Vfs.Turns.{
  Counts, Agrees, Ends, Turns, Turns-panic, Turns-if, Turns-when, Turns-pure, Turns-bind,
  Turns-bind-slot, Turns-update, Turns-on_volume, Turns-on_disk,
}
use rv.Fs.Table.{
  read_slot, write_slot, sync_from, sync_inodes, scan_free, next_slot, next_free, clean_slot,
  give_page, truncate_slot,
}

abbrev pub IsFree : (ℕ → Slot) → Option ℕ → Type 0
IsFree t none = Unit
IsFree t (some i) = (t i).i_count ≡ 0

IsFree-if :
    (t : ℕ → Slot) (b : Bool) (p q : ℕ × Option ℕ)
    → (b ≡ true → IsFree t p.1)
    → IsFree t q.1
    → IsFree t (if b then p else q).1
IsFree-if t true p q hp hq = hp refl
IsFree-if t false p q hp hq = hq

IsFree-found :
    (t : ℕ → Slot) (b : Bool) (i : ℕ) (o : Option ℕ)
    → (b ≡ true → (t i).i_count ≡ 0)
    → IsFree t o
    → IsFree t (if b then some i else o)
IsFree-found t true i o hi ho = hi refl
IsFree-found t false i o hi ho = ho

pub scan_free-IsFree :
    (n last : ℕ) (found : Option ℕ) (t : ℕ → Slot)
    → IsFree t found
    → IsFree t (scan_free n last found t).1
unfolding scan_free
scan_free-IsFree zero last found t h = h
scan_free-IsFree (suc n) last found t h =
    let next = next_slot last in
    let is_free = (t next).i_count == 0 in
    IsFree-if t (is_free && not (t next).inode.i_dirt) (next, some next)
      (scan_free n next (if is_free then some next else found) t) (λ e. ground arith)
      (scan_free-IsFree n next _ t (IsFree-found t is_free next found (λ e. ground arith) h))

module _ {A : Type 0} {f : Counts} {h : A → Counts} where
  by_found :
      (m : Call A) (k : ℕ → Call A) (s : Vfs) (o : Option ℕ)
      → Turns f h m
      → ((i : ℕ) → f i % 2 ^ 16 ≡ 0 → Turns f h (k i))
      → IsFree s.table o
      → (s' : Vfs) → Agrees f s
      → Agrees f s'
      → Ends h (if_null o m k s')
  unfolding if_null
  by_found m k s none hm hk free s' p p' = hm.at s' p'
  by_found m k s (some i) hm hk free s' p p' = (hk i (sym (p i) ∙ free)).at s' p'

  pub Turns-bind-next_free :
      (m : Call A) (k : ℕ → Call A)
      → Turns f h m
      → ((i : ℕ) → f i % 2 ^ 16 ≡ 0 → Turns f h (k i))
      → Turns f h (next_free >>= λ found. if_null found m k)
  unfolding next_free ◌>>=◌
  Turns-bind-next_free m k hm hk = record {
    at = λ s p.
        by_found m k s _ hm hk (scan_free-IsFree nr_inode s.last_inode none s.table tt) _ p p;
  }

-- Calls that leave the counts alone.
module _ {f : Counts} where
  pub read_slot-Turns : (i : ℕ) → Turns f (λ _. f) (read_slot i)
  unfolding read_slot
  read_slot-Turns i =
      Turns-bind-slot i _
        λ x p. Turns-bind _ _ (Turns-on_volume _ _) λ m. Turns-update i _ λ y. refl

  pub write_slot-Turns : (i : ℕ) → Turns f (λ _. f) (write_slot i)
  unfolding write_slot
  write_slot-Turns i = Turns-bind-slot i _ λ x p.
      Turns-if _ _ _ (Turns-pure tt)
        (Turns-bind _ _ (Turns-on_volume _ _) λ m. Turns-update i _ λ y. refl)

  sync_from-Turns : (n i : ℕ) → Turns f (λ _. f) (sync_from n i)
  unfolding sync_from
  sync_from-Turns zero i = Turns-pure tt
  sync_from-Turns (suc n) i =
      Turns-bind-slot i _
        λ x p. Turns-bind _ _ (Turns-when _ _ (write_slot-Turns i)) λ _. sync_from-Turns n (suc i)

  pub sync_inodes-Turns : Turns f (λ _. f) sync_inodes
  unfolding sync_inodes
  sync_inodes-Turns = sync_from-Turns nr_inode 0

  pub clean_slot-Turns : (i : ℕ) → Turns f (λ _. f) (clean_slot i)
  unfolding clean_slot
  clean_slot-Turns i = Turns-bind-slot i _ λ x p.
      Turns-if _ _ _
        (Turns-bind _ _ (write_slot-Turns i)
          λ _. Turns-bind-slot i _ λ y q. Turns-when _ _ Turns-panic)
        (Turns-pure tt)

  pub truncate_slot-Turns : (i : ℕ) → Turns f (λ _. f) (truncate_slot i)
  unfolding truncate_slot
  truncate_slot-Turns i = Turns-bind-slot i _ λ x p.
      Turns-if _ _ _ (Turns-pure tt)
        (Turns-bind _ _ (Turns-on_disk _ _) λ zones. Turns-update i _ λ y. refl)

  pub give_page-Turns : (page : ℕ) → Turns f (λ _. f) (give_page page)
  unfolding give_page
  give_page-Turns page = record { at = λ s p. p }
