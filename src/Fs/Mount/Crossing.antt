-- ===== src/Fs/Mount/Crossing.antt =====
-- What sys_mount() does to iget().
use rv.Common.{
  ℕ, zero, suc, ◌≡◌, ◌≢◌, refl, sym, ap, ◌∙◌, arith, Option, none, some, Bool, true, false, ◌==◌,
  if◌then◌else◌, List, [], ◌∷◌, Bool-cases, inl, inr, ==_self, ==_ne, ==_iff, some-inj,
}
use rv.Fs.Seek.{is_blk, is_dir}
use rv.Fs.Vfs.{
  Vfs, Slot, Volume, nr_inode, nr_super, continue, root_ino, pure, gets, when, if_null, ◌>>=◌,
  update, update_at, slot, ref_up, ref_down, set_dirty, find_super, get_super, put_volume,
  on_volume,
}
use rv.Fs.Table.Hit.{get_empty_inode-clean, find_inode-wiped}
use rv.Fs.Table.{scan_free, wiped, iget, iput, put_rounds, find_inode, mounted_on, iget_loop}
use rv.Fs.Mount.{mount_at, set_imount}

module _ (d : ℕ) (r r' : Option ℕ) where
  skips_if :
      (b : Bool) → (if b then some d else r) ≡ none → (r ≡ none) × ((if b then some d else r') ≡ r')
  skips_if true h = absurd cc
  skips_if false h = (h, refl)

  -- An entry that nothing is mounted on slot i by is passed over.
  skips :
      (i : ℕ) (o : Option ℕ)
      → elim o [ none ↦ r | some j ↦ if i == j then some d else r ] ≡ none
      → (r ≡ none) × (elim o [ none ↦ r' | some j ↦ if i == j then some d else r' ] ≡ r')
  skips i none h = (h, refl)
  skips i (some j) h = skips_if (i == j) h

by_entry :
    (b : Bool) (i dev : ℕ) (w v u : Volume) (vs : List Volume)
    → w.s_dev ≡ dev
    → w.s_imount ≡ some i
    → (if b then some u else find_super dev vs) ≡ some v
    → mounted_on i (u ∷ vs) ≡ none
    → (find_super dev vs ≡ some v
        → mounted_on i vs ≡ none
        → mounted_on i (put_volume dev w vs) ≡ some dev)
    → mounted_on i (if b then w ∷ vs else u ∷ put_volume dev w vs) ≡ some dev
unfolding mounted_on
by_entry true i dev w v u vs hd hi hf hm rest = rw (hi, ==_self i, hd)
by_entry false i dev w v u vs hd hi hf hm rest =
    let p = skips u.s_dev (mounted_on i vs) (mounted_on i (put_volume dev w vs)) i u.s_imount hm in
    p.1 ∙ rest hf p.0

-- A device that is put on a slot on which none is mounted is the one that is found there.
mounted_on-put_volume :
    (i dev : ℕ) (w v : Volume) (vs : List Volume)
    → w.s_dev ≡ dev
    → w.s_imount ≡ some i
    → find_super dev vs ≡ some v
    → mounted_on i vs ≡ none
    → mounted_on i (put_volume dev w vs) ≡ some dev
unfolding find_super put_volume
mounted_on-put_volume i dev w v [] hd hi hf hm = absurd cc
mounted_on-put_volume i dev w v (u ∷ vs) hd hi hf hm =
    by_entry (u.s_dev == dev) i dev w v u vs hd hi hf hm (mounted_on-put_volume i dev w v vs hd hi)

by_dev :
    (b : Bool) (dev : ℕ) (v u : Volume) (r : Option Volume)
    → (b ≡ true → u.s_dev ≡ dev)
    → (r ≡ some v → v.s_dev ≡ dev)
    → (if b then some u else r) ≡ some v
    → v.s_dev ≡ dev
by_dev true dev v u r hu hr h = ap (λ w. w.s_dev) (sym (some-inj h)) ∙ hu refl
by_dev false dev v u r hu hr h = hr h

find_super-dev :
    (dev : ℕ) (v : Volume) (vs : List Volume) → find_super dev vs ≡ some v → v.s_dev ≡ dev
unfolding find_super
find_super-dev dev v [] h = absurd cc
find_super-dev dev v (u ∷ vs) h =
    by_dev (u.s_dev == dev) dev v u _ (λ e. (==_iff u.s_dev dev).0 e) (find_super-dev dev v vs) h

some-of_if :
    (b : Bool) (r : Option Volume) (v : Volume) → (if b then none else r) ≡ some v → r ≡ some v
some-of_if true r v h = absurd cc
some-of_if false r v h = h

get_super-find_super :
    (dev : ℕ) (v : Volume) (vs : List Volume)
    → get_super dev vs ≡ some v
    → find_super dev vs ≡ some v
unfolding get_super
get_super-find_super dev v vs h = some-of_if (dev == 0) _ v h

-- What mount_at() writes into the slot of the directory.
abbrev pub mounting : Slot → Slot
mounting x = set_dirty (record x { i_mount = true })

set_imount-on_volume :
    (o : Option ℕ) (dev : ℕ) (s : Vfs) (v : Volume)
    → get_super dev s.super_block ≡ some v
    → on_volume dev (set_imount o) s
      ≡ some
          (tt, record s { super_block = put_volume dev (record v { s_imount = o }) s.super_block })
unfolding on_volume
set_imount-on_volume o dev s v h = rw (h, on_volume)

mount_at-mounts :
    (dir dev : ℕ) (s : Vfs) (v : Volume)
    → get_super dev s.super_block ≡ some v
    → mount_at dir dev s
      ≡ some (
        tt,
        record s {
          super_block = put_volume dev (record v { s_imount = some dir }) s.super_block;
          table = update_at dir mounting s.table;
        },
      )
unfolding mount_at ◌>>=◌ update
mount_at-mounts dir dev s v h =
    ap (λ r. continue r λ _. update dir mounting) (set_imount-on_volume (some dir) dev s v h)

-- The reference that iget() takes of a mount point is given back.
iput-again :
    (i : ℕ) (s : Vfs)
    → (s.table i).i_count ≡ 2
    → (s.table i).i_pipe ≡ false
    → ((s.table i).inode.i_dev == 0) ≡ false
    → is_blk (s.table i).inode.stored.i_mode ≡ false
    → iput i s ≡ some (tt, record s { table = update_at i ref_down s.table })
unfolding iput slot ◌>>=◌ update when pure put_rounds
iput-again i s hc hp hd hb = rw (hc, hp, hd, hb, hc)

iget_loop-crosses :
    (n d nr i e dev : ℕ) (s : Vfs)
    → find_inode nr_inode 0 d nr s.table ≡ some i
    → (s.table i).i_mount ≡ true
    → mounted_on i s.super_block ≡ some dev
    → (s.table i).i_count ≡ 1
    → (s.table i).i_pipe ≡ false
    → ((s.table i).inode.i_dev == 0) ≡ false
    → is_blk (s.table i).inode.stored.i_mode ≡ false
    → iget_loop (suc n) d nr e s
      ≡ iget_loop n dev root_ino e
          (record s { table = update_at i ref_down (update_at i ref_up s.table) })
unfolding iget_loop slot ◌>>=◌ update pure if_null gets
iget_loop-crosses n d nr i e dev s hf hm hs hc hp hd hb =
    let s2 : Vfs = record s { table = update_at i ref_up s.table } in
    let p =
      iput-again i s2 (rw (==_self i, hc)) (rw (==_self i, hp)) (rw (==_self i, hd))
        (rw (==_self i, hb)) in
    rw (hf, ==_self i, hm, hs, p)

-- Slot `dir` holds the inode, is referred to once and is a directory on which nothing is mounted.
pub record IsMountPoint (d nr dir : ℕ) (s : Vfs) : Type 0 where
  pub holds : find_inode nr_inode 0 d nr s.table ≡ some dir
  pub on_device : (s.table dir).inode.i_dev ≡ d
  pub once : (s.table dir).i_count ≡ 1
  pub no_pipe : (s.table dir).i_pipe ≡ false
  pub directory : is_dir (s.table dir).inode.stored.i_mode ≡ true
  pub bare : mounted_on dir s.super_block ≡ none

dir-blk : (m : ℕ) → is_dir m ≡ true → is_blk m ≡ false
dir-blk m h = ground arith

mounting-dev :
    (dir j : ℕ) (t : ℕ → Slot) → (update_at dir mounting t j).inode.i_dev ≡ (t j).inode.i_dev
mounting-dev dir j t = elim (Bool-cases (dir == j)) [
  | inl e ↦ rw (e) (ap (λ k. (t k).inode.i_dev) ((==_iff dir j).0 e))
  | inr e ↦ rw (e)
]

mounting-num :
    (dir j : ℕ) (t : ℕ → Slot) → (update_at dir mounting t j).inode.i_num ≡ (t j).inode.i_num
mounting-num dir j t = elim (Bool-cases (dir == j)) [
  | inl e ↦ rw (e) (ap (λ k. (t k).inode.i_num) ((==_iff dir j).0 e))
  | inr e ↦ rw (e)
]

find_inode-mounting :
    (n k d nr dir : ℕ) (t : ℕ → Slot)
    → find_inode n k d nr (update_at dir mounting t) ≡ find_inode n k d nr t
unfolding find_inode
find_inode-mounting zero k d nr dir t = refl
find_inode-mounting (suc n) k d nr dir t =
    rw (mounting-dev dir k t, mounting-num dir k t, find_inode-mounting n (suc k) d nr dir t)

-- The device is mounted; iget() then goes on as for the root of the device, with the reference to the
-- mount point given back, and all other slots are as they were but for the empty slot e.
abbrev pub Crosses : ℕ → ℕ → ℕ → ℕ → ℕ → Vfs → Type 0
Crosses d nr dir dev e s =
    (s1 : Vfs) × (mount_at dir dev s ≡ some (tt, s1))
    × (s2 : Vfs) × (iget d nr s1 ≡ iget_loop nr_super dev root_ino e s2)
    × ((s2.table dir).i_count ≡ 1)
    × ((j : ℕ) → j ≢ dir → j ≢ e → s2.table j ≡ s.table j)

-- If a device that has a super block is mounted on a mount point, iget() of the inode of that mount point
-- leads to the root of the device, see `Crosses`. The slot e is the one that the scan for an empty slot
-- finds after the mounting; it is clean and not the mount point.
pub mount_at-Crosses :
    (d nr dir dev l e : ℕ) (s : Vfs) (v : Volume)
    → d ≢ 0
    → IsMountPoint d nr dir s
    → get_super dev s.super_block ≡ some v
    → scan_free nr_inode s.last_inode none (update_at dir mounting s.table) ≡ (l, some e)
    → (s.table e).inode.i_dirt ≡ false
    → dir ≢ e
    → Crosses d nr dir dev e s
unfolding iget ◌>>=◌
mount_at-Crosses d nr dir dev l e s v hd m hv hf hc ne =
    let t1 = update_at dir mounting s.table in
    let w : Volume = record v { s_imount = some dir } in
    let s1 : Vfs = record s { super_block = put_volume dev w s.super_block; table = t1 } in
    let t2 = update_at e (wiped 1) t1 in
    let s' : Vfs = record s1 { last_inode = l; table = t2 } in
    let te : t2 dir ≡ mounting (s.table dir) = rw (==_ne e dir (λ p. ne (sym p)), ==_self dir) in
    let found =
      find_inode-wiped nr_inode 0 d nr dir e t1 hd ne
        (find_inode-mounting nr_inode 0 d nr dir s.table ∙ m.holds) in
    let f = get_super-find_super dev v s.super_block hv in
    let on =
      mounted_on-put_volume dir dev w v s.super_block (find_super-dev dev v s.super_block f) refl f
        m.bare in
    let clean : (t1 e).inode.i_dirt ≡ false = rw (==_ne dir e ne, hc) in
    let crosses =
      iget_loop-crosses nr_super d nr dir e dev s' found (ap (λ x. x.i_mount) te) on
        (ap (λ x. x.i_count) te ∙ m.once) (ap (λ x. x.i_pipe) te ∙ m.no_pipe)
        (ap (λ x. x.inode.i_dev == 0) te ∙ ap (λ n. n == 0) m.on_device ∙ ==_ne d 0 hd)
        (ap (λ x. is_blk x.inode.stored.i_mode) te ∙ dir-blk _ m.directory) in
    (
      s1,
      mount_at-mounts dir dev s v hv,
      record s' { table = update_at dir ref_down (update_at dir ref_up t2) },
      rw (==_ne d 0 hd, get_empty_inode-clean l e s1 hf clean, crosses),
      rw (==_self dir, ==_ne e dir (λ p. ne (sym p)), m.once),
      λ j p q. rw (==_ne dir j (λ r. p (sym r)), ==_ne e j (λ r. q (sym r))),
    )
