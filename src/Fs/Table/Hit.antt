-- ===== src/Fs/Table/Hit.antt =====
-- iget() of an inode that is in the table.
use rv.Common.{
  ℕ, zero, suc, ◌≡◌, ◌≢◌, refl, sym, ap, ◌∙◌, arith, Option, none, some, Bool, true, false, ◌==◌,
  ◌&&◌, if◌then◌else◌, Bool-cases, inl, inr, ==_self, ==_ne, ==_iff, some-inj,
}
use rv.Fs.Vfs.{
  Vfs, Slot, nr_inode, nr_super, pure, gets, if_null, ◌>>=◌, update, update_at, slot, ref_up,
  ref_down, cleared,
}
use rv.Fs.Table.{
  scan_free, next_free, clean_slot, wiped, get_empty_inode, iput, find_inode, iget_loop, iget,
}

abbrev with_table : Vfs → (ℕ → Slot) → Vfs
with_table s t = record s { table = t }

iput-unused :
    (e : ℕ) (s : Vfs)
    → (s.table e).i_count ≡ 1
    → (s.table e).i_pipe ≡ false
    → (s.table e).inode.i_dev ≡ 0
    → iput e s ≡ some (tt, with_table s (update_at e ref_down s.table))
unfolding iput slot ◌>>=◌ update
iput-unused e s hc hp hd = rw (hc, hp, hd)

pub get_empty_inode-clean :
    (l e : ℕ) (s : Vfs)
    → scan_free nr_inode s.last_inode none s.table ≡ (l, some e)
    → (s.table e).inode.i_dirt ≡ false
    → get_empty_inode s
      ≡ some (e, record s { last_inode = l; table = update_at e (wiped 1) s.table })
unfolding get_empty_inode next_free clean_slot slot ◌>>=◌ update pure if_null
get_empty_inode-clean l e s hf hd = rw (hf, hd)

iget_loop-found :
    (n dev nr i e : ℕ) (s : Vfs)
    → find_inode nr_inode 0 dev nr s.table ≡ some i
    → (s.table i).i_mount ≡ false
    → i ≢ e
    → (s.table e).i_count ≡ 1
    → (s.table e).i_pipe ≡ false
    → (s.table e).inode.i_dev ≡ 0
    → iget_loop (suc n) dev nr e s
      ≡ some (i, with_table s (update_at e ref_down (update_at i ref_up s.table)))
unfolding iget_loop slot ◌>>=◌ update pure if_null gets
iget_loop-found n dev nr i e s hf hm ne hc hp hd =
    let s2 = with_table s (update_at i ref_up s.table) in
    let p =
      iput-unused e s2 (rw (==_ne i e ne, hc)) (rw (==_ne i e ne, hp)) (rw (==_ne i e ne, hd)) in
    rw (hf, ==_self i, hm, p)

abbrev holds : ℕ → ℕ → (ℕ → Slot) → ℕ → Bool
holds dev nr t i = (t i).inode.i_dev == dev && (t i).inode.i_num == nr

-- The slot that is wiped does not hold the inode any more, and the others hold what they held.
holds-wiped :
    (dev nr e j : ℕ) (t : ℕ → Slot)
    → dev ≢ 0
    → j ≢ e
    → holds dev nr (update_at e (wiped 1) t) j ≡ holds dev nr t j
holds-wiped dev nr e j t hd hj = rw (==_ne e j (λ p. hj (sym p)))

holds-wiped_self :
    (dev nr e : ℕ) (t : ℕ → Slot) → dev ≢ 0 → holds dev nr (update_at e (wiped 1) t) e ≡ false
holds-wiped_self dev nr e t hd = rw (==_self e, ==_ne 0 dev (λ p. hd (sym p)))

kept :
    (b : Bool) (k i : ℕ) (r r' : Option ℕ)
    → (r ≡ some i → r' ≡ some i)
    → (if b then some k else r) ≡ some i
    → (if b then some k else r') ≡ some i
kept true k i r r' f h = h
kept false k i r r' f h = f h

passed :
    (b : Bool) (k i : ℕ) (r r' : Option ℕ)
    → k ≢ i
    → (r ≡ some i → r' ≡ some i)
    → (if b then some k else r) ≡ some i
    → r' ≡ some i
passed true k i r r' ne f h = absurd (ne (some-inj h))
passed false k i r r' ne f h = f h

pub find_inode-wiped :
    (n k dev nr i e : ℕ) (t : ℕ → Slot)
    → dev ≢ 0
    → i ≢ e
    → find_inode n k dev nr t ≡ some i
    → find_inode n k dev nr (update_at e (wiped 1) t) ≡ some i
unfolding find_inode
find_inode-wiped zero k dev nr i e t hd ne h = h
find_inode-wiped (suc n) k dev nr i e t hd ne h =
    let rest = find_inode-wiped n (suc k) dev nr i e t hd ne in
    elim (Bool-cases (k == e)) [
      | inl p ↦
          let q = (==_iff k e).0 p in
          rw (ap (holds dev nr (update_at e (wiped 1) t)) q, holds-wiped_self dev nr e t hd)
            (passed (holds dev nr t k) k i _ _ (λ r. ne (sym r ∙ q)) rest h)
      | inr p ↦
          rw (holds-wiped dev nr e k t hd (λ q. ground arith))
            (kept (holds dev nr t k) k i _ _ rest h)
    ]

-- The call returns slot i, which has one reference more; slot e is empty, and all else is as it was.
abbrev pub IsHit : ℕ → ℕ → Vfs → Option (ℕ × Vfs) → Type 0
IsHit i e s r =
    (s' : Vfs) × (r ≡ some (i, s'))
    × (s'.table i ≡ ref_up (s.table i))
    × (s'.table e ≡ cleared)
    × ((j : ℕ) → j ≢ i → j ≢ e → s'.table j ≡ s.table j)
    × (s'.super_block ≡ s.super_block)
    × (s'.freed ≡ s.freed)

-- If slot i is the first that holds an inode, nothing is mounted on it, and the slot e that the scan for
-- an empty one finds is another and clean, then iget() of the inode returns, and it returns slot i:
-- `IsHit` says what becomes of the state.
pub iget-IsHit :
    (dev nr i l e : ℕ) (s : Vfs)
    → dev ≢ 0
    → find_inode nr_inode 0 dev nr s.table ≡ some i
    → (s.table i).i_mount ≡ false
    → scan_free nr_inode s.last_inode none s.table ≡ (l, some e)
    → (s.table e).inode.i_dirt ≡ false
    → i ≢ e
    → IsHit i e s (iget dev nr s)
unfolding iget ◌>>=◌
iget-IsHit dev nr i l e s hd hi hm hf hc ne =
    let t = update_at e (wiped 1) s.table in
    let s1 : Vfs = record s { last_inode = l; table = t } in
    let te : t e ≡ wiped 1 (s.table e) = rw (==_self e) in
    let ti : t i ≡ s.table i = rw (==_ne e i (λ p. ne (sym p))) in
    let found =
      iget_loop-found nr_super dev nr i e s1
        (find_inode-wiped nr_inode 0 dev nr i e s.table hd ne hi) (ap (λ x. x.i_mount) ti ∙ hm) ne
        (ap (λ x. x.i_count) te) (ap (λ x. x.i_pipe) te) (ap (λ x. x.inode.i_dev) te) in
    (
      with_table s1 (update_at e ref_down (update_at i ref_up t)),
      rw (==_ne dev 0 hd, get_empty_inode-clean l e s hf hc, found),
      rw (==_ne e i (λ p. ne (sym p)), ==_self i),
      rw (==_self e, ==_ne i e ne),
      λ j p q. rw (==_ne e j (λ r. q (sym r)), ==_ne i j (λ r. p (sym r))),
      refl,
      refl,
    )
