-- ===== src/Mm/Tables/Map.antt =====
-- mm/memory.c: a page that put_page() maps is where translate_user() finds it.
use rv.Common.{
  ℕ, ◌+◌, ◌%◌, ◌^◌, ◌≤◌, ◌<◌, ◌≡◌, ◌≢◌, inl, inr, refl, true, false, ltb, leb, ◌==◌, ◌||◌,
  if◌then◌else◌, arith, Bool-cases, ==_ne, length, sym, ◌∙◌, subst, ==_self,
}
use native.Mathlib.Decide.{dec_lt}
use mathlib.Core.Path.{subst₂}
use rv.Mm.State.{
  Mem, M, done, pure, ◌>>=◌, ◌>>◌, write, store, ram_base, ram_end, user_limit, paging_pages, frame,
  count, pte_v, pte_u, user_rwx, pte_phys, phys_ppn, Apart, >>=-done, >>=-of-done, pte-fields,
}
use rv.Mm.Frames.{get_free_page}
use rv.Mm.Frames.Alloc.{Takes, get_free_page-Takes}
use rv.Mm.Tables.{
  dir_slot, table_slot, pte_lookup, table_for, put_page_pgdir, translate_user, translate_entry,
}

-- A page directory in a frame that is in use. Its entry for the address, if it has one, points to a
-- table in RAM that is not the directory itself.
pub record IsDirectory (pgdir address : ℕ) (m : Mem) : Type 0 where
  pub at : ℕ
  pub is_frame : pgdir ≡ frame at
  pub in_use : count m at ≢ 0
  pub table :
      pte_v (m.word (dir_slot pgdir address)) ≡ true
      → (ram_base ≤ pte_phys (m.word (dir_slot pgdir address)))
        × Apart (pte_phys (m.word (dir_slot pgdir address))) pgdir

-- What table_for() leaves when it does not fail.
record HasTable (pgdir address dir : ℕ) (m : Mem) : Type 0 where
  valid : pte_v dir ≡ true
  written : m.word (dir_slot pgdir address) ≡ dir
  in_ram : ram_base ≤ pte_phys dir
  apart : Apart (pte_phys dir) pgdir

frames-Apart : (i j : ℕ) → i ≢ j → Apart (frame i) (frame j)
frames-Apart i j ne = elim (dec_lt i j) [ yes h ↦ inl (omega arith) | no h ↦ inr (omega arith) ]

new_table-HasTable :
    (pgdir address i : ℕ) (m n : Mem)
    → length m.mem_map ≡ paging_pages
    → i < length m.mem_map
    → count m i ≡ 0
    → IsDirectory pgdir address m
    → HasTable pgdir address
        (phys_ppn (frame i) + 1)
        (store n (dir_slot pgdir address) (phys_ppn (frame i) + 1))
new_table-HasTable pgdir address i m n len lt free d =
    let (p, v, w, u) = pte-fields (frame i) 1 (omega arith) (omega arith) (omega arith) in
    let ne : i ≢ d.at = λ e. d.in_use (rw (← e) free) in
    record {
      valid = v;
      written = ground arith;
      in_ram = omega arith;
      apart = rw (p, d.is_frame) (frames-Apart i d.at ne);
    }

-- The end of table_for() once it has a page for the table.
abbrev install : ℕ → ℕ → ℕ → M ℕ
install pgdir address tmp =
    if tmp == 0
    then pure 0
    else (do write (dir_slot pgdir address) (phys_ppn tmp + 1); pure (phys_ppn tmp + 1))

table_for-old :
    (pgdir address : ℕ) (m : Mem)
    → pte_v (m.word (dir_slot pgdir address)) ≡ true
    → table_for pgdir address m ≡ done (m.word (dir_slot pgdir address)) m
unfolding table_for
table_for-old pgdir address m v = rw v

table_for-new :
    (pgdir address : ℕ) (m : Mem)
    → pte_v (m.word (dir_slot pgdir address)) ≡ false
    → table_for pgdir address m ≡ (get_free_page >>= install pgdir address) m
unfolding table_for
table_for-new pgdir address m v = rw v

installed :
    (pgdir address dir i : ℕ) (m k n : Mem)
    → length m.mem_map ≡ paging_pages
    → IsDirectory pgdir address m
    → dir ≢ 0
    → Takes m (done i k)
    → install pgdir address i k ≡ done dir n
    → HasTable pgdir address dir n
installed pgdir address dir tmp m k n len d nz (inl (q, u)) e =
    let z : tmp ≡ 0 = cc in absurd (nz (sym (cc (rw z at e))))
installed pgdir address dir tmp m k n len d nz (inr (i, k', q, l, c, low, s, w, o)) e =
    let z : tmp ≡ frame i = cc in
    let e' = rw (z, ==_ne (frame i) 0 (omega arith)) at e in
    let a : phys_ppn (frame i) + 1 ≡ dir = cc e' in
    let b : store k (dir_slot pgdir address) (phys_ppn (frame i) + 1) ≡ n = cc e' in
    subst₂ (HasTable pgdir address) a b (new_table-HasTable pgdir address i m k len l c d)

table_for-HasTable :
    (pgdir address dir : ℕ) (m n : Mem)
    → length m.mem_map ≡ paging_pages
    → IsDirectory pgdir address m
    → table_for pgdir address m ≡ done dir n
    → dir ≢ 0
    → HasTable pgdir address dir n
table_for-HasTable pgdir address dir m n len d e nz =
    elim (Bool-cases (pte_v (m.word (dir_slot pgdir address)))) [
      | inl v ↦
          let q = sym (table_for-old pgdir address m v) ∙ e in
          let a : m.word (dir_slot pgdir address) ≡ dir = cc q in
          let b : m ≡ n = cc q in
          subst₂ (HasTable pgdir address) a b
            (record { valid = v; written = refl; in_ram = (d.table v).0; apart = (d.table v).1 })
      | inr v ↦
          let (tmp, k, t, f) =
            >>=-done get_free_page (install pgdir address) m
              (sym (table_for-new pgdir address m v) ∙ e) in
          installed pgdir address dir tmp m k n len d nz (rw t at (get_free_page-Takes m)) f
    ]

lookup-found :
    (pgdir address dir : ℕ) (m : Mem)
    → pgdir ≢ 0
    → m.word (dir_slot pgdir address) ≡ dir
    → pte_v dir ≡ true
    → pte_lookup pgdir address m ≡ done (table_slot (pte_phys dir) address) m
unfolding pte_lookup
lookup-found pgdir address dir m nz r v = rw (==_ne pgdir 0 nz, r, v)

translate-found :
    (pgdir address slot pte : ℕ) (m : Mem)
    → pgdir ≢ 0
    → address < user_limit
    → pte_lookup pgdir address m ≡ done slot m
    → slot ≢ 0
    → m.word slot ≡ pte
    → pte_v pte ≡ true
    → pte_u pte ≡ true
    → translate_user pgdir address m ≡ done (pte_phys pte + address % 4096) m
unfolding translate_user translate_entry
translate-found pgdir address slot pte m nz low l s w v u =
    let below : leb user_limit address ≡ false = ground arith in
    rw (==_ne pgdir 0 nz, below)
      (>>=-of-done (pte_lookup pgdir address) (translate_entry address) m l
        ∙ rw (==_ne slot 0 s, w, v, u))

-- The entry that put_page_pgdir() writes is the one that translate_user() reads.
translate-written :
    (pgdir page address dir : ℕ) (n : Mem)
    → pgdir ≢ 0
    → address < user_limit
    → page % 4096 ≡ 0
    → page < 2 ^ 32
    → HasTable pgdir address dir n
    → let m = store n (table_slot (pte_phys dir) address) (phys_ppn page + user_rwx) in
      translate_user pgdir address m ≡ done (page + address % 4096) m
translate-written pgdir page address dir n nz low al small t =
    let m : Mem = store n (table_slot (pte_phys dir) address) (phys_ppn page + user_rwx) in
    let (p, v, w, u) = pte-fields page user_rwx al small (omega arith) in
    let r : m.word (dir_slot pgdir address) ≡ dir =
      rw
        (==_ne (table_slot (pte_phys dir) address) (dir_slot pgdir address)
          (away (pte_phys dir) pgdir address low t.apart))
        t.written in
    let slot : ℕ = table_slot (pte_phys dir) address in
    let found =
      translate-found pgdir address slot (phys_ppn page + user_rwx) m nz low
        (lookup-found pgdir address dir m nz r t.valid) (high (pte_phys dir) address t.in_ram)
        (rw (==_self slot)) v u in
    rw p at found
  where
    away :
        (table pgdir address : ℕ)
        → address < user_limit
        → Apart table pgdir
        → table_slot table address ≢ dir_slot pgdir address
    away table pgdir address low apart e = omega arith

    high : (table address : ℕ) → ram_base ≤ table → table_slot table address ≢ 0
    high table address h e = omega arith

-- The end of put_page_pgdir() once there is a table.
abbrev enter : ℕ → ℕ → ℕ → ℕ → M ℕ
enter pgdir page address dir =
    if dir == 0
    then pure 0
    else (do write (table_slot (pte_phys dir) address) (phys_ppn page + user_rwx); pure page)

-- A page in RAM that put_page_pgdir() maps at a user address is afterwards the page at which
-- translate_user() finds that address, at the same offset.
pub translate_user-put_page :
    (pgdir page address : ℕ) (m m' : Mem)
    → length m.mem_map ≡ paging_pages
    → IsDirectory pgdir address m
    → page % 4096 ≡ 0
    → page ≢ 0
    → put_page_pgdir pgdir page address m ≡ done page m'
    → translate_user pgdir address m' ≡ done (page + address % 4096) m'
unfolding put_page_pgdir
translate_user-put_page pgdir page address m m' len d al nz e =
    elim (Bool-cases (leb user_limit address)) [
      | inl z ↦ absurd (nz (sym (cc (rw z at e))))
      | inr z ↦ elim (Bool-cases (ltb page ram_base || leb ram_end page)) [
        | inl y ↦ absurd (nz (sym (cc (rw (z, y) at e))))
        | inr y ↦
            let (dir, n, t, f) =
              >>=-done (table_for pgdir address) (enter pgdir page address) m (rw (z, y) at e) in
            mapped dir n t f (ground arith) (ground arith)
      ]
    ]
  where
    mapped :
        (dir : ℕ) (n : Mem)
        → table_for pgdir address m ≡ done dir n
        → enter pgdir page address dir n ≡ done page m'
        → address < user_limit
        → page < 2 ^ 32
        → translate_user pgdir address m' ≡ done (page + address % 4096) m'
    mapped dir n t f low small = elim (Bool-cases (dir == 0)) [
      | inl y ↦ absurd (nz (sym (cc (rw y at f))))
      | inr y ↦
          let dnz : dir ≢ 0 = ground arith in
          let q : store n (table_slot (pte_phys dir) address) (phys_ppn page + user_rwx) ≡ m' =
            cc (rw y at f) in
          subst (λ m. translate_user pgdir address m ≡ done (page + address % 4096) m) q
            (translate-written pgdir page address dir n (rw d.is_frame (omega arith)) low al small
              (table_for-HasTable pgdir address dir m n len d t dnz))
    ]
