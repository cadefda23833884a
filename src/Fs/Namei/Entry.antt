-- ===== src/Fs/Namei/Entry.antt =====
-- fs/namei.c, add_entry(): the entry that it gives, and why it gives none.
use rv.Common.{
  ℕ, zero, suc, ◌+◌, ◌*◌, ◌/◌, ◌≤◌, ◌<◌, ◌≡◌, ◌≢◌, refl, ◌⊎◌, inl, inr, none, some, Bool, true,
  false, leb, ltb, ltb→lt, leb→le, ◌==◌, not, ◌||◌, if◌then◌else◌, List, [], ◌∷◌, get_or, take,
  length, arith, Bool-cases, Option-cases,
}
use rv.Fs.Inode.{Disk, create_block}
use rv.Fs.FileDev.{Node}
use rv.Fs.FileDev.Bytes.{AreBytes, take-AreBytes}
use rv.Fs.Namei.{
  match, inode_at, put_inode, Added, added, no_entry, faults_in_add, panics_in_add, runs_out,
  at_end, with_name, add_loop, add_entry, dir_entries_per_block, name_len,
}
use rv.Fs.Namei.Match.{match-put, length-take_le}

-- The search of add_entry() in the directory n comes to entry i, which is entry j of block nr, or behind
-- it for j = 64, with the inode and the disk in m: every entry before is inside the directory and in
-- use, and each block after the first is one that create_block() gives, not 0 and readable.
pub data Reaches (n : Node) : ℕ → ℕ → ℕ → Node → Type 0 where
  first : Reaches n 0 (get_or n.zones 0 0) 0 n
  used :
      {i nr j : ℕ} {m : Node}
      → Reaches n i nr j m
      → j < dir_entries_per_block
      → i * 16 < m.i_size
      → inode_at m.disk nr j ≢ 0
      → Reaches n (suc i) nr (suc j) m
  block :
      {i nr j : ℕ} {m : Node} (b : ℕ) (zones : List ℕ) (d : Disk)
      → Reaches n i nr j m
      → dir_entries_per_block ≤ j
      → create_block m.zones (i / dir_entries_per_block) m.disk ≡ some ((b, zones), d)
      → b ≢ 0
      → d.readable b ≡ true
      → Reaches n i b 0 (record m { zones = zones; disk = d })

-- The search comes to the end of a block, where create_block() does what R says.
abbrev pub AtBlock : Node → (ℕ → Node → Type 0) → Type 0
AtBlock n R = (i nr j : ℕ) × (m : Node) × Reaches n i nr j m × (dir_entries_per_block ≤ j) × R i m

-- The directory has no name to add, or no first block.
abbrev pub IsHopeless : List ℕ → Node → Type 0
IsHopeless name n =
    (name ≡ []) ⊎ (get_or n.zones 0 0 ≡ 0) ⊎ (n.disk.readable (get_or n.zones 0 0) ≡ false)

-- The first entry that is free, or the one at the end, takes the name.
abbrev pub IsFree : List ℕ → Node → ℕ → ℕ → Node → Type 0
IsFree name n nr j n' =
    (i : ℕ) × (m : Node) × Reaches n i nr j m
    × (j < dir_entries_per_block)
    × (((m.i_size ≤ i * 16) × (n' ≡ with_name name nr j (at_end i nr j m)))
        ⊎ ((i * 16 < m.i_size) × (inode_at m.disk nr j ≡ 0) × (n' ≡ with_name name nr j m)))

-- What add_entry() of a name comes to, where the caller stores the inode v in the entry that it gets:
-- the first entry that is free, which then matches the name, in a directory that is as long as it was
-- or has grown for it; or a failure with its reason.
abbrev pub IsAdded : List ℕ → ℕ → Node → Added → Type 0
IsAdded name v n (added nr j n') =
    IsFree name n nr j n'
    × (match name (put_inode v nr j n'.disk) nr j ≡ true)
    × ((n'.i_size ≡ n.i_size) ⊎ ((n.i_size < n'.i_size) × (n'.i_size < n.i_size + 32)))
IsAdded name v n (no_entry n') =
    ((n' ≡ n) × IsHopeless name n)
    ⊎ AtBlock n (λ i m.
      (zones : List ℕ) × (d : Disk) × (create_block m.zones (i / dir_entries_per_block) m.disk
        ≡ some ((0, zones), d))
      × (n' ≡ record m { zones = zones; disk = d }))
IsAdded name v n faults_in_add = AtBlock n (λ i m.
    (b : ℕ) × (zones : List ℕ) × (d : Disk) × (create_block m.zones (i / dir_entries_per_block)
        m.disk
      ≡ some ((b, zones), d))
    × (b ≢ 0)
    × (d.readable b ≡ false))
IsAdded name v n panics_in_add =
    AtBlock n (λ i m. create_block m.zones (i / dir_entries_per_block) m.disk ≡ none)
IsAdded name v n runs_out = ⊥

module _ (name : List ℕ) (v : ℕ) (n0 : Node) (h : AreBytes name) (le : length name ≤ name_len)
    (ne : v ≢ 0) where
  step :
      (fuel i nr j : ℕ) (n : Node)
      → Reaches n0 i nr j n
      → n.i_size ≡ n0.i_size
      → i * 16 < n0.i_size + 16
      → j < dir_entries_per_block
      → (suc i * 16 < n0.i_size + 16
          → Reaches n0 (suc i) nr (suc j) n
          → IsAdded name v n0 (add_loop fuel name (suc i) nr (suc j) n))
      → IsAdded name v n0 (
          if leb n.i_size (i * 16)
          then added nr j (with_name name nr j (at_end i nr j n))
          else if inode_at n.disk nr j == 0
          then added nr j (with_name name nr j n)
          else add_loop fuel name (suc i) nr (suc j) n)
  step fuel i nr j n r e lo lj rest = elim (Bool-cases (leb n.i_size (i * 16))) [
    | inl end ↦
        let m = leb→le n.i_size (i * 16) end in
        rw end (
          (i, n, r, lj, inl (m, refl)),
          match-put name v nr j (put_inode 0 nr j n.disk) h le ne,
          inr (omega (arith, m, e), omega (arith, lo)),
        )
    | inr inner ↦
        let before : i * 16 < n.i_size = ground arith in
        elim (Bool-cases (inode_at n.disk nr j == 0)) [
          | inl free ↦
              rw (inner, free)
                (
                  (i, n, r, lj, inr (before, ground arith, refl)),
                  match-put name v nr j n.disk h le ne,
                  inl e,
                )
          | inr taken ↦
              rw (inner, taken)
                (rest (omega (arith, before, e)) (used r lj before (λ q. ground arith)))
        ]
  ]

  add_loop-IsAdded :
      (fuel i nr j : ℕ) (n : Node)
      → Reaches n0 i nr j n
      → n.i_size ≡ n0.i_size
      → i * 16 < n0.i_size + 16
      → n0.i_size / 16 + 2 ≤ i + fuel
      → IsAdded name v n0 (add_loop fuel name i nr j n)
  unfolding add_loop
  add_loop-IsAdded zero i nr j n r e lo lf = omega arith
  add_loop-IsAdded (suc fuel) i nr j n r e lo lf = elim (Bool-cases (ltb j dir_entries_per_block)) [
    | inl inside ↦
        rw (inside, add_loop)
          (step fuel i nr j n r e lo (ltb→lt j dir_entries_per_block inside)
            (λ lo' r'. add_loop-IsAdded fuel (suc i) nr (suc j) n r' e lo' (omega (arith, lf))))
    | inr past ↦
        let full : dir_entries_per_block ≤ j = ground arith in
        elim (Option-cases (create_block n.zones (i / dir_entries_per_block) n.disk)) [
          | inl big ↦ rw (past, big, add_loop) (i, nr, j, n, r, full, big)
          | inr (((b, zones), d), z) ↦ elim (Bool-cases (b == 0)) [
            | inl nothing ↦
                let q : b ≡ 0 = ground arith in
                rw (past, z, nothing, add_loop)
                  (inr (i, nr, j, n, r, full, (zones, d, rw q at z, refl)))
            | inr got ↦ elim (Bool-cases (d.readable b)) [
              | inr lost ↦
                  rw (past, z, got, lost, add_loop)
                    (i, nr, j, n, r, full, (b, zones, d, z, (λ q. ground arith), lost))
              | inl good ↦
                  let n' : Node = record n { zones = zones; disk = d } in
                  let r' : Reaches n0 i b 0 n' =
                    block b zones d r full z (λ q. ground arith) good in
                  rw (past, z, got, good, add_loop)
                    (step fuel i b 0 n' r' e lo (omega arith) (λ lo' r''.
                      add_loop-IsAdded fuel (suc i) b 1 n' r'' e lo' (omega (arith, lf))))
            ]
          ]
        ]
  ]

unnamed : (name : List ℕ) → (length name == 0) ≡ true → name ≡ []
unnamed [] e = refl
unnamed (c ∷ name) e = absurd (ground arith)

no_block : (z : ℕ) (r : Bool) → (z == 0 || not r) ≡ true → (z ≡ 0) ⊎ (r ≡ false)
no_block z true e = inl (ground arith)
no_block z false e = inr refl

-- add_entry() of a name of bytes finishes. It returns the first entry of the directory that is free, or
-- else the one at its end, which then matches the first 14 characters of the name once an inode is
-- stored in it; all entries before are in use, and the directory keeps its size or grows by the entry.
-- It fails only with no name or no first block, which changes nothing, or where all entries are in use
-- up to a block that create_block() does not give; it faults only at such a block that cannot be
-- read, and panics only where create_block() does so there.
pub add_entry-IsAdded :
    (name : List ℕ) (v : ℕ) (n : Node)
    → AreBytes name
    → v ≢ 0
    → IsAdded (take name_len name) v n (add_entry name n)
unfolding add_entry
add_entry-IsAdded name v n h ne = elim (Bool-cases (length (take name_len name) == 0)) [
  | inl empty ↦ rw (empty, add_entry) (inl (refl, inl (unnamed (take name_len name) empty)))
  | inr named ↦
      elim (Bool-cases (get_or n.zones 0 0 == 0 || not (n.disk.readable (get_or n.zones 0 0)))) [
        | inl lost ↦
            rw (named, lost, add_entry)
              (inl (
                refl,
                inr (no_block (get_or n.zones 0 0) (n.disk.readable (get_or n.zones 0 0)) lost),
              ))
        | inr good ↦
            rw (named, good, add_entry)
              (add_loop-IsAdded (take name_len name) v n (take-AreBytes name_len name h)
                (length-take_le name_len name) ne (n.i_size / 16 + 2) 0 (get_or n.zones 0 0) 0 n
                first refl (omega arith) (omega arith))
      ]
]
