-- ===== src/Fs/FileDev/Content.antt =====
-- fs/file_dev.c: file_read() and what stands in the file.
use rv.Common.{
  ℕ, zero, suc, ◌+◌, ◌-◌, ◌*◌, ◌/◌, ◌%◌, ◌≤◌, ◌<◌, ◌≡◌, ◌≢◌, refl, subst, ap, ◌∙◌, ◌⊎◌, inl, inr,
  Option, none, some, Bool, true, false, ltb, ◌==◌, not, ◌&&◌, if◌then◌else◌, List, [], ◌∷◌, ◌++◌,
  length, length-append, length-replicate, replicate, arith, Bool-cases, Option-cases,
}
use rv.Fs.Inode.{Disk}
use rv.Fs.FileDev.{
  block_size, byte_at, bytes_from, zone, chars_of, chars_read, append_to, read_loop, file_read,
  FileRead, returns_bytes, fails, panics,
}

tabulated : (ℕ → ℕ) → ℕ → ℕ → List ℕ
tabulated f o zero = []
tabulated f o (suc n) = f o ∷ tabulated f (suc o) n

bytes_from-tabulated : (d : Disk) (nr o n : ℕ) → bytes_from d nr o n ≡ tabulated (byte_at d nr) o n
unfolding bytes_from tabulated
bytes_from-tabulated d nr o zero = refl
bytes_from-tabulated d nr o (suc n) =
    ap (λ l. byte_at d nr o ∷ l) (bytes_from-tabulated d nr (suc o) n)

replicate-tabulated : (o n : ℕ) → replicate n 0 ≡ tabulated (λ _. 0) o n
unfolding tabulated
replicate-tabulated o zero = refl
replicate-tabulated o (suc n) = ap (λ l. 0 ∷ l) (replicate-tabulated (suc o) n)

readable-good : (r : Bool) → (true && not r) ≡ false → r ≡ true
readable-good true h = refl
readable-good false h = cc

both-false : (a b : Bool) → (not a && not b) ≡ true → (a ≡ false) × (b ≡ false)
both-false true b h = cc
both-false false true h = cc
both-false false false h = (refl, refl)

pub chars_of-fits :
    (pos left : ℕ)
    → left ≢ 0
    → (chars_of pos left ≤ left)
      × (0 < chars_of pos left)
      × (pos % block_size + chars_of pos left ≤ block_size)
chars_of-fits pos left ne = elim (Bool-cases (ltb (block_size - pos % block_size) left)) [
  | inl e ↦ rw e (ground arith, ground arith, ground arith)
  | inr e ↦ rw e (ground arith, ground arith, ground arith)
]

length-bytes_from : (d : Disk) (nr p n : ℕ) → length (bytes_from d nr p n) ≡ n
unfolding bytes_from
length-bytes_from d nr p zero = refl
length-bytes_from d nr p (suc n) = ap suc (length-bytes_from d nr (suc p) n)

length-chars_read : (d : Disk) (nr pos n : ℕ) → length (chars_read d nr pos n) ≡ n
length-chars_read d nr pos n = elim (Bool-cases (nr == 0)) [
  | inl e ↦ rw e (length-replicate n 0)
  | inr e ↦ rw e (length-bytes_from d nr (pos % block_size) n)
]

module _ (zones : List ℕ) (d : Disk) where
  -- The byte at a position of the file: 0 in a hole, and none in a block that cannot be read.
  abbrev pub content : ℕ → Option ℕ
  content p = elim (zone zones (p / block_size) d) [
    | none ↦ none
    | some nr ↦
        if nr == 0
        then some 0
        else if d.readable nr
        then some (byte_at d nr (p % block_size))
        else none
  ]

  -- The bytes are those of the file from p on.
  abbrev pub IsContent : ℕ → List ℕ → Type 0
  IsContent p [] = Unit
  IsContent p (b ∷ bs) = (content p ≡ some b) × IsContent (suc p) bs

  IsContent-append :
      (p : ℕ) (a b : List ℕ) → IsContent p a → IsContent (p + length a) b → IsContent p (a ++ b)
  IsContent-append p [] b h k = subst (λ q. IsContent q b) (omega arith) k
  IsContent-append p (x ∷ a) b h k =
      (h.0, IsContent-append (suc p) a b h.1 (subst (λ q. IsContent q b) (omega arith) k))

  block-IsContent :
      (f : ℕ → ℕ) (k o n : ℕ) (bs : List ℕ)
      → ((q : ℕ) → q / block_size ≡ k → content q ≡ some (f (q % block_size)))
      → o + n ≤ block_size
      → bs ≡ tabulated f o n
      → IsContent (k * block_size + o) bs
  unfolding tabulated
  block-IsContent f k o zero bs all le e = rw e tt
  block-IsContent f k o (suc n) bs all le e =
      let q : (k * block_size + o) / block_size ≡ k = omega (arith, le) in
      let r : (k * block_size + o) % block_size ≡ o = omega (arith, le) in
      rw e (
        subst (λ v. content (k * block_size + o) ≡ some (f v)) r (all (k * block_size + o) q),
        subst (λ v. IsContent v (tabulated f (suc o) n)) (omega arith)
            (block-IsContent f k (suc o) n (tabulated f (suc o) n) all (omega (arith, le)) refl),
      )

  content-hole : (q : ℕ) → zone zones (q / block_size) d ≡ some 0 → content q ≡ some 0
  content-hole q z = rw (z, content)

  content-block :
      (q nr : ℕ)
      → zone zones (q / block_size) d ≡ some nr
      → (nr == 0) ≡ false
      → d.readable nr ≡ true
      → content q ≡ some (byte_at d nr (q % block_size))
  content-block q nr z ne r = rw (z, ne, r, content)

  content-unreadable :
      (q nr : ℕ)
      → zone zones (q / block_size) d ≡ some nr
      → (nr == 0) ≡ false
      → d.readable nr ≡ false
      → content q ≡ none
  content-unreadable q nr z ne r = rw (z, ne, r, content)

  chars_read-IsContent :
      (nr pos n : ℕ)
      → zone zones (pos / block_size) d ≡ some nr
      → (not (nr == 0) && not (d.readable nr)) ≡ false
      → pos % block_size + n ≤ block_size
      → IsContent pos (chars_read d nr pos n)
  chars_read-IsContent nr pos n z good le = elim (Bool-cases (nr == 0)) [
    | inl hole ↦
        let none_there : nr ≡ 0 = ground arith in
        rw hole (
          at_pos (replicate n 0) (
            block-IsContent (λ _. 0) (pos / block_size) (pos % block_size) n (replicate n 0)
              (λ q e. content-hole q (rw e (z ∙ ap some none_there))) le
              (replicate-tabulated (pos % block_size) n)))
    | inr block ↦
        let r : d.readable nr ≡ true = readable-good (d.readable nr) (rw block at good) in
        rw block (
          at_pos (bytes_from d nr (pos % block_size) n) (
            block-IsContent (byte_at d nr) (pos / block_size) (pos % block_size) n
              (bytes_from d nr (pos % block_size) n) (λ q e. content-block q nr (rw e z) block r) le
              (bytes_from-tabulated d nr (pos % block_size) n)))
  ]
    where
      at_pos :
          (l : List ℕ)
          → IsContent (pos / block_size * block_size + pos % block_size) l
          → IsContent pos l
      at_pos l h = subst (λ p. IsContent p l) (omega arith) h

  -- What file_read() gets from `pos` on: the bytes of the file, all of them or up to one that cannot be
  -- read; or a panic over a block that no file can have.
  abbrev pub IsRead : ℕ → ℕ → Option (List ℕ) → Type 0
  IsRead pos left none =
      (p : ℕ) × (pos ≤ p) × (p < pos + left) × (zone zones (p / block_size) d ≡ none)
  IsRead pos left (some bytes) =
      IsContent pos bytes
      × ((length bytes ≡ left) ⊎ ((length bytes < left) × (content (pos + length bytes) ≡ none)))

  IsRead-append :
      (pos n left : ℕ) (a : List ℕ) (r : Option (List ℕ))
      → length a ≡ n
      → n ≤ left
      → IsContent pos a
      → IsRead (pos + n) (left - n) r
      → IsRead pos left (append_to a r)
  IsRead-append pos n left a none e le c (p, lo, hi, z) = (p, omega arith, omega arith, z)
  IsRead-append pos n left a (some b) e le c (cb, stop) =
      let l = length-append a b in
      (
        IsContent-append pos a b c (rw e cb),
        elim stop [
          | inl all ↦ inl (omega (arith, l))
          | inr part ↦
              let lt = part.0 in
              let q : pos + length (a ++ b) ≡ pos + n + length b = omega (arith, l) in
              inr (omega (arith, l, lt), rw q part.1)
        ],
      )

  read_loop-IsRead :
      (fuel pos left : ℕ) → left ≤ fuel → IsRead pos left (read_loop fuel zones d pos left)
  unfolding read_loop
  read_loop-IsRead zero pos left le = (tt, inl (omega arith))
  read_loop-IsRead (suc fuel) pos left le = elim (Bool-cases (left == 0)) [
    | inl e ↦ rw (e, read_loop) (tt, inl (ground arith))
    | inr more ↦ elim (Option-cases (zone zones (pos / block_size) d)) [
      | inl big ↦ rw (more, big, read_loop) (pos, omega arith, ground arith, big)
      | inr (nr, z) ↦ elim (Bool-cases (not (nr == 0) && not (d.readable nr))) [
        | inl stop ↦
            let (a, b) = both-false (nr == 0) (d.readable nr) stop in
            rw (more, z, stop, read_loop) (tt, inr (ground arith, content-unreadable_at nr z a b))
        | inr good ↦
            let (few, some_left, inside) = chars_of-fits pos left (λ e. ground arith) in
            let n = chars_of pos left in
            rw (more, z, good, read_loop)
              (IsRead-append pos n left (chars_read d nr pos n)
                (read_loop fuel zones d (pos + n) (left - n)) (length-chars_read d nr pos n) few
                (chars_read-IsContent nr pos n z good inside)
                (read_loop-IsRead fuel (pos + n) (left - n) (omega (arith, some_left, le))))
      ]
    ]
  ]
    where
      content-unreadable_at :
          (nr : ℕ)
          → zone zones (pos / block_size) d ≡ some nr
          → (nr == 0) ≡ false
          → d.readable nr ≡ false
          → content (pos + 0) ≡ none
      content-unreadable_at nr z a b =
          subst (λ p. content p ≡ none) (omega arith) (content-unreadable pos nr z a b)

  -- The result of file_read() by what stands in the file.
  abbrev pub IsFileRead : ℕ → ℕ → FileRead → Type 0
  IsFileRead pos count (returns_bytes n bytes pos') =
      (n ≡ length bytes)
      × (pos' ≡ pos + n)
      × IsContent pos bytes
      × ((n ≡ count) ⊎ ((n < count) × (content (pos + n) ≡ none)))
  IsFileRead pos count fails = (0 < count) × (content pos ≡ none)
  IsFileRead pos count panics =
      (p : ℕ) × (pos ≤ p) × (p < pos + count) × (zone zones (p / block_size) d ≡ none)

  -- file_read() returns the bytes of the file from f_pos on and moves f_pos past them: `count` bytes, or
  -- as many as stand before the first block that cannot be read, and an error if that is none. It panics
  -- only where the range has a block that bmap() knows no place for.
  pub file_read-IsFileRead : (pos count : ℕ) → IsFileRead pos count (file_read zones d pos count)
  unfolding file_read
  file_read-IsFileRead pos count = elim (Bool-cases (count == 0)) [
    | inl e ↦ rw (e, file_read) (refl, omega arith, tt, inl (ground arith))
    | inr e ↦
        rw (e, file_read)
          (result (read_loop count zones d pos count)
            (read_loop-IsRead count pos count (omega arith)) e)
  ]
    where
      result :
          (r : Option (List ℕ))
          → IsRead pos count r
          → (count == 0) ≡ false
          → IsFileRead pos count (elim r [
            | none ↦ panics
            | some bytes ↦
                if length bytes == 0
                then fails
                else returns_bytes (length bytes) bytes (pos + length bytes)
          ])
      result none h e = h
      result (some []) (c, inl all) e = absurd (ground arith)
      result (some []) (c, inr (lt, z)) e = (lt, subst (λ p. content p ≡ none) (omega arith) z)
      result (some (b ∷ bs)) (c, stop) e =
          let q : (length (b ∷ bs) == 0) ≡ false = ground arith in rw q (refl, refl, c, stop)
