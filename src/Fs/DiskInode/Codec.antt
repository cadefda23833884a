-- ===== src/Fs/DiskInode/Codec.antt =====
-- fs/inode.c: read_inode() reads what write_inode() wrote.
use rv.Common.{
  ℕ, zero, suc, ◌+◌, ◌-◌, ◌*◌, ◌/◌, ◌%◌, ◌^◌, ◌<◌, ◌≡◌, ◌≢◌, ◌⊎◌, inl, inr, refl, sym, subst, ap,
  ap₂, ◌∙◌, Option, none, some, Bool, true, false, leb, ltb, ◌==◌, not, ◌&&◌, ◌||◌, if◌then◌else◌,
  List, [], ◌∷◌, arith, Bool-cases, length, get_or, some-inj,
}
use rv.Fs.Inode.{Disk, put_word, entries}
use rv.Fs.DiskInode.{
  DInode, MInode, Blocks, inode_block, inode_slot, words_of, inode_of, put_words, read_inode,
  write_dirty, write_inode,
}

word-cell :
    (k nr j p v n rest old : ℕ)
    → (if k == nr && (leb (suc p) j && ltb j (suc p + n))
        then rest
        else if nr == k && p == j
        then v
        else old)
      ≡ (if k == nr && (leb p j && ltb j (p + suc n)) then (if j == p then v else rest) else old)
word-cell k nr j p v n rest old = ground arith

get_or-word :
    (v : ℕ) (vs : List ℕ) (p j : ℕ)
    → leb p j ≡ true
    → get_or (v ∷ vs) (j - p) 0 ≡ (if j == p then v else get_or vs (j - suc p) 0)
get_or-word v vs p j le = elim (Bool-cases (j == p)) [
  | inl e ↦ let z : j - p ≡ 0 = ground arith in rw (e, z)
  | inr e ↦ let z : j - p ≡ suc (j - suc p) = ground arith in rw (e, z)
]

word-put_words :
    (nr p : ℕ) (vs : List ℕ) (d : Disk) (k j : ℕ)
    → (put_words nr p vs d).word k j
      ≡ (if k == nr && (leb p j && ltb j (p + length vs)) then get_or vs (j - p) 0 else d.word k j)
unfolding put_words
word-put_words nr p [] d k j =
    let e : (k == nr && (leb p j && ltb j (p + 0))) ≡ false = ground arith in rw e
word-put_words nr p (v ∷ vs) d k j =
    word-put_words nr (suc p) vs (record d { word = put_word d.word nr p v }) k j
    ∙ word-cell k nr j p v (length vs) (get_or vs (j - suc p) 0) (d.word k j)
    ∙ in_range (Bool-cases (leb p j))
  where
    in_range :
        (leb p j ≡ true) ⊎ (leb p j ≡ false)
        → (if k == nr && (leb p j && ltb j (p + suc (length vs)))
            then (if j == p then v else get_or vs (j - suc p) 0)
            else d.word k j)
          ≡ (if k == nr && (leb p j && ltb j (p + suc (length vs)))
              then get_or (v ∷ vs) (j - p) 0
              else d.word k j)
    in_range (inl le) = rw (get_or-word v vs p j le)
    in_range (inr gt) =
        let e : (k == nr && (leb p j && ltb j (p + suc (length vs)))) ≡ false = ground arith in rw e

readable-put_words :
    (nr p : ℕ) (vs : List ℕ) (d : Disk) → (put_words nr p vs d).readable ≡ d.readable
unfolding put_words
readable-put_words nr p [] d = refl
readable-put_words nr p (v ∷ vs) d =
    readable-put_words nr (suc p) vs (record d { word = put_word d.word nr p v })

-- The fields fit in their places: words of 16 and 32 bits, a group of 8, and nine zones.
abbrev pub IsDInode : DInode → Type 0
IsDInode i = (i.i_gid < 256) × (length i.i_zone ≡ 9)

entries-get_or :
    (n p : ℕ) (w : ℕ → ℕ) (l : List ℕ)
    → length l ≡ n
    → ((k : ℕ) → k < n → w (p + k) ≡ get_or l k 0)
    → entries n p w ≡ l
unfolding entries
entries-get_or zero p w [] e h = refl
entries-get_or zero p w (x ∷ l) e h = absurd (omega arith)
entries-get_or (suc n) p w [] e h = absurd (omega arith)
entries-get_or (suc n) p w (x ∷ l) e h =
    let z : p + 0 ≡ p = omega arith in
    let first : w p ≡ x = subst (λ q. w q ≡ x) z (h 0 (omega arith)) in
    ap₂ (λ a m. a ∷ m) first
      (entries-get_or n (suc p) w l (omega (arith, e)) (λ k lt.
        let s : p + suc k ≡ suc p + k = omega arith in
        subst (λ q. w q ≡ get_or l k 0) s (h (suc k) (omega (arith, lt)))))

decode :
    (w : ℕ → ℕ) (p : ℕ) (i : DInode)
    → IsDInode i
    → ((k : ℕ) → k < 16 → w (p + k) ≡ get_or (words_of i) k 0)
    → inode_of w p ≡ i
unfolding inode_of
decode w p i ok h =
    let z : p + 0 ≡ p = omega arith in
    let mode : w p ≡ i.i_mode = subst (λ q. w q ≡ i.i_mode) z (h 0 (omega arith)) in
    let uid : w (p + 1) ≡ i.i_uid = h 1 (omega arith) in
    let size : w (p + 3) * 2 ^ 16 + w (p + 2) ≡ i.i_size =
      ap₂ (λ a b. a * 2 ^ 16 + b) (h 3 (omega arith)) (h 2 (omega arith)) ∙ halves i.i_size in
    let mtime : w (p + 5) * 2 ^ 16 + w (p + 4) ≡ i.i_mtime =
      ap₂ (λ a b. a * 2 ^ 16 + b) (h 5 (omega arith)) (h 4 (omega arith)) ∙ halves i.i_mtime in
    let small = ok.0 in
    let low : (i.i_nlinks * 256 + i.i_gid) % 256 ≡ i.i_gid = omega (arith, small) in
    let high : (i.i_nlinks * 256 + i.i_gid) / 256 ≡ i.i_nlinks = omega (arith, small) in
    let gid : w (p + 6) % 256 ≡ i.i_gid = ap (λ a. a % 256) (h 6 (omega arith)) ∙ low in
    let nlinks : w (p + 6) / 256 ≡ i.i_nlinks = ap (λ a. a / 256) (h 6 (omega arith)) ∙ high in
    let zone : entries 9 (p + 7) w ≡ i.i_zone = entries-get_or 9 (p + 7) w i.i_zone ok.1 (λ k lt.
      let s : p + (7 + k) ≡ p + 7 + k = omega arith in
      subst (λ q. w q ≡ get_or i.i_zone k 0) s (seven k (h (7 + k) (omega (arith, lt))))) in
    rw (mode, uid, size, mtime, gid, nlinks, zone)
  where
    halves : (n : ℕ) → n / 2 ^ 16 * 2 ^ 16 + n % 2 ^ 16 ≡ n
    halves n = omega arith

    seven :
        (k : ℕ)
        → w (p + (7 + k)) ≡ get_or (words_of i) (7 + k) 0
        → w (p + (7 + k)) ≡ get_or i.i_zone k 0
    seven k e =
        let s : 7 + k ≡ suc (suc (suc (suc (suc (suc (suc k)))))) = omega arith in
        e ∙ ap (λ j. get_or (words_of i) j 0) s

module _ (nr p : ℕ) (i : DInode) (d : Disk) (ok : IsDInode i) where
  word-here :
      (k : ℕ) → k < 16 → (put_words nr p (words_of i) d).word nr (p + k) ≡ get_or (words_of i) k 0
  word-here k lt =
      let z = ok.1 in
      let e : (nr == nr && (leb p (p + k) && ltb (p + k) (p + length (words_of i)))) ≡ true =
        ground arith in
      let off : p + k - p ≡ k = omega arith in
      word-put_words nr p (words_of i) d nr (p + k) ∙ rw (e, off)

  inode_of-put_words : inode_of ((put_words nr p (words_of i) d).word nr) p ≡ i
  inode_of-put_words = decode ((put_words nr p (words_of i) d).word nr) p i ok word-here

entries-cong :
    (n p : ℕ) (w v : ℕ → ℕ)
    → ((k : ℕ) → k < n → w (p + k) ≡ v (p + k))
    → entries n p w ≡ entries n p v
unfolding entries
entries-cong zero p w v h = refl
entries-cong (suc n) p w v h =
    let z : p + 0 ≡ p = omega arith in
    ap₂ (λ a m. a ∷ m) (subst (λ q. w q ≡ v q) z (h 0 (omega arith)))
      (entries-cong n (suc p) w v (λ k lt.
        let s : p + suc k ≡ suc p + k = omega arith in
        subst (λ q. w q ≡ v q) s (h (suc k) (omega (arith, lt)))))

inode_of-cong :
    (p : ℕ) (w v : ℕ → ℕ) → ((k : ℕ) → k < 16 → w (p + k) ≡ v (p + k)) → inode_of w p ≡ inode_of v p
unfolding inode_of
inode_of-cong p w v h =
    let z : p + 0 ≡ p = omega arith in
    let e0 : w p ≡ v p = subst (λ q. w q ≡ v q) z (h 0 (omega arith)) in
    let e1 : w (p + 1) ≡ v (p + 1) = h 1 (omega arith) in
    let e2 : w (p + 2) ≡ v (p + 2) = h 2 (omega arith) in
    let e3 : w (p + 3) ≡ v (p + 3) = h 3 (omega arith) in
    let e4 : w (p + 4) ≡ v (p + 4) = h 4 (omega arith) in
    let e5 : w (p + 5) ≡ v (p + 5) = h 5 (omega arith) in
    let e6 : w (p + 6) ≡ v (p + 6) = h 6 (omega arith) in
    let zones : entries 9 (p + 7) w ≡ entries 9 (p + 7) v = entries-cong 9 (p + 7) w v (λ k lt.
      let s : p + (7 + k) ≡ p + 7 + k = omega arith in
      subst (λ q. w q ≡ v q) s (h (7 + k) (omega (arith, lt)))) in
    rw (e0, e1, e2, e3, e4, e5, e6, zones)

-- Inodes of different numbers lie apart.
apart :
    (sb : Blocks) (a b k : ℕ)
    → 0 < a
    → 0 < b
    → b ≢ a
    → k < 16
    → (inode_block sb b == inode_block sb a
        && (leb (inode_slot a) (inode_slot b + k) && ltb (inode_slot b + k) (inode_slot a + 16)))
      ≡ false
apart sb a b k la lb ne lk = ground arith

inode-written :
    (sb : Blocks) (y : MInode) (num : ℕ) (i : DInode) (d : Disk)
    → IsDInode i
    → 0 < num
    → 0 < y.i_num
    → d.readable (inode_block sb num) ≡ true
    → read_inode (some sb) y (put_words (inode_block sb num) (inode_slot num) (words_of i) d)
      ≡ (if y.i_num == num then some (record y { stored = i }) else read_inode (some sb) y d)
unfolding read_inode
inode-written sb y num i d ok ln ly readable = elim (Bool-cases (y.i_num == num)) [
  | inl same ↦
      let q : num ≡ y.i_num = ground arith in
      rw same (
        ap₂ got
          (readable_after (inode_block sb y.i_num)
            ∙ subst (λ n. d.readable (inode_block sb n) ≡ true) q readable)
          (subst (λ n. inode_of (after.word (inode_block sb n)) (inode_slot n) ≡ i) q
            (inode_of-put_words (inode_block sb num) (inode_slot num) i d ok)))
  | inr other ↦
      let ne : y.i_num ≢ num = λ q. ground arith in
      rw other (
        ap₂ got (readable_after (inode_block sb y.i_num)) (
          inode_of-cong (inode_slot y.i_num) (after.word (inode_block sb y.i_num))
            (d.word (inode_block sb y.i_num)) (λ k lt. untouched k lt ne)))
]
  where
    after : Disk
    after = put_words (inode_block sb num) (inode_slot num) (words_of i) d

    got : Bool → DInode → Option MInode
    got r j = if r then some (record y { stored = j }) else none

    readable_after : (b : ℕ) → after.readable b ≡ d.readable b
    readable_after b =
        ap (λ f. f b) (readable-put_words (inode_block sb num) (inode_slot num) (words_of i) d)

    untouched :
        (k : ℕ)
        → k < 16
        → y.i_num ≢ num
        → after.word (inode_block sb y.i_num) (inode_slot y.i_num + k)
          ≡ d.word (inode_block sb y.i_num) (inode_slot y.i_num + k)
    untouched k lt ne =
        let l : length (words_of i) ≡ 16 =
          ap (λ n. suc (suc (suc (suc (suc (suc (suc n))))))) ok.1 in
        word-put_words (inode_block sb num) (inode_slot num) (words_of i) d (inode_block sb y.i_num)
          (inode_slot y.i_num + k)
        ∙ rw (l, apart sb num y.i_num k ln ly ne lt)

write_inode-dirty :
    (sb : Option Blocks) (x : MInode) (d : Disk)
    → x.i_dirt ≡ true
    → x.i_dev ≢ 0
    → write_inode sb x d ≡ write_dirty sb x d
unfolding write_inode
write_inode-dirty sb x d dirty dev =
    goes_on x.i_dirt (x.i_dev == 0) (some (x, d)) (write_dirty sb x d) dirty (ground arith)
  where
    goes_on :
        {A : Type 0} (a c : Bool) (u v : A)
        → a ≡ true
        → c ≡ false
        → (if not a || c then u else v) ≡ v
    goes_on a c u v ea ec = rw (ea, ec)

if-true : {A : Type 0} (b : Bool) (u v w : A) → b ≡ true → (if b then u else v) ≡ w → u ≡ w
if-true b u v w e h = rw e at h

if-false : {A : Type 0} (b : Bool) (u v w : A) → b ≡ false → (if b then u else v) ≡ w → v ≡ w
if-false b u v w e h = rw e at h

read_inode-write_dirty :
    (sb : Option Blocks) (x x' y : MInode) (d d' : Disk)
    → IsDInode x.stored
    → 0 < x.i_num
    → 0 < y.i_num
    → write_dirty sb x d ≡ some (x', d')
    → read_inode sb y d'
      ≡ (if y.i_num == x.i_num then some (record y { stored = x.stored }) else read_inode sb y d)
unfolding write_dirty
read_inode-write_dirty none x x' y d d' ok ln ly h = cc
read_inode-write_dirty (some sb) x x' y d d' ok ln ly h =
    elim (Bool-cases (d.readable (inode_block sb x.i_num))) [
      | inl readable ↦
          let e : put_words (inode_block sb x.i_num) (inode_slot x.i_num) (words_of x.stored) d
              ≡ d' =
            ap (λ r. r.1)
              (some-inj (
                if-true (d.readable (inode_block sb x.i_num)) _ none (some (x', d')) readable h)) in
          subst
            (λ v. read_inode (some sb) y v ≡ (
              if y.i_num == x.i_num
              then some (record y { stored = x.stored })
              else read_inode (some sb) y d))
            e (inode-written sb y x.i_num x.stored d ok ln ly readable)
      | inr lost ↦ cc (if-false (d.readable (inode_block sb x.i_num)) _ none (some (x', d')) lost h)
    ]

-- After write_inode() of an inode that is changed, read_inode() gives the inode of that number as it was
-- written, and every other one as it was before.
pub read_inode-write_inode :
    (sb : Option Blocks) (x x' y : MInode) (d d' : Disk)
    → IsDInode x.stored
    → 0 < x.i_num
    → 0 < y.i_num
    → x.i_dirt ≡ true
    → x.i_dev ≢ 0
    → write_inode sb x d ≡ some (x', d')
    → read_inode sb y d'
      ≡ (if y.i_num == x.i_num then some (record y { stored = x.stored }) else read_inode sb y d)
read_inode-write_inode sb x x' y d d' ok ln ly dirty dev h =
    read_inode-write_dirty sb x x' y d d' ok ln ly (sym (write_inode-dirty sb x d dirty dev) ∙ h)
