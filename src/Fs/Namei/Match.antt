-- ===== src/Fs/Namei/Match.antt =====
-- fs/namei.c, match(): an entry that a name was put into is found under it.
use rv.Common.{
  ℕ, zero, suc, ◌+◌, ◌-◌, ◌*◌, ◌/◌, ◌≤◌, ◌<◌, ◌≡◌, ◌≢◌, refl, sym, subst, ap, ◌∙◌, ◌⊎◌, inl, inr,
  Bool, true, false, leb, ltb, ltb→lt, ◌==◌, ==_self, not, ◌||◌, ◌&&◌, if◌then◌else◌, List, [], ◌∷◌,
  get_or, take, length, arith, Bool-cases,
}
use rv.Fs.Inode.{Disk}
use rv.Fs.FileDev.{byte_at}
use rv.Fs.FileDev.Bytes.{AreBytes, byte_at-put_bytes_from}
use rv.Fs.Namei.{match, same_from, name_at, inode_at, padded, put_name, put_inode, name_len}

length-padded : (n : ℕ) (name : List ℕ) → length (padded n name) ≡ n
unfolding padded
length-padded zero name = refl
length-padded (suc n) [] = ap suc (length-padded n [])
length-padded (suc n) (c ∷ name) = ap suc (length-padded n name)

get_or-padded : (n k : ℕ) (name : List ℕ) → k < n → get_or (padded n name) k 0 ≡ get_or name k 0
unfolding padded
get_or-padded zero k name lt = absurd (omega arith)
get_or-padded (suc n) zero [] lt = refl
get_or-padded (suc n) (suc k) [] lt = get_or-padded n k [] (omega (arith, lt)) ∙ get_or-nil k
  where
    get_or-nil : (k : ℕ) → get_or {A = ℕ} [] k 0 ≡ 0
    get_or-nil k = refl
get_or-padded (suc n) zero (c ∷ name) lt = refl
get_or-padded (suc n) (suc k) (c ∷ name) lt = get_or-padded n k name (omega (arith, lt))

padded-AreBytes : (n : ℕ) (name : List ℕ) → AreBytes name → AreBytes (padded n name)
unfolding padded
padded-AreBytes zero name h = tt
padded-AreBytes (suc n) [] h = (omega arith, padded-AreBytes n [] tt)
padded-AreBytes (suc n) (c ∷ name) h = (h.0, padded-AreBytes n name h.1)

module _ (d : Disk) (nr j : ℕ) where
  same_from-true :
      (k : ℕ) (name : List ℕ)
      → ((m : ℕ) → m < length name → name_at d nr j (k + m) ≡ get_or name m 0)
      → same_from d nr j k name ≡ true
  unfolding same_from
  same_from-true k [] h = refl
  same_from-true k (c ∷ name) h =
      let here : k + 0 ≡ k = omega arith in
      let first : name_at d nr j k ≡ c =
        subst (λ v. name_at d nr j v ≡ c) here (h 0 (omega arith)) in
      let e : (c == name_at d nr j k) ≡ true =
        subst (λ v. (c == v) ≡ true) (sym first) (==_self c) in
      rw e (
        same_from-true (suc k) name (λ m lt.
          let next : k + suc m ≡ suc k + m = omega arith in
          subst (λ v. name_at d nr j v ≡ get_or name m 0) next (h (suc m) (omega (arith, lt)))))

byte_at-put_inode :
    (v nr j k : ℕ) (d : Disk)
    → byte_at (put_inode v nr j d) nr (j * 16 + 2 + k) ≡ byte_at d nr (j * 16 + 2 + k)
byte_at-put_inode v nr j k d =
    let e : (j * 8 == (j * 16 + 2 + k) / 2) ≡ false = ground arith in rw (e, ==_self nr)

name_at-put :
    (name : List ℕ) (v nr j k : ℕ) (d : Disk)
    → AreBytes name
    → k < name_len
    → name_at (put_inode v nr j (put_name name nr j d)) nr j k ≡ get_or name k 0
name_at-put name v nr j k d h lt =
    let p = j * 16 + 2 in
    let l = length-padded name_len name in
    let inside : (nr == nr && (leb p (p + k) && ltb (p + k) (p + length (padded name_len name))))
        ≡ true =
      rw (l, ==_self nr) (ground arith) in
    let off : p + k - p ≡ k = omega arith in
    byte_at-put_inode v nr j k (put_name name nr j d)
    ∙ byte_at-put_bytes_from nr p (padded name_len name) d nr (p + k)
        (padded-AreBytes name_len name h)
    ∙ rw (inside, off) (get_or-padded name_len k name lt)

get_or-end : (name : List ℕ) → get_or name (length name) 0 ≡ 0
get_or-end [] = refl
get_or-end (c ∷ name) = get_or-end name

inode_at-put : (v nr j : ℕ) (d : Disk) → inode_at (put_inode v nr j d) nr j ≡ v
inode_at-put v nr j d = rw (==_self nr, ==_self (j * 8))

accepts :
    (a b c s : Bool)
    → a ≡ false
    → b ≡ false
    → c ≡ false
    → s ≡ true
    → (if a || b then false else if c then false else s) ≡ true
accepts a b c s ea eb ec es = rw (ea, eb, ec, es)

-- An entry with an inode and a name of at most 14 characters matches the name.
pub match-put :
    (name : List ℕ) (v nr j : ℕ) (d : Disk)
    → AreBytes name
    → length name ≤ name_len
    → v ≢ 0
    → match name (put_inode v nr j (put_name name nr j d)) nr j ≡ true
unfolding match
match-put name v nr j d h le ne =
    let d' = put_inode v nr j (put_name name nr j d) in
    let inode : (inode_at d' nr j == 0) ≡ false =
      rw (inode_at-put v nr j (put_name name nr j d)) (ground arith) in
    let short : ltb name_len (length name) ≡ false = ground arith in
    let ends : (ltb (length name) name_len && not (name_at d' nr j (length name) == 0)) ≡ false =
      end_of (Bool-cases (ltb (length name) name_len)) in
    let same = same_from-true d' nr j 0 name (λ m lt.
      let z : 0 + m ≡ m = omega arith in
      rw z (name_at-put name v nr j m d h (omega (arith, lt, le)))) in
    accepts (inode_at d' nr j == 0) (ltb name_len (length name))
      (ltb (length name) name_len && not (name_at d' nr j (length name) == 0))
      (same_from d' nr j 0 name) inode short ends same
  where
    end_of :
        (ltb (length name) name_len ≡ true) ⊎ (ltb (length name) name_len ≡ false)
        → (ltb (length name) name_len
            && not (name_at (put_inode v nr j (put_name name nr j d)) nr j (length name) == 0))
          ≡ false
    end_of (inl e) =
        let z : name_at (put_inode v nr j (put_name name nr j d)) nr j (length name) ≡ 0 =
          name_at-put name v nr j (length name) d h (ltb→lt (length name) name_len e)
          ∙ get_or-end name in
        rw (e, z)
    end_of (inr e) = rw e

pub length-take_le : (n : ℕ) (name : List ℕ) → length (take n name) ≤ n
length-take_le zero name = omega arith
length-take_le (suc n) [] = omega arith
length-take_le (suc n) (c ∷ name) = let l = length-take_le n name in omega (arith, l)
