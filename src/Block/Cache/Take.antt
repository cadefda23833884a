-- ===== src/Block/Cache/Take.antt =====
-- fs/buffer.c: a buffer that getblk() takes for another block.
use rv.Common.{
  ℕ, ◌<◌, ◌≡◌, ◌≢◌, refl, sym, subst, ◌∙◌, ◌⊎◌, inl, inr, true, false, ◌==◌, if◌then◌else◌, List,
  ◌∷◌, arith, Bool-cases, ==_self, ==_ne,
}
use rv.Block.Cache.{hashfn, without, on_chain}
use rv.Block.Cache.Invariant.{In, In-without, without-In, IsIndexed}

abbrev pub put : (ℕ → ℕ) → ℕ → ℕ → ℕ → ℕ
put f bh v i = if i == bh then v else f i

pub put_self : (bh : ℕ) (f : ℕ → ℕ) (v : ℕ) → put f bh v bh ≡ v
put_self bh f v = rw (==_self bh)

pub put-ne : (bh : ℕ) (f : ℕ → ℕ) (v i : ℕ) → i ≢ bh → put f bh v i ≡ f i
put-ne bh f v i ne = rw (==_ne i bh ne)

abbrev unlinked : (ℕ → List ℕ) → ℕ → ℕ → ℕ → List ℕ
unlinked table h bh = on_chain table h (without bh)

-- The chains where buffer bh goes from the one of h to the one of its new device and block.
abbrev pub relinked : (ℕ → List ℕ) → ℕ → ℕ → ℕ → ℕ → ℕ → List ℕ
relinked table h bh d k =
    if d == 0
    then unlinked table h bh
    else on_chain (unlinked table h bh) (hashfn d k) (λ l. bh ∷ l)

pub same-or-not : (i bh : ℕ) → (i ≡ bh) ⊎ (i ≢ bh)
same-or-not i bh = elim (Bool-cases (i == bh)) [
  | inl e ↦ inl (ground arith)
  | inr e ↦ inr (λ q. ground arith)
]

module _ (n : ℕ) (dev block : ℕ → ℕ) (table : ℕ → List ℕ) (bh : ℕ)
    (ok : IsIndexed n dev block table) where
  In-unlinked :
      (i h : ℕ)
      → (In i (unlinked table (hashfn (dev bh) (block bh)) bh h) → In i (table h) × (i ≢ bh))
        × (In i (table h) → i ≢ bh → In i (unlinked table (hashfn (dev bh) (block bh)) bh h))
  In-unlinked i h = elim (Bool-cases (h == hashfn (dev bh) (block bh))) [
    | inl e ↦ rw e ((λ k. In-without i bh (table h) k), (λ k ne. without-In i bh (table h) k ne))
    | inr e ↦ rw e ((λ k. (k, λ same. other k same e)), (λ k ne. k))
  ]
    where
      other : In i (table h) → i ≡ bh → (h == hashfn (dev bh) (block bh)) ≡ false → ⊥
      other k same e =
          let q : hashfn (dev bh) (block bh) ≡ h =
            subst (λ b. hashfn (dev b) (block b) ≡ h) same ((ok.sound i h k).2) in
          ground arith

  module _ (d k : ℕ) where
    unfoldable pub relink : ℕ → List ℕ
    relink = relinked table (hashfn (dev bh) (block bh)) bh d k

    In-relink :
        (i h : ℕ)
        → In i (relink h)
        → ((i ≡ bh) × (d ≢ 0) × (hashfn d k ≡ h)) ⊎ (In i (table h) × (i ≢ bh))
    unfolding relink
    In-relink i h m = elim (Bool-cases (d == 0)) [
      | inl e ↦ inr ((In-unlinked i h).0 (rw e at m))
      | inr e ↦ ends (Bool-cases (h == hashfn d k)) (rw e at m) e
    ]
      where
        ends :
            ((h == hashfn d k) ≡ true) ⊎ ((h == hashfn d k) ≡ false)
            → In i (
                on_chain
                  (unlinked table (hashfn (dev bh) (block bh)) bh)
                  (hashfn d k)
                  (λ l. bh ∷ l)
                  h)
            → (d == 0) ≡ false
            → ((i ≡ bh) × (d ≢ 0) × (hashfn d k ≡ h)) ⊎ (In i (table h) × (i ≢ bh))
        ends (inr f) m e = inr ((In-unlinked i h).0 (rw f at m))
        ends (inl f) m e = elim (rw f at m) [
          | inl same ↦ inl (same, (λ z. ground arith), ground arith)
          | inr rest ↦ inr ((In-unlinked i h).0 rest)
        ]

    relink-new : d ≢ 0 → In bh (relink (hashfn d k))
    unfolding relink
    relink-new ne = rw (==_ne d 0 ne, ==_self (hashfn d k)) (inl refl)

    relink-old : (i h : ℕ) → In i (table h) → i ≢ bh → In i (relink h)
    unfolding relink
    relink-old i h m ne = elim (Bool-cases (d == 0)) [
      | inl e ↦ rw e ((In-unlinked i h).1 m ne)
      | inr e ↦ elim (Bool-cases (h == hashfn d k)) [
        | inl f ↦ rw (e, f) (inr ((In-unlinked i h).1 m ne))
        | inr f ↦ rw (e, f) ((In-unlinked i h).1 m ne)
      ]
    ]

    relink_complete :
        (i : ℕ)
        → i < n
        → put dev bh d i ≢ 0
        → In i (relink (hashfn (put dev bh d i) (put block bh k i)))
    relink_complete i lt ne = elim (same-or-not i bh) [
      | inl same ↦ here same (rw (same, put_self bh dev d) at ne)
      | inr other ↦
          rw (put-ne bh dev d i other, put-ne bh block k i other)
            (there other (rw (put-ne bh dev d i other) at ne))
    ]
      where
        here : i ≡ bh → d ≢ 0 → In i (relink (hashfn (put dev bh d i) (put block bh k i)))
        here same ne = rw (same, put_self bh dev d, put_self bh block k) (relink-new ne)

        there : i ≢ bh → dev i ≢ 0 → In i (relink (hashfn (dev i) (block i)))
        there other ne = relink-old i (hashfn (dev i) (block i)) (ok.complete i lt ne) other

    relink_unique :
        ((i : ℕ) → i < n → d ≢ 0 → dev i ≡ d → block i ≢ k)
        → (i j : ℕ) → i < n
        → j < n
        → put dev bh d i ≢ 0
        → put dev bh d i ≡ put dev bh d j
        → put block bh k i ≡ put block bh k j
        → i ≡ j
    relink_unique fresh i j li lj ne ed ek = elim (same-or-not i bh) [
      | inl a ↦ elim (same-or-not j bh) [
        | inl b ↦ a ∙ sym b
        | inr b ↦ absurd (
            fresh j lj (rw (a, put_self bh dev d) at ne)
              (sym (rw (a, put_self bh dev d, put-ne bh dev d j b) at ed))
              (sym (rw (a, put_self bh block k, put-ne bh block k j b) at ek)))
      ]
      | inr a ↦ elim (same-or-not j bh) [
        | inl b ↦
            clash (rw (put-ne bh dev d i a) at ne)
              (rw (put-ne bh dev d i a, b, put_self bh dev d) at ed)
              (rw (put-ne bh block k i a, b, put_self bh block k) at ek)
        | inr b ↦
            ok.unique i j li lj (rw (put-ne bh dev d i a) at ne)
              (rw (put-ne bh dev d i a, put-ne bh dev d j b) at ed)
              (rw (put-ne bh block k i a, put-ne bh block k j b) at ek)
      ]
    ]
      where
        clash : dev i ≢ 0 → dev i ≡ d → block i ≡ k → i ≡ j
        clash ne e f = absurd (fresh i li (λ z. ne (e ∙ z)) e f)

    pub relink-IsIndexed :
        bh < n
        → ((i : ℕ) → i < n → d ≢ 0 → dev i ≡ d → block i ≢ k)
        → IsIndexed n (put dev bh d) (put block bh k) relink
    relink-IsIndexed lt fresh = record {
      sound = λ i h m. elim (In-relink i h m) [
        | inl (same, ne, e) ↦ rw (same, put_self bh dev d, put_self bh block k) (lt, ne, e)
        | inr (old, ne) ↦ rw (put-ne bh dev d i ne, put-ne bh block k i ne) (ok.sound i h old)
      ];
      complete = relink_complete;
      unique = relink_unique fresh;
    }
