-- ===== src/Block/Cache/Invariant.antt =====
-- fs/buffer.c: what holds of the hash chains and of the free list.
use rv.Common.{
  ℕ, ◌<◌, ◌≡◌, ◌≢◌, ◌⊎◌, inl, inr, true, false, ◌==◌, List, [], ◌∷◌, ◌++◌, arith, Bool-cases,
  length,
}
use rv.Block.Buffers.{Buffers, buffer_at}
use rv.Block.Cache.{Cache, hashfn, without}

abbrev pub In : ℕ → List ℕ → Type 0
In i [] = ⊥
In i (x ∷ l) = (i ≡ x) ⊎ In i l

pub In-append_left : (i : ℕ) (l m : List ℕ) → In i l → In i (l ++ m)
In-append_left i [] m h = absurd h
In-append_left i (x ∷ l) m (inl e) = inl e
In-append_left i (x ∷ l) m (inr h) = inr (In-append_left i l m h)

pub In-append_right : (i : ℕ) (l m : List ℕ) → In i m → In i (l ++ m)
In-append_right i [] m h = h
In-append_right i (x ∷ l) m h = inr (In-append_right i l m h)

pub In-append : (i : ℕ) (l m : List ℕ) → In i (l ++ m) → In i l ⊎ In i m
In-append i [] m h = inr h
In-append i (x ∷ l) m (inl e) = inl (inl e)
In-append i (x ∷ l) m (inr h) = elim (In-append i l m h) [ inl a ↦ inl (inr a) | inr b ↦ inr b ]

pub In-without : (i bh : ℕ) (l : List ℕ) → In i (without bh l) → In i l × (i ≢ bh)
unfolding without
In-without i bh [] h = absurd h
In-without i bh (x ∷ l) h = elim (Bool-cases (x == bh)) [
  | inl e ↦ let (a, b) = In-without i bh l (rw (e, without) at h) in (inr a, b)
  | inr e ↦ here (rw (e, without) at h) (λ k. In-without i bh l k) e
]
  where
    here :
        (i ≡ x) ⊎ In i (without bh l)
        → (In i (without bh l) → In i l × (i ≢ bh))
        → (x == bh) ≡ false
        → ((i ≡ x) ⊎ In i l) × (i ≢ bh)
    here (inl p) r e = (inl p, λ q. ground arith)
    here (inr k) r e = (inr (r k).0, (r k).1)

pub without-In : (i bh : ℕ) (l : List ℕ) → In i l → i ≢ bh → In i (without bh l)
unfolding without
without-In i bh [] h ne = absurd h
without-In i bh (x ∷ l) h ne = elim (Bool-cases (x == bh)) [
  | inl e ↦ rw e (drops h e (λ k. without-In i bh l k ne))
  | inr e ↦ rw e (keeps h (λ k. without-In i bh l k ne))
]
  where
    drops :
        (i ≡ x) ⊎ In i l → (x == bh) ≡ true → (In i l → In i (without bh l)) → In i (without bh l)
    drops (inl p) e r = absurd (ground arith)
    drops (inr k) e r = r k

    keeps : (i ≡ x) ⊎ In i l → (In i l → In i (without bh l)) → (i ≡ x) ⊎ In i (without bh l)
    keeps (inl p) r = inl p
    keeps (inr k) r = inr (r k)

-- n buffers by their devices and blocks: a chain holds the buffers of its hash value that have a
-- device, and no two of these are of the same block.
pub record IsIndexed (n : ℕ) (dev block : ℕ → ℕ) (table : ℕ → List ℕ) : Type 0 where
  pub sound : (i h : ℕ) → In i (table h) → (i < n) × (dev i ≢ 0) × (hashfn (dev i) (block i) ≡ h)
  pub complete : (i : ℕ) → i < n → dev i ≢ 0 → In i (table (hashfn (dev i) (block i)))
  pub unique : (i j : ℕ) → i < n → j < n → dev i ≢ 0 → dev i ≡ dev j → block i ≡ block j → i ≡ j

abbrev pub dev_of : Buffers → ℕ → ℕ
dev_of bs i = (buffer_at bs i).b_dev

abbrev pub block_of : Buffers → ℕ → ℕ
block_of bs i = (buffer_at bs i).b_blocknr

-- The free list holds all the buffers.
abbrev pub IsFreeList : ℕ → List ℕ → Type 0
IsFreeList n l = (i : ℕ) → (In i l → i < n) × (i < n → In i l)

pub record IsCache (c : Cache) : Type 0 where
  pub is_indexed : IsIndexed (length c.buffers) (dev_of c.buffers) (block_of c.buffers) c.hash_table
  pub is_free_list : IsFreeList (length c.buffers) c.free_list
