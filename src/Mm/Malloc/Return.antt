-- ===== src/Mm/Malloc/Return.antt =====
-- lib/malloc.c: free_s() takes back what malloc() gave.
use rv.Common.{
  ℕ, zero, suc, ◌+◌, ◌-◌, ◌*◌, ◌/◌, ◌%◌, ◌^◌, ◌<◌, ◌≡◌, ◌≢◌, refl, sym, subst, ap, ap₂, ◌∙◌, ◌⊎◌,
  inl, inr, Option, none, some, Bool, true, false, leb, ltb, ◌==◌, ==_self, List, [], ◌∷◌, arith,
  Bool-cases, All,
}
use rv.Mm.Malloc.{
  Bucket, Directory, Heap, take_object, take_or, with_descs, new_bucket, Taken, grow_chain,
  take_in_chain, malloc_in, malloc, give_object, give_in, free_s,
}

abbrev pub page_of : ℕ → ℕ
page_of obj = obj / 4096 * 4096

-- A bucket in a chain is in use, its count has room, and its free objects lie in its page.
abbrev pub IsBucket : Bucket → Type 0
IsBucket b = (0 < b.refcnt) × (b.refcnt + 1 < 2 ^ 16) × All (λ obj. page_of obj ≡ b.page) b.free

-- No two buckets of a chain have one page.
abbrev pub IsChain : List Bucket → Type 0
IsChain [] = Unit
IsChain (b ∷ l) = IsBucket b × All (λ c. c.page ≢ b.page) l × IsChain l

abbrev pub IsHeap : Heap → Type 0
IsHeap h = All (λ e. IsChain e.1) h.bucket_dir × All (λ p. p % 4096 ≡ 0) h.free_pages

List-cases : (l : List ℕ) → (l ≡ []) ⊎ ((x : ℕ) × (r : List ℕ) × (l ≡ x ∷ r))
List-cases [] = inl refl
List-cases (x ∷ r) = inr (x, r, refl)

-- The outcome of the search in a chain: where an object is taken, it goes back to its bucket.
abbrev IsTaken : List Bucket → Option (ℕ × List Bucket) → Type 0
IsTaken chain none = Unit
IsTaken chain (some (obj, chain')) =
    (give_object (page_of obj) obj chain' ≡ some (chain, false))
    × ((p : ℕ) → All (λ c. c.page ≢ p) chain → page_of obj ≢ p)

give_object-head :
    (p r size obj : ℕ) (rest : List ℕ) (l : List Bucket)
    → page_of obj ≡ p
    → 0 < r
    → r + 1 < 2 ^ 16
    → give_object
        (page_of obj)
        obj
        (record { page = p; free = rest; refcnt = (r + 1) % 2 ^ 16; bucket_size = size } ∷ l)
      ≡ some (record { page = p; free = obj ∷ rest; refcnt = r; bucket_size = size } ∷ l, false)
unfolding give_object
give_object-head p r size obj rest l e lo hi =
    let here : (p == page_of obj) ≡ true = ground arith in
    let up : (r + 1) % 2 ^ 16 ≡ r + 1 = omega (arith, hi) in
    let more : (r + 1 == 1) ≡ false = ground arith in
    let down : (r + 1 + 2 ^ 16 - 1) % 2 ^ 16 ≡ r = omega (arith, hi) in rw (here, up, more, down)

give_object-tail :
    (obj : ℕ) (b : Bucket) (l l' : List Bucket)
    → page_of obj ≢ b.page
    → give_object (page_of obj) obj l' ≡ some (l, false)
    → give_object (page_of obj) obj (b ∷ l') ≡ some (b ∷ l, false)
unfolding give_object
give_object-tail obj b l l' ne e =
    let other : (b.page == page_of obj) ≡ false = ground arith in rw (other, e, give_object)

IsTaken-or :
    (f : List ℕ) (b : Bucket) (l : List Bucket) (r : Option (ℕ × List Bucket))
    → b.free ≡ f
    → IsBucket b
    → All (λ c. c.page ≢ b.page) l
    → IsTaken l r
    → IsTaken (b ∷ l) (take_or f b l r)
unfolding take_or
IsTaken-or [] b l none e ok d h = tt
IsTaken-or [] b l (some (obj, l')) e ok d h =
    (give_object-tail obj b l l' (h.1 b.page d) h.0, λ p all. h.1 p all.1)
IsTaken-or (obj ∷ rest) b l r e ok d h =
    let ins : All (λ o. page_of o ≡ b.page) (obj ∷ rest) =
      subst (All (λ o. page_of o ≡ b.page)) e ok.2 in
    (
      give_object-head b.page b.refcnt b.bucket_size obj rest l ins.0 ok.0 ok.1
          ∙ ap
              (λ f. some (
                record { page = b.page; free = f; refcnt = b.refcnt; bucket_size = b.bucket_size }
                    ∷ l,
                false,
              ))
              (sym e),
      λ p all same. all.0 (sym ins.0 ∙ same),
    )

take_object-IsTaken : (chain : List Bucket) → IsChain chain → IsTaken chain (take_object chain)
unfolding take_object
take_object-IsTaken [] ok = tt
take_object-IsTaken (b ∷ l) ok =
    IsTaken-or b.free b l (take_object l) refl ok.0 ok.1 (take_object-IsTaken l ok.2)

-- What giving the object back gives: the old state again, with the page of a bucket that is new.
abbrev IsReturned {ℓ} : {A : Type ℓ} → ℕ → A → ℕ → List ℕ → Option (A × Bool) → ℕ → List ℕ → Type ℓ
IsReturned obj old descs pages back descs' pages' =
    ((back ≡ some (old, false)) × (descs' ≡ descs) × (pages' ≡ pages))
    ⊎ ((back ≡ some (old, true)) × (suc descs' ≡ descs) × (page_of obj ∷ pages' ≡ pages))

abbrev IsTakenIn : List Bucket → ℕ → List ℕ → Taken → Type 0
IsTakenIn chain descs pages none = Unit
IsTakenIn chain descs pages (some (obj, chain', descs', pages')) =
    IsReturned obj chain descs pages (give_object (page_of obj) obj chain') descs' pages'

give_object-new :
    (size cp : ℕ) (chain : List Bucket)
    → page_of cp ≡ cp
    → give_object (page_of cp) cp (new_bucket size cp ∷ chain) ≡ some (chain, true)
unfolding give_object
give_object-new size cp chain e = rw (e, ==_self cp)

grow_chain-IsTakenIn :
    (size : ℕ) (chain : List Bucket) (descs : ℕ) (pages : List ℕ)
    → descs ≢ 0
    → All (λ p. p % 4096 ≡ 0) pages
    → IsTakenIn chain descs pages (grow_chain size chain (with_descs descs pages))
unfolding grow_chain
grow_chain-IsTakenIn size chain zero pages ne h = absurd (ne refl)
grow_chain-IsTakenIn size chain (suc n) [] ne h = tt
grow_chain-IsTakenIn size chain (suc n) (cp ∷ pages) ne h =
    let a = h.0 in
    let e : page_of cp ≡ cp = omega (arith, a) in
    inr (give_object-new size cp chain e, omega arith, ap (λ p. p ∷ pages) e)

take_in_chain-IsTakenIn :
    (size : ℕ) (chain : List Bucket) (descs : ℕ) (pages : List ℕ)
    → IsChain chain
    → descs ≢ 0
    → All (λ p. p % 4096 ≡ 0) pages
    → IsTakenIn chain descs pages (take_in_chain size chain descs pages)
unfolding take_in_chain
take_in_chain-IsTakenIn size chain descs pages ok ne h =
    either (take_object chain) (take_object-IsTaken chain ok)
  where
    either :
        (r : Option (ℕ × List Bucket))
        → IsTaken chain r
        → IsTakenIn chain descs pages (elim r [
          | some (obj, chain') ↦ some (obj, chain', descs, pages)
          | none ↦ grow_chain size chain (with_descs descs pages)
        ])
    either none t = grow_chain-IsTakenIn size chain descs pages ne h
    either (some (obj, chain')) t = inl (t.0, refl, refl)

-- The outcome of malloc() in the entries `dir` of bucket_dir.
abbrev IsMalloc : ℕ → Directory → ℕ → List ℕ → Option (ℕ × Heap) → Type 0
IsMalloc len dir descs pages none = Unit
IsMalloc len dir descs pages (some (obj, h)) =
    IsReturned obj dir descs pages (give_in (page_of obj) obj len h.bucket_dir) h.free_descs
      h.free_pages

give_in-here :
    (page obj len size : ℕ) (chain chain' : List Bucket) (dir : Directory) (b : Bool)
    → leb len size ≡ true
    → give_object page obj chain' ≡ some (chain, b)
    → give_in page obj len ((size, chain') ∷ dir) ≡ some ((size, chain) ∷ dir, b)
unfolding give_in
give_in-here page obj len size chain chain' dir b le e =
    let fits : ltb size len ≡ false = ground arith in rw (fits, e, give_in)

give_in-behind :
    (page obj len size : ℕ) (chain : List Bucket) (dir dir' : Directory) (b : Bool)
    → leb len size ≡ false
    → give_in page obj len dir' ≡ some (dir, b)
    → give_in page obj len ((size, chain) ∷ dir') ≡ some ((size, chain) ∷ dir, b)
unfolding give_in
give_in-behind page obj len size chain dir dir' b gt e =
    let small : ltb size len ≡ true = ground arith in rw (small, e, give_in)

malloc_in-IsMalloc :
    (len : ℕ) (dir : Directory) (descs : ℕ) (pages : List ℕ)
    → All (λ e. IsChain e.1) dir
    → descs ≢ 0
    → All (λ p. p % 4096 ≡ 0) pages
    → IsMalloc len dir descs pages (malloc_in len dir descs pages)
unfolding malloc_in
malloc_in-IsMalloc len [] descs pages ok ne h = tt
malloc_in-IsMalloc len ((size, chain) ∷ dir) descs pages ok ne h =
    elim (Bool-cases (leb len size)) [
      | inl fits ↦
          rw (fits, malloc_in)
            (here (take_in_chain size chain descs pages) fits
              (take_in_chain-IsTakenIn size chain descs pages ok.0 ne h))
      | inr small ↦
          rw (small, malloc_in)
            (behind (malloc_in len dir descs pages) small
              (malloc_in-IsMalloc len dir descs pages ok.1 ne h))
    ]
  where
    here :
        (r : Taken)
        → leb len size ≡ true
        → IsTakenIn chain descs pages r
        → IsMalloc len ((size, chain) ∷ dir) descs pages (elim r [
          | none ↦ none
          | some (obj, chain', descs', pages') ↦ some (
            obj,
            record { bucket_dir = (size, chain') ∷ dir; free_descs = descs'; free_pages = pages' },
          )
        ])
    here none le t = tt
    here (some (obj, chain', descs', pages')) le (inl (e, d, p)) =
        inl (give_in-here (page_of obj) obj len size chain chain' dir false le e, d, p)
    here (some (obj, chain', descs', pages')) le (inr (e, d, p)) =
        inr (give_in-here (page_of obj) obj len size chain chain' dir true le e, d, p)

    behind :
        (r : Option (ℕ × Heap))
        → leb len size ≡ false
        → IsMalloc len dir descs pages r
        → IsMalloc len ((size, chain) ∷ dir) descs pages (elim r [
          | none ↦ none
          | some (obj, h) ↦ some (obj, record h { bucket_dir = (size, chain) ∷ h.bucket_dir })
        ])
    behind none gt t = tt
    behind (some (obj, h)) gt (inl (e, d, p)) =
        inl (give_in-behind (page_of obj) obj len size chain dir h.bucket_dir false gt e, d, p)
    behind (some (obj, h)) gt (inr (e, d, p)) =
        inr (give_in-behind (page_of obj) obj len size chain dir h.bucket_dir true gt e, d, p)

-- Where malloc() gives an object, free_s() of it with the length asked for leads back to the same heap;
-- malloc() finds a free descriptor before it.
pub free_s-malloc :
    (len : ℕ) (h h' : Heap) (obj : ℕ)
    → IsHeap h
    → h.free_descs ≢ 0
    → malloc len h ≡ some (obj, h')
    → free_s obj len h' ≡ some h
unfolding malloc free_s
free_s-malloc len h h' obj ok ne e = back (
    subst (IsMalloc len h.bucket_dir h.free_descs h.free_pages) e
      (malloc_in-IsMalloc len h.bucket_dir h.free_descs h.free_pages ok.0 ne ok.1))
  where
    back :
        IsMalloc len h.bucket_dir h.free_descs h.free_pages (some (obj, h'))
        → free_s obj len h' ≡ some h
    back (inl (g, d, p)) =
        rw (g, free_s)
          (ap₂ (λ n l. some (record { bucket_dir = h.bucket_dir; free_descs = n; free_pages = l }))
            d p)
    back (inr (g, d, p)) =
        rw (g, free_s)
          (ap₂ (λ n l. some (record { bucket_dir = h.bucket_dir; free_descs = n; free_pages = l }))
            d p)
