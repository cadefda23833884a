-- ===== src/Mm/Malloc.antt =====
-- lib/malloc.c. A chain of bucket descriptors and the chain of free objects of a bucket, from freeptr
-- on, are lists; of the free descriptors only the number matters. get_free_page() takes the first of
-- the free pages, and free_page() puts a page in front of them.
pub mod Return
use rv.Common.{
  ℕ, zero, suc, ◌+◌, ◌-◌, ◌*◌, ◌/◌, ◌%◌, ◌^◌, Option, none, some, Bool, true, false, leb, ltb, ◌==◌,
  if◌then◌else◌, List, [], ◌∷◌,
}

-- struct bucket_desc
pub record Bucket : Type 0 where
  pub page : ℕ
  pub free : List ℕ
  pub refcnt : ℕ
  pub bucket_size : ℕ

-- struct _bucket_dir: a size and its chain
abbrev pub Directory : Type 0
Directory = List (ℕ × List Bucket)

pub record Heap : Type 0 where
  pub bucket_dir : Directory
  pub free_descs : ℕ
  pub free_pages : List ℕ

-- The bucket_dir at the start.
abbrev pub empty_dir : Directory
empty_dir =
    (16, [])
    ∷ (32, [])
    ∷ (64, [])
    ∷ (128, [])
    ∷ (256, [])
    ∷ (512, [])
    ∷ (1024, [])
    ∷ (2048, [])
    ∷ (4096, [])
    ∷ []

-- The chain of n free objects from cp on.
unfoldable pub objects : ℕ → ℕ → ℕ → List ℕ
objects zero cp size = []
objects (suc n) cp size = cp ∷ objects n (cp + size) size

abbrev pub count_use : Bucket → List ℕ → Bucket
count_use b rest = record b { free = rest; refcnt = (b.refcnt + 1) % 2 ^ 16 }

-- One bucket of the search for a free object, with what the rest of the chain gives.
unfoldable pub take_or :
    List ℕ → Bucket → List Bucket → Option (ℕ × List Bucket) → Option (ℕ × List Bucket)
take_or (obj ∷ rest) b l r = some (obj, count_use b rest ∷ l)
take_or [] b l none = none
take_or [] b l (some (obj, l')) = some (obj, b ∷ l')

-- The first object of the first bucket of a chain that has one free.
unfoldable pub take_object : List Bucket → Option (ℕ × List Bucket)
take_object [] = none
take_object (b ∷ l) = take_or b.free b l (take_object l)

-- init_bucket_desc(), where there is no free descriptor: a page has 256 of them.
abbrev pub with_descs : ℕ → List ℕ → Option (ℕ × List ℕ)
with_descs zero [] = none
with_descs zero (p ∷ pages) = some (256, pages)
with_descs (suc n) pages = some (suc n, pages)

-- A bucket on a new page, whose first object is taken.
abbrev pub new_bucket : ℕ → ℕ → Bucket
new_bucket size cp = record {
  page = cp;
  free = objects (4096 / size - 1) (cp + size) size;
  refcnt = 1;
  bucket_size = size;
}

-- The object, the chain, the number of free descriptors and the free pages; `none` for panic().
abbrev pub Taken : Type 0
Taken = Option (ℕ × List Bucket × ℕ × List ℕ)

unfoldable pub grow_chain : ℕ → List Bucket → Option (ℕ × List ℕ) → Taken
grow_chain size chain none = none
grow_chain size chain (some (descs, [])) = none
grow_chain size chain (some (descs, cp ∷ pages)) =
    some (cp, new_bucket size cp ∷ chain, descs - 1, pages)

unfoldable pub take_in_chain : ℕ → List Bucket → ℕ → List ℕ → Taken
take_in_chain size chain descs pages = elim (take_object chain) [
  | some (obj, chain') ↦ some (obj, chain', descs, pages)
  | none ↦ grow_chain size chain (with_descs descs pages)
]

-- From the entries of bucket_dir that are left: none is large enough, or the first one that is.
unfoldable pub malloc_in : ℕ → Directory → ℕ → List ℕ → Option (ℕ × Heap)
malloc_in len [] descs pages = none
malloc_in len ((size, chain) ∷ dir) descs pages =
    if leb len size
    then elim (take_in_chain size chain descs pages) [
      | none ↦ none
      | some (obj, chain', descs', pages') ↦ some (
        obj,
        record { bucket_dir = (size, chain') ∷ dir; free_descs = descs'; free_pages = pages' },
      )
    ]
    else elim (malloc_in len dir descs pages) [
      | none ↦ none
      | some (obj, h) ↦ some (obj, record h { bucket_dir = (size, chain) ∷ h.bucket_dir })
    ]

unfoldable pub malloc : ℕ → Heap → Option (ℕ × Heap)
malloc len h = malloc_in len h.bucket_dir h.free_descs h.free_pages

-- The chain with the object given back, and whether the bucket's page is free now; none if the page is
-- no bucket's of the chain.
unfoldable pub give_object : ℕ → ℕ → List Bucket → Option (List Bucket × Bool)
give_object page obj [] = none
give_object page obj (b ∷ l) =
    if b.page == page
    then if b.refcnt == 1
      then some (l, true)
      else some
          ((record b { free = obj ∷ b.free; refcnt = (b.refcnt + 2 ^ 16 - 1) % 2 ^ 16 }) ∷ l, false)
    else elim (give_object page obj l) [ none ↦ none | some (l', b') ↦ some (b ∷ l', b') ]

-- The search over bucket_dir, without the entries smaller than the size given.
unfoldable pub give_in : ℕ → ℕ → ℕ → Directory → Option (Directory × Bool)
give_in page obj wanted [] = none
give_in page obj wanted ((size, chain) ∷ dir) =
    let rest : Option (Directory × Bool) = elim (give_in page obj wanted dir) [
      | none ↦ none
      | some (dir', b) ↦ some ((size, chain) ∷ dir', b)
    ] in
    if ltb size wanted then rest else elim (give_object page obj chain) [
      | none ↦ rest
      | some (chain', b) ↦ some ((size, chain') ∷ dir, b)
    ]

-- free_s(); `none` for panic().
unfoldable pub free_s : ℕ → ℕ → Heap → Option Heap
free_s obj size h =
    let page = obj / 4096 * 4096 in
    elim (give_in page obj size h.bucket_dir) [
      | none ↦ none
      | some (dir, emptied) ↦ some (
          if emptied
          then record {
            bucket_dir = dir;
            free_descs = suc h.free_descs;
            free_pages = page ∷ h.free_pages;
          }
          else record h { bucket_dir = dir })
    ]
