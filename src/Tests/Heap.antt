-- ===== src/Tests/Heap.antt =====
-- lib/malloc.c: a heap with one free page.
use rv.Common.{◌≡◌, refl, some, [], ◌∷◌, arith}
use rv.Mm.Malloc.{Heap, malloc, malloc_in, take_in_chain, take_object, grow_chain, objects, free_s}
use rv.Mm.Malloc.Return.{free_s-malloc}

abbrev heap : Heap
heap = record {
  bucket_dir = (16, []) ∷ (2048, []) ∷ [];
  free_descs = 3;
  free_pages = 0x80001000 ∷ [];
}

-- After malloc(2000).
abbrev taken : Heap
taken = record {
  bucket_dir =
      (16, [])
      ∷ (
        2048,
        (record { page = 0x80001000; free = 0x80001800 ∷ []; refcnt = 1; bucket_size = 2048 }) ∷ [],
      )
      ∷ [];
  free_descs = 2;
  free_pages = [];
}

malloc_taken : malloc 2000 heap ≡ some (0x80001000, taken)
unfolding malloc malloc_in take_in_chain take_object grow_chain objects
malloc_taken = refl

free_s-malloc_example : free_s 0x80001000 2000 taken ≡ some heap
free_s-malloc_example =
    free_s-malloc 2000 heap taken 0x80001000 ((tt, (tt, tt)), (refl, tt)) (omega arith) malloc_taken
