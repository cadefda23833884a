-- ===== src/Tests/Memory.antt =====
-- mm/memory.c: a memory whose first frame holds a page directory, the second a table and the third a
-- page that two entries share; all the others are free.
use rv.Common.{
  ℕ, ◌+◌, ◌-◌, ◌%◌, ◌<◌, ◌≡◌, ◌≢◌, ◌⊎◌, refl, ◌∷◌, length, arith, if◌then◌else◌, ◌==◌, replicate,
  length-replicate, inr,
}
use rv.Mm.State.{Mem, done, exits, frame, count, paging_pages, phys_ppn, store, user_rwx}
use rv.Mm.Frames.{get_free_page, find_free, zero_page, zero_words}
use rv.Mm.Frames.Alloc.{Takes, get_free_page-Takes}
use rv.Mm.Tables.{put_page_pgdir, translate_user, table_for}
use rv.Mm.Tables.Map.{IsDirectory, translate_user-put_page}
use rv.Mm.Cow.{un_wp_page, sigsegv}
use rv.Mm.Cow.Unshare.{IsEntry, Unshared, un_wp_page-Unshared}

abbrev memory : Mem
memory = record {
  mem_map = 1 ∷ 1 ∷ 2 ∷ replicate (paging_pages - 3) 0;
  word = λ a.
      if a == frame 0
      then phys_ppn (frame 1) + 1
      else if a == frame 1
      then phys_ppn (frame 2) + 19
      else 0;
}

memory-length : length memory.mem_map ≡ paging_pages
memory-length = let z : ℕ = 0 in omega (arith, length-replicate (paging_pages - 3) z)

abbrev taken : Mem
taken = record {
  mem_map = 1 ∷ 1 ∷ 2 ∷ 1 ∷ replicate (paging_pages - 4) 0;
  word = zero_words 1024 (frame 3) memory.word;
}

get_free_page-memory : get_free_page memory ≡ done (frame 3) taken
unfolding get_free_page find_free zero_page
get_free_page-memory = refl

get_free_page-Takes_example : Takes memory (get_free_page memory)
get_free_page-Takes_example = get_free_page-Takes memory

directory : IsDirectory (frame 0) 0x5123 memory
directory = record {
  at = 0;
  is_frame = refl;
  in_use = omega arith;
  table = λ _. (omega arith, inr (omega arith));
}

abbrev mapped : Mem
mapped = store memory (frame 1 + 20) (phys_ppn (frame 2) + user_rwx)

put_page-memory : put_page_pgdir (frame 0) (frame 2) 0x5123 memory ≡ done (frame 2) mapped
unfolding put_page_pgdir table_for
put_page-memory = refl

translate_user-put_page_example :
    translate_user (frame 0) 0x5123 mapped ≡ done (frame 2 + 0x5123 % 4096) mapped
translate_user-put_page_example =
    translate_user-put_page (frame 0) (frame 2) 0x5123 memory mapped memory-length directory
      (omega arith) (omega arith) put_page-memory

entry : IsEntry (frame 1) 2 memory
entry = record {
  table = 1;
  index = 0;
  is_slot = refl;
  index_in = omega arith;
  table_used = omega arith;
  is_page = refl;
  page_in = omega arith;
  page_used = omega arith;
  page_char = omega arith;
  differ = omega arith;
}

un_wp_page-Unshared_example :
    ((m : Mem) × (un_wp_page (frame 1) memory ≡ done tt m) × Unshared (frame 1) 2 memory m)
    ⊎ ((un_wp_page (frame 1) memory ≡ exits sigsegv)
        × (count memory 2 ≢ 1)
        × ((j : ℕ) → j < paging_pages → count memory j ≢ 0))
un_wp_page-Unshared_example = un_wp_page-Unshared (frame 1) 2 memory memory-length entry
