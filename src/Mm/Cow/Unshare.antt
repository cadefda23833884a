-- ===== src/Mm/Cow/Unshare.antt =====
-- mm/memory.c, un_wp_page(): a write to a shared page gets a page of its own.
use rv.Common.{
  ℕ, suc, ◌+◌, ◌-◌, ◌*◌, ◌%◌, ◌≤◌, ◌<◌, ◌≡◌, ◌≢◌, ◌⊎◌, inl, inr, refl, true, false, leb, ◌==◌,
  arith, Bool-cases, ==_ne, ==_self, length, length-set, sym, ◌∙◌, set, get_or-set_self,
  get_or-set_ne,
}
use native.Mathlib.Decide.{dec_lt}
use rv.Mm.State.{
  Mem, done, exits, ◌>>◌, write, store, update, ram_base, paging_pages, frame, map_nr, count,
  set_count, page_words, pte_w, user_rw, pte_phys, phys_ppn, set_w, >>=-of-done, pte-fields,
}
use rv.Mm.Frames.{get_free_page, copy_page, copy_words-in, copy_words-out}
use rv.Mm.Frames.Alloc.{Takes, get_free_page-Takes}
use rv.Mm.Cow.{sigsegv, is_sole, unshare, copy_to, copy_shared, un_wp_page}

-- The entry at `slot` lies in a table in the frame `table`, and points to the frame `page`; both are in
-- use, and they are two frames.
pub record IsEntry (slot page : ℕ) (m : Mem) : Type 0 where
  pub table : ℕ
  pub index : ℕ
  pub is_slot : slot ≡ frame table + 4 * index
  pub index_in : index < page_words
  pub table_used : count m table ≢ 0
  pub is_page : pte_phys (m.word slot) ≡ frame page
  pub page_in : page < paging_pages
  pub page_used : count m page ≢ 0
  pub page_char : count m page < 256
  pub differ : table ≢ page

-- After the call the entry is writable, its page is used by it alone and holds what the page held
-- before, and the old page still holds it too. The old page was not shared and stays as it was, or it
-- has one user less and the entry points to another page.
pub record Unshared (slot page : ℕ) (m m' : Mem) : Type 0 where
  pub writable : pte_w (m'.word slot) ≡ true
  pub private : count m' (map_nr (pte_phys (m'.word slot))) ≡ 1
  pub same :
      (k : ℕ)
      → k < page_words
      → m'.word (pte_phys (m'.word slot) + 4 * k) ≡ m.word (frame page + 4 * k)
  pub kept : (k : ℕ) → k < page_words → m'.word (frame page + 4 * k) ≡ m.word (frame page + 4 * k)
  pub counts :
      ((count m page ≡ 1) × (m'.mem_map ≡ m.mem_map))
      ⊎ ((count m' page ≡ count m page - 1) × (pte_phys (m'.word slot) ≢ frame page))

map_nr-frame : (i : ℕ) → map_nr (frame i) ≡ i
map_nr-frame i = omega arith

set_w-fields : (p : ℕ) → (pte_w (set_w p) ≡ true) × (pte_phys (set_w p) ≡ pte_phys p)
set_w-fields p = ground arith

-- A word of the page is not the entry.
off-slot :
    (slot page : ℕ) (m : Mem) (k : ℕ)
    → IsEntry slot page m
    → k < page_words
    → (slot == (frame page + 4 * k)) ≡ false
off-slot slot page m k v h = ==_ne _ _ (λ e. v.differ (omega (arith, v.is_slot, v.index_in)))

sole-Unshared :
    (slot page : ℕ) (m : Mem)
    → IsEntry slot page m
    → count m page ≡ 1
    → Unshared slot page m (store m slot (set_w (m.word slot)))
sole-Unshared slot page m v one =
    let (w, p) = set_w-fields (m.word slot) in
    let q : pte_phys (set_w (m.word slot)) ≡ frame page = p ∙ v.is_page in
    record {
      writable = rw (==_self slot, w);
      private = rw (==_self slot, q, map_nr-frame page, one);
      same = λ k h. rw (==_self slot, q, off-slot slot page m k v h);
      kept = λ k h. rw (off-slot slot page m k v h);
      counts = inl (one, refl);
    }

-- The memory that copy_shared() leaves, where `n` is what get_free_page() left.
abbrev shared_result : ℕ → ℕ → ℕ → Mem → Mem
shared_result slot page i n =
    copy_page (frame page) (frame i)
      (store (set_count n page ((count n page + 255) % 256)) slot (phys_ppn (frame i) + user_rw))

outside :
    (i j k : ℕ)
    → j ≢ i
    → k < page_words
    → (frame j + 4 * k < frame i) ⊎ (frame i + 4 * page_words ≤ frame j + 4 * k)
outside i j k ne h = elim (dec_lt j i) [
  | yes l ↦ inl (omega arith)
  | no l ↦ inr (omega (arith, ne))
]

-- What is known of the page that get_free_page() took.
record IsTaken (i : ℕ) (m n : Mem) : Type 0 where
  full : length m.mem_map ≡ paging_pages
  taken_in : i < length m.mem_map
  was_free : count m i ≡ 0
  taken : n.mem_map ≡ set m.mem_map i 1
  others : (b : ℕ) → (b < frame i) ⊎ (frame (suc i) ≤ b) → n.word b ≡ m.word b

module _ (slot page i : ℕ) (m n : Mem) (v : IsEntry slot page m) (t : IsTaken i m n) where
  page-ne : page ≢ i
  page-ne e = v.page_used (rw e t.was_free)

  table-ne : v.table ≢ i
  table-ne e = v.table_used (rw e t.was_free)

  n-count : count n page ≡ count m page
  n-count = rw t.taken (get_or-set_ne m.mem_map i page 1 0 (λ e. page-ne (sym e)))

  n-page : (k : ℕ) → k < page_words → n.word (frame page + 4 * k) ≡ m.word (frame page + 4 * k)
  n-page k h = t.others _ (outside' (outside i page k page-ne h))
    where
      outside' :
          (frame page + 4 * k < frame i) ⊎ (frame i + 4 * page_words ≤ frame page + 4 * k)
          → (frame page + 4 * k < frame i) ⊎ (frame (suc i) ≤ frame page + 4 * k)
      outside' (inl h) = inl h
      outside' (inr h) = inr (omega arith)

  written :
      (k : ℕ)
      → k < page_words
      → update n.word slot (phys_ppn (frame i) + user_rw) (frame page + 4 * k)
        ≡ m.word (frame page + 4 * k)
  written k h = rw (off-slot slot page m k v h) (n-page k h)

  slot-kept : (shared_result slot page i n).word slot ≡ phys_ppn (frame i) + user_rw
  slot-kept =
      unfold copy_page in
      (copy_words-out page_words (frame page) (frame i)
          (update n.word slot (phys_ppn (frame i) + user_rw)) slot
          (rw v.is_slot (outside i v.table v.index table-ne v.index_in))
        ∙ rw (==_self slot))

  apart : (frame page + 4 * page_words ≤ frame i) ⊎ (frame i + 4 * page_words ≤ frame page)
  apart = elim (dec_lt page i) [ yes l ↦ inl (omega arith) | no l ↦ inr (omega (arith, page-ne)) ]

  result-count :
      (shared_result slot page i n).mem_map
      ≡ set (set m.mem_map i 1) page ((count m page + 255) % 256)
  result-count = unfold copy_page in rw (n-count, t.taken)

  private-count : count (shared_result slot page i n) i ≡ 1
  private-count = rw result-count (
      get_or-set_ne (set m.mem_map i 1) page i _ 0 page-ne
      ∙ get_or-set_self m.mem_map i 1 0 t.taken_in)

  page-count : count (shared_result slot page i n) page ≡ count m page - 1
  page-count = rw result-count (
      get_or-set_self (set m.mem_map i 1) page _ 0
        (omega (arith, length-set m.mem_map i 1, t.full, v.page_in))
      ∙ omega (arith, v.page_used, v.page_char))

  copied :
      (k : ℕ)
      → k < page_words
      → (shared_result slot page i n).word (frame i + 4 * k) ≡ m.word (frame page + 4 * k)
  copied k h =
      unfold copy_page in
      (copy_words-in page_words (frame page) (frame i)
          (update n.word slot (phys_ppn (frame i) + user_rw)) k apart h
        ∙ written k h)

  original :
      (k : ℕ)
      → k < page_words
      → (shared_result slot page i n).word (frame page + 4 * k) ≡ m.word (frame page + 4 * k)
  original k h =
      unfold copy_page in
      (copy_words-out page_words (frame page) (frame i)
          (update n.word slot (phys_ppn (frame i) + user_rw)) (frame page + 4 * k)
          (outside i page k page-ne h)
        ∙ written k h)

  shared-Unshared : Unshared slot page m (shared_result slot page i n)
  shared-Unshared =
      let (p, _, w, _) =
        pte-fields (frame i) user_rw (omega arith) (omega (arith, t.taken_in, t.full))
          (omega arith) in
      record {
        writable = rw (slot-kept, w);
        private = rw (slot-kept, p, map_nr-frame i) private-count;
        same = λ k h. rw (slot-kept, p) (copied k h);
        kept = original;
        counts = inr (page-count, λ e. page-ne (omega (arith, rw (slot-kept, p) at e)));
      }

unshare-frame :
    (page : ℕ) (n : Mem)
    → unshare (frame page) n ≡ done tt (set_count n page ((count n page + 255) % 256))
unfolding unshare
unshare-frame page n =
    let in_ram : leb ram_base (frame page) ≡ true = ground arith in rw (in_ram, map_nr-frame page)

copy_to-runs :
    (slot page i : ℕ) (n : Mem)
    → copy_to slot (frame page) (frame i) n ≡ done tt (shared_result slot page i n)
unfolding copy_to
copy_to-runs slot page i n = rw (==_ne (frame i) 0 (omega arith)) (
    >>=-of-done (unshare (frame page))
      (λ (_ : Unit {0}).
        write slot (phys_ppn (frame i) + user_rw)
        >> (λ m. done tt (copy_page (frame page) (frame i) m)))
      n (unshare-frame page n))

copy_shared-Unshared :
    (slot page : ℕ) (m : Mem)
    → length m.mem_map ≡ paging_pages
    → IsEntry slot page m
    → Takes m (get_free_page m)
    → ((m' : Mem) × (copy_shared slot (frame page) m ≡ done tt m') × Unshared slot page m m')
      ⊎ ((copy_shared slot (frame page) m ≡ exits sigsegv)
          × ((j : ℕ) → j < paging_pages → count m j ≢ 0))
unfolding copy_shared
copy_shared-Unshared slot page m len v (inl (q, u)) = inr (
  >>=-of-done get_free_page (copy_to slot (frame page)) m q ∙ none_free,
  λ j h. u j (omega (arith, len)),
)
  where
    none_free : copy_to slot (frame page) 0 m ≡ exits sigsegv
    none_free = unfold copy_to in refl
copy_shared-Unshared slot page m len v (inr (i, n, q, l, c, low, s, z, o)) = inl (
  shared_result slot page i n,
  >>=-of-done get_free_page (copy_to slot (frame page)) m q ∙ copy_to-runs slot page i n,
  shared-Unshared slot page i m n v
      (record { full = len; taken_in = l; was_free = c; taken = s; others = o }),
)

-- un_wp_page() on an entry of a table makes the entry writable on a page that nothing else uses, with
-- the old contents, and leaves the old page to its other users. It fails, by do_exit(SIGSEGV), only if
-- the page is shared and every frame is in use.
pub un_wp_page-Unshared :
    (slot page : ℕ) (m : Mem)
    → length m.mem_map ≡ paging_pages
    → IsEntry slot page m
    → ((m' : Mem) × (un_wp_page slot m ≡ done tt m') × Unshared slot page m m')
      ⊎ ((un_wp_page slot m ≡ exits sigsegv)
          × (count m page ≢ 1)
          × ((j : ℕ) → j < paging_pages → count m j ≢ 0))
unfolding un_wp_page
un_wp_page-Unshared slot page m len v = elim (Bool-cases (count m page == 1)) [
  | inl one ↦
      let sole : is_sole (pte_phys (m.word slot)) m ≡ true =
        rw (v.is_page, map_nr-frame page, one) (ground arith) in
      inl (_, rw sole, sole-Unshared slot page m v (ground arith))
  | inr many ↦
      let shared : is_sole (pte_phys (m.word slot)) m ≡ false =
        rw (v.is_page, map_nr-frame page, many) (ground arith) in
      rw (shared, v.is_page)
        (either (copy_shared-Unshared slot page m len v (get_free_page-Takes m)) (ground arith))
]
  where
    either :
        ((m' : Mem) × (copy_shared slot (frame page) m ≡ done tt m') × Unshared slot page m m')
          ⊎ ((copy_shared slot (frame page) m ≡ exits sigsegv)
              × ((j : ℕ) → j < paging_pages → count m j ≢ 0))
        → count m page ≢ 1
        → ((m' : Mem) × (copy_shared slot (frame page) m ≡ done tt m') × Unshared slot page m m')
          ⊎ ((copy_shared slot (frame page) m ≡ exits sigsegv)
              × (count m page ≢ 1)
              × ((j : ℕ) → j < paging_pages → count m j ≢ 0))
    either (inl h) ne = inl h
    either (inr (e, u)) ne = inr (e, ne, u)
