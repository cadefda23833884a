-- ===== src/Mm/Frames/Alloc.antt =====
-- mm/memory.c: what get_free_page() takes and free_page() gives back.
use rv.Common.{
  ℕ, zero, suc, ◌+◌, ◌-◌, ◌*◌, ◌≤◌, ◌<◌, ◌≡◌, ◌≢◌, ◌⊎◌, inl, inr, refl, false, ltb, leb, ◌==◌,
  if◌then◌else◌, List, [], ◌∷◌, get_or, set, length, arith, Option-cases, get_or-set_self, ap,
}
use rv.Mm.State.{
  Mem, ram_base, ram_end, paging_pages, map_nr, frame, count, set_count, Outcome, done, panics,
  page_words,
}
use rv.Mm.Frames.{
  zero_page, find_free, get_free_page, free_page, find_free-first, find_free-none, zero_words-in,
  zero_words-out,
}

-- What get_free_page() gives: nothing, where every frame is in use; or the first free frame, now with
-- one user and filled with zeros, while every other count and every word outside it stay.
abbrev pub Takes : Mem → Outcome ℕ → Type 0
Takes m r =
    ((r ≡ done 0 m) × ((j : ℕ) → j < length m.mem_map → count m j ≢ 0))
    ⊎ ((i : ℕ) × (m' : Mem) × (r ≡ done (frame i) m')
        × (i < length m.mem_map)
        × (count m i ≡ 0)
        × ((j : ℕ) → j < i → count m j ≢ 0)
        × (m'.mem_map ≡ set m.mem_map i 1)
        × ((k : ℕ) → k < page_words → m'.word (frame i + 4 * k) ≡ 0)
        × ((b : ℕ) → (b < frame i) ⊎ (frame (suc i) ≤ b) → m'.word b ≡ m.word b))

-- get_free_page() takes the first frame with no user, counts one user for it and fills it with zeros;
-- no other count and no word of another frame changes. It gives 0 and changes nothing exactly where
-- every frame has a user.
pub get_free_page-Takes : (m : Mem) → Takes m (get_free_page m)
unfolding get_free_page zero_page
get_free_page-Takes m = elim (Option-cases (find_free m.mem_map 0)) [
  | inl e ↦ inl (rw (e, get_free_page), λ j l. find_free-none m.mem_map 0 j e l)
  | inr (i, e) ↦
      let (j, s, l, g, low) = find_free-first m.mem_map 0 i e in
      let q : i ≡ j = omega arith in
      inr (
        i,
        zero_page (frame i) (set_count m i 1),
        rw (e, get_free_page),
        rw q l,
        rw q g,
        λ h lt. low h (omega arith),
        refl,
        λ k lt. zero_words-in page_words (frame i) m.word k lt,
        λ b out. zero_words-out page_words (frame i) m.word b (outside i b out),
      )
]
  where
    outside :
        (i b : ℕ)
        → (b < frame i) ⊎ (frame (suc i) ≤ b)
        → (b < frame i) ⊎ (frame i + 4 * page_words ≤ b)
    outside i b (inl h) = inl h
    outside i b (inr h) = inr (omega arith)

set-set_back :
    (xs : List ℕ) (i v c : ℕ) → get_or xs i 0 ≡ c → i < length xs → set (set xs i v) i c ≡ xs
set-set_back [] i v c e l = refl
set-set_back (x ∷ xs) zero v c e l = rw e
set-set_back (x ∷ xs) (suc i) v c e l = ap (λ ys. x ∷ ys) (set-set_back xs i v c e (omega arith))

-- free_page() at the start of frame `i`: out of range and free frames end in panic(), any other
-- loses one user.
free_page-frame :
    (m : Mem) (i : ℕ)
    → i < paging_pages
    → free_page (frame i) m
      ≡ (if count m i == 0 then panics else done tt (set_count m i (count m i - 1)))
unfolding free_page
free_page-frame m i h =
    let e : map_nr (frame i) ≡ i = omega arith in
    let below : ltb (frame i) ram_base ≡ false = ground arith in
    let inside : leb ram_end (frame i) ≡ false = ground arith in rw (below, inside, e)

-- A page that was just taken can be given back, and then every frame has the users that it had.
pub free_page-get_free_page :
    (m m' : Mem) (i : ℕ)
    → length m.mem_map ≡ paging_pages
    → i < paging_pages
    → get_free_page m ≡ done (frame i) m'
    → (m'' : Mem) × (free_page (frame i) m' ≡ done tt m'') × (m''.mem_map ≡ m.mem_map)
free_page-get_free_page m m' i len h e = go (get_free_page-Takes m)
  where
    go :
        Takes m (get_free_page m)
        → (m'' : Mem) × (free_page (frame i) m' ≡ done tt m'') × (m''.mem_map ≡ m.mem_map)
    go (inl (q, u)) = let x : 0 ≡ frame i = cc in absurd (omega arith)
    go (inr (j, n, q, l, c, low, s, z, w)) =
        let x : frame j ≡ frame i = cc in
        let y : n ≡ m' = cc in
        let ji : j ≡ i = omega arith in
        let mm : m'.mem_map ≡ set m.mem_map i 1 = rw (← y, ← ji) s in
        let one : count m' i ≡ 1 = rw mm (get_or-set_self m.mem_map i 1 0 (omega arith)) in
        (
          set_count m' i 0,
          rw (free_page-frame m' i h, one),
          rw mm (set-set_back m.mem_map i 1 0 (rw (← ji) c) (omega arith)),
        )
