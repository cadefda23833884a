-- ===== src/Mm/Frames.antt =====
-- mm/memory.c: get_free_page(), free_page(), mem_init() and the loops over the words of a page.
pub mod Alloc
use rv.Common.{
  ℕ, zero, suc, ◌+◌, ◌-◌, ◌*◌, ◌/◌, ◌≤◌, ◌<◌, ◌≡◌, ◌≢◌, ◌⊎◌, inl, inr, refl, Bool, true, false, ltb,
  leb, ◌==◌, if◌then◌else◌, List, [], ◌∷◌, get_or, set, Option, none, some, length, arith,
  replicate, Bool-cases, ◌∙◌,
}
use rv.Mm.State.{
  Mem, ram_base, ram_end, paging_pages, map_nr, frame, count, set_count, update, Outcome, done,
  panics, M, page_words,
}

-- `for (i = 0; i < n; i++) p[i] = 0` from the address `a` on
unfoldable pub zero_words : ℕ → ℕ → (ℕ → ℕ) → ℕ → ℕ
zero_words zero a w = w
zero_words (suc n) a w = zero_words n (a + 4) (update w a 0)

unfoldable pub zero_page : ℕ → Mem → Mem
zero_page page m = record m { word = zero_words page_words page m.word }

-- copy_page(): `d[i] = s[i]`, the words read as the loop has left them.
unfoldable pub copy_words : ℕ → ℕ → ℕ → (ℕ → ℕ) → ℕ → ℕ
copy_words zero from to w = w
copy_words (suc n) from to w = copy_words n (from + 4) (to + 4) (update w to (w from))

unfoldable pub copy_page : ℕ → ℕ → Mem → Mem
copy_page from to m = record m { word = copy_words page_words from to m.word }

-- The first frame with no user, counted from `i`.
unfoldable pub find_free : List ℕ → ℕ → Option ℕ
find_free [] i = none
find_free (c ∷ cs) i = let rest = find_free cs (suc i) in if c == 0 then some i else rest

-- 0 where no frame is free
unfoldable pub get_free_page : M ℕ
get_free_page m = elim (find_free m.mem_map 0) [
  | none ↦ done 0 m
  | some i ↦ done (frame i) (zero_page (frame i) (set_count m i 1))
]

unfoldable pub free_page : ℕ → M (Unit {0})
free_page addr m =
    if ltb addr ram_base
    then done tt m
    else if leb ram_end addr
    then panics
    else if count m (map_nr addr) == 0
    then panics
    else done tt (set_count m (map_nr addr) (count m (map_nr addr) - 1))

-- mem_init(): `while (end_mem-- > 0) mem_map[start++] = 0`
unfoldable pub release_frames : ℕ → ℕ → List ℕ → List ℕ
release_frames zero start ms = ms
release_frames (suc n) start ms = release_frames n (start + 1) (set ms start 0)

abbrev pub used : ℕ
used = 100

unfoldable pub mem_init : ℕ → ℕ → Mem → Mem
mem_init start_mem end_mem m = record m {
  mem_map =
      release_frames ((end_mem - start_mem) / 4096) (map_nr start_mem)
        (replicate paging_pages used);
}

pub find_free-first :
    (cs : List ℕ) (i k : ℕ)
    → find_free cs i ≡ some k
    → (j : ℕ) × (k ≡ i + j)
      × (j < length cs)
      × (get_or cs j 0 ≡ 0)
      × ((h : ℕ) → h < j → get_or cs h 0 ≢ 0)
unfolding find_free
find_free-first [] i k e = cc
find_free-first (c ∷ cs) i k e = elim (Bool-cases (c == 0)) [
  | inl z ↦ (0, ground arith, omega arith, ground arith, λ h l. absurd (omega arith))
  | inr z ↦
      let (j, s, l, g, low) = find_free-first cs (suc i) k (rw z at e) in
      (suc j, omega arith, omega arith, g, below j z low)
]
  where
    below :
        (j : ℕ)
        → (c == 0) ≡ false
        → ((h : ℕ) → h < j → get_or cs h 0 ≢ 0)
        → (h : ℕ) → h < suc j
        → get_or (c ∷ cs) h 0 ≢ 0
    below j z low zero l = ground arith
    below j z low (suc h) l = low h (omega arith)

pub find_free-none :
    (cs : List ℕ) (i j : ℕ) → find_free cs i ≡ none → j < length cs → get_or cs j 0 ≢ 0
unfolding find_free
find_free-none [] i j e l = absurd (omega arith)
find_free-none (c ∷ cs) i zero e l = ground arith
find_free-none (c ∷ cs) i (suc j) e l = find_free-none cs (suc i) j (ground arith) (omega arith)

pub zero_words-out :
    (n a : ℕ) (w : ℕ → ℕ) (b : ℕ) → (b < a) ⊎ (a + 4 * n ≤ b) → zero_words n a w b ≡ w b
unfolding zero_words
zero_words-out zero a w b h = refl
zero_words-out (suc n) a w b h =
    zero_words-out n (a + 4) (update w a 0) b (ground arith) ∙ ground arith

pub zero_words-in : (n a : ℕ) (w : ℕ → ℕ) (i : ℕ) → i < n → zero_words n a w (a + 4 * i) ≡ 0
unfolding zero_words
zero_words-in zero a w i h = elim h [ ]
zero_words-in (suc n) a w zero h =
    zero_words-out n (a + 4) (update w a 0) (a + 4 * 0) (omega arith) ∙ ground arith
zero_words-in (suc n) a w (suc i) h =
    let e : a + 4 * suc i ≡ a + 4 + 4 * i = omega arith in
    rw e (zero_words-in n (a + 4) (update w a 0) i (omega arith))

pub copy_words-out :
    (n s d : ℕ) (w : ℕ → ℕ) (b : ℕ) → (b < d) ⊎ (d + 4 * n ≤ b) → copy_words n s d w b ≡ w b
unfolding copy_words
copy_words-out zero s d w b h = refl
copy_words-out (suc n) s d w b h =
    copy_words-out n (s + 4) (d + 4) (update w d (w s)) b (ground arith) ∙ ground arith

-- Pages that do not overlap: the copy holds what the source held.
pub copy_words-in :
    (n s d : ℕ) (w : ℕ → ℕ) (i : ℕ)
    → (s + 4 * n ≤ d) ⊎ (d + 4 * n ≤ s)
    → i < n
    → copy_words n s d w (d + 4 * i) ≡ w (s + 4 * i)
unfolding copy_words
copy_words-in zero s d w i ap h = elim h [ ]
copy_words-in (suc n) s d w zero apart h =
    let e : s + 4 * 0 ≡ s = omega arith in
    rw e
      (copy_words-out n (s + 4) (d + 4) (update w d (w s)) (d + 4 * 0) (omega arith) ∙ ground arith)
copy_words-in (suc n) s d w (suc i) apart h =
    let e : d + 4 * suc i ≡ d + 4 + 4 * i = omega arith in
    let f : s + 4 * suc i ≡ s + 4 + 4 * i = omega arith in
    rw (e, f)
      (copy_words-in n (s + 4) (d + 4) (update w d (w s)) i (ground arith) (omega arith)
        ∙ ground arith)
