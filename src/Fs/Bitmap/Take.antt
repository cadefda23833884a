-- ===== src/Fs/Bitmap/Take.antt =====
-- fs/bitmap.c: what new_block() takes.
use rv.Common.{
  ℕ, zero, suc, ◌+◌, ◌/◌, ◌%◌, ◌≤◌, ◌<◌, ◌≡◌, ◌≢◌, ◌⊎◌, inl, inr, refl, Option, none, some, true,
  false, ltb, leb, ◌==◌, arith, Bool-cases, Option-cases, get_or, set, length, List, [], ◌∷◌, sym,
  ◌∙◌, some-inj, subst, if◌then◌else◌, get_or-set_self, get_or-set_ne,
}
use rv.Common.Bits.{bit-set_bit}
use rv.Fs.Bitmap.{
  Block, Super, Outcome, done, panics, bit_of, set_bit, find_first_zero, find_zone, zone_of,
  bits_per_block, new_block, is_cached,
}

-- After set_bit() the bit is set and every other one is as it was.
bit_of-set_bit :
    (nr k : ℕ) (b : Block) → bit_of k (set_bit nr b).1 ≡ (if nr == k then true else bit_of k b)
unfolding set_bit
bit_of-set_bit nr k b = elim (Bool-cases (nr / 8 == k / 8)) [
  | inl same ↦
      let q : nr / 8 ≡ k / 8 = ground arith in
      rw (same, bit-set_bit (b (nr / 8)) (nr % 8) (k % 8), q) (ground arith)
  | inr other ↦ rw other (ground arith)
]

find_first_zero-clear :
    (n i : ℕ) (b : Block)
    → (i ≤ find_first_zero n i b)
      × ((find_first_zero n i b ≡ i + n)
          ⊎ ((find_first_zero n i b < i + n) × (bit_of (find_first_zero n i b) b ≡ false)))
unfolding find_first_zero
find_first_zero-clear zero i b = (omega arith, inl (omega arith))
find_first_zero-clear (suc n) i b = elim (Bool-cases (bit_of i b)) [
  | inl used ↦
      let (le, r) = find_first_zero-clear n (suc i) b in
      rw (used, find_first_zero) (omega arith, ground arith)
  | inr free ↦ rw (free, find_first_zero) (omega arith, inr (omega arith, free))
]

find_first_zero-full :
    (n i k : ℕ) (b : Block) → find_first_zero n i b ≡ i + n → i ≤ k → k < i + n → bit_of k b ≡ true
unfolding find_first_zero
find_first_zero-full zero i k b e lo hi = absurd (omega arith)
find_first_zero-full (suc n) i k b e lo hi = elim (Bool-cases (bit_of i b)) [
  | inr free ↦
      let q : find_first_zero (suc n) i b ≡ i = rw (free, find_first_zero) in absurd (omega arith)
  | inl used ↦
      let q : find_first_zero (suc n) i b ≡ find_first_zero n (suc i) b =
        rw (used, find_first_zero) in
      elim (Bool-cases (i == k)) [
        | inl here ↦ let p : i ≡ k = ground arith in rw (← p) used
        | inr later ↦ find_first_zero-full n (suc i) k b (omega arith) (ground arith) (omega arith)
      ]
]

find_zone-some :
    (ms : List (Option Block)) (i k j : ℕ) (b : Block)
    → find_zone i ms ≡ some (k, j, b)
    → (h : ℕ) × (k ≡ i + h)
      × (h < length ms)
      × (get_or ms h none ≡ some b)
      × (j < bits_per_block)
      × (bit_of j b ≡ false)
unfolding find_zone
find_zone-some [] i k j b e = cc
find_zone-some (none ∷ ms) i k j b e =
    let (h, s, l, g, r, c) = find_zone-some ms (suc i) k j b e in
    (suc h, omega arith, omega arith, g, r, c)
find_zone-some (some m ∷ ms) i k j b e =
    elim (Bool-cases (ltb (find_first_zero bits_per_block 0 m) bits_per_block)) [
      | inr full ↦
          let (h, s, l, g, r, c) = find_zone-some ms (suc i) k j b (rw full at e) in
          (suc h, omega arith, omega arith, g, r, c)
      | inl free ↦
          let q : (i, find_first_zero bits_per_block 0 m, m) ≡ (k, j, b) =
            some-inj (rw free at e) in
          let qk : i ≡ k = cc q in
          let qj : find_first_zero bits_per_block 0 m ≡ j = cc q in
          let qb : m ≡ b = cc q in
          let clear : bit_of (find_first_zero bits_per_block 0 m) m ≡ false = is_clear free in
          (0, omega arith, omega arith, cc qb, ground arith, cc (clear, qj, qb))
    ]
  where
    is_clear :
        ltb (find_first_zero bits_per_block 0 m) bits_per_block ≡ true
        → bit_of (find_first_zero bits_per_block 0 m) m ≡ false
    is_clear free = elim (find_first_zero-clear bits_per_block 0 m).1 [
      | inl last ↦ absurd (ground arith)
      | inr (l, c) ↦ c
    ]

find_zone-none :
    (ms : List (Option Block)) (i h k : ℕ) (b : Block)
    → find_zone i ms ≡ none
    → get_or ms h none ≡ some b
    → k < bits_per_block
    → bit_of k b ≡ true
unfolding find_zone
find_zone-none [] i h k b e g l = cc
find_zone-none (none ∷ ms) i zero k b e g l = cc
find_zone-none (none ∷ ms) i (suc h) k b e g l = find_zone-none ms (suc i) h k b e g l
find_zone-none (some m ∷ ms) i h k b e g l =
    elim (Bool-cases (ltb (find_first_zero bits_per_block 0 m) bits_per_block)) [
      | inl free ↦ cc (rw free at e)
      | inr full ↦ go (find_zone-none ms (suc i)) full h g (rw full at e)
    ]
  where
    end :
        ltb (find_first_zero bits_per_block 0 m) bits_per_block ≡ false
        → find_first_zero bits_per_block 0 m ≡ 0 + bits_per_block
    end full = elim (find_first_zero-clear bits_per_block 0 m).1 [
      | inl last ↦ last
      | inr (l, c) ↦ absurd (ground arith)
    ]

    go :
        ((h k : ℕ) (b : Block)
          → find_zone (suc i) ms ≡ none
          → get_or ms h none ≡ some b
          → k < bits_per_block
          → bit_of k b ≡ true)
        → ltb (find_first_zero bits_per_block 0 m) bits_per_block ≡ false
        → (h : ℕ) → get_or (some m ∷ ms) h none ≡ some b
        → find_zone (suc i) ms ≡ none
        → bit_of k b ≡ true
    go rest full zero g e' =
        let q : m ≡ b = some-inj g in
        rw (← q) (find_first_zero-full bits_per_block 0 k m (end full) (omega arith) l)
    go rest full (suc h) g e' = rest h k b e' g l

-- The bit j of map block i, which was clear, is set, and every other bit of the maps is as it was.
pub record Marks (sb sb' : Super) (i j : ℕ) : Type 0 where
  pub old : Block
  pub new : Block
  pub was : get_or sb.s_zmap i none ≡ some old
  pub is_now : get_or sb'.s_zmap i none ≡ some new
  pub in_block : j < bits_per_block
  pub was_clear : bit_of j old ≡ false
  pub only_bit : (k : ℕ) → bit_of k new ≡ (if j == k then true else bit_of k old)
  pub only_block : (h : ℕ) → i ≢ h → get_or sb'.s_zmap h none ≡ get_or sb.s_zmap h none

-- What new_block() owes: 0, with nothing changed, and only if every map block is full; or it marks one
-- bit, and gives the zone of that bit, or 0 where the zone is past the end of the device; or it panics,
-- and only because the zone of a clear bit is in use in the buffer cache.
abbrev pub TakesZone : (ℕ → Option ℕ) → Super → Outcome ℕ → Type 0
TakesZone cached sb panics =
    (i : ℕ) × (j : ℕ) × (b : Block) × (get_or sb.s_zmap i none ≡ some b)
    × (bit_of j b ≡ false)
    × (is_cached (cached (zone_of sb i j)) ≡ true)
TakesZone cached sb (done z sb') =
    ((z ≡ 0)
      × (sb' ≡ sb)
      × ((h k : ℕ) (b : Block)
          → get_or sb.s_zmap h none ≡ some b
          → k < bits_per_block
          → bit_of k b ≡ true))
    ⊎ ((i : ℕ) × (j : ℕ) × Marks sb sb' i j
        × (((z ≡ zone_of sb i j) × (z < sb.s_nzones)) ⊎ ((z ≡ 0) × (sb.s_nzones ≤ zone_of sb i j))))

set_bit-Marks :
    (sb : Super) (i j : ℕ) (b : Block)
    → i < length sb.s_zmap
    → get_or sb.s_zmap i none ≡ some b
    → j < bits_per_block
    → bit_of j b ≡ false
    → Marks sb (record sb { s_zmap = set sb.s_zmap i (some (set_bit j b).1) }) i j
set_bit-Marks sb i j b l g jl c = record {
  old = b;
  new = (set_bit j b).1;
  was = g;
  is_now = get_or-set_self sb.s_zmap i (some (set_bit j b).1) none l;
  in_block = jl;
  was_clear = c;
  only_bit = λ k. bit_of-set_bit j k b;
  only_block = λ h ne. get_or-set_ne sb.s_zmap i h (some (set_bit j b).1) none ne;
}

set_bit-old : (j : ℕ) (b : Block) → (set_bit j b).0 ≡ bit_of j b
unfolding set_bit
set_bit-old j b = refl

-- new_block() does what `TakesZone` says.
pub new_block-TakesZone :
    (cached : ℕ → Option ℕ) (sb : Super) → TakesZone cached sb (new_block cached sb)
unfolding new_block
new_block-TakesZone cached sb = elim (Option-cases (find_zone 0 sb.s_zmap)) [
  | inl e ↦
      ends (done 0 sb) (rw (e, new_block))
        (inl (refl, refl, λ h k b g l. find_zone-none sb.s_zmap 0 h k b e g l))
  | inr ((i, j, b), e) ↦
      let (h, s, l, g, jl, c) = find_zone-some sb.s_zmap 0 i j b e in
      let q : h ≡ i = omega arith in
      let il : i < length sb.s_zmap = omega arith in
      let gi : get_or sb.s_zmap i none ≡ some b = rw (← q) g in
      let marks = set_bit-Marks sb i j b il gi jl c in
      let old : (set_bit j b).0 ≡ false = set_bit-old j b ∙ c in
      elim (Bool-cases (leb sb.s_nzones (zone_of sb i j))) [
        | inl past ↦
            ends (done 0 (marked i j b)) (rw (e, old, past, new_block))
              (inr (i, j, marks, inr (refl, ground arith)))
        | inr within ↦ elim (Bool-cases (is_cached (cached (zone_of sb i j)))) [
          | inl in_use ↦
              ends panics (rw (e, old, within, in_use, new_block)) (i, j, b, gi, c, in_use)
          | inr free ↦
              ends (done (zone_of sb i j) (marked i j b)) (rw (e, old, within, free, new_block))
                (inr (i, j, marks, inl (refl, ground arith)))
        ]
      ]
]
  where
    marked : ℕ → ℕ → Block → Super
    marked i j b = record sb { s_zmap = set sb.s_zmap i (some (set_bit j b).1) }

    ends :
        (r : Outcome ℕ)
        → new_block cached sb ≡ r
        → TakesZone cached sb r
        → TakesZone cached sb (new_block cached sb)
    ends r q = subst (TakesZone cached sb) (sym q)
