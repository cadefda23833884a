-- ===== src/Block/Cache/Choice.antt =====
-- fs/buffer.c, getblk(): the buffer that the loop over the free list chooses.
use rv.Common.{
  ℕ, ◌≤◌, ◌≡◌, ◌≢◌, refl, sym, ◌⊎◌, inl, inr, true, false, ltb, ltb→lt, ◌<◌, ◌==◌, Option, none,
  some, List, [], ◌∷◌, arith, Bool-cases, some-inj,
}
use rv.Block.Buffers.{Buffers, buffer_at}
use rv.Block.Cache.{badness, is_better, choose_buffer}
use rv.Block.Cache.Invariant.{In}

abbrev pub bad : Buffers → ℕ → ℕ
bad bs i = badness (buffer_at bs i)

abbrev pub count : Buffers → ℕ → ℕ
count bs i = (buffer_at bs i).b_count

-- Of a free list and a buffer chosen before: nothing, where all are in use, or an unused buffer than
-- which none is less bad.
abbrev pub IsChosen : Buffers → List ℕ → Option ℕ → Option ℕ → Type 0
IsChosen bs l best none = (best ≡ none) × ((i : ℕ) → In i l → count bs i ≢ 0)
IsChosen bs l best (some r) =
    ((In r l × (count bs r ≡ 0)) ⊎ (best ≡ some r))
    × ((i : ℕ) → In i l → count bs i ≡ 0 → bad bs r ≤ bad bs i)
    × ((b : ℕ) → best ≡ some b → bad bs r ≤ bad bs b)

not_below : (a b : ℕ) → ltb a b ≡ false → b ≤ a
not_below a b h = ground arith

module _ (bs : Buffers) where
  passes_used :
      (tmp : ℕ) (l : List ℕ) (best r : Option ℕ)
      → count bs tmp ≢ 0
      → IsChosen bs l best r
      → IsChosen bs (tmp ∷ l) best r
  passes_used tmp l best none u (e, all) =
      (e, λ i m. elim m [ inl same ↦ rw same u | inr m ↦ all i m ])
  passes_used tmp l best (some r) u (from, least, prior) = (
    elim from [ inl (m, z) ↦ inl (inr m, z) | inr e ↦ inr e ],
    (λ i m z. elim m [ inl same ↦ absurd (u (rw same at z)) | inr m ↦ least i m z ]),
    prior,
  )

  passes_worse :
      (tmp b : ℕ) (l : List ℕ) (r : Option ℕ)
      → bad bs b ≤ bad bs tmp
      → IsChosen bs l (some b) r
      → IsChosen bs (tmp ∷ l) (some b) r
  passes_worse tmp b l none le (e, all) = cc
  passes_worse tmp b l (some r) le (from, least, prior) = (
    elim from [ inl (m, z) ↦ inl (inr m, z) | inr e ↦ inr e ],
    (λ i m z. elim m [
      | inl same ↦ let p = prior b refl in rw same (omega arith)
      | inr m ↦ least i m z
    ]),
    prior,
  )

  passes_other :
      (tmp : ℕ) (l : List ℕ) (best r : Option ℕ)
      → is_better bs (buffer_at bs tmp) best ≡ false
      → IsChosen bs l best r
      → IsChosen bs (tmp ∷ l) best r
  passes_other tmp l none r h ok = cc
  passes_other tmp l (some b) r h ok =
      passes_worse tmp b l r (not_below (bad bs tmp) (bad bs b) h) ok

  takes :
      (tmp : ℕ) (l : List ℕ) (best r : Option ℕ)
      → count bs tmp ≡ 0
      → is_better bs (buffer_at bs tmp) best ≡ true
      → IsChosen bs l (some tmp) r
      → IsChosen bs (tmp ∷ l) best r
  takes tmp l best none z h (e, all) = cc
  takes tmp l best (some r) z h (from, least, prior) = (
    elim from [
      | inl (m, z) ↦ inl (inr m, z)
      | inr e ↦ let q : tmp ≡ r = some-inj e in inl (inl (sym q), rw (← q) z)
    ],
    (λ i m z. elim m [ inl same ↦ rw same (prior tmp refl) | inr m ↦ least i m z ]),
    λ b e.
        let q : ltb (bad bs tmp) (bad bs b) ≡ true = rw e at h in
        let p : bad bs tmp < bad bs b = ltb→lt (bad bs tmp) (bad bs b) q in
        let o = prior tmp refl in omega (arith, p, o),
  )

  ends_at :
      (tmp : ℕ) (l : List ℕ) (best : Option ℕ)
      → count bs tmp ≡ 0
      → bad bs tmp ≡ 0
      → IsChosen bs (tmp ∷ l) best (some tmp)
  ends_at tmp l best z b = (inl (inl refl, z), (λ i m u. omega (arith, b)), λ i e. omega (arith, b))

  pub choose_buffer-IsChosen :
      (l : List ℕ) (best : Option ℕ) → IsChosen bs l best (choose_buffer bs l best)
  unfolding choose_buffer
  choose_buffer-IsChosen [] none = (refl, λ i m. absurd m)
  choose_buffer-IsChosen [] (some r) =
      (inr refl, (λ i m. absurd m), λ b e. let q : r ≡ b = some-inj e in rw q (omega arith))
  choose_buffer-IsChosen (tmp ∷ l) best = elim (Bool-cases (count bs tmp == 0)) [
    | inr used ↦ rw used (
        passes_used tmp l best (choose_buffer bs l best) (λ z. ground arith)
          (choose_buffer-IsChosen l best))
    | inl unused ↦ elim (Bool-cases (is_better bs (buffer_at bs tmp) best)) [
      | inl better ↦ elim (Bool-cases (bad bs tmp == 0)) [
        | inl good ↦ rw (unused, better, good) (ends_at tmp l best (ground arith) (ground arith))
        | inr poor ↦
            rw (unused, better, poor)
              (takes tmp l best (choose_buffer bs l (some tmp)) (ground arith) better
                (choose_buffer-IsChosen l (some tmp)))
      ]
      | inr worse ↦
          rw (unused, worse)
            (passes_other tmp l best (choose_buffer bs l best) worse
              (choose_buffer-IsChosen l best))
    ]
  ]
