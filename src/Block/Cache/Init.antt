-- ===== src/Block/Cache/Init.antt =====
-- fs/buffer.c, buffer_init(): the cache at the start, and its memory.
use rv.Common.{
  ℕ, zero, suc, ◌+◌, ◌*◌, ◌-◌, ◌≤◌, ◌<◌, ◌≡◌, refl, ap, inl, inr, false, leb, leb→le, ◌==◌,
  if◌then◌else◌, List, [], ◌∷◌, arith, Bool-cases, All, length, length-replicate, replicate,
  get_or-replicate,
}
use rv.Block.Buffers.{no_buffer}
use rv.Block.Cache.{top_of, blocks_from, from_to, buffer_init}
use rv.Block.Cache.Invariant.{In, IsCache, dev_of}

-- The blocks lie one below the other, the first one below `top`.
abbrev pub IsApart : ℕ → List ℕ → Type 0
IsApart top [] = Unit
IsApart top (a ∷ l) = (a + 1024 ≤ top) × IsApart a l

-- n heads from `start` on end below every block.
abbrev pub IsAbove : ℕ → ℕ → List ℕ → Type 0
IsAbove start n l = All (λ a. start + 36 * n ≤ a) l

abbrev below_hole : ℕ → ℕ
below_hole block = if block == 0x100000 then 0xa0000 else block

below_hole-le : (block : ℕ) → below_hole block ≤ block
below_hole-le block = ground arith

IsApart-mono : (a b : ℕ) (l : List ℕ) → a ≤ b → IsApart a l → IsApart b l
IsApart-mono a b [] le h = tt
IsApart-mono a b (x ∷ l) le h = (omega (arith, le, h.0), h.1)

head_above :
    (h block b : ℕ) (l : List ℕ)
    → h + 36 ≤ block
    → b ≤ block
    → IsApart b l
    → IsAbove (h + 36) (length l) l
    → h + 36 * suc (length l) ≤ block
head_above h block b [] le lo ap ab = omega arith
head_above h block b (x ∷ l) le lo ap ab = let p = ap.0 in let q = ab.0 in omega (arith, p, q)

IsAbove-suc : (h n : ℕ) (l : List ℕ) → IsAbove (h + 36) n l → IsAbove h (suc n) l
IsAbove-suc h n [] ab = tt
IsAbove-suc h n (x ∷ l) ab = let p = ab.0 in (omega (arith, p), IsAbove-suc h n l ab.1)

laid_out :
    (fuel b h : ℕ)
    → IsApart b (blocks_from fuel b h)
      × IsAbove h (length (blocks_from fuel b h)) (blocks_from fuel b h)
unfolding blocks_from
laid_out zero b h = (tt, tt)
laid_out (suc fuel) b h = elim (Bool-cases (leb (h + 36) (b - 1024))) [
  | inr full ↦ rw (full, blocks_from) (tt, tt)
  | inl room ↦
      let le = leb→le (h + 36) (b - 1024) room in
      let (ap, ab) = laid_out fuel (below_hole (b - 1024)) (h + 36) in
      let l = blocks_from fuel (below_hole (b - 1024)) (h + 36) in
      rw (room, blocks_from)
        (
          (
            omega (arith, le),
            IsApart-mono (below_hole (b - 1024)) (b - 1024) l (below_hole-le (b - 1024)) ap,
          ),
          (
            head_above h (b - 1024) (below_hole (b - 1024)) l le (below_hole-le (b - 1024)) ap ab,
            IsAbove-suc h (length l) l ab,
          ),
        )
]

-- More fuel than b changes nothing.
enough_fuel : (f g b h : ℕ) → b ≤ f → b ≤ g → blocks_from f b h ≡ blocks_from g b h
unfolding blocks_from
enough_fuel zero zero b h lf lg = refl
enough_fuel zero (suc g) b h lf lg =
    let full : leb (h + 36) (b - 1024) ≡ false = ground arith in rw (full, blocks_from)
enough_fuel (suc f) zero b h lf lg =
    let full : leb (h + 36) (b - 1024) ≡ false = ground arith in rw (full, blocks_from)
enough_fuel (suc f) (suc g) b h lf lg = elim (Bool-cases (leb (h + 36) (b - 1024))) [
  | inr full ↦ rw (full, blocks_from)
  | inl room ↦
      let le = leb→le (h + 36) (b - 1024) room in
      let lo = below_hole-le (b - 1024) in
      rw (room, blocks_from)
        (ap (λ l. (b - 1024) ∷ l)
          (enough_fuel f g (below_hole (b - 1024)) (h + 36) (omega (arith, le, lo))
            (omega (arith, le, lo))))
]

In-from_to_lt : (i k n : ℕ) → In i (from_to k n) → (k ≤ i) × (i < k + n)
unfolding from_to
In-from_to_lt i k zero m = absurd m
In-from_to_lt i k (suc n) m = elim m [
  | inl e ↦ (omega (arith, e), omega (arith, e))
  | inr m ↦
      let p = In-from_to_lt i (suc k) n m in
      let a = p.0 in let b = p.1 in (omega (arith, a), omega (arith, b))
]

In-from_to : (i k n : ℕ) → k ≤ i → i < k + n → In i (from_to k n)
unfolding from_to
In-from_to i k zero lo hi = absurd (omega arith)
In-from_to i k (suc n) lo hi = elim (Bool-cases (i == k)) [
  | inl e ↦ inl (ground arith)
  | inr e ↦ inr (In-from_to i (suc k) n (ground arith) (omega arith))
]

pub empty-IsCache :
    (n : ℕ)
    → IsCache
        (record { buffers = replicate n no_buffer; hash_table = λ _. []; free_list = from_to 0 n })
empty-IsCache n =
    let no_dev : (i : ℕ) → dev_of (replicate n no_buffer) i ≡ 0 =
      λ i. ap (λ b. b.b_dev) (get_or-replicate n i no_buffer) in
    let m = length-replicate n no_buffer in
    record {
      is_indexed = record {
        sound = λ i h k. absurd k;
        complete = λ i lt ne. absurd (ne (no_dev i));
        unique = λ i j li lj ne. absurd (ne (no_dev i));
      };
      is_free_list = λ i. (
        (λ k. let p = (In-from_to_lt i 0 n k).1 in omega (arith, p, m)),
        λ lt. In-from_to i 0 n (omega arith) (omega (arith, lt, m)),
      );
    }

-- buffer_init() makes a well-formed cache of as many buffers as there are blocks; the blocks lie one
-- below the other from the end of the memory, and above the heads of all the buffers. More rounds of
-- its loop than the end of the memory has bytes give the same.
pub buffer_init-IsCache :
    (start buffer_end fuel : ℕ)
    → top_of buffer_end ≤ fuel
    → IsCache (buffer_init start buffer_end).1
      × (length (buffer_init start buffer_end).1.buffers ≡ length (buffer_init start buffer_end).0)
      × IsApart (top_of buffer_end) (buffer_init start buffer_end).0
      × IsAbove start (length (buffer_init start buffer_end).0) (buffer_init start buffer_end).0
      × (blocks_from fuel (top_of buffer_end) start ≡ (buffer_init start buffer_end).0)
unfolding buffer_init
buffer_init-IsCache start buffer_end fuel le =
    let b = top_of buffer_end in
    let blocks = blocks_from b b start in
    let (ap, ab) = laid_out b b start in
    (
      empty-IsCache (length blocks),
      length-replicate (length blocks) no_buffer,
      ap,
      ab,
      enough_fuel fuel b b start le (omega arith),
    )
