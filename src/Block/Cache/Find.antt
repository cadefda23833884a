-- ===== src/Block/Cache/Find.antt =====
-- fs/buffer.c: find_buffer(), and the changes to a buffer that leave its device and block alone.
use rv.Common.{
  ℕ, zero, suc, ◌<◌, ◌≡◌, ◌≢◌, refl, sym, fun_ext, ◌∙◌, inl, inr, true, false, none, some, List, [],
  ◌∷◌, arith, Bool-cases, some-inj, Option-cases, length, length-set,
}
use rv.Block.Buffers.{Buffer, Buffers, buffer_at, on_buffer}
use rv.Block.Cache.{Cache, hashfn, on, is_block, find_in, find_buffer}
use rv.Block.Cache.Invariant.{In, IsCache, dev_of, block_of}

is_block-keys :
    (dev block : ℕ) (b : Buffer)
    → is_block dev block b ≡ true
    → (b.b_dev ≡ dev) × (b.b_blocknr ≡ block)
is_block-keys dev block b h = (ground arith, ground arith)

pub keys-is_block :
    (dev block : ℕ) (b : Buffer) → b.b_dev ≡ dev → b.b_blocknr ≡ block → is_block dev block b ≡ true
keys-is_block dev block b h k = ground arith

module _ (bs : Buffers) (dev block : ℕ) where
  find_in-some :
      (l : List ℕ) (i : ℕ)
      → find_in bs dev block l ≡ some i
      → In i l × (is_block dev block (buffer_at bs i) ≡ true)
  unfolding find_in
  find_in-some [] i h = cc
  find_in-some (tmp ∷ l) i h = elim (Bool-cases (is_block dev block (buffer_at bs tmp))) [
    | inl e ↦ let q : tmp ≡ i = some-inj (rw (e, find_in) at h) in (inl (sym q), rw (← q) e)
    | inr e ↦ let (m, k) = find_in-some l i (rw (e, find_in) at h) in (inr m, k)
  ]

  find_in-none :
      (l : List ℕ) (i : ℕ)
      → find_in bs dev block l ≡ none
      → In i l
      → is_block dev block (buffer_at bs i) ≡ false
  unfolding find_in
  find_in-none [] i h m = absurd m
  find_in-none (tmp ∷ l) i h m = elim (Bool-cases (is_block dev block (buffer_at bs tmp))) [
    | inl e ↦ cc (rw (e, find_in) at h)
    | inr e ↦ elim m [ inl same ↦ rw same e | inr m ↦ find_in-none l i (rw (e, find_in) at h) m ]
  ]

pub find_buffer-some :
    (dev block i : ℕ) (c : Cache)
    → IsCache c
    → find_buffer dev block c ≡ some i
    → (i < length c.buffers) × (dev_of c.buffers i ≡ dev) × (block_of c.buffers i ≡ block)
unfolding find_buffer
find_buffer-some dev block i c ok h =
    let (m, e) = find_in-some c.buffers dev block (c.hash_table (hashfn dev block)) i h in
    let (a, b) = is_block-keys dev block (buffer_at c.buffers i) e in
    ((ok.is_indexed.sound i (hashfn dev block) m).0, a, b)

pub find_buffer-none :
    (dev block i : ℕ) (c : Cache)
    → IsCache c
    → find_buffer dev block c ≡ none
    → i < length c.buffers
    → dev ≢ 0
    → dev_of c.buffers i ≡ dev
    → block_of c.buffers i ≢ block
unfolding find_buffer
find_buffer-none dev block i c ok h lt ne d k =
    let m : In i (c.hash_table (hashfn (dev_of c.buffers i) (block_of c.buffers i))) =
      ok.is_indexed.complete i lt (λ z. ne (sym d ∙ z)) in
    cc (
      keys-is_block dev block (buffer_at c.buffers i) d k,
      find_in-none c.buffers dev block (c.hash_table (hashfn dev block)) i h (rw (d, k) at m),
    )

-- The buffer of a block is found wherever it is.
pub find_buffer_unique :
    (dev block i : ℕ) (c : Cache)
    → IsCache c
    → i < length c.buffers
    → dev ≢ 0
    → dev_of c.buffers i ≡ dev
    → block_of c.buffers i ≡ block
    → find_buffer dev block c ≡ some i
find_buffer_unique dev block i c ok lt ne d k = elim (Option-cases (find_buffer dev block c)) [
  | inl e ↦ absurd (find_buffer-none dev block i c ok e lt ne d k)
  | inr (j, e) ↦
      let (lj, dj, kj) = find_buffer-some dev block j c ok e in
      let q : i ≡ j =
        ok.is_indexed.unique i j lt lj (λ z. ne (sym d ∙ z)) (d ∙ sym dj) (k ∙ sym kj) in
      rw q e
]

pub buffer_at-on_buffer :
    {A : Type 0} (g : Buffer → A) (f : Buffer → Buffer)
    → ((b : Buffer) → g (f b) ≡ g b)
    → (bs : Buffers) (bh i : ℕ) → g (buffer_at (on_buffer bs bh f) i) ≡ g (buffer_at bs i)
buffer_at-on_buffer g f keeps [] bh i = refl
buffer_at-on_buffer g f keeps (b ∷ bs) zero zero = keeps b
buffer_at-on_buffer g f keeps (b ∷ bs) zero (suc i) = refl
buffer_at-on_buffer g f keeps (b ∷ bs) (suc bh) zero = refl
buffer_at-on_buffer g f keeps (b ∷ bs) (suc bh) (suc i) = buffer_at-on_buffer g f keeps bs bh i

pub on-IsCache :
    (bh : ℕ) (f : Buffer → Buffer) (c : Cache)
    → ((b : Buffer) → (f b).b_dev ≡ b.b_dev)
    → ((b : Buffer) → (f b).b_blocknr ≡ b.b_blocknr)
    → IsCache c
    → IsCache (on bh f c)
on-IsCache bh f c d k ok =
    let n : length (on bh f c).buffers ≡ length c.buffers =
      length-set c.buffers bh (f (buffer_at c.buffers bh)) in
    let e : dev_of (on bh f c).buffers ≡ dev_of c.buffers =
      fun_ext (λ i. buffer_at-on_buffer (λ b. b.b_dev) f d c.buffers bh i) in
    let s : block_of (on bh f c).buffers ≡ block_of c.buffers =
      fun_ext (λ i. buffer_at-on_buffer (λ b. b.b_blocknr) f k c.buffers bh i) in
    record { is_indexed = rw (n, e, s) ok.is_indexed; is_free_list = rw n ok.is_free_list }
