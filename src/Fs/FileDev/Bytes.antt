-- ===== src/Fs/FileDev/Bytes.antt =====
-- fs/file_dev.c: what the loop over the bytes of a round of file_write() puts into a block.
use rv.Common.{
  ℕ, zero, suc, ◌+◌, ◌-◌, ◌/◌, ◌%◌, ◌<◌, ◌≡◌, refl, ap, ◌∙◌, ◌⊎◌, inl, inr, true, false, leb, ltb,
  ◌==◌, ◌&&◌, if◌then◌else◌, List, [], ◌∷◌, length, take, drop, arith, Bool-cases, All, get_or,
}
use rv.Fs.Inode.{Disk}
use rv.Fs.FileDev.{byte_at, with_byte, put_byte, put_bytes_from}

half-with_byte :
    (p q b w : ℕ)
    → b < 256
    → q / 2 ≡ p / 2
    → (if q % 2 == 0 then with_byte p b w % 256 else with_byte p b w / 256 % 256)
      ≡ (if q == p then b else if q % 2 == 0 then w % 256 else w / 256 % 256)
half-with_byte p q b w lt same = ground arith

other_place : (k nr q p : ℕ) → (k == nr && q / 2 == p / 2) ≡ false → (k == nr && q == p) ≡ false
other_place k nr q p e = ground arith

same_word :
    (k nr q p : ℕ) → (k == nr && q / 2 == p / 2) ≡ true → ((k == nr) ≡ true) × (q / 2 ≡ p / 2)
same_word k nr q p e = (ground arith, ground arith)

byte_at-put_byte :
    (d : Disk) (nr p b k q : ℕ)
    → b < 256
    → byte_at (put_byte d nr p b) k q ≡ (if k == nr && q == p then b else byte_at d k q)
byte_at-put_byte d nr p b k q lt = elim (Bool-cases (k == nr && q / 2 == p / 2)) [
  | inr e ↦ rw (e, other_place k nr q p e)
  | inl e ↦
      let (a, h) = same_word k nr q p e in rw (e, a) (half-with_byte p q b (d.word k (q / 2)) lt h)
]

abbrev pub AreBytes : List ℕ → Type 0
AreBytes bs = All (λ b. b < 256) bs

cell :
    (k nr p q b n v : ℕ) (rest : ℕ)
    → (if k == nr && (leb (suc p) q && ltb q (suc p + n))
        then rest
        else if k == nr && q == p
        then b
        else v)
      ≡ (if k == nr && (leb p q && ltb q (p + suc n)) then (if q == p then b else rest) else v)
cell k nr p q b n v rest = ground arith

get_or-cons :
    (b : ℕ) (bs : List ℕ) (p q : ℕ)
    → leb p q ≡ true
    → get_or (b ∷ bs) (q - p) 0 ≡ (if q == p then b else get_or bs (q - suc p) 0)
get_or-cons b bs p q le = elim (Bool-cases (q == p)) [
  | inl e ↦ let z : q - p ≡ 0 = ground arith in rw (e, z)
  | inr e ↦ let z : q - p ≡ suc (q - suc p) = ground arith in rw (e, z)
]

-- What the loop over the bytes of a round of file_write() leaves in the blocks: the bytes from p on of
-- block nr, and what was there before everywhere else.
pub byte_at-put_bytes_from :
    (nr p : ℕ) (bs : List ℕ) (d : Disk) (k q : ℕ)
    → AreBytes bs
    → byte_at (put_bytes_from nr p bs d) k q ≡ (
        if k == nr && (leb p q && ltb q (p + length bs))
        then get_or bs (q - p) 0
        else byte_at d k q)
unfolding put_bytes_from
byte_at-put_bytes_from nr p [] d k q ok =
    let e : (k == nr && (leb p q && ltb q (p + 0))) ≡ false = ground arith in rw e
byte_at-put_bytes_from nr p (b ∷ bs) d k q ok =
    byte_at-put_bytes_from nr (suc p) bs (put_byte d nr p b) k q ok.1
    ∙ ap
        (λ v.
          if k == nr && (leb (suc p) q && ltb q (suc p + length bs))
          then get_or bs (q - suc p) 0
          else v)
        (byte_at-put_byte d nr p b k q ok.0)
    ∙ cell k nr p q b (length bs) (byte_at d k q) (get_or bs (q - suc p) 0)
    ∙ in_range (Bool-cases (leb p q))
  where
    in_range :
        (leb p q ≡ true) ⊎ (leb p q ≡ false)
        → (if k == nr && (leb p q && ltb q (p + suc (length bs)))
            then (if q == p then b else get_or bs (q - suc p) 0)
            else byte_at d k q)
          ≡ (if k == nr && (leb p q && ltb q (p + suc (length bs)))
              then get_or (b ∷ bs) (q - p) 0
              else byte_at d k q)
    in_range (inl le) = rw (get_or-cons b bs p q le)
    in_range (inr gt) =
        let e : (k == nr && (leb p q && ltb q (p + suc (length bs)))) ≡ false = ground arith in rw e

-- It changes only words of blocks.
pub put_bytes_from-keeps :
    (nr p : ℕ) (bs : List ℕ) (d : Disk)
    → let d' = put_bytes_from nr p bs d in
      (d'.super ≡ d.super) × (d'.cached ≡ d.cached) × (d'.readable ≡ d.readable)
unfolding put_bytes_from
put_bytes_from-keeps nr p [] d = (refl, refl, refl)
put_bytes_from-keeps nr p (b ∷ bs) d = put_bytes_from-keeps nr (suc p) bs (put_byte d nr p b)

pub take-AreBytes : (n : ℕ) (bs : List ℕ) → AreBytes bs → AreBytes (take n bs)
take-AreBytes zero bs h = tt
take-AreBytes (suc n) [] h = tt
take-AreBytes (suc n) (b ∷ bs) h = (h.0, take-AreBytes n bs h.1)

pub drop-AreBytes : (n : ℕ) (bs : List ℕ) → AreBytes bs → AreBytes (drop n bs)
drop-AreBytes zero bs h = h
drop-AreBytes (suc n) [] h = tt
drop-AreBytes (suc n) (b ∷ bs) h = drop-AreBytes n bs h.1
