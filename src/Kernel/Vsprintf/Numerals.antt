-- ===== src/Kernel/Vsprintf/Numerals.antt =====
-- kernel/vsprintf.c, number(): the digits that it makes of a number.
use rv.Common.{
  ℕ, zero, suc, ◌+◌, ◌-◌, ◌*◌, ◌/◌, ◌%◌, ◌^◌, ◌≤◌, ◌<◌, ◌≡◌, refl, Bool, true, false, ltb, ◌==◌,
  All, ==_ne, ◌≢◌, if◌then◌else◌, List, [], ◌∷◌, ◌++◌, arith, Bool-cases, inl, inr, ◌⊎◌, ◌∙◌,
}
use native.Mathlib.Nat.{pow-suc, div-mul-le_self, mul-le-mul_left, mod-lt, div-add-mod'}
use rv.Kernel.Vsprintf.{digit, digits_of, backwards}

-- The value of a digit, and of a string of digits after the ones that gave `acc`.
abbrev pub undigit : ℕ → ℕ
undigit c = if ltb c 58 then c - 48 else if ltb c 91 then c - 55 else c - 87

unfoldable pub read_from : ℕ → ℕ → List ℕ → ℕ
read_from base acc [] = acc
read_from base acc (c ∷ cs) = read_from base (acc * base + undigit c) cs

undigit-digit : (small : Bool) (d : ℕ) → d < 36 → undigit (digit small d) ≡ d
undigit-digit small d h = ground arith

read_from-snoc :
    (base acc : ℕ) (xs : List ℕ) (c : ℕ)
    → read_from base acc (xs ++ c ∷ []) ≡ read_from base acc xs * base + undigit c
unfolding read_from
read_from-snoc base acc [] c = refl
read_from-snoc base acc (x ∷ xs) c = read_from-snoc base (acc * base + undigit x) xs c

half-enough : (num base f : ℕ) → 2 ≤ base → num < 2 ^ suc f → num / base < 2 ^ f
half-enough num base f b h =
    omega (arith, pow-suc 2 f, div-mul-le_self num base, mul-le-mul_left (num / base) b)

-- The digits, the lowest first, read from the other end.
pub read_from-digits :
    (fuel base num : ℕ) (small : Bool)
    → 2 ≤ base
    → base ≤ 36
    → num < 2 ^ fuel
    → read_from base 0 (backwards (digits_of fuel small base num)) ≡ num
unfolding digits_of backwards read_from
read_from-digits zero base num small lo hi h = omega arith
read_from-digits (suc fuel) base num small lo hi h = elim (Bool-cases (num == 0)) [
  | inl z ↦ rw z (ground arith)
  | inr z ↦
      let d : num % base < base = mod-lt num (omega arith) in
      let u = undigit-digit small (num % base) (omega arith) in
      let i =
        read_from-digits fuel base (num / base) small lo hi (half-enough num base fuel lo h) in
      rw z (
        read_from-snoc base 0 (backwards (digits_of fuel small base (num / base)))
          (digit small (num % base))
        ∙ rw (i, u) (div-add-mod' num base))
]

-- A digit above 9 is a letter, small with SMALL and a capital otherwise.
abbrev pub IsDigit : Bool → ℕ → Type 0
IsDigit small c =
    ((b'0' ≤ c) × (c ≤ b'9')) ⊎ (if small then (b'a' ≤ c) × (c ≤ b'z') else (b'A' ≤ c) × (c ≤ b'Z'))

-- The first digit of a number other than 0 is not 0.
abbrev pub Leads : List ℕ → Type 0
Leads [] = ⊥
Leads (c ∷ cs) = c ≢ b'0'

digit-IsDigit : (small : Bool) (d : ℕ) → d < 36 → IsDigit small (digit small d)
digit-IsDigit small d h = elim (Bool-cases (ltb d 10)) [
  | inl e ↦ rw e (inl (ground arith, ground arith))
  | inr e ↦ rw e (inr (letter small (ground arith)))
]
  where
    letter :
        (small : Bool)
        → 10 ≤ d
        → (if small
            then (b'a' ≤ (if small then 87 + d else 55 + d))
              × ((if small then 87 + d else 55 + d) ≤ b'z')
            else (b'A' ≤ (if small then 87 + d else 55 + d))
              × ((if small then 87 + d else 55 + d) ≤ b'Z'))
    letter true ten = (ground arith, ground arith)
    letter false ten = (ground arith, ground arith)

All-snoc : (P : ℕ → Type 0) (xs : List ℕ) (c : ℕ) → All P xs → P c → All P (xs ++ c ∷ [])
All-snoc P [] c h p = (p, tt)
All-snoc P (x ∷ xs) c h p = (h.0, All-snoc P xs c h.1 p)

Leads-snoc : (xs : List ℕ) (c : ℕ) → Leads xs → Leads (xs ++ c ∷ [])
Leads-snoc [] c h = absurd h
Leads-snoc (x ∷ xs) c h = h

pub digits-IsDigit :
    (fuel base num : ℕ) (small : Bool)
    → 2 ≤ base
    → base ≤ 36
    → All (IsDigit small) (backwards (digits_of fuel small base num))
unfolding digits_of backwards
digits-IsDigit zero base num small lo hi = tt
digits-IsDigit (suc fuel) base num small lo hi = elim (Bool-cases (num == 0)) [
  | inl z ↦ rw z tt
  | inr z ↦
      let d : num % base < base = mod-lt num (omega arith) in
      rw z (
        All-snoc (IsDigit small) (backwards (digits_of fuel small base (num / base)))
          (digit small (num % base)) (digits-IsDigit fuel base (num / base) small lo hi)
          (digit-IsDigit small (num % base) (omega (arith, d, hi))))
]

digits_of-zero : (fuel : ℕ) (small : Bool) (base : ℕ) → digits_of fuel small base 0 ≡ []
unfolding digits_of
digits_of-zero zero small base = refl
digits_of-zero (suc fuel) small base = refl

digit-ne : (small : Bool) (d : ℕ) → 0 < d → d < 36 → digit small d ≢ b'0'
digit-ne small d lo hi e = absurd (ground arith)

pub digits-Leads :
    (fuel base num : ℕ) (small : Bool)
    → 2 ≤ base
    → base ≤ 36
    → num < 2 ^ fuel
    → num ≢ 0
    → Leads (backwards (digits_of fuel small base num))
unfolding digits_of backwards
digits-Leads zero base num small lo hi h ne = absurd (ne (omega arith))
digits-Leads (suc fuel) base num small lo hi h ne = rw (==_ne num 0 ne) (
    go (digits-Leads fuel base (num / base) small lo hi (half-enough num base fuel lo h))
      (Bool-cases (num / base == 0)))
  where
    go :
        (num / base ≢ 0 → Leads (backwards (digits_of fuel small base (num / base))))
        → ((num / base == 0) ≡ true) ⊎ ((num / base == 0) ≡ false)
        → Leads
            (backwards (digits_of fuel small base (num / base)) ++ digit small (num % base) ∷ [])
    go again (inr more) =
        Leads-snoc (backwards (digits_of fuel small base (num / base))) (digit small (num % base))
          (again (λ e. ground arith))
    go again (inl z) =
        let n0 : 0 < num = ground (arith, ne) in
        let q : num / base ≡ 0 = ground arith in
        let whole : num / base * base + num % base ≡ num = div-add-mod' num base in
        let left : 0 * base + num % base ≡ num = rw q at whole in
        let rest : num % base ≡ num = omega (arith, left) in
        rw (q, digits_of-zero fuel small base)
          (digit-ne small (num % base) (omega (arith, rest, n0))
            (omega (arith, mod-lt num {m = base} (omega arith))))
