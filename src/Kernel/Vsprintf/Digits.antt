-- ===== src/Kernel/Vsprintf/Digits.antt =====
-- kernel/vsprintf.c, number(): what is printed reads back as the number, and fills the width.
use rv.Common.{
  ℕ, ◌+◌, ◌-◌, ◌^◌, ◌≤◌, ◌<◌, ◌≡◌, refl, some, none, Bool, true, false, ltb, leb, ◌==◌, ◌&&◌, ◌||◌,
  All, if◌then◌else◌, List, [], ◌∷◌, ◌++◌, length, max, arith, Bool-cases, inl, inr, ◌⊎◌, ◌∙◌, ap,
  length-append,
}
use rv.Kernel.Vsprintf.{
  Flags, tmp_of, magnitude, sign_of, prefix_of, backwards, laid_out, body_of, number,
}
use rv.Kernel.Vsprintf.Numerals.{
  read_from, IsDigit, Leads, read_from-digits, digits-IsDigit, digits-Leads,
}
use rv.Kernel.Vsprintf.Layout.{blanks, noughts, length-parts, laid_out-IsLaidOut}

-- The number is negative: the argument is signed and its highest bit is set.
abbrev pub IsNegative : Flags → ℕ → Type 0
IsNegative f num = (f.sign ≡ true) × (2 ^ 31 ≤ num)

abbrev pub IsNotNegative : Flags → ℕ → Type 0
IsNotNegative f num = (f.sign ≡ false) ⊎ (num < 2 ^ 31)

-- '-' before a negative number; before another one '+' with PLUS, or else ' ' with SPACE.
abbrev pub IsSign : Flags → ℕ → List ℕ → Type 0
IsSign f num s =
    (IsNegative f num × (s ≡ b'-' ∷ []))
    ⊎ (IsNotNegative f num
        × (((f.plus ≡ true) × (s ≡ b'+' ∷ []))
            ⊎ ((f.plus ≡ false) × (f.space ≡ true) × (s ≡ b' ' ∷ []))
            ⊎ ((f.plus ≡ false) × (f.space ≡ false) × (s ≡ []))))

-- The absolute value.
abbrev pub IsMagnitude : Flags → ℕ → ℕ → Type 0
IsMagnitude f num m = (IsNegative f num × (m + num ≡ 2 ^ 32)) ⊎ (IsNotNegative f num × (m ≡ num))

-- With SPECIAL, "0" for base 8 and "0X" for base 16, or "0x" with SMALL.
abbrev pub IsPrefix : Flags → ℕ → List ℕ → Type 0
IsPrefix f base p =
    ((f.special ≡ true) × (base ≡ 8) × (p ≡ b'0' ∷ []))
    ⊎ ((f.special ≡ true) × (base ≡ 16) × (p ≡ b'0' ∷ (if f.small then b'x' else b'X') ∷ []))
    ⊎ (((f.special ≡ false) ⊎ (((base == 8) ≡ false) × ((base == 16) ≡ false))) × (p ≡ []))

-- What number() owes: blanks, the sign, the prefix, zeros, digits that read back as the number, and
-- blanks again. The digits have no zero in front but for the number 0, and their letters are small just
-- with SMALL. The text is as wide as asked for, or as wide as it has to be. With LEFT the blanks stand
-- on the right, and otherwise on the left, or with ZEROPAD nowhere; zeros then fill the width, and in
-- all other cases no more than the precision.
pub record IsPrinted (num base size precision : ℕ) (f : Flags) (s : List ℕ) : Type 0 where
  pub before : ℕ
  pub sign : List ℕ
  pub prefix : List ℕ
  pub zeros : ℕ
  pub digits : List ℕ
  pub behind : ℕ
  pub value : ℕ
  pub is_text : s ≡ blanks before ++ sign ++ prefix ++ noughts zeros ++ digits ++ blanks behind
  pub is_sign : IsSign f num sign
  pub is_prefix : IsPrefix f base prefix
  pub is_value : IsMagnitude f num value
  pub reads_back : read_from base 0 digits ≡ value
  pub are_digits : All (IsDigit f.small) digits
  pub is_short : ((value ≡ 0) × (digits ≡ b'0' ∷ [])) ⊎ Leads digits
  pub fills : length s ≡ max size (length sign + length prefix + max (length digits) precision)
  pub enough : precision ≤ zeros + length digits
  pub one_side : if f.left then before ≡ 0 else behind ≡ 0
  pub exact :
      (f.left ≡ true) ⊎ (f.zeropad ≡ false) → zeros + length digits ≡ max (length digits) precision
  pub no_blanks : f.left ≡ false → f.zeropad ≡ true → before ≡ 0

length-backwards : (xs : List ℕ) → length (backwards xs) ≡ length xs
unfolding backwards
length-backwards [] = refl
length-backwards (x ∷ xs) =
    length-append (backwards xs) (x ∷ []) ∙ omega (arith, length-backwards xs)

read_from-tmp :
    (small : Bool) (base num : ℕ)
    → 2 ≤ base
    → base ≤ 36
    → num < 2 ^ 32
    → read_from base 0 (backwards (tmp_of small base num)) ≡ num
unfolding tmp_of backwards read_from
read_from-tmp small base num lo hi h = elim (Bool-cases (num == 0)) [
  | inl z ↦ rw z (ground arith)
  | inr z ↦ rw z (read_from-digits 36 base num small lo hi (omega arith))
]

tmp-IsDigit :
    (small : Bool) (base num : ℕ)
    → 2 ≤ base
    → base ≤ 36
    → All (IsDigit small) (backwards (tmp_of small base num))
unfolding tmp_of backwards
tmp-IsDigit small base num lo hi = elim (Bool-cases (num == 0)) [
  | inl z ↦ rw z (inl (omega arith, omega arith), tt)
  | inr z ↦ rw z (digits-IsDigit 36 base num small lo hi)
]

tmp-short :
    (small : Bool) (base num : ℕ)
    → 2 ≤ base
    → base ≤ 36
    → num < 2 ^ 32
    → ((num ≡ 0) × (backwards (tmp_of small base num) ≡ b'0' ∷ []))
      ⊎ Leads (backwards (tmp_of small base num))
unfolding tmp_of backwards
tmp-short small base num lo hi h = elim (Bool-cases (num == 0)) [
  | inl z ↦ inl (ground arith, rw z)
  | inr z ↦
      rw z (inr (digits-Leads 36 base num small lo hi (omega arith) (λ e. absurd (ground arith))))
]

sign_of-IsSign : (f : Flags) (num : ℕ) → IsSign f num (sign_of f num)
unfolding sign_of
sign_of-IsSign f num = elim (Bool-cases (f.sign && leb (2 ^ 31) num)) [
  | inl m ↦ rw m (inl ((ground arith, ground arith), refl))
  | inr m ↦ rw m (inr (not_negative m, rest f.plus f.space refl refl))
]
  where
    not_negative : (f.sign && leb (2 ^ 31) num) ≡ false → IsNotNegative f num
    not_negative m = elim (Bool-cases f.sign) [
      | inl e ↦ inr (ground (arith, rw e at m))
      | inr e ↦ inl e
    ]

    rest :
        (p s : Bool)
        → f.plus ≡ p
        → f.space ≡ s
        → let t : List ℕ = if p then 43 ∷ [] else if s then 32 ∷ [] else [] in
          ((f.plus ≡ true) × (t ≡ b'+' ∷ []))
          ⊎ ((f.plus ≡ false) × (f.space ≡ true) × (t ≡ b' ' ∷ []))
          ⊎ ((f.plus ≡ false) × (f.space ≡ false) × (t ≡ []))
    rest true s ep es = inl (ep, refl)
    rest false true ep es = inr (inl (ep, es, refl))
    rest false false ep es = inr (inr (ep, es, refl))

magnitude-IsMagnitude : (f : Flags) (num : ℕ) → num < 2 ^ 32 → IsMagnitude f num (magnitude f num)
magnitude-IsMagnitude f num h = elim (Bool-cases (f.sign && leb (2 ^ 31) num)) [
  | inl m ↦ rw m (inl ((ground arith, ground arith), omega (arith, h)))
  | inr m ↦ elim (Bool-cases f.sign) [
    | inl e ↦ rw m (inr (inr (ground (arith, rw e at m)), refl))
    | inr e ↦ rw m (inr (inl e, refl))
  ]
]

prefix_of-IsPrefix : (f : Flags) (base : ℕ) → IsPrefix f base (prefix_of f base)
unfolding prefix_of
prefix_of-IsPrefix f base = elim (Bool-cases f.special) [
  | inr e ↦ rw e (inr (inr (inl refl, refl)))
  | inl e ↦ elim (Bool-cases (base == 8)) [
    | inl eight ↦ rw (e, eight) (inl (refl, ground arith, refl))
    | inr other ↦ elim (Bool-cases (base == 16)) [
      | inl sixteen ↦ rw (e, other, sixteen) (inr (inl (refl, ground arith, refl)))
      | inr neither ↦ rw (e, other, neither) (inr (inr (inr (refl, refl), refl)))
    ]
  ]
]

-- In a base from 2 to 36, number() prints the number: see `IsPrinted`. In any other it gives NULL.
pub number-IsPrinted :
    (num base size precision : ℕ) (f : Flags)
    → num < 2 ^ 32
    → ((2 ≤ base)
        × (base ≤ 36)
        × ((s : List ℕ) × (number num base size precision f ≡ some s)
            × IsPrinted num base size precision f s))
      ⊎ (((base < 2) ⊎ (36 < base)) × (number num base size precision f ≡ none))
unfolding number
number-IsPrinted num base size precision f h = elim (Bool-cases (ltb base 2 || ltb 36 base)) [
  | inl bad ↦ inr (ground arith, rw bad)
  | inr good ↦
      let lo : 2 ≤ base = ground arith in
      let hi : base ≤ 36 = ground arith in inl (lo, hi, (text, rw good, printed lo hi))
]
  where
    tmp : List ℕ
    tmp = tmp_of f.small base (magnitude f num)

    pad : ℕ
    pad = size - length (sign_of f num) - length (prefix_of f base) - max (length tmp) precision

    zeros : ℕ
    zeros = max (length tmp) precision - length tmp

    text : List ℕ
    text = laid_out f.left f.zeropad pad (sign_of f num) (prefix_of f base) (body_of tmp precision)

    reads : 2 ≤ base → base ≤ 36 → read_from base 0 (backwards tmp) ≡ magnitude f num
    reads lo hi = read_from-tmp f.small base (magnitude f num) lo hi (ground arith)

    printed : 2 ≤ base → base ≤ 36 → IsPrinted num base size precision f text
    printed lo hi =
        let p =
          laid_out-IsLaidOut f.left f.zeropad pad zeros (sign_of f num) (prefix_of f base)
            (backwards tmp) in
        let n = length-backwards tmp in
        let l =
          length-parts p.before p.zeros p.behind (sign_of f num) (prefix_of f base)
            (backwards tmp) in
        record {
          before = p.before;
          sign = sign_of f num;
          prefix = prefix_of f base;
          value = magnitude f num;
          zeros = p.zeros;
          digits = backwards tmp;
          behind = p.behind;
          is_text = p.is_text;
          is_sign = sign_of-IsSign f num;
          is_prefix = prefix_of-IsPrefix f base;
          is_value = magnitude-IsMagnitude f num h;
          reads_back = reads lo hi;
          are_digits = tmp-IsDigit f.small base (magnitude f num) lo hi;
          is_short = tmp-short f.small base (magnitude f num) lo hi (ground arith);
          fills = ap length p.is_text ∙ l ∙ omega (arith, p.in_all, n);
          enough = omega (arith, p.enough, n);
          one_side = p.one_side;
          exact = λ e. omega (arith, p.exact e, n);
          no_blanks = p.no_blanks;
        }
