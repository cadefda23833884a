-- ===== src/Kernel/Vsprintf/Layout.antt =====
-- kernel/vsprintf.c, number(): the parts of the text that it lays out.
use mathlib.Core.List.{append_assoc, append-nil}
use rv.Common.{
  ℕ, zero, suc, ◌+◌, ◌≤◌, ◌≡◌, refl, Bool, true, false, if◌then◌else◌, List, ◌∷◌, ◌++◌, length,
  replicate, arith, inl, inr, ◌⊎◌, sym, ◌∙◌, ap, length-append, length-replicate,
}
use rv.Kernel.Vsprintf.{laid_out}

abbrev pub blanks : ℕ → List ℕ
blanks n = replicate n 32

abbrev pub noughts : ℕ → List ℕ
noughts n = replicate n 48

replicate-add : (n k c : ℕ) → replicate n c ++ replicate k c ≡ replicate (n + k) c
replicate-add zero k c = let e : zero + k ≡ k = omega arith in rw e
replicate-add (suc n) k c =
    let e : suc n + k ≡ suc (n + k) = omega arith in rw e (ap (λ l. c ∷ l) (replicate-add n k c))

-- The length of the five parts.
pub length-parts :
    (b z a : ℕ) (sign prefix digits : List ℕ)
    → length (blanks b ++ sign ++ prefix ++ noughts z ++ digits ++ blanks a)
      ≡ b + (length sign + (length prefix + (z + (length digits + a))))
length-parts b z a sign prefix digits = omega (
  arith,
  length-append (blanks b ++ sign ++ prefix ++ noughts z ++ digits) (blanks a),
  length-append (blanks b ++ sign ++ prefix ++ noughts z) digits,
  length-append (blanks b ++ sign ++ prefix) (noughts z),
  length-append (blanks b ++ sign) prefix,
  length-append (blanks b) sign,
  length-blanks b,
  length-blanks a,
  length-noughts z,
)
  where
    length-blanks : (n : ℕ) → length (blanks n) ≡ n
    length-blanks n = length-replicate n _

    length-noughts : (n : ℕ) → length (noughts n) ≡ n
    length-noughts n = length-replicate n _

-- The parts of a text that is laid out, where `z` zeros stand before the digits without padding.
pub record IsLaidOut (left zeropad : Bool) (pad z : ℕ) (sign prefix digits s : List ℕ)
    : Type 0 where
  pub before : ℕ
  pub zeros : ℕ
  pub behind : ℕ
  pub is_text : s ≡ blanks before ++ sign ++ prefix ++ noughts zeros ++ digits ++ blanks behind
  pub in_all : before + (zeros + behind) ≡ pad + z
  pub enough : z ≤ zeros
  pub one_side : if left then before ≡ 0 else behind ≡ 0
  pub exact : (left ≡ true) ⊎ (zeropad ≡ false) → zeros ≡ z
  pub no_blanks : left ≡ false → zeropad ≡ true → before ≡ 0

pub laid_out-IsLaidOut :
    (left zeropad : Bool) (pad z : ℕ) (sign prefix digits : List ℕ)
    → IsLaidOut left zeropad pad z sign prefix digits
        (laid_out left zeropad pad sign prefix (noughts z ++ digits))
laid_out-IsLaidOut true zeropad pad z sign prefix digits = record {
  before = 0;
  zeros = z;
  behind = pad;
  is_text = ap (λ l. l ++ blanks pad) (sym (append_assoc (sign ++ prefix) (noughts z) digits));
  in_all = omega arith;
  enough = omega arith;
  one_side = refl;
  exact = λ _. refl;
  no_blanks = λ e _. cc;
}
laid_out-IsLaidOut false true pad z sign prefix digits = record {
  before = 0;
  zeros = pad + z;
  behind = 0;
  is_text =
      sym (append_assoc (sign ++ prefix ++ noughts pad) (noughts z) digits)
      ∙ ap (λ l. l ++ digits) (append_assoc (sign ++ prefix) (noughts pad) (noughts z))
      ∙ ap (λ l. sign ++ prefix ++ l ++ digits) (replicate-add pad z 48)
      ∙ sym (append-nil (sign ++ prefix ++ noughts (pad + z) ++ digits));
  in_all = omega arith;
  enough = omega arith;
  one_side = refl;
  exact = λ e. elim e [ inl a ↦ cc | inr b ↦ cc ];
  no_blanks = λ _ _. refl;
}
laid_out-IsLaidOut false false pad z sign prefix digits = record {
  before = pad;
  zeros = z;
  behind = 0;
  is_text =
      sym (append_assoc (blanks pad ++ sign ++ prefix) (noughts z) digits)
      ∙ sym (append-nil (blanks pad ++ sign ++ prefix ++ noughts z ++ digits));
  in_all = omega arith;
  enough = omega arith;
  one_side = refl;
  exact = λ _. refl;
  no_blanks = λ _ e. cc;
}
