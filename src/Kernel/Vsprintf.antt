-- ===== src/Kernel/Vsprintf.antt =====
-- kernel/vsprintf.c: number() and vsprintf(). Characters are their codes and a string is a list; an
-- argument is a 32-bit word. A field width or a precision below 0 is 0 where the code only compares it
-- with a positive number, and `none` where it is the -1 that the code tests.
pub mod Digits
pub mod Numerals
pub mod Layout
pub mod Format
use rv.Common.{
  ℕ, zero, suc, ◌+◌, ◌-◌, ◌*◌, ◌/◌, ◌%◌, ◌^◌, Option, none, some, Bool, true, false, ltb, leb, ◌==◌,
  not, ◌&&◌, ◌||◌, if◌then◌else◌, List, [], ◌∷◌, ◌++◌, length, take, replicate, max,
}

-- ZEROPAD, SIGN, PLUS, SPACE, LEFT, SPECIAL and SMALL
pub record Flags : Type 0 where
  pub zeropad : Bool
  pub sign : Bool
  pub plus : Bool
  pub space : Bool
  pub left : Bool
  pub special : Bool
  pub small : Bool

abbrev pub no_flags : Flags
no_flags = record {
  zeropad = false;
  sign = false;
  plus = false;
  space = false;
  left = false;
  special = false;
  small = false;
}

-- digits[d], of "0123456789ABC..." or, with SMALL, of "0123456789abc..."
abbrev pub digit : Bool → ℕ → ℕ
digit small d = if ltb d 10 then 48 + d else if small then 87 + d else 55 + d

-- `while (num!=0) tmp[i++]=digits[do_div(num,base)]`: tmp, the lowest digit first.
unfoldable pub digits_of : ℕ → Bool → ℕ → ℕ → List ℕ
digits_of zero small base num = []
digits_of (suc fuel) small base num =
    let rest = digits_of fuel small base (num / base) in
    if num == 0 then [] else digit small (num % base) ∷ rest

-- 36 is the size of tmp, and 32 digits are enough in any base.
unfoldable pub tmp_of : Bool → ℕ → ℕ → List ℕ
tmp_of small base num = if num == 0 then 48 ∷ [] else digits_of 36 small base num

abbrev pub is_negative : ℕ → Bool
is_negative num = leb (2 ^ 31) num

abbrev pub is_minus : Flags → ℕ → Bool
is_minus f num = f.sign && is_negative num

-- What is printed of the number itself, without a sign.
abbrev pub magnitude : Flags → ℕ → ℕ
magnitude f num = if is_minus f num then 2 ^ 32 - num else num

unfoldable pub sign_of : Flags → ℕ → List ℕ
sign_of f num =
    if is_minus f num then 45 ∷ [] else if f.plus then 43 ∷ [] else if f.space then 32 ∷ [] else []

-- "0" or "0x"; the second character is digits[33].
unfoldable pub prefix_of : Flags → ℕ → List ℕ
prefix_of f base =
    if f.special
    then if base == 8 then 48 ∷ [] else if base == 16 then 48 ∷ digit f.small 33 ∷ [] else []
    else []

-- `while(i-->0) *str++ = tmp[i]`
unfoldable pub backwards : List ℕ → List ℕ
backwards [] = []
backwards (c ∷ cs) = backwards cs ++ c ∷ []

-- The last part, with or without LEFT and with or without ZEROPAD: `pad` is what is left of the width.
abbrev pub laid_out : Bool → Bool → ℕ → List ℕ → List ℕ → List ℕ → List ℕ
laid_out true zeropad pad sign prefix body = sign ++ prefix ++ body ++ replicate pad 32
laid_out false true pad sign prefix body = sign ++ prefix ++ replicate pad 48 ++ body
laid_out false false pad sign prefix body = replicate pad 32 ++ sign ++ prefix ++ body

-- The digits, with zeros before them up to the precision.
abbrev pub body_of : List ℕ → ℕ → List ℕ
body_of tmp precision = replicate (max (length tmp) precision - length tmp) 48 ++ backwards tmp

-- `none` is the NULL for a bad base.
unfoldable pub number : ℕ → ℕ → ℕ → ℕ → Flags → Option (List ℕ)
number num base size precision f =
    let tmp = tmp_of f.small base (magnitude f num) in
    let sign = sign_of f num in
    let prefix = prefix_of f base in
    let pad = size - length sign - length prefix - max (length tmp) precision in
    if ltb base 2 || ltb 36 base
    then none
    else some (laid_out f.left f.zeropad pad sign prefix (body_of tmp precision))

abbrev pub is_digit : ℕ → Bool
is_digit c = leb 48 c && leb c 57

-- skip_atoi(): the number and the rest of the string. An int, without the wrap of 2 ^ 31 or more.
unfoldable pub skip_atoi : List ℕ → ℕ → ℕ × List ℕ
skip_atoi [] i = (i, [])
skip_atoi (c ∷ cs) i =
    let rest = skip_atoi cs (i * 10 + (c - 48)) in if is_digit c then rest else (i, c ∷ cs)

-- The flags after the '%'.
unfoldable pub flags_of : List ℕ → Flags → Flags × List ℕ
flags_of [] f = (f, [])
flags_of (c ∷ cs) f =
    let l = flags_of cs (record f { left = true }) in
    let p = flags_of cs (record f { plus = true }) in
    let s = flags_of cs (record f { space = true }) in
    let x = flags_of cs (record f { special = true }) in
    let z = flags_of cs (record f { zeropad = true }) in
    if c == 45
    then l
    else if c == 43
    then p
    else if c == 32
    then s
    else if c == 35
    then x
    else if c == 48
    then z
    else (f, c ∷ cs)

-- va_arg: past the last argument, 0.
abbrev pub next_arg : List ℕ → ℕ × List ℕ
next_arg [] = (0, [])
next_arg (a ∷ rest) = (a, rest)

-- The state of the parse of one conversion.
pub record Spec : Type 0 where
  pub flags : Flags
  pub width : Option ℕ
  pub precision : Option ℕ
  pub fmt : List ℕ
  pub args : List ℕ

-- The field width. The '*' itself is not skipped.
unfoldable pub width_of : Spec → Spec
width_of s = elim s.fmt [
  | [] ↦ s
  | c ∷ cs ↦
      if is_digit c
      then record s { width = some (skip_atoi s.fmt 0).0; fmt = (skip_atoi s.fmt 0).1 }
      else if c == 42
      then (let (w, rest) = next_arg s.args in
          if is_negative w
          then record s {
            width = some (if w == 2 ^ 31 then 0 else 2 ^ 32 - w);
            flags = record s.flags { left = true };
            args = rest;
          }
          else record s { width = some w; args = rest })
      else s
]

-- After a '.': a precision below 0 becomes 0.
unfoldable pub precision_of : Spec → Spec
precision_of s = elim s.fmt [
  | [] ↦ record s { precision = some 0 }
  | c ∷ cs ↦
      if is_digit c
      then record s { precision = some (skip_atoi s.fmt 0).0; fmt = (skip_atoi s.fmt 0).1 }
      else if c == 42
      then (let (p, rest) = next_arg s.args in
          record s { precision = some (if is_negative p then 0 else p); args = rest })
      else record s { precision = some 0 }
]

unfoldable pub dot_of : Spec → Spec
dot_of s = elim s.fmt [
  | [] ↦ s
  | c ∷ cs ↦ if c == 46 then precision_of (record s { fmt = cs }) else s
]

-- 'h', 'l' or 'L'
unfoldable pub qualifier_of : Spec → Spec
qualifier_of s = elim s.fmt [
  | [] ↦ s
  | c ∷ cs ↦ if c == 104 || c == 108 || c == 76 then record s { fmt = cs } else s
]

unfoldable pub spec_of : List ℕ → List ℕ → Spec
spec_of fmt args =
    let (f, rest) = flags_of fmt no_flags in
    qualifier_of (
      dot_of
        (width_of (record { flags = f; width = none; precision = none; fmt = rest; args = args })))
