-- ===== src/Kernel/Vsprintf/Format.antt =====
-- kernel/vsprintf.c, vsprintf(): the conversions. `strings` gives the string at an address, without its
-- final 0; `stored` lists what %n writes, as pairs of an address and a value.
use rv.Common.{
  ℕ, zero, suc, ◌-◌, ◌%◌, Option, none, some, Bool, true, ◌==◌, ◌||◌, if◌then◌else◌, List, [], ◌∷◌,
  ◌++◌, length, take, replicate,
}
use rv.Kernel.Vsprintf.{Flags, Spec, number, next_arg, spec_of}

-- A width or precision that is only compared with positive numbers.
abbrev pub or_zero : Option ℕ → ℕ
or_zero none = 0
or_zero (some n) = n

-- number() returns NULL only for a base that vsprintf() does not use.
abbrev pub or_nothing : Option (List ℕ) → List ℕ
or_nothing none = []
or_nothing (some s) = s

-- Text in a field: blanks on the right with LEFT, else on the left.
unfoldable pub in_field : Bool → ℕ → List ℕ → List ℕ
in_field left width text =
    if left
    then text ++ replicate (width - length text) 32
    else replicate (width - length text) 32 ++ text

-- What one conversion prints, the pair that it stores, the arguments that are left and the format after it.
pub record Converted : Type 0 where
  pub text : List ℕ
  pub stored : List (ℕ × ℕ)
  pub args : List ℕ
  pub fmt : List ℕ

abbrev pub prints : List ℕ → List ℕ → List ℕ → Converted
prints text args fmt = record { text = text; stored = []; args = args; fmt = fmt }

-- One of the integer conversions.
abbrev pub prints_number : ℕ → Flags → Option ℕ → Spec → List ℕ → Converted
prints_number base f width s fmt =
    let (a, rest) = next_arg s.args in
    prints (or_nothing (number a base (or_zero width) (or_zero s.precision) f)) rest fmt

unfoldable pub cut : Option ℕ → List ℕ → List ℕ
cut none text = text
cut (some n) text = take n text

-- The `switch (*fmt)` on the conversion `c`; `fmt` is what follows it, and `printed` is `str - buf`.
unfoldable pub convert_char : (ℕ → List ℕ) → ℕ → Spec → ℕ → List ℕ → Converted
convert_char strings printed s c fmt =
    let f = s.flags in
    let (a, rest) = next_arg s.args in
    if c == 99
    then prints (in_field f.left (or_zero s.width) (a % 256 ∷ [])) rest fmt
    else if c == 115
    then prints (in_field f.left (or_zero s.width) (cut s.precision (strings a))) rest fmt
    else if c == 111
    then prints_number 8 f s.width s fmt
    else if c == 112
    then elim s.width [
      | none ↦ prints_number 16 (record f { zeropad = true }) (some 8) s fmt
      | some w ↦ prints_number 16 f (some w) s fmt
    ]
    else if c == 120
    then prints_number 16 (record f { small = true }) s.width s fmt
    else if c == 88
    then prints_number 16 f s.width s fmt
    else if c == 100 || c == 105
    then prints_number 10 (record f { sign = true }) s.width s fmt
    else if c == 117
    then prints_number 10 f s.width s fmt
    else if c == 110
    then record { text = []; stored = (a, printed) ∷ []; args = rest; fmt = fmt }
    else if c == 37
    then prints (37 ∷ []) s.args fmt
    else prints (37 ∷ c ∷ []) s.args fmt

-- At the end of the format `%` stands for itself.
unfoldable pub convert : (ℕ → List ℕ) → ℕ → Spec → Converted
convert strings printed s = elim s.fmt [
  | [] ↦ prints (37 ∷ []) s.args []
  | c ∷ fmt ↦ convert_char strings printed s c fmt
]

-- The loop over the format: what is printed, and what is stored.
unfoldable pub vsprintf_loop : ℕ → (ℕ → List ℕ) → List ℕ → List ℕ → List ℕ → List ℕ × List (ℕ × ℕ)
vsprintf_loop zero strings fmt args out = (out, [])
vsprintf_loop (suc fuel) strings [] args out = (out, [])
vsprintf_loop (suc fuel) strings (c ∷ fmt) args out =
    let plain = vsprintf_loop fuel strings fmt args (out ++ c ∷ []) in
    let r = convert strings (length out) (spec_of fmt args) in
    let (out', stored) = vsprintf_loop fuel strings r.fmt r.args (out ++ r.text) in
    if c == 37 then (out', r.stored ++ stored) else plain

-- A round takes at least one character of the format.
unfoldable pub vsprintf : (ℕ → List ℕ) → List ℕ → List ℕ → List ℕ × List (ℕ × ℕ)
vsprintf strings fmt args = vsprintf_loop (length fmt) strings fmt args []
