-- ===== src/Common/Bits.antt =====
-- Bits of machine words. A bit is tested, set and cleared by walking down the binary digits.
use Prim.Native.Nat.{ℕ, zero, suc, ◌+◌, ◌*◌, ◌/◌, ◌%◌, ◌<◌, ◌≤◌, ◌^◌}
use mathlib.Core.Path.{◌≡◌, refl}
use mathlib.Core.Bool.{Bool, true, false, ◌&&◌, ◌||◌, not}
use native.Mathlib.Omega.{arith}
use native.Mathlib.Nat.{pow-suc}
use rv.Common.Tests.{ltb, ◌==◌, if◌then◌else◌}

-- x & (1 << k), as a test
unfoldable pub bit : ℕ → ℕ → Bool
bit x zero = x % 2 == 1
bit x (suc k) = bit (x / 2) k

-- x | (1 << k)
unfoldable pub set_bit : ℕ → ℕ → ℕ
set_bit x zero = x / 2 * 2 + 1
set_bit x (suc k) = set_bit (x / 2) k * 2 + x % 2

-- x & ~(1 << k)
unfoldable pub clear_bit : ℕ → ℕ → ℕ
clear_bit x zero = x / 2 * 2
clear_bit x (suc k) = clear_bit (x / 2) k * 2 + x % 2

abbrev pub of_bool : Bool → ℕ
of_bool true = 1
of_bool false = 0

-- The word of `w` bits whose bit k is `f` of the bits k of x and of y.
unfoldable pub bitwise : (Bool → Bool → Bool) → ℕ → ℕ → ℕ → ℕ
bitwise f zero x y = 0
bitwise f (suc w) x y = bitwise f w (x / 2) (y / 2) * 2 + of_bool (f (x % 2 == 1) (y % 2 == 1))

-- x & y, x | y and x & ~y on words of 32 bits
abbrev pub and32 : ℕ → ℕ → ℕ
and32 = bitwise (λ a b. a && b) 32

abbrev pub or32 : ℕ → ℕ → ℕ
or32 = bitwise (λ a b. a || b) 32

abbrev pub and_not32 : ℕ → ℕ → ℕ
and_not32 = bitwise (λ a b. a && not b) 32

pub bit-zero : (k : ℕ) → bit 0 k ≡ false
unfolding bit
bit-zero zero = refl
bit-zero (suc k) = bit-zero k

pub bit-set_bit : (x k j : ℕ) → bit (set_bit x k) j ≡ (if k == j then true else bit x j)
unfolding bit set_bit
bit-set_bit x zero zero = ground arith
bit-set_bit x zero (suc j) =
    let e : (x / 2 * 2 + 1) / 2 ≡ x / 2 = omega arith in rw e (ground arith)
bit-set_bit x (suc k) zero = ground arith
bit-set_bit x (suc k) (suc j) =
    let e : (set_bit (x / 2) k * 2 + x % 2) / 2 ≡ set_bit (x / 2) k = omega arith in
    rw (e, bit-set_bit (x / 2) k j) (ground arith)

pub bit-clear_bit : (x k j : ℕ) → bit (clear_bit x k) j ≡ (if k == j then false else bit x j)
unfolding bit clear_bit
bit-clear_bit x zero zero = ground arith
bit-clear_bit x zero (suc j) = let e : x / 2 * 2 / 2 ≡ x / 2 = omega arith in rw e (ground arith)
bit-clear_bit x (suc k) zero = ground arith
bit-clear_bit x (suc k) (suc j) =
    let e : (clear_bit (x / 2) k * 2 + x % 2) / 2 ≡ clear_bit (x / 2) k = omega arith in
    rw (e, bit-clear_bit (x / 2) k j) (ground arith)

pub bit-bitwise :
    (f : Bool → Bool → Bool) (w x y k : ℕ) → k < w → bit (bitwise f w x y) k ≡ f (bit x k) (bit y k)
unfolding bit bitwise
bit-bitwise f zero x y k h = elim h [ ]
bit-bitwise f (suc w) x y zero h = ground arith
bit-bitwise f (suc w) x y (suc k) h =
    let e : (bitwise f w (x / 2) (y / 2) * 2 + of_bool (f (x % 2 == 1) (y % 2 == 1))) / 2
        ≡ bitwise f w (x / 2) (y / 2) =
      ground arith in
    rw e (bit-bitwise f w (x / 2) (y / 2) k (omega arith))

pub bit-bitwise_above :
    (f : Bool → Bool → Bool) (w x y k : ℕ) → ltb k w ≡ false → bit (bitwise f w x y) k ≡ false
unfolding bit bitwise
bit-bitwise_above f zero x y zero h = refl
bit-bitwise_above f zero x y (suc k) h = bit-zero k
bit-bitwise_above f (suc w) x y zero h = ground arith
bit-bitwise_above f (suc w) x y (suc k) h =
    let e : (bitwise f w (x / 2) (y / 2) * 2 + of_bool (f (x % 2 == 1) (y % 2 == 1))) / 2
        ≡ bitwise f w (x / 2) (y / 2) =
      ground arith in
    rw e (bit-bitwise_above f w (x / 2) (y / 2) k (ground arith))

pub bitwise-lt : (f : Bool → Bool → Bool) (w x y : ℕ) → bitwise f w x y < 2 ^ w
unfolding bitwise
bitwise-lt f zero x y = omega arith
bitwise-lt f (suc w) x y =
    let b : of_bool (f (x % 2 == 1) (y % 2 == 1)) ≤ 1 = of_bool-le (f (x % 2 == 1) (y % 2 == 1)) in
    omega (arith, pow-suc 2 w, bitwise-lt f w (x / 2) (y / 2))
  where
    of_bool-le : (b : Bool) → of_bool b ≤ 1
    of_bool-le true = omega arith
    of_bool-le false = omega arith
