-- ===== src/Fs/Seek/Position.antt =====
-- fs/read_write.c, sys_lseek(): where it puts f_pos.
use rv.Common.{
  ℕ, zero, suc, ◌+◌, ◌-◌, ◌%◌, ◌^◌, ◌≤◌, ◌<◌, ◌≡◌, refl, ◌⊎◌, inl, inr, Option, none, some, Bool,
  true, false, leb, ltb, ltb→lt, lt→ltb, not, ◌||◌, if◌then◌else◌, arith, Bool-cases,
}
use rv.Block.Buffers.{major}
use rv.Kernel.Task.{nr_open}
use rv.Fs.Files.{ebadf, einval}
use rv.Fs.Seek.{
  ℤ, pos, negsuc, File, as_int, plus32, non_negative, is_seekable, seek_to, Sought, refuses, at,
  sys_lseek, espipe,
}

-- p is a + offset.
abbrev pub IsSum : ℕ → ℤ → ℕ → Type 0
IsSum a (pos n) p = p ≡ a + n
IsSum a (negsuc n) p = p + suc n ≡ a

-- a + offset is negative.
abbrev pub IsBelowZero : ℕ → ℤ → Type 0
IsBelowZero a (pos n) = ⊥
IsBelowZero a (negsuc n) = a ≤ n

-- a and a + offset fit in an int.
abbrev pub FitsInt : ℕ → ℤ → Type 0
FitsInt a (pos n) = a + n < 2 ^ 31
FitsInt a (negsuc n) = (a < 2 ^ 31) × (n < 2 ^ 31)

-- What the offset counts from: the start, f_pos or the end of the file.
abbrev pub base : ℕ → File → Option ℕ
base zero f = some 0
base (suc zero) f = some f.f_pos
base (suc (suc zero)) f = some f.i_size
base (suc (suc (suc origin))) f = none

abbrev pub IsSeek : Option ℕ → ℤ → Option ℕ → Type 0
IsSeek none offset none = Unit
IsSeek none offset (some p) = ⊥
IsSeek (some a) offset none = IsBelowZero a offset
IsSeek (some a) offset (some p) = IsSum a offset p × (p < 2 ^ 31)

small_int : (n : ℕ) → n < 2 ^ 31 → as_int n ≡ pos n
small_int n h = let q : n % 2 ^ 32 ≡ n = omega (arith, h) in rw (q, lt→ltb n (2 ^ 31) h)

wrapped_int : (n w : ℕ) → n % 2 ^ 32 ≡ w → 2 ^ 31 ≤ w → as_int n ≡ negsuc (2 ^ 32 - 1 - w)
wrapped_int n w e h = let q : ltb w (2 ^ 31) ≡ false = ground arith in rw (e, q)

sum-IsSeek :
    (a : ℕ) (offset : ℤ)
    → FitsInt a offset
    → IsSeek (some a) offset (non_negative (as_int (plus32 a offset)))
sum-IsSeek a (pos n) h =
    let q : (a + n) % 2 ^ 32 ≡ a + n = omega (arith, h) in rw (q, small_int (a + n) h) (refl, h)
sum-IsSeek a (negsuc n) (ha, hn) = elim (Bool-cases (ltb n a)) [
  | inl e ↦
      let lt = ltb→lt n a e in
      let q : (a + (2 ^ 32 - 1 - n)) % 2 ^ 32 ≡ a - suc n = omega (arith, lt, ha, hn) in
      rw (q, small_int (a - suc n) (omega (arith, ha))) (omega (arith, lt), omega (arith, ha))
  | inr e ↦
      let le : a ≤ n = ground arith in
      let q : (a + (2 ^ 32 - 1 - n)) % 2 ^ 32 % 2 ^ 32 ≡ 2 ^ 32 + a - suc n =
        omega (arith, le, ha, hn) in
      rw
        (wrapped_int ((a + (2 ^ 32 - 1 - n)) % 2 ^ 32) (2 ^ 32 + a - suc n) q
          (omega (arith, le, ha, hn)))
        le
]

origin-IsSeek :
    (origin : ℕ) (offset : ℤ) (f : File)
    → FitsInt f.f_pos offset
    → FitsInt f.i_size offset
    → FitsInt 0 offset
    → IsSeek (base origin f) offset (seek_to origin offset f)
unfolding seek_to
origin-IsSeek zero (pos n) f hp hs h0 = (omega arith, omega (arith, h0))
origin-IsSeek zero (negsuc n) f hp hs h0 = omega arith
origin-IsSeek (suc zero) offset f hp hs h0 = sum-IsSeek f.f_pos offset hp
origin-IsSeek (suc (suc zero)) offset f hp hs h0 = sum-IsSeek f.i_size offset hs
origin-IsSeek (suc (suc (suc origin))) offset f hp hs h0 = tt

-- A device that can seek: memory, the floppy disk or the hard disk.
abbrev pub CanSeek : ℕ → Type 0
CanSeek m = (1 ≤ m) × (m ≤ 3)

abbrev pub CannotSeek : ℕ → Type 0
CannotSeek m = (m < 1) ⊎ (3 < m)

abbrev pub IsOpenSeekable : ℕ → File → Type 0
IsOpenSeekable fd f = (fd < nr_open) × CanSeek (major f.i_dev)

-- Why the call is refused, or where the file stands after it.
abbrev pub IsSought : ℕ → File → ℤ → ℕ → Sought → Type 0
IsSought fd f offset origin (refuses e) =
    ((e ≡ ebadf) × ((nr_open ≤ fd) ⊎ CannotSeek (major f.i_dev)))
    ⊎ ((e ≡ espipe) × IsOpenSeekable fd f × (f.i_pipe ≡ true))
    ⊎ ((e ≡ einval) × IsOpenSeekable fd f × (f.i_pipe ≡ false) × IsSeek (base origin f) offset none)
IsSought fd f offset origin (at r g) =
    (p : ℕ) × (r ≡ pos p)
    × (g ≡ record f { f_pos = p })
    × IsOpenSeekable fd f
    × (f.i_pipe ≡ false)
    × IsSeek (base origin f) offset (some p)

closed-or :
    (fd m : ℕ) → (leb nr_open fd || not (is_seekable m)) ≡ true → (nr_open ≤ fd) ⊎ CannotSeek m
closed-or fd m h = elim (Bool-cases (leb nr_open fd)) [
  | inl e ↦ inl (ground arith)
  | inr e ↦ inr (elim (Bool-cases (leb 1 m)) [
    | inl lo ↦ inr (ground (arith, rw (e, lo) at h))
    | inr lo ↦ inl (ground arith)
  ])
]

open-and : (fd m : ℕ) → (leb nr_open fd || not (is_seekable m)) ≡ false → (fd < nr_open) × CanSeek m
open-and fd m h = (ground arith, (ground arith, ground arith))

IsSeek-small : (a : Option ℕ) (offset : ℤ) (p : ℕ) → IsSeek a offset (some p) → p < 2 ^ 31
IsSeek-small none offset p h = absurd h
IsSeek-small (some a) offset p h = h.1

module _ (fd : ℕ) (f : File) (offset : ℤ) (origin : ℕ) where
  outcome :
      (bad pipe : Bool) (p : Option ℕ)
      → (leb nr_open fd || not (is_seekable (major f.i_dev))) ≡ bad
      → f.i_pipe ≡ pipe
      → IsSeek (base origin f) offset p
      → IsSought fd f offset origin (
          if bad
          then refuses ebadf
          else if pipe
          then refuses espipe
          else elim p [ none ↦ refuses einval | some p ↦ at (as_int p) (record f { f_pos = p }) ])
  outcome true pipe p b q h = inl (refl, closed-or fd (major f.i_dev) b)
  outcome false true p b q h = inr (inl (refl, open-and fd (major f.i_dev) b, q))
  outcome false false none b q h = inr (inr (refl, open-and fd (major f.i_dev) b, q, h))
  outcome false false (some p) b q h = (
    p,
    small_int p (IsSeek-small (base origin f) offset p h),
    refl,
    open-and fd (major f.i_dev) b,
    q,
    h,
  )

-- For positions and sums that fit in an int, sys_lseek() refuses a descriptor that is out of range or
-- of no seekable device, a pipe, an origin above 2 and a sum below 0, each with its error; otherwise
-- f_pos becomes the sum of the offset and what it counts from, which is the result, and nothing else
-- changes.
pub sys_lseek-IsSought :
    (fd : ℕ) (f : File) (offset : ℤ) (origin : ℕ)
    → FitsInt f.f_pos offset
    → FitsInt f.i_size offset
    → FitsInt 0 offset
    → IsSought fd f offset origin (sys_lseek fd (some f) offset origin)
unfolding sys_lseek
sys_lseek-IsSought fd f offset origin hp hs h0 =
    outcome fd f offset origin (leb nr_open fd || not (is_seekable (major f.i_dev))) f.i_pipe
      (seek_to origin offset f) refl refl (origin-IsSeek origin offset f hp hs h0)
