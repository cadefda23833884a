-- ===== src/Fs/Open/Slots.antt =====
-- fs/open.c, sys_open(): the descriptor and the file that are taken, and that an error gives them back.
use rv.Common.{
  ℕ, zero, suc, ◌+◌, ◌%◌, ◌^◌, ◌<◌, ◌≡◌, ◌≢◌, refl, sym, ap, ◌∙◌, inl, inr, Option, none, some,
  Bool, ◌==◌, some-inj, List, [], ◌∷◌, arith, Bool-cases, Option-cases, get_or, set,
}
use rv.Kernel.Task.{nr_open}
use rv.Kernel.Sys.{eperm}
use rv.Fs.Files.{Files, file_at, free_from}
use rv.Fs.Files.Dup.{free_from-some}
use rv.Fs.Open.{
  nr_file, Named, refused, named, free_file, open_tty, Opened, opens, fails, reserve, give_up,
  commit, open_file, keep_on_exec, sys_open,
}

module _ {ℓ} {A : Type ℓ} where
  set-set : (l : List A) (i : ℕ) (a b : A) → set (set l i a) i b ≡ set l i b
  set-set [] i a b = refl
  set-set (x ∷ l) zero a b = refl
  set-set (x ∷ l) (suc i) a b = ap (λ m. x ∷ m) (set-set l i a b)

  set-get_or : (l : List A) (i : ℕ) (d : A) → set l i (get_or l i d) ≡ l
  set-get_or [] i d = refl
  set-get_or (x ∷ l) zero d = refl
  set-get_or (x ∷ l) (suc i) d = ap (λ m. x ∷ m) (set-get_or l i d)

  -- What was there comes back.
  set-back : (l : List A) (i : ℕ) (a b d : A) → get_or l i d ≡ b → set (set l i a) i b ≡ l
  set-back l i a b d e = set-set l i a b ∙ ap (λ v. set l i v) (sym e) ∙ set-get_or l i d

free_file-some :
    (n i f : ℕ) (l : List ℕ) → free_file n i l ≡ some f → (f < i + n) × (get_or l f 0 ≡ 0)
unfolding free_file
free_file-some zero i f l h = cc
free_file-some (suc n) i f l h = elim (Bool-cases (get_or l i 0 == 0)) [
  | inl free ↦
      let q : i ≡ f = some-inj (rw (free, free_file) at h) in
      (omega (arith, q), rw (← q) (ground arith))
  | inr used ↦
      let (a, b) = free_file-some n (suc i) f l (rw (used, free_file) at h) in (omega (arith, a), b)
]

-- Descriptor fd is the first one that is closed, and file f is not in use.
abbrev pub IsFree : ℕ → ℕ → Files → Type 0
IsFree fd f s =
    (fd < nr_open)
    × (file_at s fd ≡ none)
    × ((j : ℕ) → j < fd → file_at s j ≢ none)
    × (f < nr_file)
    × (get_or s.f_count f 0 ≡ 0)

-- What sys_open() makes of the descriptors.
abbrev pub IsOpened : Files → Opened → Type 0
IsOpened s (opens fd f tty s') =
    IsFree fd f s × (s'.filp ≡ set s.filp fd (some f)) × (s'.f_count ≡ set s.f_count f 1)
IsOpened s (fails e s') = (s'.filp ≡ s.filp) × (s'.f_count ≡ s.f_count)

open_file-IsOpened :
    (leader : Bool) (tty : Option ℕ) (flag : ℕ) (r : Named) (fd f : ℕ) (s : Files)
    → IsFree fd f s
    → IsOpened s (open_file leader tty flag r fd f (reserve fd f (keep_on_exec fd s)))
unfolding open_file
open_file-IsOpened leader tty flag (refused e) fd f s free = (
  set-back s.filp fd (some f) none none free.1,
  set-back s.f_count f ((get_or s.f_count f 0 + 1) % 2 ^ 16) 0 0 free.4,
)
open_file-IsOpened leader tty flag (named inode) fd f s free = either (open_tty leader tty inode)
  where
    either :
        (t : Option (Option ℕ))
        → IsOpened s (elim t [
          | none ↦ fails eperm (give_up fd f (reserve fd f (keep_on_exec fd s)))
          | some tty' ↦ opens fd f tty' (commit flag f (reserve fd f (keep_on_exec fd s)))
        ])
    either none = (
      set-back s.filp fd (some f) none none free.1,
      set-back s.f_count f ((get_or s.f_count f 0 + 1) % 2 ^ 16) 0 0 free.4,
    )
    either (some tty') = (free, refl, set-set s.f_count f ((get_or s.f_count f 0 + 1) % 2 ^ 16) 1)

-- sys_open() opens the first descriptor that is closed, for a file of the file table that is not in use
-- and whose count becomes 1, and leaves the other descriptors and counts alone; when it fails, for
-- whatever reason, all descriptors and counts are as they were.
pub sys_open-IsOpened :
    (leader : Bool) (tty : Option ℕ) (flag : ℕ) (r : Named) (s : Files)
    → IsOpened s (sys_open leader tty flag r s)
unfolding sys_open
sys_open-IsOpened leader tty flag r s = elim (Option-cases (free_from nr_open 0 s)) [
  | inl full ↦ rw (full, sys_open) (refl, refl)
  | inr (fd, e) ↦ elim (Option-cases (free_file nr_file 0 s.f_count)) [
    | inl full ↦ rw (e, full, sys_open) (refl, refl)
    | inr (f, g) ↦
        let (lo, hi, none_there, below) = free_from-some nr_open 0 fd s e in
        let (lf, zero_count) = free_file-some nr_file 0 f s.f_count g in
        rw (e, g, sys_open)
          (open_file-IsOpened leader tty flag r fd f s (
            omega (arith, hi),
            none_there,
            (λ j lt. below j (omega arith) lt),
            omega (arith, lf),
            zero_count,
          ))
  ]
]
