-- ===== src/Fs/Files/Dup.antt =====
-- fs/fcntl.c, dupfd(): which descriptor is given, and what changes.
use rv.Common.{
  ℕ, zero, suc, ◌+◌, ◌-◌, ◌%◌, ◌^◌, ◌≤◌, ◌<◌, ◌≡◌, ◌≢◌, ◌⊎◌, inl, inr, refl, none, some, leb, arith,
  Bool-cases, Option-cases, get_or, length, get_or-set_self, get_or-set_ne, sym, ◌∙◌, some-inj,
}
use rv.Kernel.Task.{nr_open}
use rv.Kernel.Sys.{Ret, ok, err}
use rv.Fs.Files.{Files, file_at, free_from, dupfd, ebadf, einval, emfile}

free_from-here : (n arg : ℕ) (s : Files) → file_at s arg ≡ none → free_from (suc n) arg s ≡ some arg
unfolding free_from
free_from-here n arg s e = rw (e, free_from)

free_from-there :
    (n arg f : ℕ) (s : Files)
    → file_at s arg ≡ some f
    → free_from (suc n) arg s ≡ free_from n (suc arg) s
unfolding free_from
free_from-there n arg f s e = rw (e, free_from)

pub free_from-some :
    (n arg to : ℕ) (s : Files)
    → free_from n arg s ≡ some to
    → (arg ≤ to)
      × (to < arg + n)
      × (file_at s to ≡ none)
      × ((j : ℕ) → arg ≤ j → j < to → file_at s j ≢ none)
unfolding free_from
free_from-some zero arg to s e = cc
free_from-some (suc n) arg to s e = elim (Option-cases (file_at s arg)) [
  | inl free ↦
      let q : arg ≡ to = some-inj (sym (free_from-here n arg s free) ∙ e) in
      (omega arith, omega arith, rw (← q) free, λ j a b. absurd (omega arith))
  | inr (f, used) ↦
      let (a, b, c, d) =
        free_from-some n (suc arg) to s (sym (free_from-there n arg f s used) ∙ e) in
      (omega arith, omega arith, c, below used d)
]
  where
    below :
        {f : ℕ}
        → file_at s arg ≡ some f
        → ((j : ℕ) → suc arg ≤ j → j < to → file_at s j ≢ none)
        → (j : ℕ) → arg ≤ j
        → j < to
        → file_at s j ≢ none
    below used d j a b = elim (Bool-cases (leb (suc arg) j)) [
      | inl z ↦ d j (ground arith) b
      | inr z ↦ λ no_file. let q : arg ≡ j = ground arith in cc (used, no_file, q)
    ]

pub free_from-none :
    (n arg j : ℕ) (s : Files)
    → free_from n arg s ≡ none
    → arg ≤ j
    → j < arg + n
    → file_at s j ≢ none
unfolding free_from
free_from-none zero arg j s e a b = absurd (omega arith)
free_from-none (suc n) arg j s e a b = elim (Option-cases (file_at s arg)) [
  | inl free ↦ cc (free_from-here n arg s free, e)
  | inr (f, used) ↦ elim (Bool-cases (leb (suc arg) j)) [
    | inl z ↦
        free_from-none n (suc arg) j s (sym (free_from-there n arg f s used) ∙ e) (ground arith)
          (omega arith)
    | inr z ↦ λ no_file. let q : arg ≡ j = ground arith in cc (used, no_file, q)
  ]
]

-- The descriptors of a task are its 20, and each open one stands for a file of the file table.
pub record IsFiles (s : Files) : Type 0 where
  pub all : length s.filp ≡ nr_open
  pub in_table : (fd f : ℕ) → file_at s fd ≡ some f → f < length s.f_count

-- What dupfd() owes: the first free descriptor that is not below `arg`, which then stands for the same
-- file as `fd` and is one more user of it, with every other descriptor as it was; or an error, with
-- nothing changed, and only because `fd` is not open, or no descriptor from `arg` on is free.
abbrev pub Duplicates : ℕ → ℕ → Files → Ret × Files → Type 0
Duplicates fd arg s r =
    ((to : ℕ) × (f : ℕ) × (r.0 ≡ ok to)
      × (file_at s fd ≡ some f)
      × (arg ≤ to)
      × (to < nr_open)
      × (file_at s to ≡ none)
      × ((j : ℕ) → arg ≤ j → j < to → file_at s j ≢ none)
      × (file_at r.1 to ≡ some f)
      × ((j : ℕ) → to ≢ j → file_at r.1 j ≡ file_at s j)
      × (get_or r.1.f_count f 0 ≡ (get_or s.f_count f 0 + 1) % 2 ^ 16))
    ⊎ ((e : ℕ) × (r ≡ (err e, s))
        × ((nr_open ≤ fd)
            ⊎ (file_at s fd ≡ none)
            ⊎ ((j : ℕ) → arg ≤ j → j < nr_open → file_at s j ≢ none)))

-- dupfd() does what `Duplicates` says.
pub dupfd-Duplicates : (fd arg : ℕ) (s : Files) → IsFiles s → Duplicates fd arg s (dupfd fd arg s)
unfolding dupfd
dupfd-Duplicates fd arg s v = elim (Bool-cases (leb nr_open fd)) [
  | inl out ↦ rw out (inr (ebadf, refl, inl (ground arith)))
  | inr good ↦ elim (Option-cases (file_at s fd)) [
    | inl shut ↦ rw (good, shut) (inr (ebadf, refl, inr (inl refl)))
    | inr (f, opened) ↦ elim (Bool-cases (leb nr_open arg)) [
      | inl high ↦
          rw (good, opened, high) (inr (einval, refl, inr (inr (λ j a b. absurd (ground arith)))))
      | inr low ↦ elim (Option-cases (free_from (nr_open - arg) arg s)) [
        | inl full ↦
            rw (good, opened, low, full)
              (inr (
                emfile,
                refl,
                inr (inr (λ j a b. free_from-none (nr_open - arg) arg j s full a (ground arith))),
              ))
        | inr (to, found) ↦
            let (a, b, c, d) = free_from-some (nr_open - arg) arg to s found in
            let lt : to < nr_open = ground arith in
            rw (good, opened, low, found)
              (inl (
                to,
                f,
                refl,
                refl,
                a,
                lt,
                c,
                d,
                get_or-set_self s.filp to (some f) none (omega (arith, v.all)),
                λ j ne. get_or-set_ne s.filp to j (some f) none ne,
                get_or-set_self s.f_count f _ 0 (v.in_table fd f opened),
              ))
      ]
    ]
  ]
]
