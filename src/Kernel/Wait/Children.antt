-- ===== src/Kernel/Wait/Children.antt =====
-- kernel/exit.c, sys_waitpid(): what the loop over the task table finds.
use rv.Common.{
  ℕ, zero, suc, ◌≤◌, ◌<◌, ◌≡◌, ◌≢◌, ◌⊎◌, inl, inr, some, Bool, true, false, ◌==◌, arith, Bool-cases,
  Option-cases, some-inj, subst, sym, ◌∙◌,
}
use rv.Kernel.Task.{Task, Tasks, task_at, task_zombie, task_stopped}
use rv.Kernel.Wait.{Scan, stopped, reaped, nothing, wait_scan}

-- A slot from 1 to n with a task that `sel` accepts.
abbrev pub IsChild : (ℕ → Task → Bool) → ℕ → Tasks → ℕ → Task → Type 0
IsChild sel n ts i t = (1 ≤ i) × (i ≤ n) × (task_at ts i ≡ some t) × (sel i t ≡ true)

-- The call answers for a zombie, and for a stopped child where such are asked for.
abbrev pub Answers : Bool → Task → Type 0
Answers untraced t = (t.state ≡ task_zombie) ⊎ ((t.state ≡ task_stopped) × (untraced ≡ true))

abbrev pub IsAlive : Task → Type 0
IsAlive t = (t.state ≢ task_zombie) × (t.state ≢ task_stopped)

module _ (sel : ℕ → Task → Bool) (untraced : Bool) (ts : Tasks) where
  abbrev pub NoneAbove : ℕ → ℕ → Type 0
  NoneAbove n i = (j : ℕ) (u : Task) → i < j → IsChild sel n ts j u → ¬ Answers untraced u

  abbrev pub SomeAlive : ℕ → Type 0
  SomeAlive n = (i : ℕ) × (t : Task) × IsChild sel n ts i t × IsAlive t

  abbrev pub AllStopped : ℕ → Type 0
  AllStopped n = (i : ℕ) (t : Task) → IsChild sel n ts i t → t.state ≡ task_stopped

  -- What the loop has found among the slots 1 to n, with `flag` set before or not.
  abbrev pub Found : ℕ → Bool → Scan → Type 0
  Found n flag (stopped i t) =
      IsChild sel n ts i t × (t.state ≡ task_stopped) × (untraced ≡ true) × NoneAbove n i
  Found n flag (reaped i t) = IsChild sel n ts i t × (t.state ≡ task_zombie) × NoneAbove n i
  Found n flag (nothing f) =
      NoneAbove n 0
      × (f ≡ true → (flag ≡ true) ⊎ SomeAlive n)
      × (f ≡ false → (flag ≡ false) × AllStopped n)

  -- A child in the slots 1 to suc n is in the last or before it.
  IsChild-cases :
      (n j : ℕ) (u : Task) → IsChild sel (suc n) ts j u → (j ≡ suc n) ⊎ IsChild sel n ts j u
  IsChild-cases n j u (a, b, c, d) = elim (Bool-cases (j == suc n)) [
    | inl z ↦ inl (ground arith)
    | inr z ↦ inr (a, ground arith, c, d)
  ]

  module _ (n : ℕ) where
    abbrev LastSilent : Type 0
    LastSilent = (u : Task) → IsChild sel (suc n) ts (suc n) u → ¬ Answers untraced u

    NoneAbove-suc : (i : ℕ) → LastSilent → NoneAbove n i → NoneAbove (suc n) i
    NoneAbove-suc i last above j u lt ch = elim (IsChild-cases n j u ch) [
      | inl e ↦ last u (subst (λ j. IsChild sel (suc n) ts j u) e ch)
      | inr c ↦ above j u lt c
    ]

    -- The loop goes on from the last slot with the flag f in place of `flag`.
    Found-suc :
        (flag f : Bool) (s : Scan)
        → LastSilent
        → (f ≡ true → (flag ≡ true) ⊎ SomeAlive (suc n))
        → (f ≡ false
            → (flag ≡ false)
              × ((u : Task) → IsChild sel (suc n) ts (suc n) u → u.state ≡ task_stopped))
        → Found n f s
        → Found (suc n) flag s
    Found-suc flag f (stopped i t) last up down ((a, b, c, d), e, g, above) =
        ((a, omega arith, c, d), e, g, NoneAbove-suc i last above)
    Found-suc flag f (reaped i t) last up down ((a, b, c, d), e, above) =
        ((a, omega arith, c, d), e, NoneAbove-suc i last above)
    Found-suc flag f (nothing g) last up down (above, alive, still) = (
      NoneAbove-suc 0 last above,
      λ e. rise (alive e),
      λ e.
          let (z, all) = still e in
          let (y, mine) = down z in
          (
            y,
            λ i t ch. elim (IsChild-cases n i t ch) [
              | inl q ↦ mine t (subst (λ j. IsChild sel (suc n) ts j t) q ch)
              | inr c ↦ all i t c
            ],
          ),
    )
      where
        rise : (f ≡ true) ⊎ SomeAlive n → (flag ≡ true) ⊎ SomeAlive (suc n)
        rise (inl e) = up e
        rise (inr (i, t, (a, b, c, d), l)) = inr (i, t, (a, omega arith, c, d), l)

  top-NoneAbove : (n : ℕ) → NoneAbove (suc n) (suc n)
  top-NoneAbove n j u lt ch = absurd (omega (arith, ch.1))

  -- The task in a slot is the one.
  same_task :
      (n : ℕ) (t u : Task) → task_at ts (suc n) ≡ some t → IsChild sel (suc n) ts (suc n) u → t ≡ u
  same_task n t u e ch = some-inj (sym e ∙ ch.2)

  -- Where the last slot has no child at all.
  childless :
      (n : ℕ) (flag : Bool) (s : Scan)
      → ((u : Task) → ¬ IsChild sel (suc n) ts (suc n) u)
      → Found n flag s
      → Found (suc n) flag s
  childless n flag s none_there =
      Found-suc n flag flag s (λ u ch a. none_there u ch) (λ e. inl e)
        (λ e. (e, λ u ch. absurd (none_there u ch)))

  becomes : (n : ℕ) (flag : Bool) {s s' : Scan} → s ≡ s' → Found n flag s' → Found n flag s
  becomes n flag q = subst (Found n flag) (sym q)

  pub wait_scan-Found : (n : ℕ) (flag : Bool) → Found n flag (wait_scan sel untraced n ts flag)
  unfolding wait_scan
  wait_scan-Found zero flag = (
    λ j u lt ch. absurd (omega (arith, ch.0, ch.1)),
    λ e. inl e,
    λ e. (e, λ i t ch. absurd (omega (arith, ch.0, ch.1))),
  )
  wait_scan-Found (suc n) flag = elim (Option-cases (task_at ts (suc n))) [
    | inl e ↦ rw (e, wait_scan) (childless n flag _ (λ u ch. cc (e, ch.2)) (wait_scan-Found n flag))
    | inr (t, e) ↦ elim (Bool-cases (sel (suc n) t)) [
      | inr miss ↦
          rw (e, miss, wait_scan)
            (childless n flag _ (λ u ch. let q = same_task n t u e ch in cc (ch.3, miss, q))
              (wait_scan-Found n flag))
      | inl hit ↦ elim (Bool-cases (t.state == task_stopped)) [
        | inl st ↦ elim (Bool-cases untraced) [
          | inl w ↦
              becomes (suc n) flag {s' = stopped (suc n) t} (rw (e, hit, st, w, wait_scan))
                ((omega arith, omega arith, e, hit), ground arith, w, top-NoneAbove n)
          | inr w ↦
              becomes (suc n) flag {s' = wait_scan sel untraced n ts flag}
                (rw (e, hit, st, w, wait_scan))
                (Found-suc n flag flag _
                  (λ u ch a. silent_stopped t u (same_task n t u e ch) (ground arith) w a)
                  (λ f. inl f)
                  (λ f. (
                    f,
                    λ u ch.
                        let q = same_task n t u e ch in
                        subst (λ (u : Task). u.state ≡ task_stopped) q (ground arith),
                  ))
                  (wait_scan-Found n flag))
        ]
        | inr st ↦ elim (Bool-cases (t.state == task_zombie)) [
          | inl z ↦
              rw (e, hit, st, z, wait_scan)
                ((omega arith, omega arith, e, hit), ground arith, top-NoneAbove n)
          | inr z ↦
              let l : IsAlive t = (λ q. ground arith, λ q. ground arith) in
              rw (e, hit, st, z, wait_scan)
                (Found-suc n flag true _ (λ u ch a. silent_alive t u (same_task n t u e ch) l a)
                  (λ f. inr (suc n, t, (omega arith, omega arith, e, hit), l)) (λ f. cc)
                  (wait_scan-Found n true))
        ]
      ]
    ]
  ]
    where
      silent_stopped :
          (t u : Task) → t ≡ u → t.state ≡ task_stopped → untraced ≡ false → Answers untraced u → ⊥
      silent_stopped t u q s w (inl z) =
          absurd (ground (arith, subst (λ (u : Task). u.state ≡ task_stopped) q s))
      silent_stopped t u q s w (inr (z, y)) = cc

      silent_alive : (t u : Task) → t ≡ u → IsAlive t → Answers untraced u → ⊥
      silent_alive t u q l (inl z) = (subst IsAlive q l).0 z
      silent_alive t u q l (inr (z, y)) = (subst IsAlive q l).1 z
