-- ===== src/Kernel/Sched/Choice.antt =====
-- kernel/sched.c, schedule(): which task is chosen, when the choice ends, and the new time slices.
use rv.Common.{
  ℕ, zero, suc, ◌≤◌, ◌≡◌, refl, ◌⊎◌, inl, inr, Option, none, some, false, ◌&&◌, ◌==◌, arith,
  Bool-cases,
}
use rv.Kernel.Task.{Task, Tasks, task_at, task_running}
use rv.Kernel.Sched.{above, consider, pick}

abbrev pub IsRunnable : Tasks → ℕ → Task → Type 0
IsRunnable ts i t = (task_at ts i ≡ some t) × (t.state ≡ task_running)

consider_mono :
    (m : ℕ) (o : Option Task) (i : ℕ) (b : Option ℕ × ℕ)
    → above m b.0 ≡ false
    → above m (consider o i b).0 ≡ false
unfolding consider
consider_mono m none i (c, next) h = h
consider_mono m (some t) i (none, next) h = ground arith
consider_mono m (some t) i (some c, next) h = ground arith

pick_mono :
    (m : ℕ) (ts : Tasks) (n : ℕ) (b : Option ℕ × ℕ)
    → above m b.0 ≡ false
    → above m (pick ts n b).0 ≡ false
unfolding pick
pick_mono m ts zero b h = h
pick_mono m ts (suc n) b h = pick_mono m ts n _ (consider_mono m (task_at ts (suc n)) (suc n) b h)

consider-covers :
    (o : Option Task) (i : ℕ) (b : Option ℕ × ℕ) (t : Task)
    → o ≡ some t
    → t.state ≡ task_running
    → above t.counter (consider o i b).0 ≡ false
unfolding consider
consider-covers none i b t e r = cc
consider-covers (some u) i (none, next) t e r = ground arith
consider-covers (some u) i (some c, next) t e r = ground arith

-- No runnable task among the slots seen has a larger counter than the one picked.
pub pick-covers :
    (ts : Tasks) (n : ℕ) (b : Option ℕ × ℕ) (i : ℕ) (t : Task)
    → 1 ≤ i
    → i ≤ n
    → IsRunnable ts i t
    → above t.counter (pick ts n b).0 ≡ false
unfolding pick
pick-covers ts zero b i t lo hi r = absurd (omega arith)
pick-covers ts (suc n) b i t lo hi r = elim (Bool-cases (i == suc n)) [
  | inl same ↦
      let e : i ≡ suc n = ground arith in
      pick_mono t.counter ts n _
        (consider-covers (task_at ts (suc n)) (suc n) b t (rw (← e) r.0) r.1)
  | inr other ↦ pick-covers ts n _ i t lo (ground arith) r
]

-- What is picked is either what was there before, or a runnable task with its counter.
abbrev pub Picked : Tasks → ℕ → Option ℕ × ℕ → Option ℕ × ℕ → Type 0
Picked ts n b r =
    (r ≡ b) ⊎ ((t : Task) × IsRunnable ts r.1 t × (r.0 ≡ some t.counter) × (1 ≤ r.1) × (r.1 ≤ n))

consider-Picked :
    (o : Option Task) (i : ℕ) (b : Option ℕ × ℕ)
    → (consider o i b ≡ b)
      ⊎ ((t : Task) × (o ≡ some t)
          × (t.state ≡ task_running)
          × (consider o i b ≡ (some t.counter, i)))
unfolding consider
consider-Picked none i (c, next) = inl refl
consider-Picked (some t) i (c, next) =
    elim (Bool-cases (t.state == task_running && above t.counter c)) [
      | inl h ↦ inr (t, refl, ground arith, rw h)
      | inr h ↦ inl (rw h)
    ]

pub pick-Picked : (ts : Tasks) (n : ℕ) (b : Option ℕ × ℕ) → Picked ts n b (pick ts n b)
unfolding pick
pick-Picked ts zero b = inl refl
pick-Picked ts (suc n) b = go (consider-Picked (task_at ts (suc n)) (suc n) b) (pick-Picked ts n _)
  where
    go :
        (consider (task_at ts (suc n)) (suc n) b ≡ b)
          ⊎ ((t : Task) × (task_at ts (suc n) ≡ some t)
              × (t.state ≡ task_running)
              × (consider (task_at ts (suc n)) (suc n) b ≡ (some t.counter, suc n)))
        → Picked ts n
            (consider (task_at ts (suc n)) (suc n) b)
            (pick ts n (consider (task_at ts (suc n)) (suc n) b))
        → Picked ts (suc n) b (pick ts n (consider (task_at ts (suc n)) (suc n) b))
    go s (inr (t, r, e, lo, hi)) = inr (t, r, e, lo, omega arith)
    go (inl s) (inl p) = inl (rw p s)
    go (inr (t, e, r, s)) (inl p) = rw (p, s) (inr (t, (e, r), refl, omega arith, omega arith))
