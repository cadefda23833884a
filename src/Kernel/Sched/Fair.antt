-- ===== src/Kernel/Sched/Fair.antt =====
-- kernel/sched.c, schedule(): the task that gets the processor, and the bound on time slices.
use rv.Common.{
  ℕ, zero, suc, ◌*◌, ◌^◌, ◌≤◌, ◌<◌, ◌≡◌, refl, ◌⊎◌, inl, inr, Option, none, some, false, [], ◌∷◌,
  arith, Bool-cases, Option-cases, map, subst, some-inj,
}
use mathlib.Core.Option
use rv.Kernel.Task.{Task, Tasks, task_at, each_but_first, nr_tasks}
use rv.Kernel.Sched.{
  Kernel, above, is_zero, picked, recredit, choose, check_signals, check_alarm, wake_signalled,
  schedule, switch_to,
}
use rv.Kernel.Sched.Choice.{IsRunnable, pick-covers, pick-Picked}

-- Slot n is the right one to run: the runnable task with the most time left, and some time left;
-- or the idle task, slot 0, where no other task is runnable.
abbrev pub IsBest : Tasks → ℕ → Type 0
IsBest ts n =
    ((n ≡ 0) × ((i : ℕ) (u : Task) → 1 ≤ i → i < nr_tasks → ¬ IsRunnable ts i u))
    ⊎ ((t : Task) × IsRunnable ts n t
        × (1 ≤ n)
        × (n < nr_tasks)
        × (0 < t.counter)
        × ((i : ℕ) (u : Task) → 1 ≤ i → i < nr_tasks → IsRunnable ts i u → u.counter ≤ t.counter))

-- A counter that is not negative, and a priority to which half of one can be added without overflow.
abbrev pub IsSmall : Task → Type 0
IsSmall t = (t.counter < 2 ^ 31) × (t.priority < 2 ^ 30)

abbrev pub AllTasks : (Task → Type 0) → Tasks → Type 0
AllTasks P ts = (i : ℕ) (t : Task) → 1 ≤ i → task_at ts i ≡ some t → P t

recredit-IsSmall : (t : Task) → IsSmall t → IsSmall (recredit t)
unfolding recredit
recredit-IsSmall t h = ground arith

picked-IsBest :
    (ts : Tasks) → AllTasks IsSmall ts → is_zero (picked ts).0 ≡ false → IsBest ts (picked ts).1
picked-IsBest ts small h = elim (pick-Picked ts 63 (none, 0)) [
  | inl e ↦ inl (
    ap1 e,
    λ i u lo hi r.
        none_left u (small i u lo r.0) e (pick-covers ts 63 (none, 0) i u lo (omega arith) r),
  )
  | inr (t, r, e, lo, hi) ↦ inr (
    t,
    r,
    lo,
    omega arith,
    positive t e,
    λ i u l b q.
        largest t u (small i u l q.0) e (pick-covers ts 63 (none, 0) i u l (omega arith) q),
  )
]
  where
    ap1 : picked ts ≡ (none, 0) → (picked ts).1 ≡ 0
    ap1 e = cc

    none_left :
        (u : Task) → IsSmall u → picked ts ≡ (none, 0) → above u.counter (picked ts).0 ≡ false → ⊥
    none_left u s e a = ground (arith, rw e at a)

    positive : (t : Task) → (picked ts).0 ≡ some t.counter → 0 < t.counter
    positive t e = ground (arith, rw e at h)

    largest :
        (t u : Task)
        → IsSmall u
        → (picked ts).0 ≡ some t.counter
        → above u.counter (picked ts).0 ≡ false
        → u.counter ≤ t.counter
    largest t u s e a = ground (arith, rw e at a)

-- The new slices: no task ever holds more than twice its priority.
abbrev pub IsFairSlice : Task → Type 0
IsFairSlice t = t.counter ≤ 2 * t.priority

pub task_at-map :
    (f : Task → Task) (ts : Tasks) (i : ℕ)
    → task_at (map (Option.map f) ts) i ≡ Option.map f (task_at ts i)
task_at-map f [] i = refl
task_at-map f (t ∷ ts) zero = refl
task_at-map f (t ∷ ts) (suc i) = task_at-map f ts i

pub task_at-each_but_first :
    (f : Task → Task) (ts : Tasks) (i : ℕ)
    → task_at (each_but_first f ts) (suc i) ≡ Option.map f (task_at ts (suc i))
unfolding each_but_first
task_at-each_but_first f [] i = refl
task_at-each_but_first f (t ∷ ts) i = task_at-map f ts i

-- A property that `f` gives to every task with property `P`.
pub each_but_first-AllTasks :
    (P Q : Task → Type 0) (f : Task → Task) (ts : Tasks)
    → ((t : Task) → P t → Q (f t))
    → AllTasks P ts
    → AllTasks Q (each_but_first f ts)
each_but_first-AllTasks P Q f ts keep all zero t lo e = absurd (omega arith)
each_but_first-AllTasks P Q f ts keep all (suc i) t lo e =
    go (task_at ts (suc i)) refl (rw (task_at-each_but_first f ts i) at e)
  where
    go : (o : Option Task) → task_at ts (suc i) ≡ o → Option.map f o ≡ some t → Q t
    go none q e = cc
    go (some u) q e = subst Q (some-inj e) (keep u (all (suc i) u (omega arith) q))

pub check_signals-AllTasks :
    (P : Task → Type 0) (jiffies : ℕ) (ts : Tasks)
    → ((t : Task) → P t → P (wake_signalled (check_alarm jiffies t)))
    → AllTasks P ts
    → AllTasks P (check_signals jiffies ts)
unfolding check_signals
check_signals-AllTasks P jiffies ts keep all = each_but_first-AllTasks P P _ ts keep all

pub wake-keeps :
    (jiffies : ℕ) (t : Task)
    → let u = wake_signalled (check_alarm jiffies t) in
      (u.counter ≡ t.counter) × (u.priority ≡ t.priority)
unfolding wake_signalled check_alarm
wake-keeps jiffies t = ground arith

choose-AllTasks :
    (P : Task → Type 0) (fuel : ℕ) (ts ts' : Tasks) (n : ℕ)
    → ((t : Task) → P t → P (recredit t))
    → AllTasks P ts
    → choose fuel ts ≡ some (ts', n)
    → AllTasks P ts'
unfolding choose
choose-AllTasks P zero ts ts' n keep all h = cc
choose-AllTasks P (suc fuel) ts ts' n keep all h = elim (Bool-cases (is_zero (picked ts).0)) [
  | inl z ↦
      choose-AllTasks P fuel (each_but_first recredit ts) ts' n keep
        (each_but_first-AllTasks P P recredit ts keep all) (rw z at h)
  | inr z ↦ go (rw z at h)
]
  where
    go : ◌≡◌ {A = Option (Tasks × ℕ)} (some (ts, (picked ts).1)) (some (ts', n)) → AllTasks P ts'
    go e = let e1 : ts ≡ ts' = cc in subst (AllTasks P) e1 all

choose-IsBest :
    (fuel : ℕ) (ts ts' : Tasks) (n : ℕ)
    → AllTasks IsSmall ts
    → choose fuel ts ≡ some (ts', n)
    → IsBest ts' n
unfolding choose
choose-IsBest zero ts ts' n small h = cc
choose-IsBest (suc fuel) ts ts' n small h = elim (Bool-cases (is_zero (picked ts).0)) [
  | inl z ↦
      choose-IsBest fuel (each_but_first recredit ts) ts' n
        (each_but_first-AllTasks IsSmall IsSmall recredit ts recredit-IsSmall small) (rw z at h)
  | inr z ↦ go (rw z at h) (picked-IsBest ts small z)
]
  where
    go :
        ◌≡◌ {A = Option (Tasks × ℕ)} (some (ts, (picked ts).1)) (some (ts', n))
        → IsBest ts (picked ts).1
        → IsBest ts' n
    go e b = let e1 : ts ≡ ts' = cc in let e2 : (picked ts).1 ≡ n = cc in rw (← e1, ← e2) b

-- If the counters are not negative and the priorities are below 2 ^ 30, whatever schedule() switches
-- to is runnable, has time left and has at least as much of it as any other runnable task; or it is
-- the idle task, and then no other task is runnable. The counters and the priorities are in the same
-- bounds afterwards.
pub schedule-IsBest :
    (fuel : ℕ) (k k' : Kernel)
    → AllTasks IsSmall k.task
    → schedule fuel k ≡ some k'
    → IsBest k'.task k'.current × AllTasks IsSmall k'.task
unfolding schedule
schedule-IsBest fuel k k' small h =
    elim (Option-cases (choose fuel (check_signals k.jiffies k.task))) [
      | inl e ↦ cc (rw e at h)
      | inr ((ts, n), e) ↦
          let q : switch_to k (ts, n) ≡ k' = some-inj (rw e at h) in
          let checked =
            check_signals-AllTasks IsSmall k.jiffies k.task
              (λ t f. omega (arith, wake-keeps k.jiffies t)) small in
          subst (λ k. IsBest k.task k.current × AllTasks IsSmall k.task) q
            (
              choose-IsBest fuel _ ts n checked e,
              choose-AllTasks IsSmall fuel _ ts n recredit-IsSmall checked e,
            )
    ]

-- schedule() keeps every task but the idle one within twice its priority: a slice that was not used
-- up is halved before the priority is added.
pub schedule-IsFairSlice :
    (fuel : ℕ) (k k' : Kernel)
    → AllTasks IsFairSlice k.task
    → schedule fuel k ≡ some k'
    → AllTasks IsFairSlice k'.task
unfolding schedule
schedule-IsFairSlice fuel k k' all h =
    elim (Option-cases (choose fuel (check_signals k.jiffies k.task))) [
      | inl e ↦ cc (rw e at h)
      | inr ((ts, n), e) ↦
          let q : switch_to k (ts, n) ≡ k' = some-inj (rw e at h) in
          subst (λ k. AllTasks IsFairSlice k.task) q
            (choose-AllTasks IsFairSlice fuel _ ts n recredit-IsFairSlice
              (check_signals-AllTasks IsFairSlice k.jiffies k.task
                (λ t f. omega (arith, wake-keeps k.jiffies t)) all)
              e)
    ]
  where
    recredit-IsFairSlice : (t : Task) → IsFairSlice t → IsFairSlice (recredit t)
    recredit-IsFairSlice t f = unfold recredit in ground arith
