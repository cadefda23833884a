-- ===== src/Kernel/Sched/Termination.antt =====
-- kernel/sched.c, schedule(): when the `while (1)` ends, and when it does not.
use rv.Common.{
  ℕ, zero, suc, ◌^◌, ◌≤◌, ◌<◌, ◌≡◌, refl, inl, inr, Option, none, some, true, false, arith,
  Bool-cases, subst, sym, ◌∙◌, some-inj,
}
use rv.Kernel.Task.{
  Task, Tasks, task_at, task_at-modify_self, each_but_first, nr_tasks, task_running,
}
use rv.Kernel.Sched.{
  Kernel, above, is_zero, picked, recredit, choose, check_signals, schedule, switch_to, sys_nice,
  on_current, wake_signalled, check_alarm,
}
use rv.Kernel.Sched.Choice.{IsRunnable, pick-covers, pick-Picked}
use rv.Kernel.Sched.Fair.{
  AllTasks, task_at-each_but_first, each_but_first-AllTasks, check_signals-AllTasks, wake-keeps,
}

-- The priority is a positive long.
abbrev pub HasPriority : Task → Type 0
HasPriority t = (0 < t.priority) × (t.priority < 2 ^ 31)

abbrev pub IsStarved : Task → Type 0
IsStarved t = t.state ≡ task_running → (t.counter ≡ 0) × (t.priority ≡ 0)

choose-some :
    (fuel : ℕ) (ts : Tasks)
    → is_zero (picked ts).0 ≡ false
    → choose (suc fuel) ts ≡ some (ts, (picked ts).1)
unfolding choose
choose-some fuel ts h = rw h

choose-again :
    (fuel : ℕ) (ts : Tasks)
    → is_zero (picked ts).0 ≡ true
    → choose (suc fuel) ts ≡ choose fuel (each_but_first recredit ts)
unfolding choose
choose-again fuel ts h = rw h

recredit-IsRunnable :
    (ts : Tasks) (i : ℕ) (t : Task)
    → 1 ≤ i
    → IsRunnable ts i t
    → IsRunnable (each_but_first recredit ts) i (recredit t)
unfolding recredit
recredit-IsRunnable ts zero t lo r = absurd (omega arith)
recredit-IsRunnable ts (suc i) t lo r = (rw (task_at-each_but_first recredit ts i, r.0), r.1)

-- A counter of 0 becomes the priority.
recredit-zero : (t : Task) → t.counter ≡ 0 → HasPriority t → (recredit t).counter ≡ t.priority
unfolding recredit
recredit-zero t z h = ground arith

-- Where a runnable task has a positive counter, the loop ends.
picked-of-positive :
    (ts : Tasks) (i : ℕ) (t : Task)
    → 1 ≤ i
    → i < nr_tasks
    → IsRunnable ts i t
    → 0 < t.counter
    → t.counter < 2 ^ 31
    → is_zero (picked ts).0 ≡ false
picked-of-positive ts i t lo hi r pos small =
    go (picked ts).0 (pick-covers ts 63 (none, 0) i t lo (omega arith) r)
  where
    go : (c : Option ℕ) → above t.counter c ≡ false → is_zero c ≡ false
    go none h = refl
    go (some c) h = ground arith

-- The task picked in a round that does not end the loop has no time left, and its priority in the next.
picked-again :
    (ts : Tasks)
    → AllTasks HasPriority ts
    → is_zero (picked ts).0 ≡ true
    → is_zero (picked (each_but_first recredit ts)).0 ≡ false
picked-again ts all z = elim (pick-Picked ts 63 (none, 0)) [
  | inl e ↦ let e0 : (picked ts).0 ≡ none = cc e in cc (rw e0 at z)
  | inr (t, r, e, lo, hi) ↦
      let zero_left : t.counter ≡ 0 = ground (arith, rw e at z) in
      let p = all _ t lo r.0 in
      let c = recredit-zero t zero_left p in
      picked-of-positive (each_but_first recredit ts) _ (recredit t) lo (omega arith)
        (recredit-IsRunnable ts _ t lo r) (omega (arith, c, p)) (omega (arith, c, p))
]

choose-total :
    (fuel : ℕ) (ts : Tasks)
    → AllTasks HasPriority ts
    → (r : Tasks × ℕ) × (choose (suc (suc fuel)) ts ≡ some r)
choose-total fuel ts all = elim (Bool-cases (is_zero (picked ts).0)) [
  | inl z ↦
      let next : Tasks = each_but_first recredit ts in
      (
        (next, (picked next).1),
        rw (choose-again (suc fuel) ts z) (choose-some fuel next (picked-again ts all z)),
      )
  | inr z ↦ ((ts, (picked ts).1), choose-some (suc fuel) ts z)
]

-- If every task but the idle one has a positive priority, schedule() switches to some task: the loop
-- runs at most twice.
pub schedule-total :
    (fuel : ℕ) (k : Kernel)
    → AllTasks HasPriority k.task
    → (k' : Kernel) × (schedule (suc (suc fuel)) k ≡ some k')
unfolding schedule
schedule-total fuel k all =
    let (r, e) = choose-total fuel (check_signals k.jiffies k.task) checked in (switch_to k r, rw e)
  where
    checked : AllTasks HasPriority (check_signals k.jiffies k.task)
    checked =
        check_signals-AllTasks HasPriority k.jiffies k.task
          (λ t h. omega (arith, wake-keeps k.jiffies t)) all

recredit-IsStarved : (t : Task) → IsStarved t → IsStarved (recredit t)
unfolding recredit
recredit-IsStarved t h r = let (c, p) = h r in ground arith

-- The task picked among starved ones has no time left.
picked-of-IsStarved :
    (ts : Tasks) (i : ℕ) (t : Task)
    → AllTasks IsStarved ts
    → 1 ≤ i
    → i < nr_tasks
    → IsRunnable ts i t
    → is_zero (picked ts).0 ≡ true
picked-of-IsStarved ts i t all lo hi r = elim (pick-Picked ts 63 (none, 0)) [
  | inl e ↦
      let e0 : (picked ts).0 ≡ none = cc e in
      let c : t.counter ≡ 0 = (all i t lo r.0 r.1).0 in
      let below : above t.counter (picked ts).0 ≡ false =
        pick-covers ts 63 (none, 0) i t lo (omega arith) r in
      absurd (ground (arith, rw e0 at below))
  | inr (u, q, e, l, b) ↦ rw (e, (all _ u l q.0 q.1).0)
]

choose-starved :
    (fuel : ℕ) (ts : Tasks) (i : ℕ) (t : Task)
    → AllTasks IsStarved ts
    → 1 ≤ i
    → i < nr_tasks
    → IsRunnable ts i t
    → choose fuel ts ≡ none
unfolding choose
choose-starved zero ts i t all lo hi r = refl
choose-starved (suc fuel) ts i t all lo hi r = rw (picked-of-IsStarved ts i t all lo hi r) (
    choose-starved fuel (each_but_first recredit ts) i (recredit t)
      (each_but_first-AllTasks IsStarved IsStarved recredit ts recredit-IsStarved all) lo hi
      (recredit-IsRunnable ts i t lo r))

-- What the first loop of schedule() makes of the task in a slot.
checked-at :
    (k : Kernel) (i : ℕ) (t : Task)
    → 1 ≤ i
    → task_at k.task i ≡ some t
    → task_at (check_signals k.jiffies k.task) i ≡ some (wake_signalled (check_alarm k.jiffies t))
unfolding check_signals
checked-at k zero t lo e = absurd (omega arith)
checked-at k (suc i) t lo e = rw (task_at-each_but_first _ k.task i, e)

wake-running :
    (jiffies : ℕ) (t : Task)
    → t.state ≡ task_running
    → (wake_signalled (check_alarm jiffies t)).state ≡ task_running
unfolding wake_signalled check_alarm
wake-running jiffies t h = ground arith

nice_all : (t : Task) → (sys_nice t.priority t).priority ≡ 0
unfolding sys_nice
nice_all t = ground arith

nice-keeps : (t : Task) → (sys_nice t.priority t).counter ≡ t.counter
unfolding sys_nice
nice-keeps t = ground arith

nice-state : (t : Task) → (sys_nice t.priority t).state ≡ t.state
unfolding sys_nice
nice-state t = ground arith

IsStarved-of-alone :
    (k : Kernel) (t : Task)
    → 1 ≤ k.current
    → task_at k.task k.current ≡ some t
    → t.counter ≡ 0
    → t.priority ≡ 0
    → ((j : ℕ) (u : Task) → 1 ≤ j → IsRunnable (check_signals k.jiffies k.task) j u → j ≡ k.current)
    → AllTasks IsStarved (check_signals k.jiffies k.task)
IsStarved-of-alone k t lo cur c p alone j u l e r =
    let w : j ≡ k.current = alone j u l (e, r) in
    let v : some (wake_signalled (check_alarm k.jiffies t)) ≡ some u =
      sym (checked-at k k.current t lo cur) ∙ rw w at e in
    let kept = wake-keeps k.jiffies t in
    subst (λ u. (u.counter ≡ 0) × (u.priority ≡ 0)) (some-inj v) (omega (arith, kept))

-- sys_nice() lets a task give up all of its priority. If the running task does so with its slice
-- used up, stays runnable, and no other task but the idle one is runnable, then the loop of
-- schedule() never ends: no amount of fuel gives a result.
pub nice-starves-schedule :
    (fuel : ℕ) (k : Kernel) (t : Task)
    → 1 ≤ k.current
    → k.current < nr_tasks
    → task_at k.task k.current ≡ some t
    → t.state ≡ task_running
    → t.counter ≡ 0
    → ((j : ℕ) (u : Task)
        → 1 ≤ j
        → IsRunnable (check_signals k.jiffies (on_current (sys_nice t.priority) k).task) j u
        → j ≡ k.current)
    → schedule fuel (on_current (sys_nice t.priority) k) ≡ none
unfolding schedule
nice-starves-schedule fuel k t lo hi cur run c alone =
    let k1 : Kernel = on_current (sys_nice t.priority) k in
    let t1 : Task = sys_nice t.priority t in
    let cur1 : task_at k1.task k1.current ≡ some t1 =
      rw (task_at-modify_self k.task k.current (sys_nice t.priority), cur) in
    let starved : AllTasks IsStarved (check_signals k1.jiffies k1.task) =
      IsStarved-of-alone k1 t1 lo cur1 (nice-keeps t ∙ c) (nice_all t) alone in
    rw (
      choose-starved fuel (check_signals k1.jiffies k1.task) k.current
        (wake_signalled (check_alarm k.jiffies t1)) starved lo hi
        (checked-at k1 k.current t1 lo cur1, wake-running k.jiffies t1 (nice-state t ∙ run)))
