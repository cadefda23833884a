-- ===== src/Kernel/Timer/Tick.antt =====
-- kernel/sched.c, do_timer(): when a tick takes the processor from the running task.
use rv.Common.{
  ℕ, ◌≡◌, refl, some, Bool, true, false, not, ◌||◌, List, arith, Bool-cases, inl, inr, ◌⊎◌, subst,
  ◌+◌, if◌then◌else◌,
}
use rv.Kernel.Task.{Task, is_pos, task_at, task_at-modify_self}
use rv.Kernel.Sched.{Kernel, on_current}
use rv.Kernel.Timer.{Timers, less_one, spend, charge, do_timer, run_timers}

do_timer-stays :
    (fuel : ℕ) (cpl : Bool) (k : Kernel) (ts : Timers) (t : Task)
    → task_at k.task k.current ≡ some t
    → (is_pos (less_one t.counter) || not cpl) ≡ true
    → do_timer fuel cpl k ts
      ≡ some (on_current (λ t. spend cpl (charge cpl t)) k, (run_timers ts).0, (run_timers ts).1)
unfolding do_timer
do_timer-stays fuel cpl k ts t cur z = rw (cur, z)

-- What the running task's fields are after a tick that leaves it running.
abbrev pub IsCharged : Bool → Task → Task → Type 0
IsCharged cpl t u =
    (u.counter ≡ (if is_pos (less_one t.counter) then less_one t.counter else 0))
    × (u.utime ≡ (if cpl then t.utime + 1 else t.utime))
    × (u.stime ≡ (if cpl then t.stime else t.stime + 1))

charged :
    (cpl : Bool) (t : Task)
    → (is_pos (less_one t.counter) || not cpl) ≡ true
    → IsCharged cpl t (spend cpl (charge cpl t))
unfolding spend charge
charged true t z = ground arith
charged false t z = ground arith

-- A tick moves the processor to another task only if it came in user mode and the running task had
-- no jiffy left after it. Otherwise the running task goes on, with one jiffy less on its counter (or 0
-- where none is left) and one more on the time that is charged to it.
pub do_timer-preempts :
    (fuel : ℕ) (cpl : Bool) (k k' : Kernel) (ts rest : Timers) (fired : List ℕ) (t : Task)
    → task_at k.task k.current ≡ some t
    → do_timer fuel cpl k ts ≡ some (k', fired, rest)
    → ((cpl ≡ true) × (is_pos (less_one t.counter) ≡ false))
      ⊎ ((k'.current ≡ k.current)
          × ((u : Task) × (task_at k'.task k.current ≡ some u) × IsCharged cpl t u))
do_timer-preempts fuel cpl k k' ts rest fired t cur h =
    elim (Bool-cases (is_pos (less_one t.counter) || not cpl)) [
      | inl z ↦
          let f : Task → Task = λ t. spend cpl (charge cpl t) in
          let e : on_current f k ≡ k' = cc (do_timer-stays fuel cpl k ts t cur z) in
          inr (
            subst
              (λ k'.
                (k'.current ≡ k.current)
                × ((u : Task) × (task_at k'.task k.current ≡ some u) × IsCharged cpl t u))
              e (refl, (f t, rw (task_at-modify_self k.task k.current f, cur), charged cpl t z)))
      | inr z ↦ inl (both cpl z)
    ]
  where
    or_true : (b : Bool) → (b || true) ≡ true
    or_true true = refl
    or_true false = refl

    both :
        (b : Bool)
        → (is_pos (less_one t.counter) || not b) ≡ false
        → (b ≡ true) × (is_pos (less_one t.counter) ≡ false)
    both true z = (refl, ground arith)
    both false z = cc (or_true (is_pos (less_one t.counter)), z)
