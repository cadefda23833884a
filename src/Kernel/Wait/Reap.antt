-- ===== src/Kernel/Wait/Reap.antt =====
-- kernel/exit.c, sys_waitpid(): which child it answers for, and what it leaves.
use rv.Common.{
  ℕ, zero, suc, ◌≡◌, ◌≢◌, ◌⊎◌, inl, inr, refl, none, Bool, true, false, ap, arith, if◌then◌else◌,
  get_or-set_ne, ==_ne, [], ◌∷◌, sym, ◌∙◌, set,
}
use mathlib.Core.Option
use rv.Kernel.Task.{
  Task, Tasks, task_at, modify, task_zombie, task_stopped, task_interruptible, task_at-modify,
  task_at-modify_self,
}
use rv.Kernel.Sched.{Kernel, on_current}
use rv.Kernel.Wait.{
  Scan, stopped, reaped, nothing, wait_scan, is_waited, Waited, sys_waitpid, wait_repeat, outcome,
  release, credit, after_release,
}
use rv.Kernel.Wait.Children.{IsChild, NoneAbove, SomeAlive, AllStopped, Found, wait_scan-Found}
use rv.Mm.State.{Mem, Outcome, done, panics, exits, pure, >>=-done}
use rv.Mm.Frames.{free_page}
use rv.Mm.Area.{verify_area, put_fs_long}

-- The task table on the way into the schedule() of release(): the slot is empty, the caller has the
-- times of the child, and every other task is as it was.
abbrev pub IsEmptied : ℕ → Task → Kernel → Kernel → Type 0
IsEmptied i t k k' =
    (task_at k'.task i ≡ none)
    × (task_at k'.task k.current ≡ Option.map (credit t) (task_at k.task k.current))
    × ((j : ℕ) → j ≢ i → j ≢ k.current → task_at k'.task j ≡ task_at k.task j)
    × (k'.current ≡ k.current)

-- The child in the highest slot that the call can answer for.
abbrev pub IsAnswered : ℕ → Bool → Kernel → Task → ℕ → Task → Type 0
IsAnswered pid untraced k c i t =
    IsChild (is_waited pid k.current c) 63 k.task i t
    × NoneAbove (is_waited pid k.current c) untraced k.task 63 i

abbrev pub NoneAnswers : ℕ → Bool → Kernel → Task → Type 0
NoneAnswers pid untraced k c = NoneAbove (is_waited pid k.current c) untraced k.task 63 0

module _ (page : ℕ → ℕ) (pid stat_addr : ℕ) (nohang untraced : Bool) (k : Kernel) (c : Task) where
  -- When the caller runs again, whatever the memory is then, it returns the pid of the child and stores
  -- its exit code.
  abbrev pub Finishes : Task → ℕ → ℕ → Type 0
  Finishes t p code =
      (m m' : Mem) (r : ℕ)
      → after_release c.pgdir stat_addr p code m ≡ done r m'
      → (r ≡ t.pid) × (put_fs_long c.pgdir t.exit_code stat_addr m ≡ done tt m')

  finishes : (t : Task) → Finishes t t.pid t.exit_code
  unfolding after_release
  finishes t m m' r e =
      let (a, n, first, last) =
        >>=-done (put_fs_long c.pgdir t.exit_code stat_addr) (λ _. pure t.pid) m e in
      (sym (done-value last), first ∙ ap (done tt) (done-mem last))
    where
      done-value : {p r : ℕ} {n m' : Mem} → done p n ≡ done r m' → p ≡ r
      done-value e = cc

      done-mem : {p r : ℕ} {n m' : Mem} → done p n ≡ done r m' → n ≡ m'
      done-mem e = cc

  -- What a call owes once the user's word at stat_addr can be written, in the memory m.
  abbrev pub IsReaping : Mem → Outcome Waited → Type 0
  -- The pid of a stopped child, with 0x7f for the status.
  IsReaping m (done (Waited.returns p k') m') =
      (i : ℕ) × (t : Task) × IsAnswered pid untraced k c i t
      × (t.state ≡ task_stopped)
      × (untraced ≡ true)
      × (p ≡ t.pid)
      × (k' ≡ k)
      × (put_fs_long c.pgdir 0x7f stat_addr m ≡ done tt m')
  -- A zombie is released; its pid and its exit code are what is left to return and to store.
  IsReaping m (done (Waited.releases p code k') m') =
      (i : ℕ) × (t : Task) × IsAnswered pid untraced k c i t
      × (t.state ≡ task_zombie)
      × (p ≡ t.pid)
      × (code ≡ t.exit_code)
      × IsEmptied i t k k'
      × Finishes t p code
      × (free_page (page i) m ≡ done tt m')
  -- 0, and the sleep: there is a child that goes on.
  IsReaping m (done Waited.not_yet m') =
      NoneAnswers pid untraced k c
      × SomeAlive (is_waited pid k.current c) untraced k.task 63
      × (nohang ≡ true)
      × (m' ≡ m)
  IsReaping m (done (Waited.sleeps k') m') =
      NoneAnswers pid untraced k c
      × SomeAlive (is_waited pid k.current c) untraced k.task 63
      × (nohang ≡ false)
      × (k' ≡ on_current (λ c. record c { state = task_interruptible }) k)
      × (m' ≡ m)
  -- -ECHILD: no child goes on, and none that has stopped is asked for.
  IsReaping m (done Waited.echild m') =
      NoneAnswers pid untraced k c
      × AllStopped (is_waited pid k.current c) untraced k.task 63
      × (m' ≡ m)
  -- The status cannot be stored, or the page of the task is not in use.
  IsReaping m panics =
      (i : ℕ) × (t : Task) × IsAnswered pid untraced k c i t
      × (((t.state ≡ task_stopped) × (put_fs_long c.pgdir 0x7f stat_addr m ≡ panics))
          ⊎ ((t.state ≡ task_zombie) × (free_page (page i) m ≡ panics)))
  IsReaping m (exits e) =
      (i : ℕ) × (t : Task) × IsAnswered pid untraced k c i t
      × (((t.state ≡ task_stopped) × (put_fs_long c.pgdir 0x7f stat_addr m ≡ exits e))
          ⊎ ((t.state ≡ task_zombie) × (free_page (page i) m ≡ exits e)))

  -- The call from the start: verify_area() comes first, and ends it if it does not return.
  abbrev pub IsWaitpid : Mem → Outcome Waited → Type 0
  IsWaitpid m r =
      ((m1 : Mem) × (verify_area c.pgdir stat_addr 4 m ≡ done tt m1) × IsReaping m1 r)
      ⊎ ((verify_area c.pgdir stat_addr 4 m ≡ panics) × (r ≡ panics))
      ⊎ ((e : ℕ) × (verify_area c.pgdir stat_addr 4 m ≡ exits e) × (r ≡ exits e))

  answered_stopped :
      (m : Mem) (i : ℕ) (t : Task) (o : Outcome (Unit {0}))
      → IsAnswered pid untraced k c i t
      → t.state ≡ task_stopped
      → untraced ≡ true
      → put_fs_long c.pgdir 0x7f stat_addr m ≡ o
      → IsReaping m (elim o [
        | done a m' ↦ done (Waited.returns t.pid k) m'
        | panics ↦ panics
        | exits e ↦ exits e
      ])
  answered_stopped m i t (done a m') h s u e = (i, t, h, s, u, refl, refl, e)
  answered_stopped m i t panics h s u e = (i, t, h, inl (s, e))
  answered_stopped m i t (exits x) h s u e = (i, t, h, inl (s, e))

  emptied : (i : ℕ) (t : Task) → Kernel
  emptied i t = record k { task = set (modify k.task k.current (credit t)) i none }

  emptied-IsEmptied : (i : ℕ) (t : Task) → i ≢ k.current → IsEmptied i t k (emptied i t)
  unfolding emptied
  emptied-IsEmptied i t ne = (
    set-empty (modify k.task k.current (credit t)) i,
    get_or-set_ne (modify k.task k.current (credit t)) i k.current none none ne
        ∙ task_at-modify_self k.task k.current (credit t),
    λ j a b.
        get_or-set_ne (modify k.task k.current (credit t)) i j none none (λ q. a (sym q))
        ∙ task_at-modify k.task k.current j (credit t)
        ∙ rw (==_ne k.current j (λ q. b (sym q))),
    refl,
  )
    where
      set-empty : (ts : Tasks) (i : ℕ) → task_at (set ts i none) i ≡ none
      set-empty [] i = refl
      set-empty (t ∷ ts) zero = refl
      set-empty (t ∷ ts) (suc i) = set-empty ts i

  answered_dead :
      (m : Mem) (i : ℕ) (t : Task) (o : Outcome (Unit {0}))
      → IsAnswered pid untraced k c i t
      → t.state ≡ task_zombie
      → i ≢ k.current
      → free_page (page i) m ≡ o
      → IsReaping m
          (elim (elim o as (λ _. Outcome Tasks) [
            | done a m' ↦ done (set (modify k.task k.current (credit t)) i none) m'
            | panics ↦ panics
            | exits e ↦ exits e
          ]) [
            | done ts m' ↦ done (Waited.releases t.pid t.exit_code (record k { task = ts })) m'
            | panics ↦ panics
            | exits e ↦ exits e
          ])
  unfolding emptied
  answered_dead m i t (done a m') h s ne e =
      (i, t, h, s, refl, refl, emptied-IsEmptied i t ne, finishes t, e)
  answered_dead m i t panics h s ne e = (i, t, h, inr (s, e))
  answered_dead m i t (exits x) h s ne e = (i, t, h, inr (s, e))

  outcome-IsReaping :
      (m : Mem) (s : Scan)
      → Found (is_waited pid k.current c) untraced k.task 63 false s
      → IsReaping m (outcome page stat_addr nohang k c s m)
  unfolding release emptied
  outcome-IsReaping m (stopped i t) (ch, s, u, above) =
      answered_stopped m i t (put_fs_long c.pgdir 0x7f stat_addr m) (ch, above) s u refl
  outcome-IsReaping m (reaped i t) (ch, s, above) =
      answered_dead m i t (free_page (page i) m) (ch, above) s (not_self (ch.3)) refl
    where
      not_self : is_waited pid k.current c i t ≡ true → i ≢ k.current
      not_self e q = absurd (ground arith)
  outcome-IsReaping m (nothing true) (above, alive, still) =
      waits nohang refl above (elim (alive refl) [ inl z ↦ cc | inr l ↦ l ])
    where
      waits :
          (b : Bool)
          → nohang ≡ b
          → NoneAnswers pid untraced k c
          → SomeAlive (is_waited pid k.current c) untraced k.task 63
          → IsReaping m (
              pure
                (if b
                  then Waited.not_yet
                  else Waited.sleeps (on_current (λ c. record c { state = task_interruptible }) k))
                m)
      waits true e a l = (a, l, e, refl)
      waits false e a l = (a, l, e, refl, refl)
  outcome-IsReaping m (nothing false) (above, alive, still) = (above, (still refl).1, refl)

  -- sys_waitpid() answers for the child in the highest slot that is a zombie, or stopped where such are
  -- asked for: see `IsReaping`. It gives 0 or goes to sleep only if there is none, but a child that goes
  -- on, and ECHILD only if there is no such child either. The call is followed up to a schedule(), its
  -- own or that of release(), and what it does when it is back from the latter is stated too. First
  -- comes verify_area(), which can end it.
  pub sys_waitpid-IsReaping :
      (m : Mem) → IsWaitpid m (sys_waitpid page pid stat_addr nohang untraced k c m)
  unfolding sys_waitpid wait_repeat
  sys_waitpid-IsReaping m = go (verify_area c.pgdir stat_addr 4 m) refl
    where
      go :
          (o : Outcome (Unit {0}))
          → verify_area c.pgdir stat_addr 4 m ≡ o
          → IsWaitpid m (elim o [
            | done a m' ↦
                outcome page stat_addr nohang k c
                  (wait_scan (is_waited pid k.current c) untraced 63 k.task false)
                  m'
            | panics ↦ panics
            | exits e ↦ exits e
          ])
      go (done a m1) e = inl (
        m1,
        e,
        outcome-IsReaping m1 _
            (wait_scan-Found (is_waited pid k.current c) untraced k.task 63 false),
      )
      go panics e = inr (inl (e, refl))
      go (exits x) e = inr (inr (x, e, refl))
