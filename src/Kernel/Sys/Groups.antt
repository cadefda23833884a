-- ===== src/Kernel/Sys/Groups.antt =====
-- kernel/sys.c: process groups, sessions and the heap end.
use rv.Common.{
  ℕ, suc, ◌+◌, ◌-◌, ◌≤◌, ◌<◌, ◌^◌, ◌≡◌, ◌⊎◌, ◌↔◌, inl, inr, refl, ◌==◌, none, some, arith,
  if◌then◌else◌, [], ◌∷◌, Bool-cases, Option-cases, not,
}
use rv.Kernel.Task.{Task, Tasks, task_at, modify, task_at-modify}
use rv.Kernel.Sys.{Ret, ok, err, eperm, esrch, or_self, find_pid, sys_setpgid, sys_brk}

find_pid-at :
    (pid i : ℕ) (ts : Tasks) (k : ℕ) (t : Task)
    → find_pid pid i ts ≡ some (k, t)
    → (j : ℕ) × (k ≡ i + j) × (task_at ts j ≡ some t) × (t.pid ≡ pid)
unfolding find_pid
find_pid-at pid i [] k t e = cc
find_pid-at pid i (none ∷ ts) k t e =
    let (j, s, a, p) = find_pid-at pid (suc i) ts k t e in (suc j, omega arith, a, p)
find_pid-at pid i (some u ∷ ts) k t e = elim (Bool-cases (u.pid == pid)) [
  | inl hit ↦ (0, ground arith, ground arith, ground arith)
  | inr miss ↦
      let (j, s, a, p) = find_pid-at pid (suc i) ts k t (rw miss at e) in (suc j, omega arith, a, p)
]

-- What sys_setpgid() did: it failed and changed nothing, or it found a task with the pid in the
-- caller's session that leads none, and changed the group of that task alone.
abbrev pub Regroups : ℕ → ℕ → Task → Tasks → Ret × Tasks → Type 0
Regroups pid pgid c ts r =
    (((r.0 ≡ err eperm) ⊎ (r.0 ≡ err esrch)) × (r.1 ≡ ts))
    ⊎ ((r.0 ≡ ok 0)
        × ((i : ℕ) × (t : Task) × (task_at ts i ≡ some t)
            × (t.pid ≡ or_self pid c.pid)
            × (t.leader ≡ 0)
            × (t.session ≡ c.session)
            × ((j : ℕ)
                → task_at r.1 j ≡ (
                    if i == j
                    then some (record t { pgrp = or_self pgid c.pid })
                    else task_at ts j))))

-- sys_setpgid() moves at most one task, which is of the caller's session and leads no session; the
-- zero pid and the zero group stand for the caller's own; a failing call changes nothing.
pub setpgid-Regroups :
    (pid pgid : ℕ) (c : Task) (ts : Tasks) → Regroups pid pgid c ts (sys_setpgid pid pgid c ts)
unfolding sys_setpgid
setpgid-Regroups pid pgid c ts = elim (Option-cases (find_pid (or_self pid c.pid) 0 ts)) [
  | inl e ↦ rw (e, sys_setpgid) (inl (inr refl, refl))
  | inr ((i, t), e) ↦ rw (e, sys_setpgid) (found i t e)
]
  where
    found :
        (i : ℕ) (t : Task)
        → find_pid (or_self pid c.pid) 0 ts ≡ some (i, t)
        → Regroups pid pgid c ts (
            if not (t.leader == 0)
            then (err eperm, ts)
            else if not (t.session == c.session)
            then (err eperm, ts)
            else (ok 0, modify ts i (λ t. record t { pgrp = or_self pgid c.pid })))
    found i t e =
        let (j, s, a, p) = find_pid-at (or_self pid c.pid) 0 ts i t e in
        let a' : task_at ts i ≡ some t = let q : i ≡ j = omega arith in rw q a in
        elim (Bool-cases (t.leader == 0)) [
          | inr lead ↦ rw lead (inl (inl refl, refl))
          | inl free ↦ elim (Bool-cases (t.session == c.session)) [
            | inr foreign ↦ rw (free, foreign) (inl (inl refl, refl))
            | inl same ↦
                rw (free, same)
                  (inr (
                    refl,
                    (
                      i,
                      t,
                      a',
                      p,
                      ground arith,
                      ground arith,
                      λ j. rw (task_at-modify ts i j _, a'),
                    ),
                  ))
          ]
        ]

abbrev pub IsHeapEnd : Task → Type 0
IsHeapEnd t = (t.end_code ≤ t.brk) × (t.brk < t.start_stack - 16384)

-- sys_brk() keeps the heap end between the code and the 16 KB kept for the stack; it moves exactly
-- when the new end lies in that range, and returns the end that it leaves.
pub brk-IsHeapEnd :
    (e : ℕ) (t : Task)
    → 16384 ≤ t.start_stack
    → t.start_stack < 2 ^ 32
    → IsHeapEnd t
    → let (r, u) = sys_brk e t in
      IsHeapEnd u × (r ≡ u.brk) × (((t.end_code ≤ e) × (e < t.start_stack - 16384)) ↔ (u.brk ≡ e))
unfolding sys_brk
brk-IsHeapEnd e t lo hi h = ground arith
