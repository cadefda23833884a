-- ===== src/Kernel/Kill/Targets.antt =====
-- kernel/exit.c, sys_kill(): who gets the signal.
use mathlib.Core.Option
use rv.Common.{
  ℕ, zero, suc, ◌-◌, ◌≡◌, ◌≢◌, refl, Option, none, some, Bool, true, false, ltb, leb, ◌==◌, not,
  ◌&&◌, if◌then◌else◌, arith, Bool-cases, inl, inr, ==_ne,
}
use rv.Common.Bits.{set_bit}
use rv.Kernel.Task.{Task, Tasks, task_at, task_at-modify, is_pos, minus_one, nr_tasks}
use rv.Kernel.Kill.{may_signal, bad_sig, send_sig, signal_slot, signal_loop, sys_kill}

-- A selected task gets the signal if the number is one and the sender may send it.
abbrev pub receive : (Task → Bool) → Bool → ℕ → Task → Task → Task
receive sel priv sig c p =
    if sel p && not (bad_sig sig) && may_signal priv c p
    then record p { signal = set_bit p.signal (sig - 1) }
    else p

send_sig-receive :
    (sel : Task → Bool) (priv : Bool) (sig : ℕ) (c p : Task)
    → (if sel p then (send_sig sig priv c p).1 else p) ≡ receive sel priv sig c p
unfolding send_sig
send_sig-receive sel priv sig c p = ground arith

-- One round: the slot i gets what is due to it, the others stay.
signal_slot-receive :
    (sel : Task → Bool) (priv : Bool) (sig : ℕ) (c : Task) (i : ℕ) (o : Option Task) (ts : Tasks)
    (retval j : ℕ)
    → task_at ts i ≡ o
    → task_at (signal_slot sel priv sig c i o ts retval).1 j
      ≡ (if i == j then Option.map (receive sel priv sig c) (task_at ts i) else task_at ts j)
unfolding signal_slot
signal_slot-receive sel priv sig c i none ts retval j e = elim (Bool-cases (i == j)) [
  | inl same ↦ let q : i ≡ j = ground arith in rw (same, e, ← q, e)
  | inr other ↦ rw other
]
signal_slot-receive sel priv sig c i (some p) ts retval j e = elim (Bool-cases (sel p)) [
  | inl hit ↦
      rw (hit, task_at-modify ts i j (λ p. (send_sig sig priv c p).1), e)
        (rw (← send_sig-receive sel priv sig c p, hit))
  | inr miss ↦ elim (Bool-cases (i == j)) [
    | inl same ↦ let q : i ≡ j = ground arith in rw (miss, same, ← q, e, miss)
    | inr other ↦ rw (miss, other)
  ]
]

signal_loop-receive :
    (sel : Task → Bool) (priv : Bool) (sig : ℕ) (c : Task) (n : ℕ) (ts : Tasks) (retval j : ℕ)
    → task_at (signal_loop sel priv sig c n ts retval).1 j ≡ (
        if ltb 0 j && leb j n
        then Option.map (receive sel priv sig c) (task_at ts j)
        else task_at ts j)
unfolding signal_loop
signal_loop-receive sel priv sig c zero ts retval j = ground arith
signal_loop-receive sel priv sig c (suc n) ts retval j =
    let step = signal_slot-receive sel priv sig c (suc n) (task_at ts (suc n)) ts retval in
    rw (signal_loop-receive sel priv sig c n _ _ j, step j refl) (slots (suc n == j) refl)
  where
    slots :
        (b : Bool)
        → (suc n == j) ≡ b
        → (if ltb 0 j && leb j n
            then Option.map (receive sel priv sig c) (
                if b
                then Option.map (receive sel priv sig c) (task_at ts (suc n))
                else task_at ts j)
            else (if b
                then Option.map (receive sel priv sig c) (task_at ts (suc n))
                else task_at ts j))
          ≡ (if ltb 0 j && leb j (suc n)
              then Option.map (receive sel priv sig c) (task_at ts j)
              else task_at ts j)
    slots true e =
        let q : suc n ≡ j = ground arith in
        let out : (ltb 0 j && leb j n) ≡ false = ground arith in
        let at : (ltb 0 j && leb j (suc n)) ≡ true = ground arith in rw (out, at, q)
    slots false e =
        let same : (ltb 0 j && leb j n) ≡ (ltb 0 j && leb j (suc n)) = ground arith in rw same

-- The tasks that a call of sys_kill() is for, by its pid argument: the caller's group for 0 and the
-- task with the pid for a positive one. The source means -p to be for the group p; no task is.
abbrev pub is_target : ℕ → Task → Task → Bool
is_target pid c =
    if pid == 0
    then (λ p. p.pgrp == c.pid)
    else if is_pos pid
    then (λ p. p.pid == pid)
    else (λ _. false)

within : (j : ℕ) → ltb j nr_tasks ≡ leb j 63
within j = ground arith

no_target :
    (priv : Bool) (sig : ℕ) (c : Task) (o : Option Task) (b : Bool)
    → o ≡ (if b then Option.map (receive (λ _. false) priv sig c) o else o)
no_target priv sig c none true = refl
no_target priv sig c none false = refl
no_target priv sig c (some p) true = refl
no_target priv sig c (some p) false = refl

-- For every pid but -1, sys_kill() gives the signal to exactly the targets that the sender may signal
-- (all of them for pid 0), except in slot 0, and changes no other task. The targets are the processes of
-- the group with the sender's pid for pid 0, those with the pid for a positive one, and none for a pid
-- below -1.
pub sys_kill-receive :
    (pid sig : ℕ) (c : Task) (ts : Tasks) (j : ℕ)
    → pid ≢ minus_one
    → task_at (sys_kill pid sig c ts).1 j ≡ (
        if ltb 0 j && ltb j nr_tasks
        then Option.map (receive (is_target pid c) (pid == 0) sig c) (task_at ts j)
        else task_at ts j)
unfolding sys_kill
sys_kill-receive pid sig c ts j ne = elim (Bool-cases (pid == 0)) [
  | inl own ↦ rw (own, within j) (signal_loop-receive (λ p. p.pgrp == c.pid) true sig c 63 ts 0 j)
  | inr other ↦ elim (Bool-cases (is_pos pid)) [
    | inl pos ↦
        rw (other, pos, within j) (signal_loop-receive (λ p. p.pid == pid) false sig c 63 ts 0 j)
    | inr neg ↦
        rw (other, neg, ==_ne pid minus_one ne)
          (no_target false sig c (task_at ts j) (ltb 0 j && ltb j nr_tasks))
  ]
]
