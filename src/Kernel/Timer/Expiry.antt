-- ===== src/Kernel/Timer/Expiry.antt =====
-- kernel/sched.c: when the timers of the chain fire.
use rv.Common.{
  ℕ, suc, ◌+◌, ◌-◌, ◌≤◌, ◌<◌, ◌≡◌, refl, ltb, List, [], ◌∷◌, ◌++◌, map, arith, All, Bool-cases, inl,
  inr, leb,
}
use rv.Kernel.Timer.{Timer, Timers, bubble, expire, run_timers}

-- The time at which each timer fires, from `now` on, with its function.
abbrev pub expiries : ℕ → Timers → List (ℕ × ℕ)
expiries now [] = []
expiries now (t ∷ ts) = (now + t.jiffies, t.fn) ∷ expiries (now + t.jiffies) ts

abbrev pub total : Timers → ℕ
total [] = 0
total (t ∷ ts) = t.jiffies + total ts

-- The new timer stands behind all that fire earlier than it, and before all others: `before` are the
-- timers that fire earlier, by the times that they had.
abbrev pub Splits : ℕ → ℕ → ℕ → Timers → Timers → Type 0
Splits now j fn ts out =
    (before : Timers) × (after : Timers) × (ts ≡ before ++ after)
    × All (λ (e : ℕ × ℕ). e.0 < now + j) (expiries now before)
    × All (λ (e : ℕ × ℕ). now + j ≤ e.0) (expiries (now + total before) after)
    × (expiries now out ≡ expiries now before ++ (now + j, fn) ∷ expiries (now + j) after)

later-All :
    (at from : ℕ) (ts : Timers) → at ≤ from → All (λ (e : ℕ × ℕ). at ≤ e.0) (expiries from ts)
later-All at from [] le = tt
later-All at from (t ∷ ts) le = (omega arith, later-All at (from + t.jiffies) ts (omega arith))

-- A timer added to the chain stands behind exactly those that fire less than `j` jiffies from now. It
-- fires exactly `j` jiffies from now, and those before it keep their times; but every timer behind it
-- has its time counted from the new one, not from where it was: it fires late by what is left of `j`
-- after those before it.
pub bubble-expiries : (now j fn : ℕ) (ts : Timers) → 0 < j → Splits now j fn ts (bubble j fn ts)
unfolding bubble
bubble-expiries now j fn [] h = ([], [], refl, tt, tt, refl)
bubble-expiries now j fn (t ∷ ts) h = elim (Bool-cases (ltb t.jiffies j)) [
  | inl less ↦
      let (before, after, e, early, late, x) =
        bubble-expiries (now + t.jiffies) (j - t.jiffies) fn ts (ground arith) in
      let sum : now + t.jiffies + (j - t.jiffies) ≡ now + j = ground arith in
      let there : now + t.jiffies + total before ≡ now + (t.jiffies + total before) = omega arith in
      rw less (
        t ∷ before,
        after,
        rw e,
        (ground arith, rw sum at early),
        rw (sum, there) at late,
        rw (x, sum),
      )
  | inr not_less ↦ rw not_less (
    [],
    t ∷ ts,
    refl,
    tt,
    (ground arith, later-All (now + j) (now + 0 + t.jiffies) ts (ground arith)),
    refl,
  )
]

abbrev pub IsPending : Timer → Type 0
IsPending t = 0 < t.jiffies

expire-pending : (ts : Timers) → All IsPending ts → expire ts ≡ ([], ts)
unfolding expire
expire-pending [] h = refl
expire-pending (t ∷ ts) h = ground arith

-- A tick calls exactly the timers that expire one jiffy after `now`, and all others keep their times.
pub run_timers-expiries :
    (now : ℕ) (ts : Timers)
    → All IsPending ts
    → let (fired, rest) = run_timers ts in
      (expiries now ts ≡ map (λ fn. (suc now, fn)) fired ++ expiries (suc now) rest)
      × All IsPending rest
unfolding run_timers expire
run_timers-expiries now [] h = (refl, tt)
run_timers-expiries now (t ∷ ts) h = elim (Bool-cases (leb (t.jiffies - 1) 0)) [
  | inl z ↦
      let e : now + t.jiffies ≡ suc now = ground arith in
      rw (z, expire-pending ts h.1, e) (refl, h.1)
  | inr z ↦
      let e : now + t.jiffies ≡ suc now + (t.jiffies - 1) = ground arith in
      rw (z, e) (refl, (ground arith, h.1))
]
