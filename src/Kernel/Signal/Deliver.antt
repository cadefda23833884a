-- ===== src/Kernel/Signal/Deliver.antt =====
-- kernel/signal.c, do_signals(): which signal is delivered.
use rv.Common.{
  ℕ, zero, suc, ◌+◌, ◌-◌, ◌/◌, ◌%◌, ◌^◌, ◌≤◌, ◌<◌, ◌≡◌, ◌≢◌, inl, inr, refl, Option, none, some,
  true, false, ◌==◌, not, ◌&&◌, if◌then◌else◌, arith, Bool-cases, sym, ◌∙◌, ==_ne, ==_self,
}
use native.Mathlib.Nat.{pow-suc}
use native.Mathlib.Decide.{dec_lt}
use rv.Common.Bits.{bit, clear_bit, and_not32, bitwise-lt, bit-bitwise, bit-clear_bit, bit-zero}
use rv.Kernel.Task.{Task}
use rv.Kernel.Signal.{
  first_pending, next_signal, Trapframe, UserMem, do_signals, do_signal, resumes,
}

first_pending-lowest :
    (f p sig r : ℕ)
    → first_pending f p sig ≡ some r
    → (j : ℕ) × (r ≡ sig + j) × (j < f) × (bit p j ≡ true) × ((i : ℕ) → i < j → bit p i ≡ false)
unfolding first_pending bit
first_pending-lowest zero p sig r e = cc
first_pending-lowest (suc f) p sig r e = elim (Bool-cases (p % 2 == 1)) [
  | inl z ↦ (0, ground arith, omega arith, z, λ i h. absurd (omega arith))
  | inr z ↦
      let (j, s, l, b, low) = first_pending-lowest f (p / 2) (sig + 1) r (rw z at e) in
      (suc j, omega arith, omega arith, b, below j low z)
]
  where
    below :
        (j : ℕ)
        → ((i : ℕ) → i < j → bit (p / 2) i ≡ false)
        → (p % 2 == 1) ≡ false
        → (i : ℕ) → i < suc j
        → bit p i ≡ false
    below j low z zero h = z
    below j low z (suc i) h = low i (omega arith)

first_pending-total : (f p sig : ℕ) → p ≢ 0 → p < 2 ^ f → (r : ℕ) × (first_pending f p sig ≡ some r)
unfolding first_pending
first_pending-total zero p sig ne lt = absurd (omega arith)
first_pending-total (suc f) p sig ne lt = elim (Bool-cases (p % 2 == 1)) [
  | inl z ↦ (sig, rw z)
  | inr z ↦
      let (r, e) =
        first_pending-total f (p / 2) (sig + 1) (ground arith) (omega (arith, pow-suc 2 f)) in
      (r, rw (z, e))
]

-- A signal is pending and not blocked.
abbrev pub IsDue : Task → ℕ → Type 0
IsDue t sig = (bit t.signal (sig - 1) ≡ true) × (bit t.blocked (sig - 1) ≡ false)

due-bit :
    (t : Task) (sig : ℕ)
    → 1 ≤ sig
    → sig ≤ 32
    → bit (and_not32 t.signal t.blocked) (sig - 1)
      ≡ (bit t.signal (sig - 1) && not (bit t.blocked (sig - 1)))
due-bit t sig lo hi = bit-bitwise (λ a b. a && not b) 32 t.signal t.blocked (sig - 1) (omega arith)

ne-zero-of-bit : (x k : ℕ) → bit x k ≡ true → x ≢ 0
ne-zero-of-bit x k h e = cc (rw e at h, bit-zero k)

IsDue-of :
    (t : Task) (r j : ℕ)
    → r ≡ 1 + j
    → j < 32
    → bit (and_not32 t.signal t.blocked) j ≡ true
    → IsDue t r
IsDue-of t r j s l b =
    let k : r - 1 ≡ j = omega arith in
    let w : (bit t.signal j && not (bit t.blocked j)) ≡ true =
      sym (bit-bitwise (λ a b. a && not b) 32 t.signal t.blocked j l) ∙ b in
    rw k (ground arith)

next_signal-none :
    (t : Task) → ((sig : ℕ) → 1 ≤ sig → sig ≤ 32 → ¬ IsDue t sig) → next_signal t ≡ none
unfolding next_signal
next_signal-none t none_due =
    let p : ℕ = and_not32 t.signal t.blocked in
    elim (Bool-cases (p == 0)) [
      | inl z ↦ rw z (ground arith)
      | inr z ↦
          let (r, e) =
            first_pending-total 32 p 1 (λ q. cc (z, rw q at (==_self p), q))
              (bitwise-lt _ 32 t.signal t.blocked) in
          let (j, s, l, b, low) = first_pending-lowest 32 p 1 r e in
          absurd (none_due r (omega arith) (omega arith) (IsDue-of t r j s l b))
    ]

-- What do_signals() finds for a due signal `sig`: the lowest due one.
abbrev pub FindsFirst : Task → ℕ → Option ℕ → Type 0
FindsFirst t sig o =
    (r : ℕ) × (o ≡ some r)
    × (1 ≤ r)
    × (r ≤ sig)
    × IsDue t r
    × ((j : ℕ) → 1 ≤ j → j < r → ¬ IsDue t j)

next_signal-first :
    (t : Task) (sig : ℕ) → 1 ≤ sig → sig ≤ 32 → IsDue t sig → FindsFirst t sig (next_signal t)
unfolding next_signal
next_signal-first t sig lo hi due =
    let p : ℕ = and_not32 t.signal t.blocked in
    let here : bit p (sig - 1) ≡ true = rw (due-bit t sig lo hi, due.0, due.1) refl in
    let nz : p ≢ 0 = ne-zero-of-bit p (sig - 1) here in
    let nz' : t.signal ≢ 0 = ne-zero-of-bit t.signal (sig - 1) due.0 in
    let (r, e) = first_pending-total 32 p 1 nz (bitwise-lt _ 32 t.signal t.blocked) in
    let (j, s, l, b, low) = first_pending-lowest 32 p 1 r e in
    (
      r,
      rw (==_ne t.signal 0 nz', ==_ne p 0 nz) e,
      omega arith,
      elim (dec_lt j sig) [ yes h ↦ omega arith | no h ↦ cc (low (sig - 1) (omega arith), here) ],
      IsDue-of t r j s l b,
      λ i li hi' d. cc (low (i - 1) (omega arith), due-bit t i li (omega arith), d.0, d.1),
    )

-- If some signal is pending and not blocked, do_signals() delivers the lowest such signal, and clears
-- its bit and no other.
pub do_signals-first :
    (tf : Trapframe) (m : UserMem) (t : Task) (sig : ℕ)
    → 1 ≤ sig
    → sig ≤ 32
    → IsDue t sig
    → (r : ℕ) × FindsFirst t sig (some r)
      × ((left : ℕ) × (do_signals tf m t ≡ do_signal tf r m (record t { signal = left }))
          × ((j : ℕ) → bit left j ≡ (if r - 1 == j then false else bit t.signal j)))
unfolding do_signals
do_signals-first tf m t sig lo hi due =
    let (r, e, l, u, d, low) = next_signal-first t sig lo hi due in
    (
      r,
      (r, refl, l, u, d, low),
      (clear_bit t.signal (r - 1), rw (e, do_signals), λ j. bit-clear_bit t.signal (r - 1) j),
    )

-- If none is, the task goes on as it was.
pub do_signals-none :
    (tf : Trapframe) (m : UserMem) (t : Task)
    → ((sig : ℕ) → 1 ≤ sig → sig ≤ 32 → ¬ IsDue t sig)
    → do_signals tf m t ≡ resumes tf m t
unfolding do_signals
do_signals-none tf m t none_due = rw (next_signal-none t none_due, do_signals)
