-- ===== src/Kernel/Signal.antt =====
-- kernel/signal.c: signal actions and masks, the delivery of a pending signal, and the return from a
-- handler. User memory is a function from the addresses of words; verify_area() and the accesses of
-- asm/segment.h map them to pages, which mm/memory.c models.
pub mod Deliver
pub mod Frame
use rv.Common.{
  ℕ, zero, suc, ◌+◌, ◌-◌, ◌/◌, ◌%◌, ◌^◌, Option, none, some, Bool, true, false, ltb, ◌==◌, not,
  ◌||◌, if◌then◌else◌, List, get_or, set,
}
use rv.Common.Bits.{bit, set_bit, clear_bit, and_not32, or32}
use rv.Kernel.Task.{Task, Sigaction}
use rv.Kernel.Sys.{Ret, ok, err}

abbrev pub sigkill : ℕ
sigkill = 9

abbrev pub sigchld : ℕ
sigchld = 17

-- SA_NOMASK and SA_ONESHOT are these bits of sa_flags.
abbrev pub nomask_bit : ℕ
nomask_bit = 30

abbrev pub oneshot_bit : ℕ
oneshot_bit = 31

unfoldable pub sys_sgetmask : Task → ℕ
sys_sgetmask t = t.blocked

unfoldable pub sys_ssetmask : ℕ → Task → ℕ × Task
sys_ssetmask newmask t = (t.blocked, record t { blocked = clear_bit newmask (sigkill - 1) })

abbrev pub no_action : Sigaction
no_action = record { sa_handler = 0; sa_mask = 0; sa_flags = 0; sa_restorer = 0 }

abbrev pub action_of : Task → ℕ → Sigaction
action_of t signr = get_or t.sigaction (signr - 1) no_action

abbrev pub set_action : Task → ℕ → Sigaction → Task
set_action t signr sa = record t { sigaction = set t.sigaction (signr - 1) sa }

abbrev pub bad_signum : ℕ → Bool
bad_signum signum = ltb signum 1 || ltb 32 signum || signum == sigkill

-- The result is the old handler, or -1.
unfoldable pub sys_signal : ℕ → ℕ → ℕ → Task → Ret × Task
sys_signal signum handler restorer t = if bad_signum signum then (err 1, t) else (
  ok (action_of t signum).sa_handler,
  set_action t signum (record {
    sa_handler = handler;
    sa_mask = 0;
    sa_flags = 2 ^ 31 + 2 ^ 30;
    sa_restorer = restorer;
  }),
)

-- The mask that a new action gets: empty with SA_NOMASK, else with its own signal in it.
unfoldable pub mask_self : ℕ → Sigaction → Sigaction
mask_self signum sa =
    if bit sa.sa_flags nomask_bit
    then record sa { sa_mask = 0 }
    else record sa { sa_mask = set_bit sa.sa_mask (signum - 1) }

-- `action` is what the user's structure holds; the third part is what goes to `oldaction`.
unfoldable pub sys_sigaction : ℕ → Sigaction → Task → Ret × Task × Option Sigaction
unfolding mask_self
sys_sigaction signum action t =
    if bad_signum signum
    then (err 1, t, none)
    else (ok 0, set_action t signum (mask_self signum action), some (action_of t signum))

-- `while (!(pending & 1)) { pending >>= 1; sig++; }`
unfoldable pub first_pending : ℕ → ℕ → ℕ → Option ℕ
first_pending zero pending sig = none
first_pending (suc f) pending sig =
    let rest = first_pending f (pending / 2) (sig + 1) in
    if pending % 2 == 1 then some sig else rest

-- The signal that do_signals() takes.
unfoldable pub next_signal : Task → Option ℕ
unfolding first_pending
next_signal t =
    let pending = and_not32 t.signal t.blocked in
    if t.signal == 0 then none else if pending == 0 then none else first_pending 32 pending 1

-- The registers of a trap frame that delivery concerns; `saved` is all the others by their number.
pub record Trapframe : Type 0 where
  pub mepc : ℕ
  pub ra : ℕ
  pub sp : ℕ
  pub a0 : ℕ
  pub saved : ℕ → ℕ

abbrev pub UserMem : Type 0
UserMem = ℕ → ℕ

abbrev pub store : UserMem → ℕ → ℕ → UserMem
store m a v b = if a == b then v else m b

abbrev pub sub32 : ℕ → ℕ → ℕ
sub32 a b = (a + 2 ^ 32 - b) % 2 ^ 32

abbrev pub add32 : ℕ → ℕ → ℕ
add32 a b = (a + b) % 2 ^ 32

-- The five words that do_signal() pushes at `sp`.
unfoldable pub push_frame : UserMem → ℕ → ℕ → ℕ → Trapframe → UserMem
push_frame m sp restorer signr tf =
    store
      (store (store (store (store m sp restorer) (add32 sp 4) signr) (add32 sp 8) tf.a0)
        (add32 sp 12) tf.mepc)
      (add32 sp 16) tf.sp

pub data Delivery : Type 0 where
  -- the task goes on with this frame, memory and state
  resumes : Trapframe → UserMem → Task → Delivery
  -- do_exit(signr)
  exits : ℕ → Delivery

abbrev pub one_shot : ℕ → Task → Task
one_shot signr t =
    if bit (action_of t signr).sa_flags oneshot_bit
    then set_action t signr (record (action_of t signr) { sa_handler = 0 })
    else t

-- The frame, memory and state with which the handler starts.
unfoldable pub enter_handler : Trapframe → ℕ → UserMem → Task → Delivery
unfolding push_frame
enter_handler tf signr m t =
    let sa = action_of t signr in
    let sp = sub32 tf.sp 20 in
    resumes (record tf { sp = sp; a0 = signr; ra = sa.sa_restorer; mepc = sa.sa_handler })
      (push_frame m sp sa.sa_restorer signr tf)
      (record (one_shot signr t) { blocked = or32 t.blocked sa.sa_mask })

unfoldable pub do_signal : Trapframe → ℕ → UserMem → Task → Delivery
unfolding enter_handler
do_signal tf signr m t =
    let h = (action_of t signr).sa_handler in
    if h == 1
    then resumes tf m t
    else if h == 0
    then (if signr == sigchld then resumes tf m t else exits signr)
    else enter_handler tf signr m t

unfoldable pub do_signals : Trapframe → UserMem → Task → Delivery
unfolding next_signal do_signal
do_signals tf m t = elim (next_signal t) [
  | none ↦ resumes tf m t
  | some sig ↦ do_signal tf sig m (record t { signal = clear_bit t.signal (sig - 1) })
]

unfoldable pub sys_sigreturn : Trapframe → UserMem → Trapframe
sys_sigreturn tf m = record tf {
  a0 = m (add32 tf.sp 8);
  mepc = m (add32 tf.sp 12);
  sp = m (add32 tf.sp 16);
}
