-- ===== src/Kernel/Signal/Frame.antt =====
-- kernel/signal.c: entering a handler and coming back from it.
use rv.Common.{ℕ, ◌^◌, ◌<◌, ◌≡◌, ◌≢◌, true, ◌||◌, arith, ==_ne, sym, ◌∙◌}
use rv.Common.Bits.{bit, or32, bit-bitwise}
use rv.Kernel.Task.{Task}
use rv.Kernel.Signal.{
  Trapframe, UserMem, add32, sub32, push_frame, action_of, enter_handler, resumes, sys_sigreturn,
  do_signal, one_shot,
}

-- The words of the frame that the return reads.
pub frame-words :
    (m : UserMem) (sp restorer signr : ℕ) (tf : Trapframe)
    → sp < 2 ^ 32
    → let f = push_frame m sp restorer signr tf in
      (f (add32 sp 8) ≡ tf.a0) × (f (add32 sp 12) ≡ tf.mepc) × (f (add32 sp 16) ≡ tf.sp)
unfolding push_frame
frame-words m sp restorer signr tf h = ground arith

abbrev entered : Trapframe → ℕ → Task → Trapframe
entered tf signr t = record tf {
  sp = sub32 tf.sp 20;
  a0 = signr;
  ra = (action_of t signr).sa_restorer;
  mepc = (action_of t signr).sa_handler;
}

abbrev masked : Task → ℕ → Task
masked t signr = record (one_shot signr t) { blocked = or32 t.blocked (action_of t signr).sa_mask }

do_signal-enters :
    (tf : Trapframe) (signr : ℕ) (m : UserMem) (t : Task)
    → (action_of t signr).sa_handler ≢ 0
    → (action_of t signr).sa_handler ≢ 1
    → do_signal tf signr m t
      ≡ resumes
          (entered tf signr t)
          (push_frame m (sub32 tf.sp 20) (action_of t signr).sa_restorer signr tf)
          (masked t signr)
unfolding do_signal enter_handler
do_signal-enters tf signr m t h0 h1 =
    rw (==_ne (action_of t signr).sa_handler 1 h1, ==_ne (action_of t signr).sa_handler 0 h0)

-- Delivery to a handler, and the return from it: if the handler gives the stack pointer back and
-- leaves the words of its frame alone, sys_sigreturn() gives a0, the program counter and the stack
-- pointer the values that they had, whatever else the handler did.
pub sigreturn-do_signal :
    (tf tf' end : Trapframe) (signr : ℕ) (m m' m'' : UserMem) (t t' : Task)
    → (action_of t signr).sa_handler ≢ 0
    → (action_of t signr).sa_handler ≢ 1
    → do_signal tf signr m t ≡ resumes tf' m' t'
    → end.sp ≡ tf'.sp
    → m'' (add32 tf'.sp 8) ≡ m' (add32 tf'.sp 8)
    → m'' (add32 tf'.sp 12) ≡ m' (add32 tf'.sp 12)
    → m'' (add32 tf'.sp 16) ≡ m' (add32 tf'.sp 16)
    → let back = sys_sigreturn end m'' in
      (back.a0 ≡ tf.a0) × (back.mepc ≡ tf.mepc) × (back.sp ≡ tf.sp)
unfolding sys_sigreturn
sigreturn-do_signal tf tf' end signr m m' m'' t t' h0 h1 e s a b c =
    let q = sym (do_signal-enters tf signr m t h0 h1) ∙ e in
    let p : sub32 tf.sp 20 ≡ tf'.sp = cc q in
    let f : push_frame m (sub32 tf.sp 20) (action_of t signr).sa_restorer signr tf ≡ m' = cc q in
    let words =
      frame-words m (sub32 tf.sp 20) (action_of t signr).sa_restorer signr tf (omega arith) in
    let words' = rw (f, p) at words in (rw (s, a) words'.0, rw (s, b) words'.1, rw (s, c) words'.2)

-- sys_sigreturn() does not restore ra: even if the handler gives every register and all of memory back
-- as they were on its entry, ra is not what it was before the delivery, where the restorer's address
-- differs from that. And a signal in the action's mask is blocked from the delivery on.
pub sigreturn-loses-ra :
    (tf tf' : Trapframe) (signr : ℕ) (m m' : UserMem) (t t' : Task) (k : ℕ)
    → (action_of t signr).sa_handler ≢ 0
    → (action_of t signr).sa_handler ≢ 1
    → (action_of t signr).sa_restorer ≢ tf.ra
    → k < 32
    → bit (action_of t signr).sa_mask k ≡ true
    → do_signal tf signr m t ≡ resumes tf' m' t'
    → ((sys_sigreturn tf' m').ra ≢ tf.ra) × (bit t'.blocked k ≡ true)
unfolding sys_sigreturn
sigreturn-loses-ra tf tf' signr m m' t t' k h0 h1 ne lt b e =
    let q = sym (do_signal-enters tf signr m t h0 h1) ∙ e in
    let r : (action_of t signr).sa_restorer ≡ tf'.ra = cc q in
    let w : or32 t.blocked (action_of t signr).sa_mask ≡ t'.blocked = cc q in
    (
      λ same. ne (r ∙ same),
      rw (← w, bit-bitwise (λ a b. a || b) 32 t.blocked (action_of t signr).sa_mask k lt, b)
          (ground arith),
    )
