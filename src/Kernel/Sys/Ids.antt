-- ===== src/Kernel/Sys/Ids.antt =====
-- kernel/sys.c: who may take which user and group ids.
use rv.Common.{ℕ, ◌<◌, ◌^◌, ◌≡◌, ◌≢◌, ◌⊎◌, arith}
use rv.Kernel.Task.{Task}
use rv.Kernel.Sys.{Ret, ok, err, eperm, short, set_euid, set_egid, sys_setreuid, sys_setregid}

abbrev pub IsShort : ℕ → Type 0
IsShort x = x < 2 ^ 16

abbrev pub OneOf : ℕ → ℕ → ℕ → Type 0
OneOf x a b = (x ≡ a) ⊎ (x ≡ b)

-- What a call that may fail owes: a result of 0, or EPERM and nothing changed.
abbrev pub IsAtomic : Task → Ret × Task → Type 0
IsAtomic t r = (r.0 ≡ ok 0) ⊎ ((r.0 ≡ err eperm) × (r.1 ≡ t))

set_euid-outcome :
    (old_ruid euid : ℕ) (t : Task)
    → t.euid ≢ 0
    → IsShort t.euid
    → IsShort old_ruid
    → let (r, u) = set_euid old_ruid euid t in
      ((r ≡ ok 0) × (u.uid ≡ t.uid) × OneOf u.euid old_ruid t.euid)
      ⊎ ((r ≡ err eperm) × (u ≡ record t { uid = old_ruid }))
unfolding set_euid
set_euid-outcome old_ruid euid t ne se so = ground arith

-- A process that is not the superuser's never comes by a user id with sys_setreuid() that is not its
-- real or its effective one already; where the call fails nothing is changed.
pub setreuid-unprivileged :
    (ruid euid : ℕ) (t : Task)
    → t.euid ≢ 0
    → IsShort t.uid
    → IsShort t.euid
    → let r = sys_setreuid ruid euid t in
      OneOf r.1.uid t.uid t.euid × OneOf r.1.euid t.uid t.euid × IsAtomic t r
unfolding sys_setreuid
setreuid-unprivileged ruid euid t ne su se = ground (
  arith,
  set_euid-outcome t.uid euid t ne se su,
  set_euid-outcome t.uid euid (record t { uid = short ruid }) ne se su,
)

-- With sys_setregid() such a process keeps its real group id, and its effective one becomes at most
-- its real or its saved one; where the call fails nothing is changed.
pub setregid-unprivileged :
    (rgid egid : ℕ) (t : Task)
    → t.euid ≢ 0
    → IsShort t.gid
    → IsShort t.egid
    → IsShort t.sgid
    → let r = sys_setregid rgid egid t in
      (r.1.gid ≡ t.gid) × (OneOf r.1.egid t.gid t.egid ⊎ (r.1.egid ≡ t.sgid)) × IsAtomic t r
unfolding sys_setregid set_egid
setregid-unprivileged rgid egid t ne sg se ss = ground arith
