-- ===== src/Mm/Area.antt =====
-- mm/memory.c: verify_area(); include/asm/segment.h: put_fs_long().
use rv.Common.{
  ℕ, zero, suc, ◌+◌, ◌/◌, ◌%◌, ◌^◌, ◌≤◌, ◌≡◌, ◌≢◌, true, leb, ◌==◌, not, if◌then◌else◌, ==_ne,
  arith,
}
use rv.Mm.State.{Mem, M, panics, exits, pure, ◌>>=◌, ◌>>◌, read, write, user_limit, pte_v, pte_w}
use rv.Mm.Tables.{pte_lookup, translate_user, fault_address}
use rv.Mm.Cow.{un_wp_page, get_empty_page, page_of}

-- One round of the loop: the page at `start` is mapped, or made writable.
unfoldable pub verify_page : ℕ → ℕ → M (Unit {0})
verify_page pgdir start = do
  slot ← pte_lookup pgdir start
  if slot == 0 then get_empty_page pgdir start else do
    pte ← read slot
    if not (pte_v pte)
        then get_empty_page pgdir start
        else if not (pte_w pte)
        then un_wp_page slot
        else pure tt

-- `while (size > 0)` with `pages` rounds left.
unfoldable pub verify_pages : ℕ → ℕ → ℕ → M (Unit {0})
verify_pages zero pgdir start = pure tt
verify_pages (suc pages) pgdir start = do
  verify_page pgdir start
  verify_pages pages pgdir ((start + 4096) % 2 ^ 32)

-- The loop takes 4096 off the size in each round, so it runs for the size over 4096, rounded up.
unfoldable pub verify_area : ℕ → ℕ → ℕ → M (Unit {0})
verify_area pgdir addr size =
    if pgdir == 0
    then pure tt
    else if leb user_limit addr
    then (λ _. panics)
    else verify_pages ((size + addr % 4096 + 4095) / 4096) pgdir (page_of addr)

-- put_fs_long(), a word for the user; uaccess_fault() ends the task by do_exit(11).
unfoldable pub put_fs_long : ℕ → ℕ → ℕ → M (Unit {0})
put_fs_long pgdir val addr = do
  pa ← translate_user pgdir addr
  if pa == fault_address then (λ _. exits 11) else write pa val

-- A user task that hands a system call an address from USER_LIMIT on stops the whole kernel: the
-- check ends in panic() instead of failing the call.
pub verify_area-panics :
    (pgdir addr size : ℕ) (m : Mem)
    → pgdir ≢ 0
    → user_limit ≤ addr
    → verify_area pgdir addr size m ≡ panics
unfolding verify_area
verify_area-panics pgdir addr size m ne h =
    let e : leb user_limit addr ≡ true = ground arith in rw (==_ne pgdir 0 ne, e)
