-- ===== src/Mm/Cow.antt =====
-- mm/memory.c: copy-on-write and page faults.
pub mod Unshare
use rv.Common.{
  ℕ, ◌+◌, ◌-◌, ◌*◌, ◌/◌, ◌%◌, ◌^◌, Bool, true, false, ltb, leb, ◌==◌, not, ◌||◌, ◌&&◌,
  if◌then◌else◌,
}
use rv.Mm.State.{
  Mem, M, Outcome, done, panics, exits, pure, ◌>>=◌, ◌>>◌, read, write, ram_base, user_limit,
  map_nr, count, set_count, pte_v, pte_w, user_rw, pte_phys, phys_ppn, set_w,
}
use rv.Mm.Frames.{get_free_page, free_page, copy_page}
use rv.Mm.Tables.{pte_lookup, put_page_pgdir}

abbrev pub sigsegv : ℕ
sigsegv = 11

abbrev do_exit {ℓ} : {A : Type ℓ} → ℕ → M A
do_exit code m = exits code

-- `old_page >= RAM_BASE && mem_map[MAP_NR(old_page)] == 1`
abbrev pub is_sole : ℕ → Mem → Bool
is_sole page m = leb ram_base page && count m (map_nr page) == 1

-- `if (old_page >= RAM_BASE) mem_map[MAP_NR(old_page)]--`, an unsigned char
unfoldable pub unshare : ℕ → M (Unit {0})
unshare page m =
    if leb ram_base page
    then done tt (set_count m (map_nr page) ((count m (map_nr page) + 255) % 256))
    else done tt m

unfoldable pub copy_to : ℕ → ℕ → ℕ → M (Unit {0})
copy_to slot old_page new_page = if new_page == 0 then do_exit sigsegv else do
  unshare old_page
  write slot (phys_ppn new_page + user_rw)
  (λ m. done tt (copy_page old_page new_page m))

-- The rest of un_wp_page(), for a page that is shared.
unfoldable pub copy_shared : ℕ → ℕ → M (Unit {0})
copy_shared slot old_page = get_free_page >>= copy_to slot old_page

unfoldable pub un_wp_page : ℕ → M (Unit {0})
un_wp_page slot = do
  pte ← read slot
  (λ m.
      if is_sole (pte_phys pte) m
      then write slot (set_w pte) m
      else copy_shared slot (pte_phys pte) m)

unfoldable pub get_empty_page : ℕ → ℕ → M (Unit {0})
get_empty_page pgdir address = do
  tmp ← get_free_page
  if tmp == 0 then (do free_page tmp; do_exit sigsegv) else do
    put ← put_page_pgdir pgdir tmp address
    if put == 0 then (do free_page tmp; do_exit sigsegv) else pure tt

abbrev pub page_of : ℕ → ℕ
page_of address = address / 2 ^ 12 * 2 ^ 12

unfoldable pub do_no_page : ℕ → ℕ → M (Unit {0})
do_no_page pgdir address = get_empty_page pgdir (page_of address)

-- `pte && (*pte & PTE_V) && !(*pte & PTE_W)`
unfoldable pub is_protected : ℕ → M Bool
is_protected slot =
    if slot == 0 then pure false else do pte ← read slot; pure (pte_v pte && not (pte_w pte))

unfoldable pub do_wp_page : ℕ → ℕ → M (Unit {0})
do_wp_page pgdir address = do
  slot ← pte_lookup pgdir address
  protected ← is_protected slot
  if protected then un_wp_page slot else do_no_page pgdir address

unfoldable pub page_fault_handler : ℕ → Bool → ℕ → M (Unit {0})
page_fault_handler pgdir from_user address =
    if not from_user || leb user_limit address then do_exit sigsegv else do
      slot ← pte_lookup pgdir (page_of address)
      protected ← is_protected slot
      if protected then do_wp_page pgdir (page_of address) else do_no_page pgdir (page_of address)
