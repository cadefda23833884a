-- ===== src/Mm/Tables.antt =====
-- mm/memory.c: the walk of a page table, mapping a page, and the copy and release of the tables.
pub mod Map
use rv.Common.{
  ℕ, zero, suc, ◌+◌, ◌-◌, ◌*◌, ◌/◌, ◌%◌, ◌^◌, Bool, true, false, ltb, leb, ◌==◌, not, ◌||◌,
  if◌then◌else◌, Option, none, some,
}
use rv.Mm.State.{
  Mem, M, Outcome, done, panics, pure, ◌>>=◌, ◌>>◌, read, write, ram_base, ram_end, user_limit,
  map_nr, count, set_count, pte_v, pte_u, user_rwx, pte_phys, phys_ppn, clear_w, user_pgd_entries,
  page_words,
}
use rv.Mm.Frames.{get_free_page, free_page}

-- The words of the directory and of a table that an address selects.
abbrev pub dir_slot : ℕ → ℕ → ℕ
dir_slot pgdir address = pgdir + 4 * (address / 2 ^ 22)

abbrev pub table_slot : ℕ → ℕ → ℕ
table_slot table address = table + 4 * (address / 2 ^ 12 % 1024)

-- The address of the entry, or 0 for NULL.
unfoldable pub pte_lookup : ℕ → ℕ → M ℕ
pte_lookup pgdir address = if pgdir == 0 then pure 0 else do
  dir ← read (dir_slot pgdir address)
  if pte_v dir then pure (table_slot (pte_phys dir) address) else pure 0

-- The directory entry for the address, with a new table where there was none; 0 if there is no page.
unfoldable pub table_for : ℕ → ℕ → M ℕ
table_for pgdir address = do
  dir ← read (dir_slot pgdir address)
  if pte_v dir then pure dir else do
    tmp ← get_free_page
    if tmp == 0
        then pure 0
        else do write (dir_slot pgdir address) (phys_ppn tmp + 1); pure (phys_ppn tmp + 1)

unfoldable pub put_page_pgdir : ℕ → ℕ → ℕ → M ℕ
put_page_pgdir pgdir page address =
    if leb user_limit address
    then pure 0
    else if ltb page ram_base || leb ram_end page
    then pure 0
    else do
      dir ← table_for pgdir address
      if dir == 0
          then pure 0
          else do write (table_slot (pte_phys dir) address) (phys_ppn page + user_rwx); pure page

abbrev pub fault_address : ℕ
fault_address = 2 ^ 32 - 1

-- The physical address by the entry at `slot`.
unfoldable pub translate_entry : ℕ → ℕ → M ℕ
translate_entry addr slot = if slot == 0 then pure fault_address else do
  pte ← read slot
  if not (pte_v pte) || not (pte_u pte)
      then pure fault_address
      else pure (pte_phys pte + addr % 2 ^ 12)

unfoldable pub translate_user : ℕ → ℕ → M ℕ
translate_user pgdir addr =
    if pgdir == 0
    then pure addr
    else if leb user_limit addr
    then pure fault_address
    else do slot ← pte_lookup pgdir addr; translate_entry addr slot

-- The inner loop of free_page_tables(), over n entries from `slot` on.
unfoldable pub free_entries : ℕ → ℕ → M (Unit {0})
free_entries zero slot = pure tt
free_entries (suc n) slot = do
  pte ← read slot
  if pte_v pte then free_page (pte_phys pte) else pure tt
  free_entries n (slot + 4)

unfoldable pub free_dirs : ℕ → ℕ → M (Unit {0})
free_dirs zero slot = pure tt
free_dirs (suc n) slot = do
  dir ← read slot
  if pte_v dir
      then (do free_entries page_words (pte_phys dir); free_page (pte_phys dir); write slot 0)
      else pure tt
  free_dirs n (slot + 4)

unfoldable pub free_page_tables : ℕ → M (Unit {0})
free_page_tables pgdir =
    if pgdir == 0 then pure tt else do free_dirs user_pgd_entries pgdir; free_page pgdir

-- `mem_map[MAP_NR(page)]++`, an unsigned char
unfoldable pub share : ℕ → M (Unit {0})
share page m =
    if leb ram_base page
    then done tt (set_count m (map_nr page) ((count m (map_nr page) + 1) % 256))
    else done tt m

-- The inner loop of copy_page_tables(), over n entries.
unfoldable pub copy_entries : ℕ → ℕ → ℕ → M (Unit {0})
copy_entries zero from to = pure tt
copy_entries (suc n) from to = do
  this_page ← read from
  if pte_v this_page
      then (do
        write from (clear_w this_page)
        write to (clear_w this_page)
        share (pte_phys (clear_w this_page)))
      else pure tt
  copy_entries n (from + 4) (to + 4)

-- `true` where the copy was made, `false` for the result -1.
unfoldable pub copy_dirs : ℕ → ℕ → ℕ → M Bool
copy_dirs zero from to = pure true
copy_dirs (suc n) from to = do
  dir ← read from
  if pte_v dir
      then (do
        there ← read to
        if pte_v there then (λ _. panics) else do
          new_table ← get_free_page
          if new_table == 0 then pure false else do
            write to (phys_ppn new_table + 1)
            copy_entries page_words (pte_phys dir) new_table
            copy_dirs n (from + 4) (to + 4))
      else copy_dirs n (from + 4) (to + 4)

unfoldable pub copy_page_tables : ℕ → ℕ → M Bool
copy_page_tables from_pgdir to_pgdir =
    if from_pgdir == 0 || to_pgdir == 0
    then (λ _. panics)
    else copy_dirs user_pgd_entries from_pgdir to_pgdir
