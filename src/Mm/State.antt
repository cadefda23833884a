-- ===== src/Mm/State.antt =====
-- The memory that mm/memory.c works on, its constants (include/linux/head.h, include/linux/mm.h)
-- and the ways in which its functions end.
use rv.Common.{
  ℕ, ◌+◌, ◌-◌, ◌*◌, ◌/◌, ◌%◌, ◌^◌, ◌≡◌, ◌≤◌, ◌<◌, ◌⊎◌, refl, Bool, ◌==◌, arith, if◌then◌else◌, List,
  get_or, set,
}

abbrev pub ram_base : ℕ
ram_base = 0x80000000

abbrev pub ram_size : ℕ
ram_size = 128 * 1024 * 1024

abbrev pub ram_end : ℕ
ram_end = ram_base + ram_size

abbrev pub user_limit : ℕ
user_limit = 0x80000000

abbrev pub paging_pages : ℕ
paging_pages = ram_size / 4096

-- MAP_NR
abbrev pub map_nr : ℕ → ℕ
map_nr addr = (addr - ram_base) / 4096

-- The page of an address, and a page by its frame number.
abbrev pub frame : ℕ → ℕ
frame i = ram_base + i * 4096

-- `mem_map` counts the users of each frame; `word` is the content of the word at an address.
pub record Mem : Type 0 where
  pub mem_map : List ℕ
  pub word : ℕ → ℕ

abbrev pub count : Mem → ℕ → ℕ
count m i = get_or m.mem_map i 0

abbrev pub set_count : Mem → ℕ → ℕ → Mem
set_count m i c = record m { mem_map = set m.mem_map i c }

abbrev pub update : (ℕ → ℕ) → ℕ → ℕ → ℕ → ℕ
update w a v b = if a == b then v else w b

abbrev pub store : Mem → ℕ → ℕ → Mem
store m a v = record m { word = update m.word a v }

-- How a function ends: with a value, in panic(), or in do_exit(code), which does not come back.
pub data Outcome {ℓ} (A : Type ℓ) : Type ℓ where
  done : A → Mem → Outcome A
  panics : Outcome A
  exits : ℕ → Outcome A

abbrev pub M {ℓ} : Type ℓ → Type ℓ
M A = Mem → Outcome A

abbrev pub pure {ℓ} : {A : Type ℓ} → A → M A
pure a m = done a m

infixl 5 ◌>>=◌ ◌>>◌
abbrev pub ◌>>=◌ {ℓ κ} : {A : Type ℓ} {B : Type κ} → M A → (A → M B) → M B
◌>>=◌ f g m = elim (f m) [ done a m' ↦ g a m' | panics ↦ panics | exits c ↦ exits c ]

abbrev pub ◌>>◌ {ℓ} : {B : Type ℓ} → M (Unit {0}) → M B → M B
f >> g = f >>= λ _. g

abbrev pub read : ℕ → M ℕ
read a m = done (m.word a) m

abbrev pub write : ℕ → ℕ → M (Unit {0})
write a v m = done tt (store m a v)

abbrev pub page_words : ℕ
page_words = 1024

-- The bits of a page table entry. PTE_V, PTE_W and PTE_U are bits 0, 2 and 4; a page number is a
-- multiple of 1024 in an entry, so flags below 1024 are joined to it by addition.
abbrev pub pte_v : ℕ → Bool
pte_v p = p % 2 == 1

abbrev pub pte_w : ℕ → Bool
pte_w p = p / 4 % 2 == 1

abbrev pub pte_u : ℕ → Bool
pte_u p = p / 16 % 2 == 1

abbrev pub user_rw : ℕ
user_rw = 1 + 2 + 4 + 16 + 64 + 128

abbrev pub user_rwx : ℕ
user_rwx = 1 + 2 + 4 + 8 + 16 + 64 + 128

-- p | PTE_W and p & ~PTE_W
abbrev pub set_w : ℕ → ℕ
set_w p = if pte_w p then p else p + 4

abbrev pub clear_w : ℕ → ℕ
clear_w p = if pte_w p then p - 4 else p

abbrev pub pte_phys : ℕ → ℕ
pte_phys pte = pte / 2 ^ 10 % 2 ^ 22 * 2 ^ 12 % 2 ^ 32

abbrev pub phys_ppn : ℕ → ℕ
phys_ppn phys = phys / 2 ^ 12 * 2 ^ 10

pub user_pgd_entries : ℕ
user_pgd_entries = user_limit / 2 ^ 22

-- A chain that ends with a value: its first part does, and the rest goes on from there.
pub >>=-done {ℓ κ} :
    {A : Type ℓ} {B : Type κ} (f : M A) (g : A → M B) (m : Mem) {b : B} {m' : Mem}
    → (f >>= g) m ≡ done b m'
    → (a : A) × (n : Mem) × (f m ≡ done a n) × (g a n ≡ done b m')
>>=-done {A} {B} f g m {b} {m'} h = go (f m) refl h
  where
    go :
        (o : Outcome A)
        → f m ≡ o
        → (elim o [ done a n ↦ g a n | panics ↦ panics | exits c ↦ exits c ]) ≡ done b m'
        → (a : A) × (n : Mem) × (f m ≡ done a n) × (g a n ≡ done b m')
    go (done a n) e h = (a, n, e, h)
    go panics e h = cc
    go (exits c) e h = cc

pub >>=-of-done {ℓ κ} :
    {A : Type ℓ} {B : Type κ} (f : M A) (g : A → M B) (m : Mem) {a : A} {n : Mem}
    → f m ≡ done a n
    → (f >>= g) m ≡ g a n
>>=-of-done f g m e = rw (e, ◌>>=◌)

-- Two pages that do not overlap.
abbrev pub Apart : ℕ → ℕ → Type 0
Apart a b = (a + 4096 ≤ b) ⊎ (b + 4096 ≤ a)

-- The page of an entry is the page that was put there, and the flags are the flags.
pub pte-fields :
    (page flags : ℕ)
    → page % 4096 ≡ 0
    → page < 2 ^ 32
    → flags < 1024
    → let p = phys_ppn page + flags in
      (pte_phys p ≡ page)
      × (pte_v p ≡ (flags % 2 == 1))
      × (pte_w p ≡ (flags / 4 % 2 == 1))
      × (pte_u p ≡ (flags / 16 % 2 == 1))
pte-fields page flags a h f =
    let e1 : (phys_ppn page + flags) % 2 ≡ flags % 2 = omega arith in
    let e2 : (phys_ppn page + flags) / 4 % 2 ≡ flags / 4 % 2 = omega arith in
    let e3 : (phys_ppn page + flags) / 16 % 2 ≡ flags / 16 % 2 = omega arith in
    (omega arith, rw e1, rw e2, rw e3)
