-- ===== src/Fs/Exec.antt =====
-- fs/exec.c: copy_strings(). A string is the list of its characters before the NUL, and `free` the number
-- of pages that get_free_page() still gives.
pub mod Stand
pub mod Room
pub mod Image
use rv.Common.{
  ℕ, zero, suc, ◌+◌, ◌-◌, ◌*◌, ◌/◌, ◌%◌, Bool, true, false, ◌==◌, not, if◌then◌else◌, List, [], ◌∷◌,
  ◌++◌,
}
use rv.Fs.Pipe.{page_size}

-- The argument pages: which of page[] are not 0, and the byte at each place of them.
pub record Pages : Type 0 where
  pub page : ℕ → Bool
  pub image : ℕ → ℕ
  pub free : ℕ

-- The variables of copy_strings(): `pag` is the number of the page.
pub record Copy : Type 0 where
  pub p : ℕ
  pub pag : ℕ
  pub offset : ℕ
  pub pages : Pages

pub data Copied : Type 0 where
  copies : Copy → Copied
  -- return 0
  no_page : Copied
  -- p runs below 0, and page[] is read out of bounds
  runs_below : Copied

-- page[i] = get_free_page(), which is filled with 0
abbrev pub with_page : ℕ → Pages → Pages
with_page i a = record {
  page = λ k. if k == i then true else a.page k;
  image = λ q. if q / page_size == i then 0 else a.image q;
  free = a.free - 1;
}

abbrev pub put_char : ℕ → Copy → Copy
put_char b c = record c {
  pages = record (c.pages) {
    image = λ q. if q == c.pag * page_size + c.offset then b else c.pages.image q;
  };
}

-- One round of the loop over the bytes of a string, which goes down.
unfoldable pub copy_byte : ℕ → Copy → Copied
copy_byte b c =
    let p = c.p - 1 in
    let i = p / page_size in
    if c.p == 0
    then runs_below
    else if not (c.offset == 0)
    then copies (put_char b (record c { p = p; offset = c.offset - 1 }))
    else if c.pages.page i
    then copies (put_char b (record c { p = p; offset = p % page_size; pag = i }))
    else if c.pages.free == 0
    then no_page
    else copies (
        put_char b (record { p = p; offset = p % page_size; pag = i; pages = with_page i c.pages }))

abbrev pub and_then : Copied → (Copy → Copied) → Copied
and_then (copies c) k = k c
and_then no_page k = no_page
and_then runs_below k = runs_below

-- The bytes of a string, its NUL included, from the last on.
unfoldable pub copy_string : List ℕ → Copy → Copied
copy_string [] c = copies c
copy_string (b ∷ bs) c = and_then (copy_string bs c) (copy_byte b)

-- The strings from the last on.
unfoldable pub copy_each : List (List ℕ) → Copy → Copied
copy_each [] c = copies c
copy_each (s ∷ argv) c = and_then (copy_each argv c) (copy_string (s ++ 0 ∷ []))

unfoldable pub copy_strings : List (List ℕ) → ℕ → Pages → Copied
copy_strings argv p a =
    if p == 0 then no_page else copy_each argv (record { p = p; pag = 0; offset = 0; pages = a })
