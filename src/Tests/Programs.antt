-- ===== src/Tests/Programs.antt =====
-- fs/exec.c: two arguments, and one free page.
use rv.Common.{ℕ, false, List, [], ◌∷◌, arith}
use rv.Fs.Exec.{Pages, copy_strings}
use rv.Fs.Exec.Image.{IsCopied, copy_strings-IsCopied}

abbrev no_pages : Pages
no_pages = record { page = λ i. false; image = λ q. 0; free = 1 }

-- "ls" and "a"
abbrev argv : List (List ℕ)
argv = (108 ∷ 115 ∷ []) ∷ (97 ∷ []) ∷ []

copy_strings-IsCopied_example :
    IsCopied (108 ∷ 115 ∷ 0 ∷ 97 ∷ 0 ∷ []) 4092 (copy_strings argv 4092 no_pages)
copy_strings-IsCopied_example =
    copy_strings-IsCopied argv 4092 no_pages [] (omega arith) (omega arith) (omega arith) tt
