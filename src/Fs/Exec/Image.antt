-- ===== src/Fs/Exec/Image.antt =====
-- What copy_strings() leaves in the argument pages.
use rv.Common.{ℕ, ◌+◌, ◌*◌, ◌≤◌, ◌≡◌, ◌≢◌, refl, arith, ◌==◌, List, [], inl, length, ==_iff}
use rv.Fs.Pipe.{page_size}
use rv.Fs.Exec.{Pages, Copy, Copied, copies, no_page, runs_below, copy_strings}
use rv.Fs.Exec.Stand.{Stands, After, After-if, text, copy_each-After}
use rv.Fs.Exec.Room.{HasRoom, HasRoom-if, copy_each-HasRoom}

copy_strings-After :
    (argv : List (List ℕ)) (p : ℕ) (a : Pages) (bs : List ℕ)
    → Stands a p bs
    → After (text argv bs) (p + length bs) (copy_strings argv p a)
unfolding copy_strings
copy_strings-After argv p a bs h =
    After-if (p == 0) (text argv bs) (p + length bs) _ _ (λ e. tt)
      λ e.
        copy_each-After argv (p + length bs) (record { p = p; pag = 0; offset = 0; pages = a }) bs
          (refl, inl refl, h)

copy_strings-HasRoom :
    (argv : List (List ℕ)) (p : ℕ) (a : Pages)
    → p ≢ 0
    → length (text argv []) ≤ p
    → p ≤ a.free * page_size
    → HasRoom 0 (copy_strings argv p a)
unfolding copy_strings
copy_strings-HasRoom argv p a hp hl hf =
    HasRoom-if (p == 0) 0 _ _ (λ e. absurd (hp ((==_iff p 0).0 e)))
      λ e.
        copy_each-HasRoom argv 0 (record { p = p; pag = 0; offset = 0; pages = a })
          (omega (arith, hl), omega (arith, hf))

-- The bytes are copied, and stand from the new p on, which is their number below `top`.
abbrev pub IsCopied : List ℕ → ℕ → Copied → Type 0
IsCopied bs top r = (c : Copy) × (r ≡ copies c) × (c.p + length bs ≡ top) × Stands c.pages c.p bs

After-IsCopied :
    (bs : List ℕ) (top : ℕ) (r : Copied) → After bs top r → HasRoom 0 r → IsCopied bs top r
After-IsCopied bs top (copies c) (ht, hi, hs) h = (c, refl, ht, hs)
After-IsCopied bs top no_page a h = absurd h
After-IsCopied bs top runs_below a h = absurd h

-- If p is not 0, the strings fit below p and there are free pages for all that is below p, copy_strings()
-- copies them. Where the bytes of an earlier call stand from p on in the argument pages, there come, from
-- the place that it returns on, the strings in the order of argv, each with its NUL, and then the earlier
-- bytes, all in pages that are there.
pub copy_strings-IsCopied :
    (argv : List (List ℕ)) (p : ℕ) (a : Pages) (bs : List ℕ)
    → p ≢ 0
    → length (text argv []) ≤ p
    → p ≤ a.free * page_size
    → Stands a p bs
    → IsCopied (text argv bs) (p + length bs) (copy_strings argv p a)
copy_strings-IsCopied argv p a bs hp hl hf h =
    After-IsCopied (text argv bs) (p + length bs) (copy_strings argv p a)
      (copy_strings-After argv p a bs h) (copy_strings-HasRoom argv p a hp hl hf)
