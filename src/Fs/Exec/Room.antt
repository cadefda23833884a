-- ===== src/Fs/Exec/Room.antt =====
-- Room and pages enough for what copy_strings() copies.
use rv.Common.{
  ℕ, suc, ◌+◌, ◌-◌, ◌*◌, ◌/◌, ◌≤◌, ◌≡◌, refl, arith, Bool, true, false, ◌==◌, not, if◌then◌else◌,
  List, [], ◌∷◌, ◌++◌, length, length-append,
}
use rv.Fs.Pipe.{page_size}
use rv.Fs.Exec.{
  Copy, Copied, copies, no_page, runs_below, copy_byte, and_then, copy_string, copy_each,
}
use rv.Fs.Exec.Stand.{text}

-- It is copied, with room for n bytes more and the pages for them.
abbrev pub HasRoom : ℕ → Copied → Type 0
HasRoom n (copies c) = (n ≤ c.p) × (c.p ≤ c.offset + c.pages.free * page_size)
HasRoom n no_page = ⊥
HasRoom n runs_below = ⊥

pub HasRoom-if :
    (b : Bool) (n : ℕ) (l r : Copied)
    → (b ≡ true → HasRoom n l)
    → (b ≡ false → HasRoom n r)
    → HasRoom n (if b then l else r)
HasRoom-if true n l r hl hr = hl refl
HasRoom-if false n l r hl hr = hr refl

copy_byte-HasRoom : (b n : ℕ) (c : Copy) → HasRoom (suc n) (copies c) → HasRoom n (copy_byte b c)
unfolding copy_byte
copy_byte-HasRoom b n c (hn, hf) =
    HasRoom-if (c.p == 0) n _ _ (λ e. absurd (ground arith))
      λ e.
        HasRoom-if (not (c.offset == 0)) n _ _ (λ o. (omega (arith, hn), ground arith))
          λ o.
            HasRoom-if (c.pages.page ((c.p - 1) / page_size)) n _ _
              (λ g. (omega (arith, hn), ground arith))
              λ g.
                HasRoom-if (c.pages.free == 0) n _ _ (λ z. absurd (ground arith))
                  λ z. (omega (arith, hn), ground arith)

HasRoom-and_then :
    (m n : ℕ) (r : Copied) (k : Copy → Copied)
    → HasRoom m r
    → ((c : Copy) → HasRoom m (copies c) → HasRoom n (k c))
    → HasRoom n (and_then r k)
HasRoom-and_then m n (copies c) k h f = f c h
HasRoom-and_then m n no_page k h f = absurd h
HasRoom-and_then m n runs_below k h f = absurd h

copy_string-HasRoom :
    (s : List ℕ) (n : ℕ) (c : Copy)
    → HasRoom (length s + n) (copies c)
    → HasRoom n (copy_string s c)
unfolding copy_string
copy_string-HasRoom [] n c (hn, hf) = (omega (arith, hn), hf)
copy_string-HasRoom (b ∷ s) n c (hn, hf) =
    HasRoom-and_then (suc n) n (copy_string s c) (copy_byte b)
      (copy_string-HasRoom s (suc n) c (omega (arith, hn), hf))
      (λ c' h'. copy_byte-HasRoom b n c' h')

pub copy_each-HasRoom :
    (argv : List (List ℕ)) (n : ℕ) (c : Copy)
    → HasRoom (length (text argv []) + n) (copies c)
    → HasRoom n (copy_each argv c)
unfolding copy_each
copy_each-HasRoom [] n c (hn, hf) = (omega (arith, hn), hf)
copy_each-HasRoom (s ∷ argv) n c (hn, hf) =
    let here = s ++ 0 ∷ [] in
    HasRoom-and_then (length here + n) n (copy_each argv c) (copy_string here)
      (copy_each-HasRoom argv (length here + n) c
        (omega (arith, hn, length-append here (text argv [])), hf))
      (λ c' h'. copy_string-HasRoom here n c' h')
