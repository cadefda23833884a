-- ===== src/Fs/Exec/Stand.antt =====
-- Where the bytes stand that the loops of copy_strings() put into the argument pages.
use rv.Common.{
  ℕ, suc, ◌+◌, ◌-◌, ◌*◌, ◌/◌, ◌%◌, ◌<◌, ◌≡◌, ◌≢◌, refl, sym, ap, ◌∙◌, subst, arith, ◌⊎◌, Bool, true,
  false, ◌==◌, not, if◌then◌else◌, List, [], ◌∷◌, ◌++◌, inl, inr, length, ==_self, ==_ne,
}
use rv.Fs.Pipe.{page_size}
use rv.Fs.Exec.{
  Pages, Copy, Copied, copies, no_page, runs_below, with_page, put_char, copy_byte, and_then,
  copy_string, copy_each,
}

-- The bytes stand from place q on, in pages that are there.
abbrev pub Stands : Pages → ℕ → List ℕ → Type 0
Stands a q [] = Unit
Stands a q (b ∷ bs) = (a.image q ≡ b) × (a.page (q / page_size) ≡ true) × Stands a (suc q) bs

-- `pag` and `offset` are those of p, unless the page of p - 1 has to be looked up.
abbrev pub InPage : Copy → Type 0
InPage c =
    (c.offset ≡ 0)
    ⊎ ((c.p ≡ c.pag * page_size + c.offset) × (c.offset < page_size) × (c.pages.page c.pag ≡ true))

-- A byte that is put below does not change what stands above.
Stands-put_char :
    (a : Pages) (q at b : ℕ) (bs : List ℕ)
    → at < q
    → Stands a q bs
    → Stands (record a { image = λ k. if k == at then b else a.image k }) q bs
Stands-put_char a q at b [] h s = tt
Stands-put_char a q at b (x ∷ bs) h (e, p, s) = (
  rw (==_ne q at (λ r. omega (arith, h, r))) e,
  p,
  Stands-put_char a (suc q) at b bs (omega (arith, h)) s,
)

-- A new page is none of those in which bytes stand.
Stands-with_page :
    (a : Pages) (q i : ℕ) (bs : List ℕ)
    → a.page i ≡ false
    → Stands a q bs
    → Stands (with_page i a) q bs
Stands-with_page a q i [] h s = tt
Stands-with_page a q i (x ∷ bs) h (e, p, s) =
    let ne : (q / page_size == i) ≡ false = ==_ne (q / page_size) i (λ r. cc) in
    (rw (ne, e), rw (ne, p), Stands-with_page a (suc q) i bs h s)

-- The bytes are copied: `top` is where p was, and they stand from p to it.
abbrev pub After : List ℕ → ℕ → Copied → Type 0
After bs top (copies c) = (c.p + length bs ≡ top) × InPage c × Stands c.pages c.p bs
After bs top no_page = Unit
After bs top runs_below = Unit

put_char-Stands :
    (b top : ℕ) (c : Copy) (bs : List ℕ)
    → c.p + suc (length bs) ≡ top
    → c.p ≡ c.pag * page_size + c.offset
    → c.offset < page_size
    → c.pages.page c.pag ≡ true
    → Stands c.pages (suc c.p) bs
    → After (b ∷ bs) top (copies (put_char b c))
put_char-Stands b top c bs ht hp ho hg s =
    let at = c.pag * page_size + c.offset in
    (
      ht,
      inr (hp, ho, hg),
      (
        subst (λ k. (if k == at then b else c.pages.image k) ≡ b) (sym hp) (rw (==_self at)),
        ap c.pages.page (omega (arith, hp, ho)) ∙ hg,
        Stands-put_char c.pages (suc c.p) at b bs (omega (arith, hp)) s,
      ),
    )

pub After-if :
    (b : Bool) (bs : List ℕ) (top : ℕ) (m n : Copied)
    → (b ≡ true → After bs top m)
    → (b ≡ false → After bs top n)
    → After bs top (if b then m else n)
After-if true bs top m n hm hn = hm refl
After-if false bs top m n hm hn = hn refl

-- The byte below is in the page of the one above, if that is not the first of its page.
same_page :
    (c : Copy)
    → InPage c
    → c.offset ≢ 0
    → (c.p ≡ c.pag * page_size + c.offset) × (c.offset < page_size) × (c.pages.page c.pag ≡ true)
same_page c (inl z) h = absurd (h z)
same_page c (inr s) h = s

pub copy_byte-After :
    (b top : ℕ) (c : Copy) (bs : List ℕ)
    → After bs top (copies c)
    → After (b ∷ bs) top (copy_byte b c)
unfolding copy_byte
copy_byte-After b top c bs (ht, hi, hs) =
    let p = c.p - 1 in
    let i = p / page_size in
    After-if (c.p == 0) (b ∷ bs) top _ _ (λ e. tt)
      λ e.
        let hp : suc p ≡ c.p = ground arith in
        let above = subst (λ q. Stands c.pages q bs) (sym hp) hs in
        let ends : p + suc (length bs) ≡ top = omega (arith, hp, ht) in
        let place : p ≡ i * page_size + p % page_size = omega arith in
        let below : p % page_size < page_size = omega arith in
        After-if (not (c.offset == 0)) (b ∷ bs) top _ _
          (λ o.
            let (h, l, g) = same_page c hi (ground arith) in
            put_char-Stands b top (record c { p = p; offset = c.offset - 1 }) bs ends (ground arith)
              (omega (arith, l)) g above)
          λ o.
            After-if (c.pages.page i) (b ∷ bs) top _ _
              (λ g.
                put_char-Stands b top (record c { p = p; offset = p % page_size; pag = i }) bs ends
                  place below g above)
              λ g.
                After-if (c.pages.free == 0) (b ∷ bs) top _ _ (λ z. tt)
                  λ z.
                    put_char-Stands b top
                      (record {
                        p = p;
                        offset = p % page_size;
                        pag = i;
                        pages = with_page i c.pages;
                      })
                      bs ends place below (rw (==_self i))
                      (Stands-with_page c.pages (suc p) i bs g above)

pub After-and_then :
    (bs bs' : List ℕ) (top : ℕ) (r : Copied) (k : Copy → Copied)
    → After bs top r
    → ((c : Copy) → After bs top (copies c) → After bs' top (k c))
    → After bs' top (and_then r k)
After-and_then bs bs' top (copies c) k h f = f c h
After-and_then bs bs' top no_page k h f = tt
After-and_then bs bs' top runs_below k h f = tt

pub copy_string-After :
    (s : List ℕ) (top : ℕ) (c : Copy) (bs : List ℕ)
    → After bs top (copies c)
    → After (s ++ bs) top (copy_string s c)
unfolding copy_string
copy_string-After [] top c bs h = h
copy_string-After (b ∷ s) top c bs h =
    After-and_then (s ++ bs) (b ∷ s ++ bs) top (copy_string s c) (copy_byte b)
      (copy_string-After s top c bs h) (λ c' h'. copy_byte-After b top c' (s ++ bs) h')

-- The strings one behind the other, each with its NUL, in front of what stands there already.
abbrev pub text : List (List ℕ) → List ℕ → List ℕ
text [] bs = bs
text (s ∷ argv) bs = (s ++ 0 ∷ []) ++ text argv bs

pub copy_each-After :
    (argv : List (List ℕ)) (top : ℕ) (c : Copy) (bs : List ℕ)
    → After bs top (copies c)
    → After (text argv bs) top (copy_each argv c)
unfolding copy_each
copy_each-After [] top c bs h = h
copy_each-After (s ∷ argv) top c bs h =
    After-and_then (text argv bs) (text (s ∷ argv) bs) top (copy_each argv c)
      (copy_string (s ++ 0 ∷ [])) (copy_each-After argv top c bs h)
      (λ c' h'. copy_string-After (s ++ 0 ∷ []) top c' (text argv bs) h')
