-- ===== src/Fs/Pipe/Window.antt =====
-- The bytes of a pipe, oldest first, and what the copying loops do to them.
use mathlib.Core.List.{append_assoc, append-nil}
use rv.Common.{
  ℕ, zero, suc, ◌+◌, ◌%◌, ◌≤◌, ◌<◌, ◌≡◌, ◌≢◌, refl, false, ◌==◌, if◌then◌else◌, List, [], ◌∷◌, ◌++◌,
  length, take, arith, ap, ap₂, ==_self, ==_ne, ◌∙◌,
}
use rv.Fs.Pipe.{Pipe, page_size, pipe_size, put_bytes, get_bytes}

-- The n bytes from the offset h on, round the page.
abbrev pub window : (ℕ → ℕ) → ℕ → ℕ → List ℕ
window page h zero = []
window page h (suc n) = page h ∷ window page ((h + 1) % page_size) n

abbrev pub contents : Pipe → List ℕ
contents p = window p.page p.tail (pipe_size p)

pub length-window : (page : ℕ → ℕ) (h n : ℕ) → length (window page h n) ≡ n
length-window page h zero = refl
length-window page h (suc n) = ap suc (length-window page ((h + 1) % page_size) n)

-- A byte written outside the window.
window-other :
    (page : ℕ → ℕ) (b i h n : ℕ)
    → h < page_size
    → ((k : ℕ) → k < n → i ≢ (h + k) % page_size)
    → window (λ j. if i == j then b else page j) h n ≡ window page h n
window-other page b i h zero lt away = refl
window-other page b i h (suc n) lt away =
    let e : (i == h) ≡ false = ==_ne i h (λ q. away 0 (omega arith) (omega arith)) in
    ap₂ ◌∷◌ (rw e) (
      window-other page b i ((h + 1) % page_size) n (omega arith)
        (λ k l q. away (suc k) (omega arith) (omega arith)))

-- A byte written just behind the window.
window-snoc :
    (page : ℕ → ℕ) (b i h n : ℕ)
    → h < page_size
    → n < page_size
    → i ≡ (h + n) % page_size
    → window (λ j. if i == j then b else page j) h (suc n) ≡ window page h n ++ b ∷ []
window-snoc page b i h zero lt small at = let e : i ≡ h = omega arith in rw (e, ==_self h)
window-snoc page b i h (suc n) lt small at =
    let e : (i == h) ≡ false = ==_ne i h (λ q. omega arith) in
    ap₂ ◌∷◌ (rw e)
      (window-snoc page b i ((h + 1) % page_size) n (omega arith) (omega arith) (omega arith))

-- Writing n bytes behind the window, with no turn round the end of the page, appends them.
pub window-put_bytes :
    (n : ℕ) (page : ℕ → ℕ) (src : List ℕ) (h s pos : ℕ)
    → h < page_size
    → pos ≡ (h + s) % page_size
    → pos + n ≤ page_size
    → s + n < page_size
    → n ≤ length src
    → window (put_bytes n pos src page) h (s + n) ≡ window page h s ++ take n src
unfolding put_bytes
window-put_bytes zero page src h s pos lt at room small enough =
    let e : s + 0 ≡ s = omega arith in rw (e, append-nil)
window-put_bytes (suc n) page [] h s pos lt at room small enough = absurd (omega arith)
window-put_bytes (suc zero) page (b ∷ bs) h s pos lt at room small enough =
    let e : s + 1 ≡ suc s = omega arith in rw e (window-snoc page b pos h s lt (omega arith) at)
window-put_bytes (suc (suc n)) page (b ∷ bs) h s pos lt at room small enough =
    let e : s + suc (suc n) ≡ suc s + suc n = omega arith in
    rw e (
      window-put_bytes (suc n) (λ i. if pos == i then b else page i) bs h (suc s) (pos + 1) lt
        (omega arith) (omega arith) (omega arith) (omega arith)
      ∙ ap (λ l. l ++ take (suc n) bs) (window-snoc page b pos h s lt (omega arith) at)
      ∙ append_assoc (window page h s) (b ∷ []) (take (suc n) bs))

pub window-append :
    (page : ℕ → ℕ) (h n m : ℕ)
    → h < page_size
    → window page h (n + m) ≡ window page h n ++ window page ((h + n) % page_size) m
window-append page h zero m lt =
    let e : 0 + m ≡ m = omega arith in let f : (h + 0) % page_size ≡ h = omega arith in rw (e, f)
window-append page h (suc n) m lt =
    let e : suc n + m ≡ suc (n + m) = omega arith in
    let f : (h + suc n) % page_size ≡ ((h + 1) % page_size + n) % page_size = omega arith in
    rw (e, f) (ap (λ l. page h ∷ l) (window-append page ((h + 1) % page_size) n m (omega arith)))

pub window-get_bytes :
    (n : ℕ) (page : ℕ → ℕ) (pos : ℕ)
    → pos + n ≤ page_size
    → get_bytes n pos page ≡ window page pos n
unfolding get_bytes
window-get_bytes zero page pos room = refl
window-get_bytes (suc zero) page pos room = refl
window-get_bytes (suc (suc n)) page pos room =
    let e : (pos + 1) % page_size ≡ pos + 1 = omega arith in
    rw e (ap (λ l. page pos ∷ l) (window-get_bytes (suc n) page (pos + 1) (omega arith)))
