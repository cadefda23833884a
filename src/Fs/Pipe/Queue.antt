-- ===== src/Fs/Pipe/Queue.antt =====
-- A pipe is a queue of at most 4095 bytes: what read_pipe() and write_pipe() do to it.
use mathlib.Core.List.{append_assoc, append-nil}
use rv.Common.{
  ℕ, zero, suc, ◌+◌, ◌-◌, ◌%◌, ◌≤◌, ◌<◌, ◌≡◌, ◌≢◌, ◌⊎◌, inl, inr, refl, true, ◌==◌, List, [], ◌++◌,
  length, drop, take, arith, ap, sym, ◌∙◌, Bool-cases, take-append-drop, length-drop,
  length-take_of_le, eq-nil_of_length, length-append,
}
use rv.Fs.Pipe.{
  Pipe, page_size, pipe_size, chunk, get_bytes, write_chunk, read_chunk, Written, Read, write_pipe,
  read_pipe,
}
use rv.Fs.Pipe.Window.{
  window, contents, length-window, window-put_bytes, window-append, window-get_bytes,
}

pub record IsPipe (p : Pipe) : Type 0 where
  pub head_in : p.head < page_size
  pub tail_in : p.tail < page_size

chunk-le :
    (room count size : ℕ)
    → (chunk room count size ≤ room)
      × (chunk room count size ≤ count)
      × (chunk room count size ≤ size)
chunk-le room count size = ground arith

chunk-pos : (room count size : ℕ) → 0 < room → 0 < count → 0 < size → 0 < chunk room count size
chunk-pos room count size a b c = ground arith

-- One round of write_pipe().
write_chunk-contents :
    (n : ℕ) (src : List ℕ) (p : Pipe)
    → IsPipe p
    → n ≤ page_size - p.head
    → n ≤ page_size - 1 - pipe_size p
    → n ≤ length src
    → IsPipe (write_chunk n src p) × (contents (write_chunk n src p) ≡ contents p ++ take n src)
unfolding write_chunk
write_chunk-contents n src p v room size enough =
    let e : ((p.head + n) % page_size + page_size - p.tail) % page_size ≡ pipe_size p + n =
      omega (arith, v.head_in, v.tail_in) in
    (
      record { head_in = omega arith; tail_in = v.tail_in },
      rw e (
          window-put_bytes n p.page src p.tail (pipe_size p) p.head v.tail_in
            (omega (arith, v.head_in, v.tail_in)) (omega (arith, v.head_in)) (omega arith) enough),
    )

users-write_chunk : (n : ℕ) (src : List ℕ) (p : Pipe) → (write_chunk n src p).users ≡ p.users
unfolding write_chunk
users-write_chunk n src p = refl

users-read_chunk : (n : ℕ) (p : Pipe) → (read_chunk n p).users ≡ p.users
unfolding read_chunk
users-read_chunk n p = refl

length-get_bytes : (n pos : ℕ) (page : ℕ → ℕ) → length (get_bytes n pos page) ≡ n
unfolding get_bytes
length-get_bytes zero pos page = refl
length-get_bytes (suc n) pos page = ap suc (length-get_bytes n (pos + 1) page)

-- One round of read_pipe().
read_chunk-contents :
    (n : ℕ) (p : Pipe)
    → IsPipe p
    → n ≤ page_size - p.tail
    → n ≤ pipe_size p
    → IsPipe (read_chunk n p)
      × (get_bytes n p.tail p.page ++ contents (read_chunk n p) ≡ contents p)
unfolding read_chunk
read_chunk-contents n p v room size =
    let e : (p.head + page_size - (p.tail + n) % page_size) % page_size ≡ pipe_size p - n =
      omega (arith, v.head_in, v.tail_in) in
    let f : n + (pipe_size p - n) ≡ pipe_size p = omega arith in
    (
      record { head_in = v.head_in; tail_in = omega arith },
      rw (e, window-get_bytes n p.page p.tail (omega (arith, v.tail_in)))
          (sym (window-append p.page p.tail n (pipe_size p - n) v.tail_in)
            ∙ ap (window p.page p.tail) f),
    )

-- What a call of write_pipe() has done when it ends, started with `w` bytes written: some first bytes
-- of the buffer stand behind the old contents, in order, and it says how many. It returns with all of
-- them written; otherwise the pipe is full, and it sleeps while there is a reader and fails if not.
abbrev pub Wrote : Pipe → List ℕ → ℕ → Written → Type 0
Wrote p src w (Written.returns n q) =
    IsPipe q × (q.users ≡ p.users) × (contents q ≡ contents p ++ src) × (n ≡ w + length src)
Wrote p src w (Written.broken n q) =
    (front : List ℕ) × (rest : List ℕ) × IsPipe q
    × (front ++ rest ≡ src)
    × (contents q ≡ contents p ++ front)
    × (n ≡ w + length front)
    × (length rest ≢ 0)
    × (length (contents q) ≡ 4095)
    × (p.users ≢ 2)
Wrote p src w (Written.sleeps n rest q) =
    (front : List ℕ) × IsPipe q
    × (front ++ rest ≡ src)
    × (contents q ≡ contents p ++ front)
    × (n ≡ w + length front)
    × (length rest ≢ 0)
    × (length (contents q) ≡ 4095)
    × (p.users ≡ 2)
Wrote p src w Written.out_of_fuel = ⊥

-- A round before a call that did the rest.
Wrote-after :
    (p p' : Pipe) (src src' c : List ℕ) (w w' : ℕ) (r : Written)
    → p'.users ≡ p.users
    → c ++ src' ≡ src
    → contents p' ≡ contents p ++ c
    → w' ≡ w + length c
    → Wrote p' src' w' r
    → Wrote p src w r
Wrote-after p p' src src' c w w' (Written.returns n q) u s k l (v, u', k', n') = (
  v,
  u' ∙ u,
  k' ∙ ap (λ x. x ++ src') k ∙ append_assoc (contents p) c src' ∙ ap (λ x. contents p ++ x) s,
  omega (arith, ap length s, length-append {0} c src'),
)
Wrote-after p p' src src' c w w' (Written.broken n q) u s k l (f, r, v, a, k', n', z, full, nu) = (
  c ++ f,
  r,
  v,
  append_assoc c f r ∙ ap (λ x. c ++ x) a ∙ s,
  k' ∙ ap (λ x. x ++ f) k ∙ append_assoc (contents p) c f,
  omega (arith, length-append {0} c f),
  z,
  full,
  λ e. nu (u ∙ e),
)
Wrote-after p p' src src' c w w' (Written.sleeps n r q) u s k l (f, v, a, k', n', z, full, nu) = (
  c ++ f,
  v,
  append_assoc c f r ∙ ap (λ x. c ++ x) a ∙ s,
  k' ∙ ap (λ x. x ++ f) k ∙ append_assoc (contents p) c f,
  omega (arith, length-append {0} c f),
  z,
  full,
  sym u ∙ nu,
)
Wrote-after p p' src src' c w w' Written.out_of_fuel u s k l h = h

-- write_pipe() ends, with more fuel than there are bytes, and does to the queue what `Wrote` says.
pub write_pipe-Wrote :
    (fuel : ℕ) (p : Pipe) (src : List ℕ) (w : ℕ)
    → IsPipe p
    → length src < fuel
    → Wrote p src w (write_pipe fuel p src w)
unfolding write_pipe
write_pipe-Wrote zero p src w v enough = absurd (omega arith)
write_pipe-Wrote (suc fuel) p src w v enough = elim (Bool-cases (length src == 0)) [
  | inl none_left ↦
      let e : src ≡ [] = eq-nil_of_length src (ground arith) in
      rw none_left (v, refl, rw (e, append-nil), ground arith)
  | inr more ↦ elim (Bool-cases (page_size - 1 - pipe_size p == 0)) [
    | inl full ↦ elim (Bool-cases (p.users == 2)) [
      | inl reader ↦
          rw (more, full, reader)
            ([], v, refl, rw append-nil, ground arith, ground arith, size full, ground arith)
      | inr alone ↦
          rw (more, full, alone)
            ([], src, v, refl, rw append-nil, ground arith, ground arith, size full, ground arith)
    ]
    | inr room ↦
        let n : ℕ = chunk (page_size - p.head) (length src) (page_size - 1 - pipe_size p) in
        let (a, b, c) = chunk-le (page_size - p.head) (length src) (page_size - 1 - pipe_size p) in
        let pos : 0 < n =
          chunk-pos (page_size - p.head) (length src) (page_size - 1 - pipe_size p)
            (omega (arith, v.head_in)) (ground arith) (ground arith) in
        let (v', k) = write_chunk-contents n src p v a c b in
        rw (more, room)
          (Wrote-after p (write_chunk n src p) src (drop n src) (take n src) w (w + n) _
            (users-write_chunk n src p) (take-append-drop n src) k
            (ap (λ k. w + k) (sym (length-take_of_le n src b)))
            (write_pipe-Wrote fuel (write_chunk n src p) (drop n src) (w + n) v'
              (omega (arith, length-drop n src))))
  ]
]
  where
    size : (page_size - 1 - pipe_size p == 0) ≡ true → length (contents p) ≡ 4095
    size full = length-window p.page p.tail (pipe_size p) ∙ ground arith

-- What a call of read_pipe() has done when it ends, started with `out` read and `count` to go: it has
-- taken some first bytes off the queue, in order. It returns when it has them all, or when the pipe is
-- empty and has no writer; it sleeps while the pipe is empty and has one.
abbrev pub Got : Pipe → ℕ → List ℕ → Read → Type 0
Got p count out (Read.returns o q) =
    (front : List ℕ) × IsPipe q
    × (q.users ≡ p.users)
    × (o ≡ out ++ front)
    × (front ++ contents q ≡ contents p)
    × ((length front ≡ count)
        ⊎ ((length front < count) × (length (contents q) ≡ 0) × (p.users ≢ 2)))
Got p count out (Read.sleeps o left q) =
    (front : List ℕ) × IsPipe q
    × (o ≡ out ++ front)
    × (front ++ contents q ≡ contents p)
    × (length front + left ≡ count)
    × (left ≢ 0)
    × (length (contents q) ≡ 0)
    × (p.users ≡ 2)
Got p count out Read.out_of_fuel = ⊥

Got-after :
    (p p' : Pipe) (count count' : ℕ) (out c : List ℕ) (r : Read)
    → p'.users ≡ p.users
    → c ++ contents p' ≡ contents p
    → length c + count' ≡ count
    → Got p' count' (out ++ c) r
    → Got p count out r
Got-after p p' count count' out c (Read.returns o q) u k l (f, v, u', o', k', e) = (
  c ++ f,
  v,
  u' ∙ u,
  o' ∙ append_assoc out c f,
  append_assoc c f (contents q) ∙ ap (λ x. c ++ x) k' ∙ k,
  either e,
)
  where
    either :
        ((length f ≡ count') ⊎ ((length f < count') × (length (contents q) ≡ 0) × (p'.users ≢ 2)))
        → (length (c ++ f) ≡ count)
          ⊎ ((length (c ++ f) < count) × (length (contents q) ≡ 0) × (p.users ≢ 2))
    either (inl h) = inl (omega (arith, length-append {0} c f))
    either (inr (h, z, n)) = inr (omega (arith, length-append {0} c f), z, λ e. n (u ∙ e))
Got-after p p' count count' out c (Read.sleeps o left q) u k l (f, v, o', k', e, z, em, two) = (
  c ++ f,
  v,
  o' ∙ append_assoc out c f,
  append_assoc c f (contents q) ∙ ap (λ x. c ++ x) k' ∙ k,
  omega (arith, length-append {0} c f),
  z,
  em,
  sym u ∙ two,
)
Got-after p p' count count' out c Read.out_of_fuel u k l h = h

-- read_pipe() ends, with more fuel than bytes are asked for, and does to the queue what `Got` says.
pub read_pipe-Got :
    (fuel : ℕ) (p : Pipe) (count : ℕ) (out : List ℕ)
    → IsPipe p
    → count < fuel
    → Got p count out (read_pipe fuel p count out)
unfolding read_pipe
read_pipe-Got zero p count out v enough = absurd (omega arith)
read_pipe-Got (suc fuel) p count out v enough = elim (Bool-cases (count == 0)) [
  | inl none_left ↦ rw none_left ([], v, refl, sym (append-nil out), refl, inl (ground arith))
  | inr more ↦ elim (Bool-cases (pipe_size p == 0)) [
    | inl bare ↦ elim (Bool-cases (p.users == 2)) [
      | inl writer ↦
          rw (more, bare, writer)
            ([], v, sym (append-nil out), refl, omega arith, ground arith, size bare, ground arith)
      | inr alone ↦
          rw (more, bare, alone)
            ([], v, refl, sym (append-nil out), refl, inr (ground arith, size bare, ground arith))
    ]
    | inr some_bytes ↦
        let n : ℕ = chunk (page_size - p.tail) count (pipe_size p) in
        let (a, b, c) = chunk-le (page_size - p.tail) count (pipe_size p) in
        let pos : 0 < n =
          chunk-pos (page_size - p.tail) count (pipe_size p) (omega (arith, v.tail_in))
            (ground arith) (ground arith) in
        let (v', k) = read_chunk-contents n p v a c in
        rw (more, some_bytes)
          (Got-after p (read_chunk n p) count (count - n) out (get_bytes n p.tail p.page) _
            (users-read_chunk n p) k (omega (arith, length-get_bytes n p.tail p.page))
            (read_pipe-Got fuel (read_chunk n p) (count - n) (out ++ get_bytes n p.tail p.page) v'
              (omega arith)))
  ]
]
  where
    size : (pipe_size p == 0) ≡ true → length (contents p) ≡ 0
    size bare = length-window p.page p.tail (pipe_size p) ∙ ground arith
