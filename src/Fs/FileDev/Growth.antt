-- ===== src/Fs/FileDev/Growth.antt =====
-- fs/file_dev.c, file_write(): the rounds of its loop, how far it comes and why it stops.
use rv.Common.{
  ℕ, zero, suc, ◌+◌, ◌-◌, ◌/◌, ◌≤◌, ◌<◌, ◌≡◌, refl, sym, subst, ap, ◌∙◌, ◌⊎◌, inl, inr, Option,
  none, some, Bool, false, ◌==◌, not, ◌||◌, if◌then◌else◌, List, [], ◌++◌, length, length-drop,
  take-append-drop, eq-nil_of_length, take, drop, arith, Bool-cases, Option-cases,
}
use rv.Fs.Inode.{Disk, create_block}
use rv.Fs.FileDev.{
  block_size, chars_of, write_loop, file_write, FileWrite, writes, panics_in_write, Node, grow,
}
use rv.Fs.FileDev.Bytes.{AreBytes, drop-AreBytes}
use rv.Fs.FileDev.Rounds.{
  IsRound, Rounds, stay, round, IsStuck, bad-block, fits, taken, next, next-IsRound,
}

abbrev pub grown_to : ℕ → ℕ → ℕ → ℕ
grown_to pos count size = if count == 0 then size else grow (pos + count) size

-- How the writing of `buf` from p on ends: over a block that create_block() knows no place for; or
-- with `rest` left, which is nothing or stands at a position that is stuck.
abbrev pub IsLoop : ℕ → List ℕ → Node → Option (List ℕ × ℕ × Node) → Type 0
IsLoop p buf n none =
    (rest : List ℕ) × (m : Node) × Rounds p buf n rest m
    × (0 < length rest)
    × (length rest ≤ length buf)
    × (create_block m.zones ((p + (length buf - length rest)) / block_size) m.disk ≡ none)
IsLoop p buf n (some (rest, pos', n')) =
    (length rest ≤ length buf)
    × (pos' ≡ p + (length buf - length rest))
    × (n'.i_size ≡ grown_to p (length buf - length rest) n.i_size)
    × (((rest ≡ []) × Rounds p buf n [] n')
        ⊎ ((m : Node) × Rounds p buf n rest m × (0 < length rest) × IsStuck pos' m n'))

IsLoop-round :
    (p : ℕ) (buf bs more : List ℕ) (n n1 : Node) (r : Option (List ℕ × ℕ × Node))
    → buf ≡ bs ++ more
    → length buf ≡ length bs + length more
    → IsRound p bs n n1
    → n1.i_size ≡ grow (p + length bs) n.i_size
    → IsLoop (p + length bs) more n1 r
    → IsLoop p buf n r
IsLoop-round p buf bs more n n1 none e l h s (rest, m, rs, lt, le, z) =
    let q : p + length bs + (length more - length rest) ≡ p + (length buf - length rest) =
      omega (arith, l) in
    (rest, m, round bs more n1 e h rs, lt, omega (arith, l), rw q at z)
IsLoop-round p buf bs more n n1 (some (rest, pos', n')) e l h s (le, q, size, stop) = (
  omega (arith, l),
  omega (arith, l),
  size
      ∙ ap (grown_to (p + length bs) (length more - length rest)) s
      ∙ sizes (length bs) (length more - length rest) (length buf - length rest) h.some_bytes
          (omega (arith, l)),
  elim stop [
    | inl (nil, rs) ↦ inl (nil, round bs more n1 e h rs)
    | inr (m, rs, lt, st) ↦ inr (m, round bs more n1 e h rs, lt, st)
  ],
)
  where
    sizes :
        (a b c : ℕ)
        → 0 < a
        → c ≡ a + b
        → grown_to (p + a) b (grow (p + a) n.i_size) ≡ grown_to p c n.i_size
    sizes a b c lt e = ground arith

stays-size : (p : ℕ) (buf : List ℕ) (size : ℕ) → size ≡ grown_to p (length buf - length buf) size
stays-size p buf size = let e : length buf - length buf ≡ 0 = omega arith in rw e

IsLoop-done : (p : ℕ) (buf : List ℕ) (n : Node) → length buf ≡ 0 → IsLoop p buf n (some (buf, p, n))
IsLoop-done p buf n e =
    let nil : buf ≡ [] = eq-nil_of_length buf e in
    (
      omega arith,
      omega arith,
      stays-size p buf n.i_size,
      inl (nil, subst (λ l. Rounds p buf n l n) nil stay),
    )

module _ (p : ℕ) (buf : List ℕ) (n : Node) (block : ℕ) (zones : List ℕ) (d : Disk)
    (ok : AreBytes buf) (more : (length buf == 0) ≡ false)
    (z : create_block n.zones (p / block_size) n.disk ≡ some ((block, zones), d))
    (good : (block == 0 || not (d.readable block)) ≡ false) where
  abbrev round_size : ℕ
  round_size = chars_of p (length buf)

  abbrev after_round : Node
  after_round = next p buf n block zones d ok more z good

  next-IsLoop :
      (r : Option (List ℕ × ℕ × Node))
      → IsLoop (p + round_size) (drop round_size buf) after_round r
      → IsLoop p buf n r
  next-IsLoop r h =
      IsLoop-round p buf (take round_size buf) (drop round_size buf) n after_round r
        (sym (take-append-drop round_size buf))
        (omega (
          arith,
          (taken p buf n block zones d ok more z good),
          length-drop round_size buf,
          (fits p buf n block zones d ok more z good).0,
        ))
        (next-IsRound p buf n block zones d ok more z good)
        (rw (taken p buf n block zones d ok more z good) refl)
        (rw (taken p buf n block zones d ok more z good) h)

write_loop-IsLoop :
    (fuel : ℕ) (buf : List ℕ) (pos : ℕ) (n : Node)
    → length buf ≤ fuel
    → AreBytes buf
    → IsLoop pos buf n (write_loop fuel buf pos n)
unfolding write_loop
write_loop-IsLoop zero buf pos n le ok = IsLoop-done pos buf n (omega arith)
write_loop-IsLoop (suc fuel) buf pos n le ok = elim (Bool-cases (length buf == 0)) [
  | inl e ↦ rw (e, write_loop) (IsLoop-done pos buf n (ground arith))
  | inr more ↦ elim (Option-cases (create_block n.zones (pos / block_size) n.disk)) [
    | inl big ↦
        let here : pos + (length buf - length buf) ≡ pos = omega arith in
        rw (more, big, write_loop) (buf, n, stay, ground arith, omega arith, rw here big)
    | inr (((block, zones), d), z) ↦ elim (Bool-cases (block == 0 || not (d.readable block))) [
      | inl stop ↦
          rw (more, z, stop, write_loop)
            (
              omega arith,
              omega arith,
              stays-size pos buf n.i_size,
              inr (
                n,
                stay,
                ground arith,
                (block, zones, d, z, bad-block block (d.readable block) stop, refl),
              ),
            )
      | inr good ↦
          let c = chars_of pos (length buf) in
          let l = length-drop c buf in
          let some_left = (fits pos buf n block zones d ok more z good).1 in
          rw (more, z, good, write_loop)
            (next-IsLoop pos buf n block zones d ok more z good _ (
              write_loop-IsLoop fuel (drop c buf) (pos + c)
                (next pos buf n block zones d ok more z good) (omega (arith, l, some_left, le))
                (drop-AreBytes c buf ok)))
    ]
  ]
]

-- The outcome of file_write() of the bytes buf from `pos` on.
abbrev pub IsFileWrite : Bool → ℕ → ℕ → List ℕ → Node → FileWrite → Type 0
IsFileWrite append f_pos pos buf n (writes c f_pos' n') =
    (c ≤ length buf)
    × (f_pos' ≡ (if append then f_pos else pos + c))
    × (n'.i_size ≡ grown_to pos c n.i_size)
    × (((c ≡ length buf) × Rounds pos buf n [] n')
        ⊎ ((rest : List ℕ) × (m : Node) × Rounds pos buf n rest m
            × (0 < length rest)
            × (c + length rest ≡ length buf)
            × IsStuck (pos + c) m n'))
IsFileWrite append f_pos pos buf n panics_in_write = IsLoop pos buf n none

-- file_write() of bytes starts at the end of the file with O_APPEND and at f_pos otherwise. It writes
-- them in rounds, each into the block that create_block() gives for the position that is reached, where
-- no byte but those of the round changes: see `IsRound`. It writes all the bytes, or up to a position
-- at which create_block() then gives no block or one that cannot be read; the file grows to the end of
-- what is written if that is past its end, and f_pos goes there unless O_APPEND is set. It panics only
-- at a position that is reached, with bytes left, for which create_block() knows no place.
pub file_write-IsFileWrite :
    (append : Bool) (buf : List ℕ) (f_pos : ℕ) (n : Node)
    → AreBytes buf
    → IsFileWrite append f_pos
        (if append then n.i_size else f_pos)
        buf
        n
        (file_write append buf f_pos n)
unfolding file_write
file_write-IsFileWrite append buf f_pos n ok =
    result (if append then n.i_size else f_pos)
      (write_loop (length buf) buf (if append then n.i_size else f_pos) n)
      (write_loop-IsLoop (length buf) buf (if append then n.i_size else f_pos) n (omega arith) ok)
  where
    result :
        (pos : ℕ) (r : Option (List ℕ × ℕ × Node))
        → IsLoop pos buf n r
        → IsFileWrite append f_pos pos buf n (elim r [
          | none ↦ panics_in_write
          | some (rest, pos', n') ↦
              writes (length buf - length rest) (if append then f_pos else pos') n'
        ])
    result pos none h = h
    result pos (some (rest, pos', n')) (l, e, s, inl (nil, rs)) =
        let q : length rest ≡ 0 = ap length nil in
        (omega arith, rw e refl, s, inl (omega (arith, q), rs))
    result pos (some (rest, pos', n')) (l, e, s, inr (m, rs, lt, st)) =
        (omega arith, rw e refl, s, inr (rest, m, rs, lt, omega (arith, l), rw e at st))
