-- ===== src/Fs/Vfs/Turns.antt =====
-- The counts of the inode table before and after a call.
use rv.Common.{
  ℕ, ◌+◌, ◌%◌, ◌^◌, ◌≡◌, refl, ap, Option, none, some, Bool, true, false, ◌==◌, if◌then◌else◌,
  arith, ◌≢◌, subst, sym, ◌∙◌, inl, inr, Bool-cases, ==_iff,
}
use rv.Fs.Vfs.{
  Vfs, Slot, Call, pure, panic, when, gets, if_null, continue, ◌>>=◌, update, slot, on_volume,
  on_disk, get_super, Volume, ref_up, ref_down, put_volume,
}
use rv.Fs.Inode.{Disk}

abbrev pub Counts : Type 0
Counts = ℕ → ℕ

-- The state counts the references f, in unsigned shorts.
abbrev pub Agrees : Counts → Vfs → Type 0
Agrees f s = (j : ℕ) → (s.table j).i_count ≡ f j % 2 ^ 16

-- One reference more to a slot.
abbrev pub bump : ℕ → Counts → Counts
bump i f j = if i == j then f j + 1 else f j

abbrev pub Ends : {A : Type 0} → (A → Counts) → Option (A × Vfs) → Type 0
Ends g none = Unit
Ends g (some (a, s)) = Agrees (g a) s

-- Where the call returns, the references f have become those that g gives for the result.
pub record Turns {A : Type 0} (f : Counts) (g : A → Counts) (m : Call A) : Type 0 where
  pub at : (s : Vfs) → Agrees f s → Ends g (m s)

module _ {A : Type 0} {f : Counts} {g : A → Counts} where
  pub Turns-panic : Turns f g panic
  unfolding panic
  Turns-panic = record { at = λ s h. tt }

  pub Turns-if :
      (b : Bool) (m n : Call A) → Turns f g m → Turns f g n → Turns f g (if b then m else n)
  Turns-if true m n hm hn = hm
  Turns-if false m n hm hn = hn

  -- The branches may use the outcome of the test.
  pub Turns-if_of :
      (b : Bool) (m n : Call A)
      → (b ≡ true → Turns f g m)
      → (b ≡ false → Turns f g n)
      → Turns f g (if b then m else n)
  Turns-if_of true m n hm hn = hm refl
  Turns-if_of false m n hm hn = hn refl

  pub Turns-same : {f' : Counts} {m : Call A} → ((j : ℕ) → f' j ≡ f j) → Turns f g m → Turns f' g m
  Turns-same e h = record { at = λ s p. h.at s (λ j. p j ∙ ap (λ n. n % 2 ^ 16) (e j)) }

module _ {f : Counts} where
  pub Turns-when : (b : Bool) (m : Call Unit) → Turns f (λ _. f) m → Turns f (λ _. f) (when b m)
  unfolding when pure
  Turns-when true m h = h
  Turns-when false m h = record { at = λ s p. p }

module _ {A : Type 0} {g : A → Counts} where
  pub Turns-pure : (a : A) → Turns (g a) g (pure a)
  unfolding pure
  Turns-pure a = record { at = λ s h. h }

module _ {A : Type 0} {f : Counts} where
  pub Turns-gets : (h : Vfs → A) → Turns f (λ _. f) (gets h)
  unfolding gets
  Turns-gets h = record { at = λ s p. p }

module _ {A B : Type 0} {f : Counts} {g : B → Counts} where
  pub Turns-null :
      (o : Option A) (m : Call B) (k : A → Call B)
      → Turns f g m
      → ((a : A) → Turns f g (k a))
      → Turns f g (if_null o m k)
  unfolding if_null
  Turns-null none m k hm hk = hm
  Turns-null (some a) m k hm hk = hk a

-- One reference more to the inode, if there is one.
abbrev pub held : Counts → Option ℕ → Counts
held f none = f
held f (some i) = bump i f

module _ {B : Type 0} {f : Counts} {g : B → Counts} where
  pub Turns-held :
      (o : Option ℕ) (m : Call B) (k : ℕ → Call B)
      → Turns f g m
      → ((i : ℕ) → Turns (bump i f) g (k i))
      → Turns (held f o) g (if_null o m k)
  unfolding if_null
  Turns-held none m k hm hk = hm
  Turns-held (some i) m k hm hk = hk i

module _ {A B : Type 0} {g : A → Counts} {h : B → Counts} where
  Ends-continue :
      (r : Option (A × Vfs)) (k : A → Call B)
      → ((a : A) → Turns (g a) h (k a))
      → Ends g r
      → Ends h (continue r k)
  Ends-continue none k hk p = tt
  Ends-continue (some (a, s)) k hk p = (hk a).at s p

  pub Turns-bind :
      {f : Counts} (m : Call A) (k : A → Call B)
      → Turns f g m
      → ((a : A) → Turns (g a) h (k a))
      → Turns f h (m >>= k)
  unfolding ◌>>=◌
  Turns-bind m k hm hk = record { at = λ s p. Ends-continue (m s) k hk (hm.at s p) }

module _ {B : Type 0} {f : Counts} {h : B → Counts} where
  -- The rest of the call may use that the count of x is that of the slot.
  pub Turns-bind-slot :
      (i : ℕ) (k : Slot → Call B)
      → ((x : Slot) → x.i_count ≡ f i % 2 ^ 16 → Turns f h (k x))
      → Turns f h (slot i >>= k)
  unfolding slot ◌>>=◌
  Turns-bind-slot i k hk = record { at = λ s p. (hk (s.table i) (p i)).at s p }

  pub Turns-then :
      {A : Type 0} (m : Call A) (k : A → Call B)
      → Turns f (λ _. f) m
      → ((a : A) → Turns f h (k a))
      → Turns f h (m >>= k)
  Turns-then m k hm hk = Turns-bind m k hm hk

module _ {f : Counts} where
  -- The count of one slot is rewritten.
  pub Turns-count :
      (g : Counts) (i : ℕ) (h : Slot → Slot)
      → ((x : Slot) → x.i_count ≡ f i % 2 ^ 16 → (h x).i_count ≡ g i % 2 ^ 16)
      → ((j : ℕ) → i ≢ j → f j ≡ g j)
      → Turns f (λ _. g) (update i h)
  unfolding update
  Turns-count g i h here there = record {
    at = λ s p j. elim (Bool-cases (i == j)) [
      | inl e ↦
          rw (e)
            (subst (λ k. (h (s.table i)).i_count ≡ g k % 2 ^ 16) ((==_iff i j).0 e) (here _ (p i)))
      | inr e ↦ rw (e, sym (there j (ground arith))) (p j)
    ];
  }

  pub Turns-update :
      (i : ℕ) (h : Slot → Slot)
      → ((x : Slot) → (h x).i_count ≡ x.i_count)
      → Turns f (λ _. f) (update i h)
  Turns-update i h e = Turns-count f i h (λ x p. e x ∙ p) (λ j n. refl)

  pub Turns-up : (i : ℕ) → Turns f (λ _. bump i f) (update i ref_up)
  Turns-up i = Turns-count (bump i f) i ref_up (λ x p. ground arith) (λ j n. ground arith)

module _ {f : Counts} where
  pub Turns-down : (i : ℕ) → Turns (bump i f) (λ _. f) (update i ref_down)
  Turns-down i = Turns-count f i ref_down (λ x p. ground arith) (λ j n. ground arith)

module _ {A : Type 0} (f : Counts) where
  keeps_volume :
      (dev : ℕ) (s : Vfs) (r : Option (A × Volume))
      → Agrees f s
      → Ends
          (λ _. f)
          (elim r [
            | none ↦ none
            | some (a, v') ↦ some (a, record s { super_block = put_volume dev v' s.super_block })
          ])
  keeps_volume dev s none p = tt
  keeps_volume dev s (some (a, v)) p = p

  keeps_volumes :
      (dev : ℕ) (op : Volume → Option (A × Volume)) (s : Vfs) (v : Option Volume)
      → Agrees f s
      → Ends
          (λ _. f)
          (elim v [
            | none ↦ none
            | some v ↦ elim (op v) [
              | none ↦ none
              | some (a, v') ↦ some (a, record s { super_block = put_volume dev v' s.super_block })
            ]
          ])
  keeps_volumes dev op s none p = tt
  keeps_volumes dev op s (some v) p = keeps_volume dev s (op v) p

module _ {A : Type 0} {f : Counts} where
  pub Turns-on_volume :
      (dev : ℕ) (op : Volume → Option (A × Volume)) → Turns f (λ _. f) (on_volume dev op)
  unfolding on_volume
  Turns-on_volume dev op = record {
    at = λ s p. keeps_volumes f dev op s (get_super dev s.super_block) p;
  }

  pub Turns-on_disk : (dev : ℕ) (op : Disk → Option (A × Disk)) → Turns f (λ _. f) (on_disk dev op)
  unfolding on_disk
  Turns-on_disk dev op = Turns-on_volume dev _
