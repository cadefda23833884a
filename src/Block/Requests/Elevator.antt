-- ===== src/Block/Requests/Elevator.antt =====
-- kernel/blk_drv/ll_rw_blk.c, add_request(): the order in which requests are served.
use rv.Common.{
  ℕ, zero, suc, ◌≡◌, refl, ◌⊎◌, inl, inr, Bool, true, false, not, ◌&&◌, ◌||◌, List, [], ◌∷◌, ◌++◌,
  Bool-cases, All, ap,
}
use rv.Block.Requests.{Request, in_order, insert_after, add_request}

-- From r on the list is in order but for at most n places, where a new sweep begins.
abbrev pub Sweeps : ℕ → Request → List Request → Type 0
Sweeps n r [] = Unit
Sweeps zero r (s ∷ l) = (in_order r s ≡ true) × Sweeps zero s l
Sweeps (suc n) r (s ∷ l) = ((in_order r s ≡ true) × Sweeps (suc n) s l) ⊎ Sweeps n s l

-- A queue that is served in two sweeps at most.
abbrev pub IsElevator : List Request → Type 0
IsElevator [] = Unit
IsElevator (r ∷ l) = Sweeps 1 r l

-- The two requests differ in their command, device or sector.
abbrev pub Differs : Request → Request → Type 0
Differs req r = (in_order r req ≡ true) ⊎ (in_order req r ≡ true)

&&-right : (a b : Bool) → (a && b) ≡ true → b ≡ true
&&-right true b h = h
&&-right false b h = cc

here-true : (a b c : Bool) → b ≡ false → c ≡ true → ((a || not b) && c) ≡ true
here-true true b c h k = k
here-true false true c h k = cc
here-true false false c h k = k

Sweeps-weaken : (r : Request) (l : List Request) → Sweeps 0 r l → Sweeps 1 r l
Sweeps-weaken r [] h = tt
Sweeps-weaken r (s ∷ l) h = inl (h.0, Sweeps-weaken s l h.1)

insert_after-Sweeps_once :
    (tmp req : Request) (l : List Request)
    → All (Differs req) l
    → in_order tmp req ≡ true
    → Sweeps 0 tmp l
    → Sweeps 0 tmp (insert_after tmp l req)
unfolding insert_after
insert_after-Sweeps_once tmp req [] d h s = (h, tt)
insert_after-Sweeps_once tmp req (next ∷ l) d h s = elim (Bool-cases (in_order req next)) [
  | inl before ↦ rw (h, before) (h, (before, s.1))
  | inr behind ↦ elim d.0 [
    | inl after ↦ rw (h, behind) (s.0, insert_after-Sweeps_once next req l d.1 after s.1)
    | inr before ↦ cc
  ]
]

insert_after-Sweeps :
    (tmp req : Request) (l : List Request)
    → All (Differs req) l
    → Sweeps 1 tmp l
    → Sweeps 1 tmp (insert_after tmp l req)
unfolding insert_after
insert_after-Sweeps tmp req [] d s = inr tt
insert_after-Sweeps tmp req (next ∷ l) d s =
    elim (Bool-cases ((in_order tmp req || not (in_order tmp next)) && in_order req next)) [
      | inl here ↦ rw here (put s (Bool-cases (in_order tmp req)) here)
      | inr later ↦ rw later (pass s (insert_after-Sweeps next req l d.1) later)
    ]
  where
    put :
        Sweeps 1 tmp (next ∷ l)
        → (in_order tmp req ≡ true) ⊎ (in_order tmp req ≡ false)
        → ((in_order tmp req || not (in_order tmp next)) && in_order req next) ≡ true
        → Sweeps 1 tmp (req ∷ next ∷ l)
    put (inl s) (inl lo) here = inl (lo, inl (&&-right _ _ here, s.1))
    put (inl s) (inr hi) here = cc (s.0, hi, rw (hi, s.0) at here)
    put (inr s) lo here = inr (&&-right _ _ here, s)

    pass :
        Sweeps 1 tmp (next ∷ l)
        → (Sweeps 1 next l → Sweeps 1 next (insert_after next l req))
        → ((in_order tmp req || not (in_order tmp next)) && in_order req next) ≡ false
        → Sweeps 1 tmp (next ∷ insert_after next l req)
    pass (inl s) rest later = inl (s.0, rest s.1)
    pass (inr s) rest later = elim (Bool-cases (in_order tmp next)) [
      | inl up ↦ inl (up, rest (Sweeps-weaken next l s))
      | inr down ↦ elim d.0 [
        | inl after ↦ inr (insert_after-Sweeps_once next req l d.1 after s)
        | inr lo ↦
            cc (later, here-true (in_order tmp req) (in_order tmp next) (in_order req next) down lo)
      ]
    ]

-- The queue with a request in it: where the queue is not empty, the request being served stays first,
-- and the request is put somewhere behind it.
abbrev pub Inserts : List Request → Request → List Request → Type 0
Inserts [] req r = r ≡ req ∷ []
Inserts (now ∷ l) req r =
    (before : List Request) × (after : List Request) × (l ≡ before ++ after)
    × (r ≡ now ∷ (before ++ (req ∷ after)))

insert_after-Inserts :
    (tmp req : Request) (l : List Request)
    → (before : List Request) × (after : List Request) × (l ≡ before ++ after)
      × (insert_after tmp l req ≡ before ++ (req ∷ after))
unfolding insert_after
insert_after-Inserts tmp req [] = ([], [], refl, refl)
insert_after-Inserts tmp req (next ∷ l) =
    elim (Bool-cases ((in_order tmp req || not (in_order tmp next)) && in_order req next)) [
      | inl here ↦ ([], next ∷ l, refl, rw here)
      | inr later ↦
          let (b, a, e, r) = insert_after-Inserts next req l in
          (next ∷ b, a, ap (λ l. next ∷ l) e, rw (later, r))
    ]

-- A queue that is served in two sweeps at most still is when a request is added that differs from all
-- that wait in it; nothing else changes, and the request being served stays first.
pub add_request-IsElevator :
    (q : List Request) (req : Request)
    → IsElevator q
    → All (Differs req) q
    → IsElevator (add_request q req) × Inserts q req (add_request q req)
unfolding add_request
add_request-IsElevator [] req e d = (tt, refl)
add_request-IsElevator (now ∷ l) req e d =
    let (b, a, p, r) = insert_after-Inserts now req l in
    (insert_after-Sweeps now req l d.1 e, (b, a, p, ap (λ l. now ∷ l) r))
