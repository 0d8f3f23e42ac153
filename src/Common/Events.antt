-- ===== src/Common/Events.antt =====
-- Which of the pending callbacks of src/common comes next is not determined: a schedule is a list of
-- events, and an event that cannot happen ends it.
use azurite.Prelude.{
  ℕ, suc, ◌≡◌, Option, none, some, List, [], ◌∷◌, ◌++◌, arith, if◌then◌else◌, ◌==◌, length,
}
use mathlib.Core.Path.{subst}
use mathlib.Core.List.{append_assoc, append-nil}

-- The first occurrence taken out.
unfoldable pub without : ℕ → List ℕ → Option (List ℕ)
without x [] = none
without x (y ∷ ys) =
    let rest = without x ys in
    if y == x then some ys else elim rest [ none ↦ none | some zs ↦ some (y ∷ zs) ]

-- One less than `ys`.
abbrev pub IsOneLess : List ℕ → Option (List ℕ) → Type 0
IsOneLess ys none = Unit
IsOneLess ys (some zs) = length ys ≡ suc (length zs)

without-IsOneLess : (x : ℕ) (ys : List ℕ) → IsOneLess ys (without x ys)
unfolding without
without-IsOneLess x [] = tt
without-IsOneLess x (y ∷ ys) = ground (arith, without-IsOneLess x ys)

pub length-without :
    (x : ℕ) (ys : List ℕ) {zs : List ℕ} → without x ys ≡ some zs → length ys ≡ suc (length zs)
length-without x ys {zs = zs} e = ground (arith, e, without-IsOneLess x ys)

-- What holds of the result, if there is one.
abbrev pub Leads {ℓ} : {A : Type ℓ} → (A → Type 0) → Option A → Type 0
Leads P none = Unit
Leads P (some a) = P a

module _ {State Event : Type 0} (step : State → Event → Option State) where
  unfoldable pub run : State → List Event → Option State
  run s [] = some s
  run s (e ∷ es) = elim (step s e) [ none ↦ none | some s' ↦ run s' es ]

pub weaken-Leads {ℓ} :
    {A : Type ℓ} {P Q : A → Type 0} (o : Option A) → ((a : A) → P a → Q a) → Leads P o → Leads Q o
weaken-Leads none h p = tt
weaken-Leads (some a) h p = h a p

pub both-Leads {ℓ} :
    {A : Type ℓ} {P Q R : A → Type 0} (o : Option A)
    → ((a : A) → P a → Q a → R a)
    → Leads P o
    → Leads Q o
    → Leads R o
both-Leads none h p q = tt
both-Leads (some a) h p q = h a p q

pub read_Leads {ℓ} :
    {A : Type ℓ} (P : A → Type 0) (o : Option A) (a : A) → o ≡ some a → Leads P o → P a
read_Leads P o a e l = subst (Leads P) e l

module _ {State Event : Type 0} (step : State → Event → Option State)
    (Invariant : List Event → State → Type 0)
    (kept : (es : List Event) (s : State) (e : Event)
      → Invariant es s
      → Leads (Invariant (es ++ e ∷ [])) (step s e)) where
  -- An invariant of the events so far and the state.
  pub run-Leads :
      (before : List Event) (s : State) (es : List Event)
      → Invariant before s
      → Leads (Invariant (before ++ es)) (run step s es)
  unfolding run
  run-Leads before s [] v = rw (append-nil before) v
  run-Leads before s (e ∷ es) v =
      next (λ s' l. run-Leads (before ++ e ∷ []) s' es l) (step s e) (kept before s e v)
    where
      next :
          ((s' : State)
            → Invariant (before ++ e ∷ []) s'
            → Leads (Invariant ((before ++ e ∷ []) ++ es)) (run step s' es))
          → (o : Option State) → Leads (Invariant (before ++ e ∷ [])) o
          → Leads (Invariant (before ++ e ∷ es)) (elim o [ none ↦ none | some s' ↦ run step s' es ])
      next after none l = tt
      next after (some s') l = rw (← append_assoc before (e ∷ []) es) (after s' l)
