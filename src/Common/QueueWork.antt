-- ===== src/Common/QueueWork.antt =====
-- How long a run of an OperationQueue (src/common/persistence/OperationQueue.ts) can be.
use azurite.Prelude.{
  ℕ, zero, suc, ◌+◌, ◌*◌, ◌≤◌, ◌≡◌, refl, ap, inl, inr, Bool, none, some, List, [], ◌∷◌, ◌++◌,
  arith, length, Option-cases,
}
use azurite.Prelude.{length-snoc}
use azurite.Common.Events.{without, length-without, Leads, weaken-Leads}
use azurite.Common.OperationQueue.{
  Queue, call_head, execute, operate, complete, next_tick, QueueEvent, operates, completes, ticks,
  step,
}

-- The operations of the calls of operate.
abbrev pub submitted : List QueueEvent → List ℕ
submitted [] = []
submitted (operates id ∷ es) = id ∷ submitted es
submitted (completes id resolved ∷ es) = submitted es
submitted (ticks ∷ es) = submitted es

pub submitted-append :
    (ds es : List QueueEvent) → submitted (ds ++ es) ≡ submitted ds ++ submitted es
submitted-append [] es = refl
submitted-append (operates id ∷ ds) es = ap (λ l. id ∷ l) (submitted-append ds es)
submitted-append (completes id resolved ∷ ds) es = submitted-append ds es
submitted-append (ticks ∷ ds) es = submitted-append ds es

-- How many events are still to come if operate is not called again.
abbrev pub work : Queue → ℕ
work q = 3 * length q.operations + 2 * length q.in_flight + q.next_ticks

work-call_head : (q : Queue) (ops : List ℕ) → q.operations ≡ ops → work (call_head q ops) ≤ work q
work-call_head q [] e = omega arith
work-call_head q (head ∷ rest) e = ground (arith, e, length-snoc q.in_flight head)

work-execute : (q : Queue) → work (execute q) ≤ work q
unfolding execute
work-execute q = ground (arith, work-call_head q q.operations refl)

work-complete :
    (q : Queue) (id : ℕ) (resolved : Bool)
    → Leads (λ r. work r + 1 ≤ work q) (complete q id resolved)
unfolding complete
work-complete q id resolved = elim (Option-cases (without id q.in_flight)) [
  | inl e ↦ rw (complete, e) tt
  | inr (others, e) ↦ rw (complete, e) (omega (arith, length-without id q.in_flight e))
]

work-next_tick : (q : Queue) → Leads (λ r. work r + 1 ≤ work q) (next_tick q)
unfolding next_tick
work-next_tick q = due q.next_ticks refl
  where
    due :
        (n : ℕ)
        → q.next_ticks ≡ n
        → Leads
            (λ r. work r + 1 ≤ work q)
            (elim n [ zero ↦ none | suc n' ↦ some (execute (record q { next_ticks = n' })) ])
    due zero e = tt
    due (suc n) e = omega (arith, e, work-execute (record q { next_ticks = n }))

pub work-step :
    (q : Queue) (e : QueueEvent)
    → Leads (λ r. work r + 1 ≤ work q + 4 * length (submitted (e ∷ []))) (step q e)
unfolding step operate
work-step q (operates id) = omega (
  arith,
  work-execute (record q { operations = q.operations ++ id ∷ [] }),
  length-snoc q.operations id,
)
work-step q (completes id resolved) =
    weaken-Leads (complete q id resolved) (λ r h. omega (arith, h)) (work-complete q id resolved)
work-step q ticks = weaken-Leads (next_tick q) (λ r h. omega (arith, h)) (work-next_tick q)
