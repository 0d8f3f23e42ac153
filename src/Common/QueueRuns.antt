-- ===== src/Common/QueueRuns.antt =====
-- Any run of an OperationQueue (src/common/persistence/OperationQueue.ts).
use azurite.Prelude.{
  ℕ, zero, suc, ◌+◌, ◌*◌, ◌≤◌, ◌<◌, ◌≡◌, refl, sym, ap, ◌∙◌, ◌⊎◌, inl, inr, Bool, true, none, some,
  List, [], ◌∷◌, ◌++◌, arith, ltb, length, Option-cases, Bool-cases,
}
use mathlib.Core.List.{append_assoc, append-nil}
use azurite.Common.Events.{without, length-without, Leads, both-Leads, read_Leads, run, run-Leads}
use azurite.Common.OperationQueue.{
  Queue, new_queue, call_head, execute, operate, complete, next_tick, QueueEvent, operates,
  completes, ticks, step,
}
use azurite.Prelude.{length-append, length-snoc}
use azurite.Common.QueueWork.{submitted, submitted-append, work, work-step}

-- The queue counts what is in flight, within its limit, and while it has operations to call there
-- is a call of execute for each place that is free; `due` more calls are about to be made.
pub record IsBounded (max : ℕ) (due : ℕ) (ids : List ℕ) (q : Queue) : Type 0 where
  pub counted : q.running_concurrency ≡ length q.in_flight
  pub limited : q.max_concurrency ≡ max
  pub bounded : q.running_concurrency ≤ q.max_concurrency
  pub served :
      (length q.operations ≤ due) ⊎ (q.max_concurrency ≤ q.running_concurrency + q.next_ticks + due)
  pub in_order : q.called ++ q.operations ≡ ids
  pub settled : length q.called ≡ length q.outcomes + length q.in_flight

module _ (max : ℕ) where
  call_head-IsBounded :
      (ids : List ℕ) (q : Queue) (ops : List ℕ)
      → q.operations ≡ ops
      → ltb q.running_concurrency q.max_concurrency ≡ true
      → IsBounded max 1 ids q
      → IsBounded max 0 ids (call_head q ops)
  call_head-IsBounded ids q [] e h v = record {
    counted = v.counted;
    limited = v.limited;
    bounded = v.bounded;
    served = inl (ground (arith, e));
    in_order = v.in_order;
    settled = v.settled;
  }
  call_head-IsBounded ids q (head ∷ rest) e h v = record {
    counted = ground (arith, v.counted, length-snoc q.in_flight head);
    limited = v.limited;
    bounded = ground (arith, h);
    served = ground (arith, e, v.served);
    in_order =
        append_assoc q.called (head ∷ []) rest ∙ ap (λ l. q.called ++ l) (sym e) ∙ v.in_order;
    settled = ground (arith, v.settled, length-snoc q.in_flight head, length-snoc q.called head);
  }

  execute-IsBounded :
      (ids : List ℕ) (q : Queue) → IsBounded max 1 ids q → IsBounded max 0 ids (execute q)
  unfolding execute
  execute-IsBounded ids q v = elim (Bool-cases (ltb q.running_concurrency q.max_concurrency)) [
    | inl h ↦ rw h (call_head-IsBounded ids q q.operations refl h v)
    | inr h ↦ rw h (record {
      counted = v.counted;
      limited = v.limited;
      bounded = v.bounded;
      served = inr (ground (arith, h));
      in_order = v.in_order;
      settled = v.settled;
    })
  ]

  operate-IsBounded :
      (ids : List ℕ) (q : Queue) (id : ℕ)
      → IsBounded max 0 ids q
      → IsBounded max 0 (ids ++ id ∷ []) (operate q id)
  unfolding operate
  operate-IsBounded ids q id v =
      execute-IsBounded (ids ++ id ∷ []) (record q { operations = q.operations ++ id ∷ [] })
        (record {
          counted = v.counted;
          limited = v.limited;
          bounded = v.bounded;
          served = ground (arith, v.served, length-snoc q.operations id);
          in_order =
              sym (append_assoc q.called q.operations (id ∷ []))
              ∙ ap (λ l. l ++ id ∷ []) v.in_order;
          settled = v.settled;
        })

  complete-IsBounded :
      (ids : List ℕ) (q : Queue) (id : ℕ) (resolved : Bool)
      → IsBounded max 0 ids q
      → Leads (IsBounded max 0 ids) (complete q id resolved)
  unfolding complete
  complete-IsBounded ids q id resolved v = elim (Option-cases (without id q.in_flight)) [
    | inl e ↦ rw (complete, e) tt
    | inr (others, e) ↦
        let fewer : length q.in_flight ≡ suc (length others) = length-without id q.in_flight e in
        rw (complete, e)
          (record {
            counted = omega (arith, v.counted, fewer);
            limited = v.limited;
            bounded = omega (arith, v.bounded);
            served = ground (arith, v.served, v.counted, fewer);
            in_order = v.in_order;
            settled = ground (arith, v.settled, fewer, length-snoc q.outcomes (id, resolved));
          })
  ]

  -- The state when n calls of execute are left.
  next_tick-IsBounded :
      (ids : List ℕ) (q : Queue) → IsBounded max 0 ids q → Leads (IsBounded max 0 ids) (next_tick q)
  unfolding next_tick
  next_tick-IsBounded ids q v = due q.next_ticks refl
    where
      due :
          (n : ℕ)
          → q.next_ticks ≡ n
          → Leads
              (IsBounded max 0 ids)
              (elim n [ zero ↦ none | suc n' ↦ some (execute (record q { next_ticks = n' })) ])
      due zero e = tt
      due (suc n) e =
          execute-IsBounded ids (record q { next_ticks = n })
            (record {
              counted = v.counted;
              limited = v.limited;
              bounded = v.bounded;
              served = ground (arith, v.served, e);
              in_order = v.in_order;
              settled = v.settled;
            })

  step-IsBounded :
      (ids : List ℕ) (q : Queue) (e : QueueEvent)
      → IsBounded max 0 ids q
      → Leads (IsBounded max 0 (ids ++ submitted (e ∷ []))) (step q e)
  unfolding step
  step-IsBounded ids q (operates id) v = operate-IsBounded ids q id v
  step-IsBounded ids q (completes id resolved) v =
      rw (append-nil ids) (complete-IsBounded ids q id resolved v)
  step-IsBounded ids q ticks v = rw (append-nil ids) (next_tick-IsBounded ids q v)

  -- After the events `es`.
  pub record Ran (es : List QueueEvent) (q : Queue) : Type 0 where
    pub state : IsBounded max 0 (submitted es) q
    pub short : length es + work q ≤ 4 * length (submitted es)

  step-Ran :
      (es : List QueueEvent) (q : Queue) (e : QueueEvent)
      → Ran es q
      → Leads (Ran (es ++ e ∷ [])) (step q e)
  step-Ran es q e v =
      both-Leads (step q e)
        (λ r b w. record {
          state = rw (submitted-append es (e ∷ [])) b;
          short = rw (submitted-append es (e ∷ [])) (
              omega (
                arith,
                v.short,
                w,
                length-append es (e ∷ []),
                length-append (submitted es) (submitted (e ∷ [])),
              ));
        })
        (step-IsBounded (submitted es) q e v.state) (work-step q e)

  pub run-Ran : (es : List QueueEvent) → Leads (Ran es) (run step (new_queue max) es)
  run-Ran es = run-Leads step Ran step-Ran [] (new_queue max) es (record {
    state = record {
      counted = refl;
      limited = refl;
      bounded = omega arith;
      served = inl (omega arith);
      in_order = refl;
      settled = refl;
    };
    short = omega arith;
  })

ran :
    (max : ℕ) (es : List QueueEvent) (q : Queue)
    → run step (new_queue max) es ≡ some q
    → IsBounded max 0 (submitted es) q × (length es + work q ≤ 4 * length (submitted es))
ran max es q e =
    let r = read_Leads (Ran max es) (run step (new_queue max) es) q e (run-Ran max es) in
    (r.state, r.short)

-- Whatever is called and whenever it ends, at most maxConcurrency operations are in flight, which
-- runningConcurrency counts, and the operations that were called and those that wait are those that
-- were submitted, in their order.
pub run-IsBounded :
    (max : ℕ) (es : List QueueEvent) (q : Queue)
    → run step (new_queue max) es ≡ some q
    → (length q.in_flight ≤ max)
      × (q.running_concurrency ≡ length q.in_flight)
      × (q.called ++ q.operations ≡ submitted es)
run-IsBounded max es q e =
    let (v, s) = ran max es q e in
    (omega (arith, v.bounded, v.counted, v.limited), v.counted, v.in_order)

-- An event other than a new operation can happen.
abbrev pub GoesOn : Queue → Type 0
GoesOn q = (e : QueueEvent) × (submitted (e ∷ []) ≡ []) × ((r : Queue) × (step q e ≡ some r))

-- Every operation was called, in order, and each has its outcome.
abbrev pub AllSettled : List ℕ → Queue → Type 0
AllSettled ids q = (q.called ≡ ids) × (length q.outcomes ≡ length ids)

completes_head : (q : Queue) (id : ℕ) (rest : List ℕ) → q.in_flight ≡ id ∷ rest → GoesOn q
unfolding step complete without
completes_head q id rest e = (
  completes id true,
  refl,
  elim (Option-cases (complete q id true)) [ inl n ↦ ground (arith, e, n) | inr r ↦ r ],
)

ticks_on : (q : Queue) (n : ℕ) → q.next_ticks ≡ suc n → GoesOn q
unfolding step next_tick
ticks_on q n e =
    (ticks, refl, elim (Option-cases (next_tick q)) [ inl m ↦ ground (arith, e, m) | inr r ↦ r ])

goes_on :
    (max : ℕ) (ids : List ℕ) (q : Queue) (flying : List ℕ) (due : ℕ)
    → 0 < max
    → IsBounded max 0 ids q
    → q.in_flight ≡ flying
    → q.next_ticks ≡ due
    → GoesOn q ⊎ AllSettled ids q
goes_on max ids q (id ∷ rest) due h v e d = inl (completes_head q id rest e)
goes_on max ids q [] (suc n) h v e d = inl (ticks_on q n d)
goes_on max ids q [] zero h v e d =
    let none_waits : q.operations ≡ [] = ground (arith, v.served, v.counted, v.limited, e, d) in
    let all : q.called ≡ ids =
      sym (append-nil q.called) ∙ ap (λ l. q.called ++ l) (sym none_waits) ∙ v.in_order in
    inr (all, ground (arith, v.settled, e, all))

-- With room for one operation, nothing that is submitted is forgotten: a run is at most four events
-- long for each operation, and as long as some operation has no outcome the queue goes on by itself.
pub run-GoesOn :
    (max : ℕ) (es : List QueueEvent) (q : Queue)
    → 0 < max
    → run step (new_queue max) es ≡ some q
    → (length es ≤ 4 * length (submitted es)) × (GoesOn q ⊎ AllSettled (submitted es) q)
run-GoesOn max es q h e =
    let (v, s) = ran max es q e in
    (omega (arith, s), goes_on max (submitted es) q q.in_flight q.next_ticks h v refl refl)
