-- ===== src/Common/MutexRuns.antt =====
-- Any run of the callers of one key of a Mutex (src/common/Mutex.ts).
use azurite.Prelude.{
  ℕ, ◌+◌, ◌*◌, ◌≤◌, ◌≡◌, refl, ◌⊎◌, inl, inr, false, some, List, [], ◌∷◌, ◌++◌, arith, length,
  Option-cases,
}
use azurite.Common.Events.{without, Leads, weaken-Leads, read_Leads, run, run-Leads}
use azurite.Prelude.{length-append}
use azurite.Common.Mutex.{
  MutexKey, new_key, unlock, call_immediate, MutexEvent, unlocks, immediate, mutex_step,
}
use azurite.Common.MutexServing.{
  lock_calls, unlock_calls, lock_calls-append, unlock_calls-append, work, IsServing, recount,
  step-Serves,
}

-- After the events `es`.
record Ran (es : List MutexEvent) (k : MutexKey) : Type 0 where
  serving : IsServing (lock_calls es) (unlock_calls es) k
  short : length es + work k ≤ 4 * lock_calls es

step-Ran :
    (es : List MutexEvent) (k : MutexKey) (e : MutexEvent)
    → Ran es k
    → Leads (Ran (es ++ e ∷ [])) (mutex_step k e)
step-Ran es k e v =
    weaken-Leads (mutex_step k e)
      (λ r (s, w). record {
        serving =
            recount (lock_calls (es ++ e ∷ [])) (unlock_calls (es ++ e ∷ [])) s
              (lock_calls-append es (e ∷ [])) (unlock_calls-append es (e ∷ []));
        short = omega (arith, v.short, w, length-append es (e ∷ []), lock_calls-append es (e ∷ []));
      })
      (step-Serves (lock_calls es) (unlock_calls es) k e v.serving)

ran : (es : List MutexEvent) (k : MutexKey) → run mutex_step new_key es ≡ some k → Ran es k
ran es k e = read_Leads (Ran es) (run mutex_step new_key es) k e (
    run-Leads mutex_step Ran step-Ran [] new_key es (record {
      serving = record { accounted = omega arith; awaited = inl (omega arith); held = inl refl };
      short = omega arith;
    }))

-- A holder can unlock the key, or a handler is called.
abbrev pub MutexGoesOn : MutexKey → Type 0
MutexGoesOn k =
    (e : MutexEvent) × (lock_calls (e ∷ []) ≡ 0) × ((r : MutexKey) × (mutex_step k e ≡ some r))

can_unlock : (k : MutexKey) (caller : ℕ) (rest : List ℕ) → k.holders ≡ caller ∷ rest → MutexGoesOn k
unfolding mutex_step unlock without
can_unlock k caller rest e = (
  unlocks caller,
  refl,
  elim (Option-cases (unlock k caller)) [ inl n ↦ ground (arith, e, n) | inr r ↦ r ],
)

can_call :
    (k : MutexKey) (handler : ℕ) (rest : List ℕ) → k.immediates ≡ handler ∷ rest → MutexGoesOn k
unfolding mutex_step
can_call k handler rest e = (
  immediate,
  refl,
  elim (Option-cases (call_immediate k k.immediates)) [ inl n ↦ ground (arith, e, n) | inr r ↦ r ],
)

goes_on :
    (calls ended : ℕ) (k : MutexKey) (holders handlers : List ℕ)
    → IsServing calls ended k
    → k.holders ≡ holders
    → k.immediates ≡ handlers
    → MutexGoesOn k ⊎ ((calls ≡ ended) × (k.locked ≡ false))
goes_on calls ended k (caller ∷ rest) handlers v e d = inl (can_unlock k caller rest e)
goes_on calls ended k [] (handler ∷ rest) v e d = inl (can_call k handler rest d)
goes_on calls ended k [] [] v e d =
    let free : k.locked ≡ false = ground (arith, v.held, e) in
    inr (ground (arith, v.accounted, v.awaited, free, e, d), free)

-- Whenever the callers of a key come and go, nobody waits for ever: a run is at most four events
-- long for each call of lock, and unless a holder can unlock or a handler can be called, every call
-- of lock has had the key and has unlocked it, and the key is free.
pub run-MutexGoesOn :
    (es : List MutexEvent) (k : MutexKey)
    → run mutex_step new_key es ≡ some k
    → (length es ≤ 4 * lock_calls es)
      × (MutexGoesOn k ⊎ ((lock_calls es ≡ unlock_calls es) × (k.locked ≡ false)))
run-MutexGoesOn es k e =
    let r = ran es k e in
    (
      omega (arith, r.short),
      goes_on (lock_calls es) (unlock_calls es) k k.holders k.immediates r.serving refl refl,
    )
