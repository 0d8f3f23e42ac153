-- ===== src/Common/MutexHolders.antt =====
-- How many callers hold one key of a Mutex (src/common/Mutex.ts) at once.
use azurite.Prelude.{
  ℕ, suc, ◌+◌, ◌≤◌, ◌≡◌, refl, ◌⊎◌, inl, inr, true, false, Option, none, some, List, [], ◌∷◌, ◌++◌,
  arith, if◌then◌else◌, length, Option-cases, Bool-cases,
}
use azurite.Common.Events.{without, length-without, Leads, weaken-Leads, read_Leads, run}
use azurite.Prelude.{length-snoc}
use azurite.Common.Mutex.{
  MutexKey, new_key, lock, emit_unlock_event, unlock, call_immediate, MutexEvent, locks, unlocks,
  immediate, mutex_step,
}

abbrev one_if_any : List ℕ → ℕ
one_if_any [] = 0
one_if_any (x ∷ xs) = 1

-- A call of lock that finds the key free while a handler is on its way.
abbrev pub overtakes : MutexKey → MutexEvent → ℕ
overtakes k (locks caller) = if k.locked then 0 else one_if_any k.immediates
overtakes k (unlocks caller) = 0
overtakes k immediate = 0

abbrev pub overtaken : MutexKey → List MutexEvent → ℕ
overtaken k [] = 0
overtaken k (e ∷ es) = overtakes k e + elim (mutex_step k e) [ none ↦ 0 | some r ↦ overtaken r es ]

-- The callers that hold the key, or are about to.
abbrev served : MutexKey → ℕ
served k = length k.holders + length k.immediates

record IsShared (n : ℕ) (k : MutexKey) : Type 0 where
  few : served k ≤ n + 1
  free : (k.locked ≡ true) ⊎ (1 ≤ length k.immediates) ⊎ (served k ≤ n)

lock-IsShared :
    (n : ℕ) (k : MutexKey) (caller : ℕ) (handlers : List ℕ)
    → k.immediates ≡ handlers
    → IsShared n k
    → IsShared (n + (if k.locked then 0 else one_if_any handlers)) (lock k caller)
unfolding lock
lock-IsShared n k caller handlers e v = elim (Bool-cases k.locked) [
  | inl h ↦ rw (lock, h) (record { few = omega (arith, v.few); free = inl refl })
  | inr h ↦
      rw (lock, h)
        (record { few = few_more handlers e (ground (arith, v.free, h)); free = inl refl })
]
  where
    few_more :
        (hs : List ℕ)
        → k.immediates ≡ hs
        → (1 ≤ length k.immediates) ⊎ (served k ≤ n)
        → length (k.holders ++ caller ∷ []) + length k.immediates ≤ n + one_if_any hs + 1
    few_more [] d f = ground (arith, d, f, v.few, length-snoc k.holders caller)
    few_more (x ∷ xs) d f = omega (arith, v.few, length-snoc k.holders caller)

-- What unlock leaves of the listeners `waiting`.
emit-IsShared :
    (n : ℕ) (k : MutexKey) (waiting others : List ℕ)
    → length k.holders ≡ suc (length others)
    → IsShared n k
    → IsShared n (record (if k.locked then emit_unlock_event k waiting else k) {
      locked = false;
      holders = others;
    })
emit-IsShared n k [] others f v = elim (Bool-cases k.locked) [
  | inl h ↦
      rw h (record { few = omega (arith, v.few, f); free = inr (inr (omega (arith, v.few, f))) })
  | inr h ↦
      rw h (record { few = omega (arith, v.few, f); free = inr (inr (omega (arith, v.few, f))) })
]
emit-IsShared n k (w ∷ ws) others f v = elim (Bool-cases k.locked) [
  | inl h ↦ rw h (record {
    few = omega (arith, v.few, f, length-snoc k.immediates w);
    free = inr (inl (omega (arith, length-snoc k.immediates w)));
  })
  | inr h ↦
      rw h (record { few = omega (arith, v.few, f); free = inr (inr (omega (arith, v.few, f))) })
]

unlock-IsShared :
    (n : ℕ) (k : MutexKey) (caller : ℕ) → IsShared n k → Leads (IsShared n) (unlock k caller)
unfolding unlock
unlock-IsShared n k caller v = elim (Option-cases (without caller k.holders)) [
  | inl e ↦ rw (unlock, e) tt
  | inr (others, e) ↦
      rw (unlock, e) (emit-IsShared n k k.listeners others (length-without caller k.holders e) v)
]

immediate-IsShared :
    (n : ℕ) (k : MutexKey) (handlers : List ℕ)
    → k.immediates ≡ handlers
    → IsShared n k
    → Leads (IsShared n) (call_immediate k handlers)
immediate-IsShared n k [] e v = tt
immediate-IsShared n k (h ∷ rest) e v = record {
  few = ground (arith, e, v.few, length-snoc k.holders h);
  free = inl refl;
}

more : {n m : ℕ} {k : MutexKey} → n ≡ m → IsShared n k → IsShared m k
more e v = record { few = omega (arith, e, v.few); free = ground (arith, e, v.free) }

step-IsShared :
    (n : ℕ) (k : MutexKey) (e : MutexEvent)
    → IsShared n k
    → Leads (IsShared (n + overtakes k e)) (mutex_step k e)
unfolding mutex_step
step-IsShared n k (locks caller) v = lock-IsShared n k caller k.immediates refl v
step-IsShared n k (unlocks caller) v =
    weaken-Leads (unlock k caller) (λ r s. more (omega arith) s) (unlock-IsShared n k caller v)
step-IsShared n k immediate v =
    weaken-Leads (call_immediate k k.immediates) (λ r s. more (omega arith) s)
      (immediate-IsShared n k k.immediates refl v)

run-IsShared :
    (n : ℕ) (k : MutexKey) (es : List MutexEvent)
    → IsShared n k
    → Leads (IsShared (n + overtaken k es)) (run mutex_step k es)
unfolding run
run-IsShared n k [] v = more (omega arith) v
run-IsShared n k (e ∷ es) v =
    after (λ r s. run-IsShared (n + overtakes k e) r es s) (mutex_step k e) (step-IsShared n k e v)
  where
    after :
        ((r : MutexKey)
          → IsShared (n + overtakes k e) r
          → Leads (IsShared ((n + overtakes k e) + overtaken r es)) (run mutex_step r es))
        → (o : Option MutexKey) → Leads (IsShared (n + overtakes k e)) o
        → Leads
            (IsShared (n + (overtakes k e + elim o [ none ↦ 0 | some r ↦ overtaken r es ])))
            (elim o [ none ↦ none | some r ↦ run mutex_step r es ])
    after rest none l = tt
    after rest (some r) l =
        weaken-Leads (run mutex_step r es) (λ t s. more (omega arith) s) (rest r l)

-- Of the callers of a key, whenever they come and go, at most one holds it, and at most one more for
-- each call of lock that found the key free while a handler was on its way: with no such call the key
-- excludes.
pub run-overtaken :
    (es : List MutexEvent) (k : MutexKey)
    → run mutex_step new_key es ≡ some k
    → length k.holders ≤ overtaken new_key es + 1
run-overtaken es k e =
    let r =
      read_Leads (IsShared (0 + overtaken new_key es)) (run mutex_step new_key es) k e (
        run-IsShared 0 new_key es (record { few = omega arith; free = inr (inr (omega arith)) })) in
    omega (arith, r.few)
