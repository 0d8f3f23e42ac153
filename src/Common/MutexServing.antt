-- ===== src/Common/MutexServing.antt =====
-- What a call of lock or unlock, or a handler, does for the callers that wait for one key of a Mutex
-- (src/common/Mutex.ts).
use azurite.Prelude.{
  ℕ, suc, ◌+◌, ◌*◌, ◌≤◌, ◌≡◌, refl, ◌⊎◌, inl, inr, true, false, List, [], ◌∷◌, ◌++◌, arith,
  if◌then◌else◌, length, Option-cases, Bool-cases,
}
use azurite.Common.Events.{without, length-without, Leads, weaken-Leads}
use azurite.Prelude.{length-snoc}
use azurite.Common.Mutex.{
  MutexKey, lock, emit_unlock_event, unlock, call_immediate, MutexEvent, locks, unlocks, immediate,
  mutex_step,
}

-- The calls of lock.
abbrev pub lock_calls : List MutexEvent → ℕ
lock_calls [] = 0
lock_calls (locks caller ∷ es) = suc (lock_calls es)
lock_calls (unlocks caller ∷ es) = lock_calls es
lock_calls (immediate ∷ es) = lock_calls es

abbrev pub unlock_calls : List MutexEvent → ℕ
unlock_calls [] = 0
unlock_calls (locks caller ∷ es) = unlock_calls es
unlock_calls (unlocks caller ∷ es) = suc (unlock_calls es)
unlock_calls (immediate ∷ es) = unlock_calls es

pub lock_calls-append :
    (ds es : List MutexEvent) → lock_calls (ds ++ es) ≡ lock_calls ds + lock_calls es
lock_calls-append [] es = omega arith
lock_calls-append (locks caller ∷ ds) es = omega (arith, lock_calls-append ds es)
lock_calls-append (unlocks caller ∷ ds) es = lock_calls-append ds es
lock_calls-append (immediate ∷ ds) es = lock_calls-append ds es

pub unlock_calls-append :
    (ds es : List MutexEvent) → unlock_calls (ds ++ es) ≡ unlock_calls ds + unlock_calls es
unlock_calls-append [] es = omega arith
unlock_calls-append (locks caller ∷ ds) es = unlock_calls-append ds es
unlock_calls-append (unlocks caller ∷ ds) es = omega (arith, unlock_calls-append ds es)
unlock_calls-append (immediate ∷ ds) es = unlock_calls-append ds es

-- How many events are still to come if lock is not called again.
abbrev pub work : MutexKey → ℕ
work k = 3 * length k.listeners + 2 * length k.immediates + length k.holders

-- Of `calls` calls of lock `ended` have been unlocked, and who waits is waiting for someone.
pub record IsServing (calls ended : ℕ) (k : MutexKey) : Type 0 where
  pub accounted : calls ≡ length k.listeners + length k.immediates + length k.holders + ended
  pub awaited : (length k.listeners ≤ 0) ⊎ (k.locked ≡ true) ⊎ (1 ≤ length k.immediates)
  pub held : (k.locked ≡ false) ⊎ (1 ≤ length k.holders)

lock-IsServing :
    (c d : ℕ) (k : MutexKey) (caller : ℕ)
    → IsServing c d k
    → IsServing (suc c) d (lock k caller) × (work (lock k caller) ≤ work k + 3)
unfolding lock
lock-IsServing c d k caller v = elim (Bool-cases k.locked) [
  | inl h ↦ rw h (
    record {
      accounted = ground (arith, v.accounted, length-snoc k.listeners caller);
      awaited = inr (inl refl);
      held = ground (arith, h, v.held);
    },
    ground (arith, length-snoc k.listeners caller),
  )
  | inr h ↦ rw h (
    record {
      accounted = ground (arith, v.accounted, length-snoc k.holders caller);
      awaited = inr (inl refl);
      held = inr (ground (arith, length-snoc k.holders caller));
    },
    ground (arith, length-snoc k.holders caller),
  )
]

pub recount :
    (c d : ℕ) {c' d' : ℕ} {k : MutexKey} → IsServing c' d' k → c ≡ c' → d ≡ d' → IsServing c d k
recount c d v e f = record {
  accounted = omega (arith, v.accounted, e, f);
  awaited = v.awaited;
  held = v.held;
}

-- What unlock leaves of the listeners `waiting`.
unlocked :
    (c d : ℕ) (k : MutexKey) (waiting others : List ℕ)
    → k.listeners ≡ waiting
    → length k.holders ≡ suc (length others)
    → IsServing c d k
    → let r : MutexKey = record (if k.locked then emit_unlock_event k waiting else k) {
      locked = false;
      holders = others;
    } in
      IsServing c (suc d) r × (work r + 1 ≤ work k)
unlocked c d k [] others e f v = elim (Bool-cases k.locked) [
  | inl h ↦ rw h (
    record {
      accounted = ground (arith, v.accounted, f);
      awaited = inl (ground (arith, e));
      held = inl refl;
    },
    ground (arith, f),
  )
  | inr h ↦ rw h (
    record {
      accounted = ground (arith, v.accounted, f);
      awaited = inl (ground (arith, e));
      held = inl refl;
    },
    ground (arith, f),
  )
]
unlocked c d k (w ∷ ws) others e f v = elim (Bool-cases k.locked) [
  | inl h ↦ rw h (
    record {
      accounted = ground (arith, v.accounted, e, f, length-snoc k.immediates w);
      awaited = inr (inr (ground (arith, length-snoc k.immediates w)));
      held = inl refl;
    },
    ground (arith, e, f, length-snoc k.immediates w),
  )
  | inr h ↦ rw h (
    record {
      accounted = ground (arith, v.accounted, f);
      awaited = ground (arith, e, v.awaited, h);
      held = inl refl;
    },
    ground (arith, f),
  )
]

-- After an event of a run of `c` calls of lock and `d` calls of unlock.
abbrev pub Serves : ℕ → ℕ → MutexKey → MutexEvent → MutexKey → Type 0
Serves c d k e r =
    IsServing (c + lock_calls (e ∷ [])) (d + unlock_calls (e ∷ [])) r
    × (work r + 1 ≤ work k + 4 * lock_calls (e ∷ []))

unlock-Serves :
    (c d : ℕ) (k : MutexKey) (caller : ℕ)
    → IsServing c d k
    → Leads (λ r. IsServing c (suc d) r × (work r + 1 ≤ work k)) (unlock k caller)
unfolding unlock
unlock-Serves c d k caller v = elim (Option-cases (without caller k.holders)) [
  | inl e ↦ rw (unlock, e) tt
  | inr (others, e) ↦
      rw (unlock, e) (unlocked c d k k.listeners others refl (length-without caller k.holders e) v)
]

immediate-Serves :
    (c d : ℕ) (k : MutexKey) (handlers : List ℕ)
    → k.immediates ≡ handlers
    → IsServing c d k
    → Leads (λ r. IsServing c d r × (work r + 1 ≤ work k)) (call_immediate k handlers)
immediate-Serves c d k [] e v = tt
immediate-Serves c d k (h ∷ rest) e v = (
  record {
    accounted = ground (arith, v.accounted, e, length-snoc k.holders h);
    awaited = inr (inl refl);
    held = inr (ground (arith, length-snoc k.holders h));
  },
  ground (arith, e, length-snoc k.holders h),
)

pub step-Serves :
    (c d : ℕ) (k : MutexKey) (e : MutexEvent)
    → IsServing c d k
    → Leads (Serves c d k e) (mutex_step k e)
unfolding mutex_step
step-Serves c d k (locks caller) v =
    let (s, w) = lock-IsServing c d k caller v in
    (recount (c + 1) (d + 0) s (omega arith) (omega arith), omega (arith, w))
step-Serves c d k (unlocks caller) v =
    weaken-Leads (unlock k caller)
      (λ r (s, w). (recount (c + 0) (d + 1) s (omega arith) (omega arith), omega (arith, w)))
      (unlock-Serves c d k caller v)
step-Serves c d k immediate v =
    weaken-Leads (call_immediate k k.immediates)
      (λ r (s, w). (recount (c + 0) (d + 0) s (omega arith) (omega arith), omega (arith, w)))
      (immediate-Serves c d k k.immediates refl v)
