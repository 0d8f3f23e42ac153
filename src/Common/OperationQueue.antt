-- ===== src/Common/OperationQueue.antt =====
-- OperationQueue of src/common/persistence/OperationQueue.ts. An operation is known by its id, which
-- uuid() gives and so has no other operation; an event of the emitter has the listener of its
-- operation. op() is an async function, so its call does not throw.
use azurite.Prelude.{
  ℕ, zero, suc, ◌+◌, ◌-◌, Bool, Option, none, some, List, [], ◌∷◌, ◌++◌, if◌then◌else◌, ltb,
}
use azurite.Common.Events.{without}

-- `called` are the operations whose op() was called, in order; `in_flight` those of them that an
-- execute() awaits; `next_ticks` the calls of execute() that process.nextTick has yet to make;
-- `outcomes` the promises of operate() that are settled, and whether they are resolved.
pub record Queue : Type 0 where
  pub max_concurrency : ℕ
  pub running_concurrency : ℕ
  pub next_ticks : ℕ
  pub operations : List ℕ
  pub called : List ℕ
  pub in_flight : List ℕ
  pub outcomes : List (ℕ × Bool)

abbrev pub new_queue : ℕ → Queue
new_queue max = record {
  max_concurrency = max;
  running_concurrency = 0;
  next_ticks = 0;
  operations = [];
  called = [];
  in_flight = [];
  outcomes = [];
}

-- The rest of execute where there is room, with the operations that wait.
abbrev pub call_head : Queue → List ℕ → Queue
call_head q [] = q
call_head q (head ∷ rest) = record q {
  running_concurrency = q.running_concurrency + 1;
  operations = rest;
  called = q.called ++ head ∷ [];
  in_flight = q.in_flight ++ head ∷ [];
}

-- execute, up to its await.
unfoldable pub execute : Queue → Queue
execute q = if ltb q.running_concurrency q.max_concurrency then call_head q q.operations else q

unfoldable pub operate : Queue → ℕ → Queue
unfolding execute
operate q id = execute (record q { operations = q.operations ++ id ∷ [] })

-- execute from its await on, with the listener of operate(), which settles the promise.
unfoldable pub complete : Queue → ℕ → Bool → Option Queue
complete q id resolved = elim (without id q.in_flight) [
  | none ↦ none
  | some others ↦ some (record q {
    running_concurrency = q.running_concurrency - 1;
    in_flight = others;
    next_ticks = q.next_ticks + 1;
    outcomes = q.outcomes ++ (id, resolved) ∷ [];
  })
]

unfoldable pub next_tick : Queue → Option Queue
unfolding execute
next_tick q = elim q.next_ticks [
  | zero ↦ none
  | suc n ↦ some (execute (record q { next_ticks = n }))
]

-- A call of operate, an operation that ends, or a call of execute that is due.
pub data QueueEvent : Type 0 where
  operates : ℕ → QueueEvent
  completes : ℕ → Bool → QueueEvent
  ticks : QueueEvent

unfoldable pub step : Queue → QueueEvent → Option Queue
unfolding operate complete next_tick
step q (operates id) = some (operate q id)
step q (completes id resolved) = complete q id resolved
step q ticks = next_tick q
