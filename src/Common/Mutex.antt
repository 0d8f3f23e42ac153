-- ===== src/Common/Mutex.antt =====
-- Mutex of src/common/Mutex.ts, for one key: the code looks at no other.
use azurite.Prelude.{ℕ, Bool, true, false, Option, none, some, List, [], ◌∷◌, ◌++◌, if◌then◌else◌}
use azurite.Common.Events.{without}

-- `locked` says that keys[key] is LOCKED; a caller stands for the handler that it left.
-- `immediates` are the handlers that setImmediate has yet to call, and `holders` the callers whose
-- lock() was resolved and who have not called unlock().
pub record MutexKey : Type 0 where
  pub locked : Bool
  pub listeners : List ℕ
  pub immediates : List ℕ
  pub holders : List ℕ

abbrev pub new_key : MutexKey
new_key = record { locked = false; listeners = []; immediates = []; holders = [] }

unfoldable pub lock : MutexKey → ℕ → MutexKey
lock k caller =
    if k.locked
    then record k { listeners = k.listeners ++ caller ∷ [] }
    else record k { locked = true; holders = k.holders ++ caller ∷ [] }

-- emitUnlockEvent, with the listeners there are.
abbrev pub emit_unlock_event : MutexKey → List ℕ → MutexKey
emit_unlock_event k [] = k
emit_unlock_event k (handler ∷ rest) = record k {
  listeners = rest;
  immediates = k.immediates ++ handler ∷ [];
}

-- unlock, by a caller that holds the key.
unfoldable pub unlock : MutexKey → ℕ → Option MutexKey
unlock k caller = elim (without caller k.holders) [
  | none ↦ none
  | some others ↦ some (record (if k.locked then emit_unlock_event k k.listeners else k) {
    locked = false;
    holders = others;
  })
]

-- The handler of lock() that is next among the immediates.
abbrev pub call_immediate : MutexKey → List ℕ → Option MutexKey
call_immediate k [] = none
call_immediate k (handler ∷ rest) =
    some (record k { locked = true; immediates = rest; holders = k.holders ++ handler ∷ [] })

pub data MutexEvent : Type 0 where
  locks : ℕ → MutexEvent
  unlocks : ℕ → MutexEvent
  immediate : MutexEvent

unfoldable pub mutex_step : MutexKey → MutexEvent → Option MutexKey
unfolding lock unlock
mutex_step k (locks caller) = some (lock k caller)
mutex_step k (unlocks caller) = unlock k caller
mutex_step k immediate = call_immediate k k.immediates
