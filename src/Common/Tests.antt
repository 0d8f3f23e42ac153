-- ===== src/Common/Tests.antt =====
-- Small runs of the operation queue and of the mutex.
use azurite.Prelude.{
  ◌≡◌, ◌≤◌, ◌⊎◌, ◌+◌, ◌*◌, refl, true, false, some, List, [], ◌∷◌, ◌++◌, arith, length,
}
use azurite.Common.Events.{run, without}
use azurite.Common.OperationQueue.{
  Queue, QueueEvent, new_queue, execute, operates, completes, ticks, step,
}
use azurite.Common.QueueWork.{submitted}
use azurite.Common.QueueRuns.{run-IsBounded, GoesOn, AllSettled, run-GoesOn}
use azurite.Common.Mutex.{MutexKey, MutexEvent, new_key, locks, unlocks, immediate, mutex_step}
use azurite.Common.MutexServing.{lock_calls, unlock_calls}
use azurite.Common.MutexRuns.{MutexGoesOn, run-MutexGoesOn}
use azurite.Common.MutexHolders.{overtaken, run-overtaken}

-- Two operations, one at a time; the first has ended, and the second was called by the tick.
abbrev two_operations : List QueueEvent
two_operations = operates 7 ∷ operates 8 ∷ completes 7 true ∷ ticks ∷ []

abbrev one_left : Queue
one_left = record {
  max_concurrency = 1;
  running_concurrency = 1;
  next_ticks = 0;
  operations = [];
  called = 7 ∷ 8 ∷ [];
  in_flight = 8 ∷ [];
  outcomes = (7, true) ∷ [];
}

two_operations-run : run step (new_queue 1) two_operations ≡ some one_left
unfolding run step execute without
two_operations-run = refl

run-IsBounded_example :
    (length one_left.in_flight ≤ 1)
    × (one_left.running_concurrency ≡ length one_left.in_flight)
    × (one_left.called ++ one_left.operations ≡ submitted two_operations)
run-IsBounded_example = run-IsBounded 1 two_operations one_left two_operations-run

run-GoesOn_example :
    (length two_operations ≤ 4 * length (submitted two_operations))
    × (GoesOn one_left ⊎ AllSettled (submitted two_operations) one_left)
run-GoesOn_example = run-GoesOn 1 two_operations one_left (omega arith) two_operations-run

-- The third caller takes the key that is on its way to the second.
abbrev overtaking : List MutexEvent
overtaking = locks 1 ∷ locks 2 ∷ unlocks 1 ∷ locks 3 ∷ immediate ∷ []

abbrev two_hold : MutexKey
two_hold = record { locked = true; listeners = []; immediates = []; holders = 3 ∷ 2 ∷ [] }

overtaking-run : run mutex_step new_key overtaking ≡ some two_hold
unfolding run mutex_step without
overtaking-run = refl

run-MutexGoesOn_example :
    (length overtaking ≤ 4 * lock_calls overtaking)
    × (MutexGoesOn two_hold
        ⊎ ((lock_calls overtaking ≡ unlock_calls overtaking) × (two_hold.locked ≡ false)))
run-MutexGoesOn_example = run-MutexGoesOn overtaking two_hold overtaking-run

run-overtaken_example : length two_hold.holders ≤ overtaken new_key overtaking + 1
run-overtaken_example = run-overtaken overtaking two_hold overtaking-run
