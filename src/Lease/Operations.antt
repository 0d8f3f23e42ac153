-- ===== src/Lease/Operations.antt =====
-- src/blob/lease/ILeaseState.ts: the operations of the interface, dispatched on the class.
use azurite.Prelude.{String, Option}
use azurite.Prelude.Int.{ℤ}
use azurite.Errors.{Result}
use azurite.Lease.Model.{Context}
use azurite.Lease.State.{
  LeaseState, available_state, leased_state, breaking_state, broken_state, expired_state,
}
use azurite.Lease.Available
use azurite.Lease.Leased
use azurite.Lease.Breaking
use azurite.Lease.Broken
use azurite.Lease.Expired

-- `uuid` is what a call of uuid() would return.
unfoldable pub acquire : String → Context → LeaseState → ℤ → Option String → Result LeaseState
unfolding Available.acquire Leased.acquire Breaking.acquire Broken.acquire Expired.acquire
acquire uuid ctx (available_state l) d p = Available.acquire uuid ctx d p
acquire uuid ctx (leased_state l) d p = Leased.acquire uuid ctx l d p
acquire uuid ctx (breaking_state l) d p = Breaking.acquire l d p
acquire uuid ctx (broken_state l) d p = Broken.acquire uuid ctx d p
acquire uuid ctx (expired_state l) d p = Expired.acquire uuid ctx d p

unfoldable pub break : Context → LeaseState → Option ℤ → Result LeaseState
unfolding Available.break Leased.break Breaking.break Broken.break Expired.break
break ctx (available_state l) p = Available.break
break ctx (leased_state l) p = Leased.break ctx l p
break ctx (breaking_state l) p = Breaking.break ctx l p
break ctx (broken_state l) p = Broken.break l p
break ctx (expired_state l) p = Expired.break ctx l p

unfoldable pub renew : Context → LeaseState → String → Result LeaseState
unfolding Available.renew Leased.renew Breaking.renew Broken.renew Expired.renew
renew ctx (available_state l) id = Available.renew id
renew ctx (leased_state l) id = Leased.renew ctx l id
renew ctx (breaking_state l) id = Breaking.renew l id
renew ctx (broken_state l) id = Broken.renew l id
renew ctx (expired_state l) id = Expired.renew ctx l

unfoldable pub change : Context → LeaseState → String → String → Result LeaseState
unfolding Available.change Leased.change Breaking.change Broken.change Expired.change
change ctx (available_state l) id p = Available.change
change ctx (leased_state l) id p = Leased.change ctx l id p
change ctx (breaking_state l) id p = Breaking.change l id
change ctx (broken_state l) id p = Broken.change
change ctx (expired_state l) id p = Expired.change

unfoldable pub release : Context → LeaseState → String → Result LeaseState
unfolding Available.release Leased.release Breaking.release Broken.release Expired.release
release ctx (available_state l) id = Available.release id
release ctx (leased_state l) id = Leased.release ctx l id
release ctx (breaking_state l) id = Breaking.release ctx l id
release ctx (broken_state l) id = Broken.release ctx l id
release ctx (expired_state l) id = Expired.release ctx l id

-- One request on a lease.
pub data Request : Type 0 where
  acquire_request : String → ℤ → Option String → Request
  break_request : Option ℤ → Request
  renew_request : String → Request
  change_request : String → String → Request
  release_request : String → Request

unfoldable pub run : Context → LeaseState → Request → Result LeaseState
unfolding acquire break renew change release
run ctx s (acquire_request uuid duration proposed) = acquire uuid ctx s duration proposed
run ctx s (break_request period) = break ctx s period
run ctx s (renew_request id) = renew ctx s id
run ctx s (change_request id proposed) = change ctx s id proposed
run ctx s (release_request id) = release ctx s id
