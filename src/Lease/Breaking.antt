-- ===== src/Lease/Breaking.antt =====
-- src/blob/lease/LeaseBreakingState.ts: the operations on a lease whose break period runs.
use azurite.Prelude.{not, ◌&&◌, String, Option, none, some, if◌then◌else◌}
use azurite.Prelude.Int.{ℤ, pos, ltb_ℤ, eq_ℤ}
use azurite.Errors.{
  Result, ok, err, invalid_lease_break_period, lease_already_present,
  lease_is_breaking_and_cannot_be_acquired, lease_is_breaking_and_cannot_be_changed,
  lease_is_broken_and_cannot_be_renewed, lease_id_mismatch_with_lease_operation, ◌>>=◌, ◌>>◌,
  throw_if,
}
use azurite.Lease.Model.{ILease, Context, available, unlocked, start_plus, id_is}
use azurite.Lease.State.{LeaseState, breaking_state, no_lease, new_available}
use azurite.Lease.Leased.{or_empty, break_now, break_at, min_date! }

unfoldable pub acquire : ILease → ℤ → Option String → Result LeaseState
acquire l duration proposed =
    if id_is l.lease_id (or_empty proposed)
    then err lease_is_breaking_and_cannot_be_acquired
    else err lease_already_present

break_within : Context → ILease → ℤ → Result LeaseState
break_within ctx l period =
    if eq_ℤ period (pos 0)
    then break_now ctx l
    else if ltb_ℤ (pos 0) period && not (ltb_ℤ (pos 60) period)
    then (do
      time ← start_plus ctx (some period)
      break_at ctx l (min_date! l.lease_break_time time))
    else err invalid_lease_break_period

unfoldable pub break : Context → ILease → Option ℤ → Result LeaseState
unfolding break_within break_now break_at
break ctx l none = ok (breaking_state l)
break ctx l (some period) = break_within ctx l period

unfoldable pub renew : ILease → String → Result LeaseState
renew l proposed =
    if id_is l.lease_id proposed
    then err lease_is_broken_and_cannot_be_renewed
    else err lease_id_mismatch_with_lease_operation

-- The parameter is called proposedLeaseId, and receives the first argument, the lease id.
unfoldable pub change : ILease → String → Result LeaseState
change l proposed =
    if id_is l.lease_id proposed
    then err lease_is_breaking_and_cannot_be_changed
    else err lease_id_mismatch_with_lease_operation

unfoldable pub release : Context → ILease → String → Result LeaseState
release ctx l lease_id = do
  throw_if (not (id_is l.lease_id lease_id)) lease_id_mismatch_with_lease_operation
  new_available ctx (record no_lease { lease_state = some available; lease_status = some unlocked })
