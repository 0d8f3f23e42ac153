-- ===== src/Lease/Expired.antt =====
-- src/blob/lease/LeaseExpiredState.ts: the operations on an expired lease.
use azurite.Prelude.{not, String, Option, some, if◌then◌else◌}
use azurite.Prelude.Int.{ℤ, negsuc, eq_ℤ}
use azurite.Errors.{
  Result, err, invalid_lease_duration, lease_not_present_with_lease_operation,
  lease_id_mismatch_with_lease_operation, ◌>>◌, throw_if,
}
use azurite.Lease.Model.{ILease, Context, available, unlocked, id_is}
use azurite.Lease.State.{LeaseState, no_lease, new_available, new_leased}
use azurite.Lease.Available.{is_bad_duration, id_or_new, infinite_lease, new_fixed}
use azurite.Lease.Leased.{break_now, renew_fixed}

unfoldable pub acquire : String → Context → ℤ → Option String → Result LeaseState
acquire uuid ctx duration proposed = do
  throw_if (is_bad_duration duration) invalid_lease_duration
  if eq_ℤ duration (negsuc 0)
      then new_leased ctx (infinite_lease (id_or_new uuid proposed))
      else new_fixed ctx (id_or_new uuid proposed) duration

unfoldable pub break : Context → ILease → Option ℤ → Result LeaseState
unfolding break_now
break ctx l period = break_now ctx l

-- The source's method takes no argument: the lease id of the request is not read.
unfoldable pub renew : Context → ILease → Result LeaseState
unfolding renew_fixed
renew ctx l = renew_fixed ctx l

unfoldable pub change : Result LeaseState
change = err lease_not_present_with_lease_operation

unfoldable pub release : Context → ILease → String → Result LeaseState
release ctx l lease_id = do
  throw_if (not (id_is l.lease_id lease_id)) lease_id_mismatch_with_lease_operation
  new_available ctx (record no_lease { lease_state = some available; lease_status = some unlocked })
