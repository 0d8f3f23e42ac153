-- ===== src/Lease/Broken.antt =====
-- src/blob/lease/LeaseBrokenState.ts: the operations on a broken lease.
use azurite.Prelude.{not, String, Option, some, if◌then◌else◌}
use azurite.Prelude.Int.{ℤ, negsuc, eq_ℤ}
use azurite.Errors.{
  Result, ok, err, invalid_lease_duration, lease_not_present_with_lease_operation,
  lease_is_broken_and_cannot_be_renewed, lease_id_mismatch_with_lease_operation, ◌>>◌, throw_if,
}
use azurite.Lease.Model.{ILease, Context, available, unlocked, id_is}
use azurite.Lease.State.{LeaseState, broken_state, no_lease, new_available, new_leased}
use azurite.Lease.Available.{is_bad_duration, id_or_new, infinite_lease, new_fixed}

unfoldable pub acquire : String → Context → ℤ → Option String → Result LeaseState
acquire uuid ctx duration proposed = do
  throw_if (is_bad_duration duration) invalid_lease_duration
  if eq_ℤ duration (negsuc 0)
      then new_leased ctx (infinite_lease (id_or_new uuid proposed))
      else new_fixed ctx (id_or_new uuid proposed) duration

unfoldable pub break : ILease → Option ℤ → Result LeaseState
break l period = ok (broken_state l)

unfoldable pub renew : ILease → String → Result LeaseState
renew l proposed =
    if id_is l.lease_id proposed
    then err lease_is_broken_and_cannot_be_renewed
    else err lease_id_mismatch_with_lease_operation

unfoldable pub change : Result LeaseState
change = err lease_not_present_with_lease_operation

unfoldable pub release : Context → ILease → String → Result LeaseState
release ctx l lease_id = do
  throw_if (not (id_is l.lease_id lease_id)) lease_id_mismatch_with_lease_operation
  new_available ctx (record no_lease { lease_state = some available; lease_status = some unlocked })
