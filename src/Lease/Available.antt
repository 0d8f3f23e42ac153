-- ===== src/Lease/Available.antt =====
-- src/blob/lease/LeaseAvailableState.ts: the operations on an available lease.
use azurite.Prelude.{Bool, not, ◌||◌, ◌&&◌, String, Option, none, some, if◌then◌else◌, str_eq}
use azurite.Prelude.Int.{ℤ, pos, negsuc, ltb_ℤ, eq_ℤ}
use azurite.Errors.{
  Result, err, invalid_lease_duration, lease_not_present_with_lease_operation,
  lease_id_mismatch_with_lease_operation, ◌>>=◌, ◌>>◌, throw_if,
}
use azurite.Lease.Model.{ILease, Context, leased, locked, infinite, fixed, start_plus}
use azurite.Lease.State.{LeaseState, no_lease, new_leased}

-- `(duration < 15 || duration > 60) && duration !== -1`
abbrev pub is_bad_duration : ℤ → Bool
is_bad_duration d = (ltb_ℤ d (pos 15) || ltb_ℤ (pos 60) d) && not (eq_ℤ d (negsuc 0))

-- `proposedLeaseId || uuid()`, with the default argument ""
abbrev pub id_or_new : String → Option String → String
id_or_new uuid none = uuid
id_or_new uuid (some proposed) = if str_eq proposed "" then uuid else proposed

-- The new leases that `acquire` makes.
abbrev pub infinite_lease : String → ILease
infinite_lease id = record no_lease {
  lease_id = some id;
  lease_state = some leased;
  lease_status = some locked;
  lease_duration_type = some infinite;
}

unfoldable pub new_fixed : Context → String → ℤ → Result LeaseState
new_fixed ctx id duration = do
  expire_time ← start_plus ctx (some duration)
  new_leased ctx (record no_lease {
    lease_id = some id;
    lease_state = some leased;
    lease_status = some locked;
    lease_duration_type = some fixed;
    lease_duration_seconds = some duration;
    lease_expire_time = some expire_time;
  })

unfoldable pub acquire : String → Context → ℤ → Option String → Result LeaseState
acquire uuid ctx duration proposed = do
  throw_if (is_bad_duration duration) invalid_lease_duration
  if eq_ℤ duration (negsuc 0)
      then new_leased ctx (infinite_lease (id_or_new uuid proposed))
      else new_fixed ctx (id_or_new uuid proposed) duration

unfoldable pub break : Result LeaseState
break = err lease_not_present_with_lease_operation

unfoldable pub renew : String → Result LeaseState
renew lease_id = err lease_id_mismatch_with_lease_operation

unfoldable pub change : Result LeaseState
change = err lease_not_present_with_lease_operation

unfoldable pub release : String → Result LeaseState
release lease_id = err lease_id_mismatch_with_lease_operation
