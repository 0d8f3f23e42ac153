-- ===== src/Lease/Leased.antt =====
-- src/blob/lease/LeaseLeasedState.ts: the operations on a lease that is held.
use azurite.Prelude.{not, ◌||◌, ◌&&◌, String, Option, none, some, if◌then◌else◌}
use azurite.Prelude.Int.{ℤ, pos, negsuc, ltb_ℤ, eq_ℤ}
use azurite.Errors.{
  Result, ok, invalid_lease_duration, invalid_lease_break_period, lease_already_present,
  lease_id_mismatch_with_lease_operation, ◌>>=◌, ◌>>◌, throw_if,
}
use azurite.Dates.{Date, min_date}
use azurite.Lease.Model.{
  ILease, Context, available, leased, breaking, broken, locked, unlocked, fixed, start_plus,
  is_infinite, id_is,
}
use azurite.Lease.State.{
  LeaseState, leased_state, no_lease, new_available, new_leased, new_breaking, new_broken,
}
use azurite.Lease.Available.{is_bad_duration, id_or_new, infinite_lease, new_fixed}

-- The default argument "".
abbrev pub or_empty : Option String → String
or_empty none = ""
or_empty (some s) = s

unfoldable pub acquire : String → Context → ILease → ℤ → Option String → Result LeaseState
acquire uuid ctx l duration proposed = do
  throw_if (not (id_is l.lease_id (or_empty proposed))) lease_already_present
  throw_if (is_bad_duration duration) invalid_lease_duration
  if eq_ℤ duration (negsuc 0)
      then new_leased ctx (infinite_lease (id_or_new uuid proposed))
      else new_fixed ctx (id_or_new uuid proposed) duration

-- The leases that `break` makes, at once or at a time.
unfoldable pub break_now : Context → ILease → Result LeaseState
break_now ctx l = new_broken ctx (record no_lease {
  lease_id = l.lease_id;
  lease_state = some broken;
  lease_status = some unlocked;
})

unfoldable pub break_at : Context → ILease → Option Date → Result LeaseState
break_at ctx l time = new_breaking ctx (record no_lease {
  lease_id = l.lease_id;
  lease_state = some breaking;
  lease_status = some locked;
  lease_break_time = time;
})

-- `minDate(date1!, date2)`: comparing undefined gives false, so undefined comes back.
abbrev pub min_date! : Option Date → Date → Option Date
min_date! none date2 = none
min_date! (some date1) date2 = some (min_date date1 date2)

break_infinite : Context → ILease → Option ℤ → Result LeaseState
break_infinite ctx l none = break_now ctx l
break_infinite ctx l (some period) =
    if eq_ℤ period (pos 0)
    then break_now ctx l
    else do time ← start_plus ctx (some period); break_at ctx l (some time)

break_fixed : Context → ILease → Option ℤ → Result LeaseState
break_fixed ctx l none = break_at ctx l l.lease_expire_time
break_fixed ctx l (some period) = if eq_ℤ period (pos 0) then break_now ctx l else do
  throw_if (ltb_ℤ period (pos 0) || ltb_ℤ (pos 60) period) invalid_lease_break_period
  time ← start_plus ctx (some period)
  break_at ctx l (min_date! l.lease_expire_time time)

unfoldable pub break : Context → ILease → Option ℤ → Result LeaseState
unfolding break_infinite break_fixed break_now break_at
break ctx l period =
    if is_infinite l.lease_duration_type
    then break_infinite ctx l period
    else break_fixed ctx l period

-- Renewal for the duration that the lease was acquired with.
unfoldable pub renew_fixed : Context → ILease → Result LeaseState
renew_fixed ctx l = do
  expire_time ← start_plus ctx l.lease_duration_seconds
  new_leased ctx (record no_lease {
    lease_id = l.lease_id;
    lease_state = some leased;
    lease_status = some locked;
    lease_duration_type = some fixed;
    lease_duration_seconds = l.lease_duration_seconds;
    lease_expire_time = some expire_time;
  })

unfoldable pub renew : Context → ILease → String → Result LeaseState
unfolding renew_fixed
renew ctx l lease_id = do
  throw_if (not (id_is l.lease_id lease_id)) lease_id_mismatch_with_lease_operation
  if is_infinite l.lease_duration_type then ok (leased_state l) else renew_fixed ctx l

unfoldable pub change : Context → ILease → String → String → Result LeaseState
change ctx l lease_id proposed = do
  throw_if (not (id_is l.lease_id lease_id) && not (id_is l.lease_id proposed))
      lease_id_mismatch_with_lease_operation
  new_leased ctx (record l {
    lease_id = some proposed;
    lease_state = some leased;
    lease_status = some locked;
    lease_break_time = none;
  })

unfoldable pub release : Context → ILease → String → Result LeaseState
release ctx l lease_id = do
  throw_if (not (id_is l.lease_id lease_id)) lease_id_mismatch_with_lease_operation
  new_available ctx (record no_lease { lease_state = some available; lease_status = some unlocked })
