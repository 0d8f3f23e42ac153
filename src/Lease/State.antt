-- ===== src/Lease/State.antt =====
-- src/blob/lease: the five classes that extend LeaseStateBase, as one data type, and their
-- constructors, which check the lease that they are given. The context is handed to each operation.
use azurite.Prelude.{Bool, true, false, not, ◌||◌, Option, none, some, if◌then◌else◌, defined}
use azurite.Prelude.Int.{ℤ, negsuc, eq_ℤ}
use azurite.Errors.{Result, ok, err, range_error, ◌>>=◌, ◌>>◌, throw_if}
use azurite.Dates.{Date, before, not_before}
use azurite.Lease.Model.{
  expired, broken, unlocked, ILease, Context, is_available, is_leased, is_expired, is_breaking,
  is_broken, is_locked, is_unlocked, is_fixed,
}

pub data LeaseState : Type 0 where
  available_state leased_state breaking_state broken_state expired_state : ILease → LeaseState

-- LeaseStateBase.lease
abbrev pub lease_of : LeaseState → ILease
lease_of (available_state l) = l
lease_of (leased_state l) = l
lease_of (breaking_state l) = l
lease_of (broken_state l) = l
lease_of (expired_state l) = l

-- `undefined` in every field.
abbrev pub no_lease : ILease
no_lease = record {
  lease_id = none;
  lease_state = none;
  lease_status = none;
  lease_duration_type = none;
  lease_duration_seconds = none;
  lease_expire_time = none;
  lease_break_time = none;
}

-- `if (context.startTime === undefined) throw RangeError(…)`, and the time after it.
abbrev pub started : Option Date → Result Date
started none = err range_error
started (some now) = ok now

-- `time === undefined || now < time`, and the like.
abbrev pub unset_or : (Date → Bool) → Option Date → Bool
unset_or test none = true
unset_or test (some time) = test time

abbrev pub set_and : (Date → Bool) → Option Date → Bool
set_and test none = false
set_and test (some time) = test time

-- `seconds === undefined || seconds === -1`
abbrev pub unset_or_infinite : Option ℤ → Bool
unset_or_infinite none = true
unset_or_infinite (some seconds) = eq_ℤ seconds (negsuc 0)

unfoldable pub new_available : Context → ILease → Result LeaseState
new_available ctx l = do
  _ ← started ctx.start_time
  if not (defined l.lease_state) then ok (available_state no_lease) else do
    throw_if (not (is_available l.lease_state)) range_error
    throw_if (not (is_unlocked l.lease_status)) range_error
    throw_if (defined l.lease_id) range_error
    throw_if (defined l.lease_expire_time) range_error
    throw_if (defined l.lease_duration_seconds) range_error
    throw_if (defined l.lease_duration_type) range_error
    throw_if (defined l.lease_break_time) range_error
    ok (available_state l)

unfoldable pub new_leased : Context → ILease → Result LeaseState
new_leased ctx l = do
  now ← started ctx.start_time
  throw_if (not (is_leased l.lease_state)) range_error
  throw_if (not (is_locked l.lease_status)) range_error
  throw_if (not (defined l.lease_id)) range_error
  throw_if (set_and (λ time. not_before now time) l.lease_expire_time) range_error
  throw_if (not (defined l.lease_duration_type)) range_error
  throw_if (defined l.lease_break_time) range_error
  ok (leased_state l)

unfoldable pub new_breaking : Context → ILease → Result LeaseState
new_breaking ctx l = do
  now ← started ctx.start_time
  throw_if (not (is_breaking l.lease_state)) range_error
  throw_if (not (is_locked l.lease_status)) range_error
  throw_if (not (defined l.lease_id)) range_error
  throw_if (defined l.lease_expire_time) range_error
  throw_if (defined l.lease_duration_seconds) range_error
  throw_if (defined l.lease_duration_type) range_error
  throw_if (unset_or (λ time. not_before now time) l.lease_break_time) range_error
  ok (breaking_state l)

-- The branch of LeaseBrokenState's constructor for a lease that is broken.
stay_broken : ILease → Result LeaseState
stay_broken l = do
  throw_if (not (is_unlocked l.lease_status)) range_error
  throw_if (not (defined l.lease_id)) range_error
  throw_if (defined l.lease_expire_time) range_error
  throw_if (defined l.lease_duration_seconds) range_error
  throw_if (defined l.lease_duration_type) range_error
  throw_if (defined l.lease_break_time) range_error
  ok (broken_state l)

-- The branch for a lease that was breaking, whose break time has come.
become_broken : Date → ILease → Result LeaseState
become_broken now l = do
  throw_if (not (is_locked l.lease_status)) range_error
  throw_if (not (defined l.lease_id)) range_error
  throw_if (defined l.lease_expire_time) range_error
  throw_if (defined l.lease_duration_seconds) range_error
  throw_if (defined l.lease_duration_type) range_error
  throw_if (unset_or (λ time. before now time) l.lease_break_time) range_error
  ok (
      broken_state (record no_lease {
        lease_id = l.lease_id;
        lease_state = some broken;
        lease_status = some unlocked;
      }))

unfoldable pub new_broken : Context → ILease → Result LeaseState
unfolding stay_broken become_broken
new_broken ctx l = do
  now ← started ctx.start_time
  if is_broken l.lease_state
      then stay_broken l
      else if is_breaking l.lease_state
      then become_broken now l
      else err range_error

-- The branch of LeaseExpiredState's constructor for a lease that has expired.
stay_expired : ILease → Result LeaseState
stay_expired l = do
  throw_if (not (is_unlocked l.lease_status)) range_error
  throw_if (not (defined l.lease_id)) range_error
  throw_if (defined l.lease_expire_time) range_error
  throw_if (unset_or_infinite l.lease_duration_seconds) range_error
  throw_if (defined l.lease_duration_type) range_error
  throw_if (defined l.lease_break_time) range_error
  ok (expired_state l)

-- The branch for a lease that was leased, whose expiry time has come.
become_expired : Date → ILease → Result LeaseState
become_expired now l = do
  throw_if (not (is_locked l.lease_status)) range_error
  throw_if (not (defined l.lease_id)) range_error
  throw_if (unset_or (λ time. before now time) l.lease_expire_time) range_error
  throw_if (unset_or_infinite l.lease_duration_seconds) range_error
  throw_if (not (is_fixed l.lease_duration_type)) range_error
  throw_if (defined l.lease_break_time) range_error
  ok (
      expired_state (record no_lease {
        lease_id = l.lease_id;
        lease_state = some expired;
        lease_status = some unlocked;
        lease_duration_seconds = l.lease_duration_seconds;
      }))

unfoldable pub new_expired : Context → ILease → Result LeaseState
unfolding stay_expired become_expired
new_expired ctx l = do
  now ← started ctx.start_time
  if is_expired l.lease_state
      then stay_expired l
      else if is_leased l.lease_state
      then become_expired now l
      else err range_error

-- LeaseFactory.createLeaseState
unfoldable pub create_lease_state : ILease → Context → Result LeaseState
create_lease_state l ctx = do
  now ← started ctx.start_time
  if is_available l.lease_state || not (defined l.lease_state)
      then new_available ctx l
      else if is_leased l.lease_state
      then if unset_or (λ time. before now time) l.lease_expire_time
        then new_leased ctx l
        else new_expired ctx l
      else if is_expired l.lease_state
      then new_expired ctx l
      else if is_breaking l.lease_state
      then if not (defined l.lease_break_time)
        then err range_error
        else if set_and (λ time. before now time) l.lease_break_time
        then new_breaking ctx l
        else new_broken ctx l
      else if is_broken l.lease_state
      then new_broken ctx l
      else err range_error
