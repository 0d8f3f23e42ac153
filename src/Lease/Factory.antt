-- ===== src/Lease/Factory.antt =====
-- LeaseFactory.createLeaseState on a stored lease, at any later time.
use azurite.Prelude.{◌≡◌, sym, Option, none, some, arith}
use mathlib.Core.Path.{subst}
use azurite.Prelude.Int.{ℤ}
use azurite.Errors.{Returns}
use azurite.Dates.{date}
use azurite.Lease.Model.{
  Context, ILease, LeaseStateType, available, leased, expired, breaking, broken,
}
use azurite.Lease.State.{
  LeaseState, create_lease_state, new_available, new_leased, new_breaking, new_broken, new_expired,
  lease_of, available_state, leased_state, breaking_state, broken_state, expired_state,
}
use azurite.Lease.Validity.{
  IsValid, IsWellFormed, IsStored, IsFree, IsHeld, IsDate, IsBreaking, IsBroken, IsExpired, Later,
}

abbrev pub at : ℤ → Context
at now = record { start_time = some (date now) }

module _ (l : ILease) (now : ℤ) where
  abbrev Creates : Type 0
  Creates = Returns (IsValid now) (create_lease_state l (at now))

  create_free : IsFree l → Creates
  unfolding create_lease_state new_available
  create_free w = ground arith

  create_held : IsHeld IsDate l → Creates
  unfolding create_lease_state new_leased new_expired
  create_held w = ground arith

  create_breaking : IsBreaking IsDate l → Creates
  unfolding create_lease_state new_breaking new_broken
  create_breaking w = ground arith

  create_broken : IsBroken l → Creates
  unfolding create_lease_state new_broken
  create_broken w = ground arith

  create_expired : IsExpired l → Creates
  unfolding create_lease_state new_expired
  create_expired w = ground arith

  create_as : (st : Option LeaseStateType) → IsStored st l → Creates
  create_as (some available) w = create_free w
  create_as (some leased) w = create_held w
  create_as (some breaking) w = create_breaking w
  create_as (some broken) w = create_broken w
  create_as (some expired) w = create_expired w
  create_as none w = absurd w

-- The factory never throws on a stored lease, whatever the time of the request, and the object that
-- it returns obeys the table of its class at that time.
pub create_lease_state-IsValid :
    (l : ILease) (now : ℤ) → IsWellFormed l → Returns (IsValid now) (create_lease_state l (at now))
create_lease_state-IsValid l now w = create_as l now l.lease_state w

-- A timer that has not run out is a date.
IsHeld-IsDate : (now : ℤ) (l : ILease) → IsHeld (Later now) l → IsHeld IsDate l
IsHeld-IsDate now l v = ground arith

IsBreaking-IsDate : (now : ℤ) (l : ILease) → IsBreaking (Later now) l → IsBreaking IsDate l
IsBreaking-IsDate now l v = ground arith

as_stored :
    (l : ILease) {st : LeaseStateType}
    → l.lease_state ≡ some st
    → IsStored (some st) l
    → IsWellFormed l
as_stored l e w = subst (λ st. IsStored st l) (sym e) w

-- What an object holds at one time is a stored lease for every later request.
pub lease_of-IsWellFormed : (now : ℤ) (s : LeaseState) → IsValid now s → IsWellFormed (lease_of s)
lease_of-IsWellFormed now (available_state l) v = as_stored l v.state v
lease_of-IsWellFormed now (leased_state l) v = as_stored l v.state (IsHeld-IsDate now l v)
lease_of-IsWellFormed now (breaking_state l) v = as_stored l v.state (IsBreaking-IsDate now l v)
lease_of-IsWellFormed now (broken_state l) v = as_stored l v.state v
lease_of-IsWellFormed now (expired_state l) v = as_stored l v.state v
