-- ===== src/Lease/Validity.antt =====
-- The tables in the comments of the constructors of src/blob/lease: which fields a lease has in
-- each state, at a time `now` of a request.
use azurite.Prelude.{◌≡◌, true, Option, none, some, defined}
use azurite.Prelude.Int.{ℤ, pos, ◌≤ℤ◌, ◌<ℤ◌}
use azurite.Dates.{Date, date}
use azurite.Lease.Model.{
  ILease, LeaseStateType, LeaseDurationType, available, leased, expired, breaking, broken, locked,
  unlocked, infinite, fixed,
}
use azurite.Lease.State.{
  LeaseState, available_state, leased_state, breaking_state, broken_state, expired_state,
}

abbrev pub Later : ℤ → Option Date → Type 0
Later now (some (date time)) = now <ℤ time
Later now _ = ⊥

abbrev pub IsDate : Option Date → Type 0
IsDate (some (date time)) = Unit
IsDate _ = ⊥

-- The seconds that a fixed lease may be acquired for.
abbrev pub IsDuration : Option ℤ → Type 0
IsDuration none = ⊥
IsDuration (some d) = (pos 15 ≤ℤ d) × (d ≤ℤ pos 60)

-- No lease: every field undefined but the state and the status.
pub record IsFree (l : ILease) : Type 0 where
  pub state : l.lease_state ≡ some available
  pub status : l.lease_status ≡ some unlocked
  pub id : l.lease_id ≡ none
  pub kind : l.lease_duration_type ≡ none
  pub seconds : l.lease_duration_seconds ≡ none
  pub expire : l.lease_expire_time ≡ none
  pub break : l.lease_break_time ≡ none

abbrev pub Term : (Option Date → Type 0) → Option LeaseDurationType → ILease → Type 0
Term E none l = ⊥
Term E (some infinite) l = (l.lease_duration_seconds ≡ none) × (l.lease_expire_time ≡ none)
Term E (some fixed) l = IsDuration l.lease_duration_seconds × E l.lease_expire_time

-- A held lease, whose expiry time satisfies E if it has one.
pub record IsHeld (E : Option Date → Type 0) (l : ILease) : Type 0 where
  pub state : l.lease_state ≡ some leased
  pub status : l.lease_status ≡ some locked
  pub id : defined l.lease_id ≡ true
  pub term : Term E l.lease_duration_type l
  pub break : l.lease_break_time ≡ none

-- A lease in its break period, whose end satisfies E.
pub record IsBreaking (E : Option Date → Type 0) (l : ILease) : Type 0 where
  pub state : l.lease_state ≡ some breaking
  pub status : l.lease_status ≡ some locked
  pub id : defined l.lease_id ≡ true
  pub kind : l.lease_duration_type ≡ none
  pub seconds : l.lease_duration_seconds ≡ none
  pub expire : l.lease_expire_time ≡ none
  pub break : E l.lease_break_time

pub record IsBroken (l : ILease) : Type 0 where
  pub state : l.lease_state ≡ some broken
  pub status : l.lease_status ≡ some unlocked
  pub id : defined l.lease_id ≡ true
  pub kind : l.lease_duration_type ≡ none
  pub seconds : l.lease_duration_seconds ≡ none
  pub expire : l.lease_expire_time ≡ none
  pub break : l.lease_break_time ≡ none

pub record IsExpired (l : ILease) : Type 0 where
  pub state : l.lease_state ≡ some expired
  pub status : l.lease_status ≡ some unlocked
  pub id : defined l.lease_id ≡ true
  pub kind : l.lease_duration_type ≡ none
  pub seconds : IsDuration l.lease_duration_seconds
  pub expire : l.lease_expire_time ≡ none
  pub break : l.lease_break_time ≡ none

-- The table of the class of `s`, at the time `now`: a timer that is set has not run out.
abbrev pub IsValid : ℤ → LeaseState → Type 0
IsValid now (available_state l) = IsFree l
IsValid now (leased_state l) = IsHeld (Later now) l
IsValid now (breaking_state l) = IsBreaking (Later now) l
IsValid now (broken_state l) = IsBroken l
IsValid now (expired_state l) = IsExpired l

-- A lease as it is stored, at any time: its timers may have run out since.
abbrev pub IsStored : Option LeaseStateType → ILease → Type 0
IsStored none l = ⊥
IsStored (some available) l = IsFree l
IsStored (some leased) l = IsHeld IsDate l
IsStored (some breaking) l = IsBreaking IsDate l
IsStored (some broken) l = IsBroken l
IsStored (some expired) l = IsExpired l

abbrev pub IsWellFormed : ILease → Type 0
IsWellFormed l = IsStored l.lease_state l
