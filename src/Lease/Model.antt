-- ===== src/Lease/Model.antt =====
-- src/blob/lease/ILeaseState.ts, src/blob/generated/artifacts/models.ts: the lease of a blob or of
-- a container.
use azurite.Prelude.{String, Bool, true, false, Option, none, some, str_eq}
use azurite.Prelude.Int.{ℤ, ◌+ℤ◌}
use azurite.Dates.{Date, date, invalid_date, millis, new_date}
use azurite.Errors.{Result, ok, err, type_error}

pub data LeaseStateType : Type 0 where
  available leased expired breaking broken : LeaseStateType

pub data LeaseStatusType : Type 0 where
  locked unlocked : LeaseStatusType

pub data LeaseDurationType : Type 0 where
  infinite fixed : LeaseDurationType

pub record ILease : Type 0 where
  pub lease_id : Option String
  pub lease_state : Option LeaseStateType
  pub lease_status : Option LeaseStatusType
  pub lease_duration_type : Option LeaseDurationType
  pub lease_duration_seconds : Option ℤ
  pub lease_expire_time : Option Date
  pub lease_break_time : Option Date

-- The request's context; only its start time is read here.
pub record Context : Type 0 where
  pub start_time : Option Date

-- `new Date(this.context.startTime!.getTime() + seconds * 1000)`
unfoldable pub start_plus : Context → Option ℤ → Result Date
start_plus ctx seconds = elim ctx.start_time [
  | none ↦ err type_error
  | some invalid_date ↦ ok invalid_date
  | some (date now) ↦ elim seconds [
    | none ↦ ok invalid_date
    | some n ↦ ok (new_date (now +ℤ millis n))
  ]
]

-- The tests `=== LeaseStateType.…` and the like.
abbrev pub is_available : Option LeaseStateType → Bool
is_available (some available) = true
is_available _ = false

abbrev pub is_leased : Option LeaseStateType → Bool
is_leased (some leased) = true
is_leased _ = false

abbrev pub is_expired : Option LeaseStateType → Bool
is_expired (some expired) = true
is_expired _ = false

abbrev pub is_breaking : Option LeaseStateType → Bool
is_breaking (some breaking) = true
is_breaking _ = false

abbrev pub is_broken : Option LeaseStateType → Bool
is_broken (some broken) = true
is_broken _ = false

abbrev pub is_locked : Option LeaseStatusType → Bool
is_locked (some locked) = true
is_locked _ = false

abbrev pub is_unlocked : Option LeaseStatusType → Bool
is_unlocked (some unlocked) = true
is_unlocked _ = false

abbrev pub is_infinite : Option LeaseDurationType → Bool
is_infinite (some infinite) = true
is_infinite _ = false

abbrev pub is_fixed : Option LeaseDurationType → Bool
is_fixed (some fixed) = true
is_fixed _ = false

-- `this.lease.leaseId === leaseId`, with leaseId a string
abbrev pub id_is : Option String → String → Bool
id_is none s = false
id_is (some t) s = str_eq t s
