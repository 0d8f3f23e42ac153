-- ===== src/Lease/Preservation.antt =====
-- Every operation of src/blob/lease keeps the tables of Validity, and fails only as the protocol says.
use azurite.Prelude.{defined, ◌≡◌, ◌⊎◌, true, false, Option, none, some, arith, String}
use azurite.Prelude.Int.{ℤ, pos, negsuc, +ℤ_parts, ◌+ℤ◌, ◌≤ℤ◌, ◌<ℤ◌}
use azurite.Errors.{Result, Answers}
use azurite.Dates.{Date, date, invalid_date, millis, max_time, new_date, not_before}
use azurite.Lease.Model.{ILease, start_plus}
use azurite.Lease.State.{
  LeaseState, new_available, new_leased, new_breaking, new_broken, available_state, leased_state,
  breaking_state, broken_state, expired_state,
}
use azurite.Lease.Available.{id_or_new, infinite_lease, new_fixed}
use azurite.Lease.Leased.{break_now, break_at, renew_fixed}
use azurite.Lease.Leased
use azurite.Lease.Breaking
use azurite.Lease.Operations.{
  Request, acquire_request, break_request, renew_request, change_request, release_request, run,
  acquire, break, renew, change, release,
}
use azurite.Lease.Validity.{IsValid, IsHeld, IsBreaking, IsDuration, Later}
use azurite.Lease.Factory.{at}

pub later_plus : (now : ℤ) (d : ℤ) → pos 1 ≤ℤ d → now <ℤ now +ℤ millis d
later_plus now (pos n) h = omega (arith, +ℤ_parts now (millis (pos n)))
later_plus now (negsuc n) h = absurd (omega arith)

new_date_cases : (time : ℤ) → (new_date time ≡ date time) ⊎ (new_date time ≡ invalid_date)
unfolding new_date
new_date_cases (pos n) = ground arith
new_date_cases (negsuc n) = ground arith

-- A time is never at or after the date that lies seconds behind it.
pub not_before-new_date :
    (now d : ℤ) → pos 1 ≤ℤ d → not_before (date now) (new_date (now +ℤ millis d)) ≡ false
not_before-new_date now d h = ground (arith, later_plus now d, new_date_cases (now +ℤ millis d))

-- A time of a request: JavaScript has dates until a minute after it.
abbrev pub IsClock : ℤ → Type 0
IsClock now = (negsuc 8639999999999999 ≤ℤ now) × (now ≤ℤ pos 8639999999940000)

date_in_range :
    (time : ℤ) → negsuc 8639999999999999 ≤ℤ time → time ≤ℤ pos max_time → new_date time ≡ date time
unfolding new_date
date_in_range (pos n) h k = ground arith
date_in_range (negsuc n) h k = ground arith

-- A positive number of seconds after the request, if that is a date.
pub date_after :
    (now d : ℤ)
    → IsClock now
    → pos 1 ≤ℤ d
    → now +ℤ millis d ≤ℤ pos max_time
    → new_date (now +ℤ millis d) ≡ date (now +ℤ millis d)
date_after now (pos n) c h k =
    date_in_range (now +ℤ millis (pos n)) (omega (arith, +ℤ_parts now (millis (pos n)))) k
date_after now (negsuc n) c h k = absurd (omega arith)

-- At most a minute after the request there is a date.
pub date_within :
    (now d : ℤ)
    → IsClock now
    → pos 1 ≤ℤ d
    → d ≤ℤ pos 60
    → new_date (now +ℤ millis d) ≡ date (now +ℤ millis d)
date_within now (pos n) c h k =
    date_after now (pos n) c h (omega (arith, +ℤ_parts now (millis (pos n))))
date_within now (negsuc n) c h k = absurd (omega arith)

-- A break period that the service accepts, whose end is a date; LeaseLeasedState.break has no check of it
-- for an infinite lease.
abbrev pub IsPeriod : ℤ → Option ℤ → Type 0
IsPeriod now none = Unit
IsPeriod now (some p) = (pos 0 ≤ℤ p) × (now +ℤ millis p ≤ℤ pos max_time)

abbrev pub IsAllowedRequest : ℤ → Request → Type 0
IsAllowedRequest now (break_request period) = IsPeriod now period
IsAllowedRequest now _ = Unit

abbrev pub IsAllowed : ℤ → Request → Type 0
IsAllowed now r = IsClock now × IsAllowedRequest now r

abbrev pub Safe : ℤ → Result LeaseState → Type 0
Safe now = Answers (IsValid now)

module _ (now : ℤ) (clock : IsClock now) where
  new_infinite-IsValid : (id : String) → Safe now (new_leased (at now) (infinite_lease id))
  unfolding new_leased
  new_infinite-IsValid id = ground arith

  new_fixed-IsValid :
      (id : String) (d : ℤ) → IsDuration (some d) → Safe now (new_fixed (at now) id d)
  unfolding new_fixed new_leased start_plus
  new_fixed-IsValid id d h = ground (arith, later_plus now d, date_within now d)

  pub acquire-IsValid :
      (uuid : String) (s : LeaseState) (d : ℤ) (p : Option String)
      → IsValid now s
      → Safe now (acquire uuid (at now) s d p)
  unfolding acquire
  acquire-IsValid uuid (available_state l) d p v =
      ground
        (arith, new_infinite-IsValid (id_or_new uuid p), new_fixed-IsValid (id_or_new uuid p) d)
  acquire-IsValid uuid (leased_state l) d p v =
      ground
        (arith, new_infinite-IsValid (id_or_new uuid p), new_fixed-IsValid (id_or_new uuid p) d)
  acquire-IsValid uuid (breaking_state l) d p v = ground arith
  acquire-IsValid uuid (broken_state l) d p v =
      ground
        (arith, new_infinite-IsValid (id_or_new uuid p), new_fixed-IsValid (id_or_new uuid p) d)
  acquire-IsValid uuid (expired_state l) d p v =
      ground
        (arith, new_infinite-IsValid (id_or_new uuid p), new_fixed-IsValid (id_or_new uuid p) d)

  break_now-IsValid : (l : ILease) → defined l.lease_id ≡ true → Safe now (break_now (at now) l)
  unfolding break_now new_broken
  break_now-IsValid l h = ground arith

  break_at-IsValid :
      (l : ILease) (time : Option Date)
      → defined l.lease_id ≡ true
      → Later now time
      → Safe now (break_at (at now) l time)
  unfolding break_at new_breaking
  break_at-IsValid l time h t = ground arith

  break_leased-IsValid :
      (l : ILease) (p : Option ℤ)
      → IsPeriod now p
      → IsHeld (Later now) l
      → Safe now (Leased.break (at now) l p)
  unfolding Leased.break start_plus new_broken new_breaking
  break_leased-IsValid l none h v = ground arith
  break_leased-IsValid l (some p) h v = ground (arith, later_plus now p, date_after now p)

  break_breaking-IsValid :
      (l : ILease) (p : Option ℤ)
      → IsBreaking (Later now) l
      → Safe now (Breaking.break (at now) l p)
  unfolding Breaking.break start_plus new_broken new_breaking
  break_breaking-IsValid l none v = ground arith
  break_breaking-IsValid l (some p) v = ground (arith, later_plus now p, date_within now p)

  pub break-IsValid :
      (s : LeaseState) (p : Option ℤ)
      → IsPeriod now p
      → IsValid now s
      → Safe now (break (at now) s p)
  unfolding break
  break-IsValid (available_state l) p h v = tt
  break-IsValid (leased_state l) p h v = break_leased-IsValid l p h v
  break-IsValid (breaking_state l) p h v = break_breaking-IsValid l p v
  break-IsValid (broken_state l) p h v = v
  break-IsValid (expired_state l) p h v = break_now-IsValid l v.id

  abbrev seconds_of : ILease → ℤ
  seconds_of l = elim l.lease_duration_seconds [ none ↦ pos 0 | some d ↦ d ]

  renew_fixed-IsValid :
      (l : ILease)
      → defined l.lease_id ≡ true
      → IsDuration l.lease_duration_seconds
      → Safe now (renew_fixed (at now) l)
  unfolding renew_fixed start_plus new_leased
  renew_fixed-IsValid l h d =
      ground (arith, later_plus now (seconds_of l), date_within now (seconds_of l))

  pub renew-IsValid :
      (s : LeaseState) (id : String) → IsValid now s → Safe now (renew (at now) s id)
  unfolding renew
  renew-IsValid (available_state l) id v = tt
  renew-IsValid (leased_state l) id v = ground (arith, renew_fixed-IsValid l v.id)
  renew-IsValid (breaking_state l) id v = ground arith
  renew-IsValid (broken_state l) id v = ground arith
  renew-IsValid (expired_state l) id v = renew_fixed-IsValid l v.id v.seconds

  pub change-IsValid :
      (s : LeaseState) (id p : String) → IsValid now s → Safe now (change (at now) s id p)
  unfolding change new_leased
  change-IsValid (leased_state l) id p v = ground arith
  change-IsValid (breaking_state l) id p v = ground arith
  change-IsValid _ id p v = tt

  pub release-IsValid :
      (s : LeaseState) (id : String) → IsValid now s → Safe now (release (at now) s id)
  unfolding release new_available
  release-IsValid (available_state l) id v = tt
  release-IsValid _ id v = ground arith

-- On a valid lease object every operation answers with a valid object of the same time, or with an
-- error of the protocol: no constructor's RangeError and no TypeError comes out. The request comes
-- at least a minute before the last date of JavaScript, and its break period, if it has one, is not
-- negative and ends at a date.
pub run-IsValid :
    (now : ℤ) (s : LeaseState) (r : Request)
    → IsAllowed now r
    → IsValid now s
    → Safe now (run (at now) s r)
unfolding run
run-IsValid now s (acquire_request uuid d p) a v = acquire-IsValid now a.0 uuid s d p v
run-IsValid now s (break_request p) a v = break-IsValid now a.0 s p a.1 v
run-IsValid now s (renew_request id) a v = renew-IsValid now a.0 s id v
run-IsValid now s (change_request id p) a v = change-IsValid now a.0 s id p v
run-IsValid now s (release_request id) a v = release-IsValid now a.0 s id v
