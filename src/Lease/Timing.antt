-- ===== src/Lease/Timing.antt =====
-- Breaking a lease of src/blob/lease never prolongs it.
use azurite.Prelude.{◌↔◌, ◌≡◌, Option, none, some, arith}
use azurite.Prelude.Int.{ℤ, pos, ◌≤ℤ◌, ◌<ℤ◌}
use azurite.Dates.{Date, date}
use azurite.Errors.{ok, err, invalid_lease_break_period}
use azurite.Lease.Model.{ILease, fixed, start_plus}
use azurite.Lease.State.{
  LeaseState, available_state, leased_state, breaking_state, broken_state, expired_state,
  new_breaking, new_broken,
}
use azurite.Lease.Operations.{break}
use azurite.Lease.Validity.{IsValid, IsHeld, Later}
use azurite.Lease.Factory.{at}
use azurite.Lease.Preservation.{later_plus}

abbrev Until : ℤ → Option Date → Type 0
Until e (some (date t)) = t ≤ℤ e
Until e _ = ⊥

-- The blob is unlocked from the time `e` on, if nothing more is asked of the lease.
abbrev pub Ends : ℤ → LeaseState → Type 0
Ends e (leased_state l) = Until e l.lease_expire_time
Ends e (breaking_state l) = Until e l.lease_break_time
Ends e _ = Unit

-- A break answers with a broken lease, or with a breaking one.
abbrev pub IsEnding : LeaseState → Type 0
IsEnding (breaking_state l) = Unit
IsEnding (broken_state l) = Unit
IsEnding _ = ⊥

-- If a valid lease object ends by the time `e`, a successful break, with any break period or none,
-- leaves a lease that is breaking or broken and still ends by `e`.
pub break-Ends :
    (now e : ℤ) (s s' : LeaseState) (p : Option ℤ)
    → IsValid now s
    → Ends e s
    → break (at now) s p ≡ ok s'
    → Ends e s' × IsEnding s'
unfolding break new_breaking new_broken start_plus
break-Ends now e (available_state l) s' p v h r = ground arith
break-Ends now e (leased_state l) s' none v h r = ground arith
break-Ends now e (leased_state l) s' (some p) v h r = ground arith
break-Ends now e (breaking_state l) s' none v h r = ground arith
break-Ends now e (breaking_state l) s' (some p) v h r = ground arith
break-Ends now e (broken_state l) s' p v h r = ground arith
break-Ends now e (expired_state l) s' p v h r = ground arith

-- A break of a valid held lease with a positive period of p seconds is refused for the period
-- exactly when the lease is fixed and p is more than 60: an infinite lease takes any positive
-- period.
pub break_period :
    (now p : ℤ) (l : ILease)
    → IsHeld (Later now) l
    → pos 0 <ℤ p
    → (break (at now) (leased_state l) (some p) ≡ err invalid_lease_break_period)
      ↔ ((l.lease_duration_type ≡ some fixed) × (pos 60 <ℤ p))
unfolding break new_breaking new_broken start_plus
break_period now p l v h = ground (arith, later_plus now p)
