-- ===== src/Lease/Diagram.antt =====
-- The lease state diagram: which class each operation of src/blob/lease leads to.
use azurite.Prelude.{◌≡◌, ◌≢◌, String, Option, none, some, arith}
use azurite.Prelude.Int.{ℤ}
use azurite.Errors.{ok}
use azurite.Lease.Model.{LeaseStateType, available, leased, breaking, broken, expired, start_plus}
use azurite.Lease.State.{
  LeaseState, available_state, leased_state, breaking_state, broken_state, expired_state,
  new_available, new_leased, new_breaking, new_broken,
}
use azurite.Lease.Available.{new_fixed}
use azurite.Lease.Operations.{
  Request, acquire_request, break_request, renew_request, change_request, release_request, acquire,
  break, renew, change, release, run,
}
use azurite.Lease.Factory.{at}

abbrev pub class_of : LeaseState → LeaseStateType
class_of (available_state l) = available
class_of (leased_state l) = leased
class_of (breaking_state l) = breaking
class_of (broken_state l) = broken
class_of (expired_state l) = expired

-- The edges of the diagram, by request.
pub data Edge : Request → LeaseStateType → LeaseStateType → Type 0 where
  take :
      {uuid : String} {d : ℤ} {p : Option String} {s : LeaseStateType}
      → s ≢ breaking
      → Edge (acquire_request uuid d p) s leased
  wind_down : {p : Option ℤ} → Edge (break_request p) leased breaking
  cut_short : {p : Option ℤ} → Edge (break_request p) leased broken
  keep_breaking : {p : Option ℤ} → Edge (break_request p) breaking breaking
  break_early : {p : Option ℤ} → Edge (break_request p) breaking broken
  stay_broken : {p : Option ℤ} → Edge (break_request p) broken broken
  bury : {p : Option ℤ} → Edge (break_request p) expired broken
  extend : {id : String} → Edge (renew_request id) leased leased
  revive : {id : String} → Edge (renew_request id) expired leased
  rename : {id p : String} → Edge (change_request id p) leased leased
  free : {id : String} {s : LeaseStateType} → s ≢ available → Edge (release_request id) s available

ruleset edges = (
  take, wind_down, cut_short, keep_breaking, break_early, stay_broken, bury, extend, revive, rename,
  free,
)

module _ (now : ℤ) where
  acquire_edge :
      (s : LeaseState) {s' : LeaseState} (uuid : String) (d : ℤ) (p : Option String)
      → acquire uuid (at now) s d p ≡ ok s'
      → Edge (acquire_request uuid d p) (class_of s) (class_of s')
  unfolding acquire new_fixed new_leased start_plus
  acquire_edge (available_state l) uuid d p e = grind (arith, take)
  acquire_edge (leased_state l) uuid d p e = grind (arith, take)
  acquire_edge (breaking_state l) uuid d p e = ground arith
  acquire_edge (broken_state l) uuid d p e = grind (arith, take)
  acquire_edge (expired_state l) uuid d p e = grind (arith, take)

  break_edge :
      (s : LeaseState) {s' : LeaseState} (p : Option ℤ)
      → break (at now) s p ≡ ok s'
      → Edge (break_request p) (class_of s) (class_of s')
  unfolding break new_breaking new_broken start_plus
  break_edge (available_state l) p e = ground arith
  break_edge (leased_state l) none e = grind (arith, wind_down, cut_short)
  break_edge (leased_state l) (some p) e = grind (arith, wind_down, cut_short)
  break_edge (breaking_state l) none e = grind (arith, keep_breaking, break_early)
  break_edge (breaking_state l) (some p) e = grind (arith, keep_breaking, break_early)
  break_edge (broken_state l) p e = grind (arith, stay_broken)
  break_edge (expired_state l) p e = grind (arith, bury)

  renew_edge :
      (s : LeaseState) {s' : LeaseState} (id : String)
      → renew (at now) s id ≡ ok s'
      → Edge (renew_request id) (class_of s) (class_of s')
  unfolding renew new_leased start_plus
  renew_edge (available_state l) id e = ground arith
  renew_edge (leased_state l) id e = grind (arith, extend)
  renew_edge (breaking_state l) id e = ground arith
  renew_edge (broken_state l) id e = ground arith
  renew_edge (expired_state l) id e = grind (arith, revive)

  change_edge :
      (s : LeaseState) {s' : LeaseState} (id p : String)
      → change (at now) s id p ≡ ok s'
      → Edge (change_request id p) (class_of s) (class_of s')
  unfolding change new_leased
  change_edge (leased_state l) id p e = grind (arith, rename)
  change_edge _ id p e = ground arith

  release_edge :
      (s : LeaseState) {s' : LeaseState} (id : String)
      → release (at now) s id ≡ ok s'
      → Edge (release_request id) (class_of s) (class_of s')
  unfolding release new_available
  release_edge (available_state l) id e = ground arith
  release_edge _ id e = grind (arith, free)

-- Every request that succeeds leads from the class of the lease to a class that the diagram joins
-- it with under that request.
pub run_edge :
    (now : ℤ) (s : LeaseState) {s' : LeaseState} (r : Request)
    → run (at now) s r ≡ ok s'
    → Edge r (class_of s) (class_of s')
unfolding run
run_edge now s (acquire_request uuid d p) e = acquire_edge now s uuid d p e
run_edge now s (break_request p) e = break_edge now s p e
run_edge now s (renew_request id) e = renew_edge now s id e
run_edge now s (change_request id p) e = change_edge now s id p e
run_edge now s (release_request id) e = release_edge now s id e
