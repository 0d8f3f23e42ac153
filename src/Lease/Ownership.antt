-- ===== src/Lease/Ownership.antt =====
-- Who can take a lease of src/blob/lease from its holder.
use azurite.Prelude.{◌≡◌, ◌≢◌, ◌⊎◌, String, none, some, arith, eq_iff}
use azurite.Prelude.Int.{ℤ}
use azurite.Errors.{ok}
use azurite.Lease.Model.{ILease, start_plus}
use azurite.Lease.State.{
  LeaseState, leased_state, lease_of, new_available, new_leased, new_breaking, new_broken,
}
use azurite.Lease.Available.{new_fixed}
use azurite.Lease.Leased
use azurite.Lease.Operations.{
  Request, acquire_request, break_request, renew_request, change_request, release_request, acquire,
  break, renew, change, release, run,
}
use azurite.Lease.Factory.{at}

-- The request names the holder's lease id.
abbrev pub Names : String → Request → Type 0
Names holder (change_request id proposed) = id ≡ holder
Names holder (release_request id) = id ≡ holder
Names holder _ = ⊥

-- Every request that succeeds on a held lease, whose id is not empty, leaves the holder's id in
-- place, or is a change or a release that gives this id.
pub run-lease_id :
    (now : ℤ) (l : ILease) (s' : LeaseState) (r : Request) (holder : String)
    → l.lease_id ≡ some holder
    → holder ≢ ""
    → run (at now) (leased_state l) r ≡ ok s'
    → ((lease_of s').lease_id ≡ some holder) ⊎ Names holder r
unfolding run acquire break renew change release new_fixed new_available new_leased new_breaking
    new_broken start_plus Leased.break
run-lease_id now l s' (acquire_request uuid d none) holder h n e = ground (arith, eq_iff holder "")
run-lease_id now l s' (acquire_request uuid d (some p)) holder h n e =
    ground (arith, eq_iff holder p, eq_iff p "")
run-lease_id now l s' (break_request none) holder h n e = ground arith
run-lease_id now l s' (break_request (some p)) holder h n e = ground arith
run-lease_id now l s' (renew_request id) holder h n e = ground arith
run-lease_id now l s' (change_request id p) holder h n e =
    ground (arith, eq_iff holder id, eq_iff holder p)
run-lease_id now l s' (release_request id) holder h n e = ground (arith, eq_iff holder id)
