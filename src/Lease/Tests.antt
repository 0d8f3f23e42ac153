-- ===== src/Lease/Tests.antt =====
-- The lease operations on small leases.
use azurite.Prelude.{
  ℕ, ◌≤◌, ◌≡◌, ◌↔◌, ◌⊎◌, refl, Bool, true, not, ◌&&◌, none, some, [], ◌∷◌, arith, if◌then◌else◌,
  str_eq, eq_iff,
}
use azurite.Prelude.Int.{pos, ◌+ℤ◌, ◌<ℤ◌, ◌≤ℤ◌}
use azurite.Dates.{date, invalid_date, millis, new_date, before, max_time}
use azurite.Errors.{
  Result, ok, err, ◌>>=◌, throw_if, invalid_lease_break_period, blob_lease_lost,
  lease_id_mismatch_with_lease_operation, container_lease_lost,
}
use azurite.Conditions.Model.{Text, ModifiedAccessConditions}
use azurite.Lease.Model.{
  ILease, infinite, fixed, available, leased, breaking, broken, locked, unlocked, start_plus,
}
use azurite.Lease.State.{
  available_state, leased_state, breaking_state, lease_of, no_lease, create_lease_state, new_leased,
  new_breaking, new_broken,
}
use azurite.Lease.Available.{new_fixed, id_or_new}
use azurite.Lease.Operations.{
  acquire, break, renew, acquire_request, break_request, renew_request, run,
}
use azurite.Lease.Sync.{BlobModel, lease_sync, blob_lease_adapter}
use azurite.Lease.Validators.{gives_id, same_id, codes_eq, lower}
use azurite.Lease.Blob.{carry_lease}
use azurite.Lease.Validity.{IsValid}
use azurite.Lease.Factory.{at}
use azurite.Lease.Preservation.{IsClock, Safe, run-IsValid}
use azurite.Lease.Stored.{IsQuery, IsStoredBlob, IsStoredDoc, Kept}
use azurite.Lease.Visits.{Visit, visit, visits, visit-Kept, visits-IsStoredDoc}
use azurite.Lease.Protection.{
  fixed_lease, locked_answer, void, carry_lease-acquire, renew_after_acquire,
}
use azurite.Lease.Timing.{Ends, IsEnding, break-Ends, break_period}
use azurite.Lease.Ownership.{Names, run-lease_id}
use azurite.Conditions.Read.{check_tags}
use azurite.Conditions.Write.{validate_write_conditions, write_validate}
use azurite.Conditions.Model.{condition_resource, conditional_headers}
use azurite.Lease.Container.{delete_container}
use azurite.Lease.Containers.{IsStoredContainer, KeptContainer}
use azurite.Lease.ContainerVisits.{
  ContainerVisit, lease_request, delete_request, container_visit, container_visits,
  container_visits-Kept,
}
use azurite.Lease.Deletion.{locked_delete, delete_container-acquire}
use azurite.Lease.Diagram.{Edge, class_of, run_edge}

abbrev free : ILease
free = record no_lease { lease_state = some available; lease_status = some unlocked }

-- ann's lease of 20 seconds, from 10 s after the epoch.
abbrev held : ILease
held = fixed_lease "ann" (pos 10000) (pos 20)

abbrev kept_for_ever : ILease
kept_for_ever = record {
  lease_id = some "ann";
  lease_state = some leased;
  lease_status = some locked;
  lease_duration_type = some infinite;
  lease_duration_seconds = none;
  lease_expire_time = none;
  lease_break_time = none;
}

held-IsValid : IsValid (pos 12000) (leased_state held)
unfolding new_date ◌+ℤ◌
held-IsValid = ground arith

abbrev blob : BlobModel
blob = record {
  resource = record {
    is_committed = true;
    etag = b'"' ∷ b'1' ∷ b'"' ∷ [];
    last_modified = date (pos 0);
  };
  snapshot = "";
  lease_id = none;
  lease_expire_time = none;
  lease_duration_seconds = none;
  lease_break_time = none;
  properties = record { lease_duration = none; lease_state = none; lease_status = none };
}

blob-IsStoredBlob : IsStoredBlob blob
unfolding blob_lease_adapter
blob-IsStoredBlob = ground arith

abbrev all : Text → Result Bool
all t = ok true

all-IsQuery : IsQuery all
all-IsQuery t = tt

abbrev no_headers : ModifiedAccessConditions
no_headers = record {
  if_match = none;
  if_none_match = none;
  if_modified_since = none;
  if_unmodified_since = none;
  if_tags = none;
}

abbrev taken : Visit
taken = record {
  time = pos 10000;
  conditions = no_headers;
  request = acquire_request "uuid" (pos 20) (some "ann");
}

abbrev broken_later : Visit
broken_later = record { time = pos 12000; conditions = no_headers; request = break_request none }

acquire_test :
    acquire "uuid" (at (pos 10000)) (available_state free) (pos 20) (some "ann")
    ≡ ok (leased_state held)
unfolding acquire new_fixed new_leased start_plus new_date ◌+ℤ◌
acquire_test = refl

-- Ids are compared without case.
case_test : same_id "Ann" "aNN" ≡ true
unfolding same_id codes_eq lower
case_test = refl

in_time : (n : ℕ) → n ≤ 8639999999940000 → IsClock (pos n)
in_time n h = (omega arith, omega (arith, h))

minute_later : pos 12000 +ℤ millis (pos 60) ≤ℤ pos max_time
unfolding ◌+ℤ◌
minute_later = omega arith

visits-IsStoredDoc_example : IsStoredDoc (visits all (some blob) (taken ∷ broken_later ∷ []))
visits-IsStoredDoc_example =
    visits-IsStoredDoc all all-IsQuery (some blob) (taken ∷ broken_later ∷ [])
      ((in_time 10000 (omega arith), tt), ((in_time 12000 (omega arith), tt), tt)) blob-IsStoredBlob

visit-Kept_example : Kept (visit all (some blob) taken)
visit-Kept_example =
    visit-Kept all all-IsQuery (some blob) taken (in_time 10000 (omega arith), tt) blob-IsStoredBlob

carry_lease-acquire_example :
    void (carry_lease (at (pos 29999)) (some "bob") (lease_sync blob held) blob) ≡ (
      if before (date (pos 29999)) (new_date (pos 10000 +ℤ millis (pos 20)))
      then locked_answer (id_or_new "uuid" (some "ann")) (some "bob")
      else throw_if (gives_id (some "bob")) blob_lease_lost)
carry_lease-acquire_example =
    carry_lease-acquire "uuid" (pos 10000) (available_state free) (leased_state held) (pos 20)
      (some "ann") acquire_test (λ e. cc e) (pos 29999) blob blob (some "bob")

run-lease_id_example :
    ((lease_of (leased_state held)).lease_id ≡ some "ann") ⊎ Names "ann" (renew_request "ann")
run-lease_id_example =
    run-lease_id (pos 10000) held (leased_state held) (renew_request "ann") "ann" refl
      (ground (arith, eq_iff "ann" ""))
      (unfold run renew new_leased start_plus new_date ◌+ℤ◌ in refl)

run-IsValid_example :
    Safe (pos 12000) (run (at (pos 12000)) (leased_state held) (break_request (some (pos 60))))
run-IsValid_example =
    run-IsValid (pos 12000) (leased_state held) (break_request (some (pos 60)))
      (in_time 12000 (omega arith), (omega arith, minute_later)) held-IsValid

abbrev winding_down : ILease
winding_down = record no_lease {
  lease_id = some "ann";
  lease_state = some breaking;
  lease_status = some locked;
  lease_break_time = some (date (pos 17000));
}

held-Ends : Ends (pos 30000) (leased_state held)
unfolding new_date ◌+ℤ◌
held-Ends = omega arith

break-Ends_example :
    Ends (pos 30000) (breaking_state winding_down) × IsEnding (breaking_state winding_down)
break-Ends_example =
    break-Ends (pos 12000) (pos 30000) (leased_state held) (breaking_state winding_down)
      (some (pos 5)) held-IsValid held-Ends
      (unfold break new_breaking start_plus new_date ◌+ℤ◌ in refl)

run_edge_example : Edge (renew_request "ann") leased leased
run_edge_example =
    run_edge (pos 10000) (leased_state held) {s' = leased_state held} (renew_request "ann")
      (unfold run renew new_leased start_plus new_date ◌+ℤ◌ in refl)

renew_after_acquire_example :
    (do
      s ← create_lease_state (fixed_lease "ann" (pos 10000) (pos 20)) (at (pos 30000))
      renew (at (pos 30000)) s "bob")
    ≡ (if before (date (pos 30000)) (new_date (pos 10000 +ℤ millis (pos 20)))
          && not (str_eq "ann" "bob")
        then err lease_id_mismatch_with_lease_operation
        else ok (leased_state (fixed_lease "ann" (pos 30000) (pos 20))))
renew_after_acquire_example =
    renew_after_acquire "ann" (pos 10000) (pos 20) (pos 30000) "bob" (omega arith) (omega arith)

-- A break period after which JavaScript has no date is taken: the lease counts as broken at once.
endless : ILease
endless = record no_lease {
  lease_id = kept_for_ever.lease_id;
  lease_state = some breaking;
  lease_status = some locked;
  lease_break_time = some invalid_date;
}

endless_break :
    break (at (pos 0)) (leased_state kept_for_ever) (some (pos 10000000000000))
    ≡ ok (breaking_state endless)
unfolding break new_breaking start_plus new_date ◌+ℤ◌ endless
endless_break = refl

endless_over : (do s ← create_lease_state endless (at (pos 1)); ok (class_of s)) ≡ ok broken
unfolding create_lease_state new_broken endless
endless_over = refl

break_period_example :
    (break (at (pos 0)) (leased_state kept_for_ever) (some (pos 3600))
      ≡ err invalid_lease_break_period)
    ↔ ((kept_for_ever.lease_duration_type ≡ some fixed) × (pos 60 <ℤ pos 3600))
break_period_example = break_period (pos 0) (pos 3600) kept_for_ever (ground arith) (omega arith)

abbrev container : BlobModel
container = record blob {
  properties = record {
    lease_duration = none;
    lease_state = some available;
    lease_status = some unlocked;
  };
}

container-IsStoredContainer : IsStoredContainer container
container-IsStoredContainer = ground arith

no_headers_pass : validate_write_conditions all no_headers (some container.resource) ≡ ok tt
unfolding validate_write_conditions condition_resource conditional_headers write_validate check_tags
no_headers_pass = refl

abbrev taken_container : ContainerVisit
taken_container = record {
  time = pos 10000;
  conditions = no_headers;
  request = lease_request (acquire_request "uuid" (pos 20) (some "ann"));
}

abbrev deleted : ContainerVisit
deleted = record {
  time = pos 12000;
  conditions = no_headers;
  request = delete_request (some "ann");
}

container_visits-Kept_example :
    KeptContainer
      (container_visit all (container_visits all (some container) (taken_container ∷ [])) deleted)
container_visits-Kept_example =
    container_visits-Kept all all-IsQuery (some container) (taken_container ∷ []) deleted
      ((in_time 10000 (omega arith), tt), tt) tt container-IsStoredContainer

delete_container-acquire_example :
    (delete_container all
      (at (pos 12000))
      no_headers
      (some "bob")
      (some (lease_sync container held))).0
    ≡ (if before (date (pos 12000)) (new_date (pos 10000 +ℤ millis (pos 20)))
        then locked_delete (id_or_new "uuid" (some "ann")) (some "bob")
        else throw_if (gives_id (some "bob")) container_lease_lost)
delete_container-acquire_example =
    delete_container-acquire all no_headers container no_headers_pass "uuid" (pos 10000)
      (available_state free) (leased_state held) (pos 20) (some "ann") acquire_test (λ e. cc e)
      (pos 12000) (some "bob")
