-- ===== src/Lease/Deletion.antt =====
-- How a lease guards the deletion of a container (deleteContainer of
-- src/blob/persistence/LokiBlobMetadataStore.ts).
use azurite.Prelude.{
  ◌≡◌, ◌≢◌, true, false, Bool, Bool-cases, inl, inr, String, Option, none, some, arith,
  if◌then◌else◌,
}
use azurite.Prelude.Int.{ℤ, pos, negsuc, ◌+ℤ◌, ◌≤ℤ◌}
use azurite.Dates.{date, millis, new_date, before}
use azurite.Errors.{
  Result, ok, err, throw_if, container_lease_lost, container_lease_id_missing,
  container_lease_id_mismatch_with_container_operation,
}
use azurite.Conditions.Model.{Text, ModifiedAccessConditions}
use azurite.Conditions.Write.{validate_write_conditions}
use azurite.Lease.State.{LeaseState, lease_of, create_lease_state, new_leased, new_expired}
use azurite.Lease.Available.{id_or_new}
use azurite.Lease.Operations.{acquire}
use azurite.Lease.Sync.{BlobModel, container_lease_adapter, lease_sync}
use azurite.Lease.Validators.{container_delete_validate, gives_id, mismatch}
use azurite.Lease.Container.{
  apply_to_container, update_container_lease, check_delete, delete_updated, delete_container,
}
use azurite.Lease.Factory.{at}
use azurite.Lease.Protection.{fixed_lease, acquire_inversion}

-- The answer to a deletion with the lease id `id`, of a container that `holder` has locked.
abbrev pub locked_delete : String → Option String → Result (Unit {0})
locked_delete holder none = err container_lease_id_missing
locked_delete holder (some id) =
    throw_if (mismatch (some id) (some holder)) container_lease_id_mismatch_with_container_operation

module _ (tags_match : Text → Result Bool) (c : ModifiedAccessConditions) (b : BlobModel)
    (pass : validate_write_conditions tags_match c (some b.resource) ≡ ok tt) (holder : String)
    (t0 d t : ℤ) (id : Option String) (long : pos 15 ≤ℤ d) (short : d ≤ℤ pos 60) where
  abbrev answer : Result (Unit {0})
  answer =
      (delete_container tags_match (at t) c id (some (lease_sync b (fixed_lease holder t0 d)))).0

  delete_running :
      before (date t) (new_date (t0 +ℤ millis d)) ≡ true → answer ≡ locked_delete holder id
  unfolding delete_container delete_updated check_delete update_container_lease apply_to_container
      create_lease_state new_leased container_lease_adapter lease_sync container_delete_validate
  delete_running h = ground arith

  delete_over :
      before (date t) (new_date (t0 +ℤ millis d)) ≡ false
      → answer ≡ throw_if (gives_id id) container_lease_lost
  unfolding delete_container delete_updated check_delete update_container_lease apply_to_container
      create_lease_state new_expired container_lease_adapter lease_sync container_delete_validate
  delete_over h = ground arith

-- A deletion, whose write conditions pass, of a container whose lease was acquired at t0 for d
-- seconds, where d is not -1: before the date t0 + d s it succeeds if the request gives the acquired
-- id, up to case, and is refused with another id or none; at t0 + d s or later, or if there is no
-- such date, it is refused with a lease id and succeeds without one.
pub delete_container-acquire :
    (tags_match : Text → Result Bool) (c : ModifiedAccessConditions) (b : BlobModel)
    → validate_write_conditions tags_match c (some b.resource) ≡ ok tt
    → (uuid : String) (t0 : ℤ) (s s' : LeaseState) (d : ℤ) (p : Option String)
    → acquire uuid (at t0) s d p ≡ ok s'
    → d ≢ negsuc 0
    → (t : ℤ) (id : Option String)
    → (delete_container tags_match (at t) c id (some (lease_sync b (lease_of s')))).0 ≡ (
        if before (date t) (new_date (t0 +ℤ millis d))
        then locked_delete (id_or_new uuid p) id
        else throw_if (gives_id id) container_lease_lost)
delete_container-acquire tags_match c b pass uuid t0 s s' d p e n t id =
    let (same, long, short) = acquire_inversion uuid t0 s s' d p e n in
    let h = id_or_new uuid p in
    rw same (elim (Bool-cases (before (date t) (new_date (t0 +ℤ millis d)))) [
      | inl early ↦ rw early (delete_running tags_match c b pass h t0 d t id long short early)
      | inr late ↦ rw late (delete_over tags_match c b pass h t0 d t id long short late)
    ])
