-- ===== src/Lease/Container.antt =====
-- src/blob/persistence/LokiBlobMetadataStore.ts: the lease operations on a container, and what guards
-- its deletion. A ContainerModel is a BlobModel with an empty snapshot that counts as committed; the
-- removal of the container's blobs and blocks is left out.
use azurite.Prelude.{Bool, String, Option, none, some}
use azurite.Prelude.Int.{ℤ}
use azurite.Errors.{Result, ok, err, container_not_found, ◌>>=◌, ◌>>◌}
use azurite.Conditions.Model.{Text, ModifiedAccessConditions}
use azurite.Conditions.Write.{validate_write_conditions}
use azurite.Lease.Model.{Context}
use azurite.Lease.State.{LeaseState, lease_of, create_lease_state}
use azurite.Lease.Operations.{acquire, break, renew, change, release}
use azurite.Lease.Sync.{BlobModel, container_lease_adapter, lease_sync}
use azurite.Lease.Validators.{container_delete_validate}
use azurite.Lease.Blob.{left}

-- The factory, what is done with the state that it makes, and the syncer.
unfoldable pub apply_to_container :
    Context → (LeaseState → Result LeaseState) → BlobModel → Result BlobModel
apply_to_container ctx op b = do
  l ← container_lease_adapter b
  s ← create_lease_state l ctx
  s' ← op s
  ok (lease_sync b (lease_of s'))

-- The end of getContainerWithLeaseUpdated.
unfoldable pub update_container_lease : Context → BlobModel → Result BlobModel
unfolding apply_to_container
update_container_lease ctx b = apply_to_container ctx (λ s. ok s) b

module _ (tags_match : Text → Result Bool) (ctx : Context) (c : ModifiedAccessConditions) where
  -- The five operations have this body in common: they read the container without a lease update.
  unfoldable pub checked_container_operation :
      (LeaseState → Result LeaseState) → BlobModel → Result BlobModel
  checked_container_operation op b = do
    validate_write_conditions tags_match c (some b.resource)
    apply_to_container ctx op b

  unfoldable pub container_operation :
      (LeaseState → Result LeaseState) → Option BlobModel → Result BlobModel × Option BlobModel
  container_operation op none =
      (do validate_write_conditions tags_match c none; err container_not_found, none)
  container_operation op (some b) = let r = checked_container_operation op b in (r, some (left r b))

  unfoldable pub acquire_container_lease :
      String → ℤ → Option String → Option BlobModel → Result BlobModel × Option BlobModel
  acquire_container_lease uuid duration proposed =
      container_operation (λ s. acquire uuid ctx s duration proposed)

  unfoldable pub release_container_lease :
      String → Option BlobModel → Result BlobModel × Option BlobModel
  release_container_lease id = container_operation (λ s. release ctx s id)

  unfoldable pub renew_container_lease :
      String → Option BlobModel → Result BlobModel × Option BlobModel
  renew_container_lease id = container_operation (λ s. renew ctx s id)

  -- The response's leaseTime is computed from the document that is left, as for a blob.
  unfoldable pub break_container_lease :
      Option ℤ → Option BlobModel → Result BlobModel × Option BlobModel
  break_container_lease period = container_operation (λ s. break ctx s period)

  unfoldable pub change_container_lease :
      String → String → Option BlobModel → Result BlobModel × Option BlobModel
  change_container_lease id proposed = container_operation (λ s. change ctx s id proposed)

  -- From the write conditions of deleteContainer to its lease check, on the updated document.
  unfoldable pub check_delete : Option String → BlobModel → Result (Unit {0})
  check_delete id b = do
    validate_write_conditions tags_match c (some b.resource)
    l ← container_lease_adapter b
    container_delete_validate id l

  unfoldable pub delete_updated :
      Option String → Result BlobModel → BlobModel → Result (Unit {0}) × Option BlobModel
  delete_updated id (err e) b = (err e, some b)
  delete_updated id (ok b') b = elim (check_delete id b') [
    | ok u ↦ (ok tt, none)
    | err e ↦ (err e, some b')
  ]

  unfoldable pub delete_container :
      Option String → Option BlobModel → Result (Unit {0}) × Option BlobModel
  delete_container id none =
      (do validate_write_conditions tags_match c none; err container_not_found, none)
  delete_container id (some b) = delete_updated id (update_container_lease ctx b) b
