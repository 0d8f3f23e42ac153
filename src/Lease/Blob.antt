-- ===== src/Lease/Blob.antt =====
-- src/blob/persistence/LokiBlobMetadataStore.ts: the lease operations on a blob. A document of the
-- database is shared, so what was written before a throw stays written: each function returns the
-- document beside its result. Finding the document and its container is the caller's part here.
use azurite.Prelude.{
  ◌+◌, ◌-◌, ◌/◌, Bool, not, String, Option, none, some, if◌then◌else◌, ltb, str_eq,
}
use azurite.Prelude.Int.{ℤ, pos, negsuc, ◌-ℤ◌}
use azurite.Dates.{date, invalid_date}
use azurite.Errors.{
  Result, ok, err, blob_not_found, blob_snapshots_present, type_error, ◌>>=◌, ◌>>◌, throw_if,
}
use azurite.Conditions.Model.{Text, ModifiedAccessConditions}
use azurite.Conditions.Write.{validate_write_conditions}
use azurite.Lease.Model.{Context, is_breaking}
use azurite.Lease.State.{LeaseState, lease_of, create_lease_state}
use azurite.Lease.Operations.{acquire, break, renew, change, release}
use azurite.Lease.Sync.{BlobModel, with_defaults, blob_lease_adapter, lease_sync, write_lease_sync}
use azurite.Lease.Validators.{blob_write_validate}

-- The end of getBlobWithLeaseUpdated for a base blob (an empty snapshot).
unfoldable pub update_lease : Context → BlobModel → Result BlobModel
update_lease ctx b = do
  s ← create_lease_state (blob_lease_adapter b) ctx
  ok (lease_sync b (lease_of s))

-- The factory, one operation of the state that it makes, and the syncer.
unfoldable pub apply_operation :
    Context → (LeaseState → Result LeaseState) → BlobModel → Result BlobModel
apply_operation ctx op b = do
  s ← create_lease_state (blob_lease_adapter b) ctx
  s' ← op s
  ok (lease_sync b (lease_of s'))

-- The document that a result leaves: the new one, or the one before a throw.
abbrev pub left : Result BlobModel → BlobModel → BlobModel
left (ok b') b = b'
left (err e) b = b

-- What createBlob does of leases when `old` is there and `new` replaces it: the lease is checked
-- against the request's lease id and carried over.
unfoldable pub carry_lease : Context → Option String → BlobModel → BlobModel → Result BlobModel
carry_lease ctx id old new = do
  s ← create_lease_state (blob_lease_adapter old) ctx
  blob_write_validate id (lease_of s)
  ok (write_lease_sync new (lease_of s))

module _ (tags_match : Text → Result Bool) (ctx : Context) (c : ModifiedAccessConditions) where
  -- From the write conditions to coll.update.
  unfoldable pub checked_operation : (LeaseState → Result LeaseState) → BlobModel → Result BlobModel
  checked_operation op b = do
    validate_write_conditions tags_match c (some b.resource)
    throw_if (not (str_eq b.snapshot "")) blob_snapshots_present
    apply_operation ctx op b

  unfoldable pub operation_after :
      (LeaseState → Result LeaseState) → Result BlobModel → BlobModel → Result BlobModel × BlobModel
  operation_after op (err e) b = (err e, with_defaults b)
  operation_after op (ok b') b = let r = checked_operation op b' in (r, left r b')

  -- The five operations have this body in common. `none` is a blob that was not found.
  unfoldable pub lease_operation :
      (LeaseState → Result LeaseState) → Option BlobModel → Result BlobModel × Option BlobModel
  unfolding checked_operation operation_after
  lease_operation op none =
      (do validate_write_conditions tags_match c none; err blob_not_found, none)
  lease_operation op (some b) =
      let (r, b') = operation_after op (update_lease ctx b) b in (r, some b')

  unfoldable pub acquire_blob_lease :
      String → ℤ → Option String → Option BlobModel → Result BlobModel × Option BlobModel
  unfolding lease_operation
  acquire_blob_lease uuid duration proposed =
      lease_operation (λ s. acquire uuid ctx s duration proposed)

  unfoldable pub release_blob_lease :
      String → Option BlobModel → Result BlobModel × Option BlobModel
  unfolding lease_operation
  release_blob_lease id = lease_operation (λ s. release ctx s id)

  unfoldable pub renew_blob_lease : String → Option BlobModel → Result BlobModel × Option BlobModel
  unfolding lease_operation
  renew_blob_lease id = lease_operation (λ s. renew ctx s id)

  unfoldable pub change_blob_lease :
      String → String → Option BlobModel → Result BlobModel × Option BlobModel
  unfolding lease_operation
  change_blob_lease id proposed = lease_operation (λ s. change ctx s id proposed)

  -- The response's leaseTime is lease_time_seconds of the document that is left.
  unfoldable pub break_blob_lease :
      Option ℤ → Option BlobModel → Result BlobModel × Option BlobModel
  unfolding lease_operation
  break_blob_lease period = lease_operation (λ s. break ctx s period)

-- `Math.round(ms / 1000)`
unfoldable pub round_seconds : ℤ → ℤ
round_seconds (pos n) = pos ((n + 500) / 1000)
round_seconds (negsuc n) = if ltb n 500 then pos 0 else negsuc ((n + 500) / 1000 - 1)

-- leaseTimeSeconds of breakBlobLease; `none` is NaN.
unfoldable pub lease_time_seconds : Context → BlobModel → Result (Option ℤ)
lease_time_seconds ctx b =
    if not (is_breaking b.properties.lease_state)
    then ok (some (pos 0))
    else elim b.lease_break_time [
      | none ↦ ok (some (pos 0))
      | some invalid_date ↦ ok none
      | some (date time) ↦ elim ctx.start_time [
        | none ↦ err type_error
        | some invalid_date ↦ ok none
        | some (date now) ↦ ok (some (round_seconds (time -ℤ now)))
      ]
    ]
