-- ===== src/Lease/Containers.antt =====
-- The lease of a container of src/blob/persistence/LokiBlobMetadataStore.ts over a run of requests,
-- and how it guards the container's deletion.
use azurite.Prelude.{◌≤◌, ◌≡◌, refl, Bool, String, Option, none, some, arith, length}
use azurite.Prelude.Int.{ℤ}
use azurite.Errors.{Result, ok, err, Answers, bind-Answers, bind_of_Returns}
use azurite.Conditions.Model.{Text, ModifiedAccessConditions}
use azurite.Conditions.Write.{validate_write_conditions}
use azurite.Lease.Model.{ILease}
use azurite.Lease.State.{LeaseState, lease_of, create_lease_state}
use azurite.Lease.Sync.{BlobModel, container_lease_adapter, lease_sync, read_lease}
use azurite.Lease.Validators.{container_delete_validate}
use azurite.Lease.Blob.{left}
use azurite.Lease.Container.{
  apply_to_container, update_container_lease, container_operation, checked_container_operation,
  check_delete, delete_updated, delete_container,
}
use azurite.Lease.Validity.{IsValid, IsWellFormed}
use azurite.Lease.Factory.{at, create_lease_state-IsValid, lease_of-IsWellFormed}
use azurite.Lease.Stored.{IsQuery, validate-Answers, validate_none-Answers}

-- The invariant of a container's document.
pub record IsStoredContainer (b : BlobModel) : Type 0 where
  pub lease : IsWellFormed (read_lease b)
  pub etag : 3 ≤ length b.resource.etag

abbrev pub IsStoredContainer? : Option BlobModel → Type 0
IsStoredContainer? none = Unit
IsStoredContainer? (some b) = IsStoredContainer b

adapter-IsWellFormed :
    (b : BlobModel) → IsWellFormed (read_lease b) → container_lease_adapter b ≡ ok (read_lease b)
unfolding container_lease_adapter
adapter-IsWellFormed b w = ground arith

read-lease_sync : (b : BlobModel) (l : ILease) → read_lease (lease_sync b l) ≡ l
unfolding lease_sync
read-lease_sync b l = refl

module _ (now : ℤ) (b : BlobModel) (v : IsStoredContainer b) where
  sync-IsStoredContainer :
      (s : LeaseState) → IsValid now s → IsStoredContainer (lease_sync b (lease_of s))
  unfolding lease_sync
  sync-IsStoredContainer s h = record { lease = lease_of-IsWellFormed now s h; etag = v.etag }

  apply-IsStoredContainer :
      (op : LeaseState → Result LeaseState)
      → ((s : LeaseState) → IsValid now s → Answers (IsValid now) (op s))
      → Answers IsStoredContainer (apply_to_container (at now) op b)
  unfolding apply_to_container
  apply-IsStoredContainer op h = rw (adapter-IsWellFormed b v.lease) (
      bind_of_Returns (IsValid now) IsStoredContainer (create_lease_state (read_lease b) (at now)) _
        (create_lease_state-IsValid (read_lease b) now v.lease)
        λ s k.
          bind-Answers (IsValid now) IsStoredContainer (op s) _ (h s k)
            λ s' k'. sync-IsStoredContainer s' k')

left-IsStoredContainer :
    (r : Result BlobModel) (b : BlobModel)
    → Answers IsStoredContainer r
    → IsStoredContainer b
    → IsStoredContainer (left r b)
left-IsStoredContainer (ok b') b h v = h
left-IsStoredContainer (err e) b h v = v

-- The response is a value or an error of the protocol, and the document left is stored.
abbrev pub KeptContainer {ℓ} : {A : Type ℓ} → Result A × Option BlobModel → Type 0
KeptContainer o = Answers (λ _. Unit {0}) o.0 × IsStoredContainer? o.1

any-Answers : (r : Result BlobModel) → Answers IsStoredContainer r → Answers (λ _. Unit {0}) r
any-Answers (ok b) h = tt
any-Answers (err e) h = h

module _ (tags_match : Text → Result Bool) (q : IsQuery tags_match) (now : ℤ)
    (c : ModifiedAccessConditions) where
  pub container_operation-Kept :
      (op : LeaseState → Result LeaseState)
      → ((s : LeaseState) → IsValid now s → Answers (IsValid now) (op s))
      → (d : Option BlobModel) → IsStoredContainer? d
      → KeptContainer (container_operation tags_match (at now) c op d)
  unfolding container_operation checked_container_operation
  container_operation-Kept op safe none v = (
    bind-Answers (λ _. Unit) (λ _. Unit) (validate_write_conditions tags_match c none) _
        (validate_none-Answers tags_match q c) (λ _ _. tt),
    tt,
  )
  container_operation-Kept op safe (some b) v =
      let k : Answers IsStoredContainer (checked_container_operation tags_match (at now) c op b) =
        bind-Answers (λ _. Unit) IsStoredContainer
          (validate_write_conditions tags_match c (some b.resource)) _
          (validate-Answers tags_match q c b.resource v.etag)
          (λ _ _. apply-IsStoredContainer now b v op safe) in
      (any-Answers _ k, left-IsStoredContainer _ b k v)

  delete_check-Answers :
      (id : Option String) (l : ILease) → Answers (λ _. Unit {0}) (container_delete_validate id l)
  unfolding container_delete_validate
  delete_check-Answers none l = ground arith
  delete_check-Answers (some id) l = ground arith

  check_delete-Answers :
      (id : Option String) (b : BlobModel)
      → IsStoredContainer b
      → Answers (λ _. Unit {0}) (check_delete tags_match (at now) c id b)
  unfolding check_delete
  check_delete-Answers id b v = rw (adapter-IsWellFormed b v.lease) (
      bind-Answers (λ _. Unit) (λ _. Unit)
        (validate_write_conditions tags_match c (some b.resource)) _
        (validate-Answers tags_match q c b.resource v.etag)
        (λ _ _. delete_check-Answers id (read_lease b)))

  delete_updated-Kept :
      (id : Option String) (r : Result BlobModel) (b : BlobModel)
      → Answers IsStoredContainer r
      → IsStoredContainer b
      → KeptContainer (delete_updated tags_match (at now) c id r b)
  unfolding delete_updated
  delete_updated-Kept id (err e) b h v = (h, v)
  delete_updated-Kept id (ok b') b h v = ground (arith, check_delete-Answers id b')

  pub delete_container-Kept :
      (id : Option String) (d : Option BlobModel)
      → IsStoredContainer? d
      → KeptContainer (delete_container tags_match (at now) c id d)
  unfolding delete_container update_container_lease
  delete_container-Kept id none v = (
    bind-Answers (λ _. Unit) (λ _. Unit) (validate_write_conditions tags_match c none) _
        (validate_none-Answers tags_match q c) (λ _ _. tt),
    tt,
  )
  delete_container-Kept id (some b) v =
      delete_updated-Kept id _ b (apply-IsStoredContainer now b v (λ s. ok s) (λ s k. k)) v
