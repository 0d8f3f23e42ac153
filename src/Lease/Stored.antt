-- ===== src/Lease/Stored.antt =====
-- The invariant of a stored blob, and each lease operation of LokiBlobMetadataStore on it (Blob).
use azurite.Prelude.{◌≤◌, ◌≡◌, Bool, Option, none, some, [], ◌∷◌, arith, not, length, str_eq}
use azurite.Prelude.Int.{ℤ}
use azurite.Errors.{
  Result, ok, err, Returns, Answers, throw_if, blob_snapshots_present, throw_if-Answers,
  bind-Answers, bind-Returns, bind_of_Returns,
}
use azurite.Conditions.Model.{
  Text, ModifiedAccessConditions, ConditionalHeaders, ConditionResource, Resource,
  condition_resource, conditional_headers,
}
use azurite.Conditions.Read.{check_tags}
use azurite.Conditions.Write.{validate_write_conditions, write_validate}
use azurite.Lease.Model.{ILease}
use azurite.Lease.State.{LeaseState, lease_of, create_lease_state}
use azurite.Lease.Sync.{BlobModel, blob_lease_adapter, lease_sync}
use azurite.Lease.Blob.{
  update_lease, apply_operation, operation_after, checked_operation, lease_operation, left,
}
use azurite.Lease.Validity.{IsValid, IsWellFormed}
use azurite.Lease.Factory.{at, create_lease_state-IsValid, lease_of-IsWellFormed}

-- A where clause may fail to parse, and that is an error of the protocol.
abbrev pub IsQuery : (Text → Result Bool) → Type 0
IsQuery tags_match = (t : Text) → Answers (λ _. Unit {0}) (tags_match t)

-- The invariant of a blob's document.
pub record IsStoredBlob (b : BlobModel) : Type 0 where
  pub lease : IsWellFormed (blob_lease_adapter b)
  pub etag : 3 ≤ length b.resource.etag

module _ (tags_match : Text → Result Bool) (q : IsQuery tags_match) where
  check_tags-Answers : (t : Option Text) → Answers (λ _. Unit {0}) (check_tags tags_match t)
  unfolding check_tags
  check_tags-Answers none = tt
  check_tags-Answers (some []) = tt
  check_tags-Answers (some (c ∷ cs)) = ground (arith, q (c ∷ cs))

  write_validate-Answers :
      (h : ConditionalHeaders) (r : ConditionResource)
      → Answers (λ _. Unit {0}) (write_validate tags_match h r)
  unfolding write_validate
  write_validate-Answers h r = ground (arith, check_tags-Answers h.if_tags)

  -- For a resource whose etag has three characters no plain Error comes out.
  condition_resource-Answers :
      (r : Resource) → 3 ≤ length r.etag → Answers (λ _. Unit {0}) (condition_resource (some r))
  unfolding condition_resource
  condition_resource-Answers r h = ground arith

  pub validate-Answers :
      (c : ModifiedAccessConditions) (r : Resource)
      → 3 ≤ length r.etag
      → Answers (λ _. Unit {0}) (validate_write_conditions tags_match c (some r))
  unfolding validate_write_conditions
  validate-Answers c r h =
      bind-Answers (λ _. Unit) (λ _. Unit) (condition_resource (some r)) _
        (condition_resource-Answers r h) λ a _. write_validate-Answers (conditional_headers c) a

  pub validate_none-Answers :
      (c : ModifiedAccessConditions)
      → Answers (λ _. Unit {0}) (validate_write_conditions tags_match c none)
  unfolding validate_write_conditions condition_resource
  validate_none-Answers c = write_validate-Answers (conditional_headers c) _

-- A well-formed lease that the syncer writes to a blob is the lease that the adapter reads back.
pub adapter-lease_sync :
    (b : BlobModel) (l : ILease) → IsWellFormed l → blob_lease_adapter (lease_sync b l) ≡ l
unfolding blob_lease_adapter lease_sync
adapter-lease_sync b l w = ground arith

module _ (now : ℤ) (b : BlobModel) (v : IsStoredBlob b) where
  sync-IsStoredBlob : (s : LeaseState) → IsValid now s → IsStoredBlob (lease_sync b (lease_of s))
  unfolding lease_sync
  sync-IsStoredBlob s h =
      let w = lease_of-IsWellFormed now s h in
      record { lease = rw (adapter-lease_sync b (lease_of s) w) w; etag = v.etag }

  update_lease-IsStoredBlob : Returns IsStoredBlob (update_lease (at now) b)
  unfolding update_lease
  update_lease-IsStoredBlob =
      bind-Returns (IsValid now) IsStoredBlob (create_lease_state (blob_lease_adapter b) (at now)) _
        (create_lease_state-IsValid (blob_lease_adapter b) now v.lease) λ s k. sync-IsStoredBlob s k

  apply_operation-IsStoredBlob :
      (op : LeaseState → Result LeaseState)
      → ((s : LeaseState) → IsValid now s → Answers (IsValid now) (op s))
      → Answers IsStoredBlob (apply_operation (at now) op b)
  unfolding apply_operation
  apply_operation-IsStoredBlob op h =
      bind_of_Returns (IsValid now) IsStoredBlob
        (create_lease_state (blob_lease_adapter b) (at now)) _
        (create_lease_state-IsValid (blob_lease_adapter b) now v.lease)
        λ s k.
          bind-Answers (IsValid now) IsStoredBlob (op s) _ (h s k) λ s' k'. sync-IsStoredBlob s' k'

left-IsStoredBlob :
    (r : Result BlobModel) (b : BlobModel)
    → Answers IsStoredBlob r
    → IsStoredBlob b
    → IsStoredBlob (left r b)
left-IsStoredBlob (ok b') b h v = h
left-IsStoredBlob (err e) b h v = v

-- A blob that was not found stays so.
abbrev pub IsStoredDoc : Option BlobModel → Type 0
IsStoredDoc none = Unit
IsStoredDoc (some b) = IsStoredBlob b

-- The response is a stored blob or an error of the protocol, and the document left is stored.
abbrev pub Kept : Result BlobModel × Option BlobModel → Type 0
Kept o = Answers IsStoredBlob o.0 × IsStoredDoc o.1

module _ (tags_match : Text → Result Bool) (q : IsQuery tags_match) (now : ℤ)
    (c : ModifiedAccessConditions) (op : LeaseState → Result LeaseState)
    (safe : (s : LeaseState) → IsValid now s → Answers (IsValid now) (op s)) where
  checked-IsStoredBlob :
      (b : BlobModel)
      → IsStoredBlob b
      → Answers IsStoredBlob (checked_operation tags_match (at now) c op b)
  unfolding checked_operation
  checked-IsStoredBlob b v =
      bind-Answers (λ _. Unit) IsStoredBlob
        (validate_write_conditions tags_match c (some b.resource)) _
        (validate-Answers tags_match q c b.resource v.etag)
        λ _ _.
          bind-Answers (λ _. Unit) IsStoredBlob
            (throw_if (not (str_eq b.snapshot "")) blob_snapshots_present) _
            (throw_if-Answers (not (str_eq b.snapshot "")) blob_snapshots_present tt)
            λ _ _. apply_operation-IsStoredBlob now b v op safe

  operation_after-Kept :
      (b : BlobModel) (u : Result BlobModel)
      → Returns IsStoredBlob u
      → let o = operation_after tags_match (at now) c op u b in Kept (o.0, some o.1)
  unfolding operation_after
  operation_after-Kept b (err e) h = absurd h
  operation_after-Kept b (ok b') h =
      let k = checked-IsStoredBlob b' h in (k, left-IsStoredBlob _ b' k h)

  pub lease_operation-Kept :
      (d : Option BlobModel) → IsStoredDoc d → Kept (lease_operation tags_match (at now) c op d)
  unfolding lease_operation
  lease_operation-Kept none v = (
    bind-Answers (λ _. Unit) IsStoredBlob (validate_write_conditions tags_match c none) _
        (validate_none-Answers tags_match q c) (λ _ _. tt),
    tt,
  )
  lease_operation-Kept (some b) v =
      operation_after-Kept b (update_lease (at now) b) (update_lease-IsStoredBlob now b v)
