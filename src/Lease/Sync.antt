-- ===== src/Lease/Sync.antt =====
-- src/blob/lease: the adapters that read a lease off a blob or a container, and the syncers that
-- write one back.
use azurite.Prelude.{◌||◌, String, Option, none, some, if◌then◌else◌}
use azurite.Prelude.Int.{ℤ}
use azurite.Dates.{Date}
use azurite.Errors.{Result, ok, err, range_error}
use azurite.Conditions.Model.{Resource}
use azurite.Lease.Model.{
  ILease, LeaseStateType, LeaseStatusType, LeaseDurationType, available, unlocked, is_expired,
  is_broken,
}

pub record LeaseProperties : Type 0 where
  pub lease_duration : Option LeaseDurationType
  pub lease_state : Option LeaseStateType
  pub lease_status : Option LeaseStatusType

-- The fields of BlobModel that leases and conditions read or write. A ContainerModel has the same
-- lease fields, an empty snapshot and counts as committed.
pub record BlobModel : Type 0 where
  pub resource : Resource
  pub snapshot : String
  pub lease_id : Option String
  pub lease_expire_time : Option Date
  pub lease_duration_seconds : Option ℤ
  pub lease_break_time : Option Date
  pub properties : LeaseProperties

abbrev pub or_else {ℓ} : {A : Type ℓ} → Option A → A → Option A
or_else none a = some a
or_else (some b) a = some b

-- What the constructor of BlobLeaseAdapter writes to the blob.
unfoldable pub with_defaults : BlobModel → BlobModel
with_defaults b =
    let p = b.properties in
    record b {
      properties = record {
        lease_duration = p.lease_duration;
        lease_state = or_else p.lease_state available;
        lease_status = or_else p.lease_status unlocked;
      };
    }

abbrev pub read_lease : BlobModel → ILease
read_lease b = record {
  lease_id = b.lease_id;
  lease_state = b.properties.lease_state;
  lease_status = b.properties.lease_status;
  lease_duration_type = b.properties.lease_duration;
  lease_duration_seconds = b.lease_duration_seconds;
  lease_expire_time = b.lease_expire_time;
  lease_break_time = b.lease_break_time;
}

unfoldable pub blob_lease_adapter : BlobModel → ILease
unfolding with_defaults
blob_lease_adapter b = read_lease (with_defaults b)

unfoldable pub container_lease_adapter : BlobModel → Result ILease
container_lease_adapter c = elim c.properties.lease_state [
  | none ↦ err range_error
  | some s ↦ elim c.properties.lease_status [ none ↦ err range_error | some t ↦ ok (read_lease c) ]
]

-- BlobLeaseSyncer.sync, and ContainerLeaseSyncer.sync, which has the same body.
unfoldable pub lease_sync : BlobModel → ILease → BlobModel
lease_sync b l = record b {
  lease_id = l.lease_id;
  lease_expire_time = l.lease_expire_time;
  lease_duration_seconds = l.lease_duration_seconds;
  lease_break_time = l.lease_break_time;
  properties = record {
    lease_duration = l.lease_duration_type;
    lease_state = l.lease_state;
    lease_status = l.lease_status;
  };
}

-- BlobWriteLeaseSyncer.sync
unfoldable pub write_lease_sync : BlobModel → ILease → BlobModel
unfolding lease_sync
write_lease_sync b l =
    let b' = lease_sync b l in
    if is_expired l.lease_state || is_broken l.lease_state
    then record b' {
      lease_id = none;
      lease_expire_time = none;
      lease_duration_seconds = none;
      lease_break_time = none;
      properties = record {
        lease_duration = none;
        lease_state = some available;
        lease_status = some unlocked;
      };
    }
    else lease_sync b' l
