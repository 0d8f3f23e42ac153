-- ===== src/Lease/ContainerVisits.antt =====
-- Requests on one container (src/blob/persistence/LokiBlobMetadataStore.ts), each at its own time:
-- the lease operations and the deletion.
use azurite.Prelude.{Bool, String, Option, List, [], ◌∷◌}
use azurite.Prelude.Int.{ℤ}
use azurite.Errors.{Result, ok, err}
use azurite.Conditions.Model.{Text, ModifiedAccessConditions}
use azurite.Lease.Operations.{
  Request, acquire_request, break_request, renew_request, change_request, release_request,
}
use azurite.Lease.Sync.{BlobModel}
use azurite.Lease.Container.{
  acquire_container_lease, release_container_lease, renew_container_lease, break_container_lease,
  change_container_lease, delete_container,
}
use azurite.Lease.Factory.{at}
use azurite.Lease.Preservation.{
  IsAllowed, acquire-IsValid, break-IsValid, renew-IsValid, change-IsValid, release-IsValid,
}
use azurite.Lease.Stored.{IsQuery}
use azurite.Lease.Containers.{
  IsStoredContainer?, KeptContainer, container_operation-Kept, delete_container-Kept,
}

-- A request on a container: one of its lease, or a deletion with a lease id.
pub data ContainerRequest : Type 0 where
  lease_request : Request → ContainerRequest
  delete_request : Option String → ContainerRequest

pub record ContainerVisit : Type 0 where
  pub time : ℤ
  pub conditions : ModifiedAccessConditions
  pub request : ContainerRequest

abbrev pub IsAllowedVisit : ContainerVisit → Type 0
IsAllowedVisit w = elim w.request [
  | lease_request r ↦ IsAllowed w.time r
  | delete_request id ↦ Unit {0}
]

abbrev pub AllAllowedVisits : List ContainerVisit → Type 0
AllAllowedVisits [] = Unit
AllAllowedVisits (w ∷ ws) = IsAllowedVisit w × AllAllowedVisits ws

-- The response without its body.
abbrev bare : {A : Type 0} → Result A × Option BlobModel → Result (Unit {0}) × Option BlobModel
bare (ok a, d) = (ok tt, d)
bare (err e, d) = (err e, d)

module _ (tags_match : Text → Result Bool) where
  lease_respond :
      ℤ
      → ModifiedAccessConditions
      → Request
      → Option BlobModel
      → Result BlobModel × Option BlobModel
  lease_respond now c (acquire_request uuid duration proposed) =
      acquire_container_lease tags_match (at now) c uuid duration proposed
  lease_respond now c (break_request period) = break_container_lease tags_match (at now) c period
  lease_respond now c (renew_request id) = renew_container_lease tags_match (at now) c id
  lease_respond now c (change_request id proposed) =
      change_container_lease tags_match (at now) c id proposed
  lease_respond now c (release_request id) = release_container_lease tags_match (at now) c id

  container_respond :
      ℤ
      → ModifiedAccessConditions
      → ContainerRequest
      → Option BlobModel
      → Result (Unit {0}) × Option BlobModel
  unfolding lease_respond
  container_respond now c (lease_request r) d = bare (lease_respond now c r d)
  container_respond now c (delete_request id) d = delete_container tags_match (at now) c id d

  -- The response to a visit, and the document after it.
  unfoldable pub container_visit :
      Option BlobModel → ContainerVisit → Result (Unit {0}) × Option BlobModel
  unfolding container_respond
  container_visit d w = container_respond w.time w.conditions w.request d

  unfoldable pub container_visits : Option BlobModel → List ContainerVisit → Option BlobModel
  unfolding container_visit
  container_visits d [] = d
  container_visits d (w ∷ ws) = container_visits (container_visit d w).1 ws

bare-Kept :
    {A : Type 0} (o : Result A × Option BlobModel) → KeptContainer o → KeptContainer (bare o)
bare-Kept (ok a, d) k = (tt, k.1)
bare-Kept (err e, d) k = k

module _ (tags_match : Text → Result Bool) (q : IsQuery tags_match) where
  lease_respond-Kept :
      (now : ℤ) (c : ModifiedAccessConditions) (r : Request) (d : Option BlobModel)
      → IsAllowed now r
      → IsStoredContainer? d
      → KeptContainer (lease_respond tags_match now c r d)
  unfolding lease_respond acquire_container_lease release_container_lease renew_container_lease
      break_container_lease change_container_lease
  lease_respond-Kept now c (acquire_request uuid duration proposed) d a v =
      container_operation-Kept tags_match q now c _
        (λ s. acquire-IsValid now a.0 uuid s duration proposed) d v
  lease_respond-Kept now c (break_request period) d a v =
      container_operation-Kept tags_match q now c _ (λ s. break-IsValid now a.0 s period a.1) d v
  lease_respond-Kept now c (renew_request id) d a v =
      container_operation-Kept tags_match q now c _ (λ s. renew-IsValid now a.0 s id) d v
  lease_respond-Kept now c (change_request id proposed) d a v =
      container_operation-Kept tags_match q now c _ (λ s. change-IsValid now a.0 s id proposed) d v
  lease_respond-Kept now c (release_request id) d a v =
      container_operation-Kept tags_match q now c _ (λ s. release-IsValid now a.0 s id) d v

  container_respond-Kept :
      (now : ℤ) (c : ModifiedAccessConditions) (r : ContainerRequest) (d : Option BlobModel)
      → IsAllowedVisit (record { time = now; conditions = c; request = r })
      → IsStoredContainer? d
      → KeptContainer (container_respond tags_match now c r d)
  unfolding container_respond
  container_respond-Kept now c (lease_request r) d a v =
      bare-Kept _ (lease_respond-Kept now c r d a v)
  container_respond-Kept now c (delete_request id) d a v =
      delete_container-Kept tags_match q now c id d v

  -- After any run of lease requests and deletions on a stored container, or on none, a further
  -- request answers with success or an error of the protocol, and leaves a stored container or none.
  -- Lease requests come at least a minute before the last date of JavaScript, and their break
  -- periods are not negative and end at a date; a tag query that fails does so with an error of the
  -- protocol.
  pub container_visits-Kept :
      (d : Option BlobModel) (ws : List ContainerVisit) (w : ContainerVisit)
      → AllAllowedVisits ws
      → IsAllowedVisit w
      → IsStoredContainer? d
      → KeptContainer (container_visit tags_match (container_visits tags_match d ws) w)
  unfolding container_visits container_visit
  container_visits-Kept d [] w a k v = container_respond-Kept w.time w.conditions w.request d k v
  container_visits-Kept d (x ∷ ws) w a k v =
      container_visits-Kept (container_visit tags_match d x).1 ws w a.1 k
        (container_respond-Kept x.time x.conditions x.request d a.0 v).1
