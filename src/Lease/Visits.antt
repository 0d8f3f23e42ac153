-- ===== src/Lease/Visits.antt =====
-- Lease requests on one blob (src/blob/persistence/LokiBlobMetadataStore.ts), each at its own time.
use azurite.Prelude.{Bool, Option, List, [], ◌∷◌}
use azurite.Prelude.Int.{ℤ}
use azurite.Errors.{Result}
use azurite.Conditions.Model.{Text, ModifiedAccessConditions}
use azurite.Lease.Operations.{
  Request, acquire_request, break_request, renew_request, change_request, release_request,
}
use azurite.Lease.Sync.{BlobModel}
use azurite.Lease.Blob.{
  acquire_blob_lease, break_blob_lease, renew_blob_lease, change_blob_lease, release_blob_lease,
}
use azurite.Lease.Factory.{at}
use azurite.Lease.Preservation.{
  IsAllowed, acquire-IsValid, break-IsValid, renew-IsValid, change-IsValid, release-IsValid,
}
use azurite.Lease.Stored.{IsQuery, IsStoredDoc, Kept, lease_operation-Kept}

-- One visit: the time and the conditions of a request, and what it asks of the lease.
pub record Visit : Type 0 where
  pub time : ℤ
  pub conditions : ModifiedAccessConditions
  pub request : Request

module _ (tags_match : Text → Result Bool) where
  respond :
      ℤ
      → ModifiedAccessConditions
      → Request
      → Option BlobModel
      → Result BlobModel × Option BlobModel
  respond now c (acquire_request uuid duration proposed) =
      acquire_blob_lease tags_match (at now) c uuid duration proposed
  respond now c (break_request period) = break_blob_lease tags_match (at now) c period
  respond now c (renew_request id) = renew_blob_lease tags_match (at now) c id
  respond now c (change_request id proposed) = change_blob_lease tags_match (at now) c id proposed
  respond now c (release_request id) = release_blob_lease tags_match (at now) c id

  -- The response to a visit, and the document after it.
  unfoldable pub visit : Option BlobModel → Visit → Result BlobModel × Option BlobModel
  unfolding respond
  visit d w = respond w.time w.conditions w.request d

  -- A run of visits: the document that they leave.
  unfoldable pub visits : Option BlobModel → List Visit → Option BlobModel
  unfolding visit
  visits d [] = d
  visits d (w ∷ ws) = visits (visit d w).1 ws

abbrev pub AllAllowed : List Visit → Type 0
AllAllowed [] = Unit
AllAllowed (w ∷ ws) = IsAllowed w.time w.request × AllAllowed ws

module _ (tags_match : Text → Result Bool) (q : IsQuery tags_match) where
  respond-Kept :
      (now : ℤ) (c : ModifiedAccessConditions) (r : Request) (d : Option BlobModel)
      → IsAllowed now r
      → IsStoredDoc d
      → Kept (respond tags_match now c r d)
  unfolding respond acquire_blob_lease break_blob_lease renew_blob_lease change_blob_lease
      release_blob_lease
  respond-Kept now c (acquire_request uuid duration proposed) d a v =
      lease_operation-Kept tags_match q now c _
        (λ s. acquire-IsValid now a.0 uuid s duration proposed) d v
  respond-Kept now c (break_request period) d a v =
      lease_operation-Kept tags_match q now c _ (λ s. break-IsValid now a.0 s period a.1) d v
  respond-Kept now c (renew_request id) d a v =
      lease_operation-Kept tags_match q now c _ (λ s. renew-IsValid now a.0 s id) d v
  respond-Kept now c (change_request id proposed) d a v =
      lease_operation-Kept tags_match q now c _ (λ s. change-IsValid now a.0 s id proposed) d v
  respond-Kept now c (release_request id) d a v =
      lease_operation-Kept tags_match q now c _ (λ s. release-IsValid now a.0 s id) d v

  -- On a stored document a lease request answers with a stored blob or with an error of the
  -- protocol, and leaves a stored document. It comes at least a minute before the last date of
  -- JavaScript, its break period, if it has one, is not negative and ends at a date, and a tag query
  -- that fails does so with an error of the protocol.
  pub visit-Kept :
      (d : Option BlobModel) (w : Visit)
      → IsAllowed w.time w.request
      → IsStoredDoc d
      → Kept (visit tags_match d w)
  unfolding visit
  visit-Kept d w a v = respond-Kept w.time w.conditions w.request d a v

  -- A run of lease requests on a stored document, in any order and at any times until a minute
  -- before the last date of JavaScript, leaves a stored document. Every break period of a request is
  -- not negative and ends at a date, and a tag query that fails does so with an error of the
  -- protocol.
  pub visits-IsStoredDoc :
      (d : Option BlobModel) (ws : List Visit)
      → AllAllowed ws
      → IsStoredDoc d
      → IsStoredDoc (visits tags_match d ws)
  unfolding visits
  visits-IsStoredDoc d [] a v = v
  visits-IsStoredDoc d (w ∷ ws) a v =
      visits-IsStoredDoc (visit tags_match d w).1 ws a.1 (visit-Kept d w a.0 v).1
