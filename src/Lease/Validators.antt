-- ===== src/Lease/Validators.antt =====
-- src/blob/lease/Blob{Read,Write}LeaseValidator.ts, Container{Read,Delete}LeaseValidator.ts: the
-- lease id that a request names against the lease. Lease ids are HTTP header values, which Node
-- decodes as Latin-1; `toLowerCase` is modelled on those.
use Prim.Native.Char.{code}
use azurite.Prelude.{
  ℕ, ◌+◌, Bool, true, false, not, ◌||◌, ◌&&◌, String, Option, none, some, List, [], ◌∷◌,
  if◌then◌else◌, leb, ◌==◌, str_eq,
}
use azurite.Errors.{
  Error, Result, ok, err, blob_lease_lost, blob_lease_id_missing,
  blob_lease_id_mismatch_with_blob_operation, container_lease_lost, container_lease_id_missing,
  container_lease_id_mismatch_with_container_operation, throw_if,
}
use azurite.Lease.Model.{ILease, is_locked, is_unlocked}

-- A letter of Latin-1 in lower case: A to Z, and À to Þ without ×.
unfoldable pub lower : ℕ → ℕ
lower c = if (leb 65 c && leb c 90) || (leb 192 c && leb c 222 && not (c == 215)) then c + 32 else c

abbrev pub lower_codes : String → List ℕ
lower_codes String.[] = []
lower_codes (String.◌∷◌ c s) = lower (code c) ∷ lower_codes s

unfoldable pub codes_eq : List ℕ → List ℕ → Bool
codes_eq [] [] = true
codes_eq (x ∷ xs) (y ∷ ys) = x == y && codes_eq xs ys
codes_eq _ _ = false

-- `s.toLowerCase() === t.toLowerCase()`
unfoldable pub same_id : String → String → Bool
same_id s t = codes_eq (lower_codes s) (lower_codes t)

-- The access conditions are absent, have no lease id, or one that may be "".
-- `conditions !== undefined && conditions.leaseId !== undefined && conditions.leaseId !== ""`
abbrev pub gives_id : Option String → Bool
gives_id none = false
gives_id (some id) = not (str_eq id "")

-- `lease.leaseId !== undefined && leaseId.toLowerCase() !== lease.leaseId.toLowerCase()`
abbrev pub mismatch : Option String → Option String → Bool
mismatch none lease_id = false
mismatch (some id) none = false
mismatch (some id) (some t) = not (same_id id t)

abbrev read_check : Error → Error → Option String → ILease → Result (Unit {0})
read_check lost wrong id l =
    if gives_id id
    then if is_unlocked l.lease_status then err lost else throw_if (mismatch id l.lease_id) wrong
    else ok tt

-- BlobReadLeaseValidator.validate
unfoldable pub blob_read_validate : Option String → ILease → Result (Unit {0})
blob_read_validate = read_check blob_lease_lost blob_lease_id_mismatch_with_blob_operation

-- ContainerReadLeaseValidator.validate
unfoldable pub container_read_validate : Option String → ILease → Result (Unit {0})
container_read_validate =
    read_check container_lease_lost container_lease_id_mismatch_with_container_operation

-- BlobWriteLeaseValidator.validate
unfoldable pub blob_write_validate : Option String → ILease → Result (Unit {0})
blob_write_validate id l =
    if is_locked l.lease_status
    then if gives_id id
      then throw_if (mismatch id l.lease_id) blob_lease_id_mismatch_with_blob_operation
      else err blob_lease_id_missing
    else throw_if (gives_id id) blob_lease_lost

-- ContainerDeleteLeaseValidator.validate: here an empty id counts as given while the lease is locked.
unfoldable pub container_delete_validate : Option String → ILease → Result (Unit {0})
container_delete_validate none l =
    if is_locked l.lease_status then err container_lease_id_missing else ok tt
container_delete_validate (some id) l =
    if is_locked l.lease_status
    then throw_if (mismatch (some id) l.lease_id)
        container_lease_id_mismatch_with_container_operation
    else throw_if (gives_id (some id)) container_lease_lost
