-- ===== src/Lease/Protection.antt =====
-- What a lease gives its holder: exclusion while it runs, and release when it ends.
use azurite.Prelude.{
  ◌≡◌, ◌≢◌, true, false, if◌then◌else◌, Bool-cases, ◌&&◌, inl, inr, not, String, Option, none, some,
  arith, str_eq,
}
use azurite.Prelude.Int.{ℤ, pos, negsuc, ◌+ℤ◌, ◌≤ℤ◌}
use azurite.Dates.{date, millis, new_date, before}
use azurite.Errors.{
  Result, ok, err, lease_id_mismatch_with_lease_operation, ◌>>=◌, throw_if, blob_lease_id_missing,
  blob_lease_lost, blob_lease_id_mismatch_with_blob_operation,
}
use azurite.Lease.Model.{ILease, fixed, leased, locked, start_plus}
use azurite.Lease.State.{
  LeaseState, lease_of, create_lease_state, available_state, breaking_state, broken_state,
  expired_state, leased_state, new_leased, new_expired,
}
use azurite.Lease.Available.{id_or_new, new_fixed}
use azurite.Lease.Operations.{acquire, renew}
use azurite.Lease.Validators.{blob_write_validate, gives_id, mismatch}
use azurite.Lease.Sync.{BlobModel, lease_sync, blob_lease_adapter}
use azurite.Lease.Blob.{carry_lease}
use azurite.Lease.Factory.{at}
use azurite.Lease.Preservation.{not_before-new_date}

-- The lease of `holder`, acquired at t0 for d seconds.
abbrev pub fixed_lease : String → ℤ → ℤ → ILease
fixed_lease holder t0 d = record {
  lease_id = some holder;
  lease_state = some leased;
  lease_status = some locked;
  lease_duration_type = some fixed;
  lease_duration_seconds = some d;
  lease_expire_time = some (new_date (t0 +ℤ millis d));
  lease_break_time = none;
}

-- What a successful acquisition for d seconds makes.
pub acquire_inversion :
    (uuid : String) (t0 : ℤ) (s s' : LeaseState) (d : ℤ) (p : Option String)
    → acquire uuid (at t0) s d p ≡ ok s'
    → d ≢ negsuc 0
    → (s' ≡ leased_state (fixed_lease (id_or_new uuid p) t0 d)) × (pos 15 ≤ℤ d) × (d ≤ℤ pos 60)
unfolding acquire new_fixed new_leased start_plus
acquire_inversion uuid t0 (available_state l) s' d p e n = ground arith
acquire_inversion uuid t0 (leased_state l) s' d p e n = ground arith
acquire_inversion uuid t0 (breaking_state l) s' d p e n = ground arith
acquire_inversion uuid t0 (broken_state l) s' d p e n = ground arith
acquire_inversion uuid t0 (expired_state l) s' d p e n = ground arith

-- The answer to a write that gives the lease id `id`, on a blob that `holder` has locked.
abbrev pub locked_answer : String → Option String → Result (Unit {0})
locked_answer holder id =
    if gives_id id
    then throw_if (mismatch id (some holder)) blob_lease_id_mismatch_with_blob_operation
    else err blob_lease_id_missing

abbrev pub void {ℓ} : {A : Type ℓ} → Result A → Result (Unit {0})
void (ok a) = ok tt
void (err e) = err e

module _ (holder : String) (t0 d t : ℤ) (b new : BlobModel) (id : Option String)
    (long : pos 15 ≤ℤ d) (short : d ≤ℤ pos 60) where
  carry_running :
      before (date t) (new_date (t0 +ℤ millis d)) ≡ true
      → void (carry_lease (at t) id (lease_sync b (fixed_lease holder t0 d)) new)
        ≡ locked_answer holder id
  unfolding carry_lease create_lease_state new_leased blob_lease_adapter lease_sync
      blob_write_validate
  carry_running h = ground arith

  carry_over :
      before (date t) (new_date (t0 +ℤ millis d)) ≡ false
      → void (carry_lease (at t) id (lease_sync b (fixed_lease holder t0 d)) new)
        ≡ throw_if (gives_id id) blob_lease_lost
  unfolding carry_lease create_lease_state new_expired blob_lease_adapter lease_sync
      blob_write_validate
  carry_over h = ground arith

-- A blob whose lease was acquired at t0 for d seconds, where d is not -1, is locked at every t
-- before the date t0 + d s: the lease check of createBlob passes if the request gives the acquired
-- id, up to case, and refuses another id or none. At t0 + d s or later, or if there is no such date,
-- the lease is expired: the check refuses a lease id, and passes without one.
pub carry_lease-acquire :
    (uuid : String) (t0 : ℤ) (s s' : LeaseState) (d : ℤ) (p : Option String)
    → acquire uuid (at t0) s d p ≡ ok s'
    → d ≢ negsuc 0
    → (t : ℤ) (b new : BlobModel) (id : Option String)
    → void (carry_lease (at t) id (lease_sync b (lease_of s')) new) ≡ (
        if before (date t) (new_date (t0 +ℤ millis d))
        then locked_answer (id_or_new uuid p) id
        else throw_if (gives_id id) blob_lease_lost)
carry_lease-acquire uuid t0 s s' d p e n t b new id =
    let (same, long, short) = acquire_inversion uuid t0 s s' d p e n in
    rw same (elim (Bool-cases (before (date t) (new_date (t0 +ℤ millis d)))) [
      | inl early ↦ rw early (carry_running (id_or_new uuid p) t0 d t b new id long short early)
      | inr late ↦ rw late (carry_over (id_or_new uuid p) t0 d t b new id long short late)
    ])

-- Renewal at t1 of a lease acquired at t0 for d seconds, from 15 to 60: before its end it takes
-- the holder's id only; at its end or later, or if its end is no date, LeaseExpiredState.renew reads no id, and a request
-- with any id renews it. The new term is d seconds from t1.
pub renew_after_acquire :
    (holder : String) (t0 d t1 : ℤ) (id : String)
    → pos 15 ≤ℤ d
    → d ≤ℤ pos 60
    → (do s ← create_lease_state (fixed_lease holder t0 d) (at t1); renew (at t1) s id) ≡ (
        if before (date t1) (new_date (t0 +ℤ millis d)) && not (str_eq holder id)
        then err lease_id_mismatch_with_lease_operation
        else ok (leased_state (fixed_lease holder t1 d)))
unfolding create_lease_state new_leased new_expired renew start_plus
renew_after_acquire holder t0 d t1 id long short = ground (arith, not_before-new_date t1 d)
