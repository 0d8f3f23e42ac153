-- ===== src/Table/Routes.antt =====
-- src/table/batch/TableBatchOrchestrator.ts: each request has the outcome of its specification.
use mathlib.Core.Path.{subst}
use azurite.Prelude.{
  ◌≡◌, refl, sym, false, Bool-cases, inl, inr, String, str_append, Option, none, some, List, str_eq,
  defined,
}
use azurite.Prelude.Maps.{get}
use azurite.Errors.{Result, ok, err}
use azurite.Table.Entities.{Entity}
use azurite.Table.Database.{Loki, LokiLaws, Rows}
use azurite.Table.Batch.{
  Request, Answer, Session, Verb, post, put, delete, keyed, delete_if_match, in_store,
  check_for_duplicate_row_key, validate_batch_request, checked, handle_batch_insert,
  handle_batch_update, handle_batch_merge, handle_batch_delete,
}
use azurite.Table.BatchSpec.{
  Seen, Outcome, claim, write_outcome, if_checked, as_written, as_deleted,
}
use azurite.Methods.{Method, after, ◌>>=◌, ◌>>◌, pure}
use azurite.Table.Operations
use azurite.Table.Position.{At}
use azurite.Table.Refinement.{Agrees}
use azurite.Table.Spec.{Change, rows_after, rollback_after, delete_after, upmerge_change}
use azurite.Table.Store.{Store, insert_table_entity}
use azurite.Table.Writes.{
  insert_or_update_table_entity, insert_or_merge_table_entity, delete_table_entity,
}

module _ (db : Loki) (laws : LokiLaws db) (account table : String) where
  abbrev pub Serves :
      Outcome → Rows → List Entity → List Entity → Result Answer × Session db.Collection → Type 0
  Serves (r, next, change) m rb ins (result, session) =
      (result ≡ r)
      × (session.seen ≡ next)
      × At db laws account table (rows_after change m) (rollback_after change rb)
          (delete_after change ins) session.store

  module _ (m : Rows) (rb ins : List Entity) (seen : Seen) where
    written-Serves :
        (x : Result Entity × Change) (out : Result Entity × Store db.Collection)
        → Agrees db laws account table x m rb ins out
        → Serves
            (as_written seen x)
            m
            rb
            ins
            (after (out.0, record { seen = seen; store = out.1 }) λ e s. (ok (Answer.written e), s))
    unfolding as_written
    written-Serves (ok a, change) (r, s) h = rw h.0 (refl, refl, h.1)
    written-Serves (err a, change) (r, s) h = rw h.0 (refl, refl, h.1)

    deleted-Serves :
        (x : Result (Unit {0}) × Change) (out : Result (Unit {0}) × Store db.Collection)
        → Agrees db laws account table x m rb ins out
        → Serves
            (as_deleted seen x)
            m
            rb
            ins
            (after (out.0, record { seen = seen; store = out.1 }) λ e s. (ok Answer.deleted, s))
    unfolding as_deleted
    deleted-Serves (ok a, change) (r, s) h = rw h.0 (refl, refl, h.1)
    deleted-Serves (err a, change) (r, s) h = rw h.0 (refl, refl, h.1)

  module _ (check : Request → Result (Unit {0})) (id : String) (named : str_eq id "" ≡ false)
      {m : Rows} {rb ins : List Entity} {s : Store db.Collection}
      (at : At db laws account table m rb ins s) (seen : Seen) (r : Request)
      (here : r.path ≡ table) where
    abbrev standing : Session db.Collection
    standing = record { seen = seen; store = s }

    pub checked-Serves :
        (c : Result (Unit {0})) (next : Seen) (o : Outcome)
        (body : Method (Session db.Collection) Answer)
        → Serves o m rb ins (body (record { seen = next; store = s }))
        → Serves
            (if_checked c next o)
            m
            rb
            ins
            ((checked c >> body) (record { seen = next; store = s }))
    unfolding checked if_checked rows_after rollback_after delete_after
    checked-Serves (ok u) next o body h = h
    checked-Serves (err e) next o body h = (refl, refl, at)

    claim-Serves :
        (v : Verb) (o : Option String) (body : String → Method (Session db.Collection) Answer)
        → ((p : String) (next : Seen)
            → Serves
                (write_outcome v r next p m)
                m
                rb
                ins
                (body p (record { seen = next; store = s })))
        → Serves
            (claim check v o r seen m)
            m
            rb
            ins
            ((validate_batch_request o r.row_key >>= λ p. checked (check r) >> body p) standing)
    unfolding claim validate_batch_request check_for_duplicate_row_key rows_after rollback_after
        delete_after
    claim-Serves v none body h = (refl, refl, at)
    claim-Serves v (some p) body h =
        elim (Bool-cases (defined (get seen (str_append p r.row_key)))) [
          | inl k ↦ rw k (refl, refl, at)
          | inr k ↦ rw k (checked-Serves (check r) _ _ (body p) (h p _))
        ]

    -- A method of the store called for the request.
    abbrev call :
        {A : Type 0}
        → (String → Method (Store db.Collection) A)
        → (A → Answer)
        → Method (Session db.Collection) Answer
    call method answer = in_store (method r.path) >>= λ a. pure (answer a)

    call-written :
        (method : String → Method (Store db.Collection) Entity) (x : Result Entity × Change)
        (next : Seen)
        → Agrees db laws account table x m rb ins (method table s)
        → Serves
            (as_written next x)
            m
            rb
            ins
            (call method Answer.written (record { seen = next; store = s }))
    unfolding in_store
    call-written method x next h =
        written-Serves m rb ins next x (method r.path s)
          (subst (λ path. Agrees db laws account table x m rb ins (method path s)) (sym here) h)

    call-deleted :
        (method : String → Method (Store db.Collection) (Unit {0})) (x : Result (Unit {0}) × Change)
        (next : Seen)
        → Agrees db laws account table x m rb ins (method table s)
        → Serves
            (as_deleted next x)
            m
            rb
            ins
            (call method (λ u. Answer.deleted) (record { seen = next; store = s }))
    unfolding in_store
    call-deleted method x next h =
        deleted-Serves m rb ins next x (method r.path s)
          (subst (λ path. Agrees db laws account table x m rb ins (method path s)) (sym here) h)

    pub handle_batch_insert-Serves :
        Serves
          (claim check post r.partition_key r seen m)
          m
          rb
          ins
          (handle_batch_insert db check account id r standing)
    unfolding handle_batch_insert write_outcome
    handle_batch_insert-Serves = claim-Serves post r.partition_key _ λ p next.
        call-written (λ path. insert_table_entity db path account r.entity (some id)) _ next
          (Operations.insert_table_entity-Agrees db laws account table at id named r.entity)

    pub handle_batch_update-Serves :
        Serves
          (claim check put r.partition_key r seen m)
          m
          rb
          ins
          (handle_batch_update db check account id r standing)
    unfolding handle_batch_update write_outcome keyed
    handle_batch_update-Serves = claim-Serves put r.partition_key _ λ p next.
        call-written
          (λ path.
            insert_or_update_table_entity db path account (keyed r.entity p r.row_key) r.if_match
              (some id))
          _ next
          (Operations.upsert-Agrees db laws account table at id named (keyed r.entity p r.row_key)
            r.if_match)

    pub handle_batch_merge-Serves :
        (v : Verb)
        → ((p : String) (next : Seen)
            → write_outcome v r next p m
              ≡ as_written next
                  (upmerge_change (m p r.row_key) (keyed r.entity p r.row_key) r.if_match))
        → Serves
            (claim check v r.partition_key r seen m)
            m
            rb
            ins
            (handle_batch_merge db check account id r standing)
    unfolding handle_batch_merge keyed
    handle_batch_merge-Serves v e = claim-Serves v r.partition_key _ λ p next. rw (e p next) (
        call-written
          (λ path.
            insert_or_merge_table_entity db path account (keyed r.entity p r.row_key) r.if_match
              (some id))
          _ next
          (Operations.upmerge-Agrees db laws account table at id named (keyed r.entity p r.row_key)
            r.if_match))

    pub handle_batch_delete-Serves :
        Serves
          (claim check delete r.partition_key r seen m)
          m
          rb
          ins
          (handle_batch_delete db check account id r standing)
    unfolding handle_batch_delete write_outcome
    handle_batch_delete-Serves = claim-Serves delete r.partition_key _ λ p next.
        call-deleted
          (λ path.
            delete_table_entity db path account (some p) (some r.row_key)
              (delete_if_match r.if_match) (some id))
          _ next
          (Operations.delete_table_entity-Agrees db laws account table at id named p r.row_key
            (delete_if_match r.if_match))
