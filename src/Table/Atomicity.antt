-- ===== src/Table/Atomicity.antt =====
-- src/table/batch/TableBatchOrchestrator.ts over src/table/persistence/LokiTableMetadataStore.ts: a
-- batch is all or nothing.
use azurite.Prelude.{
  ◌≡◌, refl, ap, ◌∙◌, Bool, true, false, Bool-cases, inl, inr, String, List, [], ◌∷◌, str_eq, ltb,
  length, defined, not,
}
use azurite.Errors.{Result, ok}
use azurite.Table.Entities.{Entity}
use azurite.Table.Database.{Loki, LokiLaws, Rows}
use azurite.Table.Batch.{
  Request, Response, answers, too_many_operations, no_partition_key, failed, Session, is_success,
  final_response, submit_loop, submit_requests_to_handlers, process_batch_request,
}
use azurite.Table.BatchRecorded.{has_seen}
use azurite.Table.BatchSpec.{serve, all_or_nothing, promised}
use azurite.Table.Loop.{AreAddressed, submit_loop-Ends}
use azurite.Methods.{when}
use azurite.Table.Position.{At}
use azurite.Table.Recorded.{Recorded}
use azurite.Table.Rollback.{commit_lem, rollback_all_lem}
use azurite.Table.Store.{Store}
use azurite.Table.Transactions.{holds_some, begin_batch_transaction, end_batch_transaction}
use azurite.Table.Undo.{undone, erased}

empty-Recorded : (m : Rows) → Recorded m (has_seen []) m [] []
unfolding undone erased
empty-Recorded m = record {
  back = λ p r. refl;
  added_rows = tt;
  disjoint = tt;
  rollback_seen = tt;
  delete_seen = tt;
}

module _ (db : Loki) (laws : LokiLaws db) (account table : String)
    (check : Request → Result (Unit {0})) (id : String) (named : str_eq id "" ≡ false) where
  begin_lem :
      {m : Rows} {s : Store db.Collection} (b : Bool)
      → At db laws account table m [] [] s
      → when b (begin_batch_transaction db) s ≡ (ok tt, s)
  unfolding begin_batch_transaction holds_some
  begin_lem true at = rw (ap holds_some at.rollback) (rw (ap holds_some at.inserted) refl)
  begin_lem false at = refl

  -- The end of a batch keeps the rows of a success, and goes back otherwise.
  end_lem :
      (m0 m : Rows) (response : Response) (rb ins : List Entity) (session : Session db.Collection)
      → At db laws account table m rb ins session.store
      → Recorded m0 (has_seen session.seen) m rb ins
      → (s' : Store db.Collection) × (end_batch_transaction db account table
            (is_success response)
            session.store
          ≡ (ok tt, s'))
        × At db laws account table (all_or_nothing check (response, m) m0) [] [] s'
  unfolding is_success all_or_nothing
  end_lem m0 m (answers out) rb ins session at rec = commit_lem db laws account table at
  end_lem m0 m (failed n e) rb ins session at rec = rollback_all_lem db laws account table _ at rec
  end_lem m0 m too_many_operations rb ins session at rec =
      rollback_all_lem db laws account table _ at rec
  end_lem m0 m no_partition_key rb ins session at rec =
      rollback_all_lem db laws account table _ at rec

  submitted :
      (first : Request) (rest : List Request) (m : Rows) (s : Store db.Collection)
      → AreAddressed db laws account table check id named (first ∷ rest)
      → At db laws account table m [] [] s
      → let (result, s') = submit_requests_to_handlers db check account id first rest s in
        let all = serve check (first ∷ rest) 1 [] [] m in
        (result ≡ ok (final_response (not (defined first.partition_key)) all.0))
        × At db laws account table (all_or_nothing check all m) [] [] s'
  unfolding submit_requests_to_handlers
  submitted first rest m s addressed at =
      let (response, rb, ins, at', rec) =
        submit_loop-Ends db laws account table check id named (first ∷ rest) 1 [] m [] []
          (record { seen = []; store = s }) addressed at (empty-Recorded m) in
      let all = serve check (first ∷ rest) 1 [] [] m in
      let loop =
        submit_loop db check account id (first ∷ rest) 1 [] (record { seen = []; store = s }) in
      let (s', done, at_end) = end_lem m all.1 all.0 rb ins loop.1 at' rec in
      let ended =
        ap (λ path. end_batch_transaction db account path (is_success all.0) loop.1.store)
          addressed.0
        ∙ done in
      rw (begin_lem (defined first.partition_key) at) (rw response (rw ended (refl, at_end)))

  -- A batch whose requests name one table, inserts with the keys of their bodies, is answered as the
  -- specification says, by its requests one after the other on the rows of the table, with at most 100 of
  -- them and no two writes with one PartitionKey and RowKey put together. If all succeed, the table holds
  -- the rows that they leave. If one fails, the table holds the rows from before the batch. Both trackers
  -- are empty in the end. The table's own name is taken by no other collection in lower case.
  pub process_batch_request-promised :
      (requests : List Request) (m : Rows) (s : Store db.Collection)
      → AreAddressed db laws account table check id named requests
      → At db laws account table m [] [] s
      → let (result, s') = process_batch_request db check account id requests s in
        (result ≡ ok (promised check requests m).0)
        × At db laws account table (promised check requests m).1 [] [] s'
  unfolding process_batch_request promised
  process_batch_request-promised [] m s addressed at = (refl, at)
  process_batch_request-promised (first ∷ rest) m s addressed at =
      elim (Bool-cases (ltb 100 (length (first ∷ rest)))) [
        | inl k ↦ rw k (refl, at)
        | inr k ↦ rw k (submitted first rest m s addressed at)
      ]
