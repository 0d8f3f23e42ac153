-- ===== src/Table/Batch.antt =====
-- src/table/batch/TableBatchOrchestrator.ts: a batch of requests, dispatched one by one to the methods
-- of src/table/handlers/TableHandler.ts, with a rollback when one of them fails.
-- `check` stands for the tests of those methods on sizes, property names and the form of e-tags, which
-- come before the call of the store. A request carries the keys that extractRequestPartitionKey and
-- extractRequestRowKey find, and the entity that createPersistedEntity makes of its body.
use azurite.Prelude.{
  ℕ, ◌+◌, Bool, true, false, String, str_append, Option, none, some, List, [], ◌∷◌, ◌++◌, ◌||◌,
  if◌then◌else◌, str_eq, defined, not, ltb, length,
}
use azurite.Prelude.Maps.{get, set}
use azurite.Errors.{
  Error, Result, ok, err, plain_error, entity_not_found, properties_need_value, invalid_input,
  batch_duplicate_row_key, not_implemented,
}
use azurite.Table.Entities.{Entity}
use azurite.Table.Database.{Loki}
use azurite.Methods.{Method, after, ◌>>=◌, ◌>>◌, pure, throw, when}
use azurite.Table.Store.{Store, insert_table_entity, query_table_entity}
use azurite.Table.Writes.{
  insert_or_update_table_entity, insert_or_merge_table_entity, delete_table_entity,
}
use azurite.Table.Transactions.{begin_batch_transaction, end_batch_transaction}

pub data Verb : Type 0 where
  post put delete get_entity connect head options trace patch merge : Verb

pub record Request : Type 0 where
  pub verb : Verb
  pub path : String
  pub partition_key : Option String
  pub row_key : String
  pub if_match : Option String
  pub entity : Entity

pub data Answer : Type 0 where
  written : Entity → Answer
  deleted : Answer
  found : Entity → Answer

pub data Response : Type 0 where
  answers : List Answer → Response
  too_many_operations no_partition_key : Response
  failed : ℕ → Error → Response

-- partitionKeyMap of the orchestrator, and the store.
pub record Session (C : Type 0) : Type 0 where
  pub seen : List (String × String)
  pub store : Store C

-- `request.getHeader(IF_MATCH) || "*"`
unfoldable pub delete_if_match : Option String → String
delete_if_match none = "*"
delete_if_match (some e_tag) = if str_eq e_tag "" then "*" else e_tag

unfoldable pub keyed : Entity → String → String → Entity
keyed e partition row = record e { partition_key = partition; row_key = row }

module _ {C : Type 0} where
  unfoldable pub in_store : {A : Type 0} → Method (Store C) A → Method (Session C) A
  in_store m s = let (result, store) = m s.store in (result, record s { store = store })

  unfoldable pub check_for_duplicate_row_key : String → String → Method (Session C) (Unit {0})
  check_for_duplicate_row_key partition row s =
      let key = str_append partition row in
      if defined (get s.seen key)
      then (err batch_duplicate_row_key, s)
      else (ok tt, record s { seen = set s.seen key partition })

  unfoldable pub validate_batch_request : Option String → String → Method (Session C) String
  unfolding check_for_duplicate_row_key
  validate_batch_request none row = throw invalid_input
  validate_batch_request (some partition) row = do
    check_for_duplicate_row_key partition row
    pure partition

unfoldable pub or_not_found : {S : Type 0} → Option Entity → Method S Answer
or_not_found none = throw entity_not_found
or_not_found (some e) = pure (found e)

unfoldable pub checked : {S : Type 0} → Result (Unit {0}) → Method S (Unit {0})
checked result s = (result, s)

unfoldable pub is_success : Response → Bool
is_success (answers out) = true
is_success _ = false

-- `wasError` is set before the loop by checkForPartitionKey.
unfoldable pub final_response : Bool → Response → Response
final_response true (answers out) = no_partition_key
final_response _ response = response

module _ (db : Loki) (check : Request → Result (Unit {0})) (account batch_id : String) where
  unfoldable pub handle_batch_insert : Request → Method (Session db.Collection) Answer
  unfolding validate_batch_request checked in_store
  handle_batch_insert r = do
    partition ← validate_batch_request r.partition_key r.row_key
    checked (check r)
    e ← in_store (insert_table_entity db r.path account r.entity (some batch_id))
    pure (written e)

  unfoldable pub handle_batch_update : Request → Method (Session db.Collection) Answer
  unfolding validate_batch_request checked in_store keyed
  handle_batch_update r = do
    partition ← validate_batch_request r.partition_key r.row_key
    checked (check r)
    let entity = keyed r.entity partition r.row_key
    e ← in_store (insert_or_update_table_entity db r.path account entity r.if_match (some batch_id))
    pure (written e)

  unfoldable pub handle_batch_merge : Request → Method (Session db.Collection) Answer
  unfolding validate_batch_request checked in_store keyed
  handle_batch_merge r = do
    partition ← validate_batch_request r.partition_key r.row_key
    checked (check r)
    let entity = keyed r.entity partition r.row_key
    e ← in_store (insert_or_merge_table_entity db r.path account entity r.if_match (some batch_id))
    pure (written e)

  unfoldable pub handle_batch_delete : Request → Method (Session db.Collection) Answer
  unfolding validate_batch_request checked in_store delete_if_match
  handle_batch_delete r = do
    partition ← validate_batch_request r.partition_key r.row_key
    checked (check r)
    in_store (
        delete_table_entity db r.path account (some partition) (some r.row_key)
          (delete_if_match r.if_match) (some batch_id))
    pure deleted

  -- The key of the batch's own context is not set, so that a request without one is refused.
  unfoldable pub handle_batch_query :
      Request → Option String → Method (Session db.Collection) Answer
  unfolding checked in_store or_not_found
  handle_batch_query r none =
      if str_eq r.row_key "" then throw not_implemented else throw properties_need_value
  handle_batch_query r (some partition) =
      if str_eq partition "" || str_eq r.row_key "" then throw not_implemented else do
        checked (check r)
        e ← in_store (query_table_entity db r.path account partition r.row_key)
        or_not_found e

  unfoldable pub dispatch : Verb → Request → Method (Session db.Collection) Answer
  unfolding handle_batch_insert handle_batch_update handle_batch_merge handle_batch_delete
      handle_batch_query
  dispatch post r = handle_batch_insert r
  dispatch put r = handle_batch_update r
  dispatch delete r = handle_batch_delete r
  dispatch get_entity r = handle_batch_query r r.partition_key
  dispatch connect r = throw plain_error
  dispatch head r = throw plain_error
  dispatch options r = throw plain_error
  dispatch trace r = throw plain_error
  dispatch patch r = handle_batch_merge r
  dispatch merge r = handle_batch_merge r

  -- routeAndDispatchBatchRequest
  unfoldable pub route : Request → Method (Session db.Collection) Answer
  unfolding dispatch
  route r = dispatch r.verb r

  -- The loop over the requests, with the answers so far.
  unfoldable pub submit_loop :
      List Request → ℕ → List Answer → Session db.Collection → Response × Session db.Collection
  unfolding route
  submit_loop [] content_id out s = (answers out, s)
  submit_loop (r ∷ rs) content_id out s =
      let (result, s') = route r s in
      elim result [
        | ok a ↦ submit_loop rs (content_id + 1) (out ++ a ∷ []) s'
        | err e ↦ (failed content_id e, s')
      ]

  unfoldable pub submit_requests_to_handlers :
      Request → List Request → Method (Store db.Collection) Response
  unfolding submit_loop is_success final_response begin_batch_transaction end_batch_transaction
  submit_requests_to_handlers first rest s =
      after (when (defined first.partition_key) (begin_batch_transaction db) s) λ _ s1.
        let (response, session) =
          submit_loop (first ∷ rest) 1 [] (record { seen = []; store = s1 }) in
        after (end_batch_transaction db account first.path (is_success response) session.store)
          λ _ s2. (ok (final_response (not (defined first.partition_key)) response), s2)

  -- processBatchRequestAndSerializeResponse, without the text of the response.
  unfoldable pub process_batch_request : List Request → Method (Store db.Collection) Response
  unfolding submit_requests_to_handlers
  process_batch_request [] s = (ok (answers []), s)
  process_batch_request (first ∷ rest) s =
      if ltb 100 (length (first ∷ rest))
      then (ok too_many_operations, s)
      else submit_requests_to_handlers first rest s
