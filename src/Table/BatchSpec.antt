-- ===== src/Table/BatchSpec.antt =====
-- What src/table/batch/TableBatchOrchestrator.ts promises of a batch: the requests are served one after
-- the other on the rows of the table, and unless all of them succeed the rows stay what they were.
use azurite.Prelude.{
  ℕ, ◌+◌, String, str_append, Option, none, some, List, [], ◌∷◌, ◌++◌, ◌||◌, if◌then◌else◌, str_eq,
  defined, not, ltb, length,
}
use azurite.Prelude.Maps.{get, set}
use azurite.Errors.{
  Result, ok, err, plain_error, entity_not_found, properties_need_value, invalid_input,
  batch_duplicate_row_key, not_implemented,
}
use azurite.Table.Entities.{Entity}
use azurite.Table.Database.{Rows}
use azurite.Table.Batch.{
  Request, Answer, written, deleted, found, Response, answers, too_many_operations, failed, Verb,
  post, put, delete, get_entity, patch, merge, keyed, delete_if_match, final_response,
}
use azurite.Table.Spec.{
  Change, same, rows_after, insert_change, upsert_change, upmerge_change, delete_change,
}

-- The keys that requests of the batch had so far, and the result of the next one.
abbrev pub Seen : Type 0
Seen = List (String × String)

abbrev pub Outcome : Type 0
Outcome = Result Answer × Seen × Change

unfoldable pub as_written : Seen → Result Entity × Change → Outcome
as_written seen (ok e, change) = (ok (written e), seen, change)
as_written seen (err e, change) = (err e, seen, change)

unfoldable pub as_deleted : Seen → Result (Unit {0}) × Change → Outcome
as_deleted seen (ok u, change) = (ok deleted, seen, change)
as_deleted seen (err e, change) = (err e, seen, change)

unfoldable pub as_found : Seen → Option Entity → Outcome
as_found seen none = (err entity_not_found, seen, same)
as_found seen (some e) = (ok (found e), seen, same)

-- The change that a request with a key of its own makes.
unfoldable pub write_outcome : Verb → Request → Seen → String → Rows → Outcome
unfolding as_written as_deleted
write_outcome post r seen p m =
    as_written seen (insert_change (m r.entity.partition_key r.entity.row_key) r.entity)
write_outcome put r seen p m =
    as_written seen (upsert_change (m p r.row_key) (keyed r.entity p r.row_key) r.if_match)
write_outcome delete r seen p m =
    as_deleted seen (delete_change (m p r.row_key) (delete_if_match r.if_match))
write_outcome patch r seen p m =
    as_written seen (upmerge_change (m p r.row_key) (keyed r.entity p r.row_key) r.if_match)
write_outcome merge r seen p m =
    as_written seen (upmerge_change (m p r.row_key) (keyed r.entity p r.row_key) r.if_match)
write_outcome _ r seen p m = (err plain_error, seen, same)

-- The handler's own tests come before.
unfoldable pub if_checked : Result (Unit {0}) → Seen → Outcome → Outcome
if_checked (ok u) seen next = next
if_checked (err e) seen next = (err e, seen, same)

module _ (check : Request → Result (Unit {0})) where
  -- A write must have a partition key, and a pair of keys that no write had before.
  unfoldable pub claim : Verb → Option String → Request → Seen → Rows → Outcome
  unfolding if_checked write_outcome
  claim v none r seen m = (err invalid_input, seen, same)
  claim v (some p) r seen m =
      let key = str_append p r.row_key in
      let next = set seen key p in
      if defined (get seen key)
      then (err batch_duplicate_row_key, seen, same)
      else if_checked (check r) next (write_outcome v r next p m)

  unfoldable pub query_outcome : Option String → Request → Seen → Rows → Outcome
  unfolding if_checked as_found
  query_outcome none r seen m =
      if str_eq r.row_key ""
      then (err not_implemented, seen, same)
      else (err properties_need_value, seen, same)
  query_outcome (some p) r seen m =
      if str_eq p "" || str_eq r.row_key ""
      then (err not_implemented, seen, same)
      else if_checked (check r) seen (as_found seen (m p r.row_key))

  unfoldable pub outcome : Verb → Request → Seen → Rows → Outcome
  unfolding claim query_outcome
  outcome post r = claim post r.partition_key r
  outcome put r = claim put r.partition_key r
  outcome delete r = claim delete r.partition_key r
  outcome patch r = claim patch r.partition_key r
  outcome merge r = claim merge r.partition_key r
  outcome get_entity r = query_outcome r.partition_key r
  outcome _ r = λ seen m. (err plain_error, seen, same)

  unfoldable pub serve : List Request → ℕ → List Answer → Seen → Rows → Response × Rows
  unfolding outcome
  serve [] content_id out seen m = (answers out, m)
  serve (r ∷ rs) content_id out seen m =
      let (result, next, change) = outcome r.verb r seen m in
      elim result [
        | ok a ↦ serve rs (content_id + 1) (out ++ a ∷ []) next (rows_after change m)
        | err e ↦ (failed content_id e, rows_after change m)
      ]

  -- All or nothing.
  unfoldable pub all_or_nothing : Response × Rows → Rows → Rows
  all_or_nothing (answers out, served) m = served
  all_or_nothing (response, served) m = m

  unfoldable pub promised : List Request → Rows → Response × Rows
  unfolding serve all_or_nothing
  promised [] m = (answers [], m)
  promised (first ∷ rest) m =
      let outcome_of_all = serve (first ∷ rest) 1 [] [] m in
      if ltb 100 (length (first ∷ rest)) then (too_many_operations, m) else (
        final_response (not (defined first.partition_key)) outcome_of_all.0,
        all_or_nothing outcome_of_all m,
      )
