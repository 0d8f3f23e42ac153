-- ===== src/Table/Claims.antt =====
-- src/table/batch/TableBatchOrchestrator.ts: checkForDuplicateRowKey keeps the writes of a batch apart.
use text.Mathlib.TextPositions.{eq_refl}
use azurite.Prelude.{
  ◌≡◌, refl, sym, true, false, Bool-cases, ◌||◌, inl, inr, String, str_append, Option, none, some,
  arith, str_eq,
}
use azurite.Prelude.Maps.{set, get-set}
use azurite.Errors.{Result, ok, err}
use azurite.Table.Entities.{Entity, has_key}
use azurite.Table.Database.{Rows}
use azurite.Table.Batch.{
  Request, Verb, post, put, delete, get_entity, patch, merge, keyed, delete_if_match,
}
use azurite.Table.BatchRecorded.{
  has_seen, Grows, IsOwn, IsKeyed, insert-IsAt, upsert-IsAt, upmerge-IsAt, delete-IsAt,
}
use azurite.Table.BatchSpec.{
  Seen, Outcome, claim, query_outcome, outcome, write_outcome, if_checked, as_written, as_deleted,
  as_found,
}
use azurite.Table.Recorded.{IsAt}
use azurite.Table.Rows.{has_key_eq, has_key_refl}
use azurite.Table.Spec.{Change}

set-Grows : (seen : Seen) (k v : String) → Grows seen (set seen k v)
set-Grows seen k v p r h = ground (arith, h, get-set seen k (str_append p r) v)

set_marked : (seen : Seen) (p r v : String) → has_seen (set seen (str_append p r) v) p r ≡ true
set_marked seen p r v =
    ground (arith, get-set seen (str_append p r) (str_append p r) v, eq_refl (str_append p r))

-- The body of an insert has the keys that the orchestrator read from the request.
abbrev pub IsAddressed : Verb → Request → Type 0
IsAddressed post r = (p : String) → r.partition_key ≡ some p → has_key r.entity p r.row_key ≡ true
IsAddressed _ r = Unit

keyed_own : (e : Entity) (p r : String) → has_key (keyed e p r) p r ≡ true
unfolding keyed
keyed_own e p r = has_key_refl (keyed e p r)

module _ (seen next : Seen) (m : Rows) (p t : String) (grows : Grows seen next)
    (unseen : has_seen seen p t ≡ false) (marked : has_seen next p t ≡ true) where
  as_written-IsOwn :
      (x : Result Entity × Change) → IsAt p t m x.1 → IsOwn seen m (as_written next x)
  unfolding as_written
  as_written-IsOwn (ok e, change) h = (grows, inr (p, t, unseen, marked, h))
  as_written-IsOwn (err e, change) h = (grows, inr (p, t, unseen, marked, h))

  as_deleted-IsOwn :
      (x : Result (Unit {0}) × Change) → IsAt p t m x.1 → IsOwn seen m (as_deleted next x)
  unfolding as_deleted
  as_deleted-IsOwn (ok e, change) h = (grows, inr (p, t, unseen, marked, h))
  as_deleted-IsOwn (err e, change) h = (grows, inr (p, t, unseen, marked, h))

module _ (seen next : Seen) (m : Rows) (keyed_rows : IsKeyed m) (r : Request) (p : String)
    (grows : Grows seen next) (unseen : has_seen seen p r.row_key ≡ false)
    (marked : has_seen next p r.row_key ≡ true) where
  write_outcome-IsOwn :
      (v : Verb)
      → r.partition_key ≡ some p
      → IsAddressed v r
      → IsOwn seen m (write_outcome v r next p m)
  unfolding write_outcome
  write_outcome-IsOwn post e a =
      let own = a p e in
      let (same_partition, same_row) = has_key_eq r.entity p r.row_key own in
      as_written-IsOwn seen next m p r.row_key grows unseen marked _ (
        insert-IsAt m keyed_rows p r.row_key r.entity own _
          (λ i. m (sym same_partition i) (sym same_row i)))
  write_outcome-IsOwn put e a = as_written-IsOwn seen next m p r.row_key grows unseen marked _ (
      upsert-IsAt m keyed_rows p r.row_key (keyed r.entity p r.row_key)
        (keyed_own r.entity p r.row_key) _ r.if_match refl)
  write_outcome-IsOwn delete e a =
      as_deleted-IsOwn seen next m p r.row_key grows unseen marked _
        (delete-IsAt m keyed_rows p r.row_key _ (delete_if_match r.if_match) refl)
  write_outcome-IsOwn patch e a = as_written-IsOwn seen next m p r.row_key grows unseen marked _ (
      upmerge-IsAt m keyed_rows p r.row_key (keyed r.entity p r.row_key)
        (keyed_own r.entity p r.row_key) _ r.if_match refl)
  write_outcome-IsOwn merge e a = as_written-IsOwn seen next m p r.row_key grows unseen marked _ (
      upmerge-IsAt m keyed_rows p r.row_key (keyed r.entity p r.row_key)
        (keyed_own r.entity p r.row_key) _ r.if_match refl)
  write_outcome-IsOwn _ e a = (grows, inl tt)

Grows-refl : (seen : Seen) → Grows seen seen
Grows-refl seen p t h = h

as_found-IsOwn : (seen : Seen) (m : Rows) (o : Option Entity) → IsOwn seen m (as_found seen o)
unfolding as_found
as_found-IsOwn seen m none = (Grows-refl seen, inl tt)
as_found-IsOwn seen m (some e) = (Grows-refl seen, inl tt)

if_checked-IsOwn :
    (c : Result (Unit {0})) (seen next : Seen) (m : Rows) (o : Outcome)
    → Grows seen next
    → IsOwn seen m o
    → IsOwn seen m (if_checked c next o)
unfolding if_checked
if_checked-IsOwn (ok u) seen next m o g h = h
if_checked-IsOwn (err e) seen next m o g h = (g, inl tt)

module _ (check : Request → Result (Unit {0})) (seen : Seen) (m : Rows) (keyed_rows : IsKeyed m)
    (r : Request) where
  claim-IsOwn :
      (v : Verb) (o : Option String)
      → r.partition_key ≡ o
      → IsAddressed v r
      → IsOwn seen m (claim check v o r seen m)
  unfolding claim
  claim-IsOwn v none e a = (Grows-refl seen, inl tt)
  claim-IsOwn v (some p) e a = elim (Bool-cases (has_seen seen p r.row_key)) [
    | inl k ↦ rw k (Grows-refl seen, inl tt)
    | inr k ↦ rw k (
        if_checked-IsOwn (check r) seen _ m _ (set-Grows seen (str_append p r.row_key) p) (
          write_outcome-IsOwn seen _ m keyed_rows r p (set-Grows seen (str_append p r.row_key) p) k
            (set_marked seen p r.row_key p) v e a))
  ]

  query_outcome-IsOwn : (o : Option String) → IsOwn seen m (query_outcome check o r seen m)
  unfolding query_outcome
  query_outcome-IsOwn none = elim (Bool-cases (str_eq r.row_key "")) [
    | inl k ↦ rw k (Grows-refl seen, inl tt)
    | inr k ↦ rw k (Grows-refl seen, inl tt)
  ]
  query_outcome-IsOwn (some p) = elim (Bool-cases (str_eq p "" || str_eq r.row_key "")) [
    | inl k ↦ rw k (Grows-refl seen, inl tt)
    | inr k ↦ rw k (
        if_checked-IsOwn (check r) seen seen m _ (Grows-refl seen)
          (as_found-IsOwn seen m (m p r.row_key)))
  ]

  pub outcome-IsOwn : (v : Verb) → IsAddressed v r → IsOwn seen m (outcome check v r seen m)
  unfolding outcome
  outcome-IsOwn post a = claim-IsOwn post r.partition_key refl a
  outcome-IsOwn put a = claim-IsOwn put r.partition_key refl a
  outcome-IsOwn delete a = claim-IsOwn delete r.partition_key refl a
  outcome-IsOwn patch a = claim-IsOwn patch r.partition_key refl a
  outcome-IsOwn merge a = claim-IsOwn merge r.partition_key refl a
  outcome-IsOwn get_entity a = query_outcome-IsOwn r.partition_key
  outcome-IsOwn _ a = (Grows-refl seen, inl tt)
