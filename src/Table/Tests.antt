-- ===== src/Table/Tests.antt =====
-- Runs of the table model, with a database that is the function of its rows.
use azurite.Prelude.{◌≡◌, refl, true, false, String, none, some, List, [], ◌∷◌, eq_iff, arith}
use azurite.Prelude.Maps.{get, set}
use azurite.Errors.{Result, ok, entity_not_found}
use azurite.Table.Atomicity.{process_batch_request-promised}
use azurite.Table.Batch.{
  Request, failed, answers, written, Verb, post, put, delete, process_batch_request,
}
use azurite.Table.BatchSpec.{promised}
use azurite.Table.Database.{Loki, LokiLaws, Rows, put as put_row, drop_row}
use azurite.Table.Entities.{
  Value, text, number, stamp, Entity, has_key, merge_entity, odata_type, ends_with,
}
use azurite.Table.Loop.{AreAddressed}
use azurite.Table.Merge.{merge_entity-get, or_else}
use azurite.Table.Position.{At}
use azurite.Table.Store.{Store}
use azurite.Table.Writes.{insert_or_update_table_entity, delete_table_entity}
use azurite.Table.Store.Names.{get_table_collection_name, to_lower_case}

abbrev AreKeyed : Rows → Type 0
AreKeyed m = (p r : String) (e : Entity) → m p r ≡ some e → has_key e p r ≡ true

abbrev row_store : Loki
row_store = record {
  Collection = Rows;
  find_one = λ c p r. c p r;
  insert = put_row;
  remove = λ c e. ok (drop_row c e);
  update = λ c doc e. put_row c e;
}

put-AreKeyed : (m : Rows) (e : Entity) → AreKeyed m → AreKeyed (put_row m e)
unfolding put_row
put-AreKeyed m e h p r d k = ground (arith, k, h p r d)

drop_row-AreKeyed : (m : Rows) (e : Entity) → AreKeyed m → AreKeyed (drop_row m e)
unfolding drop_row
drop_row-AreKeyed m e h p r d k = ground (arith, k, h p r d)

abbrev row_laws : LokiLaws row_store
row_laws = record {
  Shows = λ c m. (c ≡ m) × AreKeyed m;
  find_one_lem = λ c m p r h i. h.0 i p r;
  shown_has_key = λ c m p r e h k. h.1 p r e k;
  insert-Shows = λ c m e h k. ((λ i. put_row (h.0 i) e), put-AreKeyed m e h.1);
  remove-Shows = λ c m e h k. ((λ i. drop_row (h.0 i) e), drop_row-AreKeyed m e h.1);
  update-Shows = λ c m doc e h k l. ((λ i. put_row (h.0 i) e), put-AreKeyed m e h.1);
}

abbrev entity : String → String → Entity
entity row tag = record {
  partition_key = "p";
  row_key = row;
  e_tag = tag;
  last_modified_time = "2024-01-01T00:00:00.000Z";
  properties = ("size", number "1") ∷ [];
}

abbrev no_rows : Rows
no_rows p r = none

abbrev rows : Rows
rows = put_row no_rows (entity "a" "0")

abbrev request : Verb → String → String → Request
request v row tag = record {
  verb = v;
  path = "photos";
  partition_key = some "p";
  row_key = row;
  if_match = none;
  entity = entity row tag;
}

abbrev no_check : Request → Result (Unit {0})
no_check r = ok tt

-- An update, an insert, and a delete of a row that is not there.
abbrev batch : List Request
batch = request put "a" "1" ∷ request post "b" "1" ∷ request delete "c" "1" ∷ []

abbrev store : Store Rows
store = record {
  collections = ("account$photos", rows) ∷ [];
  rollback_these = [];
  delete_these = [];
}

batch_fails :
    (process_batch_request row_store no_check "account" "1" batch store).0
    ≡ ok (failed 3 entity_not_found)
unfolding process_batch_request get set put_row drop_row has_key get_table_collection_name
    to_lower_case insert_or_update_table_entity delete_table_entity stamp
batch_fails = refl

-- Its writes alone succeed.
prefix_succeeds :
    (process_batch_request row_store no_check "account" "1"
      (request put "a" "1" ∷ request post "b" "1" ∷ [])
      store).0
    ≡ ok (answers (written (stamp (entity "a" "1")) ∷ written (stamp (entity "b" "1")) ∷ []))
unfolding process_batch_request get set put_row drop_row has_key get_table_collection_name
    to_lower_case insert_or_update_table_entity delete_table_entity stamp
prefix_succeeds = refl

batch_addressed : AreAddressed row_store row_laws "account" "photos" no_check "1" refl batch
unfolding has_key
batch_addressed = (refl, tt, (refl, (λ p e. ground (arith, e, eq_iff "p" p)), (refl, tt, tt)))

start : At row_store row_laws "account" "photos" rows [] [] store
unfolding get get_table_collection_name to_lower_case put_row has_key
start = record {
  collection = rows;
  held = refl;
  shown = (refl, put-AreKeyed no_rows (entity "a" "0") λ p r e h. cc);
  rollback = refl;
  inserted = refl;
  exact = refl;
}

name_once : (get {A = Value} [] "name" ≡ none) × Unit {0}
unfolding get
name_once = (refl, tt)

not_annotation : ends_with "size" odata_type ≡ false
unfolding ends_with
not_annotation = refl

process_batch_request-promised_example :
    let (result, s') = process_batch_request row_store no_check "account" "1" batch store in
    (result ≡ ok (promised no_check batch rows).0)
    × At row_store row_laws "account" "photos" (promised no_check batch rows).1 [] [] s'
process_batch_request-promised_example =
    process_batch_request-promised row_store row_laws "account" "photos" no_check "1" refl batch
      rows store batch_addressed start

merge_entity-get_example :
    let merged =
      merge_entity
        (entity "a" "0")
        (record (entity "a" "1") { properties = ("name", text "x") ∷ [] }) in
    (get merged.properties "size"
      ≡ or_else (get (("name", text "x") ∷ []) "size") (get (("size", number "1") ∷ []) "size"))
    × (merged.partition_key ≡ "p")
    × (merged.row_key ≡ "a")
    × (merged.e_tag ≡ "1")
    × (merged.last_modified_time ≡ "2024-01-01T00:00:00.000Z")
merge_entity-get_example =
    merge_entity-get (entity "a" "0")
      (record (entity "a" "1") { properties = ("name", text "x") ∷ [] }) "size" name_once
      not_annotation
