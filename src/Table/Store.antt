-- ===== src/Table/Store.antt =====
-- src/table/persistence/LokiTableMetadataStore.ts: the operations on the entities of a table, and the
-- trackers of a batch. A collection is named by its key among the collections of the database, and a
-- document by the entity that it stores.
pub mod Names
use azurite.Prelude.{
  ◌≡◌, Bool, true, false, String, Option, none, some, List, [], ◌∷◌, ◌++◌, ◌&&◌, ◌||◌,
  if◌then◌else◌, str_eq, not, defined,
}
use azurite.Prelude.Maps.{get, set}
use azurite.Errors.{
  Error, Result, ok, err, plain_error, table_not_exist, entity_already_exist, entity_not_found,
  precondition_failed,
}
use azurite.Table.Entities.{Entity, stamp, encode_if_match, merge_entity}
use azurite.Table.Database.{Loki}
use azurite.Methods.{Method, ◌>>=◌, ◌>>◌, pure, throw, when, modify}
use azurite.Table.Store.Names.{get_table_collection_name, to_lower_case}

-- The collections of the tables; transactionRollbackTheseEntities, transactionDeleteTheseEntities.
pub record Store (C : Type 0) : Type 0 where
  pub collections : List (String × C)
  pub rollback_these : List Entity
  pub delete_these : List Entity

-- `batchId !== ""`
unfoldable pub is_batch : Option String → Bool
is_batch none = true
is_batch (some id) = not (str_eq id "")

-- `batchId !== "" && batchId !== undefined`
unfoldable pub is_insert_batch : Option String → Bool
unfolding is_batch
is_insert_batch batch_id = is_batch batch_id && defined batch_id

-- The test of updateTableEntity and mergeTableEntity.
unfoldable pub if_match_holds : Entity → Option String → Bool
if_match_holds doc none = true
if_match_holds doc (some if_match) =
    let encoded = encode_if_match if_match in
    str_eq encoded "*" || str_eq (encode_if_match doc.e_tag) encoded

module _ (db : Loki) where
  -- getEntityCollection: the lower-case name first, then the name as it is given.
  unfoldable pub get_entity_collection : String → String → Method (Store db.Collection) String
  get_entity_collection account table s =
      let lower = get_table_collection_name account (to_lower_case table) in
      let name = get_table_collection_name account table in
      if defined (get s.collections lower)
      then (ok lower, s)
      else if defined (get s.collections name)
      then (ok name, s)
      else (err table_not_exist, s)

  -- Calls of the collection with a name.
  unfoldable pub find_one : String → String → String → Method (Store db.Collection) (Option Entity)
  find_one name partition row s = elim (get s.collections name) [
    | none ↦ (err plain_error, s)
    | some c ↦ (ok (db.find_one c partition row), s)
  ]

  unfoldable pub insert : String → Entity → Method (Store db.Collection) (Unit {0})
  insert name e s = elim (get s.collections name) [
    | none ↦ (err plain_error, s)
    | some c ↦ (ok tt, record s { collections = set s.collections name (db.insert c e) })
  ]

  unfoldable pub remove_from :
      String → Store db.Collection → Result db.Collection → Result (Unit {0}) × Store db.Collection
  remove_from name s (ok c) = (ok tt, record s { collections = set s.collections name c })
  remove_from name s (err e) = (err e, s)

  unfoldable pub remove : String → Entity → Method (Store db.Collection) (Unit {0})
  unfolding remove_from
  remove name e s = elim (get s.collections name) [
    | none ↦ (err plain_error, s)
    | some c ↦ remove_from name s (db.remove c e)
  ]

  unfoldable pub update : String → Entity → Entity → Method (Store db.Collection) (Unit {0})
  update name doc e s = elim (get s.collections name) [
    | none ↦ (err plain_error, s)
    | some c ↦ (ok tt, record s { collections = set s.collections name (db.update c doc e) })
  ]

  unfoldable pub track_rollback : Entity → Store db.Collection → Store db.Collection
  track_rollback doc s = record s { rollback_these = s.rollback_these ++ doc ∷ [] }

  unfoldable pub track_delete : Entity → Store db.Collection → Store db.Collection
  track_delete e s = record s { delete_these = s.delete_these ++ e ∷ [] }

  -- `if (!doc) throw …`
  unfoldable pub or_throw : Option Entity → Error → Method (Store db.Collection) Entity
  or_throw none e = throw e
  or_throw (some doc) e = pure doc

  unfoldable pub insert_table_entity :
      String → String → Entity → Option String → Method (Store db.Collection) Entity
  unfolding get_entity_collection find_one insert track_delete is_insert_batch
  insert_table_entity table account entity batch_id = do
    name ← get_entity_collection account table
    doc ← find_one name entity.partition_key entity.row_key
    let stamped = stamp entity
    if defined doc then throw entity_already_exist else do
      when (is_insert_batch batch_id) (modify (track_delete stamped))
      insert name stamped
      pure stamped

  unfoldable pub update_table_entity :
      String → String → Entity → Option String → Option String → Method (Store db.Collection) Entity
  unfolding get_entity_collection find_one insert remove track_rollback is_batch if_match_holds
      or_throw
  update_table_entity table account entity if_match batch_id = do
    name ← get_entity_collection account table
    found ← find_one name entity.partition_key entity.row_key
    doc ← or_throw found entity_not_found
    when (is_batch batch_id) (modify (track_rollback doc))
    let stamped = stamp entity
    if if_match_holds doc if_match
        then (remove name doc >> (insert name stamped >> pure stamped))
        else throw precondition_failed

  unfoldable pub merge_table_entity :
      String → String → Entity → Option String → Option String → Method (Store db.Collection) Entity
  unfolding get_entity_collection find_one update track_rollback is_batch if_match_holds or_throw
  merge_table_entity table account entity if_match batch_id = do
    name ← get_entity_collection account table
    found ← find_one name entity.partition_key entity.row_key
    doc ← or_throw found entity_not_found
    when (is_batch batch_id) (modify (track_rollback doc))
    let merged = merge_entity doc entity
    if if_match_holds doc if_match
        then (update name doc merged >> pure merged)
        else throw precondition_failed

  -- queryTableEntitiesWithPartitionAndRowKey
  unfoldable pub query_table_entity :
      String → String → String → String → Method (Store db.Collection) (Option Entity)
  unfolding get_entity_collection find_one
  query_table_entity table account partition row = do
    name ← get_entity_collection account table
    find_one name partition row
