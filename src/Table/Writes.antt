-- ===== src/Table/Writes.antt =====
-- src/table/persistence/LokiTableMetadataStore.ts: the writes that a handler calls beside
-- insertTableEntity.
use azurite.Prelude.{Bool, String, Option, none, some, ◌&&◌, if◌then◌else◌, str_eq, not, defined}
use azurite.Errors.{entity_not_found, precondition_failed, properties_need_value}
use azurite.Table.Entities.{Entity}
use azurite.Table.Database.{Loki}
use azurite.Methods.{Method, ◌>>=◌, ◌>>◌, throw, when, modify}
use azurite.Table.Store.{
  Store, is_batch, get_entity_collection, find_one, remove, track_rollback, or_throw,
  insert_table_entity, update_table_entity, merge_table_entity, query_table_entity,
}

-- The test of checkIfMatchPrecondition.
unfoldable pub fails_if_match : String → Entity → Bool
fails_if_match e_tag doc = not (str_eq e_tag "*") && not (str_eq doc.e_tag e_tag)

module _ (db : Loki) where
  unfoldable pub insert_or_update_table_entity :
      String → String → Entity → Option String → Option String → Method (Store db.Collection) Entity
  unfolding insert_table_entity update_table_entity query_table_entity
  insert_or_update_table_entity table account entity (some if_match) batch_id =
      update_table_entity db table account entity (some if_match) batch_id
  insert_or_update_table_entity table account entity none batch_id = do
    existing ← query_table_entity db table account entity.partition_key entity.row_key
    if defined existing
        then update_table_entity db table account entity none batch_id
        else insert_table_entity db table account entity batch_id

  unfoldable pub insert_or_merge_table_entity :
      String → String → Entity → Option String → Option String → Method (Store db.Collection) Entity
  unfolding insert_table_entity merge_table_entity query_table_entity
  insert_or_merge_table_entity table account entity (some if_match) batch_id =
      merge_table_entity db table account entity (some if_match) batch_id
  insert_or_merge_table_entity table account entity none batch_id = do
    existing ← query_table_entity db table account entity.partition_key entity.row_key
    if defined existing
        then merge_table_entity db table account entity none batch_id
        else insert_table_entity db table account entity batch_id

  -- deleteTableEntity where both keys are defined.
  unfoldable pub delete_with_keys :
      String → String → String → String → Option String → Method (Store db.Collection) (Unit {0})
  unfolding find_one remove track_rollback is_batch or_throw fails_if_match
  delete_with_keys name partition row e_tag batch_id = do
    found ← find_one db name partition row
    doc ← or_throw db found entity_not_found
    when (fails_if_match e_tag doc) (throw precondition_failed)
    when (is_batch batch_id) (modify (track_rollback db doc))
    remove db name doc

  unfoldable pub delete_keys :
      String
      → Option String
      → Option String
      → String
      → Option String
      → Method (Store db.Collection) (Unit {0})
  unfolding delete_with_keys
  delete_keys name (some partition) (some row) e_tag batch_id =
      delete_with_keys name partition row e_tag batch_id
  delete_keys name partition row e_tag batch_id = throw properties_need_value

  unfoldable pub delete_table_entity :
      String
      → String
      → Option String
      → Option String
      → String
      → Option String
      → Method (Store db.Collection) (Unit {0})
  unfolding get_entity_collection delete_keys
  delete_table_entity table account partition row e_tag batch_id = do
    name ← get_entity_collection db account table
    delete_keys name partition row e_tag batch_id
