-- ===== src/Table/Transactions.antt =====
-- src/table/persistence/LokiTableMetadataStore.ts: the begin and the end of a batch.
use azurite.Prelude.{
  Bool, true, false, String, Option, none, some, List, [], ◌∷◌, ◌||◌, if◌then◌else◌, defined,
}
use azurite.Prelude.Maps.{get}
use azurite.Errors.{plain_error}
use azurite.Table.Entities.{Entity}
use azurite.Table.Database.{Loki}
use azurite.Methods.{Method, ◌>>=◌, ◌>>◌, pure, throw, when, modify}
use azurite.Table.Store.{Store, find_one, insert, remove}
use azurite.Table.Store.Names.{get_table_collection_name}

-- `a.length > 0`
unfoldable pub holds_some : List Entity → Bool
holds_some [] = false
holds_some (e ∷ es) = true

module _ (db : Loki) where
  unfoldable pub begin_batch_transaction : Method (Store db.Collection) (Unit {0})
  unfolding holds_some
  begin_batch_transaction s =
      when (holds_some s.rollback_these || holds_some s.delete_these) (throw plain_error) s

  -- `if (doc) remove(doc)`
  unfoldable pub remove_found : String → Option Entity → Method (Store db.Collection) (Unit {0})
  unfolding remove
  remove_found name none = pure tt
  remove_found name (some doc) = remove db name doc

  -- The loop of rollbackEntityChanges; the copy of an entity has all its fields.
  unfoldable pub rollback_entity_changes :
      String → List Entity → Method (Store db.Collection) (Unit {0})
  unfolding find_one insert remove_found
  rollback_entity_changes name [] = pure tt
  rollback_entity_changes name (e ∷ es) = do
    found ← find_one db name e.partition_key e.row_key
    remove_found name found
    insert db name e
    rollback_entity_changes name es

  -- The loop of removeEntitiesAddedInBatch.
  unfoldable pub remove_entities_added_in_batch :
      String → List Entity → Method (Store db.Collection) (Unit {0})
  unfolding remove
  remove_entities_added_in_batch name [] = pure tt
  remove_entities_added_in_batch name (e ∷ es) = do
    remove db name e
    remove_entities_added_in_batch name es

  unfoldable pub undo_batch : String → Method (Store db.Collection) (Unit {0})
  unfolding rollback_entity_changes remove_entities_added_in_batch
  undo_batch name s =
      if defined (get s.collections name)
      then (rollback_entity_changes name s.rollback_these
            >> remove_entities_added_in_batch name s.delete_these)
          s
      else (pure tt) s

  unfoldable pub reset_trackers : Store db.Collection → Store db.Collection
  reset_trackers s = record s { rollback_these = []; delete_these = [] }

  unfoldable pub end_batch_transaction :
      String → String → Bool → Method (Store db.Collection) (Unit {0})
  unfolding undo_batch reset_trackers
  end_batch_transaction account table true = modify reset_trackers
  end_batch_transaction account table false =
      undo_batch (get_table_collection_name account table) >> modify reset_trackers
