-- ===== src/Table/Database.antt =====
-- LokiJS, which src/table/persistence/LokiTableMetadataStore.ts uses: a parameter of the store.
-- `remove` throws for a document that the collection does not hold; `update` replaces a document by one
-- with its `$loki`.
use azurite.Prelude.{◌≡◌, true, String, Option, none, some, if◌then◌else◌}
use azurite.Errors.{Result, Returns}
use azurite.Table.Entities.{Entity, has_key}

pub record Loki : Type 1 where
  pub Collection : Type 0
  pub find_one : Collection → String → String → Option Entity
  pub insert : Collection → Entity → Collection
  pub remove : Collection → Entity → Result Collection
  pub update : Collection → Entity → Entity → Collection

-- The rows of a table: the entity for each PartitionKey and RowKey.
abbrev pub Rows : Type 0
Rows = String → String → Option Entity

unfoldable pub put : Rows → Entity → Rows
put m e partition row = if has_key e partition row then some e else m partition row

unfoldable pub drop_row : Rows → Entity → Rows
drop_row m e partition row = if has_key e partition row then none else m partition row

-- `Shows c m`: the collection c holds the rows m, each key in one document at most.
pub record LokiLaws (db : Loki) : Type 1 where
  pub Shows : db.Collection → Rows → Type 0
  pub find_one_lem :
      (c : db.Collection) (m : Rows) (partition row : String)
      → Shows c m
      → db.find_one c partition row ≡ m partition row
  pub shown_has_key :
      (c : db.Collection) (m : Rows) (partition row : String) (e : Entity)
      → Shows c m
      → m partition row ≡ some e
      → has_key e partition row ≡ true
  pub insert-Shows :
      (c : db.Collection) (m : Rows) (e : Entity)
      → Shows c m
      → m e.partition_key e.row_key ≡ none
      → Shows (db.insert c e) (put m e)
  pub remove-Shows :
      (c : db.Collection) (m : Rows) (e : Entity)
      → Shows c m
      → m e.partition_key e.row_key ≡ some e
      → Returns (λ c'. Shows c' (drop_row m e)) (db.remove c e)
  pub update-Shows :
      (c : db.Collection) (m : Rows) (doc e : Entity)
      → Shows c m
      → m doc.partition_key doc.row_key ≡ some doc
      → has_key doc e.partition_key e.row_key ≡ true
      → Shows (db.update c doc e) (put m e)
