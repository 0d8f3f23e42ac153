-- ===== src/Table/Entities.antt =====
-- src/table/persistence/ITableMetadataStore.ts: IEntity; src/table/persistence/
-- LokiTableMetadataStore.ts: what mergeTableEntity and encodeIfMatch compute. A property's number is
-- kept as its JSON text, since nothing computes with it. The handlers put no annotation (odataid and
-- the like) into the entities they store, so that an entity has the fields of IEntity only.
use Prim.Native.Char.{code}
use azurite.Prelude.{
  Bool, String, str_append, none, some, List, [], ◌∷◌, if◌then◌else◌, ◌==◌, ◌||◌, ◌&&◌, str_eq,
}
use azurite.Prelude.Maps.{get, set, delete}

pub data Value : Type 0 where
  null : Value
  boolean : Bool → Value
  number : String → Value
  text : String → Value

abbrev pub Properties : Type 0
Properties = List (String × Value)

pub record Entity : Type 0 where
  pub partition_key : String
  pub row_key : String
  pub e_tag : String
  pub last_modified_time : String
  pub properties : Properties

-- The query { PartitionKey, RowKey }.
unfoldable pub has_key : Entity → String → String → Bool
has_key e partition row = str_eq e.partition_key partition && str_eq e.row_key row

abbrev pub odata_type : String
odata_type = "@odata.type"

-- `s.endsWith(t)`
unfoldable pub ends_with : String → String → Bool
ends_with String.[] t = str_eq "" t
ends_with (String.◌∷◌ c s) t = str_eq (String.◌∷◌ c s) t || ends_with s t

unfoldable pub filter_odata_meta_data : Properties → String → Properties → Properties
filter_odata_meta_data given key merged =
    let name = str_append key odata_type in
    elim (get given name) [ none ↦ delete merged name | some value ↦ set merged name value ]

-- The loop of mergeTableEntity over the properties left.
unfoldable pub merge_properties : Properties → Properties → Properties → Properties
merge_properties [] given merged = merged
merge_properties ((key, value) ∷ rest) given merged = merge_properties rest given (
    if ends_with key odata_type
    then merged
    else filter_odata_meta_data given key (set merged key value))

unfoldable pub merge_entity : Entity → Entity → Entity
merge_entity doc entity = record entity {
  properties = merge_properties entity.properties entity.properties doc.properties;
}

-- `s.replace(":", "%3A")`, which replaces the first colon.
unfoldable pub replace_colon : String → String
replace_colon String.[] = ""
replace_colon (String.◌∷◌ c s) =
    if code c == b':' then str_append "%3A" s else String.◌∷◌ c (replace_colon s)

unfoldable pub encode_if_match : String → String
unfolding replace_colon
encode_if_match if_match = replace_colon (replace_colon if_match)

-- What insertTableEntity and updateTableEntity add to an entity.
unfoldable pub stamp : Entity → Entity
stamp e = record e {
  properties =
      set (set e.properties "Timestamp" (text e.last_modified_time)) "Timestamp@odata.type"
        (text "Edm.DateTime");
}
