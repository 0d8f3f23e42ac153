-- ===== src/Table/Spec.antt =====
-- What the writes of src/table/persistence/LokiTableMetadataStore.ts promise of the rows of a table:
-- the result, and the change that they make. `tracked` leaves the rows as they are.
use azurite.Prelude.{String, Option, none, some, List, [], ◌∷◌, ◌++◌, if◌then◌else◌}
use azurite.Errors.{Result, ok, err, entity_already_exist, entity_not_found, precondition_failed}
use azurite.Table.Entities.{Entity, stamp, merge_entity}
use azurite.Table.Database.{Rows, put, drop_row}
use azurite.Table.Store.{if_match_holds}
use azurite.Table.Writes.{fails_if_match}

pub data Change : Type 0 where
  same : Change
  added removed tracked : Entity → Change
  replaced : Entity → Entity → Change

unfoldable pub rows_after : Change → Rows → Rows
rows_after same m = m
rows_after (added e) m = put m e
rows_after (removed doc) m = drop_row m doc
rows_after (tracked doc) m = m
rows_after (replaced doc e) m = put m e

-- The trackers after a change in a batch.
unfoldable pub rollback_after : Change → List Entity → List Entity
rollback_after same rb = rb
rollback_after (added e) rb = rb
rollback_after (removed doc) rb = rb ++ doc ∷ []
rollback_after (tracked doc) rb = rb ++ doc ∷ []
rollback_after (replaced doc e) rb = rb ++ doc ∷ []

unfoldable pub delete_after : Change → List Entity → List Entity
delete_after (added e) ins = ins ++ e ∷ []
delete_after same ins = ins
delete_after (removed doc) ins = ins
delete_after (tracked doc) ins = ins
delete_after (replaced doc e) ins = ins

unfoldable pub insert_change : Option Entity → Entity → Result Entity × Change
insert_change none e = (ok (stamp e), added (stamp e))
insert_change (some doc) e = (err entity_already_exist, same)

unfoldable pub update_change : Option Entity → Entity → Option String → Result Entity × Change
update_change none e if_match = (err entity_not_found, same)
update_change (some doc) e if_match =
    if if_match_holds doc if_match
    then (ok (stamp e), replaced doc (stamp e))
    else (err precondition_failed, tracked doc)

unfoldable pub merge_change : Option Entity → Entity → Option String → Result Entity × Change
merge_change none e if_match = (err entity_not_found, same)
merge_change (some doc) e if_match =
    let merged = merge_entity doc e in
    if if_match_holds doc if_match
    then (ok merged, replaced doc merged)
    else (err precondition_failed, tracked doc)

unfoldable pub upsert_change : Option Entity → Entity → Option String → Result Entity × Change
unfolding insert_change update_change
upsert_change none e none = insert_change none e
upsert_change old e if_match = update_change old e if_match

unfoldable pub upmerge_change : Option Entity → Entity → Option String → Result Entity × Change
unfolding insert_change merge_change
upmerge_change none e none = insert_change none e
upmerge_change old e if_match = merge_change old e if_match

unfoldable pub delete_change : Option Entity → String → Result (Unit {0}) × Change
delete_change none e_tag = (err entity_not_found, same)
delete_change (some doc) e_tag =
    if fails_if_match e_tag doc then (err precondition_failed, same) else (ok tt, removed doc)
