-- ===== src/Table/Operations.antt =====
-- src/table/persistence/LokiTableMetadataStore.ts: the writes in a batch make the changes of their
-- specifications, on every branch.
use azurite.Prelude.{
  ◌≡◌, refl, true, false, Bool-cases, Option-cases, inl, inr, String, Option, none, some, List,
  str_eq,
}
use azurite.Errors.{ok}
use azurite.Table.Entities.{Entity}
use azurite.Table.Database.{Loki, LokiLaws, Rows}
use azurite.Table.Store.{
  Store, is_batch, is_insert_batch, if_match_holds, or_throw, insert_table_entity,
  update_table_entity, merge_table_entity, query_table_entity,
}
use azurite.Table.Writes.{
  fails_if_match, insert_or_update_table_entity, insert_or_merge_table_entity, delete_table_entity,
  delete_keys, delete_with_keys,
}
use azurite.Table.Position
use azurite.Table.Position.{At, exact_name}
use azurite.Table.Refinement
use azurite.Table.Refinement.{Agrees}
use azurite.Table.Spec.{
  rows_after, rollback_after, delete_after, insert_change, update_change, merge_change,
  upsert_change, upmerge_change, delete_change,
}

module _ (id : String) (named : str_eq id "" ≡ false) where
  in_batch : is_batch (some id) ≡ true
  unfolding is_batch
  in_batch = rw named

  in_insert_batch : is_insert_batch (some id) ≡ true
  unfolding is_insert_batch is_batch
  in_insert_batch = rw named

module _ (db : Loki) (laws : LokiLaws db) (account table : String) {m : Rows} {rb ins : List Entity}
    {s : Store db.Collection} (at : At db laws account table m rb ins s) (id : String)
    (named : str_eq id "" ≡ false) where
  pub insert_table_entity-Agrees :
      (e : Entity)
      → Agrees db laws account table
          (insert_change (m e.partition_key e.row_key) e)
          m
          rb
          ins
          (insert_table_entity db table account e (some id) s)
  unfolding insert_table_entity insert_change rows_after rollback_after delete_after
  insert_table_entity-Agrees e =
      rw (Position.get_entity_collection_lem db laws account table at, insert_table_entity)
        (rw (Position.find_one_lem db laws account table at e.partition_key e.row_key)
          (elim (Option-cases (m e.partition_key e.row_key)) [
            | inl h ↦ rw h (
                rw (in_insert_batch id named)
                  (Refinement.insert_new-Agrees db laws account table at e h))
            | inr (doc, h) ↦ rw h (refl, at)
          ]))

  pub update_table_entity-Agrees :
      (e : Entity) (if_match : Option String)
      → Agrees db laws account table
          (update_change (m e.partition_key e.row_key) e if_match)
          m
          rb
          ins
          (update_table_entity db table account e if_match (some id) s)
  unfolding update_table_entity update_change rows_after rollback_after delete_after or_throw
  update_table_entity-Agrees e if_match =
      rw (Position.get_entity_collection_lem db laws account table at, update_table_entity)
        (rw (Position.find_one_lem db laws account table at e.partition_key e.row_key)
          (elim (Option-cases (m e.partition_key e.row_key)) [
            | inl h ↦ rw h (refl, at)
            | inr (doc, h) ↦
                rw (h, or_throw)
                  (rw (in_batch id named) (elim (Bool-cases (if_match_holds doc if_match)) [
                    | inl k ↦ rw k (Refinement.replace-Agrees db laws account table at doc e h)
                    | inr k ↦ rw k (refl, Position.track_rollback-At db laws account table at doc)
                  ]))
          ]))

  pub merge_table_entity-Agrees :
      (e : Entity) (if_match : Option String)
      → Agrees db laws account table
          (merge_change (m e.partition_key e.row_key) e if_match)
          m
          rb
          ins
          (merge_table_entity db table account e if_match (some id) s)
  unfolding merge_table_entity merge_change rows_after rollback_after delete_after or_throw
  merge_table_entity-Agrees e if_match =
      rw (Position.get_entity_collection_lem db laws account table at, merge_table_entity)
        (rw (Position.find_one_lem db laws account table at e.partition_key e.row_key)
          (elim (Option-cases (m e.partition_key e.row_key)) [
            | inl h ↦ rw h (refl, at)
            | inr (doc, h) ↦
                rw (h, or_throw)
                  (rw (in_batch id named) (elim (Bool-cases (if_match_holds doc if_match)) [
                    | inl k ↦ rw k (Refinement.update-Agrees db laws account table at doc e h)
                    | inr k ↦ rw k (refl, Position.track_rollback-At db laws account table at doc)
                  ]))
          ]))

  pub query_table_entity_lem :
      (p r : String) → query_table_entity db table account p r s ≡ (ok (m p r), s)
  unfolding query_table_entity
  query_table_entity_lem p r =
      rw (Position.get_entity_collection_lem db laws account table at, query_table_entity)
        (Position.find_one_lem db laws account table at p r)

  pub upsert-Agrees :
      (e : Entity) (if_match : Option String)
      → Agrees db laws account table
          (upsert_change (m e.partition_key e.row_key) e if_match)
          m
          rb
          ins
          (insert_or_update_table_entity db table account e if_match (some id) s)
  unfolding insert_or_update_table_entity upsert_change
  upsert-Agrees e none =
      rw (query_table_entity_lem e.partition_key e.row_key, insert_or_update_table_entity)
        (elim (Option-cases (m e.partition_key e.row_key)) [
          | inl h ↦ rw h (rw h at (insert_table_entity-Agrees e))
          | inr (doc, h) ↦ rw h (rw h at (update_table_entity-Agrees e none))
        ])
  upsert-Agrees e (some if_match) = elim (Option-cases (m e.partition_key e.row_key)) [
    | inl h ↦ rw h (rw h at (update_table_entity-Agrees e (some if_match)))
    | inr (doc, h) ↦ rw h (rw h at (update_table_entity-Agrees e (some if_match)))
  ]

  pub upmerge-Agrees :
      (e : Entity) (if_match : Option String)
      → Agrees db laws account table
          (upmerge_change (m e.partition_key e.row_key) e if_match)
          m
          rb
          ins
          (insert_or_merge_table_entity db table account e if_match (some id) s)
  unfolding insert_or_merge_table_entity upmerge_change
  upmerge-Agrees e none =
      rw (query_table_entity_lem e.partition_key e.row_key, insert_or_merge_table_entity)
        (elim (Option-cases (m e.partition_key e.row_key)) [
          | inl h ↦ rw h (rw h at (insert_table_entity-Agrees e))
          | inr (doc, h) ↦ rw h (rw h at (merge_table_entity-Agrees e none))
        ])
  upmerge-Agrees e (some if_match) = elim (Option-cases (m e.partition_key e.row_key)) [
    | inl h ↦ rw h (rw h at (merge_table_entity-Agrees e (some if_match)))
    | inr (doc, h) ↦ rw h (rw h at (merge_table_entity-Agrees e (some if_match)))
  ]

  pub delete_table_entity-Agrees :
      (p r e_tag : String)
      → Agrees db laws account table
          (delete_change (m p r) e_tag)
          m
          rb
          ins
          (delete_table_entity db table account (some p) (some r) e_tag (some id) s)
  unfolding delete_table_entity delete_change delete_keys delete_with_keys rows_after rollback_after
      delete_after or_throw
  delete_table_entity-Agrees p r e_tag =
      rw (Position.get_entity_collection_lem db laws account table at, delete_table_entity)
        (rw (Position.find_one_lem db laws account table at p r) (elim (Option-cases (m p r)) [
          | inl h ↦ rw h (refl, at)
          | inr (doc, h) ↦
              rw (h, or_throw)
                (elim (Bool-cases (fails_if_match e_tag doc)) [
                  | inl k ↦ rw k (refl, at)
                  | inr k ↦ rw (k) (
                      rw (in_batch id named)
                        (Refinement.remove-Agrees db laws account table at doc p r h))
                ])
        ]))
