-- ===== src/Table/Rollback.antt =====
-- src/table/persistence/LokiTableMetadataStore.ts: what the end of a batch makes of the rows.
use mathlib.Core.Path.{subst, fun_ext}
use azurite.Prelude.{
  ◌≡◌, refl, ap, ◌∙◌, Bool, true, false, String, Option, none, some, List, [], ◌∷◌,
}
use azurite.Errors.{ok}
use azurite.Table.Entities.{Entity}
use azurite.Table.Database.{Loki, LokiLaws, Rows, put, drop_row}
use azurite.Table.Store.{Store, insert}
use azurite.Table.Transactions.{
  remove_found, rollback_entity_changes, remove_entities_added_in_batch, undo_batch, reset_trackers,
  end_batch_transaction,
}
use azurite.Table.Position
use azurite.Table.Position.{At, exact_name}
use azurite.Table.Refinement.{drop_row_at}
use azurite.Table.Rows.{row_at_key, put-drop_row}
use azurite.Table.Undo.{
  undone, erased, weaken-All, undone-fresh, IsAdded, IsAdded-drop_row, IsAdded-congr,
}
use azurite.Table.Recorded.{Recorded}

module _ (db : Loki) (laws : LokiLaws db) (account table : String) where
  abbrev name : String
  name = exact_name db laws account table

  -- The document with the key of e, if there is one, gives way to e.
  replace_found :
      {m : Rows} {rb ins : List Entity} {s : Store db.Collection} (e : Entity)
      (at : At db laws account table m rb ins s) (o : Option Entity)
      → m e.partition_key e.row_key ≡ o
      → (s1 : Store db.Collection) × (remove_found db name o s ≡ (ok tt, s1))
        × (s2 : Store db.Collection) × (insert db name e s1 ≡ (ok tt, s2))
        × At db laws account table (put m e) rb ins s2
  unfolding remove_found
  replace_found e at none h =
      let (s2, done, at2) = Position.insert_lem db laws account table at e h in
      (_, refl, s2, done, at2)
  replace_found {m = m} {rb = rb} {ins = ins} e at (some doc) h =
      let keyed = laws.shown_has_key at.collection m e.partition_key e.row_key doc at.shown h in
      let (s1, gone, at1) =
        Position.remove_lem db laws account table at doc
          (row_at_key m e.partition_key e.row_key doc keyed h) in
      let (s2, done, at2) =
        Position.insert_lem db laws account table at1 e (drop_row_at m doc e keyed) in
      (
        s1,
        gone,
        s2,
        done,
        subst (λ (n : Rows). At db laws account table n rb ins s2) (put-drop_row m doc e keyed) at2,
      )

  rollback_lem :
      (es : List Entity) {m : Rows} {rb ins : List Entity} {s : Store db.Collection}
      (at : At db laws account table m rb ins s)
      → (s' : Store db.Collection) × (rollback_entity_changes db name es s ≡ (ok tt, s'))
        × At db laws account table (λ p r. undone es p r (m p r)) rb ins s'
  unfolding rollback_entity_changes undone put
  rollback_lem [] at = (_, refl, at)
  rollback_lem (e ∷ es) {m = m} at =
      let (s1, gone, s2, done, at2) = replace_found e at (m e.partition_key e.row_key) refl in
      let (s3, rest, at3) = rollback_lem es at2 in
      (
        s3,
        rw (Position.find_one_lem db laws account table at e.partition_key e.row_key)
            (rw gone (rw done rest)),
        at3,
      )

  remove_added_lem :
      (es : List Entity) {m : Rows} {rb ins : List Entity} {s : Store db.Collection}
      (at : At db laws account table m rb ins s)
      → IsAdded m es
      → (s' : Store db.Collection) × (remove_entities_added_in_batch db name es s ≡ (ok tt, s'))
        × At db laws account table (λ p r. erased es p r (m p r)) rb ins s'
  unfolding remove_entities_added_in_batch erased drop_row
  remove_added_lem [] at h = (_, refl, at)
  remove_added_lem (e ∷ es) {m = m} at h =
      let (s1, gone, at1) = Position.remove_lem db laws account table at e h.0 in
      let (s2, rest, at2) = remove_added_lem es at1 (IsAdded-drop_row m e es h.1 h.2) in
      (s2, rw gone rest, at2)

  reset-At :
      {m : Rows} {rb ins : List Entity} {s : Store db.Collection}
      → At db laws account table m rb ins s
      → At db laws account table m [] [] (reset_trackers db s)
  unfolding reset_trackers
  reset-At at = record {
    collection = at.collection;
    held = at.held;
    shown = at.shown;
    rollback = refl;
    inserted = refl;
    exact = at.exact;
  }

  pub commit_lem :
      {m : Rows} {rb ins : List Entity} {s : Store db.Collection}
      → At db laws account table m rb ins s
      → (s' : Store db.Collection) × (end_batch_transaction db account table true s ≡ (ok tt, s'))
        × At db laws account table m [] [] s'
  unfolding end_batch_transaction
  commit_lem at = (_, refl, reset-At at)

  pub rollback_all_lem :
      {m0 m : Rows} {rb ins : List Entity} {s : Store db.Collection} (seen : String → String → Bool)
      → At db laws account table m rb ins s
      → Recorded m0 seen m rb ins
      → (s' : Store db.Collection) × (end_batch_transaction db account table false s ≡ (ok tt, s'))
        × At db laws account table m0 [] [] s'
  unfolding end_batch_transaction undo_batch
  rollback_all_lem {m0 = m0} {m = m} {rb = rb} {ins = ins} {s = s} seen at rec =
      let (s1, back, at1) = rollback_lem rb at in
      let (s2, gone, at2) = remove_added_lem ins at1 (
        IsAdded-congr m (λ p r. undone rb p r (m p r)) ins
          (weaken-All _ _ ins
            (λ e. undone-fresh rb e.partition_key e.row_key (m e.partition_key e.row_key))
            rec.disjoint)
          rec.added_rows) in
      let back' = ap (λ es. rollback_entity_changes db name es s) at.rollback ∙ back in
      let gone' = ap (λ es. remove_entities_added_in_batch db name es s1) at.inserted ∙ gone in
      (
        _,
        rw (at.held, undo_batch) (rw back' (rw gone' refl)),
        subst (λ (n : Rows). At db laws account table n [] [] (reset_trackers db s2))
            (fun_ext λ p. fun_ext λ r. rec.back p r) (reset-At at2),
      )
