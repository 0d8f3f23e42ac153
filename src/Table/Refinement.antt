-- ===== src/Table/Refinement.antt =====
-- src/table/persistence/LokiTableMetadataStore.ts: each write makes the change of its specification.
use mathlib.Core.Path.{subst}
use azurite.Prelude.{◌≡◌, refl, ◌∙◌, true, String, none, some, List, [], ◌∷◌, ◌++◌}
use azurite.Errors.{Result, ok}
use azurite.Table.Entities.{Entity, has_key, stamp, merge_entity}
use azurite.Table.Database.{Loki, LokiLaws, Rows, drop_row}
use azurite.Methods.{after}
use azurite.Table.Store.{Store, insert, remove, update, track_rollback, track_delete}
use azurite.Table.Position
use azurite.Table.Position.{At, exact_name}
use azurite.Table.Rows.{row_at_key, put-drop_row}
use azurite.Table.Spec.{Change, added, removed, replaced, rows_after, rollback_after, delete_after}

stamp_row :
    (m : Rows) (e : Entity)
    → m (stamp e).partition_key (stamp e).row_key ≡ m e.partition_key e.row_key
unfolding stamp
stamp_row m e = refl

stamp_keyed :
    (d e : Entity)
    → has_key d e.partition_key e.row_key ≡ true
    → has_key d (stamp e).partition_key (stamp e).row_key ≡ true
unfolding stamp
stamp_keyed d e h = h

pub drop_row_at :
    (m : Rows) (d e : Entity)
    → has_key d e.partition_key e.row_key ≡ true
    → drop_row m d e.partition_key e.row_key ≡ none
unfolding drop_row
drop_row_at m d e h = rw h

module _ (db : Loki) (laws : LokiLaws db) (account table : String) where
  abbrev pub Agrees :
      {A : Type 0}
      → Result A × Change
      → Rows
      → List Entity
      → List Entity
      → Result A × Store db.Collection
      → Type 0
  Agrees (r, change) m rb ins (result, s') =
      (result ≡ r)
      × At db laws account table (rows_after change m) (rollback_after change rb)
          (delete_after change ins) s'

  -- What follows the lookup of insertTableEntity, updateTableEntity and mergeTableEntity.
  module _ {m : Rows} {rb ins : List Entity} {s : Store db.Collection}
      (at : At db laws account table m rb ins s) where
    pub insert_new-Agrees :
        (e : Entity)
        → m e.partition_key e.row_key ≡ none
        → Agrees
            (ok (stamp e), added (stamp e))
            m
            rb
            ins
            (after
              (insert db (exact_name db laws account table) (stamp e) (track_delete db (stamp e) s))
              λ _ s'. (ok (stamp e), s'))
    unfolding rows_after rollback_after delete_after
    insert_new-Agrees e h =
        let tracked_at = Position.track_delete-At db laws account table at (stamp e) in
        let (s', done, at') =
          Position.insert_lem db laws account table tracked_at (stamp e) (stamp_row m e ∙ h) in
        rw done (refl, at')

    pub replace-Agrees :
        (doc e : Entity)
        → m e.partition_key e.row_key ≡ some doc
        → Agrees
            (ok (stamp e), replaced doc (stamp e))
            m
            rb
            ins
            (after
              (remove db (exact_name db laws account table) doc (track_rollback db doc s))
              λ _ s1.
                after
                  (insert db (exact_name db laws account table) (stamp e) s1)
                  λ _ s'. (ok (stamp e), s'))
    unfolding rows_after rollback_after delete_after
    replace-Agrees doc e h =
        let keyed = laws.shown_has_key at.collection m e.partition_key e.row_key doc at.shown h in
        let tracked_at = Position.track_rollback-At db laws account table at doc in
        let (s1, gone, at1) =
          Position.remove_lem db laws account table tracked_at doc
            (row_at_key m e.partition_key e.row_key doc keyed h) in
        let (s2, done, at2) =
          Position.insert_lem db laws account table at1 (stamp e)
            (stamp_row (drop_row m doc) e ∙ drop_row_at m doc e keyed) in
        rw gone (
          rw done (
            refl,
            subst (λ (n : Rows). At db laws account table n (rb ++ doc ∷ []) ins s2)
                (put-drop_row m doc (stamp e) (stamp_keyed doc e keyed)) at2,
          ))

    pub update-Agrees :
        (doc e : Entity)
        → m e.partition_key e.row_key ≡ some doc
        → Agrees
            (ok (merge_entity doc e), replaced doc (merge_entity doc e))
            m
            rb
            ins
            (after
              (update db
                (exact_name db laws account table)
                doc
                (merge_entity doc e)
                (track_rollback db doc s))
              λ _ s'. (ok (merge_entity doc e), s'))
    unfolding rows_after rollback_after delete_after merge_entity
    update-Agrees doc e h =
        let keyed = laws.shown_has_key at.collection m e.partition_key e.row_key doc at.shown h in
        let tracked_at = Position.track_rollback-At db laws account table at doc in
        let (s', done, at') =
          Position.update_lem db laws account table tracked_at doc (merge_entity doc e)
            (row_at_key m e.partition_key e.row_key doc keyed h) keyed in
        rw done (refl, at')

    pub remove-Agrees :
        (doc : Entity) (p r : String)
        → m p r ≡ some doc
        → Agrees
            (ok tt, removed doc)
            m
            rb
            ins
            (remove db (exact_name db laws account table) doc (track_rollback db doc s))
    unfolding rows_after rollback_after delete_after
    remove-Agrees doc p r h =
        let keyed = laws.shown_has_key at.collection m p r doc at.shown h in
        let tracked_at = Position.track_rollback-At db laws account table at doc in
        let (s', gone, at') =
          Position.remove_lem db laws account table tracked_at doc (row_at_key m p r doc keyed h) in
        rw gone (refl, at')
