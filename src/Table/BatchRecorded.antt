-- ===== src/Table/BatchRecorded.antt =====
-- Each request of src/table/batch/TableBatchOrchestrator.ts leaves the trackers able to undo the batch.
use azurite.Prelude.{
  ◌≡◌, Bool, true, false, Bool-cases, inl, inr, String, str_append, Option, none, some, ◌⊎◌,
  defined,
}
use azurite.Prelude.Maps.{get}
use azurite.Table.Entities.{Entity, has_key, stamp, merge_entity}
use azurite.Table.Store.{if_match_holds}
use azurite.Table.Writes.{fails_if_match}
use azurite.Table.Database.{Rows}
use azurite.Table.BatchSpec.{Seen, Outcome}
use azurite.Table.Recorded.{IsAt}
use azurite.Table.Spec.{
  Change, same, insert_change, update_change, merge_change, upsert_change, upmerge_change,
  delete_change,
}

abbrev pub has_seen : Seen → String → String → Bool
has_seen seen p r = defined (get seen (str_append p r))

abbrev pub Grows : Seen → Seen → Type 0
Grows seen next = (p r : String) → has_seen seen p r ≡ true → has_seen next p r ≡ true

abbrev pub IsQuiet : Change → Type 0
IsQuiet same = Unit
IsQuiet _ = ⊥

-- The request changes nothing, or the row of a key that no request had before and that is seen now.
abbrev pub IsOwn : Seen → Rows → Outcome → Type 0
IsOwn seen m (result, next, change) =
    Grows seen next
    × (IsQuiet change
        ⊎ ((p : String) × (r : String) × (has_seen seen p r ≡ false)
            × (has_seen next p r ≡ true)
            × IsAt p r m change))

-- A row is under the key of its entity.
abbrev pub IsKeyed : Rows → Type 0
IsKeyed m = (p r : String) (e : Entity) → m p r ≡ some e → has_key e p r ≡ true

module _ (m : Rows) (keyed_rows : IsKeyed m) (p r : String) (e : Entity)
    (own : has_key e p r ≡ true) where
  stamp_own : has_key (stamp e) p r ≡ true
  unfolding stamp has_key
  stamp_own = own

  merged_own : (doc : Entity) → has_key (merge_entity doc e) p r ≡ true
  unfolding merge_entity has_key
  merged_own doc = own

  pub insert-IsAt : (o : Option Entity) → m p r ≡ o → IsAt p r m (insert_change o e).1
  unfolding insert_change
  insert-IsAt none h = (stamp_own, h)
  insert-IsAt (some doc) h = tt

  update-IsAt :
      (o : Option Entity) (if_match : Option String)
      → m p r ≡ o
      → IsAt p r m (update_change o e if_match).1
  unfolding update_change
  update-IsAt none if_match h = tt
  update-IsAt (some doc) if_match h = elim (Bool-cases (if_match_holds doc if_match)) [
    | inl k ↦ rw k (keyed_rows p r doc h, h, stamp_own)
    | inr k ↦ rw k (keyed_rows p r doc h, h)
  ]

  merge-IsAt :
      (o : Option Entity) (if_match : Option String)
      → m p r ≡ o
      → IsAt p r m (merge_change o e if_match).1
  unfolding merge_change
  merge-IsAt none if_match h = tt
  merge-IsAt (some doc) if_match h = elim (Bool-cases (if_match_holds doc if_match)) [
    | inl k ↦ rw k (keyed_rows p r doc h, h, merged_own doc)
    | inr k ↦ rw k (keyed_rows p r doc h, h)
  ]

  pub upsert-IsAt :
      (o : Option Entity) (if_match : Option String)
      → m p r ≡ o
      → IsAt p r m (upsert_change o e if_match).1
  unfolding upsert_change
  upsert-IsAt none none h = insert-IsAt none h
  upsert-IsAt none (some if_match) h = update-IsAt none (some if_match) h
  upsert-IsAt (some doc) if_match h = update-IsAt (some doc) if_match h

  pub upmerge-IsAt :
      (o : Option Entity) (if_match : Option String)
      → m p r ≡ o
      → IsAt p r m (upmerge_change o e if_match).1
  unfolding upmerge_change
  upmerge-IsAt none none h = insert-IsAt none h
  upmerge-IsAt none (some if_match) h = merge-IsAt none (some if_match) h
  upmerge-IsAt (some doc) if_match h = merge-IsAt (some doc) if_match h

pub delete-IsAt :
    (m : Rows) (keyed_rows : IsKeyed m) (p r : String) (o : Option Entity) (e_tag : String)
    → m p r ≡ o
    → IsAt p r m (delete_change o e_tag).1
unfolding delete_change
delete-IsAt m keyed_rows p r none e_tag h = tt
delete-IsAt m keyed_rows p r (some doc) e_tag h = elim (Bool-cases (fails_if_match e_tag doc)) [
  | inl k ↦ rw k tt
  | inr k ↦ rw k (keyed_rows p r doc h, h)
]
