-- ===== src/Table/Position.antt =====
-- Where a batch stands: the rows that the table's collection holds, and the trackers. The calls of a
-- collection, in terms of the rows.
use azurite.Prelude.{
  ◌≡◌, refl, ap, ◌∙◌, true, String, none, some, List, [], ◌∷◌, ◌++◌, arith, str_eq, eq_iff, defined,
}
use text.Mathlib.TextPositions.{eq_refl}
use azurite.Prelude.Maps.{get, set, get-set}
use azurite.Errors.{Result, ok, err, Returns}
use azurite.Table.Entities.{Entity, has_key}
use azurite.Table.Database.{Loki, LokiLaws, Rows, put, drop_row}
use azurite.Table.Store.{
  Store, get_entity_collection, find_one, insert, remove, remove_from, update, track_rollback,
  track_delete,
}
use azurite.Table.Store.Names.{get_table_collection_name, to_lower_case}

held_set : {C : Type 0} (cs : List (String × C)) (k : String) (c : C) → get (set cs k c) k ≡ some c
held_set cs k c = get-set cs k k c ∙ rw (eq_refl k)

exact_set :
    {C : Type 0} (cs : List (String × C)) (j k : String) (c : C) {old : C}
    → defined (get cs j) ≡ str_eq j k
    → get cs k ≡ some old
    → defined (get (set cs k c) j) ≡ str_eq j k
exact_set cs j k c h e = ground (arith, get-set cs k j c, eq_iff k j, eq_iff j k)

module _ (db : Loki) (laws : LokiLaws db) (account table : String) where
  abbrev pub exact_name : String
  exact_name = get_table_collection_name account table

  abbrev lower_name : String
  lower_name = get_table_collection_name account (to_lower_case table)

  -- The lower-case name is that of no other collection.
  abbrev pub IsExact : Store db.Collection → Type 0
  IsExact s = defined (get s.collections lower_name) ≡ str_eq lower_name exact_name

  pub record At (m : Rows) (rb ins : List Entity) (s : Store db.Collection) : Type 0 where
    pub collection : db.Collection
    pub held : get s.collections exact_name ≡ some collection
    pub shown : laws.Shows collection m
    pub rollback : s.rollback_these ≡ rb
    pub inserted : s.delete_these ≡ ins
    pub exact : IsExact s

  module _ {m : Rows} {rb ins : List Entity} {s : Store db.Collection} (at : At m rb ins s) where
    pub get_entity_collection_lem : get_entity_collection db account table s ≡ (ok exact_name, s)
    unfolding get_entity_collection
    get_entity_collection_lem = ground (arith, at.held, at.exact, eq_iff lower_name exact_name)

    pub find_one_lem : (p r : String) → find_one db exact_name p r s ≡ (ok (m p r), s)
    unfolding find_one
    find_one_lem p r = rw (at.held, find_one) (rw (laws.find_one_lem at.collection m p r at.shown))

    -- The table's collection put in the place of the old one.
    set-At :
        (c : db.Collection) (m' : Rows)
        → laws.Shows c m'
        → At m' rb ins (record s { collections = set s.collections exact_name c })
    set-At c m' h = record {
      collection = c;
      held = held_set s.collections exact_name c;
      shown = h;
      rollback = at.rollback;
      inserted = at.inserted;
      exact = exact_set s.collections lower_name exact_name c at.exact at.held;
    }

    pub insert_lem :
        (e : Entity)
        → m e.partition_key e.row_key ≡ none
        → (s' : Store db.Collection) × (insert db exact_name e s ≡ (ok tt, s'))
          × At (put m e) rb ins s'
    unfolding insert
    insert_lem e h =
        (_, rw (at.held, insert), set-At _ _ (laws.insert-Shows at.collection m e at.shown h))

    pub update_lem :
        (doc e : Entity)
        → m doc.partition_key doc.row_key ≡ some doc
        → has_key doc e.partition_key e.row_key ≡ true
        → (s' : Store db.Collection) × (update db exact_name doc e s ≡ (ok tt, s'))
          × At (put m e) rb ins s'
    unfolding update
    update_lem doc e h k =
        (_, rw (at.held, update), set-At _ _ (laws.update-Shows at.collection m doc e at.shown h k))

    removed_lem :
        (m' : Rows) (result : Result db.Collection)
        → Returns (λ c. laws.Shows c m') result
        → (s' : Store db.Collection) × (remove_from db exact_name s result ≡ (ok tt, s'))
          × At m' rb ins s'
    unfolding remove_from
    removed_lem m' (ok c) h = (_, refl, set-At c m' h)
    removed_lem m' (err e) h = absurd h

    pub remove_lem :
        (e : Entity)
        → m e.partition_key e.row_key ≡ some e
        → (s' : Store db.Collection) × (remove db exact_name e s ≡ (ok tt, s'))
          × At (drop_row m e) rb ins s'
    unfolding remove
    remove_lem e h =
        rw (at.held, remove)
          (removed_lem (drop_row m e) (db.remove at.collection e)
            (laws.remove-Shows at.collection m e at.shown h))

    pub track_rollback-At : (doc : Entity) → At m (rb ++ doc ∷ []) ins (track_rollback db doc s)
    unfolding track_rollback
    track_rollback-At doc = record {
      collection = at.collection;
      held = at.held;
      shown = at.shown;
      rollback = ap (λ (es : List Entity). es ++ doc ∷ []) at.rollback;
      inserted = at.inserted;
      exact = at.exact;
    }

    pub track_delete-At : (e : Entity) → At m rb (ins ++ e ∷ []) (track_delete db e s)
    unfolding track_delete
    track_delete-At e = record {
      collection = at.collection;
      held = at.held;
      shown = at.shown;
      rollback = at.rollback;
      inserted = ap (λ (es : List Entity). es ++ e ∷ []) at.inserted;
      exact = at.exact;
    }
