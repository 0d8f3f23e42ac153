-- ===== src/Table/Merge.antt =====
-- src/table/persistence/LokiTableMetadataStore.ts: the properties that mergeTableEntity leaves.
use text.Mathlib.TextPositions.{eq_refl}
use text.Mathlib.TextLemmas.{nil-append, cons-append}
use azurite.Prelude.{
  ◌≡◌, refl, sym, ap, ◌∙◌, Bool, true, false, Bool-cases, Option-cases, inl, inr, ◌||◌, String,
  str_append, Option, none, some, List, [], ◌∷◌, arith, if◌then◌else◌, str_eq, eq_iff,
}
use azurite.Prelude.Maps.{get, set, delete, get-set}
use azurite.Table.Entities.{
  Value, Properties, Entity, odata_type, ends_with, filter_odata_meta_data, merge_properties,
  merge_entity,
}

-- No key stands in two entries.
abbrev pub IsMap {ℓ} : {A : Type ℓ} → List (String × A) → Type ℓ
IsMap [] = Unit
IsMap ((k, a) ∷ m) = (get m k ≡ none) × IsMap m

get-delete_other {ℓ} :
    {A : Type ℓ} (m : List (String × A)) (k j : String)
    → str_eq k j ≡ false
    → get (delete m k) j ≡ get m j
unfolding get delete
get-delete_other [] k j h = refl
get-delete_other ((i, b) ∷ m) k j h =
    ground (arith, h, get-delete_other m k j, eq_iff i k, eq_iff k j, eq_iff i j)

ends_with_self : (t : String) → ends_with t t ≡ true
unfolding ends_with
ends_with_self String.[] = eq_refl ""
ends_with_self (String.◌∷◌ c s) = rw (eq_refl (String.◌∷◌ c s))

or_true : (b : Bool) → b || true ≡ true
or_true true = refl
or_true false = refl

ends_with-append : (s t : String) → ends_with (str_append s t) t ≡ true
unfolding ends_with
ends_with-append String.[] t = rw (nil-append t) (ends_with_self t)
ends_with-append (String.◌∷◌ c s) t = rw (cons-append c s t) (rw (ends_with-append s t) (or_true _))

annotation_ne :
    (key k : String) → ends_with k odata_type ≡ false → str_eq (str_append key odata_type) k ≡ false
annotation_ne key k h = elim (Bool-cases (str_eq (str_append key odata_type) k)) [
  | inl e ↦ cc (ends_with-append key odata_type, (eq_iff (str_append key odata_type) k).0 e)
  | inr e ↦ e
]

filter_odata_meta_data-get :
    (given merged : Properties) (key k : String)
    → ends_with k odata_type ≡ false
    → get (filter_odata_meta_data given key merged) k ≡ get merged k
unfolding filter_odata_meta_data
filter_odata_meta_data-get given merged key k h =
    elim (Option-cases (get given (str_append key odata_type))) [
      | inl e ↦ rw (e, filter_odata_meta_data) (get-delete_other merged _ k (annotation_ne key k h))
      | inr (v, e) ↦
          rw (e, filter_odata_meta_data) (get-set merged _ k v ∙ rw (annotation_ne key k h))
    ]

-- What a key has: the value of the entity, or else the one that was there.
abbrev pub or_else {ℓ} : {A : Type ℓ} → Option A → Option A → Option A
or_else none old = old
or_else (some a) old = some a

-- The property map after one key of the loop.
merged_get :
    (given merged : Properties) (key : String) (value : Value) (k : String)
    → ends_with k odata_type ≡ false
    → get
        (if ends_with key odata_type
          then merged
          else filter_odata_meta_data given key (set merged key value))
        k
      ≡ (if str_eq key k then some value else get merged k)
merged_get given merged key value k h = elim (Bool-cases (ends_with key odata_type)) [
  | inl e ↦ elim (Bool-cases (str_eq key k)) [
    | inl y ↦ cc (e, h, (eq_iff key k).0 y)
    | inr y ↦ rw (e, y)
  ]
  | inr e ↦
      rw e (
        filter_odata_meta_data-get given (set merged key value) key k h
        ∙ get-set merged key k value)
]

chosen :
    (k key : String) (value : Value) (old : Option Value) (rest : Properties)
    → get rest key ≡ none
    → or_else (get rest k) (if str_eq key k then some value else old)
      ≡ or_else (if str_eq key k then some value else get rest k) old
chosen k key value old rest h = elim (Bool-cases (str_eq key k)) [
  | inl y ↦ rw (y, ap (get rest) (sym ((eq_iff key k).0 y)) ∙ h)
  | inr y ↦ rw y
]

get-merge_properties :
    (rest given merged : Properties) (k : String)
    → IsMap rest
    → ends_with k odata_type ≡ false
    → get (merge_properties rest given merged) k ≡ or_else (get rest k) (get merged k)
unfolding merge_properties get
get-merge_properties [] given merged k u h = refl
get-merge_properties ((key, value) ∷ rest) given merged k u h =
    get-merge_properties rest given _ k u.1 h
    ∙ ap (or_else (get rest k)) (merged_get given merged key value k h)
    ∙ chosen k key value (get merged k) rest u.0

-- mergeTableEntity keeps the properties of the stored entity that the request does not name, and takes
-- the request's value of each that it names, for every property name that does not end in @odata.type;
-- the request's properties name no property twice. Keys, e-tag and time are the request's.
pub merge_entity-get :
    (doc entity : Entity) (k : String)
    → IsMap entity.properties
    → ends_with k odata_type ≡ false
    → let merged = merge_entity doc entity in
      (get merged.properties k ≡ or_else (get entity.properties k) (get doc.properties k))
      × (merged.partition_key ≡ entity.partition_key)
      × (merged.row_key ≡ entity.row_key)
      × (merged.e_tag ≡ entity.e_tag)
      × (merged.last_modified_time ≡ entity.last_modified_time)
unfolding merge_entity
merge_entity-get doc entity k u h = (
  get-merge_properties entity.properties entity.properties doc.properties k u h,
  refl,
  refl,
  refl,
  refl,
)
