-- ===== src/Table/Recorded.antt =====
-- The trackers of a batch hold what takes the rows back to those before the batch, as long as no two
-- requests have one key.
use mathlib.Core.Path.{subst}
use azurite.Prelude.{
  ◌≡◌, refl, sym, ap, ◌∙◌, Bool, true, false, Bool-cases, inl, inr, String, none, some, List, [],
  ◌∷◌, ◌++◌,
}
use azurite.Table.Entities.{Entity, has_key}
use azurite.Table.Database.{Rows, put, drop_row}
use azurite.Table.Rows.{has_key_eq, has_key_congr, has_key_ne_sym, has_key_refl}
use azurite.Table.Spec.{
  Change, same, added, removed, tracked, replaced, rows_after, rollback_after, delete_after,
}
use azurite.Table.Undo.{
  undone, erased, All, snoc-All, weaken-All, both-All, IsFresh, undone-fresh, erased-fresh,
  undone-snoc, erased-snoc, has_key-IsFresh, IsAdded, IsAdded-snoc, IsAdded-congr,
}

-- A change of the row with a key.
abbrev pub IsAt : String → String → Rows → Change → Type 0
IsAt p r m same = Unit
IsAt p r m (added e) = (has_key e p r ≡ true) × (m p r ≡ none)
IsAt p r m (removed doc) = (has_key doc p r ≡ true) × (m p r ≡ some doc)
IsAt p r m (tracked doc) = (has_key doc p r ≡ true) × (m p r ≡ some doc)
IsAt p r m (replaced doc e) = (has_key doc p r ≡ true) × (m p r ≡ some doc) × (has_key e p r ≡ true)

module _ (m0 : Rows) where
  pub record Recorded (seen : String → String → Bool) (m : Rows) (rb ins : List Entity)
      : Type 0 where
    pub back : (p r : String) → erased ins p r (undone rb p r (m p r)) ≡ m0 p r
    pub added_rows : IsAdded m ins
    pub disjoint : All (λ e. IsFresh e.partition_key e.row_key rb) ins
    pub rollback_seen : All (λ e. seen e.partition_key e.row_key ≡ true) rb
    pub delete_seen : All (λ e. seen e.partition_key e.row_key ≡ true) ins

-- A key that was not seen is fresh.
pub unseen-IsFresh :
    (seen : String → String → Bool) (p r : String) (es : List Entity)
    → seen p r ≡ false
    → All (λ e. seen e.partition_key e.row_key ≡ true) es
    → IsFresh p r es
unseen-IsFresh seen p r [] h k = tt
unseen-IsFresh seen p r (e ∷ es) h k = (
  elim (Bool-cases (has_key e p r)) [ inl t ↦ let (a, b) = has_key_eq e p r t in cc | inr f ↦ f ],
  unseen-IsFresh seen p r es h k.1,
)

put_other : (m : Rows) (e : Entity) (q t : String) → has_key e q t ≡ false → put m e q t ≡ m q t
unfolding put
put_other m e q t h = rw h

drop_row_other :
    (m : Rows) (d : Entity) (q t : String) → has_key d q t ≡ false → drop_row m d q t ≡ m q t
unfolding drop_row
drop_row_other m d q t h = rw h

put_self : (m : Rows) (e : Entity) → put m e e.partition_key e.row_key ≡ some e
unfolding put
put_self m e = rw (has_key_refl e)

pub same-Recorded :
    {m0 m : Rows} {rb ins : List Entity} (seen next : String → String → Bool)
    → ((p r : String) → seen p r ≡ true → next p r ≡ true)
    → Recorded m0 seen m rb ins
    → Recorded m0 next m rb ins
same-Recorded {rb = rb} {ins = ins} seen next grows rec = record {
  back = rec.back;
  added_rows = rec.added_rows;
  disjoint = rec.disjoint;
  rollback_seen = weaken-All _ _ rb (λ e. grows e.partition_key e.row_key) rec.rollback_seen;
  delete_seen = weaken-All _ _ ins (λ e. grows e.partition_key e.row_key) rec.delete_seen;
}

module _ {m0 m : Rows} {rb ins : List Entity} (seen next : String → String → Bool)
    (grows : (p r : String) → seen p r ≡ true → next p r ≡ true) (rec : Recorded m0 seen m rb ins)
    (p r : String) (unseen : seen p r ≡ false) (marked : next p r ≡ true) where
  marked_at : (e : Entity) → has_key e p r ≡ true → next e.partition_key e.row_key ≡ true
  marked_at e h = let (a, b) = has_key_eq e p r h in cc

  grown :
      (es : List Entity)
      → All (λ e. seen e.partition_key e.row_key ≡ true) es
      → All (λ e. next e.partition_key e.row_key ≡ true) es
  grown es = weaken-All _ _ es λ e. grows e.partition_key e.row_key

  IsFresh-rb : IsFresh p r rb
  IsFresh-rb = unseen-IsFresh seen p r rb unseen rec.rollback_seen

  IsFresh-ins : IsFresh p r ins
  IsFresh-ins = unseen-IsFresh seen p r ins unseen rec.delete_seen

  key_of :
      (d e : Entity)
      → has_key d p r ≡ true
      → has_key e p r ≡ true
      → has_key d e.partition_key e.row_key ≡ true
  key_of d e h k = let (a, b) = has_key_eq e p r k in (λ i. has_key d (a i) (b i)) ∙ h

  unchanged : m0 p r ≡ m p r
  unchanged =
      sym (rec.back p r)
      ∙ erased-fresh ins p r (undone rb p r (m p r)) IsFresh-ins
      ∙ undone-fresh rb p r (m p r) IsFresh-rb

  -- The row before the batch under a key that an entity with p and r has.
  unchanged_at :
      (e : Entity) (q t : String) → has_key e p r ≡ true → has_key e q t ≡ true → m0 q t ≡ m p r
  unchanged_at e q t h k =
      let (a, b) = has_key_eq e p r h in
      let (a', b') = has_key_eq e q t k in (λ i. m0 ((sym a' ∙ a) i) ((sym b' ∙ b) i)) ∙ unchanged

  IsFresh-ins_at :
      (e : Entity) (q t : String) → has_key e p r ≡ true → has_key e q t ≡ true → IsFresh q t ins
  IsFresh-ins_at e q t h k =
      let (a, b) = has_key_eq e p r h in
      let (a', b') = has_key_eq e q t k in
      subst (λ x. IsFresh x t ins) (sym a ∙ a')
        (subst (λ y. IsFresh p y ins) (sym b ∙ b') IsFresh-ins)

  -- The entities that were added do not have the key of e.
  others_at :
      (e : Entity)
      → has_key e p r ≡ true
      → All (λ x. has_key e x.partition_key x.row_key ≡ false) ins
  others_at e h =
      weaken-All _ _ ins (λ x. has_key_ne_sym x e) (has_key-IsFresh e p r ins h IsFresh-ins)

  added-Recorded :
      (e : Entity)
      → has_key e p r ≡ true
      → m p r ≡ none
      → Recorded m0 next (put m e) rb (ins ++ e ∷ [])
  added-Recorded e h k = record {
    back = λ q t.
        erased-snoc ins e q t (undone rb q t (put m e q t)) ∙ elim (Bool-cases (has_key e q t)) [
          | inl y ↦ rw y (sym k ∙ sym (unchanged_at e q t h y))
          | inr y ↦
              rw y (ap (λ o. erased ins q t (undone rb q t o)) (put_other m e q t y) ∙ rec.back q t)
        ];
    added_rows =
        IsAdded-snoc (put m e) ins e
          (IsAdded-congr m (put m e) ins
            (weaken-All _ _ ins (λ x. put_other m e x.partition_key x.row_key) (others_at e h))
            rec.added_rows)
          (put_self m e) (has_key-IsFresh e p r ins h IsFresh-ins);
    disjoint = snoc-All _ ins e rec.disjoint (has_key-IsFresh e p r rb h IsFresh-rb);
    rollback_seen = grown rb rec.rollback_seen;
    delete_seen = snoc-All _ ins e (grown ins rec.delete_seen) (marked_at e h);
  }

  -- A document tracked for the rollback, with any change of its row.
  tracked-Recorded :
      (doc : Entity) (n : Rows)
      → has_key doc p r ≡ true
      → m p r ≡ some doc
      → ((q t : String) → has_key doc q t ≡ false → n q t ≡ m q t)
      → Recorded m0 next n (rb ++ doc ∷ []) ins
  tracked-Recorded doc n h k f = record {
    back = λ q t.
        ap (erased ins q t) (undone-snoc rb doc q t (n q t)) ∙ elim (Bool-cases (has_key doc q t)) [
          | inl y ↦ rw y (
              erased-fresh ins q t (some doc) (IsFresh-ins_at doc q t h y)
              ∙ sym k
              ∙ sym (unchanged_at doc q t h y))
          | inr y ↦ rw y (ap (λ o. erased ins q t (undone rb q t o)) (f q t y) ∙ rec.back q t)
        ];
    added_rows =
        IsAdded-congr m n ins
          (weaken-All _ _ ins (λ x. f x.partition_key x.row_key) (others_at doc h)) rec.added_rows;
    disjoint =
        both-All _ _ _ ins
          (λ x a b. snoc-All (λ d. has_key d x.partition_key x.row_key ≡ false) rb doc a b)
          rec.disjoint (others_at doc h);
    rollback_seen = snoc-All _ rb doc (grown rb rec.rollback_seen) (marked_at doc h);
    delete_seen = grown ins rec.delete_seen;
  }

  -- Each change of a row that no request named before.
  pub change-Recorded :
      (change : Change)
      → IsAt p r m change
      → Recorded m0 next (rows_after change m) (rollback_after change rb) (delete_after change ins)
  unfolding rows_after rollback_after delete_after
  change-Recorded same h = same-Recorded seen next grows rec
  change-Recorded (added e) h = added-Recorded e h.0 h.1
  change-Recorded (removed doc) h =
      tracked-Recorded doc (drop_row m doc) h.0 h.1 (drop_row_other m doc)
  change-Recorded (tracked doc) h = tracked-Recorded doc m h.0 h.1 λ q t y. refl
  change-Recorded (replaced doc e) h =
      tracked-Recorded doc (put m e) h.0 h.1
        λ q t y. put_other m e q t (sym (has_key_congr doc e q t (key_of doc e h.0 h.2)) ∙ y)
