-- ===== src/Table/Undo.antt =====
-- What rollbackEntityChanges and removeEntitiesAddedInBatch make of one row, and of lists of entities
-- whose keys differ.
use mathlib.Core.Path.{subst}
use azurite.Prelude.{
  ◌≡◌, refl, sym, ◌∙◌, true, false, String, Option, none, some, List, [], ◌∷◌, ◌++◌, if◌then◌else◌,
}
use azurite.Table.Entities.{Entity, has_key}
use azurite.Table.Database.{Rows, drop_row}
use azurite.Table.Rows.{has_key_eq, has_key_ne_sym}

-- A row after the entities are put back, and after they are taken out.
unfoldable pub undone : List Entity → String → String → Option Entity → Option Entity
undone [] p r old = old
undone (e ∷ es) p r old = undone es p r (if has_key e p r then some e else old)

unfoldable pub erased : List Entity → String → String → Option Entity → Option Entity
erased [] p r old = old
erased (e ∷ es) p r old = erased es p r (if has_key e p r then none else old)

abbrev pub All : (Entity → Type 0) → List Entity → Type 0
All P [] = Unit
All P (e ∷ es) = P e × All P es

pub snoc-All :
    (P : Entity → Type 0) (es : List Entity) (e : Entity) → All P es → P e → All P (es ++ e ∷ [])
snoc-All P [] e h k = (k, tt)
snoc-All P (d ∷ es) e h k = (h.0, snoc-All P es e h.1 k)

pub weaken-All :
    (P Q : Entity → Type 0) (es : List Entity) → ((e : Entity) → P e → Q e) → All P es → All Q es
weaken-All P Q [] f h = tt
weaken-All P Q (e ∷ es) f h = (f e h.0, weaken-All P Q es f h.1)

pub both-All :
    (P Q R : Entity → Type 0) (es : List Entity)
    → ((e : Entity) → P e → Q e → R e)
    → All P es
    → All Q es
    → All R es
both-All P Q R [] f h k = tt
both-All P Q R (e ∷ es) f h k = (f e h.0 k.0, both-All P Q R es f h.1 k.1)

-- No entity of the list has the key.
abbrev pub IsFresh : String → String → List Entity → Type 0
IsFresh p r = All (λ e. has_key e p r ≡ false)

pub undone-fresh :
    (es : List Entity) (p r : String) (o : Option Entity) → IsFresh p r es → undone es p r o ≡ o
unfolding undone
undone-fresh [] p r o h = refl
undone-fresh (e ∷ es) p r o h = rw h.0 (undone-fresh es p r o h.1)

pub erased-fresh :
    (es : List Entity) (p r : String) (o : Option Entity) → IsFresh p r es → erased es p r o ≡ o
unfolding erased
erased-fresh [] p r o h = refl
erased-fresh (e ∷ es) p r o h = rw h.0 (erased-fresh es p r o h.1)

pub undone-snoc :
    (es : List Entity) (e : Entity) (p r : String) (o : Option Entity)
    → undone (es ++ e ∷ []) p r o ≡ (if has_key e p r then some e else undone es p r o)
unfolding undone
undone-snoc [] e p r o = refl
undone-snoc (d ∷ es) e p r o = undone-snoc es e p r (if has_key d p r then some d else o)

pub erased-snoc :
    (es : List Entity) (e : Entity) (p r : String) (o : Option Entity)
    → erased (es ++ e ∷ []) p r o ≡ (if has_key e p r then none else erased es p r o)
unfolding erased
erased-snoc [] e p r o = refl
erased-snoc (d ∷ es) e p r o = erased-snoc es e p r (if has_key d p r then none else o)

-- Freshness of a key is freshness of the entities that have it.
pub has_key-IsFresh :
    (e : Entity) (p r : String) (es : List Entity)
    → has_key e p r ≡ true
    → IsFresh p r es
    → IsFresh e.partition_key e.row_key es
has_key-IsFresh e p r es k h =
    let (same_partition, same_row) = has_key_eq e p r k in
    subst (λ x. IsFresh x e.row_key es) (sym same_partition)
      (subst (λ y. IsFresh p y es) (sym same_row) h)

-- The entities of the rows m that a batch added, each once and not among the others.
abbrev pub IsAdded : Rows → List Entity → Type 0
IsAdded m [] = Unit
IsAdded m (e ∷ es) =
    (m e.partition_key e.row_key ≡ some e) × IsFresh e.partition_key e.row_key es × IsAdded m es

-- They can be taken out one by one.
pub IsAdded-drop_row :
    (m : Rows) (e : Entity) (es : List Entity)
    → IsFresh e.partition_key e.row_key es
    → IsAdded m es
    → IsAdded (drop_row m e) es
unfolding drop_row
IsAdded-drop_row m e [] f h = tt
IsAdded-drop_row m e (d ∷ es) f h =
    (rw (has_key_ne_sym d e f.0, drop_row) h.0, h.1, IsAdded-drop_row m e es f.1 h.2)

pub IsAdded-snoc :
    (m : Rows) (es : List Entity) (e : Entity)
    → IsAdded m es
    → m e.partition_key e.row_key ≡ some e
    → IsFresh e.partition_key e.row_key es
    → IsAdded m (es ++ e ∷ [])
IsAdded-snoc m [] e h k f = (k, tt, tt)
IsAdded-snoc m (d ∷ es) e h k f = (
  h.0,
  snoc-All (λ x. has_key x d.partition_key d.row_key ≡ false) es e h.1 (has_key_ne_sym d e f.0),
  IsAdded-snoc m es e h.2 k f.1,
)

-- They are the same in rows that agree on them.
pub IsAdded-congr :
    (m n : Rows) (es : List Entity)
    → All (λ e. n e.partition_key e.row_key ≡ m e.partition_key e.row_key) es
    → IsAdded m es
    → IsAdded n es
IsAdded-congr m n [] f h = tt
IsAdded-congr m n (e ∷ es) f h = (f.0 ∙ h.0, h.1, IsAdded-congr m n es f.1 h.2)
