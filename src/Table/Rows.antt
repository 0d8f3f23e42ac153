-- ===== src/Table/Rows.antt =====
-- Rows by their keys.
use mathlib.Core.Path.{fun_ext}
use azurite.Prelude.{◌≡◌, sym, ◌∙◌, true, false, Bool-cases, inl, inr, String, some, arith, eq_iff}
use azurite.Table.Entities.{Entity, has_key}
use azurite.Table.Database.{Rows, put, drop_row}

pub has_key_eq :
    (e : Entity) (p r : String) → has_key e p r ≡ true → (e.partition_key ≡ p) × (e.row_key ≡ r)
unfolding has_key
has_key_eq e p r h =
    (ground (arith, h, eq_iff e.partition_key p), ground (arith, h, eq_iff e.row_key r))

-- Entities with one key answer the same queries.
pub has_key_congr :
    (d e : Entity) (p r : String)
    → has_key d e.partition_key e.row_key ≡ true
    → has_key d p r ≡ has_key e p r
unfolding has_key
has_key_congr d e p r h =
    let (same_partition, same_row) = has_key_eq d e.partition_key e.row_key h in cc

pub has_key_refl : (e : Entity) → has_key e e.partition_key e.row_key ≡ true
unfolding has_key
has_key_refl e = ground (arith, eq_iff e.partition_key e.partition_key, eq_iff e.row_key e.row_key)

pub has_key_sym :
    (d e : Entity)
    → has_key d e.partition_key e.row_key ≡ true
    → has_key e d.partition_key d.row_key ≡ true
has_key_sym d e h = sym (has_key_congr d e d.partition_key d.row_key h) ∙ has_key_refl d

-- A row stands under the key of its entity.
pub row_at_key :
    (m : Rows) (p r : String) (d : Entity)
    → has_key d p r ≡ true
    → m p r ≡ some d
    → m d.partition_key d.row_key ≡ some d
row_at_key m p r d h e =
    let (same_partition, same_row) = has_key_eq d p r h in
    (λ i. m (same_partition i) (same_row i)) ∙ e

pub put-drop_row :
    (m : Rows) (d e : Entity)
    → has_key d e.partition_key e.row_key ≡ true
    → put (drop_row m d) e ≡ put m e
put-drop_row m d e h = fun_ext λ p. fun_ext λ r. pointwise p r (has_key_congr d e p r h)
  where
    pointwise :
        (p r : String) → has_key d p r ≡ has_key e p r → put (drop_row m d) e p r ≡ put m e p r
    pointwise p r k = unfold put drop_row in ground (arith, k)

pub has_key_ne_sym :
    (d e : Entity)
    → has_key d e.partition_key e.row_key ≡ false
    → has_key e d.partition_key d.row_key ≡ false
has_key_ne_sym d e h = elim (Bool-cases (has_key e d.partition_key d.row_key)) [
  | inl k ↦ cc (has_key_sym e d k)
  | inr k ↦ k
]
