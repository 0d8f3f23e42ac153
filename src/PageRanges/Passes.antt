-- ===== src/PageRanges/Passes.antt =====
-- The manager's updates as single passes over an ordered list, which is what its comment draws: the
-- ranges before the new one, and the ranges behind it, with the first and the last split.
use azurite.Prelude.{
  ℕ, suc, ◌+◌, ◌-◌, ◌≤◌, ◌<◌, ◌≡◌, refl, ap, sym, ◌∙◌, Option, none, some, List, [], ◌∷◌, ◌++◌,
  if◌then◌else◌, arith, ltb, leb, drop, get_elem?,
}
use mathlib.Core.List.{append_assoc}
use native.Mathlib.Nat.{suc-add, zero-add, le_refl}
use azurite.PageRanges.Model.{PageRange, splice}
use azurite.PageRanges.Search.{is_first, is_last}
use azurite.PageRanges.Manager.{
  part_before, part_after, split_first, split_last, impacted_count, merge_at, clear_at,
}
use azurite.PageRanges.Scan.{or}
use azurite.PageRanges.Find.{shift, find_first, find_last}

-- The ranges are disjoint and sorted from `lo` on, none is empty, and each keeps as many bytes as it
-- covers.
abbrev pub Ordered : ℕ → List PageRange → Type 0
Ordered lo [] = Unit
Ordered lo (r ∷ rs) =
    (lo ≤ r.start)
    × (r.start ≤ r.end)
    × (r.persistency.count ≡ r.end + 1 - r.start)
    × Ordered (r.end + 1) rs

-- What lies before `start`, and what lies behind `end`.
unfoldable pub before : ℕ → List PageRange → List PageRange
before start [] = []
before start (r ∷ rs) =
    if ltb r.end start
    then r ∷ before start rs
    else if ltb r.start start
    then part_before start r ∷ []
    else []

unfoldable pub after : ℕ → List PageRange → List PageRange
after end [] = []
after end (r ∷ rs) =
    if ltb end r.start
    then r ∷ rs
    else if leb r.end end
    then after end rs
    else part_after end r ∷ rs

abbrev pub first_in : ℕ → List PageRange → Option ℕ
first_in start rs = find_first (λ r. is_first r start) rs

abbrev pub last_in : ℕ → List PageRange → Option ℕ
last_in end rs = find_last (λ r. is_last r end) rs

-- Behind `end` nothing is covered.
pub find_last_none :
    (end lo : ℕ) (rs : List PageRange) → Ordered lo rs → end < lo → last_in end rs ≡ none
unfolding find_last
find_last_none end lo [] o h = refl
find_last_none end lo (r ∷ rs) o h = ground (arith, find_last_none end (r.end + 1) rs)

-- What follows the last impacted range, with the part of it that is kept.
abbrev pub tail_of : ℕ → List PageRange → Option ℕ → List PageRange
tail_of end rs none = rs
tail_of end rs (some j) = split_last end (get_elem? rs j) ++ drop (suc j) rs

tail_of-after :
    (end lo : ℕ) (rs : List PageRange)
    → Ordered lo rs
    → tail_of end rs (last_in end rs) ≡ after end rs
unfolding find_last after split_last
tail_of-after end lo [] o = refl
tail_of-after end lo (r ∷ rs) o =
    ground (arith, find_last_none end (r.end + 1) rs, tail_of-after end (r.end + 1) rs)

pub impacted_count-suc :
    (i j : ℕ) → impacted_count (some (suc i)) (some (suc j)) ≡ impacted_count (some i) (some j)
impacted_count-suc i j = ground arith

pub impacted_count-zero : (i : ℕ) → impacted_count (some (suc i)) (some 0) ≡ 0
impacted_count-zero i = ground arith

drop-suc_add {ℓ} :
    {A : Type ℓ} (i n : ℕ) (r : A) (rs : List A) → drop (suc i + n) (r ∷ rs) ≡ drop (i + n) rs
drop-suc_add i n r rs = rw (suc-add i n)

-- One range before the impacted ones stays in front.
pub merge_at-cons :
    (r new : PageRange) (rs : List PageRange) (i j : Option ℕ)
    → merge_at (r ∷ rs) new (shift i) (or (shift j) (some 0)) ≡ r ∷ merge_at rs new i j
unfolding merge_at splice
merge_at-cons r new rs none none = refl
merge_at-cons r new rs none (some j) = refl
merge_at-cons r new rs (some i) none = ground (arith, impacted_count-zero i, drop-suc_add i 0 r rs)
merge_at-cons r new rs (some i) (some j) = ground (
  arith,
  impacted_count-suc i j,
  drop-suc_add i 0 r rs,
  drop-suc_add i (impacted_count (some i) (some j)) r rs,
)

pub clear_at-cons :
    (r : PageRange) (start end : ℕ) (rs : List PageRange) (i j : Option ℕ)
    → clear_at (r ∷ rs) start end (shift i) (or (shift j) (some 0)) ≡ r ∷ clear_at rs start end i j
unfolding clear_at splice
clear_at-cons r start end rs none none = refl
clear_at-cons r start end rs none (some j) = refl
clear_at-cons r start end rs (some i) none = ground (arith, impacted_count-zero i)
clear_at-cons r start end rs (some i) (some j) =
    ground (arith, impacted_count-suc i j, drop-suc_add i (impacted_count (some i) (some j)) r rs)

-- The first range is the first impacted one.
pub impacted_count-first : (j : ℕ) → impacted_count (some 0) (some j) ≡ suc j
impacted_count-first j = ground arith

pub drop-zero_add {ℓ} : {A : Type ℓ} (n : ℕ) (rs : List A) → drop (0 + n) rs ≡ drop n rs
drop-zero_add n rs = rw (zero-add n)

pub merge_at-zero :
    (new : PageRange) (rs : List PageRange) (j : ℕ)
    → merge_at rs new (some 0) (some j)
      ≡ split_first new.start (get_elem? rs 0) ++ (new ∷ tail_of new.end rs (some j))
unfolding merge_at splice
merge_at-zero new rs j = ground (
  arith,
  impacted_count-first j,
  drop-zero_add (suc j) rs,
  append_assoc (split_first new.start (get_elem? rs 0)) (new ∷ split_last new.end (get_elem? rs j))
      (drop (suc j) rs),
)

pub clear_at-zero :
    (start end : ℕ) (rs : List PageRange) (j : ℕ)
    → clear_at rs start end (some 0) (some j)
      ≡ split_first start (get_elem? rs 0) ++ tail_of end rs (some j)
unfolding clear_at splice
clear_at-zero start end rs j = ground (
  arith,
  impacted_count-first j,
  drop-zero_add (suc j) rs,
  append_assoc (split_first start (get_elem? rs 0)) (split_last end (get_elem? rs j))
      (drop (suc j) rs),
)

pub or_some : (o : Option ℕ) (k : ℕ) → (j : ℕ) × (or (shift o) (some k) ≡ some j)
or_some none k = (k, refl)
or_some (some i) k = (suc i, refl)

-- The shapes of the selection on a list that is not empty.
module _ (start end lo : ℕ) (r : PageRange) (rs : List PageRange) (o : Ordered lo (r ∷ rs))
    (h : start ≤ end) where
  pub before_all :
      r.end < start
      → (first_in start (r ∷ rs) ≡ shift (first_in start rs))
        × (last_in end (r ∷ rs) ≡ or (shift (last_in end rs)) (some 0))
  unfolding find_first find_last
  before_all b = ground arith

  pub from_first : start ≤ r.end → first_in start (r ∷ rs) ≡ some 0
  unfolding find_first
  from_first b = ground arith

  pub last_some : r.start ≤ end → (j : ℕ) × (last_in end (r ∷ rs) ≡ some j)
  unfolding find_last
  last_some b = let (j, e) = or_some (last_in end rs) 0 in (j, ground arith)

  pub last_none : end < r.start → last_in end (r ∷ rs) ≡ none
  last_none b = find_last_none end r.start (r ∷ rs) (le_refl r.start, o.1, o.2, o.3) b

  -- The shapes of the single passes.
  pub after_skip : r.end < start → after end (r ∷ rs) ≡ after end rs
  unfolding after
  after_skip b = ground arith

  pub after_all : end < r.start → after end (r ∷ rs) ≡ r ∷ rs
  unfolding after
  after_all b = ground arith

  pub before_split : start ≤ r.end → before start (r ∷ rs) ≡ split_first start (some r)
  unfolding before split_first
  before_split b = ground arith

  pub before_none : end < r.start → before start (r ∷ rs) ≡ []
  unfolding before
  before_none b = ground arith

  pub before_keep : r.end < start → before start (r ∷ rs) ≡ r ∷ before start rs
  unfolding before
  before_keep b = ground arith

  pub tail_eq :
      {j : ℕ} → last_in end (r ∷ rs) ≡ some j → tail_of end (r ∷ rs) (some j) ≡ after end (r ∷ rs)
  tail_eq {j} e = ap (tail_of end (r ∷ rs)) (sym e) ∙ tail_of-after end lo (r ∷ rs) o
