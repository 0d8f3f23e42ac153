-- ===== src/PageRanges/Fill.antt =====
-- fillZeroRanges: the ranges that it returns tile the request and read as the blob with zeros in
-- between.
use azurite.Prelude.{
  ℕ, ◌+◌, ◌-◌, ◌≤◌, ◌≡◌, ◌⊎◌, inl, String, Option, none, some, List, [], ◌∷◌, arith,
}
use mathlib.Core.Path.{subst}
use native.Mathlib.Nat.{le_refl, le_trans}
use azurite.Errors.{Returns}
use azurite.PageRanges.Model.{PageRange, zero_extent_id}
use azurite.PageRanges.Manager.{cut_front, cut_back, fill_from, fill_gaps, fill_zero_ranges}
use azurite.PageRanges.Passes.{Ordered}
use azurite.PageRanges.Content.{content, content_below}
use azurite.PageRanges.Middle.{middle, cut_ranges-middle}
use azurite.PageRanges.Cut.{content-middle}

-- The ranges follow one another from `lo` up to `hi`, which is not included, and each keeps as many
-- bytes as it covers.
abbrev pub Tiles : ℕ → ℕ → List PageRange → Type 0
Tiles lo hi [] = lo ≡ hi
Tiles lo hi (r ∷ rs) =
    (r.start ≡ lo)
    × (r.start ≤ r.end)
    × (r.persistency.count ≡ r.end + 1 - r.start)
    × Tiles (r.end + 1) hi rs

-- What fills a byte: what was kept there, or a byte of the zero extent.
abbrev pub FilledBy : Option (String × ℕ) → Option (String × ℕ) → Type 0
FilledBy (some c) o = o ≡ some c
FilledBy none (some c) = c.0 ≡ zero_extent_id
FilledBy none none = ⊥

abbrev Below : ℕ → List PageRange → Type 0
Below end [] = Unit
Below end (r ∷ rs) = (r.end ≤ end) × Below end rs

module _ (start end : ℕ) where
  -- A range that is cut to the request.
  clip_facts :
      (r : PageRange)
      → start ≤ end
      → start ≤ r.end
      → r.start ≤ end
      → r.start ≤ r.end
      → r.persistency.count ≡ r.end + 1 - r.start
      → let c = cut_back end (cut_front start r) in
        (start ≤ c.start)
        × (r.start ≤ c.start)
        × (c.start ≤ c.end)
        × (c.end ≤ r.end)
        × (c.end ≤ end)
        × (c.persistency.count ≡ c.end + 1 - c.start)
  unfolding cut_front cut_back
  clip_facts r h a b c d = ground arith

  middle-Ordered :
      (lo k : ℕ) (rs : List PageRange)
      → Ordered lo rs
      → start ≤ end
      → (k ≤ start) ⊎ (k ≤ lo)
      → Ordered k (middle start end rs)
  unfolding middle
  middle-Ordered lo k [] o h d = tt
  middle-Ordered lo k (r ∷ rs) o h d = ground (
    arith,
    clip_facts r,
    middle-Ordered (r.end + 1) k rs,
    middle-Ordered (r.end + 1) ((cut_back end (cut_front start r)).end + 1) rs,
  )

  middle-Below :
      (lo : ℕ) (rs : List PageRange) → Ordered lo rs → start ≤ end → Below end (middle start end rs)
  unfolding middle
  middle-Below lo [] o h = tt
  middle-Below lo (r ∷ rs) o h = ground (arith, clip_facts r, middle-Below (r.end + 1) rs)

fill_from-Tiles :
    (end : ℕ) (r : PageRange) (rs : List PageRange)
    → Ordered r.start (r ∷ rs)
    → Below end (r ∷ rs)
    → Tiles r.start (end + 1) (fill_from end r rs)
unfolding fill_from
fill_from-Tiles end r [] o b = ground arith
fill_from-Tiles end r (next ∷ rs) o b = ground (arith, fill_from-Tiles end next rs)

fill_gaps-Tiles :
    (start end : ℕ) (rs : List PageRange)
    → Ordered start rs
    → Below end rs
    → start ≤ end
    → Tiles start (end + 1) (fill_gaps start end rs)
unfolding fill_gaps
fill_gaps-Tiles start end [] o b h = ground arith
fill_gaps-Tiles start end (r ∷ rs) o b h = ground (arith, fill_from-Tiles end r rs)

fill_from-FilledBy :
    (end : ℕ) (r : PageRange) (rs : List PageRange) (p : ℕ)
    → Ordered r.start (r ∷ rs)
    → Below end (r ∷ rs)
    → r.start ≤ p
    → p ≤ end
    → FilledBy (content (r ∷ rs) p) (content (fill_from end r rs) p)
unfolding fill_from content
fill_from-FilledBy end r [] p o b h k = ground arith
fill_from-FilledBy end r (next ∷ rs) p o b h k =
    ground (arith, fill_from-FilledBy end next rs p, content_below next.start (next ∷ rs) p)

fill_gaps-FilledBy :
    (start end : ℕ) (rs : List PageRange) (p : ℕ)
    → Ordered start rs
    → Below end rs
    → start ≤ p
    → p ≤ end
    → FilledBy (content rs p) (content (fill_gaps start end rs) p)
unfolding fill_gaps content
fill_gaps-FilledBy start end [] p o b h k = ground arith
fill_gaps-FilledBy start end (r ∷ rs) p o b h k =
    ground (arith, fill_from-FilledBy end r rs p, content_below r.start (r ∷ rs) p)

-- fillZeroRanges on ordered ranges never throws, for a request from `start` to `end` that is not
-- empty. What it returns tiles the request without a gap or an overlap, and for each byte p of the
-- request it names what the blob keeps there, or, where the blob keeps nothing, the zero extent.
pub fill_zero_ranges-FilledBy :
    (lo : ℕ) (rs : List PageRange) (start end p : ℕ)
    → Ordered lo rs
    → start ≤ p
    → p ≤ end
    → Returns
        (λ out. Tiles start (end + 1) out × FilledBy (content rs p) (content out p))
        (fill_zero_ranges rs start end)
unfolding fill_zero_ranges
fill_zero_ranges-FilledBy lo rs start end p o h k =
    let m = middle start end rs in
    let se : start ≤ end = le_trans h k in
    let mo = middle-Ordered start end lo start rs o se (inl (le_refl start)) in
    let mb = middle-Below start end lo rs o se in
    rw (cut_ranges-middle lo rs start end o se) (
      fill_gaps-Tiles start end m mo mb se,
      subst (λ c. FilledBy c (content (fill_gaps start end m) p)) (inside lo rs start end p o h k)
          (fill_gaps-FilledBy start end m p mo mb h k),
    )
  where
    inside :
        (lo : ℕ) (rs : List PageRange) (start end p : ℕ)
        → Ordered lo rs
        → start ≤ p
        → p ≤ end
        → content (middle start end rs) p ≡ content rs p
    inside lo rs start end p o h k = ground (arith, content-middle start end lo rs p)
