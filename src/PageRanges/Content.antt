-- ===== src/PageRanges/Content.antt =====
-- What the ranges of a page blob mean: for each byte, where it is kept, if anywhere.
use azurite.Prelude.{
  ℕ, ◌+◌, ◌-◌, ◌≤◌, ◌<◌, ◌≡◌, refl, ◌∙◌, ◌&&◌, String, Option, none, some, List, [], ◌∷◌, ◌++◌,
  if◌then◌else◌, arith, ltb, leb,
}
use azurite.Errors.{Returns}
use azurite.PageRanges.Model.{PageRange, position_in_range}
use azurite.PageRanges.Manager.{merge_range, clear_range}
use azurite.PageRanges.Passes.{Ordered, before, after}
use azurite.PageRanges.Reference.{merge_range-reference, clear_range-reference}

-- The byte at position `p` stands in an extent, at an offset.
abbrev pub kept_at : PageRange → ℕ → String × ℕ
kept_at r p = (r.persistency.id, r.persistency.offset + (p - r.start))

unfoldable pub content : List PageRange → ℕ → Option (String × ℕ)
content [] p = none
content (r ∷ rs) p = if position_in_range r p then some (kept_at r p) else content rs p

abbrev pub or_content : Option (String × ℕ) → Option (String × ℕ) → Option (String × ℕ)
or_content (some c) o = some c
or_content none o = o

pub content_nil : (p : ℕ) → content [] p ≡ none
unfolding content
content_nil p = refl

content-append :
    (xs ys : List PageRange) (p : ℕ)
    → content (xs ++ ys) p ≡ or_content (content xs p) (content ys p)
unfolding content
content-append [] ys p = refl
content-append (x ∷ xs) ys p = ground (arith, content-append xs ys p)

pub content_below :
    (lo : ℕ) (rs : List PageRange) (p : ℕ) → Ordered lo rs → p < lo → content rs p ≡ none
unfolding content
content_below lo [] p o h = refl
content_below lo (r ∷ rs) p o h = ground (arith, content_below (r.end + 1) rs p)

content-before :
    (start lo : ℕ) (rs : List PageRange) (p : ℕ)
    → Ordered lo rs
    → content (before start rs) p ≡ (if ltb p start then content rs p else none)
unfolding content before
content-before start lo [] p o = ground arith
content-before start lo (r ∷ rs) p o =
    ground (arith, content-before start (r.end + 1) rs p, content_below (r.end + 1) rs p)

content-after :
    (end lo : ℕ) (rs : List PageRange) (p : ℕ)
    → Ordered lo rs
    → content (after end rs) p ≡ (if ltb end p then content rs p else none)
unfolding content after
content-after end lo [] p o = ground arith
content-after end lo (r ∷ rs) p o =
    ground (arith, content-after end (r.end + 1) rs p, content_below (r.end + 1) rs p)

merged :
    (lo : ℕ) (rs : List PageRange) (new : PageRange) (p : ℕ)
    → Ordered lo rs
    → new.start ≤ new.end
    → or_content (content (before new.start rs) p) (content (new ∷ after new.end rs) p)
      ≡ (if position_in_range new p then some (kept_at new p) else content rs p)
unfolding content
merged lo rs new p o h =
    ground (arith, content-before new.start lo rs p, content-after new.end lo rs p)

cleared :
    (lo : ℕ) (rs : List PageRange) (start end p : ℕ)
    → Ordered lo rs
    → start ≤ end
    → or_content (content (before start rs) p) (content (after end rs) p)
      ≡ (if leb start p && leb p end then none else content rs p)
cleared lo rs start end p o h =
    ground (arith, content-before start lo rs p, content-after end lo rs p)

-- mergeRange on ordered ranges, with a new range that is not empty, never throws, and its result
-- reads at every byte as the old ranges overwritten by the new one.
pub content-merge_range :
    (lo : ℕ) (rs : List PageRange) (new : PageRange) (p : ℕ)
    → Ordered lo rs
    → new.start ≤ new.end
    → Returns
        (λ rs'.
          content rs' p ≡ (if position_in_range new p then some (kept_at new p) else content rs p))
        (merge_range rs new)
content-merge_range lo rs new p o h =
    rw (merge_range-reference lo rs new o h)
      (content-append (before new.start rs) (new ∷ after new.end rs) p ∙ merged lo rs new p o h)

-- clearRange on ordered ranges, with `start` at most `end`, never throws, and its result reads at
-- every byte as the old ranges with nothing kept from `start` to `end`.
pub content-clear_range :
    (lo : ℕ) (rs : List PageRange) (start end p : ℕ)
    → Ordered lo rs
    → start ≤ end
    → Returns
        (λ rs'. content rs' p ≡ (if leb start p && leb p end then none else content rs p))
        (clear_range rs start end)
content-clear_range lo rs start end p o h =
    rw (clear_range-reference lo rs start end o h)
      (content-append (before start rs) (after end rs) p ∙ cleared lo rs start end p o h)

Ordered-mono : (lo k : ℕ) (rs : List PageRange) → Ordered lo rs → k ≤ lo → Ordered k rs
Ordered-mono lo k [] o h = tt
Ordered-mono lo k (r ∷ rs) o h = (omega arith, o.1, o.2, o.3)

before-append-Ordered :
    (start lo k : ℕ) (rs ys : List PageRange)
    → Ordered lo rs
    → lo ≤ k
    → start ≤ k
    → Ordered k ys
    → Ordered lo (before start rs ++ ys)
unfolding before
before-append-Ordered start lo k [] ys o h e q = Ordered-mono k lo ys q h
before-append-Ordered start lo k (r ∷ rs) ys o h e q = ground (
  arith,
  before-append-Ordered start (r.end + 1) k rs ys,
  Ordered-mono k lo ys,
  Ordered-mono k (start - 1 + 1) ys,
)

after-Ordered :
    (end lo : ℕ) (rs : List PageRange) → Ordered lo rs → Ordered (end + 1) (after end rs)
unfolding after
after-Ordered end lo [] o = tt
after-Ordered end lo (r ∷ rs) o = ground (arith, after-Ordered end (r.end + 1) rs)

-- mergeRange on ordered ranges, with a new range that is not empty and keeps as many bytes as it
-- covers, returns ordered ranges.
pub merge_range-Ordered :
    (rs : List PageRange) (new : PageRange)
    → Ordered 0 rs
    → new.start ≤ new.end
    → new.persistency.count ≡ new.end + 1 - new.start
    → Returns (Ordered 0) (merge_range rs new)
merge_range-Ordered rs new o h c = rw (merge_range-reference 0 rs new o h) (
    before-append-Ordered new.start 0 new.start rs (new ∷ after new.end rs) o (omega arith)
      (omega arith) (omega arith, h, c, after-Ordered new.end 0 rs o))

-- clearRange on ordered ranges, with `start` at most `end`, returns ordered ranges.
pub clear_range-Ordered :
    (rs : List PageRange) (start end : ℕ)
    → Ordered 0 rs
    → start ≤ end
    → Returns (Ordered 0) (clear_range rs start end)
clear_range-Ordered rs start end o h = rw (clear_range-reference 0 rs start end o h) (
    before-append-Ordered start 0 (end + 1) rs (after end rs) o (omega arith) (omega arith)
      (after-Ordered end 0 rs o))
