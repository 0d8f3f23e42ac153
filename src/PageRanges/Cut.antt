-- ===== src/PageRanges/Cut.antt =====
-- What cutRanges keeps.
use azurite.Prelude.{
  ℕ, ◌+◌, ◌≤◌, ◌≡◌, inl, inr, ◌&&◌, String, Option, none, some, List, [], ◌∷◌, if◌then◌else◌, arith,
  ltb, leb, Bool-cases, ltb→lt,
}
use native.Mathlib.Nat.{le_refl}
use azurite.Errors.{Returns}
use azurite.PageRanges.Model.{PageRange, position_in_range}
use azurite.PageRanges.Manager.{cut_front, cut_back, cut_ranges}
use azurite.PageRanges.Passes.{Ordered}
use azurite.PageRanges.Content.{content, content_nil, content_below, kept_at, or_content}
use azurite.PageRanges.Middle.{middle, middle_none, middle_skip, middle_first, cut_ranges-middle}

-- What a range gives for a byte.
abbrev one : PageRange → ℕ → Option (String × ℕ)
one r p = if position_in_range r p then some (kept_at r p) else none

one-cut_front :
    (start : ℕ) (r : PageRange) (p : ℕ)
    → start ≤ r.end
    → one (cut_front start r) p ≡ (if leb start p then one r p else none)
unfolding cut_front
one-cut_front start r p h = ground arith

one-cut_back :
    (end : ℕ) (r : PageRange) (p : ℕ)
    → r.start ≤ end
    → one (cut_back end r) p ≡ (if leb p end then one r p else none)
unfolding cut_back
one-cut_back end r p h = ground arith

start-cut_front :
    (start end : ℕ) (r : PageRange) → start ≤ end → r.start ≤ end → (cut_front start r).start ≤ end
unfolding cut_front
start-cut_front start end r h k = ground arith

one-clip :
    (start end : ℕ) (r : PageRange) (p : ℕ)
    → start ≤ end
    → start ≤ r.end
    → r.start ≤ end
    → one (cut_back end (cut_front start r)) p
      ≡ (if leb start p && leb p end then one r p else none)
one-clip start end r p h b c = ground (
  arith,
  one-cut_back end (cut_front start r) p,
  one-cut_front start r p,
  start-cut_front start end r,
)

content-cons :
    (r : PageRange) (rs : List PageRange) (p : ℕ)
    → content (r ∷ rs) p ≡ or_content (one r p) (content rs p)
unfolding content
content-cons r rs p = ground arith

pub content-middle :
    (start end lo : ℕ) (rs : List PageRange) (p : ℕ)
    → Ordered lo rs
    → start ≤ end
    → content (middle start end rs) p ≡ (if leb start p && leb p end then content rs p else none)
content-middle start end lo [] p o h = unfold content middle in ground arith
content-middle start end lo (r ∷ rs) p o h = elim (Bool-cases (ltb r.end start)) [
  | inl b ↦
      let b' = ltb→lt _ _ b in
      rw (middle_skip start end lo r rs o h b')
        (ground (arith, content-middle start end (r.end + 1) rs p, content-cons r rs p))
  | inr b ↦ elim (Bool-cases (ltb end r.start)) [
    | inl c ↦
        rw (middle_none start end r.start (r ∷ rs) (le_refl r.start, o.1, o.2, o.3) (ltb→lt _ _ c))
          (ground (
            arith,
            content_nil p,
            content_below r.start (r ∷ rs) p (le_refl r.start, o.1, o.2, o.3),
          ))
    | inr c ↦ rw (middle_first start end lo r rs o h (ground arith) (ground arith)) (
        ground (
          arith,
          content-cons (cut_back end (cut_front start r)) (middle start end rs) p,
          one-clip start end r p,
          content-cons r rs p,
          content-middle start end (r.end + 1) rs p,
        ))
  ]
]

-- cutRanges on ordered ranges, with `start` at most `end`, never throws, and its result reads as
-- the ranges do from `start` to `end`, and as nothing elsewhere.
pub content-cut_ranges :
    (lo : ℕ) (rs : List PageRange) (start end p : ℕ)
    → Ordered lo rs
    → start ≤ end
    → Returns
        (λ rs'. content rs' p ≡ (if leb start p && leb p end then content rs p else none))
        (cut_ranges rs start end)
content-cut_ranges lo rs start end p o h =
    rw (cut_ranges-middle lo rs start end o h) (content-middle start end lo rs p o h)
