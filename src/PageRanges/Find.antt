-- ===== src/PageRanges/Find.antt =====
-- What selectImpactedRanges returns: the index of the first range that covers `start` or lies behind
-- it, and of the last that covers `end` or lies before it.
use azurite.Prelude.{
  ℕ, zero, suc, ◌-◌, ◌≤◌, ◌≡◌, refl, ap, ◌∙◌, Bool, Option, none, some, List, [], ◌∷◌,
  if◌then◌else◌, arith, length,
}
use azurite.Errors.{ok}
use azurite.PageRanges.Model.{PageRange}
use azurite.PageRanges.Search.{
  is_first, is_last, test_at, locate_first_impacted_range, locate_last_impacted_range,
  select_impacted_ranges,
}
use azurite.PageRanges.Scan.{or, scan_first, scan_last, first_between_scan, last_between_scan}

abbrev pub shift : Option ℕ → Option ℕ
shift none = none
shift (some i) = some (suc i)

-- The first range of the list that passes a test, and the last, by index.
unfoldable pub find_first : (PageRange → Bool) → List PageRange → Option ℕ
find_first test [] = none
find_first test (r ∷ rs) = or (if test r then some 0 else none) (shift (find_first test rs))

unfoldable pub find_last : (PageRange → Bool) → List PageRange → Option ℕ
find_last test [] = none
find_last test (r ∷ rs) = or (shift (find_last test rs)) (if test r then some 0 else none)

scan_first-suc :
    (h : ℕ → Bool) (lo n : ℕ) → scan_first h (suc lo) n ≡ shift (scan_first (λ i. h (suc i)) lo n)
unfolding scan_first
scan_first-suc h lo zero = refl
scan_first-suc h lo (suc n) = ground (arith, scan_first-suc h (suc lo) n)

scan_last-suc :
    (h : ℕ → Bool) (lo n : ℕ) → scan_last h (suc lo) n ≡ shift (scan_last (λ i. h (suc i)) lo n)
unfolding scan_last
scan_last-suc h lo zero = refl
scan_last-suc h lo (suc n) = ground (arith, scan_last-suc h (suc lo) n)

scan_first-find :
    (test : PageRange → ℕ → Bool) (rs : List PageRange) (p : ℕ)
    → scan_first (test_at test rs p) 0 (length rs) ≡ find_first (λ r. test r p) rs
unfolding scan_first find_first
scan_first-find test [] p = refl
scan_first-find test (r ∷ rs) p =
    ap (or (if test r p then some 0 else none)) (
      scan_first-suc (test_at test (r ∷ rs) p) 0 (length rs) ∙ ap shift (scan_first-find test rs p))

scan_last-find :
    (test : PageRange → ℕ → Bool) (rs : List PageRange) (p : ℕ)
    → scan_last (test_at test rs p) 0 (length rs) ≡ find_last (λ r. test r p) rs
unfolding scan_last find_last
scan_last-find test [] p = refl
scan_last-find test (r ∷ rs) p =
    ap (λ o. or o (if test r p then some 0 else none))
      (scan_last-suc (test_at test (r ∷ rs) p) 0 (length rs) ∙ ap shift (scan_last-find test rs p))

-- The binary searches over the whole list find the first range that covers the position or lies
-- behind it, and the last that covers it or lies before it, whether the list is sorted or not.
pub locate_first-find :
    (rs : List PageRange) (p : ℕ)
    → (locate_first_impacted_range rs 0 (length rs) p ≡ find_first (λ r. is_first r p) rs)
      × (locate_last_impacted_range rs 0 (length rs) p ≡ find_last (λ r. is_last r p) rs)
unfolding locate_first_impacted_range locate_last_impacted_range
locate_first-find rs p = (
  first_between_scan rs p (length rs - 0) 0 (length rs) (omega arith) (omega arith)
      ∙ rw (zeroless (length rs)) (scan_first-find is_first rs p),
  last_between_scan rs p (length rs - 0) 0 (length rs) (omega arith) (omega arith)
      ∙ rw (zeroless (length rs)) (scan_last-find is_last rs p),
)
  where
    zeroless : (n : ℕ) → n - 0 ≡ n
    zeroless n = omega arith

-- The selection, with its error: an empty list is answered before the bounds are checked.
pub select-find :
    (rs : List PageRange) (start end : ℕ)
    → start ≤ end
    → select_impacted_ranges rs start end
      ≡ ok (find_first (λ r. is_first r start) rs, find_last (λ r. is_last r end) rs)
unfolding select_impacted_ranges
select-find [] start end h = unfold find_first find_last in refl
select-find (r ∷ rs) start end h =
    ground (arith, (locate_first-find (r ∷ rs) start).0, (locate_first-find (r ∷ rs) end).1)
