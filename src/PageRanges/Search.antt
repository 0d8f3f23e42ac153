-- ===== src/PageRanges/Search.antt =====
-- PageBlobRangesManager.selectImpactedRanges and the two binary searches. An index is an option:
-- `none` is Infinity from the search for the first range, and -1 from the search for the last.
use azurite.Prelude.{
  ℕ, zero, suc, ◌+◌, ◌-◌, ◌/◌, Bool, false, ◌||◌, Option, none, some, List, [], ◌∷◌, if◌then◌else◌,
  ltb, leb, ◌==◌, length, get_elem?,
}
use azurite.Errors.{Result, ok, range_error, ◌>>◌, throw_if}
use azurite.PageRanges.Model.{PageRange, position_in_range}

-- The range covers the position or lies behind it.
abbrev pub is_first : PageRange → ℕ → Bool
is_first r p = position_in_range r p || ltb p r.start

-- The range covers the position or lies before it.
abbrev pub is_last : PageRange → ℕ → Bool
is_last r p = position_in_range r p || ltb r.end p

-- A test of `ranges[i]`. No search that selectImpactedRanges makes reads past the end of the list.
abbrev pub test_at : (PageRange → ℕ → Bool) → List PageRange → ℕ → ℕ → Bool
test_at test ranges p i = elim (get_elem? ranges i) [ none ↦ false | some r ↦ test r p ]

-- The number of indices left, searchEnd - searchStart, is fuel enough: each call halves it.
unfoldable pub first_between : ℕ → List PageRange → ℕ → ℕ → ℕ → Option ℕ
first_between zero ranges search_start search_end p = none
first_between (suc fuel) ranges search_start search_end p =
    let mid = (search_start + search_end) / 2 in
    let in_left = first_between fuel ranges search_start mid p in
    let in_right = first_between fuel ranges (mid + 1) search_end p in
    let by_halves : Option ℕ = elim in_left [
      | some i ↦ some i
      | none ↦ if test_at is_first ranges p mid then some mid else in_right
    ] in
    if length ranges == 0 || leb search_end search_start
    then none
    else if search_start == search_end - 1
    then if test_at is_first ranges p search_start then some search_start else none
    else by_halves

unfoldable pub locate_first_impacted_range : List PageRange → ℕ → ℕ → ℕ → Option ℕ
locate_first_impacted_range ranges search_start search_end p =
    first_between (search_end - search_start) ranges search_start search_end p

unfoldable pub last_between : ℕ → List PageRange → ℕ → ℕ → ℕ → Option ℕ
last_between zero ranges search_start search_end p = none
last_between (suc fuel) ranges search_start search_end p =
    let mid = (search_start + search_end) / 2 in
    let in_left = last_between fuel ranges search_start mid p in
    let in_right = last_between fuel ranges (mid + 1) search_end p in
    let by_halves : Option ℕ = elim in_right [
      | some i ↦ some i
      | none ↦ if test_at is_last ranges p mid then some mid else in_left
    ] in
    if length ranges == 0 || leb search_end search_start
    then none
    else if search_start == search_end - 1
    then if test_at is_last ranges p search_start then some search_start else none
    else by_halves

unfoldable pub locate_last_impacted_range : List PageRange → ℕ → ℕ → ℕ → Option ℕ
locate_last_impacted_range ranges search_start search_end p =
    last_between (search_end - search_start) ranges search_start search_end p

unfoldable pub select_impacted_ranges : List PageRange → ℕ → ℕ → Result (Option ℕ × Option ℕ)
unfolding locate_first_impacted_range locate_last_impacted_range
select_impacted_ranges [] start end = ok (none, none)
select_impacted_ranges (r ∷ rs) start end = do
  throw_if (ltb end start) range_error
  ok (
    locate_first_impacted_range (r ∷ rs) 0 (length (r ∷ rs)) start,
    locate_last_impacted_range (r ∷ rs) 0 (length (r ∷ rs)) end,
  )
