-- ===== src/PageRanges/Tests.antt =====
-- The manager on small lists of ranges.
use azurite.Prelude.{
  ℕ, ◌+◌, ◌-◌, ◌≡◌, refl, ◌&&◌, String, none, some, List, [], ◌∷◌, if◌then◌else◌, arith, leb,
}
use azurite.Errors.{ok, err, range_error, Returns}
use azurite.PageRanges.Model.{PageRange, position_in_range, splice}
use azurite.PageRanges.Search.{
  is_first, is_last, first_between, last_between, locate_first_impacted_range,
  locate_last_impacted_range, select_impacted_ranges,
}
use azurite.PageRanges.Manager.{
  merge_range, merge_at, clear_range, clear_at, cut_ranges, cut_at, cut_first, cut_last, cut_front,
  cut_back, fill_zero_ranges, fill_gaps, fill_from, split_first, split_last, zeros,
}
use azurite.PageRanges.Find.{find_first, find_last, locate_first-find}
use azurite.PageRanges.Passes.{Ordered}
use azurite.PageRanges.Content.{content, kept_at, content-merge_range, content-clear_range}
use azurite.PageRanges.Cut.{content-cut_ranges}
use azurite.PageRanges.Fill.{Tiles, FilledBy, fill_zero_ranges-FilledBy}
use azurite.PageRanges.History.{PageOp, write, clear, run_ops, replay, Reads, run_ops-replay}

abbrev range : ℕ → ℕ → String → PageRange
range start end id = record {
  start = start;
  end = end;
  persistency = record { id = id; offset = 0; count = end + 1 - start };
}

-- |--a--|  |--b--|  |--c--|
abbrev three : List PageRange
three = range 0 511 "a" ∷ range 1024 1535 "b" ∷ range 2048 2559 "c" ∷ []

abbrev wide : PageRange
wide = range 256 2303 "d"

three-Ordered : Ordered 0 three
three-Ordered = omega arith

merge_test :
    merge_range three wide
    ≡ ok (
        range 0 255 "a"
        ∷ wide
        ∷ record {
          start = 2304;
          end = 2559;
          persistency = record { id = "c"; offset = 256; count = 256 };
        }
        ∷ [])
unfolding merge_range merge_at select_impacted_ranges locate_first_impacted_range
    locate_last_impacted_range first_between last_between splice split_first split_last
merge_test = refl

clear_test : clear_range three 512 2047 ≡ ok (range 0 511 "a" ∷ range 2048 2559 "c" ∷ [])
unfolding clear_range clear_at select_impacted_ranges locate_first_impacted_range
    locate_last_impacted_range first_between last_between splice split_first split_last
clear_test = refl

bad_test : clear_range three 5 4 ≡ err range_error
unfolding clear_range select_impacted_ranges
bad_test = refl

fill_test :
    fill_zero_ranges three 512 1200
    ≡ ok (
        zeros 512 1023 512
        ∷ record {
          start = 1024;
          end = 1200;
          persistency = record { id = "b"; offset = 0; count = 177 };
        }
        ∷ [])
unfolding fill_zero_ranges fill_gaps fill_from cut_ranges cut_at cut_first cut_last cut_front
    cut_back select_impacted_ranges locate_first_impacted_range locate_last_impacted_range
    first_between last_between
fill_test = refl

abbrev some_ops : List PageOp
some_ops = write wide ∷ clear 300 400 ∷ []

run_ops-replay_example :
    Returns (Reads 350 (replay some_ops 350 (content three 350))) (run_ops three some_ops)
run_ops-replay_example =
    run_ops-replay three some_ops 350 ((omega arith, refl), (omega arith, tt)) three-Ordered

content-merge_range_example :
    Returns
      (λ rs'.
        content rs' 300
        ≡ (if position_in_range wide 300 then some (kept_at wide 300) else content three 300))
      (merge_range three wide)
content-merge_range_example = content-merge_range 0 three wide 300 three-Ordered (omega arith)

content-clear_range_example :
    Returns
      (λ rs'.
        content rs' 1100 ≡ (if leb 512 1100 && leb 1100 1200 then none else content three 1100))
      (clear_range three 512 1200)
content-clear_range_example = content-clear_range 0 three 512 1200 1100 three-Ordered (omega arith)

fill_zero_ranges-FilledBy_example :
    Returns
      (λ out. Tiles 512 1201 out × FilledBy (content three 600) (content out 600))
      (fill_zero_ranges three 512 1200)
fill_zero_ranges-FilledBy_example =
    fill_zero_ranges-FilledBy 0 three 512 1200 600 three-Ordered (omega arith) (omega arith)

content-cut_ranges_example :
    Returns
      (λ rs'.
        content rs' 1100 ≡ (if leb 512 1100 && leb 1100 1200 then content three 1100 else none))
      (cut_ranges three 512 1200)
content-cut_ranges_example = content-cut_ranges 0 three 512 1200 1100 three-Ordered (omega arith)

locate_first-find_example :
    (locate_first_impacted_range three 0 3 600 ≡ find_first (λ r. is_first r 600) three)
    × (locate_last_impacted_range three 0 3 600 ≡ find_last (λ r. is_last r 600) three)
locate_first-find_example = locate_first-find three 600
