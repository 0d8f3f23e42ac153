-- ===== src/PageRanges/Manager.antt =====
-- PageBlobRangesManager.mergeRange, clearRange, cutRanges and fillZeroRanges. The ranges that the
-- source's mergeRange and clearRange update in place are returned.
use azurite.Prelude.{
  ℕ, ◌+◌, ◌-◌, ◌&&◌, Option, none, some, List, [], ◌∷◌, ◌++◌, if◌then◌else◌, ltb, leb, get_elem?,
  take, drop,
}
use azurite.Errors.{Result, ok, ◌>>=◌}
use azurite.PageRanges.Model.{PageRange, zero_extent_id, splice}
use azurite.PageRanges.Search.{select_impacted_ranges}

-- impactedRangesCount
abbrev pub impacted_count : Option ℕ → Option ℕ → ℕ
impacted_count none last = 0
impacted_count (some i) none = 0
impacted_count (some i) (some j) = if ltb j i then 0 else j - i + 1

-- The part of a range before `start`, and the part behind `end`.
abbrev pub part_before : ℕ → PageRange → PageRange
part_before start r = record {
  start = r.start;
  end = start - 1;
  persistency = record {
    id = r.persistency.id;
    offset = r.persistency.offset;
    count = start - r.start;
  };
}

abbrev pub part_after : ℕ → PageRange → PageRange
part_after end r = record {
  start = end + 1;
  end = r.end;
  persistency = record {
    id = r.persistency.id;
    offset = r.persistency.offset + (end + 1 - r.start);
    count = r.end - end;
  };
}

-- The split of the first impacted range, and of the last; an index past the end has no range.
unfoldable pub split_first : ℕ → Option PageRange → List PageRange
split_first start none = []
split_first start (some r) =
    if leb start r.end && ltb r.start start then part_before start r ∷ [] else []

unfoldable pub split_last : ℕ → Option PageRange → List PageRange
split_last end none = []
split_last end (some r) = if leb r.start end && ltb end r.end then part_after end r ∷ [] else []

-- `ranges[i]`
abbrev pub range_at : List PageRange → Option ℕ → Option PageRange
range_at ranges none = none
range_at ranges (some i) = get_elem? ranges i

-- mergeRange behind the selection.
unfoldable pub merge_at : List PageRange → PageRange → Option ℕ → Option ℕ → List PageRange
merge_at ranges range i j =
    if ltb 0 (impacted_count i j)
    then splice i (impacted_count i j)
        (split_first range.start (range_at ranges i)
          ++ (range ∷ split_last range.end (range_at ranges j)))
        ranges
    else splice i 0 (range ∷ []) ranges

unfoldable pub merge_range : List PageRange → PageRange → Result (List PageRange)
merge_range ranges range = do
  (i, j) ← select_impacted_ranges ranges range.start range.end
  ok (merge_at ranges range i j)

-- clearRange behind the selection.
unfoldable pub clear_at : List PageRange → ℕ → ℕ → Option ℕ → Option ℕ → List PageRange
clear_at ranges start end i j =
    if ltb 0 (impacted_count i j)
    then splice i (impacted_count i j)
        (split_first start (range_at ranges i) ++ split_last end (range_at ranges j)) ranges
    else ranges

unfoldable pub clear_range : List PageRange → ℕ → ℕ → Result (List PageRange)
clear_range ranges start end = do
  (i, j) ← select_impacted_ranges ranges start end
  ok (clear_at ranges start end i j)

-- The part of a range from `start` on, if it begins before, and the part up to `end`.
unfoldable pub cut_front : ℕ → PageRange → PageRange
cut_front start r =
    if leb start r.end && ltb r.start start
    then record {
      start = start;
      end = r.end;
      persistency = record {
        id = r.persistency.id;
        offset = start - r.start + r.persistency.offset;
        count = r.persistency.count - (start - r.start);
      };
    }
    else r

unfoldable pub cut_back : ℕ → PageRange → PageRange
cut_back end r =
    if leb r.start end && ltb end r.end
    then record {
      start = r.start;
      end = end;
      persistency = record {
        id = r.persistency.id;
        offset = r.persistency.offset;
        count = r.persistency.count - (r.end - end);
      };
    }
    else r

unfoldable pub cut_first : ℕ → List PageRange → List PageRange
cut_first start [] = []
cut_first start (r ∷ rs) = cut_front start r ∷ rs

unfoldable pub cut_last : ℕ → List PageRange → List PageRange
cut_last end [] = []
cut_last end (r ∷ []) = cut_back end r ∷ []
cut_last end (r ∷ rs) = r ∷ cut_last end rs

-- cutRanges behind the selection; `slice(i, j + 1)`.
unfoldable pub cut_at : List PageRange → ℕ → ℕ → Option ℕ → Option ℕ → List PageRange
unfolding cut_first cut_last cut_front cut_back
cut_at ranges start end none j = []
cut_at ranges start end (some i) j =
    cut_last end (cut_first start (take (impacted_count (some i) j) (drop i ranges)))

unfoldable pub cut_ranges : List PageRange → ℕ → ℕ → Result (List PageRange)
cut_ranges ranges start end = do
  (i, j) ← select_impacted_ranges ranges start end
  ok (cut_at ranges start end i j)

-- A range of zeros.
abbrev pub zeros : ℕ → ℕ → ℕ → PageRange
zeros start end count = record {
  start = start;
  end = end;
  persistency = record { id = zero_extent_id; offset = 0; count = count };
}

-- The loop of fillZeroRanges and what it pushes behind the last range; `r` is currentRange.
unfoldable pub fill_from : ℕ → PageRange → List PageRange → List PageRange
fill_from end r [] = r ∷ (if ltb r.end end then zeros (r.end + 1) end (end - r.end) ∷ [] else [])
fill_from end r (next ∷ rs) =
    let gap = next.start - 1 - r.end in
    let rest = fill_from end next rs in
    r ∷ (if ltb 0 gap then zeros (r.end + 1) (next.start - 1) gap ∷ rest else rest)

unfoldable pub fill_gaps : ℕ → ℕ → List PageRange → List PageRange
unfolding fill_from
fill_gaps start end [] = zeros start end (end + 1 - start) ∷ []
fill_gaps start end (r ∷ rs) =
    (if ltb start r.start then zeros start (r.start - 1) (r.start - start) ∷ [] else [])
    ++ fill_from end r rs

unfoldable pub fill_zero_ranges : List PageRange → ℕ → ℕ → Result (List PageRange)
fill_zero_ranges ranges start end = do
  cut ← cut_ranges ranges start end
  ok (fill_gaps start end cut)
